-- ===== src/Compute/Gateway/Counting.antt =====
-- The connections of a worker, counted.
use archivon.Prelude.{ℕ, ◌<◌, ◌≡◌, ◌⊎◌, refl, Bool, none, List, [], ◌∷◌, arith, ltb, find?, All}
use archivon.Text.Trim.{Text}
use archivon.Store.Table.{delete_where}
use archivon.Compute.Gateway.{
  Entry, Gateway, active_connections, has_active_connection, WorkerRow, WorkerStatus, connected,
  disconnected, conflict,
}

pub find-delete_where :
    {A : Type 0} (p : A → Bool) (xs : List A) → find? p (delete_where p xs) ≡ none
unfolding delete_where
find-delete_where p [] = refl
find-delete_where p (x ∷ xs) = ground (arith, find-delete_where p xs)

-- The status that the number of a worker's connections calls for.
abbrev pub Shows : ℕ → WorkerStatus → Type 0
Shows n status =
    ((n ≡ 0) × (status ≡ disconnected))
    ⊎ (((n ≡ 1) × (status ≡ connected)) ⊎ ((1 < n) × (status ≡ conflict)))

abbrev pub AllShow : (worker n : ℕ) → List WorkerRow → Type 0
AllShow worker n rows = All (λ (r : WorkerRow). r.id ≡ worker → Shows n r.status) rows

-- The service has an active connection exactly where the runtime status counts one.
pub has_active_connection-active_connections :
    (es : List Entry) → has_active_connection es ≡ ltb 0 (active_connections es)
unfolding has_active_connection active_connections
has_active_connection-active_connections [] = refl
has_active_connection-active_connections (e ∷ es) =
    ground (arith, has_active_connection-active_connections es)
