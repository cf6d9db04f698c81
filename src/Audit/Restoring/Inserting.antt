-- ===== src/Audit/Restoring/Inserting.antt =====
-- insertEventsTx puts back every event that a clean-up took.
use archivon.Prelude.{
  ℕ, ◌+◌, ◌≤◌, ◌≡◌, refl, ap, ◌∙◌, Bool, true, false, not, ◌&&◌, List, [], ◌∷◌, ◌++◌, Result, ok,
  count, count-append, filter, any, length, arith, Bool-cases, inl, inr,
}
use archivon.Text.Trim.{Text, text_eq, text_eq_refl}
use archivon.Audit.Events.{
  Event, CleanupScope, AuditError, has_id, has_actor, insert_event, insert_events, in_scope, HasKey,
}
use archivon.Audit.Restoring.Parting.{any-count}

-- The event is of another tenant, or its actor is no user.
abbrev pub is_broken : (users : List Text) (tenant : Text) → Event → Bool
is_broken users tenant e = not (text_eq e.tenant tenant && has_actor users e.actor)

abbrev pub no_actor : (users : List Text) → Event → Bool
no_actor users e = not (has_actor users e.actor)

append_assoc : (a : List Event) (e : Event) (b : List Event) → (a ++ (e ∷ [])) ++ b ≡ a ++ (e ∷ b)
append_assoc [] e b = refl
append_assoc (x ∷ a) e b = ap (λ rest. x ∷ rest) (append_assoc a e b)

insert_event_new :
    (users : List Text) (tenant : Text) (e : Event) (rows : List Event) (n : ℕ)
    → is_broken users tenant e ≡ false
    → any (has_id e.id) rows ≡ false
    → insert_event users tenant e (rows, n) ≡ ok (rows ++ (e ∷ []), n + 1)
unfolding insert_event
insert_event_new users tenant e rows n h k = ground (arith, h, k)

append_nil : (a : List Event) → a ≡ a ++ []
append_nil [] = refl
append_nil (x ∷ a) = ap (λ rest. x ∷ rest) (append_nil a)

count-moved :
    (p : Event → Bool) (rows : List Event) (e : Event) (es : List Event)
    → count p (rows ++ (e ∷ [])) + count p es ≡ count p rows + count p (e ∷ es)
count-moved p rows e es = ground (arith, count-append p rows (e ∷ []))

pub ok_eq :
    (a b : List Event) (m n : ℕ)
    → a ≡ b
    → m ≡ n
    → Path (Result AuditError (List Event × ℕ)) (ok (a, m)) (ok (b, n))
ok_eq a b m n h k = cc

-- Events with new ids are all inserted.
pub insert_events_new :
    (users : List Text) (tenant : Text) (es rows : List Event) (n : ℕ)
    → count (is_broken users tenant) es ≡ 0
    → ((i : Text) → count (has_id i) rows + count (has_id i) es ≤ 1)
    → insert_events users tenant es (rows, n) ≡ ok (rows ++ es, n + length es)
unfolding insert_events
insert_events_new users tenant [] rows n h k =
    ok_eq rows (rows ++ []) n (n + 0) (append_nil rows) (omega arith)
insert_events_new users tenant (e ∷ es) rows n h k =
    rw
      (insert_event_new users tenant e rows n (ground (arith, h))
        (ground (arith, k e.id, text_eq_refl e.id, any-count (has_id e.id) rows)))
      (insert_events_new users tenant es (rows ++ (e ∷ [])) (n + 1) (ground (arith, h))
          (λ i. omega (arith, k i, count-moved (has_id i) rows e es))
        ∙ ok_eq ((rows ++ (e ∷ [])) ++ es) (rows ++ (e ∷ es)) ((n + 1) + length es)
            (n + length (e ∷ es)) (append_assoc rows e es) (omega arith))

in_scope_tenant :
    (has_key : HasKey) (tenant : Text) (scope : CleanupScope) (now : ℕ) (e : Event)
    → in_scope has_key tenant scope now e ≡ true
    → text_eq e.tenant tenant ≡ true
unfolding in_scope
in_scope_tenant has_key tenant scope now e h = ground (arith, h)

-- What is taken can be put back.
pub taken_broken :
    (has_key : HasKey) (users : List Text) (tenant : Text) (scope : CleanupScope) (now : ℕ)
    (es : List Event)
    → count (is_broken users tenant) (filter (in_scope has_key tenant scope now) es)
      ≤ count (no_actor users) es
taken_broken has_key users tenant scope now [] = omega arith
taken_broken has_key users tenant scope now (e ∷ es) =
    elim (Bool-cases (in_scope has_key tenant scope now e)) [
      | inl h ↦ ground (
        arith,
        h,
        in_scope_tenant has_key tenant scope now e h,
        taken_broken has_key users tenant scope now es,
      )
      | inr h ↦ ground (arith, h, taken_broken has_key users tenant scope now es)
    ]
