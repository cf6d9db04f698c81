-- ===== src/Compute/Gateway.antt =====
-- The state of the Stratum gateway of internal/compute, and the tables and connections it keeps:
-- registerConnection, unregisterConnection, runtimeStatus, HasActiveConnection, upsertWorker,
-- updateWorkerError, touchWorkerShare, resetWorkerStats, insertShare, runningJob, workStillRunning.
pub mod Counting
use archivon.Prelude.{
  ℕ, ◌+◌, ◌≡◌, Bool, true, false, not, ◌&&◌, ◌||◌, Option, none, some, List, [], ◌∷◌, ◌++◌, String,
  ltb, ◌==◌, if◌then◌else◌, length, any, find?, filter, replicate, Result, ok, err,
}
use archivon.Text.Trim.{Text, codes, text_eq, trim_space, is_empty}
use archivon.Store.{Db, JobRow, ShareRow, JobStatus}
use archivon.Store.Table.{update_where, delete_where, first_by}
use archivon.Access.Queue.{is_running}
use archivon.Compute.Share.{RunningJob, Work}

pub data WorkerStatus : Type 0 where
  connected disconnected conflict blocked : WorkerStatus

-- compute_workers
pub record WorkerRow : Type 0 where
  pub id : ℕ
  pub tenant : ℕ
  pub worker_name : Text
  pub status : WorkerStatus
  pub connection_count : ℕ
  pub last_seen_at : Option ℕ
  pub last_connected_at : Option ℕ
  pub last_disconnected_at : Option ℕ
  pub stats_reset_at : Option ℕ
  pub last_ip : Option Text
  pub last_error : Option Text

-- One entry of s.connections: the tenant and the name of a worker, and the ids of its connections.
pub record Entry : Type 0 where
  pub tenant : ℕ
  pub worker_name : Text
  pub ids : List Text

pub record Gateway : Type 0 where
  pub db : Db
  pub workers : List WorkerRow
  pub connections : List Entry

-- stratumState without its locks. `tenant` and `worker` are `none` while the source has "".
pub record StratumState : Type 0 where
  pub id : Text
  pub peer : Text
  pub tenant : Option ℕ
  pub worker : Option ℕ
  pub worker_name : Text
  pub subscribed : Bool
  pub authorized : Bool
  pub extranonce1 : Text
  pub extranonce2_size : ℕ
  pub current_work : Option Work
  pub version_rolling : Bool
  pub version_mask : Text
  pub invalid_log_count : ℕ
  pub dispatching : Bool

abbrev pub of_worker : ℕ → Text → Entry → Bool
of_worker tenant name e = e.tenant == tenant && text_eq e.worker_name name

-- The ids under a key; a missing key has none.
abbrev pub ids_in : Option Entry → List Text
ids_in none = []
ids_in (some e) = e.ids

unfoldable pub connection_ids : ℕ → Text → List Entry → List Text
unfolding text_eq
connection_ids tenant name entries = ids_in (find? (of_worker tenant name) entries)

-- A set: an id that is there is not added again.
abbrev pub add_id : Text → List Text → List Text
add_id id ids = if any (text_eq id) ids then ids else id ∷ ids

abbrev pub remove_id : Text → List Text → List Text
remove_id id ids = filter (λ (i : Text). not (text_eq id i)) ids

-- connections[key] = ids, and delete(connections, key) where no id is left
unfoldable pub set_ids : ℕ → Text → List Text → List Entry → List Entry
unfolding text_eq delete_where
set_ids tenant name [] entries = delete_where (of_worker tenant name) entries
set_ids tenant name (i ∷ ids) entries =
    record { tenant = tenant; worker_name = name; ids = i ∷ ids }
    ∷ delete_where (of_worker tenant name) entries

abbrev pub id_is : Option ℕ → WorkerRow → Bool
id_is none r = false
id_is (some id) r = r.id == id

-- `count > 1`
abbrev pub connected_or_conflict : ℕ → WorkerStatus
connected_or_conflict n = if ltb 1 n then conflict else connected

abbrev pub set_connected : WorkerStatus → ℕ → WorkerRow → WorkerRow
set_connected status now r = record r {
  status = status;
  last_connected_at = some now;
  last_seen_at = some now;
}

-- The connection, under the tenant and the name that authorize has stored.
unfoldable pub register_connection : (tenant : ℕ) → StratumState → (now : ℕ) → Gateway → Gateway
unfolding connection_ids set_ids update_where
register_connection tenant c now g =
    let ids = add_id c.id (connection_ids tenant c.worker_name g.connections) in
    record g {
      connections = set_ids tenant c.worker_name ids g.connections;
      workers =
          update_where (id_is c.worker) (set_connected (connected_or_conflict (length ids)) now)
            g.workers;
    }

abbrev pub status_of_count : ℕ → WorkerStatus
status_of_count n = if n == 1 then connected else if ltb 1 n then conflict else disconnected

abbrev pub set_disconnected : WorkerStatus → ℕ → WorkerRow → WorkerRow
set_disconnected status now r = record r { status = status; last_disconnected_at = some now }

unfoldable pub unregister_known : (tenant : ℕ) → StratumState → (now : ℕ) → Gateway → Gateway
unfolding connection_ids set_ids update_where
unregister_known tenant c now g =
    let ids = remove_id c.id (connection_ids tenant c.worker_name g.connections) in
    record g {
      connections = set_ids tenant c.worker_name ids g.connections;
      workers =
          update_where (id_is c.worker) (set_disconnected (status_of_count (length ids)) now)
            g.workers;
    }

-- `state.workerID == "" || state.workerName == "" || state.tenantID == ""`
unfoldable pub unregister_connection : StratumState → (now : ℕ) → Gateway → Gateway
unfolding unregister_known
unregister_connection c now g = elim c.tenant [
  | none ↦ g
  | some tenant ↦ elim c.worker [
    | none ↦ g
    | some w ↦ (if is_empty c.worker_name then g else unregister_known tenant c now g)
  ]
]

-- runtimeStatus: the number of connections
unfoldable pub active_connections : List Entry → ℕ
active_connections [] = 0
active_connections (e ∷ es) = length e.ids + active_connections es

unfoldable pub has_active_connection : List Entry → Bool
has_active_connection [] = false
has_active_connection (e ∷ es) = ltb 0 (length e.ids) || has_active_connection es

abbrev pub named : ℕ → Text → WorkerRow → Bool
named tenant name r = r.tenant == tenant && text_eq r.worker_name name

abbrev pub reconnect : Text → ℕ → WorkerRow → WorkerRow
reconnect peer now r = record r {
  status = connected;
  connection_count = r.connection_count + 1;
  last_seen_at = some now;
  last_connected_at = some now;
  last_ip = some peer;
  last_error = none;
}

abbrev pub new_worker : (id tenant : ℕ) → Text → WorkerStatus → (now : ℕ) → WorkerRow
new_worker id tenant name status now = record {
  id = id;
  tenant = tenant;
  worker_name = name;
  status = status;
  connection_count = 0;
  last_seen_at = some now;
  last_connected_at = none;
  last_disconnected_at = none;
  stats_reset_at = none;
  last_ip = none;
  last_error = none;
}

-- INSERT ... ON CONFLICT (tenant_id, worker_name) DO UPDATE ... RETURNING id; a new row takes `fresh`.
unfoldable pub upsert_worker :
    (fresh tenant : ℕ) (name peer : Text) (now : ℕ) → List WorkerRow → ℕ × List WorkerRow
unfolding text_eq update_where
upsert_worker fresh tenant name peer now rows = elim (find? (named tenant name) rows) [
  | some r ↦ (r.id, update_where (named tenant name) (reconnect peer now) rows)
  | none ↦ (fresh, rows ++ (reconnect peer now (new_worker fresh tenant name connected now) ∷ []))
]

abbrev pub set_error : Text → ℕ → WorkerRow → WorkerRow
set_error reason now r = record r { last_error = some reason; last_seen_at = some now }

unfoldable pub update_worker_error :
    (fresh tenant : ℕ) (name reason : Text) (now : ℕ) → List WorkerRow → List WorkerRow
unfolding text_eq update_where
update_worker_error fresh tenant name reason now rows = elim (find? (named tenant name) rows) [
  | some r ↦ update_where (named tenant name) (set_error reason now) rows
  | none ↦ rows ++ (set_error reason now (new_worker fresh tenant name blocked now) ∷ [])
]

abbrev pub nullable_string : Text → Option Text
nullable_string s = if is_empty (trim_space s) then none else some (trim_space s)

-- touchWorkerShare: the status is 'connected' for a valid share and for an invalid one
unfoldable pub touch_worker_share :
    Option ℕ → (reason : Text) (now : ℕ) → List WorkerRow → List WorkerRow
unfolding update_where trim_space
touch_worker_share worker reason now rows =
    update_where (id_is worker)
      (λ (r : WorkerRow). record r {
        status = connected;
        last_seen_at = some now;
        last_error = nullable_string reason;
      })
      rows

unfoldable pub reset_worker_stats :
    (tenant worker now : ℕ) → List WorkerRow → Option Text × List WorkerRow
unfolding update_where
reset_worker_stats tenant worker now rows =
    let mine = λ (r : WorkerRow). r.tenant == tenant && r.id == worker in
    (
      elim (find? mine rows) [ none ↦ none | some r ↦ some r.worker_name ],
      update_where mine
          (λ (r : WorkerRow). record r { stats_reset_at = some now; last_error = none }) rows,
    )

abbrev pub zero_hash : Text
zero_hash = replicate 64 b'0'

-- An empty text becomes NULL.
abbrev pub null_if_empty : Text → Option Text
null_if_empty [] = none
null_if_empty (c ∷ s) = some (c ∷ s)

unfoldable pub share_row :
    (tenant worker : ℕ) → Work → (hash : Text) → Bool → (reason : Text) → (now : ℕ) → ShareRow
share_row tenant worker w hash valid reason now = record {
  tenant = tenant;
  job = w.pow_job;
  worker = worker;
  share_hash = if is_empty hash then zero_hash else hash;
  share_target = w.target_hex;
  work = if valid then w.work else 0;
  is_valid = valid;
  rejection_reason = if valid then none else null_if_empty reason;
  submitted_at = now;
}

-- insertShare, of a connection whose tenant and worker are set; the cast of "" to uuid fails
unfoldable pub insert_share :
    StratumState → Work → (hash : Text) → Bool → (reason : Text) → (now : ℕ) → Db → Result String Db
unfolding share_row
insert_share c w hash valid reason now d = elim c.tenant [
  | none ↦ err "invalid uuid"
  | some tenant ↦ elim c.worker [
    | none ↦ err "invalid uuid"
    | some worker ↦
        ok
          (record d { shares = d.shares ++ (share_row tenant worker w hash valid reason now ∷ []) })
  ]
]

abbrev pub started_key : Option ℕ → ℕ
started_key none = 0
started_key (some at) = at

abbrev pub has_started : Option ℕ → Bool
has_started none = false
has_started (some at) = true

-- The columns that the query reads.
abbrev pub columns : JobRow → RunningJob
columns j = record {
  id = j.id;
  tenant = j.tenant;
  user = j.user;
  required_work = j.required_work;
  required_hashrate = j.required_hashrate;
  min_workers = j.min_workers;
  tolerance = j.tolerance;
  proof_window_seconds = j.proof_window_seconds;
  max_proof_attempts = j.max_proof_attempts;
  started_at = started_key j.started_at;
}

-- WHERE status = 'running' AND started_at IS NOT NULL ORDER BY started_at LIMIT 1. The join
-- with users finds every job, whose user_id is a foreign key; the name of the user is not kept.
unfoldable pub running_job : Db → Option RunningJob
unfolding first_by
running_job d =
    elim (first_by (λ (j : JobRow). started_key j.started_at)
      (λ (j : JobRow). is_running j.status && has_started j.started_at) d.jobs) [
        | none ↦ none
        | some j ↦ some (columns j)
      ]

unfoldable pub work_still_running : ℕ → Db → Bool
work_still_running job d = any (λ (j : JobRow). j.id == job && is_running j.status) d.jobs
