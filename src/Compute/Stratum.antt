-- ===== src/Compute/Stratum.antt =====
-- The messages of one Stratum connection of internal/compute: handleMessage, handleConfigure,
-- authorize, sendWork, submitShare and one tick of workDispatchLoop. A handler keeps what it has done
-- when it fails. Every write to the connection may fail. A logger is set.
pub mod Authorize
pub mod Submit
pub mod Trust
pub mod Password
pub mod Exclusive
use archivon.Prelude.{
  ℕ, zero, suc, ◌+◌, ◌≡◌, Bool, true, false, not, ◌&&◌, ◌||◌, Option, none, some, List, [], ◌∷◌,
  ◌++◌, map, String, Result, ok, err, ltb, ◌==◌, if◌then◌else◌, length, get_elem?, any, pos,
  pos_part,
}
use archivon.Text.Trim.{Text, codes, text_eq, trim_space, is_empty}
use archivon.Store.{Db, compute_policy}
use archivon.Compute.Version.{requested_version_rolling_mask, effective_version_hex}
use archivon.Compute.Share.{
  RunningJob, Work, WorkSource, Difficulty, Verdict, build_work, verify_share,
}
use archivon.Compute.Policy.{Policy, normalize_policy}
use archivon.Compute.Gateway.{
  Gateway, StratumState, register_connection, upsert_worker, update_worker_error,
  touch_worker_share, insert_share, running_job, work_still_running,
}

-- An element of params. The texts of `number`, `names`, `options` and `other` are what it prints as.
pub data Param : Type 0 where
  null : Param
  text : Text → Param
  number : Text → Param
  names : List (Option Text) → Text → Param
  options : (mask : Option Text) → Text → Param
  other : Text → Param

pub data Method : Type 0 where
  configure subscribe extranonce_subscribe suggest_difficulty authorize submit : Method
  unknown : Text → Method

pub record Request : Type 0 where
  pub id : Text
  pub method : Method
  pub params : List Param

pub data Message : Type 0 where
  result : (id : Text) → Bool → Message
  configured : (id : Text) (extensions : List Text) (version_mask : Option Text) → Message
  subscription : (id extranonce1 : Text) (extranonce2_size : ℕ) → Message
  stratum_error : (id : Text) (code : ℕ) → String → Message
  set_difficulty : Difficulty → Message
  set_version_mask : Text → Message
  notify : Work → Message

pub data StratumError : Type 0 where
  close_stratum_connection write_failed : StratumError
  failed_with : String → StratumError

-- What the gateway takes from elsewhere; `now` is the clock while one message is handled.
pub record GatewayEnv : Type 0 where
  pub sha256 : Text → Text
  pub source : WorkSource
  pub unmarshal_policy : Text → Option Policy
  pub split_host_port : Text → Option (Text × Text)
  pub listen_address : Text
  pub password_matches : (hash password : Text) → Bool
  pub default_tenant : Option ℕ
  pub reconciler : Option (ℕ → Db → Db)
  pub writable : (sent : ℕ) → Bool
  pub fresh : ℕ
  pub now : ℕ

pub record Session : Type 0 where
  pub gateway : Gateway
  pub conn : StratumState
  pub sent : List Message

abbrev pub Handler : Type 0 → Type 0
Handler A = Session → Result StratumError A × Session

infixl 5 ◌>>=◌ ◌>>◌
abbrev pub ◌>>=◌ : {A B : Type 0} → Handler A → (A → Handler B) → Handler B
◌>>=◌ m f s = let (r, s') = m s in elim r [ ok a ↦ f a s' | err e ↦ (err e, s') ]

abbrev pub ◌>>◌ : {A B : Type 0} → Handler A → Handler B → Handler B
m >> k = m >>= λ _. k

abbrev pub done : Handler (Unit {0})
done s = (ok tt, s)

abbrev pub stop : {A : Type 0} → StratumError → Handler A
stop e s = (err e, s)

abbrev pub update_conn : (StratumState → StratumState) → Handler (Unit {0})
update_conn f s = (ok tt, record s { conn = f s.conn })

abbrev pub update_workers_of : (Gateway → Gateway) → Handler (Unit {0})
update_workers_of f s = (ok tt, record s { gateway = f s.gateway })

abbrev pub when : Bool → Handler (Unit {0}) → Handler (Unit {0})
when true m = m
when false m = done

-- The statement after `_ =`: its error is dropped.
abbrev pub ignoring : {A : Type 0} → Handler A → Handler (Unit {0})
ignoring m s = (ok tt, (m s).1)

unfoldable pub param_string_of : Option Param → Text
unfolding trim_space
param_string_of none = []
param_string_of (some null) = []
param_string_of (some (text t)) = trim_space t
param_string_of (some (number t)) = t
param_string_of (some (names ns t)) = trim_space t
param_string_of (some (options m t)) = trim_space t
param_string_of (some (other t)) = trim_space t

abbrev pub param_string : List Param → ℕ → Text
param_string params index = param_string_of (get_elem? params index)

abbrev pub add_name : Option Text → List Text → List Text
add_name none ns = ns
add_name (some n) ns = if is_empty (trim_space n) then ns else trim_space n ∷ ns

abbrev pub names_of : List (Option Text) → List Text
names_of [] = []
names_of (n ∷ ns) = add_name n (names_of ns)

unfoldable pub stratum_extension_names : List Param → List Text
unfolding trim_space
stratum_extension_names (names ns t ∷ ps) = names_of ns
stratum_extension_names _ = []

unfoldable pub stratum_extension_requested : List Text → Text → Bool
unfolding text_eq
stratum_extension_requested ns target = any (λ (n : Text). text_eq n target) ns

abbrev pub mask_option : Option Param → Option Text
mask_option (some (options m t)) = m
mask_option _ = none

module _ (env : GatewayEnv) where
  unfoldable pub send : Message → Handler (Unit {0})
  send m s =
      if env.writable (length s.sent)
      then (ok tt, record s { sent = s.sent ++ (m ∷ []) })
      else (err write_failed, s)

  unfoldable pub load_policy : Db → Option Policy
  unfolding normalize_policy
  load_policy d = elim (d.settings compute_policy) [
    | none ↦ none
    | some raw ↦ elim (env.unmarshal_policy raw) [
      | none ↦ none
      | some p ↦ some (normalize_policy env.split_host_port p env.listen_address)
    ]
  ]

  unfoldable pub handle_configure : Request → Handler (Unit {0})
  unfolding send stratum_extension_names stratum_extension_requested requested_version_rolling_mask
  handle_configure req =
      let requested = stratum_extension_names req.params in
      let mask = requested_version_rolling_mask (mask_option (get_elem? req.params 1)) in
      if stratum_extension_requested requested (codes "version-rolling")
      then update_conn (λ c. record c { version_rolling = true; version_mask = mask })
        >> send (configured req.id requested (some mask))
      else send (configured req.id requested none)

  abbrev pub subscribed_size : Option Policy → ℕ → ℕ
  subscribed_size none size = size
  subscribed_size (some p) size = pos_part p.extranonce2_size

  unfoldable pub handle_subscribe : Request → Handler (Unit {0})
  unfolding send load_policy
  handle_subscribe req s =
      let size = subscribed_size (load_policy s.gateway.db) s.conn.extranonce2_size in
      send (subscription req.id s.conn.extranonce1 size)
        (record s { conn = record s.conn { subscribed = true; extranonce2_size = size } })

  -- `state.currentWork != nil && state.currentWork.powJobID == work.powJobID`
  abbrev pub same_work : Option Work → Work → Bool
  same_work none w = false
  same_work (some v) w = v.pow_job == w.pow_job

  abbrev pub refresh : Bool → Policy → StratumState → Handler (Unit {0})
  refresh again p c = when again (
      send (set_difficulty p.share_difficulty)
      >> when (c.version_rolling && not (is_empty c.version_mask))
          (send (set_version_mask c.version_mask)))

  unfoldable pub send_built : Policy → Bool → Work → Handler (Unit {0})
  unfolding send
  send_built p again w s =
      if same_work s.conn.current_work w
      then (ok tt, s)
      else (refresh again p s.conn >> send (notify w))
          (record s { conn = record s.conn { current_work = some w; invalid_log_count = 0 } })

  unfoldable pub send_work : RunningJob → Policy → (refresh_difficulty : Bool) → Handler (Unit {0})
  unfolding send_built build_work
  send_work job p again s =
      elim (build_work env.source job s.conn.extranonce1 p.share_difficulty p.extranonce2_size) [
        | err e ↦ (err (failed_with e), s)
        | ok w ↦ send_built p again w s
      ]
