-- ===== src/Kms/Slots.antt =====
-- Status, State and Ready, with upsertKeySlot: each check of a usable key is written to kms_key_slots.
use archivon.Prelude.{
  ℕ, Bool, not, ◌&&◌, Option, none, some, List, [], ◌∷◌, ◌++◌, if◌then◌else◌, any, ◌==◌, String,
}
use archivon.Text.Trim.{Text, codes, text_eq}
use archivon.Store.Table.{update_where}
use archivon.Kms.Env.{Primitives, Service, FileRead, Status}
use archivon.Kms.Keys.{load_key, state_name}

-- A row of kms_key_slots; purpose is 'master' and status 'active' in every row that is written here.
pub record SlotRow : Type 0 where
  pub tenant : ℕ
  pub key_id : Text
  pub provider : Text
  pub status : Text
  pub fingerprint : Text
  pub last_seen_at : ℕ

abbrev pub slot_key : ℕ → Text → SlotRow → Bool
slot_key tenant key_id r = r.tenant == tenant && text_eq r.key_id key_id

abbrev pub seen : Status → ℕ → SlotRow → SlotRow
seen status now r = record r {
  provider = status.provider;
  status = codes "active";
  fingerprint = status.fingerprint;
  last_seen_at = now;
}

abbrev pub new_slot : ℕ → Status → ℕ → SlotRow
new_slot tenant status now = record {
  tenant = tenant;
  key_id = status.key_id;
  provider = status.provider;
  status = codes "active";
  fingerprint = status.fingerprint;
  last_seen_at = now;
}

-- INSERT ... ON CONFLICT (tenant_id, key_id) DO UPDATE; `tenant` is the default tenant, where there is one
unfoldable pub upsert_key_slot :
    Service → (tenant : Option ℕ) (status : Status) (now : ℕ) → List SlotRow → List SlotRow
unfolding text_eq update_where
upsert_key_slot s none status now slots = slots
upsert_key_slot s (some tenant) status now slots =
    if not s.has_db
    then slots
    else if any (slot_key tenant status.key_id) slots
    then update_where (slot_key tenant status.key_id) (seen status now) slots
    else slots ++ (new_slot tenant status now ∷ [])

-- Status
unfoldable pub status_of :
    Primitives
    → Service
    → FileRead
    → (tenant : Option ℕ) (now : ℕ) → List SlotRow
    → Status × List SlotRow
unfolding load_key upsert_key_slot
status_of prim s file tenant now slots =
    let status = (load_key prim s file).status in
    if status.available
    then (status, upsert_key_slot s tenant status now slots)
    else (status, slots)

-- State
unfoldable pub state_of :
    Primitives
    → Service
    → FileRead
    → (tenant : Option ℕ) (now : ℕ) → List SlotRow
    → String × List SlotRow
unfolding status_of
state_of prim s file tenant now slots =
    let (status, after) = status_of prim s file tenant now slots in (state_name status.state, after)

-- Ready
unfoldable pub is_ready :
    Primitives
    → Service
    → FileRead
    → (tenant : Option ℕ) (now : ℕ) → List SlotRow
    → Bool × List SlotRow
unfolding status_of
is_ready prim s file tenant now slots =
    let (status, after) = status_of prim s file tenant now slots in (status.available, after)
