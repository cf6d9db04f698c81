-- ===== src/Audit/Events.antt =====
-- Events of internal/audit: fileActivitySQL, queryFileActivityEventsTx, deleteEventsTx, insertEventsTx,
-- and what the service takes from elsewhere. An id is the text that a uuid prints as.
use archivon.Prelude.{
  ℕ, ◌+◌, ◌-◌, ◌*◌, ◌/◌, ◌%◌, Bool, true, false, not, ◌&&◌, ◌||◌, Option, none, some, List, [], ◌∷◌,
  ◌++◌, Result, ok, err, ◌>>=◌, if◌then◌else◌, any, filter, leb, ltb, ◌==◌, String, length,
}
use archivon.Text.Trim.{Text, codes, text_eq}

-- Event, and a row of audit_events; an absent text is empty
pub record Event : Type 0 where
  pub id : Text
  pub tenant : Text
  pub actor : Option Text
  pub event_type : Text
  pub target_type : Text
  pub target_id : Option Text
  pub severity : Text
  pub ip_address : Text
  pub details : Text
  pub created_at : ℕ

-- cleanupScope
pub record CleanupScope : Type 0 where
  pub older_than_days : Option ℕ
  pub before : Option ℕ

pub data AuditError : Type 0 where
  no_clear_all checksum_mismatch backup_not_found backup_already_restored : AuditError
  other : String → AuditError

-- `details ? key` of a json text
abbrev pub HasKey : Type 0
HasKey = (details key : Text) → Bool

abbrev pub one_of : List Text → Text → Bool
one_of names t = any (λ name. text_eq name t) names

-- fileActivitySQL
unfoldable pub is_file_activity : HasKey → Event → Bool
unfolding text_eq
is_file_activity has_key e =
    one_of (codes "archive.file.downloaded" ∷ codes "archive.permission.updated" ∷ []) e.event_type
    || (one_of (codes "file" ∷ codes "protected_folder" ∷ []) e.target_type
        || any (has_key e.details) (
            codes "file_id"
            ∷ codes "file_name"
            ∷ codes "folder_id"
            ∷ codes "plaintext_sha256"
            ∷ []))

abbrev pub earlier : Option ℕ → Event → Bool
earlier none e = true
earlier (some t) e = ltb e.created_at t

-- time.Duration(days)*24*time.Hour: nanoseconds in 64 bits, which wrap around
unfoldable pub duration : (days : ℕ) → ℕ
duration days = (days * 86400000000000) % 18446744073709551616

-- time.Now().Add(-duration), in microseconds; the upper half of the values is negative
unfoldable pub time_before : (now days : ℕ) → ℕ
unfolding duration
time_before now days =
    if leb (duration days) 9223372036854775808
    then now - duration days / 1000
    else now + (18446744073709551616 - duration days) / 1000

-- the bound where the days are given and not zero
unfoldable pub cutoff : ℕ → Option ℕ → Option ℕ
unfolding time_before
cutoff now none = none
cutoff now (some days) = if ltb 0 days then some (time_before now days) else none

-- The conditions of queryFileActivityEventsTx.
unfoldable pub in_scope : HasKey → (tenant : Text) → CleanupScope → (now : ℕ) → Event → Bool
unfolding is_file_activity cutoff
in_scope has_key tenant scope now e =
    text_eq e.tenant tenant
    && (is_file_activity has_key e
        && (not (
              one_of
                (codes "audit.file_activity.cleaned" ∷ codes "audit.file_activity.restored" ∷ [])
                e.event_type)
            && (earlier scope.before e && earlier (cutoff now scope.older_than_days) e)))

-- The order of uuids, which is that of their texts.
unfoldable pub id_ltb : Text → Text → Bool
id_ltb [] [] = false
id_ltb [] (b ∷ t) = true
id_ltb (a ∷ s) [] = false
id_ltb (a ∷ s) (b ∷ t) = ltb a b || (a == b && id_ltb s t)

abbrev pub comes_before : Event → Event → Bool
comes_before e f =
    ltb e.created_at f.created_at || (e.created_at == f.created_at && id_ltb e.id f.id)

unfoldable pub insert_by_time : Event → List Event → List Event
unfolding id_ltb
insert_by_time e [] = e ∷ []
insert_by_time e (f ∷ fs) =
    let rest = insert_by_time e fs in if comes_before f e then f ∷ rest else e ∷ f ∷ fs

-- ORDER BY created_at ASC, id ASC
unfoldable pub sort_events : List Event → List Event
unfolding insert_by_time
sort_events [] = []
sort_events (e ∷ es) = insert_by_time e (sort_events es)

-- queryFileActivityEventsTx
unfoldable pub query_file_activity_events :
    HasKey → (tenant : Text) → CleanupScope → (now : ℕ) → List Event → List Event
unfolding in_scope sort_events
query_file_activity_events has_key tenant scope now es =
    sort_events (filter (in_scope has_key tenant scope now) es)

abbrev pub has_id : Text → Event → Bool
has_id id e = text_eq e.id id

-- The events whose ids are not among the ids of `gone`.
unfoldable pub without : (gone : List Event) → List Event → List Event
unfolding text_eq
without gone es = filter (λ e. not (any (has_id e.id) gone)) es

-- deleteEventsTx; a statement takes `max_parameters` at most
unfoldable pub delete_events :
    (max_parameters : ℕ) (gone : List Event) → List Event → Result AuditError (List Event)
unfolding without
delete_events max_parameters gone es =
    if ltb max_parameters (length gone)
    then err (other "too many parameters")
    else ok (without gone es)

-- The foreign key: an event's actor is a user.
abbrev pub has_actor : (users : List Text) → Option Text → Bool
has_actor users none = true
has_actor users (some id) = one_of users id

-- One round of insertEventsTx: the rows and how many were inserted. ON CONFLICT (id) DO NOTHING.
unfoldable pub insert_event :
    (users : List Text) (tenant : Text)
    → Event
    → (List Event × ℕ)
    → Result AuditError (List Event × ℕ)
unfolding text_eq
insert_event users tenant e (rows, restored) =
    if not (text_eq e.tenant tenant)
    then err (other "backup_tenant_mismatch")
    else if any (has_id e.id) rows
    then ok (rows, restored)
    else if has_actor users e.actor
    then ok (rows ++ (e ∷ []), restored + 1)
    else err (other "foreign key")

-- insertEventsTx
unfoldable pub insert_events :
    (users : List Text) (tenant : Text)
    → List Event
    → (List Event × ℕ)
    → Result AuditError (List Event × ℕ)
unfolding insert_event
insert_events users tenant [] state = ok state
insert_events users tenant (e ∷ es) state = do
  next ← insert_event users tenant e state
  insert_events users tenant es next
