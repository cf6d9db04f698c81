-- ===== src/Audit/Witnesses.antt =====
-- Tests of internal/audit, and its theorem at an input that meets its hypotheses.
use archivon.Prelude.{ℕ, ◌≤◌, ◌≡◌, refl, true, false, none, some, [], ◌∷◌, ok, err, count, arith}
use archivon.Text.Trim.{Text, codes, text_eq, text_eq_iff}
use archivon.Audit.Events.{Event, CleanupScope, cutoff}
use archivon.Audit.Backups.{
  AuditEnv, AuditDb, Caller, BackupPayload, cleanup_file_activity, backup_format,
}
use archivon.Audit.Restoring.{restore_backup}
use archivon.Audit.Restoring.Return.{restore_backup-cleanup_file_activity}

-- A retention of more than 106751 days overflows the duration: the bound lies in the future.
overflow_test : cutoff 1000 (some 200000) ≡ some 1166744073710551
unfolding cutoff
overflow_test = refl

abbrev event : (id : Text) → (created_at : ℕ) → Event
event id created_at = record {
  id = id;
  tenant = codes "t";
  actor = some (codes "u");
  event_type = codes "archive.file.downloaded";
  target_type = codes "file";
  target_id = none;
  severity = codes "info";
  ip_address = [];
  details = [];
  created_at = created_at;
}

abbrev admin_event : Event
admin_event = record (event (codes "c") 3) {
  event_type = codes "auth.logout";
  target_type = codes "user";
}

-- Two events on files, the later one first, and one that is none.
abbrev example_db : AuditDb
example_db = record {
  events = event (codes "b") 2 ∷ event (codes "a") 1 ∷ admin_event ∷ [];
  backups = [];
  users = codes "u" ∷ [];
  setting = none;
}

abbrev user : Caller
user = record { id = codes "u"; tenant = codes "t" }

abbrev everything : CleanupScope
everything = record { older_than_days = some 0; before = none }

abbrev example_payload : BackupPayload
example_payload = record {
  content = record {
    format = backup_format;
    backup_id = codes "k";
    tenant = codes "t";
    created_at = 9;
    created_by = codes "u";
    scope = everything;
    event_count = 2;
    events = event (codes "a") 1 ∷ event (codes "b") 2 ∷ [];
  };
  checksum = codes "07";
}

abbrev example_env : AuditEnv
example_env = record {
  has_key = λ details key. false;
  max_parameters = 65535;
  sha256 = λ t. 7 ∷ [];
  marshal_content = λ c. ok [];
  marshal_payload = λ p. ok (1 ∷ []);
  unmarshal_payload = λ t. ok example_payload;
  unmarshal_policy = λ t. err "none";
  to_uuid = λ t. some t;
  cleaned_details = λ p. [];
  restored_details = λ backup checksum n. [];
}

abbrev cleaned : AuditDb
cleaned =
    (cleanup_file_activity example_env user everything (codes "k") (codes "x") [] 9 example_db).1

apart : (s t i : Text) → text_eq s t ≡ false → text_eq s i ≡ true → text_eq t i ≡ false
apart s t i h k = ground (arith, h, k, text_eq_iff s i, text_eq_iff t i, text_eq_iff s t)

distinct : (i : Text) → count (λ (e : Event). text_eq e.id i) example_db.events ≤ 1
unfolding text_eq
distinct i = ground (
  arith,
  apart (codes "b") (codes "a") i refl,
  apart (codes "b") (codes "c") i refl,
  apart (codes "a") (codes "c") i refl,
)

restore_backup-cleanup_file_activity_example :
    ((restore_backup example_env user (1 ∷ []) (codes "y") [] 12 cleaned).0
      ≡ ok (record { backup_id = codes "k"; checksum = codes "07"; restored_events = 2 }))
    × (count
          (λ (e : Event). text_eq e.event_type (codes "auth.logout"))
          (restore_backup example_env user (1 ∷ []) (codes "y") [] 12 cleaned).1.events
        ≡ 1)
unfolding cleanup_file_activity
restore_backup-cleanup_file_activity_example =
    restore_backup-cleanup_file_activity example_env user everything (codes "k") (codes "x") [] 9
      example_db example_payload (1 ∷ []) (codes "y") [] 12
      (λ (e : Event). text_eq e.event_type (codes "auth.logout")) (λ _. refl) distinct refl refl
      refl refl refl refl
