-- ===== src/Audit/Restoring/Return.antt =====
-- What a clean-up takes away, its backup brings back.
use archivon.Prelude.{
  ℕ, ◌+◌, ◌≡◌, refl, ap, ◌∙◌, sym, subst, Bool, true, false, ◌||◌, some, List, [], ◌∷◌, ◌++◌,
  Result, ok, count, count-append, filter, any, length, arith, find?,
}
use archivon.Text.Trim.{Text, text_eq_refl, is_empty, codes}
use archivon.Store.Table.{update_where}
use archivon.Audit.Events.{
  Event, CleanupScope, AuditError, has_id, insert_events, in_scope, without,
  query_file_activity_events,
}
use archivon.Audit.Backups.{
  AuditEnv, AuditDb, Caller, BackupContent, BackupPayload, BackupRow, cleanup_file_activity,
  encode_backup, audit_event, backup_of, backup_row,
}
use archivon.Audit.Restoring.{restore_backup, restore_tx, check_backup, RestoreResponse, row_key}
use archivon.Audit.Restoring.Inserting.{is_broken, no_actor, ok_eq, insert_events_new, taken_broken}
use archivon.Audit.Restoring.Parting.{Distinct, count-without, count-sort_events}
use archivon.Audit.Restoring.Cleaning
use archivon.Audit.Restoring.Cleaning.{Cleaned, cleanup-Cleaned, Distinct-again}

module _ (env : AuditEnv) (user : Caller) (scope : CleanupScope) (backup_id audit_id ip : Text)
    (now : ℕ) (d : AuditDb) where
  abbrev taken : List Event
  taken = Cleaning.taken env user scope backup_id audit_id ip now d

  abbrev content : BackupContent
  content = Cleaning.content env user scope backup_id audit_id ip now d

  abbrev cleaned_event : BackupPayload → Event
  cleaned_event payload = Cleaning.cleaned_event env user scope backup_id audit_id ip now d payload

  abbrev cleaned_db : BackupPayload → AuditDb
  cleaned_db payload = Cleaning.cleaned_db env user scope backup_id audit_id ip now d payload

  or_true : (b : Bool) → (b || true) ≡ true
  or_true true = refl
  or_true false = refl

  check_backup_done :
      (raw checksum : Text)
      → env.unmarshal_payload raw ≡ ok (backup_of env content checksum)
      → encode_backup env content ≡ ok checksum
      → is_empty backup_id ≡ false
      → check_backup env user raw ≡ ok (content, checksum)
  unfolding check_backup
  check_backup_done raw checksum m h k =
      rw
        (
          check_backup,
          m,
          text_eq_refl user.tenant,
          k,
          h,
          text_eq_refl checksum,
          or_true (is_empty checksum),
        )
        refl

  find_row :
      (p : BackupRow → Bool) (rows : List BackupRow) (r : BackupRow)
      → any p rows ≡ false
      → p r ≡ true
      → find? p (rows ++ (r ∷ [])) ≡ some r
  find_row p [] r h k = rw (k) refl
  find_row p (x ∷ rows) r h k = ground (arith, h, find_row p rows r (ground (arith, h)) k)

  taken_whole :
      count (no_actor d.users) d.events ≡ 0 → count (is_broken d.users user.tenant) taken ≡ 0
  unfolding query_file_activity_events
  taken_whole h = omega (
    arith,
    count-sort_events (is_broken d.users user.tenant)
        (filter (in_scope env.has_key user.tenant scope now) d.events),
    taken_broken env.has_key d.users user.tenant scope now d.events,
    h,
  )

  put_back :
      (payload : BackupPayload)
      → Distinct d.events
      → count (has_id audit_id) d.events ≡ 0
      → count (no_actor d.users) d.events ≡ 0
      → insert_events d.users user.tenant taken ((cleaned_db payload).events, 0)
        ≡ ok ((cleaned_db payload).events ++ taken, length taken)
  put_back payload h fresh actors =
      insert_events_new d.users user.tenant taken (cleaned_db payload).events 0 (taken_whole actors)
        (Distinct-again env user scope backup_id audit_id ip now d payload h fresh)
      ∙ ok_eq ((cleaned_db payload).events ++ taken) ((cleaned_db payload).events ++ taken)
          (0 + length taken) (length taken) refl (omega arith)

  module _ (audit_id' ip' : Text) (later : ℕ) where
    abbrev pub restored_event : BackupPayload → Event
    restored_event payload =
        audit_event env user audit_id' (codes "audit.file_activity.restored") backup_id ip'
          (env.restored_details backup_id payload.checksum (length payload.content.events)) later

    abbrev response : (checksum : Text) → RestoreResponse env
    response checksum = record {
      backup_id = backup_id;
      checksum = checksum;
      restored_events = length taken;
    }

    -- The events after both calls.
    abbrev events_after : (checksum : Text) → List Event
    events_after checksum =
        ((cleaned_db (backup_of env content checksum)).events ++ taken)
        ++ (restored_event (backup_of env content checksum) ∷ [])

    abbrev restored_db : (checksum : Text) → AuditDb
    restored_db checksum = record d {
      events = events_after checksum;
      backups =
          update_where (row_key env user.tenant backup_id)
            (λ (r : BackupRow). record r { restored_at = some later })
            (d.backups ++ (backup_row env user (backup_of env content checksum) ∷ []));
    }

    restore_tx_done :
        (checksum : Text)
        → Distinct d.events
        → count (has_id audit_id) d.events ≡ 0
        → count (no_actor d.users) d.events ≡ 0
        → any (row_key env user.tenant backup_id) d.backups ≡ false
        → env.to_uuid backup_id ≡ some backup_id
        → restore_tx env user content checksum audit_id' ip' later
            (cleaned_db (backup_of env content checksum))
          ≡ ok (response checksum, restored_db checksum)
    unfolding restore_tx
    restore_tx_done checksum h fresh actors unused cast =
        rw
          (
            restore_tx,
            cast,
            find_row (row_key env user.tenant backup_id) d.backups
                (backup_row env user (backup_of env content checksum)) unused
                (ground (arith, text_eq_refl user.tenant, text_eq_refl backup_id)),
            text_eq_refl checksum,
            put_back (backup_of env content checksum) h fresh actors,
          )
          refl

    restore_done :
        (raw checksum : Text)
        → env.unmarshal_payload raw ≡ ok (backup_of env content checksum)
        → encode_backup env content ≡ ok checksum
        → is_empty backup_id ≡ false
        → restore_tx env user content checksum audit_id' ip' later
            (cleaned_db (backup_of env content checksum))
          ≡ ok (response checksum, restored_db checksum)
        → restore_backup env user raw audit_id' ip' later
            (cleaned_db (backup_of env content checksum))
          ≡ (ok (response checksum), restored_db checksum)
    unfolding restore_backup
    restore_done raw checksum m h k t =
        rw (restore_backup, check_backup_done raw checksum m h k, t) refl

    count-events_after :
        (q : Event → Bool) (checksum : Text)
        → Distinct d.events
        → count q (events_after checksum)
          ≡ count q d.events
            + count q (
                cleaned_event (backup_of env content checksum)
                ∷ restored_event (backup_of env content checksum)
                ∷ [])
    unfolding query_file_activity_events
    count-events_after q checksum h = ground (
      arith,
      count-append q ((cleaned_db (backup_of env content checksum)).events ++ taken)
          (restored_event (backup_of env content checksum) ∷ []),
      count-append q (cleaned_db (backup_of env content checksum)).events taken,
      count-append q (without taken d.events) (cleaned_event (backup_of env content checksum) ∷ []),
      count-without q (in_scope env.has_key user.tenant scope now) d.events h,
    )

    -- What restoring gives, for a backup and the tables that it is restored to.
    abbrev Returned : (raw : Text) (q : Event → Bool) → BackupPayload → AuditDb → Type 0
    Returned raw q payload after =
        ((restore_backup env user raw audit_id' ip' later after).0
          ≡ ok (record {
            backup_id = backup_id;
            checksum = payload.checksum;
            restored_events = length payload.content.events;
          }))
        × (count q (restore_backup env user raw audit_id' ip' later after).1.events
            ≡ count q d.events + count q (cleaned_event payload ∷ restored_event payload ∷ []))

    returned :
        (raw checksum : Text) (q : Event → Bool)
        → env.unmarshal_payload raw ≡ ok (backup_of env content checksum)
        → encode_backup env content ≡ ok checksum
        → is_empty backup_id ≡ false
        → Distinct d.events
        → restore_tx env user content checksum audit_id' ip' later
            (cleaned_db (backup_of env content checksum))
          ≡ ok (response checksum, restored_db checksum)
        → Returned raw q
            (backup_of env content checksum)
            (cleaned_db (backup_of env content checksum))
    returned raw checksum q m h k distinct t =
        let run = restore_done raw checksum m h k t in
        (
          ap (λ r. r.0) run,
          ap (λ (r : Result AuditError (RestoreResponse env) × AuditDb). count q r.1.events) run
              ∙ count-events_after q checksum distinct,
        )

-- A backup that cleanupFileActivity gave is restored by restoreBackup on the tables that the clean-up
-- left: all its events come back, and the table has the events that it had before the clean-up and two
-- more, the records of the clean-up and of the restoring (a test `q` is met by as many events). The
-- printed backup is read back as it was, ids are unique and the new ones unused, and every actor of an
-- event is still a user.
pub restore_backup-cleanup_file_activity :
    (env : AuditEnv) (user : Caller) (scope : CleanupScope) (backup_id audit_id ip : Text) (now : ℕ)
    (d : AuditDb) (payload : BackupPayload) (raw audit_id' ip' : Text) (later : ℕ)
    (q : Event → Bool)
    → (env.marshal_payload payload ≡ ok raw → env.unmarshal_payload raw ≡ ok payload)
    → Distinct d.events
    → count (no_actor d.users) d.events ≡ 0
    → count (has_id audit_id) d.events ≡ 0
    → any (row_key env user.tenant backup_id) d.backups ≡ false
    → is_empty backup_id ≡ false
    → env.to_uuid backup_id ≡ some backup_id
    → (cleanup_file_activity env user scope backup_id audit_id ip now d).0 ≡ ok (payload, raw)
    → ((restore_backup env user raw audit_id' ip' later
          (cleanup_file_activity env user scope backup_id audit_id ip now d).1).0
        ≡ ok (record {
          backup_id = backup_id;
          checksum = payload.checksum;
          restored_events = length payload.content.events;
        }))
      × (count q
            (restore_backup env user raw audit_id' ip' later
              (cleanup_file_activity env user scope backup_id audit_id ip now d).1).1.events
          ≡ count q d.events
            + count q (
                Cleaning.cleaned_event env user scope backup_id audit_id ip now d payload
                ∷ restored_event env user scope backup_id audit_id ip now d audit_id' ip' later
                    payload
                ∷ []))
restore_backup-cleanup_file_activity env user scope backup_id audit_id ip now d payload raw
      audit_id' ip' later q read distinct actors fresh unused named cast e =
    let c = cleanup-Cleaned env user scope backup_id audit_id ip now d payload raw e in
    let whole = ap (λ v. backup_of env v payload.checksum) c.same_content in
    subst (Returned env user scope backup_id audit_id ip now d audit_id' ip' later raw q payload)
      (sym c.left)
      (subst
        (λ p.
          Returned env user scope backup_id audit_id ip now d audit_id' ip' later raw q p
            (Cleaning.cleaned_db env user scope backup_id audit_id ip now d p))
        (sym whole)
        (returned env user scope backup_id audit_id ip now d audit_id' ip' later raw
          payload.checksum q (read c.printed ∙ ap (λ (p : BackupPayload). ok p) whole) c.encoded
          named distinct
          (restore_tx_done env user scope backup_id audit_id ip now d audit_id' ip' later
            payload.checksum distinct fresh actors unused cast)))
