-- ===== src/Audit/Restoring/Cleaning.antt =====
-- What a clean-up that succeeds leaves behind.
use archivon.Prelude.{
  ℕ, ◌+◌, ◌≤◌, ◌≡◌, refl, ap, ◌∙◌, sym, subst, false, List, [], ◌∷◌, ◌++◌, Result, ok, count,
  count-append, length, arith, Bool-cases, Result-cases, inl, inr, ltb,
}
use archivon.Text.Trim.{Text, text_eq, text_eq_iff, codes}
use archivon.Audit.Events.{
  Event, CleanupScope, AuditError, has_id, in_scope, without, query_file_activity_events,
  delete_events,
}
use archivon.Audit.Backups.{
  AuditEnv, AuditDb, Caller, BackupContent, BackupPayload, cleanup_tx, cleanup_file_activity,
  encode_backup, audit_event, content_of, backup_of, backup_row, may_clear_all,
}
use archivon.Audit.Restoring.Parting.{Distinct, count-without}

module _ (env : AuditEnv) (user : Caller) (scope : CleanupScope) (backup_id audit_id ip : Text)
    (now : ℕ) (d : AuditDb) where
  abbrev pub taken : List Event
  taken = query_file_activity_events env.has_key user.tenant scope now d.events

  abbrev pub content : BackupContent
  content = content_of env user scope backup_id now taken

  abbrev pub cleaned_event : BackupPayload → Event
  cleaned_event payload =
      audit_event env user audit_id (codes "audit.file_activity.cleaned") backup_id ip
        (env.cleaned_details payload) now

  abbrev pub cleaned_db : BackupPayload → AuditDb
  cleaned_db payload = record d {
    events = without taken d.events ++ (cleaned_event payload ∷ []);
    backups = d.backups ++ (backup_row env user payload ∷ []);
  }

  -- A clean-up that succeeds.
  pub record Cleaned (payload : BackupPayload) (raw : Text) (after : AuditDb) : Type 0 where
    pub same_content : payload.content ≡ content
    pub encoded : encode_backup env content ≡ ok payload.checksum
    pub printed : env.marshal_payload payload ≡ ok raw
    pub left : after ≡ cleaned_db payload

  cleanup_tx_done :
      (checksum text : Text)
      → encode_backup env content ≡ ok checksum
      → env.marshal_payload (backup_of env content checksum) ≡ ok text
      → ltb env.max_parameters (length taken) ≡ false
      → cleanup_tx env user scope backup_id audit_id ip now d
        ≡ ok (backup_of env content checksum, cleaned_db (backup_of env content checksum))
  unfolding cleanup_tx delete_events
  cleanup_tx_done checksum text h k l = rw (cleanup_tx, h, k, l) refl

  results_agree :
      (p q : BackupPayload) (a b : AuditDb)
      → Path (Result AuditError (BackupPayload × AuditDb)) (ok (p, a)) (ok (q, b))
      → (q ≡ p) × (b ≡ a)
  results_agree p q a b e = (cc, cc)

  cleanup_tx-Cleaned :
      (payload : BackupPayload) (raw : Text) (after : AuditDb)
      → cleanup_tx env user scope backup_id audit_id ip now d ≡ ok (payload, after)
      → env.marshal_payload payload ≡ ok raw
      → Cleaned payload raw after
  unfolding cleanup_tx delete_events
  cleanup_tx-Cleaned payload raw after e m = elim (Result-cases (encode_backup env content)) [
    | inr (x, h) ↦ absurd (ground (arith, h, e))
    | inl (checksum, h) ↦
        elim (Result-cases (env.marshal_payload (backup_of env content checksum))) [
          | inr (x, k) ↦ absurd (ground (arith, h, k, e))
          | inl (text, k) ↦ elim (Bool-cases (ltb env.max_parameters (length taken))) [
            | inl l ↦ absurd (ground (arith, h, k, l, e))
            | inr l ↦
                let (same, left) =
                  results_agree (backup_of env content checksum) payload
                    (cleaned_db (backup_of env content checksum)) after
                    (sym (cleanup_tx_done checksum text h k l) ∙ e) in
                record {
                  same_content = ap (λ (p : BackupPayload). p.content) same;
                  encoded = h ∙ ap (λ (p : BackupPayload). ok p.checksum) (sym same);
                  printed = m;
                  left = left ∙ ap cleaned_db (sym same);
                }
          ]
        ]
  ]

  cleanup_done :
      (u : Unit {0}) (p : BackupPayload) (text : Text) (after : AuditDb)
      → may_clear_all env scope d ≡ ok u
      → cleanup_tx env user scope backup_id audit_id ip now d ≡ ok (p, after)
      → env.marshal_payload p ≡ ok text
      → cleanup_file_activity env user scope backup_id audit_id ip now d ≡ (ok (p, text), after)
  unfolding cleanup_file_activity
  cleanup_done u p text after h k m = rw (cleanup_file_activity, h, k, m) refl

  answers_agree :
      (p q : BackupPayload) (s t : Text)
      → Path (Result AuditError (BackupPayload × Text)) (ok (p, s)) (ok (q, t))
      → (p ≡ q) × (s ≡ t)
  answers_agree p q s t e = (cc, cc)

  pub cleanup-Cleaned :
      (payload : BackupPayload) (raw : Text)
      → (cleanup_file_activity env user scope backup_id audit_id ip now d).0 ≡ ok (payload, raw)
      → Cleaned payload raw (cleanup_file_activity env user scope backup_id audit_id ip now d).1
  unfolding cleanup_file_activity
  cleanup-Cleaned payload raw e = elim (Result-cases (may_clear_all env scope d)) [
    | inr (x, h) ↦ absurd (ground (arith, h, e))
    | inl (u, h) ↦ elim (Result-cases (cleanup_tx env user scope backup_id audit_id ip now d)) [
      | inr (x, k) ↦ absurd (ground (arith, h, k, e))
      | inl ((p, after), k) ↦ elim (Result-cases (env.marshal_payload p)) [
        | inr (x, m) ↦ absurd (ground (arith, h, k, m, e))
        | inl (text, m) ↦
            let run = cleanup_done u p text after h k m in
            let (same, printed) = answers_agree p payload text raw (ap (λ r. r.0) (sym run) ∙ e) in
            subst (Cleaned payload raw) (ap (λ r. r.1) (sym run)) (
              cleanup_tx-Cleaned payload raw after
                (k ∙ ap (λ (v : BackupPayload). ok (v, after)) same)
                (ap env.marshal_payload (sym same) ∙ m ∙ ap (λ (t : Text). ok t) printed))
      ]
    ]
  ]

  -- Ids stay distinct among what is left, the new event and what is put back.
  pub Distinct-again :
      (payload : BackupPayload)
      → Distinct d.events
      → count (has_id audit_id) d.events ≡ 0
      → (i : Text)
      → count (has_id i) (without taken d.events ++ (cleaned_event payload ∷ []))
          + count (has_id i) taken
        ≤ 1
  unfolding query_file_activity_events
  Distinct-again payload h fresh i = elim (Bool-cases (text_eq audit_id i)) [
    | inl same ↦ ground (
      arith,
      same,
      count-append (has_id i) (without taken d.events) (cleaned_event payload ∷ []),
      count-without (has_id i) (in_scope env.has_key user.tenant scope now) d.events h,
      ap (λ j. count (has_id j) d.events) ((text_eq_iff audit_id i).0 same),
      fresh,
    )
    | inr other ↦ ground (
      arith,
      other,
      count-append (has_id i) (without taken d.events) (cleaned_event payload ∷ []),
      count-without (has_id i) (in_scope env.has_key user.tenant scope now) d.events h,
      h i,
    )
  ]
