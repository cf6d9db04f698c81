-- ===== src/PolicySeal/Tampering.antt =====
-- A folder whose policy is not the one that was sealed is not unlocked.
use archivon.Prelude.{
  ℕ, suc, ◌≡◌, ◌⊎◌, inl, inr, refl, ap, sym, ◌∙◌, true, false, ok, err, some, [], ◌∷◌, find?,
  Bool-cases, arith, Result,
}
use archivon.Text.Trim.{Text, text_eq, text_eq_iff, is_empty, trim_space}
use archivon.Text.Uuid.{is_uuid_like, uuid_chars, is_hex_digit}
use archivon.Text.Parts.{has}
use archivon.Store.{Db, FolderRow}
use archivon.Store.Tx.{failure}
use archivon.Access.Env.{Env, User, SealPayload}
use archivon.Access.Policy.{Policy}
use archivon.Access.Jobs.{
  load_policy, folder_key, seal_payload, with_folder, can_unlock, create_job, stored_text,
}
use archivon.Access.Jobs.Creating.{create_job_seal_mismatch}
use archivon.Kms.Env.{Primitives, Service, FileRead, Fault, Documented}
use archivon.Kms.Sealing.{seal}
use archivon.Kms.Sealing.Binding.{
  Collision, key_of, sealed, seal_found, messages_agree, trim_space-sealed,
}
use archivon.PolicySeal.{folder_pow_purpose, folder_pow_policy_payload, access_kms}
use archivon.PolicySeal.Payload.{SameTerms, payload_agree}

uuid_chars-has_newline : (i : ℕ) (s : Text) → uuid_chars i s ≡ true → has 10 s ≡ false
unfolding uuid_chars is_hex_digit
uuid_chars-has_newline i [] h = refl
uuid_chars-has_newline i (c ∷ s) h =
    ground (arith, h, uuid_chars-has_newline (suc i) s (ground (arith, h)))

is_uuid_like-has_newline : (s : Text) → is_uuid_like s ≡ true → has 10 s ≡ false
unfolding is_uuid_like
is_uuid_like-has_newline s h = uuid_chars-has_newline 0 s (ground (arith, h))

purpose_line : has 10 (trim_space folder_pow_purpose) ≡ false
unfolding trim_space
purpose_line = refl

module _ (prim : Primitives) (doc : Documented prim) (s : Service) (file : FileRead) where
  -- Where one payload is sealed, another is too.
  seal_again :
      (purpose x y t : Text)
      → seal prim s file purpose x ≡ ok t
      → seal prim s file purpose y ≡ ok (sealed prim s file purpose y)
  unfolding seal
  seal_again purpose x y t e = ground (arith, e)

  stored_seal :
      (purpose x : Text)
      → stored_text (some (sealed prim s file purpose x)) ≡ sealed prim s file purpose x
  stored_seal purpose x = trim_space-sealed prim doc s file purpose x

  access_seal :
      (nonce : Result Fault Text) (of_uuid : ℕ → Text) (p : SealPayload) (t : Text)
      → seal prim s file folder_pow_purpose (folder_pow_policy_payload of_uuid p) ≡ ok t
      → (access_kms prim s file nonce of_uuid).seal p ≡ ok t
  unfolding access_kms
  access_seal nonce of_uuid p t e = rw (e) refl

  -- One seal of two payloads.
  same_terms :
      (of_uuid : ℕ → Text) (p q : SealPayload)
      → ((n : ℕ) → has 10 (of_uuid n) ≡ false)
      → has 10 p.folder ≡ false
      → has 10 q.folder ≡ false
      → sealed prim s file folder_pow_purpose (folder_pow_policy_payload of_uuid p)
        ≡ sealed prim s file folder_pow_purpose (folder_pow_policy_payload of_uuid q)
      → SameTerms of_uuid p q ⊎ Collision prim (key_of prim s file)
  same_terms of_uuid p q one_line h k e =
      elim (messages_agree prim doc (key_of prim s file) (trim_space folder_pow_purpose)
        (trim_space folder_pow_purpose) (folder_pow_policy_payload of_uuid p)
        (folder_pow_policy_payload of_uuid q) purpose_line purpose_line e) [
          | inl (purpose, payload) ↦ inl (payload_agree p q of_uuid one_line h k payload)
          | inr c ↦ inr c
        ]

-- A folder whose policy in the tables is not the one that its seal was made for, in one of the six
-- printed values, is not unlocked: createJob fails and changes nothing, or HMAC-SHA-256 has a collision
-- under the key of the service. internal/access runs on the key service of internal/kms, the seal was
-- made with the same key, and neither a printed id nor the sealed folder has a line break.
pub tampered_policy_refused :
    (prim : Primitives) (doc : Documented prim) (s : Service) (file : FileRead)
    (nonce : Result Fault Text) (of_uuid : ℕ → Text) (env : Env) (user : User) (text : Text)
    (id now : ℕ) (ip : Text) (d : Db) (global : Policy) (f : FolderRow) (q : SealPayload) (t : Text)
    → env.kms ≡ some (access_kms prim s file nonce of_uuid)
    → ((n : ℕ) → has 10 (of_uuid n) ≡ false)
    → has 10 q.folder ≡ false
    → load_policy env d ≡ ok (global, d)
    → find? (folder_key user.tenant (env.to_uuid text)) d.folders ≡ some f
    → seal prim s file folder_pow_purpose (folder_pow_policy_payload of_uuid q) ≡ ok t
    → f.policy_seal ≡ some t
    → (SameTerms of_uuid (seal_payload user.tenant text (with_folder global f)) q → ⊥)
    → is_uuid_like text ≡ true
    → can_unlock user (env.to_uuid text) now d ≡ some true
    → (create_job env user text id now ip d ≡ (err (failure "folder_pow_policy_seal_mismatch"), d))
      ⊎ Collision prim (key_of prim s file)
unfolding seal_payload
tampered_policy_refused prim doc s file nonce of_uuid env user text id now ip d global f q t k
      one_line h l m e r differ u c =
    let p = seal_payload user.tenant text (with_folder global f) in
    let expected = sealed prim s file folder_pow_purpose (folder_pow_policy_payload of_uuid p) in
    let made =
      seal_found prim s file folder_pow_purpose (folder_pow_policy_payload of_uuid q) t e in
    let stored =
      ap stored_text r
      ∙ ap (λ v. stored_text (some v)) made
      ∙ stored_seal prim doc s file folder_pow_purpose (folder_pow_policy_payload of_uuid q) in
    elim (Bool-cases (text_eq (stored_text f.policy_seal) expected)) [
      | inl same ↦
          elim (same_terms prim doc s file of_uuid p q one_line (is_uuid_like-has_newline text u) h
            (sym ((text_eq_iff (stored_text f.policy_seal) expected).0 same) ∙ stored)) [
              | inl terms ↦ absurd (differ terms)
              | inr collision ↦ inr collision
            ]
      | inr other ↦ inl (
          create_job_seal_mismatch env user text id now ip d global f
            (access_kms prim s file nonce of_uuid) expected l m k
            (access_seal prim doc s file nonce of_uuid p expected (
              seal_again prim doc s file folder_pow_purpose (folder_pow_policy_payload of_uuid q)
                (folder_pow_policy_payload of_uuid p) t e))
            (ap is_empty stored) other u c)
    ]
