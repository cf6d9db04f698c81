-- ===== src/Access/Jobs/Sealing.antt =====
-- What loadFolderPolicy with ensureFolderPoWPolicySeal reads and writes.
pub mod Again
use archivon.Prelude.{
  ℕ, ◌≡◌, refl, ap, ◌∙◌, sym, subst, Bool, true, false, ◌&&◌, Option, none, some, List, [], ◌∷◌,
  inl, inr, find?, Result, ok, err, arith, Bool-cases, Option-cases, Result-cases, if◌then◌else◌,
}
use archivon.Text.Trim.{Text, trim_space, text_eq, text_eq_refl, is_empty}
use archivon.Store.{Db, FolderRow}
use archivon.Store.Table.{update_where}
use archivon.Store.Tx.{Failure}
use archivon.Access.Env.{Env, Kms, SealPayload}
use archivon.Access.Policy.{Policy}
use archivon.Access.Jobs.{
  load_policy, load_folder_policy, seal_payload, with_folder, folder_key, stored_text, is_blank,
  store_or_compare,
}

-- A seal is not empty and has no white space around it.
abbrev pub SealsAreClean : Kms → Type 0
SealsAreClean kms =
    (payload : SealPayload) (t : Text)
    → kms.seal payload ≡ ok t
    → (trim_space t ≡ t) × (is_empty t ≡ false)

abbrev pub sealed_as : Text → FolderRow → FolderRow
sealed_as expected f = record f { policy_seal = some expected }

abbrev pub unsealed : (tenant folder : ℕ) → FolderRow → Bool
unsealed tenant folder f = folder_key tenant folder f && is_blank f.policy_seal

abbrev pub stored_db : (tenant folder : ℕ) → Text → Db → Db
stored_db tenant folder expected d = record d {
  folders = update_where (unsealed tenant folder) (sealed_as expected) d.folders;
}

module _ (env : Env) (kms : Kms) (tenant : ℕ) (folder : Text) where
  -- What a load reads, and the seal that the policy calls for.
  abbrev pub IsRead : Db → (global : Policy) (f : FolderRow) (expected : Text) → Type 0
  IsRead d global f expected =
      (load_policy env d ≡ ok (global, d))
      × (find? (folder_key tenant (env.to_uuid folder)) d.folders ≡ some f)
      × (kms.seal (seal_payload tenant folder (with_folder global f)) ≡ ok expected)

  abbrev pub with_policy : Policy → Result Failure (Unit {0} × Db) → Result Failure (Policy × Db)
  with_policy p (ok (u, d)) = ok (p, d)
  with_policy p (err x) = err x

  load_policy-db :
      (d e : Db) (g : Policy) → load_policy env d ≡ ok (g, e) → load_policy env d ≡ ok (g, d)
  unfolding load_policy
  load_policy-db d e g h = ground (arith, h)

  pub load_lem :
      (d : Db) (global : Policy) (f : FolderRow) (expected : Text)
      → env.kms ≡ some kms
      → IsRead d global f expected
      → load_folder_policy env tenant folder d
        ≡ with_policy
            (with_folder global f)
            (store_or_compare tenant (env.to_uuid folder) expected f.policy_seal d)
  unfolding load_folder_policy
  load_lem d global f expected k (g, n, s) =
      elim (Result-cases (store_or_compare tenant (env.to_uuid folder) expected f.policy_seal d)) [
        | inl (ud, r) ↦ ground (arith, g, n, k, s, r)
        | inr (x, r) ↦ ground (arith, g, n, k, s, r)
      ]

  policy_found :
      (p q : Policy) (d e : Db) (r : Result Failure (Unit {0} × Db))
      → with_policy q r ≡ ok (p, e)
      → (r ≡ ok (tt, e)) × (q ≡ p)
  policy_found p q d e (ok (u, d')) h = (cc, cc)
  policy_found p q d e (err x) h = absurd (cc)

  pub load_found :
      (d e : Db) (p : Policy)
      → env.kms ≡ some kms
      → load_folder_policy env tenant folder d ≡ ok (p, e)
      → (global : Policy) × (f : FolderRow) × (expected : Text) × IsRead d global f expected
        × (store_or_compare tenant (env.to_uuid folder) expected f.policy_seal d ≡ ok (tt, e))
        × (with_folder global f ≡ p)
  unfolding load_folder_policy
  load_found d e p k h = elim (Result-cases (load_policy env d)) [
    | inr (x, g) ↦ absurd (ground (arith, g, h))
    | inl (gd, g) ↦
        let here = load_policy-db d gd.1 gd.0 g in
        elim (Option-cases (find? (folder_key tenant (env.to_uuid folder)) d.folders)) [
          | inl n ↦ absurd (ground (arith, here, n, h))
          | inr (f, n) ↦
              elim (Result-cases (kms.seal (seal_payload tenant folder (with_folder gd.0 f)))) [
                | inr (x, s) ↦ absurd (ground (arith, here, n, k, s, h))
                | inl (expected, s) ↦
                    let (stored, same) =
                      policy_found p (with_folder gd.0 f) d e _
                        (sym (load_lem d gd.0 f expected k (here, n, s)) ∙ h) in
                    (gd.0, f, expected, (here, n, s), stored, same)
              ]
        ]
  ]

pub update_where_twice :
    {A : Type 0} (p : A → Bool) (f : A → A)
    → ((x : A) → p (f x) ≡ false)
    → (xs : List A) → update_where p f (update_where p f xs) ≡ update_where p f xs
unfolding update_where
update_where_twice p f h [] = refl
update_where_twice p f h (x ∷ xs) = ground (arith, h x, update_where_twice p f h xs)

pub find-update_where :
    {A : Type 0} (q p : A → Bool) (g : A → A)
    → ((x : A) → q (g x) ≡ q x)
    → (xs : List A) (x : A) → find? q xs ≡ some x
    → find? q (update_where p g xs) ≡ some (if p x then g x else x)
unfolding update_where
find-update_where q p g h [] x e = absurd (cc)
find-update_where q p g h (y ∷ xs) x e = elim (Bool-cases (q y)) [
  | inl hit ↦
      let same : y ≡ x = ground (arith, hit, e) in
      subst (λ z. find? q (update_where p g (y ∷ xs)) ≡ some (if p z then g z else z)) same
        (elim (Bool-cases (p y)) [
          | inl k ↦ ground (arith, hit, k, h y)
          | inr k ↦ ground (arith, hit, k, h y)
        ])
  | inr miss ↦
      let rest = find-update_where q p g h xs x (ground (arith, miss, e)) in
      elim (Bool-cases (p y)) [
        | inl k ↦ ground (arith, miss, k, h y, rest)
        | inr k ↦ ground (arith, miss, k, h y, rest)
      ]
]
