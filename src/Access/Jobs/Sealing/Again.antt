-- ===== src/Access/Jobs/Sealing/Again.antt =====
-- The seal of a folder over several requests.
use archivon.Prelude.{
  ℕ, ◌⊎◌, ◌≡◌, refl, ap, ◌∙◌, sym, subst, Bool, true, false, Option, some, List, [], ◌∷◌, inl, inr,
  find?, Result, ok, arith, Bool-cases, if◌then◌else◌,
}
use archivon.Text.Trim.{Text, trim_space, text_eq, text_eq_refl, text_eq_iff, is_empty}
use archivon.Store.{Db, FolderRow}
use archivon.Store.Tx.{Failure}
use archivon.Access.Env.{Env, Kms}
use archivon.Access.Policy.{Policy}
use archivon.Access.Jobs.{
  load_policy, load_folder_policy, seal_payload, with_folder, folder_key, stored_text, is_blank,
  store_or_compare,
}
use archivon.Access.Jobs.Sealing.{
  SealsAreClean, sealed_as, unsealed, stored_db, IsRead, with_policy, load_lem, load_found,
  update_where_twice, find-update_where,
}

module _ (tenant folder : ℕ) (expected : Text) (stored : Option Text) (d : Db) where
  ok_found : (x e : Db) → Path (Result Failure (Unit {0} × Db)) (ok (tt, x)) (ok (tt, e)) → x ≡ e
  ok_found x e h = cc

  compared_same :
      (e : Db)
      → is_empty (stored_text stored) ≡ false
      → store_or_compare tenant folder expected stored d ≡ ok (tt, e)
      → d ≡ e
  unfolding store_or_compare
  compared_same e b h = elim (Bool-cases (text_eq (stored_text stored) expected)) [
    | inl m ↦ ok_found d e (ground (arith, b, m, h))
    | inr m ↦ absurd (ground (arith, b, m, h))
  ]

  compared_equal :
      (e : Db)
      → is_empty (stored_text stored) ≡ false
      → store_or_compare tenant folder expected stored d ≡ ok (tt, e)
      → stored_text stored ≡ expected
  unfolding store_or_compare
  compared_equal e b h = elim (Bool-cases (text_eq (stored_text stored) expected)) [
    | inl m ↦ (text_eq_iff (stored_text stored) expected).0 m
    | inr m ↦ absurd (ground (arith, b, m, h))
  ]

  store_lem :
      is_empty (stored_text stored) ≡ true
      → store_or_compare tenant folder expected stored d
        ≡ ok (tt, stored_db tenant folder expected d)
  unfolding store_or_compare
  store_lem b = rw b refl

  compare_lem :
      is_empty (stored_text stored) ≡ false
      → text_eq (stored_text stored) expected ≡ true
      → store_or_compare tenant folder expected stored d ≡ ok (tt, d)
  unfolding store_or_compare
  compare_lem b m = rw (b, m) refl

module _ (env : Env) (kms : Kms) (tenant : ℕ) (folder expected : Text) (d : Db) where
  abbrev sealed_db : Db
  sealed_db = stored_db tenant (env.to_uuid folder) expected d

  loaded_again :
      (e : Db) (global p : Policy) (f : FolderRow)
      → env.kms ≡ some kms
      → IsRead env kms tenant folder e global f expected
      → store_or_compare tenant (env.to_uuid folder) expected f.policy_seal e ≡ ok (tt, e)
      → with_folder global f ≡ p
      → load_folder_policy env tenant folder e ≡ ok (p, e)
  loaded_again e global p f k read stored same =
      load_lem env kms tenant folder e global f expected k read
      ∙ ap (with_policy env kms tenant folder (with_folder global f)) stored
      ∙ ap (λ q. ok (q, e)) same

  sealed_db-IsRead :
      (global : Policy) (f : FolderRow)
      → IsRead env kms tenant folder d global f expected
      → let f' = if unsealed tenant (env.to_uuid folder) f then sealed_as expected f else f in
        IsRead env kms tenant folder sealed_db global f' expected
        × (with_folder global f' ≡ with_folder global f)
  unfolding load_policy with_folder
  sealed_db-IsRead global f (g, n, s) =
      let key = folder_key tenant (env.to_uuid folder) in
      let found =
        find-update_where key (unsealed tenant (env.to_uuid folder)) (sealed_as expected)
          (λ x. refl) d.folders f n in
      elim (Bool-cases (unsealed tenant (env.to_uuid folder) f)) [
        | inl u ↦ rw u ((ground (arith, g), found ∙ rw u refl, s), refl)
        | inr u ↦ rw u ((ground (arith, g), found ∙ rw u refl, s), refl)
      ]

  sealed_twice :
      is_empty expected ≡ false
      → stored_db tenant (env.to_uuid folder) expected sealed_db ≡ sealed_db
  sealed_twice full =
      ap (λ fs. record d { folders = fs })
        (update_where_twice (unsealed tenant (env.to_uuid folder)) (sealed_as expected)
          (λ x. ground (arith, full)) d.folders)

  settled :
      (f : FolderRow)
      → trim_space expected ≡ expected
      → is_empty expected ≡ false
      → is_empty (stored_text f.policy_seal) ≡ true
      → store_or_compare tenant
          (env.to_uuid folder)
          expected
          (if unsealed tenant (env.to_uuid folder) f then sealed_as expected f else f).policy_seal
          sealed_db
        ≡ ok (tt, sealed_db)
  settled f trimmed full blank =
      let id = env.to_uuid folder in
      elim (Bool-cases (unsealed tenant id f)) [
        | inl u ↦ rw u (
            compare_lem tenant id expected (some expected) sealed_db (ap is_empty trimmed ∙ full)
              (ap (λ t. text_eq t expected) trimmed ∙ text_eq_refl expected))
        | inr u ↦ rw u (
            store_lem tenant id expected f.policy_seal sealed_db blank
            ∙ ap (λ x. ok (tt, x)) (sealed_twice full))
      ]

-- The folder has the seal of the policy, or nothing but white space in its place.
abbrev pub IsSealed : Env → Kms → (tenant : ℕ) (folder : Text) → Policy → Db → Type 0
IsSealed env kms tenant folder p d =
    (f : FolderRow) × (t : Text) × (find? (folder_key tenant (env.to_uuid folder)) d.folders
      ≡ some f)
    × (kms.seal (seal_payload tenant folder p) ≡ ok t)
    × ((stored_text f.policy_seal ≡ t)
        ⊎ ((is_empty (stored_text f.policy_seal) ≡ true) × (is_blank f.policy_seal ≡ false)))

find-passes :
    (q : FolderRow → Bool) (fs : List FolderRow) (f : FolderRow) → find? q fs ≡ some f → q f ≡ true
find-passes q [] f e = absurd (cc)
find-passes q (x ∷ fs) f e = elim (Bool-cases (q x)) [
  | inl hit ↦ let same : x ≡ f = ground (arith, hit, e) in ap q (sym same) ∙ hit
  | inr miss ↦ find-passes q fs f (ground (arith, miss, e))
]

sealed_db-IsSealed :
    (env : Env) (kms : Kms) (tenant : ℕ) (folder expected : Text) (d : Db) (global : Policy)
    (f : FolderRow)
    → IsRead env kms tenant folder d global f expected
    → trim_space expected ≡ expected
    → is_empty (stored_text f.policy_seal) ≡ true
    → IsSealed env kms tenant folder
        (with_folder global f)
        (sealed_db env kms tenant folder expected d)
sealed_db-IsSealed env kms tenant folder expected d global f read trimmed blank =
    let id = env.to_uuid folder in
    let (again, alike) = sealed_db-IsRead env kms tenant folder expected d global f read in
    elim (Bool-cases (unsealed tenant id f)) [
      | inl u ↦ (sealed_as expected f, expected, again.1 ∙ rw u refl, read.2, inl trimmed)
      | inr u ↦ (
        f,
        expected,
        again.1 ∙ rw u refl,
        read.2,
        inr (blank, ground (arith, u, find-passes (folder_key tenant id) d.folders f read.1)),
      )
    ]

-- A load of a folder's policy that succeeds leaves the folder with the seal of that policy, or with
-- nothing but white space in its place; and the same load on the tables that it leaves succeeds again,
-- with the same policy, and changes nothing more. The seals that the key service gives are not empty
-- and have no white space around them.
pub load_folder_policy_again :
    (env : Env) (kms : Kms) (tenant : ℕ) (folder : Text) (d e : Db) (p : Policy)
    → env.kms ≡ some kms
    → SealsAreClean kms
    → load_folder_policy env tenant folder d ≡ ok (p, e)
    → IsSealed env kms tenant folder p e × (load_folder_policy env tenant folder e ≡ ok (p, e))
load_folder_policy_again env kms tenant folder d e p k clean h =
    let (global, f, expected, read, stored, same) = load_found env kms tenant folder d e p k h in
    let (trimmed, full) = clean _ expected read.2 in
    let id = env.to_uuid folder in
    elim (Bool-cases (is_empty (stored_text f.policy_seal))) [
      | inr sealed ↦
          let same_db = compared_same tenant id expected f.policy_seal d e sealed stored in
          (
            subst (IsSealed env kms tenant folder p) same_db (
              f,
              expected,
              read.1,
              ap (λ q. kms.seal (seal_payload tenant folder q)) (sym same) ∙ read.2,
              inl (compared_equal tenant id expected f.policy_seal d e sealed stored),
            ),
            subst (λ x. load_folder_policy env tenant folder x ≡ ok (p, e)) same_db h,
          )
      | inl blank ↦
          let (again, alike) = sealed_db-IsRead env kms tenant folder expected d global f read in
          let e_is : stored_db tenant id expected d ≡ e =
            ok_found tenant id expected f.policy_seal d _ e
              (sym (store_lem tenant id expected f.policy_seal d blank) ∙ stored) in
          (
            subst (λ q. IsSealed env kms tenant folder q e) same
                (subst (IsSealed env kms tenant folder (with_folder global f)) e_is (
                  sealed_db-IsSealed env kms tenant folder expected d global f read trimmed blank)),
            subst (λ x. load_folder_policy env tenant folder x ≡ ok (p, x)) e_is
                (loaded_again env kms tenant folder expected d (stored_db tenant id expected d)
                  global p _ k again (settled env kms tenant folder expected d f trimmed full blank)
                  (alike ∙ same)),
          )
    ]
