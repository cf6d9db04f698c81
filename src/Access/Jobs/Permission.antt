-- ===== src/Access/Jobs/Permission.antt =====
-- Whom createJob serves, against a description of the permission that does not go through its query.
use mathlib.Core.List.{Memᴰ}
use archivon.Prelude.{
  ℕ, ◌<◌, ◌≡◌, refl, subst, Bool, true, Option, none, some, List, [], ◌∷◌, ◌⊎◌, inl, inr, count,
  find?, err, arith, Bool-cases, Option-cases,
}
use archivon.Text.Trim.{Text}
use archivon.Store.{Db, FolderRow, FolderStatus, PermissionRow}
use archivon.Store.Tx.{access_error}
use archivon.Access.Env.{Env, User}
use archivon.Access.Jobs.{
  can_unlock, permits, folder_is_active, in_force, is_active_folder, create_job,
}
use archivon.Access.Jobs.Creating.{create_job_denied}

-- The right does not end, or ends later.
abbrev pub HasTime : ℕ → Option ℕ → Type 0
HasTime now none = Unit
HasTime now (some end) = now < end

-- A permission of the user that allows to unlock the folder and is in force, and the folder, which is
-- active.
abbrev pub IsPermission : User → (folder now : ℕ) → List FolderRow → PermissionRow → Type 0
IsPermission user folder now folders p =
    (p.tenant ≡ user.tenant)
    × (p.user ≡ user.id)
    × (p.folder ≡ folder)
    × HasTime now p.expires_at
    × ((f : FolderRow) × Memᴰ f folders × (f.id ≡ folder) × (f.status ≡ FolderStatus.active))

find-Memᴰ :
    {A : Type 0} (p : A → Bool) (xs : List A) (a : A)
    → find? p xs ≡ some a
    → Memᴰ a xs × (p a ≡ true)
find-Memᴰ p [] a e = absurd (cc)
find-Memᴰ p (x ∷ xs) a e = elim (Bool-cases (p x)) [
  | inl hit ↦
      let same : x ≡ a = ground (arith, hit, e) in
      subst (λ y. Memᴰ y (x ∷ xs) × (p y ≡ true)) same (Memᴰ.head refl, hit)
  | inr miss ↦ let (elem, hit) = find-Memᴰ p xs a (ground (arith, miss, e)) in (Memᴰ.tail elem, hit)
]

count-Memᴰ :
    {A : Type 0} (p : A → Bool) (xs : List A) → 0 < count p xs → (a : A) × Memᴰ a xs × (p a ≡ true)
count-Memᴰ p [] h = absurd (ground arith)
count-Memᴰ p (x ∷ xs) h = elim (Bool-cases (p x)) [
  | inl hit ↦ (x, Memᴰ.head refl, hit)
  | inr miss ↦
      let (a, elem, hit) = count-Memᴰ p xs (ground (arith, miss, h)) in (a, Memᴰ.tail elem, hit)
]

in_force-HasTime : (now : ℕ) (end : Option ℕ) → in_force now end ≡ true → HasTime now end
in_force-HasTime now none h = tt
in_force-HasTime now (some end) h = ground (arith, h)

active_status : (s : FolderStatus) → is_active_folder s ≡ true → s ≡ FolderStatus.active
active_status s h = ground (arith, h)

permits-IsPermission :
    (user : User) (folder now : ℕ) (folders : List FolderRow) (p : PermissionRow)
    → permits user folder now folders p ≡ true
    → IsPermission user folder now folders p
unfolding permits
permits-IsPermission user folder now folders p h =
    let (f, elem, hit) = count-Memᴰ (folder_is_active folder) folders (ground (arith, h)) in
    (
      ground (arith, h),
      ground (arith, h),
      ground (arith, h),
      in_force-HasTime now p.expires_at (ground (arith, h)),
      (f, elem, ground (arith, hit), active_status f.status (ground (arith, hit))),
    )

-- createJob serves a caller only if a permission of his lets him unlock the folder, has not run out,
-- and the folder is active. Everyone else is refused, and the tables are as they were.
pub create_job_permitted :
    (env : Env) (user : User) (text : Text) (id now : ℕ) (ip : Text) (d : Db)
    → ((p : PermissionRow) × Memᴰ p d.permissions
        × (p.can_unlock_and_access ≡ true)
        × IsPermission user (env.to_uuid text) now d.folders p)
      ⊎ (((create_job env user text id now ip d).1 ≡ d)
          × (((create_job env user text id now ip d).0 ≡ err (access_error 404 "folder_not_found"))
              ⊎ ((create_job env user text id now ip d).0
                  ≡ err (access_error 403 "unlock_not_allowed"))))
unfolding can_unlock
create_job_permitted env user text id now ip d =
    let row = find? (permits user (env.to_uuid text) now d.folders) d.permissions in
    elim (Option-cases row) [
      | inl e ↦ inr (create_job_denied env user text id now ip d (λ k. ground (arith, e, k)))
      | inr (p, e) ↦ elim (Bool-cases p.can_unlock_and_access) [
        | inr f ↦ inr (create_job_denied env user text id now ip d (λ k. ground (arith, e, f, k)))
        | inl g ↦
            let (elem, hit) =
              find-Memᴰ (permits user (env.to_uuid text) now d.folders) d.permissions p e in
            inl (p, elem, g, permits-IsPermission user (env.to_uuid text) now d.folders p hit)
      ]
    ]
