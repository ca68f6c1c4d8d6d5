-- ===== src/Handlers/Files/Laws.antt =====
-- What the setters of the handlers do to the getters.
use mender_artifact.Prelude.{
  ◌≤◌, ◌+◌, ◌&&◌, [], ◌∷◌, Option, inl, inr, ◌≡◌, refl, sym, ap, ◌∙◌, subst, ◌⊎◌, length-append,
  arith, length, ltb, Bool-cases,
}
use mender_artifact.Prelude.Result.{ok, >>=-eq-ok, ok_injective}
use mender_artifact.Handlers.{
  DataFile, Installer, rootfs, augmented_rootfs, module_image, augmented_module_image, bootstrap,
}
use mender_artifact.Handlers.Files.{
  Files, file_list, get_update_files, get_update_augment_files, get_update_all_files, at_most_one,
  set_update_files, set_augmented_rootfs, set_update_augment_files,
}

-- The handler under all augmented ones is no bootstrap artifact.
abbrev pub KeepsFiles : Installer → Type 0
KeepsFiles (augmented_rootfs d o) = KeepsFiles o
KeepsFiles (augmented_module_image d o) = KeepsFiles o
KeepsFiles (bootstrap d) = ⊥
KeepsFiles _ = Unit

file_list-at_most_one :
    (fs : Files) (u : Option DataFile) → at_most_one fs ≡ ok u → file_list u ≡ fs
unfolding at_most_one
file_list-at_most_one [] u h = ap file_list (sym (ok_injective h))
file_list-at_most_one (f ∷ []) u h = ap file_list (sym (ok_injective h))
file_list-at_most_one (f ∷ g ∷ fs) u h = cc

-- `SetUpdateFiles` of a handler that is no bootstrap artifact, nor augments one, sets what
-- `GetUpdateFiles` returns, if it succeeds, and leaves the augmented files alone. A bootstrap artifact
-- is left out: it accepts every list and returns none.
pub get_update_files-set_update_files :
    (fs : Files) (i : Installer) (i' : Installer)
    → KeepsFiles i
    → set_update_files fs i ≡ ok i'
    → (get_update_files i' ≡ fs) × (get_update_augment_files i' ≡ get_update_augment_files i)
unfolding set_update_files get_update_files get_update_augment_files
get_update_files-set_update_files fs (rootfs d) i' k h =
    let (u, one, e) = >>=-eq-ok (at_most_one fs) (λ u. ok (rootfs (record d { update = u }))) h in
    (
      ap get_update_files (sym (ok_injective e)) ∙ file_list-at_most_one fs u one,
      ap get_update_augment_files (sym (ok_injective e)),
    )
get_update_files-set_update_files fs (augmented_rootfs d o) i' k h =
    elim (Bool-cases (ltb 0 (length fs) && ltb 0 (length (file_list d.update)))) [
      | inl both ↦ cc (rw (both, set_update_files) at h)
      | inr free ↦
          let (o', set, e) =
            >>=-eq-ok (set_update_files fs o) (λ o'. ok (augmented_rootfs d o'))
              (rw (free, set_update_files) at h) in
          (
            ap get_update_files (sym (ok_injective e))
                ∙ (get_update_files-set_update_files fs o o' k set).0,
            ap get_update_augment_files (sym (ok_injective e)),
          )
    ]
get_update_files-set_update_files fs (module_image d) i' k h =
    (ap get_update_files (sym (ok_injective h)), ap get_update_augment_files (sym (ok_injective h)))
get_update_files-set_update_files fs (augmented_module_image d o) i' k h =
    let (o', set, e) =
      >>=-eq-ok (set_update_files fs o) (λ o'. ok (augmented_module_image d o')) h in
    (
      ap get_update_files (sym (ok_injective e))
          ∙ (get_update_files-set_update_files fs o o' k set).0,
      ap get_update_augment_files (sym (ok_injective e)),
    )
get_update_files-set_update_files fs (bootstrap d) i' k h = absurd k

-- `SetUpdateAugmentFiles` of a handler that is no bootstrap artifact, nor augments one, sets what
-- `GetUpdateAugmentFiles` returns, if it succeeds, and leaves the other files alone; so such a handler
-- that is not augmented accepts only the empty list. A bootstrap artifact is left out: it accepts every
-- list and returns none.
pub get_update_augment_files-set_update_augment_files :
    (fs : Files) (i i' : Installer)
    → KeepsFiles i
    → set_update_augment_files fs i ≡ ok i'
    → (get_update_augment_files i' ≡ fs) × (get_update_files i' ≡ get_update_files i)
unfolding set_update_augment_files get_update_files get_update_augment_files
get_update_augment_files-set_update_augment_files [] (rootfs d) i' k h = ground arith
get_update_augment_files-set_update_augment_files (f ∷ fs) (rootfs d) i' k h = absurd (ground arith)
get_update_augment_files-set_update_augment_files [] (augmented_rootfs d o) i' k h = ground arith
get_update_augment_files-set_update_augment_files (f ∷ []) (augmented_rootfs d o) i' k h =
    ground arith
get_update_augment_files-set_update_augment_files (f ∷ g ∷ fs) (augmented_rootfs d o) i' k h = cc
get_update_augment_files-set_update_augment_files [] (module_image d) i' k h = ground arith
get_update_augment_files-set_update_augment_files (f ∷ fs) (module_image d) i' k h =
    absurd (ground arith)
get_update_augment_files-set_update_augment_files fs (augmented_module_image d o) i' k h =
    ground arith
get_update_augment_files-set_update_augment_files fs (bootstrap d) i' k h = absurd k

-- A rootfs image, or one that augments another.
abbrev pub IsRootfs : Installer → Type 0
IsRootfs (rootfs d) = Unit
IsRootfs (augmented_rootfs d o) = IsRootfs o
IsRootfs _ = ⊥

IsRootfs-KeepsFiles : (i : Installer) → IsRootfs i → KeepsFiles i
IsRootfs-KeepsFiles (rootfs d) r = tt
IsRootfs-KeepsFiles (augmented_rootfs d o) r = IsRootfs-KeepsFiles o r
IsRootfs-KeepsFiles (module_image d) r = absurd r
IsRootfs-KeepsFiles (augmented_module_image d o) r = absurd r
IsRootfs-KeepsFiles (bootstrap d) r = absurd r

-- A rootfs payload has one file at most, counting the augmented one.
abbrev pub HasOneFile : Installer → Type 0
HasOneFile i = IsRootfs i × (length (get_update_all_files i) ≤ 1)

length-all :
    (i : Installer)
    → length (get_update_all_files i)
      ≡ length (get_update_files i) + length (get_update_augment_files i)
unfolding get_update_all_files
length-all i = length-append (get_update_files i) (get_update_augment_files i)

set_update_files-IsRootfs :
    (fs : Files) (i i' : Installer)
    → IsRootfs i
    → set_update_files fs i ≡ ok i'
    → IsRootfs i' × (length fs ≤ 1)
unfolding set_update_files
set_update_files-IsRootfs [] (rootfs d) i' r h = (subst IsRootfs (ok_injective h) tt, omega arith)
set_update_files-IsRootfs (f ∷ []) (rootfs d) i' r h =
    (subst IsRootfs (ok_injective h) tt, omega arith)
set_update_files-IsRootfs (f ∷ g ∷ fs) (rootfs d) i' r h = cc
set_update_files-IsRootfs fs (augmented_rootfs d o) i' r h =
    elim (Bool-cases (ltb 0 (length fs) && ltb 0 (length (file_list d.update)))) [
      | inl both ↦ cc (rw (both, set_update_files) at h)
      | inr free ↦
          let (o', set, e) =
            >>=-eq-ok (set_update_files fs o) (λ o'. ok (augmented_rootfs d o'))
              (rw (free, set_update_files) at h) in
          let (r', le) = set_update_files-IsRootfs fs o o' r set in
          (subst IsRootfs (ok_injective e) r', le)
    ]
set_update_files-IsRootfs fs (module_image d) i' r h = absurd r
set_update_files-IsRootfs fs (augmented_module_image d o) i' r h = absurd r
set_update_files-IsRootfs fs (bootstrap d) i' r h = absurd r

-- `SetUpdateFiles` refuses a file where the augmented instance has one.
set_update_files_free :
    (fs : Files) (i i' : Installer)
    → IsRootfs i
    → set_update_files fs i ≡ ok i'
    → (fs ≡ []) ⊎ (length (get_update_augment_files i) ≡ 0)
unfolding set_update_files get_update_augment_files
set_update_files_free [] i i' r h = inl refl
set_update_files_free (f ∷ fs) (rootfs d) i' r h = inr refl
set_update_files_free (f ∷ fs) (augmented_rootfs d o) i' r h = inr (ground arith)
set_update_files_free (f ∷ fs) (module_image d) i' r h = absurd r
set_update_files_free (f ∷ fs) (augmented_module_image d o) i' r h = absurd r
set_update_files_free (f ∷ fs) (bootstrap d) i' r h = absurd r

-- A rootfs payload that has one file at most, its own or an augmented one, is such a payload after
-- `SetUpdateFiles`, if that succeeds.
pub set_update_files-HasOneFile :
    (fs : Files) (i i' : Installer) → HasOneFile i → set_update_files fs i ≡ ok i' → HasOneFile i'
set_update_files-HasOneFile fs i i' (r, one) h =
    let (r', le) = set_update_files-IsRootfs fs i i' r h in
    let (got, same) = get_update_files-set_update_files fs i i' (IsRootfs-KeepsFiles i r) h in
    (
      r',
      elim (set_update_files_free fs i i' r h) [
        | inl none_set ↦
            omega (
              arith,
              length-all i,
              length-all i',
              ap length got,
              ap length same,
              ap length none_set,
            )
        | inr no_augment ↦ omega (arith, length-all i', ap length got, ap length same)
      ],
    )

set_update_augment_files-IsRootfs :
    (fs : Files) (i i' : Installer)
    → HasOneFile i
    → set_update_augment_files fs i ≡ ok i'
    → IsRootfs i' × ((fs ≡ []) ⊎ ((length fs ≡ 1) × (length (get_update_files i) ≡ 0)))
unfolding set_update_augment_files
set_update_augment_files-IsRootfs [] (rootfs d) i' (r, one) h =
    (subst IsRootfs (ok_injective h) tt, inl refl)
set_update_augment_files-IsRootfs (f ∷ fs) (rootfs d) i' (r, one) h = absurd (ground arith)
set_update_augment_files-IsRootfs [] (augmented_rootfs d o) i' (r, one) h =
    (subst IsRootfs (ok_injective h) r, inl refl)
set_update_augment_files-IsRootfs (f ∷ []) (augmented_rootfs d o) i' (r, one) h =
    elim (Bool-cases (ltb 0 (length (get_update_files o)))) [
      | inl taken ↦ cc (rw (taken, set_augmented_rootfs) at h)
      | inr free ↦ (
        subst IsRootfs (ok_injective (rw (free, set_augmented_rootfs) at h)) r,
        inr (refl, unfold get_update_files in ground arith),
      )
    ]
set_update_augment_files-IsRootfs (f ∷ g ∷ fs) (augmented_rootfs d o) i' (r, one) h = cc
set_update_augment_files-IsRootfs fs (module_image d) i' (r, one) h = absurd r
set_update_augment_files-IsRootfs fs (augmented_module_image d o) i' (r, one) h = absurd r
set_update_augment_files-IsRootfs fs (bootstrap d) i' (r, one) h = absurd r

-- A rootfs payload that has one file at most, its own or an augmented one, is such a payload after
-- `SetUpdateAugmentFiles`, if that succeeds.
pub set_update_augment_files-HasOneFile :
    (fs : Files) (i i' : Installer)
    → HasOneFile i
    → set_update_augment_files fs i ≡ ok i'
    → HasOneFile i'
set_update_augment_files-HasOneFile fs i i' v h =
    let (r', when) = set_update_augment_files-IsRootfs fs i i' v h in
    let (got, same) =
      get_update_augment_files-set_update_augment_files fs i i' (IsRootfs-KeepsFiles i v.0) h in
    (
      r',
      elim when [
        | inl none_set ↦ omega (
          arith,
          v.1,
          length-all i,
          length-all i',
          ap length got,
          ap length same,
          ap length none_set,
        )
        | inr (single, free) ↦ omega (arith, length-all i', ap length got, ap length same)
      ],
    )
