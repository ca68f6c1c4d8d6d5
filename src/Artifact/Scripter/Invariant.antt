-- ===== src/Artifact/Scripter/Invariant.antt =====
-- What `Scripts` of artifact/scripter.go holds after any calls of `Add`.
use mender_artifact.Prelude.{
  true, List, [], ◌∷◌, ◌++◌, none, some, ◌≡◌, inl, inr, refl, sym, ap, subst, ◌∙◌, Bytes, All,
  All-append, Option-cases,
}
use mender_artifact.Prelude.Result.{
  ok, >>=-elim, guard, guard-eq-ok, ok_injective, or_err, or_err-eq-ok,
}
use mender_artifact.Prelude.Dict.{Dict, lookup, keys, insert-append, keys-append, bytes_eq}
use mender_artifact.Prelude.FilePath.{base}
use mender_artifact.Artifact.ChecksumStore.Invariant.{Distinct, Distinct-concat, fresh-keys}
use mender_artifact.Artifact.Scripter.{
  invalid_script_name, unsupported_script_state, Scripts, available_script_type, find_state, add,
  get, values,
}

abbrev pub bases : List Bytes → List Bytes
bases [] = []
bases (p ∷ ps) = base p ∷ bases ps

-- A name from which a state is read that scripts may have.
abbrev pub IsScript : Bytes → Type 0
IsScript name =
    (state : Bytes) × (find_state [] name ≡ some state) × (available_script_type state ≡ true)

-- The paths are kept under their base names, no two of which are equal, and each is a script's.
pub record IsValid (s : Scripts) : Type 0 where
  pub named : keys s.names ≡ bases (get s)
  pub distinct : Distinct (keys s.names)
  pub scripts : All IsScript (keys s.names)

values-append : (m n : Dict Bytes Bytes) → values (m ++ n) ≡ values m ++ values n
unfolding values
values-append [] n = refl
values-append ((k, p) ∷ m) n = ap (λ l. p ∷ l) (values-append m n)

bases-append : (ps qs : List Bytes) → bases (ps ++ qs) ≡ bases ps ++ bases qs
bases-append [] qs = refl
bases-append (p ∷ ps) qs = ap (λ l. base p ∷ l) (bases-append ps qs)

-- `Add` succeeds with a script's name that is not there.
add-eq-ok :
    (path : Bytes) (s : Scripts) {s' : Scripts}
    → add path s ≡ ok s'
    → IsScript (base path)
      × (lookup (base path) s.names ≡ none)
      × (s' ≡ record { names = s.names ++ (base path, path) ∷ [] })
unfolding add
add-eq-ok path s {s'} h =
    >>=-elim (or_err (find_state [] (base path)) (invalid_script_name (base path))) _ h
      (λ state e1 h1.
        >>=-elim (guard (available_script_type state) (unsupported_script_state state)) _ h1
          (λ u e2 h2. elim (Option-cases (lookup (base path) s.names)) [
            | inr (old, there) ↦ cc (rw there at h2)
            | inl fresh ↦
                let same = ok_injective (rw fresh at h2) in
                (
                  (state, or_err-eq-ok _ _ e1, guard-eq-ok _ _ e2),
                  fresh,
                  sym same
                      ∙ ap (λ m. record { names = m })
                          (insert-append (base path) path s.names fresh),
                )
          ]))

-- `Add` keeps the scripts valid, and `Get` has the new path beside the others.
pub add-IsValid :
    (path : Bytes) (s s' : Scripts)
    → IsValid s
    → add path s ≡ ok s'
    → IsValid s' × (get s' ≡ get s ++ path ∷ [])
unfolding get
add-IsValid path s s' v h =
    let (script, fresh, same) = add-eq-ok path s h in
    let names = keys-append s.names ((base path, path) ∷ []) in
    let paths = values-append s.names ((base path, path) ∷ []) in
    subst (λ r. IsValid r × (get r ≡ get s ++ path ∷ [])) (sym same)
      (
        record {
          named =
              names
              ∙ ap (λ l. l ++ base path ∷ []) v.named
              ∙ sym (ap bases paths ∙ bases-append (values s.names) (path ∷ []));
          distinct = subst Distinct (sym names) (
              Distinct-concat (base path) (keys s.names) v.distinct
                (fresh-keys (base path) s.names fresh));
          scripts =
              subst (All IsScript) (sym names)
                (All-append IsScript (keys s.names) (base path ∷ []) v.scripts (script, tt));
        },
        paths,
      )
