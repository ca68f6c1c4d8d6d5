-- ===== src/Handlers/Merge/Spec.antt =====
-- What `mergeJsonStructures` of handlers/module_image.go returns, key by key.
use mender_artifact.Prelude.{
  Option, none, some, ◌≡◌, inl, inr, refl, sym, ap, ◌∙◌, subst, arith, Bytes, eqb, eqb_iff,
  if◌then◌else◌, Bool-cases, Option-cases,
}
use mender_artifact.Prelude.Result.{ok, >>=-eq-ok, ok_injective}
use mender_artifact.Artifact.Json.{
  Json, Items, Fields, null, bool, number, text, array, object, nil, cons, end, field, get_field,
  set_field,
}
use mender_artifact.Handlers.Merge.{
  json_deep_copy, copy_items, copy_fields, scalar_over_scalar, merge_into, merge_value,
  merge_json_structures,
}

mutual
  unfolding json_deep_copy

  json_deep_copy_same : (j : Json) → json_deep_copy j ≡ ok j
  json_deep_copy_same (object fs) = rw (copy_fields_same fs)
  json_deep_copy_same (array items) = rw (copy_items_same items)
  json_deep_copy_same null = refl
  json_deep_copy_same (bool b) = refl
  json_deep_copy_same (number n) = refl
  json_deep_copy_same (text s) = refl

  copy_items_same : (js : Items) → copy_items js ≡ ok js
  copy_items_same nil = refl
  copy_items_same (cons j js) = rw (json_deep_copy_same j, copy_items_same js)

  copy_fields_same : (fs : Fields) → copy_fields fs ≡ ok fs
  copy_fields_same end = refl
  copy_fields_same (field k j fs) = rw (json_deep_copy_same j, copy_fields_same fs)

get_field-set_field :
    (k j : Bytes) (v : Json) (m : Fields)
    → get_field j (set_field k v m) ≡ (if eqb k j then some v else get_field j m)
unfolding get_field set_field
get_field-set_field k j v end = refl
get_field-set_field k j v (field i w m) =
    ground (arith, eqb_iff k j, eqb_iff i k, eqb_iff i j, get_field-set_field k j v m)

-- A map: no key stands twice.
abbrev pub IsMap : Fields → Type 0
IsMap end = Unit
IsMap (field k v fs) = (get_field k fs ≡ none) × IsMap fs

-- What the loop has under a key at its end.
record Merged (k : Bytes) (override orig merged result : Fields) : Type 0 where
  kept : get_field k override ≡ none → get_field k result ≡ get_field k merged
  entered :
      (v : Json)
      → get_field k override ≡ some v
      → (w : Json) × (get_field k result ≡ some w)
        × (merge_value v (get_field k merged) (get_field k orig) ≡ ok w)

-- One round of the loop, in front of the rounds that `Merged` describes.
step-Merged :
    (k j : Bytes) (v w : Json) (rest orig merged result : Fields)
    → get_field j rest ≡ none
    → merge_value v (get_field j merged) (get_field j orig) ≡ ok w
    → Merged k rest orig (set_field j w merged) result
    → Merged k (field j v rest) orig merged result
unfolding get_field
step-Merged k j v w rest orig merged result fresh first ih =
    let put = get_field-set_field j k w merged in
    elim (Bool-cases (eqb j k)) [
      | inl same ↦
          let e = (eqb_iff j k).0 same in
          record {
            kept = λ n. ground (arith, same);
            entered = λ x n. (
              w,
              ih.kept (subst (λ i. get_field i rest ≡ none) e fresh) ∙ (rw same at put),
              ap (λ i. merge_value x (get_field i merged) (get_field i orig)) (sym e)
                  ∙ ground (arith, same, first),
            );
          }
      | inr other ↦ record {
        kept = λ n. ground (arith, other, put, ih.kept);
        entered = λ x n.
            let (y, got, e) = ih.entered x (rw other at n) in
            (y, got, ap (λ m. merge_value x m (get_field k orig)) (sym (rw other at put)) ∙ e);
      }
    ]

merge_into-Merged :
    (k : Bytes) (override orig merged : Fields) (result : Fields)
    → IsMap override
    → merge_into override orig merged ≡ ok result
    → Merged k override orig merged result
unfolding merge_into get_field
merge_into-Merged k end orig merged result u h = record {
  kept = λ e. ap (get_field k) (sym (ok_injective h));
  entered = λ v e. cc;
}
merge_into-Merged k (field j v rest) orig merged result u h =
    let (w, first, later) =
      >>=-eq-ok (merge_value v (get_field j merged) (get_field j orig))
        (λ w. merge_into rest orig (set_field j w merged)) h in
    step-Merged k j v w rest orig merged result u.0 first
      (merge_into-Merged k rest orig (set_field j w merged) result u.1 later)

abbrev pub IsScalar : Json → Type 0
IsScalar (object gs) = ⊥
IsScalar (array js) = ⊥
IsScalar _ = Unit

-- Two values of one kind, neither of them an object: two lists, or two scalars.
abbrev pub SameKind : Json → Json → Type 0
SameKind (array js) (array ks) = Unit
SameKind o v = IsScalar o × IsScalar v

-- What the original, the override and the merged object have under one key.
pub data Combined : Option Json → Option Json → Option Json → Type 0 where
  only_original : {o : Option Json} → Combined o none o
  only_override : {v : Json} → Combined none (some v) (some v)
  both_objects :
      {gs fs hs : Fields}
      → merge_json_structures gs fs ≡ ok hs
      → Combined (some (object gs)) (some (object fs)) (some (object hs))
  override_wins : {o v : Json} → SameKind o v → Combined (some o) (some v) (some v)

merge_value-none : (v w : Json) (o : Option Json) → merge_value v none o ≡ ok w → w ≡ v
unfolding merge_value
merge_value-none (object fs) w o h = sym (ok_injective (sym (json_deep_copy_same (object fs)) ∙ h))
merge_value-none (array js) w o h = sym (ok_injective (sym (json_deep_copy_same (array js)) ∙ h))
merge_value-none _ w o h = sym (ok_injective h)

copied_same : (v w : Json) → json_deep_copy v ≡ ok w → v ≡ w
copied_same v w h = ok_injective (sym (json_deep_copy_same v) ∙ h)

wins : (o v w : Json) → SameKind o v → v ≡ w → Combined (some o) (some v) (some w)
wins o v w k e = subst (λ x. Combined (some o) (some v) (some x)) e (override_wins k)

merge_objects :
    (fs gs : Fields) (m w : Json)
    → merge_value (object fs) (some m) (some (object gs)) ≡ ok w
    → Combined (some (object gs)) (some (object fs)) (some w)
unfolding merge_value merge_json_structures
merge_objects fs gs m w h =
    let (copied, c, more) = >>=-eq-ok (copy_fields gs) _ h in
    let (hs, merged, e) = >>=-eq-ok (merge_into fs gs copied) (λ hs. ok (object hs)) more in
    subst (λ x. Combined (some (object gs)) (some (object fs)) (some x)) (ok_injective e)
      (both_objects (rw c merged))

merge_scalar :
    (o v w : Json)
    → IsScalar v
    → scalar_over_scalar v (some o) ≡ ok w
    → Combined (some o) (some v) (some w)
unfolding scalar_over_scalar
merge_scalar (object gs) v w s h = cc
merge_scalar (array js) v w s h = cc
merge_scalar null v w s h = wins null v w (tt, s) (copied_same v w h)
merge_scalar (bool b) v w s h = wins (bool b) v w (tt, s) (copied_same v w h)
merge_scalar (number n) v w s h = wins (number n) v w (tt, s) (copied_same v w h)
merge_scalar (text t) v w s h = wins (text t) v w (tt, s) (copied_same v w h)

merge_value-some :
    (v o m w : Json) → merge_value v (some m) (some o) ≡ ok w → Combined (some o) (some v) (some w)
unfolding merge_value
merge_value-some (object fs) (object gs) m w h = merge_objects fs gs m w h
merge_value-some (object fs) _ m w h = cc
merge_value-some (array js) (array ks) m w h =
    wins (array ks) (array js) w tt (copied_same (array js) w h)
merge_value-some (array js) _ m w h = cc
merge_value-some null o m w h = merge_scalar o null w tt h
merge_value-some (bool b) o m w h = merge_scalar o (bool b) w tt h
merge_value-some (number n) o m w h = merge_scalar o (number n) w tt h
merge_value-some (text s) o m w h = merge_scalar o (text s) w tt h

-- A merge that succeeds gives, under each key: the original's value if the override has none; the
-- override's if the original has none; the merge of the two if both are objects; and the
-- override's value if both are lists or both are scalars. No other two values are merged.
pub merge_json_structures-Combined :
    (orig override result : Fields) (k : Bytes)
    → IsMap override
    → merge_json_structures orig override ≡ ok result
    → Combined (get_field k orig) (get_field k override) (get_field k result)
unfolding merge_json_structures
merge_json_structures-Combined orig override result k u h =
    let merged =
      merge_into-Merged k override orig orig result u (rw (copy_fields_same orig) at h) in
    elim (Option-cases (get_field k override)) [
      | inl absent ↦ rw (absent, merged.kept absent) only_original
      | inr (v, there) ↦
          let (w, got, e) = merged.entered v there in
          elim (Option-cases (get_field k orig)) [
            | inl fresh ↦
                rw (there, got, fresh, merge_value-none v w none (rw fresh at e)) only_override
            | inr (o, old) ↦ rw (there, got, old) (merge_value-some v o o w (rw old at e))
          ]
    ]
