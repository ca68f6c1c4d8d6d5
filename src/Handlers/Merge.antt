-- ===== src/Handlers/Merge.antt =====
-- handlers/module_image.go: `jsonDeepCopy` and `mergeJsonStructures`.
pub mod Spec
use mender_artifact.Prelude.{ℕ, Bool, true, false, Option, none, some, Bytes}
use mender_artifact.Prelude.Result.{Result, ok, err, ◌>>=◌}
use mender_artifact.Artifact.Json.{
  Json, Items, Fields, null, bool, number, text, array, object, nil, cons, end, field, get_field,
  set_field,
}

pub data MergeError : Type 0 where
  object_with_non_object : MergeError
  list_with_non_list : MergeError

-- `jsonDeepCopy`.
unfoldable mutual
  pub json_deep_copy : Json → Result MergeError Json
  json_deep_copy (object fs) = copy_fields fs >>= λ gs. ok (object gs)
  json_deep_copy (array items) = copy_items items >>= λ js. ok (array js)
  json_deep_copy null = ok null
  json_deep_copy (bool b) = ok (bool b)
  json_deep_copy (number n) = ok (number n)
  json_deep_copy (text s) = ok (text s)

  pub copy_items : Items → Result MergeError Items
  copy_items nil = ok nil
  copy_items (cons j js) = json_deep_copy j >>= λ k. (copy_items js >>= λ ks. ok (cons k ks))

  pub copy_fields : Fields → Result MergeError Fields
  copy_fields end = ok end
  copy_fields (field k j fs) =
      json_deep_copy j >>= λ w. (copy_fields fs >>= λ gs. ok (field k w gs))

-- The fall-through of the switch for an override that is a list: the original must be a list.
list_over_list : Json → Option Json → Result MergeError Json
list_over_list v (some (array js)) = json_deep_copy v
list_over_list v _ = err list_with_non_list

-- For an override that is neither an object nor a list.
scalar_over_scalar : Json → Option Json → Result MergeError Json
scalar_over_scalar v (some (object gs)) = err object_with_non_object
scalar_over_scalar v (some (array js)) = err list_with_non_list
scalar_over_scalar v _ = json_deep_copy v

-- `merge_into` is the loop over the keys of the override; `merge_value` its body for one value,
-- with what `merged` and the original have under the key.
unfoldable mutual
  unfolding json_deep_copy list_over_list scalar_over_scalar

  pub merge_into : Fields → Fields → Fields → Result MergeError Fields
  merge_into end orig merged = ok merged
  merge_into (field k v rest) orig merged =
      merge_value v (get_field k merged) (get_field k orig) >>= λ w.
      merge_into rest orig (set_field k w merged)

  pub merge_value : Json → Option Json → Option Json → Result MergeError Json
  merge_value (object fs) none o = json_deep_copy (object fs)
  merge_value (object fs) (some m) (some (object gs)) =
      copy_fields gs >>= λ copied. (merge_into fs gs copied >>= λ hs. ok (object hs))
  merge_value (object fs) (some m) _ = err object_with_non_object
  merge_value (array js) none o = json_deep_copy (array js)
  merge_value (array js) (some m) o = list_over_list (array js) o
  merge_value null none o = ok null
  merge_value null (some m) o = scalar_over_scalar null o
  merge_value (bool b) none o = ok (bool b)
  merge_value (bool b) (some m) o = scalar_over_scalar (bool b) o
  merge_value (number n) none o = ok (number n)
  merge_value (number n) (some m) o = scalar_over_scalar (number n) o
  merge_value (text s) none o = ok (text s)
  merge_value (text s) (some m) o = scalar_over_scalar (text s) o

-- `mergeJsonStructures`.
unfoldable pub merge_json_structures : Fields → Fields → Result MergeError Fields
merge_json_structures orig override = copy_fields orig >>= λ copied. merge_into override orig copied
