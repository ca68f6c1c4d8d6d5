-- ===== src/Artifact/Metadata/Depends.antt =====
-- What `NewTypeInfoDepends` and `NewTypeInfoProvides` of artifact/metadata.go accept and return.
use mender_artifact.Prelude.{List, [], ◌∷◌, ◌≡◌, ◌↔◌, refl, ap, ap₂, ◌∙◌, Bytes}
use mender_artifact.Prelude.Result.{ok, >>=-eq-ok, ok_injective}
use mender_artifact.Prelude.Dict.{Dict, bytes_eq}
use mender_artifact.Artifact.Json.{Json, Items, Fields, nil, cons, end, field}
use mender_artifact.Artifact.Metadata.{
  DependsValue, one, many, strings, depends_value, provides_value, new_type_info_depends,
  new_type_info_provides,
}

-- The JSON array of these strings.
abbrev pub text_items : List Bytes → Items
text_items [] = nil
text_items (s ∷ ss) = cons (Json.text s) (text_items ss)

-- The JSON value of a string or of a list of strings.
abbrev pub json_of : DependsValue → Json
json_of (one s) = Json.text s
json_of (many ss) = Json.array (text_items ss)

-- The JSON object of such values, key by key.
abbrev pub fields_of : Dict Bytes DependsValue → Fields
fields_of [] = end
fields_of ((k, v) ∷ m) = field k (json_of v) (fields_of m)

strings_sound : (items : Items) (ss : List Bytes) → strings items ≡ ok ss → items ≡ text_items ss
unfolding strings
strings_sound nil [] h = refl
strings_sound nil (t ∷ ss) h = cc
strings_sound (cons (Json.text s) rest) ss h =
    let (later, r, e) = >>=-eq-ok (strings rest) (λ ss. ok (s ∷ ss)) h in
    ap (λ t. cons (Json.text s) t) (strings_sound rest later r) ∙ ap text_items (ok_injective e)
strings_sound (cons _ rest) ss h = cc

strings-text_items : (ss : List Bytes) → strings (text_items ss) ≡ ok ss
unfolding strings
strings-text_items [] = refl
strings-text_items (s ∷ ss) = rw (strings-text_items ss)

depends_value_sound : (j : Json) (v : DependsValue) → depends_value j ≡ ok v → j ≡ json_of v
unfolding depends_value
depends_value_sound (Json.text s) v h = ap json_of (ok_injective h)
depends_value_sound (Json.array items) v h =
    let (ss, r, e) = >>=-eq-ok (strings items) (λ ss. ok (many ss)) h in
    ap Json.array (strings_sound items ss r) ∙ ap json_of (ok_injective e)
depends_value_sound _ v h = cc

depends_value-json_of : (v : DependsValue) → depends_value (json_of v) ≡ ok v
unfolding depends_value
depends_value-json_of (one s) = refl
depends_value-json_of (many ss) = rw (strings-text_items ss)

depends_sound :
    (m : Fields) (d : Dict Bytes DependsValue) → new_type_info_depends m ≡ ok d → m ≡ fields_of d
unfolding new_type_info_depends
depends_sound end d h = ap fields_of (ok_injective h)
depends_sound (field k v m) d h =
    let (w, value, more) = >>=-eq-ok (depends_value v) _ h in
    let (rest, tail, e) = >>=-eq-ok (new_type_info_depends m) _ more in
    ap₂ (λ j t. field k j t) (depends_value_sound v w value) (depends_sound m rest tail)
    ∙ ap fields_of (ok_injective e)

depends_complete : (d : Dict Bytes DependsValue) → new_type_info_depends (fields_of d) ≡ ok d
unfolding new_type_info_depends
depends_complete [] = refl
depends_complete ((k, v) ∷ d) = rw (depends_value-json_of v, depends_complete d)

-- `NewTypeInfoDepends` accepts exactly the JSON objects whose values are strings or lists of
-- strings, and keeps every key with its value.
pub new_type_info_depends_iff :
    (m : Fields) (d : Dict Bytes DependsValue)
    → (new_type_info_depends m ≡ ok d) ↔ (m ≡ fields_of d)
new_type_info_depends_iff m d =
    (depends_sound m d, λ e. ap new_type_info_depends e ∙ depends_complete d)

-- The JSON object of these strings, key by key.
abbrev pub text_fields : Dict Bytes Bytes → Fields
text_fields [] = end
text_fields ((k, s) ∷ m) = field k (Json.text s) (text_fields m)

provides_value_sound : (j : Json) (s : Bytes) → provides_value j ≡ ok s → j ≡ Json.text s
unfolding provides_value
provides_value_sound (Json.text t) s h = ap Json.text (ok_injective h)
provides_value_sound _ s h = cc

provides_sound :
    (m : Fields) (d : Dict Bytes Bytes) → new_type_info_provides m ≡ ok d → m ≡ text_fields d
unfolding new_type_info_provides
provides_sound end d h = ap text_fields (ok_injective h)
provides_sound (field k v m) d h =
    let (w, value, more) = >>=-eq-ok (provides_value v) _ h in
    let (rest, tail, e) = >>=-eq-ok (new_type_info_provides m) _ more in
    ap₂ (λ j t. field k j t) (provides_value_sound v w value) (provides_sound m rest tail)
    ∙ ap text_fields (ok_injective e)

provides_complete : (d : Dict Bytes Bytes) → new_type_info_provides (text_fields d) ≡ ok d
unfolding new_type_info_provides provides_value
provides_complete [] = refl
provides_complete ((k, s) ∷ d) = rw (provides_complete d)

-- `NewTypeInfoProvides` accepts exactly the JSON objects whose values are strings, and keeps every
-- key with its value.
pub new_type_info_provides_iff :
    (m : Fields) (d : Dict Bytes Bytes) → (new_type_info_provides m ≡ ok d) ↔ (m ≡ text_fields d)
new_type_info_provides_iff m d =
    (provides_sound m d, λ e. ap new_type_info_provides e ∙ provides_complete d)
