-- ===== src/Reader/Grammar/Shape.antt =====
-- What the sixteen paths of areader/reader.go have in common: the manifest first, then another entry,
-- and a signature nowhere behind that.
use mender_artifact.Prelude.{
  Bool, true, false, List, [], ◌∷◌, ◌++◌, some, ◌≡◌, ◌≢◌, inl, inr, refl, sym, subst, arith, Bytes,
  codes, eqb, All,
}
use mender_artifact.Artifact.ChecksumStore.Marks.{contains}
use mender_artifact.Reader.Grammar.{verify_parse_order, artifact_v3_parse_grammar}
use mender_artifact.Reader.Grammar.Sound.{
  Member, verify_parse_order_sound, verify_parse_order-full_iff,
}

-- A path starts with the manifest, has a second entry, and no signature behind that one.
abbrev Shape : List Bytes → Type 0
Shape p =
    (second : Bytes) × (r : List Bytes) × (p ≡ codes "manifest" ∷ second ∷ r)
    × (contains (codes "manifest.sig") r ≡ false)

shape :
    {second : Bytes} {r : List Bytes}
    → contains (codes "manifest.sig") r ≡ false
    → Shape (codes "manifest" ∷ second ∷ r)
shape {second} {r} h = (second, r, refl, h)

grammar-Shape : All Shape artifact_v3_parse_grammar
unfolding artifact_v3_parse_grammar contains eqb
grammar-Shape = (
  shape refl,
  (
    shape refl,
    (
      shape refl,
      (
        shape refl,
        (
          shape refl,
          (
            shape refl,
            (
              shape refl,
              (
                shape refl,
                (
                  shape refl,
                  (
                    shape refl,
                    (
                      shape refl,
                      (shape refl, (shape refl, (shape refl, (shape refl, (shape refl, tt))))),
                    ),
                  ),
                ),
              ),
            ),
          ),
        ),
      ),
    ),
  ),
)

Member-Shape : (g : List (List Bytes)) (p : List Bytes) → All Shape g → Member p g → Shape p
Member-Shape [] p a m = absurd m
Member-Shape (q ∷ g) p a (inl e) = subst Shape (sym e) a.0
Member-Shape (q ∷ g) p a (inr m) = Member-Shape g p a.1 m

pub contains-concat :
    (j n : Bytes) (q rest : List Bytes)
    → contains j ((q ++ n ∷ []) ++ rest) ≡ false
    → eqb n j ≡ false
unfolding contains
contains-concat j n [] rest h = ground arith
contains-concat j n (a ∷ q) rest h = contains-concat j n q rest (ground arith)

-- Behind two names the grammar has no signature.
pub not_signature :
    (a b : Bytes) (q : List Bytes) (n t : Bytes) (whole : Bool)
    → verify_parse_order (a ∷ b ∷ q ++ n ∷ []) ≡ some (t, whole)
    → eqb n (codes "manifest.sig") ≡ false
not_signature a b q n t whole h =
    let (p, rest, m, e, l, f) = verify_parse_order_sound (a ∷ b ∷ q ++ n ∷ []) t whole h in
    let (second, r, same, absent) = Member-Shape artifact_v3_parse_grammar p grammar-Shape m in
    contains-concat (codes "manifest.sig") n q rest (cc (e, same, absent))

pub first_name :
    (n t : Bytes) (whole : Bool)
    → verify_parse_order (n ∷ []) ≡ some (t, whole)
    → n ≡ codes "manifest"
first_name n t whole h =
    let (p, rest, m, e, l, f) = verify_parse_order_sound (n ∷ []) t whole h in
    let (second, r, same, absent) = Member-Shape artifact_v3_parse_grammar p grammar-Shape m in
    cc (e, same)

pub not_alone : (n t : Bytes) → verify_parse_order (n ∷ []) ≢ some (t, true)
not_alone n t h =
    let m = ((verify_parse_order-full_iff (n ∷ []) t).0 h).0 in
    let (second, r, same, absent) =
      Member-Shape artifact_v3_parse_grammar (n ∷ []) grammar-Shape m in
    cc (same)
