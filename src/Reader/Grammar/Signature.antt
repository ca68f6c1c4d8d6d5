-- ===== src/Reader/Grammar/Signature.antt =====
-- The parse paths of areader/reader.go with and without the manifest's signature.
use mender_artifact.Prelude.{
  Bool, true, false, List, [], ◌∷◌, ◌++◌, some, ◌≡◌, inl, inr, refl, sym, ap, ◌∙◌, subst, arith,
  Bytes, codes, eqb, if◌then◌else◌, All, append-nil, Option-cases,
}
use mender_artifact.Reader.Grammar.{verify_parse_order, artifact_v3_parse_grammar}
use mender_artifact.Reader.Grammar.Shape.{contains-concat}
use mender_artifact.Artifact.ChecksumStore.Marks.{contains}
use mender_artifact.Reader.Grammar.Sound.{
  Member, last, verify_parse_order_sound, verify_parse_order-none_iff, verify_parse_order-full_iff,
}

-- A path without the signature behind its first name.
drop_sig : List Bytes → List Bytes
drop_sig [] = []
drop_sig (a ∷ []) = a ∷ []
drop_sig (a ∷ b ∷ r) = if eqb b (codes "manifest.sig") then a ∷ r else a ∷ b ∷ r

put_sig : List Bytes → List Bytes
put_sig [] = []
put_sig (a ∷ r) = a ∷ codes "manifest.sig" ∷ r

-- Both forms of a path are paths.
abbrev HasBoth : List Bytes → Type 0
HasBoth p =
    ((t : Bytes) × (verify_parse_order (drop_sig p) ≡ some (t, true)))
    × ((t : Bytes) × (verify_parse_order (put_sig (drop_sig p)) ≡ some (t, true)))

grammar-HasBoth : All HasBoth artifact_v3_parse_grammar
unfolding artifact_v3_parse_grammar verify_parse_order eqb drop_sig put_sig
grammar-HasBoth = (
  ((_, refl), (_, refl)),
  (
    ((_, refl), (_, refl)),
    (
      ((_, refl), (_, refl)),
      (
        ((_, refl), (_, refl)),
        (
          ((_, refl), (_, refl)),
          (
            ((_, refl), (_, refl)),
            (
              ((_, refl), (_, refl)),
              (
                ((_, refl), (_, refl)),
                (
                  ((_, refl), (_, refl)),
                  (
                    ((_, refl), (_, refl)),
                    (
                      ((_, refl), (_, refl)),
                      (
                        ((_, refl), (_, refl)),
                        (
                          ((_, refl), (_, refl)),
                          (
                            ((_, refl), (_, refl)),
                            (((_, refl), (_, refl)), (((_, refl), (_, refl)), tt)),
                          ),
                        ),
                      ),
                    ),
                  ),
                ),
              ),
            ),
          ),
        ),
      ),
    ),
  ),
)

All-Member : (g : List (List Bytes)) (p : List Bytes) → All HasBoth g → Member p g → HasBoth p
All-Member [] p a m = absurd m
All-Member (q ∷ g) p a (inl e) = subst HasBoth (sym e) a.0
All-Member (q ∷ g) p a (inr m) = All-Member g p a.1 m

Member-both :
    (p : List Bytes)
    → Member p artifact_v3_parse_grammar
    → Member (drop_sig p) artifact_v3_parse_grammar
      × Member (put_sig (drop_sig p)) artifact_v3_parse_grammar
Member-both p m =
    let ((t, dropped), (t', put)) = All-Member artifact_v3_parse_grammar p grammar-HasBoth m in
    (
      ((verify_parse_order-full_iff (drop_sig p) t).0 dropped).0,
      ((verify_parse_order-full_iff (put_sig (drop_sig p)) t').0 put).0,
    )

module _ (a b : Bytes) (s : List Bytes) (other : eqb b (codes "manifest.sig") ≡ false) where
  put-whole :
      (rest : List Bytes)
      → Member (a ∷ b ∷ (s ++ rest)) artifact_v3_parse_grammar
      → Member (a ∷ codes "manifest.sig" ∷ b ∷ (s ++ rest)) artifact_v3_parse_grammar
  unfolding drop_sig put_sig
  put-whole rest m =
      let same : drop_sig (a ∷ b ∷ (s ++ rest)) ≡ a ∷ b ∷ (s ++ rest) = ground (arith, other) in
      subst (λ p. Member p artifact_v3_parse_grammar) (ap put_sig same) (Member-both _ m).1

  drop-whole :
      Member (a ∷ codes "manifest.sig" ∷ b ∷ s) artifact_v3_parse_grammar
      → Member (a ∷ b ∷ s) artifact_v3_parse_grammar
  unfolding drop_sig eqb
  drop-whole m = (Member-both _ m).0

  order-flag :
      (n : Bytes) (full flag : Bool)
      → verify_parse_order (a ∷ b ∷ s) ≡ some (n, full)
      → last (a ∷ b ∷ s) ≡ some n
      → verify_parse_order (a ∷ codes "manifest.sig" ∷ b ∷ s) ≡ some (n, flag)
      → flag ≡ full
  order-flag n true true h l h' = refl
  order-flag n false false h l h' = refl
  order-flag n true false h l h' =
      let m =
        subst (λ q. Member (a ∷ b ∷ q) artifact_v3_parse_grammar) (sym (append-nil s))
          ((verify_parse_order-full_iff (a ∷ b ∷ s) n).0 h).0 in
      let m' =
        subst (λ q. Member (a ∷ codes "manifest.sig" ∷ b ∷ q) artifact_v3_parse_grammar)
          (append-nil s) (put-whole [] m) in
      let w = (verify_parse_order-full_iff (a ∷ codes "manifest.sig" ∷ b ∷ s) n).1 (m', l) in
      cc (w, h')
  order-flag n false true h l h' =
      let m =
        drop-whole ((verify_parse_order-full_iff (a ∷ codes "manifest.sig" ∷ b ∷ s) n).0 h').0 in
      cc ((verify_parse_order-full_iff (a ∷ b ∷ s) n).1 (m, l), h)

  -- `verifyParseOrder` says the same of the names read with the signature put behind the first.
  pub verify_parse_order-put_sig :
      (n : Bytes) (full : Bool)
      → verify_parse_order (a ∷ b ∷ s) ≡ some (n, full)
      → verify_parse_order (a ∷ codes "manifest.sig" ∷ b ∷ s) ≡ some (n, full)
  verify_parse_order-put_sig n full h =
      let (path, rest, m, e, l, f) = verify_parse_order_sound (a ∷ b ∷ s) n full h in
      elim (Option-cases (verify_parse_order (a ∷ codes "manifest.sig" ∷ b ∷ s))) [
        | inl refused ↦ elim ((verify_parse_order-none_iff _).0 refused) [
          | inl empty ↦ cc
          | inr absent ↦ absurd (
              absent _ rest (put-whole rest (subst (λ p. Member p artifact_v3_parse_grammar) e m))
                refl)
        ]
        | inr ((t, flag), found) ↦
            let (path', rest', m', e', l', f') = verify_parse_order_sound _ t flag found in
            let same : t ≡ n = cc (l, l') in
            let found' : verify_parse_order (a ∷ codes "manifest.sig" ∷ b ∷ s) ≡ some (n, flag) =
              found ∙ ap (λ k. some (k, flag)) same in
            found' ∙ ap (λ k. some (n, k)) (order-flag n full flag h l found')
      ]

abbrev behind_first : List Bytes → List Bytes
behind_first [] = []
behind_first (a ∷ r) = r

abbrev ManifestIsFirst : List Bytes → Type 0
ManifestIsFirst p = contains (codes "manifest") (behind_first p) ≡ false

grammar-ManifestIsFirst : All ManifestIsFirst artifact_v3_parse_grammar
unfolding artifact_v3_parse_grammar contains eqb
grammar-ManifestIsFirst = (
  refl,
  (
    refl,
    (
      refl,
      (
        refl,
        (
          refl,
          (
            refl,
            (refl, (refl, (refl, (refl, (refl, (refl, (refl, (refl, (refl, (refl, tt)))))))))),
          ),
        ),
      ),
    ),
  ),
)

Member-ManifestIsFirst :
    (g : List (List Bytes)) (p : List Bytes)
    → All ManifestIsFirst g
    → Member p g
    → ManifestIsFirst p
Member-ManifestIsFirst [] p a m = absurd m
Member-ManifestIsFirst (q ∷ g) p a (inl e) = subst ManifestIsFirst (sym e) a.0
Member-ManifestIsFirst (q ∷ g) p a (inr m) = Member-ManifestIsFirst g p a.1 m

-- Behind the first name the grammar has no manifest.
pub not_manifest :
    (a : Bytes) (q : List Bytes) (n t : Bytes) (whole : Bool)
    → verify_parse_order (a ∷ q ++ n ∷ []) ≡ some (t, whole)
    → eqb n (codes "manifest") ≡ false
not_manifest a q n t whole h =
    let (p, rest, m, e, l, f) = verify_parse_order_sound (a ∷ q ++ n ∷ []) t whole h in
    contains-concat (codes "manifest") n q rest (
      subst ManifestIsFirst e
        (Member-ManifestIsFirst artifact_v3_parse_grammar p grammar-ManifestIsFirst m))
