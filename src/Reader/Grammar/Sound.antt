-- ===== src/Reader/Grammar/Sound.antt =====
-- What `verifyParseOrder` of areader/reader.go accepts: exactly the beginnings of the sixteen paths.
use mender_artifact.Prelude.{
  Bool, true, List, [], ◌∷◌, ◌++◌, Option, none, some, ◌≡◌, ◌≢◌, ◌↔◌, ◌⊎◌, inl, inr, refl, sym, ap,
  ◌∙◌, subst, arith, Bytes, eqb, eqb_iff, eqb_refl, length, length-append, ltb, ◌==◌, All,
  append-nil, Option-cases, Bool-cases,
}
use mender_artifact.Reader.Grammar.{
  Verdict, artifact_v3_parse_grammar, submatch, verify_against, verify_parse_order,
}

abbrev pub Member : List Bytes → List (List Bytes) → Type 0
Member p [] = ⊥
Member p (q ∷ qs) = (p ≡ q) ⊎ Member p qs

abbrev pub last : List Bytes → Option Bytes
last [] = none
last (t ∷ []) = some t
last (t ∷ u ∷ ts) = last (u ∷ ts)

-- The first part of this path, and the rest of it.
abbrev pub Begins : List Bytes → List Bytes → Type 0
Begins order path = (rest : List Bytes) × (path ≡ order ++ rest)

submatch_sound :
    (path order : List Bytes) (t : Bytes) (full : Bool)
    → submatch path order ≡ some (t, full)
    → (rest : List Bytes) × (path ≡ order ++ rest)
      × (last order ≡ some t)
      × (full ≡ (length rest == 0))
unfolding submatch
submatch_sound path [] t full h = cc
submatch_sound [] (u ∷ order) t full h = cc
submatch_sound (v ∷ path) (u ∷ []) t full h =
    (path, ground (arith, eqb_iff v u), ground arith, ground arith)
submatch_sound (v ∷ path) (u ∷ w ∷ order) t full h = elim (Bool-cases (eqb v u)) [
  | inl same ↦
      let (rest, p, l, f) = submatch_sound path (w ∷ order) t full (rw (same, submatch) at h) in
      (rest, ground (arith, eqb_iff v u), l, f)
  | inr other ↦ cc (rw (other, submatch) at h)
]

submatch_complete :
    (u : Bytes) (order rest : List Bytes)
    → (t : Bytes) × (submatch ((u ∷ order) ++ rest) (u ∷ order) ≡ some (t, length rest == 0))
unfolding submatch
submatch_complete u [] rest = (u, ground (arith, eqb_refl u))
submatch_complete u (w ∷ order) rest =
    let (t, h) = submatch_complete w order rest in (t, rw (eqb_refl u, submatch) h)

verify_against-nil : (g : List (List Bytes)) → verify_against g [] ≡ none
unfolding verify_against
verify_against-nil [] = refl
verify_against-nil (p ∷ g) = ground (arith, verify_against-nil g)

verify_against_cons :
    (p : List Bytes) (g : List (List Bytes)) (order : List Bytes) {v : Bytes × Bool}
    → verify_against (p ∷ g) order ≡ some v
    → (submatch p order ≡ some v) ⊎ (verify_against g order ≡ some v)
unfolding verify_against
verify_against_cons p g order h = ground arith

verify_against_sound :
    (g : List (List Bytes)) (order : List Bytes) (t : Bytes) (full : Bool)
    → verify_against g order ≡ some (t, full)
    → (path rest : List Bytes) × Member path g
      × (path ≡ order ++ rest)
      × (last order ≡ some t)
      × (full ≡ (length rest == 0))
verify_against_sound [] order t full h = unfold verify_against in cc
verify_against_sound (p ∷ g) order t full h = elim (verify_against_cons p g order h) [
  | inl here ↦
      let (rest, e, l, f) = submatch_sound p order t full here in (p, rest, inl refl, e, l, f)
  | inr later ↦
      let (path, rest, m, e, l, f) = verify_against_sound g order t full later in
      (path, rest, inr m, e, l, f)
]

verify_against_hit :
    (p : List Bytes) (g : List (List Bytes)) (order rest : List Bytes) {v : Bytes × Bool}
    → p ≡ order ++ rest
    → submatch p order ≡ some v
    → verify_against (p ∷ g) order ≡ some v
unfolding verify_against
verify_against_hit p g order rest e h = ground (arith, h, ap length e, length-append order rest)

verify_against_more :
    (p : List Bytes) (g : List (List Bytes)) (order : List Bytes) {v : Bytes × Bool}
    → verify_against g order ≡ some v
    → (w : Bytes × Bool) × (verify_against (p ∷ g) order ≡ some w)
unfolding verify_against
verify_against_more p g order {v} h = elim (Bool-cases (ltb (length p) (length order))) [
  | inl short ↦ (v, rw short h)
  | inr long ↦ elim (Option-cases (submatch p order)) [
    | inl missed ↦ (v, rw (long, missed) h)
    | inr (w, hit) ↦ (w, rw (long, hit))
  ]
]

verify_against_complete :
    (g : List (List Bytes)) (u : Bytes) (order path rest : List Bytes)
    → Member path g
    → path ≡ (u ∷ order) ++ rest
    → (v : Bytes × Bool) × (verify_against g (u ∷ order) ≡ some v)
verify_against_complete [] u order path rest m e = absurd m
verify_against_complete (p ∷ g) u order path rest (inl here) e =
    let (t, h) = submatch_complete u order rest in
    let whole = sym here ∙ e in
    (
      (t, length rest == 0),
      verify_against_hit p g (u ∷ order) rest whole (ap (λ q. submatch q (u ∷ order)) whole ∙ h),
    )
verify_against_complete (p ∷ g) u order path rest (inr later) e =
    let (v, h) = verify_against_complete g u order path rest later e in
    verify_against_more p g (u ∷ order) h

-- `verifyParseOrder` returns a token only for the beginning of one of the sixteen paths; the token
-- is the last name read, and the flag tells whether that path ends there.
pub verify_parse_order_sound :
    (order : List Bytes) (t : Bytes) (full : Bool)
    → verify_parse_order order ≡ some (t, full)
    → (path rest : List Bytes) × Member path artifact_v3_parse_grammar
      × (path ≡ order ++ rest)
      × (last order ≡ some t)
      × (full ≡ (length rest == 0))
unfolding verify_parse_order
verify_parse_order_sound order t full h =
    verify_against_sound artifact_v3_parse_grammar order t full h

-- `verifyParseOrder` refuses a sequence of names exactly if it is empty or the beginning of none of
-- the sixteen paths.
pub verify_parse_order-none_iff :
    (order : List Bytes)
    → (verify_parse_order order ≡ none) ↔ (
        (order ≡ [])
        ⊎ ((path rest : List Bytes) → Member path artifact_v3_parse_grammar → path ≢ order ++ rest))
unfolding verify_parse_order
verify_parse_order-none_iff [] = (λ h. inl refl, λ h. verify_against-nil artifact_v3_parse_grammar)
verify_parse_order-none_iff (u ∷ order) = (
  λ h. inr (λ path rest m e.
      let (v, found) = verify_against_complete artifact_v3_parse_grammar u order path rest m e in
      cc (h, found)),
  λ h. elim (Option-cases (verify_against artifact_v3_parse_grammar (u ∷ order))) [
    | inl refused ↦ refused
    | inr ((t, full), found) ↦
        let (path, rest, m, e, l, f) =
          verify_against_sound artifact_v3_parse_grammar (u ∷ order) t full found in
        elim h [ inl empty ↦ cc (empty) | inr absent ↦ absurd (absent path rest m e) ]
  ],
)

-- Every path is accepted as a whole, at its last name.
abbrev at_end : Option Bytes → Verdict
at_end none = none
at_end (some t) = some (t, true)

abbrev IsAccepted : List Bytes → Type 0
IsAccepted p = verify_parse_order p ≡ at_end (last p)

grammar-IsAccepted : All IsAccepted artifact_v3_parse_grammar
unfolding artifact_v3_parse_grammar verify_parse_order eqb
grammar-IsAccepted = (
  refl,
  (
    refl,
    (
      refl,
      (
        refl,
        (
          refl,
          (
            refl,
            (refl, (refl, (refl, (refl, (refl, (refl, (refl, (refl, (refl, (refl, tt)))))))))),
          ),
        ),
      ),
    ),
  ),
)

All-Member : (g : List (List Bytes)) (p : List Bytes) → All IsAccepted g → Member p g → IsAccepted p
All-Member [] p a m = absurd m
All-Member (q ∷ g) p a (inl e) = subst IsAccepted (sym e) a.0
All-Member (q ∷ g) p a (inr m) = All-Member g p a.1 m

Member-whole :
    (g : List (List Bytes)) (path order rest : List Bytes)
    → Member path g
    → path ≡ order ++ rest
    → true ≡ (length rest == 0)
    → Member order g
Member-whole g path order [] m e f = subst (λ p. Member p g) (e ∙ append-nil order) m
Member-whole g path order (r ∷ rest) m e f = ground arith

-- `verifyParseOrder` reports a full match exactly if the names read are one of the sixteen paths,
-- and its token is then the last of them.
pub verify_parse_order-full_iff :
    (order : List Bytes) (t : Bytes)
    → (verify_parse_order order ≡ some (t, true))
      ↔ (Member order artifact_v3_parse_grammar × (last order ≡ some t))
verify_parse_order-full_iff order t = (
  λ h.
      let (path, rest, m, e, l, f) = verify_parse_order_sound order t true h in
      (Member-whole artifact_v3_parse_grammar path order rest m e f, l),
  λ h. All-Member artifact_v3_parse_grammar order grammar-IsAccepted h.0 ∙ ap at_end h.1,
)
