-- ===== src/Prelude/FilePath/Plain.antt =====
-- Paths whose components are plain names: `Clean` leaves them, `Split` gives the components back.
use mathlib.Core.List.{
  reverse, reverse-cons, reverse-append, reverse-reverse, append_assoc, append-nil, List, [], ◌∷◌,
  ◌++◌,
}
use mathlib.Core.Path.{◌≡◌, refl, sym, ap, ap₂, ◌∙◌}
use mathlib.Core.Logic.{◌≢◌}
use mathlib.Core.Bool.{false}
use native.Mathlib.Omega.{arith}
use Prim.Native.Nat.{ℕ}
use mender_artifact.Prelude.Lists.{All, All-append}
use mender_artifact.Prelude.Text.{
  Bytes, codes, eqb, eqb_iff, split, split_from-append, split_from-Lacks, Lacks,
}
use mender_artifact.Prelude.FilePath.{
  clean, clean_parts, clean_step, join_parts, is_rooted, or_dot, join, base, after_slash,
  drop_slashes, or_slash,
}

-- A name that is not empty, holds no slash, and is neither `.` nor `..`.
abbrev pub IsPlain : Bytes → Type 0
IsPlain p = (p ≢ []) × Lacks b'/' p × (p ≢ codes ".") × (p ≢ codes "..")

abbrev NeEqb : (a b : Bytes) → Type 0
NeEqb a b = eqb a b ≡ false

eqb-ne : (a b : Bytes) → a ≢ b → eqb a b ≡ false
eqb-ne a b h = ground (arith, eqb_iff a b)

clean_step-IsPlain :
    (kept : List Bytes) (p : Bytes) → IsPlain p → clean_step false kept p ≡ p ∷ kept
unfolding clean_step
clean_step-IsPlain kept p h =
    rw (eqb-ne p [] h.0, eqb-ne p (codes ".") h.2, eqb-ne p (codes "..") h.3)

clean_parts-IsPlain :
    (kept ps : List Bytes) → All IsPlain ps → clean_parts false kept ps ≡ reverse kept ++ ps
unfolding clean_parts
clean_parts-IsPlain kept [] h = sym (append-nil _)
clean_parts-IsPlain kept (p ∷ ps) h = rw (clean_step-IsPlain kept p h.0) (
    clean_parts-IsPlain (p ∷ kept) ps h.1
    ∙ ap (λ t. t ++ ps) (reverse-cons p kept)
    ∙ append_assoc (reverse kept) (p ∷ []) ps)

pub split-join_parts :
    (p : Bytes) (ps : List Bytes) → All IsPlain (p ∷ ps) → split (join_parts (p ∷ ps)) b'/' ≡ p ∷ ps
unfolding split join_parts
split-join_parts p [] h = split_from-Lacks b'/' p [] h.0.1
split-join_parts p (q ∷ ps) h =
    split_from-append b'/' p (join_parts (q ∷ ps)) [] h.0.1
    ∙ ap (λ t. p ∷ t) (split-join_parts q ps h.1)

is_rooted-IsPlain : (p rest : Bytes) → IsPlain p → is_rooted (p ++ rest) ≡ false
unfolding is_rooted
is_rooted-IsPlain [] rest h = absurd (h.0 refl)
is_rooted-IsPlain (c ∷ p) rest h = ground (arith, h.1.0)

is_rooted-join_parts :
    (p : Bytes) (ps : List Bytes) → IsPlain p → is_rooted (join_parts (p ∷ ps)) ≡ false
unfolding join_parts
is_rooted-join_parts p [] h = ap is_rooted (sym (append-nil p)) ∙ is_rooted-IsPlain p [] h
is_rooted-join_parts p (q ∷ ps) h = is_rooted-IsPlain p _ h

or_dot-join_parts :
    (p : Bytes) (ps : List Bytes) → IsPlain p → or_dot (join_parts (p ∷ ps)) ≡ join_parts (p ∷ ps)
unfolding join_parts or_dot
or_dot-join_parts [] ps h = absurd (h.0 refl)
or_dot-join_parts (c ∷ p) [] h = refl
or_dot-join_parts (c ∷ p) (q ∷ ps) h = refl

pub clean-join_parts :
    (p : Bytes) (ps : List Bytes)
    → All IsPlain (p ∷ ps)
    → clean (join_parts (p ∷ ps)) ≡ join_parts (p ∷ ps)
unfolding clean
clean-join_parts p ps h =
    rw (is_rooted-join_parts p ps h.0, split-join_parts p ps h)
      (rw (clean_parts-IsPlain [] (p ∷ ps) h) (or_dot-join_parts p ps h.0))

-- `Join` of two and of three plain names.
pub join-IsPlain : (p q : Bytes) → IsPlain p → IsPlain q → join p q ≡ join_parts (p ∷ q ∷ [])
unfolding join join_parts
join-IsPlain [] q hp hq = absurd (hp.0 refl)
join-IsPlain (c ∷ p) [] hp hq = absurd (hq.0 refl)
join-IsPlain (c ∷ p) (d ∷ q) hp hq = clean-join_parts (c ∷ p) ((d ∷ q) ∷ []) (hp, (hq, tt))

join-clean : (s t : Bytes) → s ≢ [] → t ≢ [] → join s t ≡ clean (s ++ b'/' ∷ t)
unfolding join
join-clean [] t hs ht = absurd (hs refl)
join-clean (c ∷ s) [] hs ht = absurd (ht refl)
join-clean (c ∷ s) (d ∷ t) hs ht = refl

nonempty : (p rest : Bytes) → p ≢ [] → p ++ rest ≢ []
nonempty [] rest h = absurd (h refl)
nonempty (c ∷ p) rest h = cc

pub join_three :
    (p q r : Bytes)
    → IsPlain p
    → IsPlain q
    → IsPlain r
    → join (join p q) r ≡ join_parts (p ∷ q ∷ r ∷ [])
unfolding join_parts
join_three p q r hp hq hr =
    ap (λ s. join s r) (join-IsPlain p q hp hq)
    ∙ join-clean (p ++ b'/' ∷ q) r (nonempty p _ hp.0) hr.0
    ∙ ap clean (append_assoc p (b'/' ∷ q) (b'/' ∷ r))
    ∙ clean-join_parts p (q ∷ r ∷ []) (hp, (hq, (hr, tt)))

-- The last component of a path of two plain names.
after_slash-Lacks : (s cur : Bytes) → Lacks b'/' s → after_slash s cur ≡ cur ++ s
unfolding after_slash
after_slash-Lacks [] cur h = sym (append-nil cur)
after_slash-Lacks (c ∷ s) cur h =
    ground (arith, h.0, after_slash-Lacks s (cur ++ c ∷ []) h.1, append_assoc cur (c ∷ []) s)

after_slash-append : (p q cur : Bytes) → Lacks b'/' q → after_slash (p ++ b'/' ∷ q) cur ≡ q
unfolding after_slash
after_slash-append [] q cur h = after_slash-Lacks q [] h
after_slash-append (c ∷ p) q cur h = after_slash-append p q _ h

All-reverse {ℓ} : (P : ℕ → Type ℓ) (s : Bytes) → All P s → All P (reverse s)
All-reverse P [] h = tt
All-reverse P (c ∷ s) h =
    rw (reverse-cons c s) (All-append P (reverse s) (c ∷ []) (All-reverse P s h.1) (h.0, tt))

drop_slashes-append : (s t : Bytes) → s ≢ [] → Lacks b'/' s → drop_slashes (s ++ t) ≡ s ++ t
unfolding drop_slashes
drop_slashes-append [] t h l = absurd (h refl)
drop_slashes-append (c ∷ s) t h l = ground (arith, l.0)

no_trailing_slash : (p q : Bytes) → IsPlain q → reverse (drop_slashes (reverse (p ++ q))) ≡ p ++ q
no_trailing_slash p q h =
    ap (λ t. reverse (drop_slashes t)) (reverse-append p q)
    ∙ ap reverse (
        drop_slashes-append (reverse q) (reverse p)
          (λ e. h.0 (sym (reverse-reverse q) ∙ ap reverse e)) (All-reverse (λ c. c ≢ b'/') q h.1))
    ∙ reverse-append (reverse q) (reverse p)
    ∙ ap₂ (λ a b. a ++ b) (reverse-reverse p) (reverse-reverse q)

or_slash-ne-nil : (q : Bytes) → q ≢ [] → or_slash q ≡ q
unfolding or_slash
or_slash-ne-nil [] h = absurd (h refl)
or_slash-ne-nil (c ∷ q) h = refl

base-cons :
    (s : Bytes) → s ≢ [] → base s ≡ or_slash (after_slash (reverse (drop_slashes (reverse s))) [])
unfolding base
base-cons [] h = absurd (h refl)
base-cons (c ∷ s) h = refl

pub base-join_parts : (p q : Bytes) → IsPlain p → IsPlain q → base (join_parts (p ∷ q ∷ [])) ≡ q
unfolding join_parts
base-join_parts p q hp hq =
    base-cons (p ++ b'/' ∷ q) (nonempty p _ hp.0)
    ∙ ap (λ t. or_slash (after_slash t []))
        (ap (λ t. reverse (drop_slashes (reverse t))) (sym (append_assoc p (b'/' ∷ []) q))
          ∙ no_trailing_slash (p ++ b'/' ∷ []) q hq
          ∙ append_assoc p (b'/' ∷ []) q)
    ∙ ap or_slash (after_slash-append p q [] hq.1)
    ∙ or_slash-ne-nil q hq.0
