-- ===== src/Prelude/Text.antt =====
-- Text as the list of its bytes, with the functions of Go's `strings`, `bytes` and `path/filepath`
-- that the program calls.
use Prim.Native.Char.{code}
use Prim.Native.String.{String}
use Prim.Native.Nat.{ℕ, zero, suc, ◌-◌}
use mathlib.Core.Path.{◌≡◌, refl}
use mathlib.Core.Logic.{◌↔◌, ◌≢◌}
use mathlib.Core.Bool.{Bool, true, false, ◌&&◌, ◌||◌}
use mathlib.Core.List.{List, [], ◌∷◌, ◌++◌, reverse, append_assoc, append-nil}
use native.Mathlib.Omega.{arith}
use mender_artifact.Prelude.Tests.{◌==◌, leb, ltb, if◌then◌else◌}
use mender_artifact.Prelude.Lists.{length, drop, take, All}

abbrev pub Bytes : Type 0
Bytes = List ℕ

-- The bytes of an ASCII literal.
abbrev pub codes : String → Bytes
codes String.[] = []
codes (String.◌∷◌ c s) = code c ∷ codes s

-- `bytes.Equal`, and `==` on strings.
unfoldable pub eqb : Bytes → Bytes → Bool
eqb [] [] = true
eqb (x ∷ xs) (y ∷ ys) = x == y && eqb xs ys
eqb [] (y ∷ ys) = false
eqb (x ∷ xs) [] = false

pub eqb_iff : (a b : Bytes) → (eqb a b ≡ true) ↔ (a ≡ b)
unfolding eqb
eqb_iff [] [] = ground arith
eqb_iff (x ∷ a) (y ∷ b) = ground (arith, eqb_iff a b)
eqb_iff [] (y ∷ b) = ground arith
eqb_iff (x ∷ a) [] = ground arith

pub eqb_refl : (a : Bytes) → eqb a a ≡ true
eqb_refl a = (eqb_iff a a).1 refl

-- `strings.HasPrefix` and `strings.HasSuffix`, the string first.
unfoldable pub has_prefix : Bytes → Bytes → Bool
has_prefix s [] = true
has_prefix [] (p ∷ ps) = false
has_prefix (c ∷ s) (p ∷ ps) = c == p && has_prefix s ps

unfoldable pub has_suffix : Bytes → Bytes → Bool
has_suffix s suffix =
    leb (length suffix) (length s) && eqb (drop (length s - length suffix) s) suffix

-- `strings.TrimSuffix`.
unfoldable pub trim_suffix : Bytes → Bytes → Bytes
trim_suffix s suffix = if has_suffix s suffix then take (length s - length suffix) s else s

-- `strings.Split` at one byte: `cur` is the part that is being read.
unfoldable pub split_from : ℕ → Bytes → Bytes → List Bytes
split_from sep [] cur = cur ∷ []
split_from sep (c ∷ s) cur = elim (c == sep) [
  | true ↦ cur ∷ split_from sep s []
  | false ↦ split_from sep s (cur ++ c ∷ [])
]

unfoldable pub split : Bytes → ℕ → List Bytes
unfolding split_from
split s sep = split_from sep s []

abbrev pub Lacks : ℕ → Bytes → Type 0
Lacks b = All (λ c. c ≢ b)

pub split_from-Lacks :
    (sep : ℕ) (s cur : Bytes) → Lacks sep s → split_from sep s cur ≡ (cur ++ s) ∷ []
unfolding split_from
split_from-Lacks sep [] cur h = rw append-nil
split_from-Lacks sep (c ∷ s) cur h =
    ground (arith, split_from-Lacks sep s (cur ++ c ∷ []) h.1, append_assoc cur (c ∷ []) s)

pub split_from-append :
    (sep : ℕ) (s rest cur : Bytes)
    → Lacks sep s
    → split_from sep (s ++ sep ∷ rest) cur ≡ (cur ++ s) ∷ split_from sep rest []
unfolding split_from
split_from-append sep [] rest cur h = ground (arith, append-nil cur)
split_from-append sep (c ∷ s) rest cur h =
    ground (arith, split_from-append sep s rest (cur ++ c ∷ []) h.1, append_assoc cur (c ∷ []) s)

-- `unicode.IsSpace` below 0x80.
abbrev pub is_space : ℕ → Bool
is_space c = c == b' ' || (leb 9 c && leb c 13)

-- The same above it, on UTF-8: U+0085 and U+00A0 in two bytes; U+1680, U+2000 to U+200A, U+2028,
-- U+2029, U+202F, U+205F and U+3000 in three.
two_bytes : ℕ → ℕ → Bool
two_bytes c d = c == 194 && (d == 133 || d == 160)

three_bytes : ℕ → ℕ → ℕ → Bool
three_bytes c d e =
    (c == 225 && d == 154 && e == 128)
    || (c == 226 && d == 128 && ((leb 128 e && leb e 138) || e == 168 || e == 169 || e == 175))
    || (c == 226 && d == 129 && e == 159)
    || (c == 227 && d == 128 && e == 128)

-- How many bytes the character of white space has that a text begins with; 0 if there is none.
wide : ℕ → Bytes → ℕ
unfolding two_bytes three_bytes
wide c [] = 0
wide c (d ∷ []) = if two_bytes c d then 2 else 0
wide c (d ∷ e ∷ s) = if two_bytes c d then 2 else if three_bytes c d e then 3 else 0

unfoldable pub space_in_front : Bytes → ℕ
unfolding wide
space_in_front [] = 0
space_in_front (c ∷ s) = if is_space c then 1 else if ltb c 128 then 0 else wide c s

-- The same of the character that a text ends with, on the reversed text.
wide_behind : ℕ → Bytes → ℕ
unfolding two_bytes three_bytes
wide_behind c [] = 0
wide_behind c (d ∷ []) = if two_bytes d c then 2 else 0
wide_behind c (d ∷ e ∷ s) = if two_bytes d c then 2 else if three_bytes e d c then 3 else 0

unfoldable pub space_behind : Bytes → ℕ
unfolding wide_behind
space_behind [] = 0
space_behind (c ∷ s) = if is_space c then 1 else if ltb c 128 then 0 else wide_behind c s

-- White space off the front, of which `n` bytes more are known to be.
unfoldable pub skip_spaces : (Bytes → ℕ) → ℕ → Bytes → Bytes
skip_spaces space n [] = []
skip_spaces space (suc n) (c ∷ s) = skip_spaces space n s
skip_spaces space zero (c ∷ s) = elim (space (c ∷ s)) [
  | zero ↦ c ∷ s
  | suc n ↦ skip_spaces space n s
]

unfoldable pub trim_left : Bytes → Bytes
unfolding skip_spaces space_in_front
trim_left s = skip_spaces space_in_front 0 s

-- `strings.TrimSpace`.
unfoldable pub trim_space : Bytes → Bytes
unfolding trim_left skip_spaces space_behind
trim_space s = reverse (skip_spaces space_behind 0 (reverse (trim_left s)))
