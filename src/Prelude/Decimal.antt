-- ===== src/Prelude/Decimal.antt =====
-- Decimal numbers: `fmt.Sprintf("%04d", n)` of a number that is not negative, and `strconv.Atoi`.
use mathlib.Core.Path.{◌≡◌, refl, ap, ◌∙◌}
use native.Mathlib.Decide.{dec_lt}
use mathlib.Core.Bool.{◌&&◌}
use mathlib.Core.Option.{Option, none, some}
use mathlib.Core.Logic.{◌≢◌}
use mathlib.Core.List.{[], ◌∷◌, ◌++◌}
use native.Mathlib.Omega.{arith}
use Prim.Native.Nat.{ℕ, zero, suc, ◌+◌, ◌-◌, ◌*◌, ◌/◌, ◌%◌, ◌^◌, ◌<◌, ◌≤◌}
use mender_artifact.Prelude.Tests.{◌==◌, leb, ltb, if◌then◌else◌}
use mender_artifact.Prelude.Lists.{length, replicate}
use mender_artifact.Prelude.Text.{Bytes}

-- `negsuc n` is -(n + 1).
pub data ℤ : Type 0 where
  pos : ℕ → ℤ
  negsuc : ℕ → ℤ

abbrev pub negate : ℕ → ℤ
negate zero = pos 0
negate (suc n) = negsuc n

-- At most `fuel` digits; 20 are enough for an `int`, which is below 2^63.
digits : ℕ → ℕ → Bytes → Bytes
digits zero n out = out
digits (suc fuel) n out =
    let rest = digits fuel (n / 10) ((b'0' + n % 10) ∷ out) in if n == 0 then out else rest

unfoldable pub format : ℕ → Bytes
unfolding digits
format n = if n == 0 then b'0' ∷ [] else digits 20 n []

-- `%04d`: zeros in front, up to four bytes.
unfoldable pub format_padded : ℕ → Bytes
unfolding format
format_padded n = replicate (4 - length (format n)) b'0' ++ format n

-- The digits behind the number that was read so far; `none` at any other byte.
scan : Bytes → ℕ → Option ℕ
scan [] n = some n
scan (c ∷ s) n = if leb b'0' c && leb c b'9' then scan s (n * 10 + (c - b'0')) else none

scan_some : Bytes → Option ℕ
unfolding scan
scan_some [] = none
scan_some (c ∷ s) = scan (c ∷ s) 0

positive : Option ℕ → Option ℤ
positive none = none
positive (some n) = if ltb n (2 ^ 63) then some (pos n) else none

negative : Option ℕ → Option ℤ
negative none = none
negative (some n) = if leb n (2 ^ 63) then some (negate n) else none

-- `strconv.Atoi` with a 64-bit `int`: a sign is allowed, and `none` is an error.
unfoldable pub atoi : Bytes → Option ℤ
unfolding scan_some positive negative
atoi [] = none
atoi (c ∷ s) =
    if c == b'-'
    then negative (scan_some s)
    else if c == b'+'
    then positive (scan_some s)
    else positive (scan_some (c ∷ s))

abbrev pub IsDigit : ℕ → Type 0
IsDigit c = (b'0' ≤ c) × (c ≤ b'9')

-- Four digits.
unfoldable pub four : ℕ → Bytes
four n = (b'0' + n / 1000) ∷ (b'0' + n / 100 % 10) ∷ (b'0' + n / 10 % 10) ∷ (b'0' + n % 10) ∷ []

digits-zero : (fuel : ℕ) (out : Bytes) → digits fuel 0 out ≡ out
unfolding digits
digits-zero zero out = refl
digits-zero (suc fuel) out = refl

digits_pos :
    (fuel n : ℕ) (out : Bytes)
    → n ≢ 0
    → digits (suc fuel) n out ≡ digits fuel (n / 10) ((b'0' + n % 10) ∷ out)
unfolding digits
digits_pos fuel n out h = ground arith

-- The digits of a number that has one to four.
digits_lt_10 :
    (fuel n : ℕ) (out : Bytes) → n ≢ 0 → n < 10 → digits (suc fuel) n out ≡ (b'0' + n % 10) ∷ out
digits_lt_10 fuel n out p h =
    digits_pos fuel n out p
    ∙ ap (λ m. digits fuel m ((b'0' + n % 10) ∷ out)) (omega arith)
    ∙ digits-zero fuel _

digits_lt_100 :
    (fuel n : ℕ) (out : Bytes)
    → 10 ≤ n
    → n < 100
    → digits (suc (suc fuel)) n out ≡ (b'0' + n / 10) ∷ (b'0' + n % 10) ∷ out
digits_lt_100 fuel n out p h =
    digits_pos (suc fuel) n out (omega arith)
    ∙ digits_lt_10 fuel (n / 10) _ (omega arith) (omega arith)
    ∙ ap (λ d. (b'0' + d) ∷ (b'0' + n % 10) ∷ out) (omega arith)

digits_lt_1000 :
    (fuel n : ℕ) (out : Bytes)
    → 100 ≤ n
    → n < 1000
    → digits (suc (suc (suc fuel))) n out
      ≡ (b'0' + n / 100) ∷ (b'0' + n / 10 % 10) ∷ (b'0' + n % 10) ∷ out
digits_lt_1000 fuel n out p h =
    digits_pos (suc (suc fuel)) n out (omega arith)
    ∙ digits_lt_100 fuel (n / 10) _ (omega arith) (omega arith)
    ∙ ap (λ d. (b'0' + d) ∷ (b'0' + n / 10 % 10) ∷ (b'0' + n % 10) ∷ out) (omega arith)

digits_lt_10000 :
    (fuel n : ℕ) → 1000 ≤ n → n < 10000 → digits (suc (suc (suc (suc fuel)))) n [] ≡ four n
unfolding four
digits_lt_10000 fuel n p h =
    digits_pos (suc (suc (suc fuel))) n [] (omega arith)
    ∙ digits_lt_1000 fuel (n / 10) _ (omega arith) (omega arith)
    ∙ ground arith

format_pos : (n : ℕ) → n ≢ 0 → format n ≡ digits 20 n []
unfolding format
format_pos n h = ground arith

-- Below 10000 the padded print is the four digits.
pub format_padded-four : (n : ℕ) → n < 10000 → format_padded n ≡ four n
unfolding format_padded four
format_padded-four zero h = refl
format_padded-four (suc m) h =
    let n = suc m in
    elim (dec_lt n 10) [
      | yes a ↦ rw (format_pos n (omega arith), digits_lt_10 19 n [] (omega arith) a) (ground arith)
      | no a ↦ elim (dec_lt n 100) [
        | yes b ↦
            rw (format_pos n (omega arith), digits_lt_100 18 n [] (omega arith) b) (ground arith)
        | no b ↦ elim (dec_lt n 1000) [
          | yes c ↦
              rw (format_pos n (omega arith), digits_lt_1000 17 n [] (omega arith) c) (ground arith)
          | no c ↦
              rw (format_pos n (omega arith), digits_lt_10000 16 n (omega arith) h)
                (unfold four in refl)
        ]
      ]
    ]

pub atoi-four : (n : ℕ) → n < 10000 → atoi (four n) ≡ some (pos n)
unfolding atoi four
atoi-four n h = ground arith
