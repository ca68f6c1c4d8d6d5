-- ===== src/Prelude/BigInt.antt =====
-- `Bytes` and `SetBytes` of `math/big` for a number that is not negative: its bytes, the most
-- significant first and with no zero in front.
use Prim.Native.Nat.{ℕ, zero, suc, ◌+◌, ◌*◌, ◌/◌, ◌%◌, ◌<◌, ◌≤◌}
use mathlib.Core.Path.{◌≡◌, refl, ap, ◌∙◌}
use mathlib.Core.Bool.{true, false}
use mathlib.Core.Logic.{inl, inr, ◌↔◌}
use mathlib.Core.List.{[], ◌∷◌, ◌++◌}
use native.Mathlib.Omega.{arith}
use mender_artifact.Prelude.Tests.{◌==◌, Bool-cases}
use mender_artifact.Prelude.Lists.{length, replicate}
use mender_artifact.Prelude.Text.{Bytes}

-- The bytes of the number in front of the others: a number has no more bytes than its value.
bytes_before : ℕ → ℕ → Bytes → Bytes
bytes_before zero n out = out
bytes_before (suc fuel) n out = elim (n == 0) [
  | true ↦ out
  | false ↦ bytes_before fuel (n / 256) (n % 256 ∷ out)
]

unfoldable pub big_bytes : ℕ → Bytes
unfolding bytes_before
big_bytes n = bytes_before n n []

set_from : ℕ → Bytes → ℕ
set_from n [] = n
set_from n (c ∷ s) = set_from (n * 256 + c) s

unfoldable pub set_bytes : Bytes → ℕ
unfolding set_from
set_bytes s = set_from 0 s

set_from-bytes_before :
    (fuel n : ℕ) (out : Bytes) → n ≤ fuel → set_from 0 (bytes_before fuel n out) ≡ set_from n out
unfolding bytes_before set_from
set_from-bytes_before zero n out h = ap (λ m. set_from m out) (omega arith)
set_from-bytes_before (suc fuel) n out h = elim (Bool-cases (n == 0)) [
  | inl none_left ↦ ground (arith, none_left)
  | inr more ↦
      rw (more, bytes_before)
        (set_from-bytes_before fuel (n / 256) (n % 256 ∷ out) (ground (arith, more))
          ∙ ap (λ m. set_from m out) (omega arith))
]

-- Reading the bytes of a number gives it back.
pub set_bytes-big_bytes : (n : ℕ) → set_bytes (big_bytes n) ≡ n
unfolding set_bytes big_bytes set_from
set_bytes-big_bytes n = set_from-bytes_before n n [] (omega arith)

-- Zeros in front change nothing.
pub set_bytes-zeros : (k : ℕ) (s : Bytes) → set_bytes (replicate k 0 ++ s) ≡ set_bytes s
unfolding set_bytes set_from
set_bytes-zeros zero s = refl
set_bytes-zeros (suc k) s = set_bytes-zeros k s

-- 256 to this power.
abbrev pub scale : ℕ → ℕ
scale zero = 1
scale (suc k) = 256 * scale k

grows : (fuel n : ℕ) (out : Bytes) → length out ≤ length (bytes_before fuel n out)
unfolding bytes_before
grows zero n out = omega arith
grows (suc fuel) n out = ground (arith, grows fuel (n / 256) (n % 256 ∷ out))

scale_pos : (k : ℕ) → 0 < scale k
scale_pos zero = omega arith
scale_pos (suc k) = omega (arith, scale_pos k)

length-bytes_before :
    (fuel n k : ℕ) (out : Bytes)
    → n ≤ fuel
    → (length (bytes_before fuel n out) ≤ k + length out) ↔ (n < scale k)
unfolding bytes_before
length-bytes_before zero n k out h = (λ l. omega (arith, scale_pos k), λ l. omega arith)
length-bytes_before (suc fuel) n zero out h = elim (Bool-cases (n == 0)) [
  | inl none_left ↦ (λ l. ground (arith, none_left), λ l. ground (arith, none_left))
  | inr more ↦
      (λ l. ground (arith, more, grows fuel (n / 256) (n % 256 ∷ out)), λ l. ground (arith, more))
]
length-bytes_before (suc fuel) n (suc k) out h = elim (Bool-cases (n == 0)) [
  | inl none_left ↦ (λ l. ground (arith, none_left, scale_pos k), λ l. ground (arith, none_left))
  | inr more ↦
      let (short, low) =
        length-bytes_before fuel (n / 256) k (n % 256 ∷ out) (ground (arith, more)) in
      (λ l. ground (arith, more, short), λ l. ground (arith, more, low))
]

-- A number has at most `k` bytes exactly if it is below 256 to the power of `k`.
pub length-big_bytes_iff : (n k : ℕ) → (length (big_bytes n) ≤ k) ↔ (n < scale k)
unfolding big_bytes
length-big_bytes_iff n k =
    let (short, low) = length-bytes_before n n k [] (omega arith) in
    (λ h. short (omega arith), λ h. ground (arith, low h))
