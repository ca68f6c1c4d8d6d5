-- ===== src/Prelude/Dict.antt =====
-- Go's maps as association lists: a write to a key that is there replaces its value in place, any
-- other appends. The order of a list is not read as the order in which Go walks the map.
use mathlib.Core.Path.{◌≡◌, refl}
use mathlib.Core.Logic.{◌↔◌}
use mathlib.Core.Bool.{Bool, true}
use mathlib.Core.Option.{Option, none, some}
use mathlib.Core.List.{List, [], ◌∷◌, ◌++◌}
use native.Mathlib.Omega.{arith}
use Prim.Native.Nat.{ℕ}
use mender_artifact.Prelude.Tests.{◌==◌ as nat_beq, ==_iff, if◌then◌else◌}
use mender_artifact.Prelude.Text.{Bytes, eqb, eqb_iff}

pub record Eq (K : Type 0) : Type 0 where
  pub beq : K → K → Bool
  pub beq_iff : (a b : K) → (beq a b ≡ true) ↔ (a ≡ b)

instance abbrev pub nat_eq : Eq ℕ
nat_eq = record { beq = nat_beq; beq_iff = ==_iff }

instance abbrev pub bytes_eq : Eq Bytes
bytes_eq = record { beq = eqb; beq_iff = eqb_iff }

abbrev pub Dict {ℓ} : Type 0 → Type ℓ → Type ℓ
Dict K V = List (K × V)

module _ {ℓ} {K : Type 0} {V : Type ℓ} ⦃e : Eq K⦄ where
  unfoldable pub lookup : K → Dict K V → Option V
  lookup k [] = none
  lookup k ((j, v) ∷ m) = if e.beq j k then some v else lookup k m

  unfoldable pub insert : K → V → Dict K V → Dict K V
  insert k v [] = (k, v) ∷ []
  insert k v ((j, w) ∷ m) = if e.beq j k then (k, v) ∷ m else (j, w) ∷ insert k v m

  pub lookup-insert :
      (k j : K) (v : V) (m : Dict K V)
      → lookup j (insert k v m) ≡ (if e.beq k j then some v else lookup j m)
  unfolding lookup insert
  lookup-insert k j v [] = refl
  lookup-insert k j v ((i, w) ∷ m) =
      ground (arith, e.beq_iff k j, e.beq_iff i k, e.beq_iff i j, lookup-insert k j v m)

  -- The keys, in the order of the list.
  abbrev pub keys : Dict K V → List K
  keys [] = []
  keys ((j, v) ∷ m) = j ∷ keys m

  -- A key that is not there is appended.
  pub insert-append :
      (k : K) (v : V) (m : Dict K V) → lookup k m ≡ none → insert k v m ≡ m ++ (k, v) ∷ []
  unfolding lookup insert
  insert-append k v [] h = refl
  insert-append k v ((j, w) ∷ m) h = ground (arith, insert-append k v m)

  pub keys-append : (m n : Dict K V) → keys (m ++ n) ≡ keys m ++ keys n
  keys-append [] n = refl
  keys-append ((j, v) ∷ m) n = ground (arith, keys-append m n)

  pub lookup-append : (k : K) (m n : Dict K V) → lookup k m ≡ none → lookup k (m ++ n) ≡ lookup k n
  unfolding lookup
  lookup-append k [] n h = refl
  lookup-append k ((j, v) ∷ m) n h = ground (arith, lookup-append k m n)

-- Overwriting a key that is there keeps the keys.
module _ {ℓ} {K : Type 0} {V : Type ℓ} ⦃e : Eq K⦄ where
  pub keys-insert_present :
      (k : K) (v w : V) (m : Dict K V) → lookup k m ≡ some w → keys (insert k v m) ≡ keys m
  unfolding lookup insert
  keys-insert_present k v w [] h = cc
  keys-insert_present k v w ((j, x) ∷ m) h =
      ground (arith, e.beq_iff j k, keys-insert_present k v w m)

module _ {ℓ} {K : Type 0} {V : Type ℓ} ⦃e : Eq K⦄ where
  -- Two dictionaries with the same keys have a value at the same keys.
  pub lookup-none-keys {κ} :
      {W : Type κ} (k : K) (m : Dict K V) (n : Dict K W)
      → keys m ≡ keys n
      → lookup k m ≡ none
      → lookup k n ≡ none
  unfolding lookup
  lookup-none-keys k [] [] h g = refl
  lookup-none-keys k [] ((i, w) ∷ n) h g = cc
  lookup-none-keys k ((j, v) ∷ m) [] h g = cc
  lookup-none-keys k ((j, v) ∷ m) ((i, w) ∷ n) h g = ground (arith, lookup-none-keys k m n)
