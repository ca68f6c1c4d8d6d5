-- ===== src/Prelude/Result.antt =====
-- Errors as values. `E` is the component's own type of errors.
use mathlib.Core.Path.{◌≡◌, refl}
use mathlib.Core.Logic.{◌⊎◌, inl, inr}
use mathlib.Core.Bool.{Bool, true, false}
use mathlib.Core.Option.{Option, none, some}

pub data Result {ℓ} (E : Type 0) (A : Type ℓ) : Type ℓ where
  ok : A → Result E A
  err : E → Result E A

module _ {E : Type 0} where
  -- An early return with an error unless the test holds.
  abbrev pub guard : Bool → E → Result E (Unit {0})
  guard holds e = elim holds [ false ↦ err e | true ↦ ok tt ]

  infixl 5 ◌>>=◌ ◌>>◌
  abbrev pub ◌>>=◌ {ℓ κ} : {A : Type ℓ} {B : Type κ} → Result E A → (A → Result E B) → Result E B
  err e >>= next = err e
  ok a >>= next = next a

  abbrev pub ◌>>◌ {ℓ} : {B : Type ℓ} → Result E (Unit {0}) → Result E B → Result E B
  first >> second = first >>= λ done. second

  -- The value, or this error in its place.
  abbrev pub or_err {ℓ} : {A : Type ℓ} → Option A → E → Result E A
  or_err none e = err e
  or_err (some a) e = ok a

  pub >>=-eq-ok {ℓ κ} :
      {A : Type ℓ} {B : Type κ} (first : Result E A) (next : A → Result E B) {b : B}
      → (first >>= next) ≡ ok b
      → (a : A) × (first ≡ ok a) × (next a ≡ ok b)
  >>=-eq-ok (err e) next h = cc
  >>=-eq-ok (ok a) next h = (a, refl, h)

  -- The same, handed on to what follows from it.
  pub >>=-elim {ℓ κ ι} :
      {A : Type ℓ} {B : Type κ} {P : Type ι} (first : Result E A) (next : A → Result E B) {b : B}
      → (first >>= next) ≡ ok b
      → ((a : A) → first ≡ ok a → next a ≡ ok b → P)
      → P
  >>=-elim (err e) next h k = cc
  >>=-elim (ok a) next h k = k a refl h

  pub or_err-eq-ok {ℓ} :
      {A : Type ℓ} (o : Option A) (e : E) {a : A} → or_err o e ≡ ok a → o ≡ some a
  or_err-eq-ok none e h = cc
  or_err-eq-ok (some b) e h = cc

  pub ok_injective {ℓ} : {A : Type ℓ} {a b : A} → ◌≡◌ {A = Result E A} (ok a) (ok b) → a ≡ b
  ok_injective h = cc

  pub guard-eq-ok : (b : Bool) (e : E) {u : Unit {0}} → guard b e ≡ ok u → b ≡ true
  guard-eq-ok true e h = refl
  guard-eq-ok false e h = cc

  pub Result-cases {ℓ} :
      {A : Type ℓ} (m : Result E A) → ((a : A) × (m ≡ ok a)) ⊎ ((e : E) × (m ≡ err e))
  Result-cases (ok a) = inl (a, refl)
  Result-cases (err e) = inr (e, refl)
