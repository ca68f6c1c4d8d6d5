-- ===== src/Artifact/Signer/Marshal.antt =====
-- `MarshalECDSASignature` and `UnmarshalECDSASignature` of artifact/signer.go.
use mender_artifact.Prelude.{
  ℕ, ◌+◌, ◌-◌, ◌*◌, ◌^◌, ◌<◌, ◌≤◌, suc, zero, ◌||◌, [], ◌∷◌, ◌++◌, some, ◌≡◌, ◌↔◌, refl, sym, ap,
  ap₂, ◌⊎◌, ◌∙◌, inl, inr, arith, Bytes, length, length-append, length-replicate, take, drop,
  take-append, drop-append, replicate, ltb, append_assoc, append-nil, Bool-cases,
}
use mender_artifact.Prelude.BigInt.{
  big_bytes, set_bytes, set_bytes-big_bytes, set_bytes-zeros, length-big_bytes_iff,
}
use mender_artifact.Prelude.Result.{ok, err, ok_injective}
use mender_artifact.Artifact.Signer.{
  Library, invalid_size_of_keys, key_size, copy_at, marshal_ecdsa_signature,
  unmarshal_mender_artifact, unmarshal_ecdsa_signature,
}

abbrev zeros : ℕ → Bytes
zeros n = replicate n 0

zeros-plus : (m n : ℕ) → zeros (m + n) ≡ zeros m ++ zeros n
zeros-plus zero n = ap zeros {x = 0 + n} {y = n} (omega arith)
zeros-plus (suc m) n =
    ap zeros {x = suc m + n} {y = suc (m + n)} (omega arith) ∙ ap (◌∷◌ 0) (zeros-plus m n)

length-zeros : (n : ℕ) → length (zeros n) ≡ n
length-zeros n = length-replicate n 0

take-all : (n : ℕ) (s : Bytes) → length s ≤ n → take n s ≡ s
take-all zero [] h = refl
take-all (suc n) [] h = refl
take-all zero (c ∷ s) h = absurd (omega arith)
take-all (suc n) (c ∷ s) h = ap (◌∷◌ c) (take-all n s (omega arith))

-- A copy behind `p`, over something that is as long.
copy_at-append :
    (n : ℕ) (p old new rest : Bytes)
    → length p ≡ n
    → length new ≡ length old
    → copy_at n new (p ++ (old ++ rest)) ≡ p ++ (new ++ rest)
unfolding copy_at
copy_at-append n p old new rest at e =
    let start : take n (p ++ (old ++ rest)) ≡ p =
      ap (λ k. take k (p ++ (old ++ rest))) (sym at) ∙ take-append p (old ++ rest) in
    let all : take (length (p ++ (old ++ rest)) - n) new ≡ new =
      take-all (length (p ++ (old ++ rest)) - n) new
        (omega (arith, at, e, length-append p (old ++ rest), length-append old rest)) in
    let end : drop (n + length new) (p ++ (old ++ rest)) ≡ rest =
      ap₂ drop (omega (arith, at, e, length-append p old)) (sym (append_assoc p old rest))
      ∙ drop-append (p ++ old) rest in
    rw (start, all, end) (append_assoc p new rest)

-- A number of at most 32 bytes, with zeros in front.
abbrev pub half : ℕ → Bytes
half n = zeros (key_size - length (big_bytes n)) ++ big_bytes n

length-half : (n : ℕ) → length (big_bytes n) ≤ key_size → length (half n) ≡ key_size
length-half n h = omega (
  arith,
  length-append (zeros (key_size - length (big_bytes n))) (big_bytes n),
  length-zeros (key_size - length (big_bytes n)),
)

-- The zeros of one half, split where the number begins.
zeros-half :
    (n : ℕ)
    → length (big_bytes n) ≤ key_size
    → zeros key_size ≡ zeros (key_size - length (big_bytes n)) ++ zeros (length (big_bytes n))
zeros-half n h =
    ap zeros {x = key_size} {y = key_size - length (big_bytes n) + length (big_bytes n)}
      (omega arith)
    ∙ zeros-plus (key_size - length (big_bytes n)) (length (big_bytes n))

-- Both copies.
copied :
    (r s : ℕ)
    → length (big_bytes r) ≤ key_size
    → length (big_bytes s) ≤ key_size
    → copy_at
        (key_size + (key_size - length (big_bytes s)))
        (big_bytes s)
        (copy_at (key_size - length (big_bytes r)) (big_bytes r) (zeros (2 * key_size)))
      ≡ half r ++ half s
copied r s hr hs =
    let r_zeros = zeros (key_size - length (big_bytes r)) in
    let s_zeros = zeros (key_size - length (big_bytes s)) in
    let blank : zeros (2 * key_size) ≡ r_zeros ++ (zeros (length (big_bytes r)) ++ zeros key_size) =
      zeros-plus key_size key_size
      ∙ ap (λ z. z ++ zeros key_size) (zeros-half r hr)
      ∙ append_assoc r_zeros (zeros (length (big_bytes r))) (zeros key_size) in
    let first : copy_at (key_size - length (big_bytes r)) (big_bytes r) (zeros (2 * key_size))
        ≡ half r ++ zeros key_size =
      ap (copy_at (key_size - length (big_bytes r)) (big_bytes r)) blank
      ∙ copy_at-append (key_size - length (big_bytes r)) r_zeros (zeros (length (big_bytes r)))
          (big_bytes r) (zeros key_size) (length-zeros (key_size - length (big_bytes r)))
          (sym (length-zeros (length (big_bytes r))))
      ∙ sym (append_assoc r_zeros (big_bytes r) (zeros key_size)) in
    let s_at = key_size - length (big_bytes s) in
    ap (copy_at (key_size + s_at) (big_bytes s)) (
      first
      ∙ ap (λ z. half r ++ z) (zeros-half s hs)
      ∙ sym (append_assoc (half r) s_zeros (zeros (length (big_bytes s))))
      ∙ ap (λ z. (half r ++ s_zeros) ++ z) (sym (append-nil (zeros (length (big_bytes s))))))
    ∙ copy_at-append (key_size + s_at) (half r ++ s_zeros) (zeros (length (big_bytes s)))
        (big_bytes s) []
        (omega (arith, length-append (half r) s_zeros, length-half r hr, length-zeros s_at))
        (sym (length-zeros (length (big_bytes s))))
    ∙ ap (λ z. (half r ++ s_zeros) ++ z) (append-nil (big_bytes s))
    ∙ append_assoc (half r) s_zeros (big_bytes s)

-- What a signature is, and when there is one.
pub marshal_ecdsa_signature-cases :
    (r s : ℕ)
    → ((r < 2 ^ 256) × (s < 2 ^ 256) × (marshal_ecdsa_signature r s ≡ ok (half r ++ half s)))
      ⊎ (((2 ^ 256 ≤ r) ⊎ (2 ^ 256 ≤ s)) × (marshal_ecdsa_signature r s ≡ err invalid_size_of_keys))
unfolding marshal_ecdsa_signature
marshal_ecdsa_signature-cases r s =
    elim (Bool-cases (ltb key_size (length (big_bytes r)) || ltb key_size (length (big_bytes s)))) [
      | inl long ↦ inr (
        ground (arith, long, length-big_bytes_iff r key_size, length-big_bytes_iff s key_size),
        ground (arith, long),
      )
      | inr short ↦
          let hr : length (big_bytes r) ≤ key_size = ground (arith, short) in
          let hs : length (big_bytes s) ≤ key_size = ground (arith, short) in
          inl (
            (length-big_bytes_iff r key_size).0 hr,
            (length-big_bytes_iff s key_size).0 hs,
            rw short (ap (λ t. ok t) (copied r s hr hs)),
          )
    ]

-- `MarshalECDSASignature` refuses two numbers exactly if one of them has more than 256 bits.
pub marshal_ecdsa_signature-err_iff :
    (r s : ℕ)
    → (marshal_ecdsa_signature r s ≡ err invalid_size_of_keys) ↔ ((2 ^ 256 ≤ r) ⊎ (2 ^ 256 ≤ s))
marshal_ecdsa_signature-err_iff r s = elim (marshal_ecdsa_signature-cases r s) [
  | inl (hr, hs, fits) ↦ (λ e. cc (e, fits), λ large. absurd (omega (arith, hr, hs, large)))
  | inr (large, refused) ↦ (λ e. large, λ l. refused)
]

length-halves : (r s : ℕ) → r < 2 ^ 256 → s < 2 ^ 256 → length (half r ++ half s) ≡ 64
length-halves r s hr hs = omega (
  arith,
  length-append (half r) (half s),
  length-half r ((length-big_bytes_iff r key_size).1 hr),
  length-half s ((length-big_bytes_iff s key_size).1 hs),
)

set_bytes-half : (n : ℕ) → set_bytes (half n) ≡ n
set_bytes-half n =
    set_bytes-zeros (key_size - length (big_bytes n)) (big_bytes n) ∙ set_bytes-big_bytes n

halves_read : (r s : ℕ) → r < 2 ^ 256 → unmarshal_mender_artifact (half r ++ half s) ≡ (r, s)
unfolding unmarshal_mender_artifact
halves_read r s hr =
    let size = length-half r ((length-big_bytes_iff r key_size).1 hr) in
    let first : take key_size (half r ++ half s) ≡ half r =
      ap (λ k. take k (half r ++ half s)) (sym size) ∙ take-append (half r) (half s) in
    let second : drop key_size (half r ++ half s) ≡ half s =
      ap (λ k. drop k (half r ++ half s)) (sym size) ∙ drop-append (half r) (half s) in
    ap₂ (λ a b. (a, b)) (ap set_bytes first ∙ set_bytes-half r)
      (ap set_bytes second ∙ set_bytes-half s)

-- What `MarshalECDSASignature` makes of two numbers has 64 bytes, and `UnmarshalECDSASignature`
-- gives both numbers back, whatever the ASN.1 decoder does.
pub unmarshal_ecdsa_signature-marshal_ecdsa_signature :
    (x : Library) (r s : ℕ) (sig : Bytes)
    → marshal_ecdsa_signature r s ≡ ok sig
    → (length sig ≡ 64) × (unmarshal_ecdsa_signature x sig ≡ ok (some r, some s))
unfolding unmarshal_ecdsa_signature
unmarshal_ecdsa_signature-marshal_ecdsa_signature x r s sig h =
    elim (marshal_ecdsa_signature-cases r s) [
      | inr (large, refused) ↦ cc (h, refused)
      | inl (hr, hs, fits) ↦
          let same : sig ≡ half r ++ half s = ok_injective (sym h ∙ fits) in
          let size : length sig ≡ 64 = ap length same ∙ length-halves r s hr hs in
          (size, ground (arith, size, ap unmarshal_mender_artifact same, halves_read r s hr))
    ]
