-- ===== src/Artifact/Signer/RoundTrip.antt =====
-- A signature that `PKISigner.Sign` of artifact/signer.go makes is accepted by `Verify`.
use mender_artifact.Prelude.{
  ℕ, true, [], Option, none, some, ◌≡◌, inl, inr, refl, arith, Bytes, Option-cases,
}
use mender_artifact.Prelude.Result.{ok, ok_injective, Result-cases}
use mender_artifact.Artifact.Signer.{
  Library, Key, rsa_private, rsa_public, ecdsa_private, ecdsa_public, other_key, Crypto, rsa, ecdsa,
  SigningMethod, PkiSigner, marshal_ecdsa_signature, crypto_sign, crypto_verify, with_public,
  method_of_pkcs8, method_of_block, get_key_and_sign_method, new_pki_signer, sign, verify,
}
use mender_artifact.Artifact.Signer.Marshal.{unmarshal_ecdsa_signature-marshal_ecdsa_signature}

-- What the standard library documents: a signature that is made for a hash is verified for it, and
-- both encodings are read back.
pub record LibraryIsSound (x : Library) : Type 0 where
  pub pkcs1 : (k : ℕ) (h sig : Bytes) → x.sign_pkcs1 k h ≡ some sig → x.verify_pkcs1 k h sig ≡ true
  pub ecdsa_pair :
      (k : ℕ) (h : Bytes) (r s : ℕ) → x.sign_ecdsa k h ≡ some (r, s) → x.verify_ecdsa k h r s ≡ true
  pub pkix : (key : Key) (b : Bytes) → x.marshal_pkix key ≡ some b → x.parse_pkix b ≡ some key
  pub base64 : (b : Bytes) → x.decode (x.encode b) ≡ some b

-- A private key, its public key, and the method that fits both.
pub data Pair : Key → Key → Crypto → Type 0 where
  rsa_pair : (k : ℕ) → Pair (rsa_private k) (rsa_public k) rsa
  ecdsa_pair : (k : ℕ) → Pair (ecdsa_private k) (ecdsa_public k) ecdsa

module _ (x : Library) (sound : LibraryIsSound x) where
  crypto_verify-crypto_sign :
      (key half : Key) (method : Crypto) (message sig : Bytes)
      → Pair key half method
      → crypto_sign x method message key ≡ ok sig
      → crypto_verify x method message sig half ≡ ok tt
  unfolding crypto_sign crypto_verify
  crypto_verify-crypto_sign _ _ _ message sig (rsa_pair k) h =
      ground (arith, sound.pkcs1 k (x.sha256 message) sig)
  crypto_verify-crypto_sign _ _ _ message sig (ecdsa_pair k) h =
      elim (Option-cases (x.sign_ecdsa k (x.sha256 message))) [
        | inl refused ↦ ground (arith, refused)
        | inr ((r, s), made) ↦
            let marshalled : marshal_ecdsa_signature r s ≡ ok sig = ground (arith, made) in
            let (size, read) =
              unmarshal_ecdsa_signature-marshal_ecdsa_signature x r s sig marshalled in
            rw read (ground (arith, sound.ecdsa_pair k (x.sha256 message) r s made))
      ]

  -- The method is of a pair, and its encoded key is the public one.
  abbrev IsPaired : SigningMethod → Type 0
  IsPaired m =
      (key : Key) × (half : Key) × (method : Crypto) × Pair key half method
      × (m.key ≡ key)
      × (m.method ≡ method)
      × (x.marshal_pkix half ≡ some m.public)

  with_public-IsPaired :
      (key half : Key) (method : Crypto) (m : SigningMethod)
      → Pair key half method
      → with_public x key half method ≡ some m
      → IsPaired m
  unfolding with_public
  with_public-IsPaired key half method m p h =
      (key, half, method, p, ground arith, ground arith, ground arith)

  method_of_pkcs8-IsPaired :
      (key : Option Key) (m : SigningMethod) → method_of_pkcs8 x key ≡ ok (some m) → IsPaired m
  unfolding method_of_pkcs8
  method_of_pkcs8-IsPaired none m h = cc
  method_of_pkcs8-IsPaired (some (rsa_private k)) m h =
      with_public-IsPaired (rsa_private k) (rsa_public k) rsa m (rsa_pair k) (ok_injective h)
  method_of_pkcs8-IsPaired (some (ecdsa_private k)) m h =
      with_public-IsPaired (ecdsa_private k) (ecdsa_public k) ecdsa m (ecdsa_pair k)
        (ok_injective h)
  method_of_pkcs8-IsPaired (some (rsa_public k)) m h = cc
  method_of_pkcs8-IsPaired (some (ecdsa_public k)) m h = cc
  method_of_pkcs8-IsPaired (some (other_key k)) m h = cc

  method_of_block-IsPaired :
      (block : Bytes) (m : SigningMethod) → method_of_block x block ≡ ok (some m) → IsPaired m
  unfolding method_of_block
  method_of_block-IsPaired block m h = elim (Option-cases (x.parse_pkcs1 block)) [
    | inr (k, there) ↦
        with_public-IsPaired (rsa_private k) (rsa_public k) rsa m (rsa_pair k)
          (ok_injective (rw (there, method_of_block) at h))
    | inl no_rsa ↦ elim (Option-cases (x.parse_ec block)) [
      | inr (k, there) ↦
          with_public-IsPaired (ecdsa_private k) (ecdsa_public k) ecdsa m (ecdsa_pair k)
            (ok_injective (rw (no_rsa, there, method_of_block) at h))
      | inl no_ec ↦
          method_of_pkcs8-IsPaired (x.parse_pkcs8 block) m
            (rw (no_rsa, no_ec, method_of_block) at h)
    ]
  ]

  get_key_and_sign_method-IsPaired :
      (pem : Bytes) (m : SigningMethod) → get_key_and_sign_method x pem ≡ ok (some m) → IsPaired m
  unfolding get_key_and_sign_method
  get_key_and_sign_method-IsPaired pem m h = elim (Option-cases (x.pem_decode pem)) [
    | inl broken ↦ ground (arith, broken)
    | inr (block, there) ↦ method_of_block-IsPaired block m (ground (arith, there))
  ]

  -- A signer that was made signs with a key of a pair and verifies with the other.
  abbrev SignsAndVerifies : PkiSigner → Type 0
  SignsAndVerifies s =
      (m : SigningMethod) × (v : SigningMethod) × (s.sign_method ≡ some m)
      × (s.verify_method ≡ some v)
      × Pair m.key v.key m.method
      × (v.method ≡ m.method)

  new_pki_signer-SignsAndVerifies :
      (private_key : Bytes) (s : PkiSigner)
      → new_pki_signer x private_key ≡ ok s
      → SignsAndVerifies s
  unfolding new_pki_signer
  new_pki_signer-SignsAndVerifies private_key s h =
      elim (Result-cases (get_key_and_sign_method x private_key)) [
        | inr (e, failed) ↦ ground (arith, failed)
        | inl (none, found) ↦ ground (arith, found)
        | inl (some m, found) ↦
            let (key, half, method, pair, k, c, p) =
              get_key_and_sign_method-IsPaired private_key m found in
            let read = sound.pkix half m.public p in
            let v : SigningMethod = record { key = half; public = []; method = m.method } in
            let fits : Pair m.key half m.method = rw (k, c) pair in
            (m, v, ground (arith, found, read), ground (arith, found, read), fits, refl)
      ]

  -- If `NewPKISigner` makes a signer of a private key and `Sign` makes a signature of a message, then
  -- `Verify` of the same signer accepts the signature for that message, if the standard library is
  -- sound.
  pub verify-sign :
      (private_key message sig : Bytes) (s : PkiSigner)
      → new_pki_signer x private_key ≡ ok s
      → sign x s message ≡ ok sig
      → verify x s message sig ≡ ok tt
  unfolding sign verify
  verify-sign private_key message sig s made h =
      let (m, v, signs, verifies, pair, same) =
        new_pki_signer-SignsAndVerifies private_key s made in
      elim (Result-cases (crypto_sign x m.method message m.key)) [
        | inr (e, failed) ↦ ground (arith, signs, failed)
        | inl (raw, signed) ↦ ground (
          arith,
          signs,
          verifies,
          signed,
          same,
          sound.base64 raw,
          crypto_verify-crypto_sign m.key v.key m.method message raw pair signed,
        )
      ]
