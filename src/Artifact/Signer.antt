-- ===== src/Artifact/Signer.antt =====
-- artifact/signer.go: keys, and the signatures that they make and verify. The algorithms and the
-- formats of keys are the standard library's, and a parameter.
pub mod Marshal
pub mod RoundTrip
use mender_artifact.Prelude.{
  ℕ, ◌+◌, ◌-◌, ◌*◌, Bool, true, false, not, ◌&&◌, ◌||◌, List, [], ◌∷◌, ◌++◌, Option, none, some,
  Bytes, length, take, drop, replicate, ltb, ◌==◌, if◌then◌else◌,
}
use mender_artifact.Prelude.BigInt.{big_bytes, set_bytes}
use mender_artifact.Prelude.Result.{Result, ok, err, ◌>>=◌, ◌>>◌, guard, or_err}

pub data SignerError : Type 0 where
  panic : SignerError
  missing_key no_public_key no_pem unsupported_key : SignerError
  invalid_private_key invalid_public_key : SignerError
  not_signed invalid_curve_size invalid_size_of_keys : SignerError
  invalid_key_size : ℕ → SignerError
  asn1_broken base64_broken : SignerError
  only_verification no_verify_method verification_failed : SignerError

-- What a PEM block can hold, of those keys that are told apart. A key is named by a number.
pub data Key : Type 0 where
  rsa_private rsa_public ecdsa_private ecdsa_public other_key : ℕ → Key

-- The two implementations of `Crypto`.
pub data Crypto : Type 0 where
  rsa ecdsa : Crypto

-- `SigningMethod`.
pub record SigningMethod : Type 0 where
  pub key : Key
  pub public : Bytes
  pub method : Crypto

-- `PKISigner`: the pointers may be nil.
pub record PkiSigner : Type 0 where
  pub sign_method : Option SigningMethod
  pub verify_method : Option SigningMethod

-- The standard library: hashing, both algorithms, DER and PEM, base64, and a first value of ASN.1
-- with what stands behind it. The private and the public half of a pair have one number.
pub record Library : Type 0 where
  pub sha256 : Bytes → Bytes
  pub sign_pkcs1 : ℕ → Bytes → Option Bytes
  pub verify_pkcs1 : ℕ → Bytes → Bytes → Bool
  pub sign_ecdsa : ℕ → Bytes → Option (ℕ × ℕ)
  pub verify_ecdsa : ℕ → Bytes → ℕ → ℕ → Bool
  pub curve_bits : ℕ → ℕ
  pub pem_decode : Bytes → Option Bytes
  pub parse_pkcs1 : Bytes → Option ℕ
  pub parse_ec : Bytes → Option ℕ
  pub parse_pkcs8 : Bytes → Option Key
  pub marshal_pkix : Key → Option Bytes
  pub parse_pkix : Bytes → Option Key
  pub encode : Bytes → Bytes
  pub decode : Bytes → Option Bytes
  pub asn1_value : Bytes → Option (Bytes × Bytes)

abbrev pub Signing {ℓ} : Type ℓ → Type ℓ
Signing A = Result SignerError A

-- `ecdsa256keySize` and `ecdsa256Asn1SizeBytes`.
abbrev pub key_size : ℕ
key_size = 32

abbrev pub asn1_size : ℕ
asn1_size = 72

-- `copy(dst[offset:], src)`.
copy_at : ℕ → Bytes → Bytes → Bytes
copy_at offset src dst =
    take offset dst ++ take (length dst - offset) src ++ drop (offset + length src) dst

-- `MarshalECDSASignature`.
unfoldable pub marshal_ecdsa_signature : ℕ → ℕ → Signing Bytes
unfolding copy_at
marshal_ecdsa_signature r s =
    let r_size = length (big_bytes r) in
    let s_size = length (big_bytes s) in
    if ltb key_size r_size || ltb key_size s_size
    then err invalid_size_of_keys
    else ok (
        copy_at (key_size + (key_size - s_size)) (big_bytes s)
          (copy_at (key_size - r_size) (big_bytes r) (replicate (2 * key_size) 0)))

-- `UnmarshalECDSASignatureMenderArtifact`.
unfoldable pub unmarshal_mender_artifact : Bytes → ℕ × ℕ
unmarshal_mender_artifact sig = (set_bytes (take key_size sig), set_bytes (drop key_size sig))

module _ (x : Library) where
  -- The second value of a pair; a missing one leaves the pointer nil.
  asn1_second : Bytes → Signing (Option ℕ)
  asn1_second [] = ok none
  asn1_second (c ∷ s) = do
    (v, rest) ← or_err (x.asn1_value (c ∷ s)) asn1_broken
    ok (some (set_bytes v))

  asn1_pair : Bytes → Signing (Option ℕ × Option ℕ)
  unfolding asn1_second
  asn1_pair [] = ok (none, none)
  asn1_pair (c ∷ s) = do
    (v, rest) ← or_err (x.asn1_value (c ∷ s)) asn1_broken
    second ← asn1_second rest
    ok (some (set_bytes v), second)

  -- `UnmarshalECDSASignatureASN1`; `none` is a nil pointer.
  unfoldable pub unmarshal_asn1 : Bytes → Signing (Option ℕ × Option ℕ)
  unfolding asn1_pair
  unmarshal_asn1 sig = do (value, rest) ← or_err (x.asn1_value sig) asn1_broken; asn1_pair value

  -- `UnmarshalECDSASignature`.
  unfoldable pub unmarshal_ecdsa_signature : Bytes → Signing (Option ℕ × Option ℕ)
  unfolding unmarshal_mender_artifact unmarshal_asn1
  unmarshal_ecdsa_signature sig =
      if length sig == 2 * key_size
      then (let (r, s) = unmarshal_mender_artifact sig in ok (some r, some s))
      else if length sig == asn1_size || length sig == asn1_size - 1
      then unmarshal_asn1 sig
      else err (invalid_key_size (length sig))

  -- `RSA.Sign` and `RSA.Verify`.
  rsa_sign : Bytes → Key → Signing Bytes
  rsa_sign message (rsa_private k) = or_err (x.sign_pkcs1 k (x.sha256 message)) not_signed
  rsa_sign message _ = err invalid_private_key

  rsa_verify : Bytes → Bytes → Key → Signing (Unit {0})
  rsa_verify message sig (rsa_public k) =
      guard (x.verify_pkcs1 k (x.sha256 message) sig) verification_failed
  rsa_verify message sig _ = err invalid_public_key

  -- `ECDSA256.Sign` and `ECDSA256.Verify`, which follows both pointers.
  ecdsa_sign : Bytes → Key → Signing Bytes
  unfolding marshal_ecdsa_signature
  ecdsa_sign message (ecdsa_private k) = do
    (r, s) ← or_err (x.sign_ecdsa k (x.sha256 message)) not_signed
    guard (x.curve_bits k == 256) invalid_curve_size
    marshal_ecdsa_signature r s
  ecdsa_sign message _ = err invalid_private_key

  verify_pair : ℕ → Bytes → Option ℕ × Option ℕ → Signing (Unit {0})
  verify_pair k message (some r, some s) =
      guard (x.verify_ecdsa k (x.sha256 message) r s) verification_failed
  verify_pair k message _ = err panic

  ecdsa_verify : Bytes → Bytes → Key → Signing (Unit {0})
  unfolding unmarshal_ecdsa_signature verify_pair
  ecdsa_verify message sig (ecdsa_public k) =
      unmarshal_ecdsa_signature sig >>= λ pair. verify_pair k message pair
  ecdsa_verify message sig _ = err invalid_public_key

  unfoldable pub crypto_sign : Crypto → Bytes → Key → Signing Bytes
  unfolding rsa_sign ecdsa_sign
  crypto_sign rsa message key = rsa_sign message key
  crypto_sign ecdsa message key = ecdsa_sign message key

  unfoldable pub crypto_verify : Crypto → Bytes → Bytes → Key → Signing (Unit {0})
  unfolding rsa_verify ecdsa_verify
  crypto_verify rsa message sig key = rsa_verify message sig key
  crypto_verify ecdsa message sig key = ecdsa_verify message sig key

  -- The type switch of `GetKeyAndVerifyMethod`.
  method_of_public : Key → Signing SigningMethod
  method_of_public (rsa_public k) = ok (record { key = rsa_public k; public = []; method = rsa })
  method_of_public (ecdsa_public k) =
      ok (record { key = ecdsa_public k; public = []; method = ecdsa })
  method_of_public _ = err unsupported_key

  -- `GetKeyAndVerifyMethod`.
  unfoldable pub get_key_and_verify_method : Bytes → Signing SigningMethod
  unfolding method_of_public
  get_key_and_verify_method pem = do
    block ← or_err (x.pem_decode pem) no_pem
    key ← or_err (x.parse_pkix block) no_public_key
    method_of_public key

  -- A private key with its public one encoded. If that fails, `errors.Wrap` of an error that is nil
  -- gives nil, and so is the method.
  with_public : Key → Key → Crypto → Option SigningMethod
  with_public key half method = elim (x.marshal_pkix half) [
    | none ↦ none
    | some p ↦ some (record { key = key; public = p; method = method })
  ]

  method_of_pkcs8 : Option Key → Signing (Option SigningMethod)
  unfolding with_public
  method_of_pkcs8 (some (ecdsa_private k)) =
      ok (with_public (ecdsa_private k) (ecdsa_public k) ecdsa)
  method_of_pkcs8 (some (rsa_private k)) = ok (with_public (rsa_private k) (rsa_public k) rsa)
  method_of_pkcs8 _ = err unsupported_key

  -- The three formats of a private key, one after the other.
  method_of_block : Bytes → Signing (Option SigningMethod)
  unfolding with_public method_of_pkcs8
  method_of_block block = elim (x.parse_pkcs1 block) [
    | some k ↦ ok (with_public (rsa_private k) (rsa_public k) rsa)
    | none ↦ elim (x.parse_ec block) [
      | some k ↦ ok (with_public (ecdsa_private k) (ecdsa_public k) ecdsa)
      | none ↦ method_of_pkcs8 (x.parse_pkcs8 block)
    ]
  ]

  -- `GetKeyAndSignMethod`; `none` is a nil method without an error.
  unfoldable pub get_key_and_sign_method : Bytes → Signing (Option SigningMethod)
  unfolding method_of_block
  get_key_and_sign_method pem = do block ← or_err (x.pem_decode pem) no_pem; method_of_block block

  -- `GetPublic`, which follows the method.
  unfoldable pub get_public : Bytes → Signing Bytes
  get_public private = do sm ← get_key_and_sign_method private; m ← or_err sm panic; ok m.public

  -- `NewPKISigner`, which follows the method.
  unfoldable pub new_pki_signer : Bytes → Signing PkiSigner
  unfolding get_key_and_sign_method
  new_pki_signer private_key = do
    guard (not (length private_key == 0)) missing_key
    sm ← get_key_and_sign_method private_key
    m ← or_err sm panic
    half ← or_err (x.parse_pkix m.public) no_public_key
    ok (record {
      sign_method = some m;
      verify_method = some (record { key = half; public = []; method = m.method });
    })

  -- `NewPKIVerifier`.
  unfoldable pub new_pki_verifier : Bytes → Signing PkiSigner
  unfolding get_key_and_verify_method
  new_pki_verifier public_key = do
    guard (not (length public_key == 0)) missing_key
    m ← get_key_and_verify_method public_key
    ok (record { sign_method = none; verify_method = some m })

  -- `PKISigner.Sign`.
  unfoldable pub sign : PkiSigner → Bytes → Signing Bytes
  unfolding crypto_sign
  sign s message = do
    m ← or_err s.sign_method only_verification
    sig ← crypto_sign m.method message m.key
    ok (x.encode sig)

  -- `PKISigner.Verify`. A method that is made has its `Crypto`.
  unfoldable pub verify : PkiSigner → Bytes → Bytes → Signing (Unit {0})
  unfolding crypto_verify
  verify s message sig = do
    dec ← or_err (x.decode sig) base64_broken
    m ← or_err s.verify_method no_verify_method
    crypto_verify m.method message dec m.key
