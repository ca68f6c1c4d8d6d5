-- ===== src/Tests/Signing.antt =====
-- The theorems on signatures and on signing archives, on a sample library and the sample archives.
use mender_artifact.Prelude.{
  zero, suc, ◌^◌, ◌≤◌, ◌&&◌, [], ◌∷◌, ◌++◌, Option, none, some, ◌≡◌, ◌↔◌, ◌⊎◌, refl, arith, Bytes,
  codes, eqb, eqb_iff, length, replicate, ◌==◌,
}
use mender_artifact.Prelude.BigInt.{big_bytes}
use mender_artifact.Prelude.Result.{ok, err}
use mender_artifact.Artifact.Signer.{
  Library, Key, rsa_private, rsa_public, ecdsa_private, ecdsa_public, other_key, ecdsa, PkiSigner,
  invalid_size_of_keys, marshal_ecdsa_signature, unmarshal_ecdsa_signature, new_pki_signer,
  get_key_and_sign_method, crypto_sign,
}
use mender_artifact.Artifact.Signer.{sign, verify}
use mender_artifact.Artifact.Signer.Marshal.{
  marshal_ecdsa_signature-err_iff, unmarshal_ecdsa_signature-marshal_ecdsa_signature,
}
use mender_artifact.Artifact.Signer.RoundTrip.{LibraryIsSound, verify-sign}

-- A library whose signature by ECDSA is the key's number and five.
abbrev encode_key : Key → Option Bytes
encode_key (rsa_public k) = some (0 ∷ k ∷ [])
encode_key (ecdsa_public k) = some (1 ∷ k ∷ [])
encode_key _ = none

abbrev decode_key : Bytes → Option Key
decode_key (zero ∷ k ∷ []) = some (rsa_public k)
decode_key (suc n ∷ k ∷ []) = some (ecdsa_public k)
decode_key _ = none

abbrev library : Library
library = record {
  sha256 = λ b. b;
  sign_pkcs1 = λ k h. some h;
  verify_pkcs1 = λ k h sig. eqb h sig;
  sign_ecdsa = λ k h. some (k, 5);
  verify_ecdsa = λ k h r s. r == k && s == 5;
  curve_bits = λ k. 256;
  pem_decode = λ b. some b;
  parse_pkcs1 = λ b. none;
  parse_ec = λ b. some 7;
  parse_pkcs8 = λ b. none;
  marshal_pkix = encode_key;
  parse_pkix = decode_key;
  encode = λ b. b;
  decode = λ b. some b;
  asn1_value = λ b. none;
}

decode_key-encode_key : (key : Key) (b : Bytes) → encode_key key ≡ some b → decode_key b ≡ some key
decode_key-encode_key (rsa_public k) b h = ground arith
decode_key-encode_key (ecdsa_public k) b h = ground arith
decode_key-encode_key (rsa_private k) b h = cc
decode_key-encode_key (ecdsa_private k) b h = cc
decode_key-encode_key (other_key k) b h = cc

library-IsSound : LibraryIsSound library
library-IsSound = record {
  pkcs1 = λ k h sig e. ground (arith, eqb_iff h sig, e);
  ecdsa_pair = λ k h r s e. ground (arith, e);
  pkix = decode_key-encode_key;
  base64 = λ b. refl;
}

abbrev signer : PkiSigner
signer = record {
  sign_method = some (record { key = ecdsa_private 7; public = 1 ∷ 7 ∷ []; method = ecdsa });
  verify_method = some (record { key = ecdsa_public 7; public = []; method = ecdsa });
}

abbrev signature : Bytes
signature = replicate 31 0 ++ 7 ∷ (replicate 31 0 ++ 5 ∷ [])

made : new_pki_signer library (codes "key") ≡ ok signer
unfolding new_pki_signer get_key_and_sign_method
made = refl

marshalled : marshal_ecdsa_signature 7 5 ≡ ok signature
unfolding marshal_ecdsa_signature big_bytes
marshalled = refl

signed : sign library signer (codes "text") ≡ ok signature
unfolding sign crypto_sign marshal_ecdsa_signature big_bytes
signed = refl

verify-sign_example : verify library signer (codes "text") signature ≡ ok tt
verify-sign_example =
    verify-sign library library-IsSound (codes "key") (codes "text") signature signer made signed

marshal_ecdsa_signature-err_iff_example :
    (marshal_ecdsa_signature 7 (2 ^ 256) ≡ err invalid_size_of_keys)
    ↔ ((2 ^ 256 ≤ 7) ⊎ (2 ^ 256 ≤ 2 ^ 256))
marshal_ecdsa_signature-err_iff_example = marshal_ecdsa_signature-err_iff 7 (2 ^ 256)

unmarshal_ecdsa_signature-marshal_ecdsa_signature_example :
    (length signature ≡ 64) × (unmarshal_ecdsa_signature library signature ≡ ok (some 7, some 5))
unmarshal_ecdsa_signature-marshal_ecdsa_signature_example =
    unmarshal_ecdsa_signature-marshal_ecdsa_signature library 7 5 signature marshalled
