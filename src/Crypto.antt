-- ===== src/Crypto.antt =====
-- The cryptographic primitives as an interface. crates/aii-crypto wraps third-party code
-- (sha3, blst, schnorrkel), whose functions are the fields of `Crypto`; the checks that the
-- wrappers make themselves are definitions (crates/aii-crypto/src/bls.rs). A 32-byte hash, a
-- 48-byte public key, a 96-byte signature and a VRF proof stand as the numbers that their bytes
-- spell, the most significant first.
pub mod Toy
use mathlib.Core.List.{Perm}
use aii.Base.{
  ℕ, ◌≡◌, ◌≢◌, Bool, true, Option, none, some, List, [], ◌∷◌, Result, ok, err, if◌then◌else◌,
}

pub record Crypto : Type 0 where
  -- Keccak-256 of a byte string.
  pub keccak256 : List ℕ → ℕ
  -- The public key of a BLS secret key, and a signature on a byte string.
  pub bls_public_key : ℕ → ℕ
  pub bls_sign : ℕ → List ℕ → ℕ
  -- Is the signature on the byte string by the public key?
  pub bls_verify : ℕ → List ℕ → ℕ → Bool
  -- The sum of signatures on one message; `none` if a point is rejected.
  pub blst_aggregate : List ℕ → Option ℕ
  -- Is the aggregate on the byte string by all of the public keys?
  pub blst_fast_aggregate_verify : ℕ → List ℕ → List ℕ → Bool
  -- The VRF proof and output of a secret key, and the output that a proof yields, if it is valid.
  pub vrf_prove : ℕ → List ℕ → ℕ × ℕ
  pub vrf_verify : ℕ → List ℕ → ℕ → Option ℕ

pub data CryptoError : Type 0 where
  invalid_encoding bad_signature : CryptoError

module _ (c : Crypto) where
  -- `Signature::verify`.
  unfoldable pub verify_signature : ℕ → List ℕ → ℕ → Result CryptoError (Unit {0})
  verify_signature sig msg pk = if c.bls_verify sig msg pk then ok tt else err bad_signature

  -- `aggregate_signatures`.
  unfoldable pub aggregate_signatures : List ℕ → Result CryptoError ℕ
  aggregate_signatures [] = err invalid_encoding
  aggregate_signatures (s ∷ sigs) = elim (c.blst_aggregate (s ∷ sigs)) [
    | some a ↦ ok a
    | none ↦ err bad_signature
  ]

  -- `fast_aggregate_verify`.
  unfoldable pub fast_aggregate_verify : ℕ → List ℕ → List ℕ → Result CryptoError (Unit {0})
  fast_aggregate_verify sig msg [] = err invalid_encoding
  fast_aggregate_verify sig msg (pk ∷ pks) =
      if c.blst_fast_aggregate_verify sig msg (pk ∷ pks) then ok tt else err bad_signature

  -- Each signature of a list is by the key at its place in another.
  abbrev pub SignedBy : List ℕ → List ℕ → List ℕ → Type 0
  SignedBy msg [] [] = Unit
  SignedBy msg (s ∷ sigs) (pk ∷ pks) = (c.bls_verify s msg pk ≡ true) × SignedBy msg sigs pks
  SignedBy msg _ _ = ⊥

  -- What blst documents: signatures on one message that verify one by one can be summed, and the sum
  -- verifies under their keys in any order.
  abbrev pub Aggregates : Type 0
  Aggregates =
      (msg sigs pks pks' : List ℕ)
      → sigs ≢ []
      → SignedBy msg sigs pks
      → Perm pks pks'
      → (a : ℕ) × (c.blst_aggregate sigs ≡ some a)
        × (c.blst_fast_aggregate_verify a msg pks' ≡ true)

  -- And that a signature by a secret key verifies under its public key.
  abbrev pub Signs : Type 0
  Signs =
      (sk : ℕ) (msg : List ℕ) → c.bls_verify (c.bls_sign sk msg) msg (c.bls_public_key sk) ≡ true

  -- What schnorrkel documents: a proof verifies under its prover's key, with the prover's output.
  abbrev pub Proves : (ℕ → ℕ) → Type 0
  Proves public_key =
      (sk : ℕ) (msg : List ℕ)
      → c.vrf_verify (public_key sk) msg (c.vrf_prove sk msg).0 ≡ some (c.vrf_prove sk msg).1
