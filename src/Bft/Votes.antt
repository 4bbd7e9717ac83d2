-- ===== src/Bft/Votes.antt =====
-- Votes and leader proofs: `PrevoteVote`, `PrecommitVote`, `LeaderProof` of
-- crates/aii-consensus-bft/src/bft.rs. The two kinds of vote, of tallier and of certificate differ
-- in the type alone and in the domain of the digest, so each is one definition over a `VoteKind`.
pub mod Digest
pub mod Leader
use aii.Base.{
  ℕ, ◌≡◌, Option, none, some, List, [], ◌∷◌, ◌++◌, Result, ok, err, ◌!=◌, if◌then◌else◌,
  to_be_bytes,
}
use aii.Crypto.{Crypto}
use aii.Bft.Error.{BftError, invalid_vrf_proof}
use aii.Bft.Validators.{leader_input}

pub data VoteKind : Type 0 where
  prevote precommit : VoteKind

pub record Vote (kind : VoteKind) : Type 0 where
  pub block_hash : ℕ
  pub height : ℕ
  pub round : ℕ
  pub validator_index : ℕ
  pub bls_sig : ℕ

abbrev pub PrevoteVote : Type 0
PrevoteVote = Vote prevote

abbrev pub PrecommitVote : Type 0
PrecommitVote = Vote precommit

-- `PREVOTE_DOMAIN` and `PRECOMMIT_DOMAIN`: "AII-PREVOTE" and "AII-PRECOMMIT".
unfoldable pub domain : VoteKind → List ℕ
domain prevote = b'A' ∷ b'I' ∷ b'I' ∷ b'-' ∷ b'P' ∷ b'R' ∷ b'E' ∷ b'V' ∷ b'O' ∷ b'T' ∷ b'E' ∷ []
domain precommit =
    b'A' ∷ b'I' ∷ b'I' ∷ b'-' ∷ b'P' ∷ b'R' ∷ b'E' ∷ b'C' ∷ b'O' ∷ b'M' ∷ b'M' ∷ b'I' ∷ b'T' ∷ []

-- The bytes under the hash of `digest`.
unfoldable pub digest_input : VoteKind → ℕ → ℕ → ℕ → List ℕ
digest_input kind block_hash height round =
    domain kind ++ (to_be_bytes 32 block_hash ++ (to_be_bytes 8 height ++ to_be_bytes 4 round))

module _ (c : Crypto) where
  -- `PrevoteVote::digest` and `PrecommitVote::digest`.
  unfoldable pub digest : VoteKind → ℕ → ℕ → ℕ → ℕ
  digest kind block_hash height round = c.keccak256 (digest_input kind block_hash height round)

  -- `d.as_bytes()`: what is signed.
  abbrev pub message : VoteKind → ℕ → ℕ → ℕ → List ℕ
  message kind block_hash height round = to_be_bytes 32 (digest kind block_hash height round)

  -- `PrevoteVote::sign` and `PrecommitVote::sign`.
  unfoldable pub sign : (kind : VoteKind) → ℕ → ℕ → ℕ → ℕ → ℕ → Vote kind
  sign kind sk block_hash height round validator_index = record {
    block_hash = block_hash;
    height = height;
    round = round;
    validator_index = validator_index;
    bls_sig = c.bls_sign sk (message kind block_hash height round);
  }

pub record LeaderProof : Type 0 where
  pub vrf_proof : ℕ
  pub vrf_output : ℕ

module _ (c : Crypto) where
  -- `LeaderProof::input`, as the 32 bytes that the VRF takes.
  unfoldable pub proof_input : ℕ → ℕ → ℕ → List ℕ
  proof_input height round seed = to_be_bytes 32 (c.keccak256 (leader_input height round seed))

  -- `LeaderProof::produce`.
  unfoldable pub produce : ℕ → ℕ → ℕ → ℕ → LeaderProof
  produce sk height round seed =
      let (proof, output) = c.vrf_prove sk (proof_input height round seed) in
      record { vrf_proof = proof; vrf_output = output }

  -- `LeaderProof::verify`.
  unfoldable pub verify_leader : LeaderProof → ℕ → ℕ → ℕ → ℕ → Result BftError (Unit {0})
  verify_leader p pk height round seed =
      elim (c.vrf_verify pk (proof_input height round seed) p.vrf_proof) [
        | none ↦ err invalid_vrf_proof
        | some recovered ↦ if recovered != p.vrf_output then err invalid_vrf_proof else ok tt
      ]
