-- ===== src/Bft/Wire/Codec.antt =====
-- Encoding and decoding of wire messages are inverse.
pub mod Total
pub mod Reading
pub mod Sound
pub mod Inverse
pub mod Passing
pub mod Refusals
pub mod Panics
use aii.Base.{ℕ, ◌^◌, ◌<◌, ◌≤◌, ◌≡◌, List, [], ◌∷◌, Bool, true, All, length}
use aii.Bft.Votes.{VoteKind, Vote, prevote, precommit, LeaderProof}
use aii.Bft.Certificate.{Certificate}
use aii.Bft.Wire.{
  BftMessage, proposal, prevote_message, precommit_message, block_request, block_response,
  max_proposal_body_len, max_block_response_len,
}
use aii.Bft.Wire.Layout.{FieldsFit}

abbrev pub IsByte : ℕ → Type 0
IsByte b = b < 256

-- The fields of the messages, in the order of the table at the head of the source.
abbrev pub proposal_fields : ℕ → ℕ → ℕ → LeaderProof → ℕ → ℕ → List (ℕ × ℕ)
proposal_fields height round block_hash leader_proof coinbase body_len =
    (8, height)
    ∷ (4, round)
    ∷ (32, block_hash)
    ∷ (96, leader_proof.vrf_proof)
    ∷ (32, leader_proof.vrf_output)
    ∷ (20, coinbase)
    ∷ (4, body_len)
    ∷ []

abbrev pub vote_fields : {kind : VoteKind} → Vote kind → List (ℕ × ℕ)
vote_fields v =
    (32, v.block_hash)
    ∷ (8, v.height)
    ∷ (4, v.round)
    ∷ (4, v.validator_index)
    ∷ (96, v.bls_sig)
    ∷ []

abbrev pub cert_fields : Certificate precommit → List (ℕ × ℕ)
cert_fields cert =
    (32, cert.block_hash)
    ∷ (8, cert.height)
    ∷ (4, cert.round)
    ∷ (16, cert.signer_bitmap)
    ∷ (96, cert.aggregated_sig)
    ∷ []

module _ (is_point : ℕ → Bool) where
  abbrev pub VoteFits : {kind : VoteKind} → Vote kind → Type 0
  VoteFits v = FieldsFit (vote_fields v) × (is_point v.bls_sig ≡ true)

  abbrev pub CertFits : Certificate precommit → Type 0
  CertFits cert = FieldsFit (cert_fields cert) × (is_point cert.aggregated_sig ≡ true)

  -- The fields fit in their widths, the signatures are points, and what has a cap is within it.
  abbrev pub Fits : BftMessage → Type 0
  Fits (proposal height round block_hash leader_proof coinbase body) =
      FieldsFit (proposal_fields height round block_hash leader_proof coinbase (length body))
      × All IsByte body
      × (length body ≤ max_proposal_body_len)
  Fits (prevote_message v) = VoteFits v
  Fits (precommit_message v) = VoteFits v
  Fits (block_request height) = height < 256 ^ 8
  Fits (block_response block_bytes cert) =
      CertFits cert × All IsByte block_bytes × (length block_bytes ≤ max_block_response_len)
