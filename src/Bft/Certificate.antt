-- ===== src/Bft/Certificate.antt =====
-- Quorum certificates: `PolcCertificate` (of PRE-VOTES) and `PrecommitCertificate` of
-- crates/aii-consensus-bft/src/bft.rs, and their `verify`.
pub mod Signers
pub mod Overlap
use aii.Base.{
  ℕ, suc, List, [], ◌∷◌, ◌++◌, Result, ok, err, map_err, ◌>>=◌, Bool, ◌&&◌, ltb, leb, ◌!=◌,
  if◌then◌else◌, saturating_add, u64_mod,
}
use aii.Base.Bits.{bit, ilog2}
use aii.Crypto.{Crypto, fast_aggregate_verify}
use aii.Bft.Error.{BftError, validator_index_out_of_bounds, invalid_bls_signature}
use aii.Bft.Validators.{Validator, ValidatorSet, size, quorum_threshold}
use aii.Bft.Votes.{VoteKind, prevote, precommit, message}

pub record Certificate (kind : VoteKind) : Type 0 where
  pub block_hash : ℕ
  pub height : ℕ
  pub round : ℕ
  -- Of 128 bits; bit i is set if validator i contributed a vote.
  pub signer_bitmap : ℕ
  pub aggregated_sig : ℕ

abbrev pub PolcCertificate : Type 0
PolcCertificate = Certificate prevote

abbrev pub PrecommitCertificate : Type 0
PrecommitCertificate = Certificate precommit

-- The loop of `verify` from index i: the keys and the stake of the signers.
unfoldable pub gather : ℕ → ℕ → List Validator → List ℕ → ℕ → List ℕ × ℕ
gather bitmap i [] pks signer_stake = (pks, signer_stake)
gather bitmap i (v ∷ vs) pks signer_stake =
    gather bitmap (suc i) vs (if bit bitmap i then pks ++ v.bls_pubkey ∷ [] else pks)
      (if bit bitmap i then saturating_add u64_mod signer_stake v.stake else signer_stake)

-- `PolcCertificate::verify` and `PrecommitCertificate::verify`.
unfoldable pub verify :
    Crypto → {kind : VoteKind} → Certificate kind → ValidatorSet → Result BftError (Unit {0})
verify c {kind} cert vs =
    let highest = ilog2 128 cert.signer_bitmap in
    let (pks, signer_stake) = gather cert.signer_bitmap 0 vs.validators [] 0 in
    if cert.signer_bitmap != 0 && leb (size vs) highest
    then err (validator_index_out_of_bounds highest (size vs))
    else if ltb signer_stake (quorum_threshold vs)
    then err invalid_bls_signature
    else map_err (λ _. invalid_bls_signature)
        (fast_aggregate_verify c cert.aggregated_sig
          (message c kind cert.block_hash cert.height cert.round) pks)
