-- ===== src/Bft/Certificate/Overlap.antt =====
-- What `verify` accepts, and why two certificates over one validator set share signers.
use aii.Base.{
  ℕ, suc, ◌+◌, ◌*◌, ◌^◌, ◌≤◌, ◌<◌, ◌≡◌, ◌↔◌, List, [], ◌∷◌, ◌&&◌, ok, arith, if◌then◌else◌, u64_mod,
}
use aii.Base.Bits.{bit, members_iff}
use aii.Crypto.{Crypto, fast_aggregate_verify}
use aii.Bft.Validators.{Validator, ValidatorSet, IsValid, size, stakes, quorum_threshold}
use aii.Bft.Validators.Quorum.{quorum_threshold_bounds}
use aii.Bft.Votes.{VoteKind, message}
use aii.Bft.Certificate.{Certificate, verify, gather}
use aii.Bft.Certificate.Signers.{signer_stake, signer_keys, gather_lem}

-- No bit of the bitmap lies outside the set, the signers hold a quorum, and the aggregate is theirs.
pub record Certifies (c : Crypto) {kind : VoteKind} (cert : Certificate kind) (vs : ValidatorSet)
    : Type 0 where
  pub members : cert.signer_bitmap < 2 ^ size vs
  pub quorum : quorum_threshold vs ≤ signer_stake cert.signer_bitmap 0 vs.validators
  pub aggregated :
      fast_aggregate_verify c cert.aggregated_sig
        (message c kind cert.block_hash cert.height cert.round)
        (signer_keys cert.signer_bitmap 0 vs.validators)
      ≡ ok tt

module _ (c : Crypto) {kind : VoteKind} (cert : Certificate kind) (vs : ValidatorSet) where
  gathered :
      IsValid vs
      → gather cert.signer_bitmap 0 vs.validators [] 0 ≡ (
        signer_keys cert.signer_bitmap 0 vs.validators,
        signer_stake cert.signer_bitmap 0 vs.validators,
      )
  gathered valid =
      ground (arith, valid.summed, valid.fits, gather_lem cert.signer_bitmap 0 vs.validators [] 0)

  -- On a valid set, `verify` accepts a certificate with a bitmap of 128 bits exactly if its signers
  -- are members of the set, hold a quorum, and the aggregate verifies under their keys.
  pub verify_iff :
      IsValid vs → cert.signer_bitmap < 2 ^ 128 → (verify c cert vs ≡ ok tt) ↔ Certifies c cert vs
  unfolding verify
  verify_iff valid fits =
      let all_in = members_iff 128 cert.signer_bitmap (size vs) fits in
      let sum = gathered valid in
      (
        λ h. record {
          members = all_in.0 (ground arith);
          quorum = ground (arith, sum);
          aggregated = ground (arith, sum);
        },
        λ h. ground (arith, sum, all_in.1 h.members, h.quorum, h.aggregated),
      )

-- The stake of the validators in both bitmaps.
abbrev pub shared_stake : ℕ → ℕ → ℕ → List Validator → ℕ
shared_stake a b i [] = 0
shared_stake a b i (v ∷ vs) =
    (if bit a i && bit b i then v.stake else 0) + shared_stake a b (suc i) vs

overlap :
    (a b i : ℕ) (vs : List Validator)
    → signer_stake a i vs + signer_stake b i vs ≤ shared_stake a b i vs + stakes vs
overlap a b i [] = omega arith
overlap a b i (v ∷ vs) = ground (arith, overlap a b (suc i) vs)

-- Two certificates that verify over one valid set, of either kind and for any blocks, have signers in
-- common that hold more than a third of the stake, if twice the total stake fits 64 bits and the
-- bitmaps 128.
pub verify-shares :
    (c : Crypto) {k l : VoteKind} (p : Certificate k) (q : Certificate l) (vs : ValidatorSet)
    → IsValid vs
    → vs.total_stake * 2 < u64_mod
    → p.signer_bitmap < 2 ^ 128
    → q.signer_bitmap < 2 ^ 128
    → verify c p vs ≡ ok tt
    → verify c q vs ≡ ok tt
    → vs.total_stake < 3 * shared_stake p.signer_bitmap q.signer_bitmap 0 vs.validators
verify-shares c p q vs valid small fits_p fits_q ok_p ok_q =
    let certified_p = (verify_iff c p vs valid fits_p).0 ok_p in
    let certified_q = (verify_iff c q vs valid fits_q).0 ok_q in
    omega (
      arith,
      overlap p.signer_bitmap q.signer_bitmap 0 vs.validators,
      quorum_threshold_bounds vs,
      valid.summed,
      valid.positive,
      certified_p.quorum,
      certified_q.quorum,
    )
