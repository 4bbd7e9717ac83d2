-- ===== src/Bft/Slashing/Soundness.antt =====
-- Evidence: what `verify` accepts, and that what the detector reports is accepted.
use aii.Base.{
  ◌≡◌, ◌≢◌, ap, ◌∙◌, ◌↔◌, some, true, inl, inr, List, ok, arith, get_elem?, Option-cases,
}
use aii.Crypto.{Crypto, verify_signature}
use aii.Bft.Validators.{Validator, ValidatorSet}
use aii.Bft.Votes.{VoteKind, Vote, message}
use aii.Bft.Slashing.{
  key, key_eq, seen_get, record_vote, Conflict, check_signature, verify_conflict,
}
use aii.Bft.Slashing.Detection.{seen_get-key}

module _ (c : Crypto) {kind : VoteKind} where
  -- A vote that is signed by the validator of its index.
  abbrev pub IsSigned : Vote kind → Validator → Type 0
  IsSigned v w =
      c.bls_verify v.bls_sig (message c kind v.block_hash v.height v.round) w.bls_pubkey ≡ true

  -- One validator of the set has signed two blocks at one height and round.
  pub record IsSlashable (e : Conflict kind) (vs : ValidatorSet) : Type 0 where
    pub culprit : Validator
    pub member : get_elem? vs.validators e.first.validator_index ≡ some culprit
    pub same_key : key_eq (key e.first) (key e.second) ≡ true
    pub two_blocks : e.first.block_hash ≢ e.second.block_hash
    pub signed_first : IsSigned e.first culprit
    pub signed_second : IsSigned e.second culprit

  -- `verify` accepts exactly the evidence of two votes of one validator of the set, at one height
  -- and round and for two blocks, both of which that validator signed.
  pub verify_conflict_iff :
      (e : Conflict kind) (vs : ValidatorSet) → (verify_conflict c e vs ≡ ok tt) ↔ IsSlashable e vs
  unfolding verify_conflict check_signature verify_signature
  verify_conflict_iff e vs = (
    λ h. elim (Option-cases (get_elem? vs.validators e.first.validator_index)) [
      | inl missing ↦ absurd (ground (arith, missing))
      | inr (v, found) ↦ record {
        culprit = v;
        member = found;
        same_key = ground (arith, found);
        two_blocks = ground (arith, found);
        signed_first = ground (arith, found);
        signed_second = ground (arith, found);
      }
    ],
    λ s. ground (arith, s.member, s.same_key, s.two_blocks, s.signed_first, s.signed_second),
  )

  -- If the vote recorded under the key of a vote is for another block, and both are signed by the
  -- validator of their index, the vote is reported with the recorded one, and `verify` accepts the
  -- report.
  record_vote-verifies :
      (seen : List (Vote kind)) (vote p : Vote kind) (vs : ValidatorSet) (v : Validator)
      → seen_get (key vote) seen ≡ some p
      → p.block_hash ≢ vote.block_hash
      → get_elem? vs.validators vote.validator_index ≡ some v
      → IsSigned vote v
      → IsSigned p v
      → let e : Conflict kind = record { first = p; second = vote } in
        ((record_vote seen vote).1 ≡ some e) × (verify_conflict c e vs ≡ ok tt)
  unfolding record_vote
  record_vote-verifies seen vote p vs v prior other member signed signed_p =
      let same = seen_get-key seen (key vote) p prior in
      let index : p.validator_index ≡ vote.validator_index = ground arith in
      let e : Conflict kind = record { first = p; second = vote } in
      (
        ground (arith, prior),
        (verify_conflict_iff e vs).1 (record {
          culprit = v;
          member = ap (get_elem? vs.validators) index ∙ member;
          same_key = same;
          two_blocks = other;
          signed_first = signed_p;
          signed_second = signed;
        }),
      )
