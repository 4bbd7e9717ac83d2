-- ===== src/Bft/Tally.antt =====
-- The collectors of votes: `PrevoteTallier` and `PrecommitTallier` of
-- crates/aii-consensus-bft/src/bft.rs, one definition over a `VoteKind`. A method returns the
-- tallier that it leaves and its result.
pub mod Invariant
pub mod Quorum
pub mod Certify
use Prim.Native.Nat.{bit_or}
use aii.Base.{
  ℕ, ◌^◌, Option, none, some, List, [], ◌∷◌, ◌++◌, Result, ok, err, panic, ltb, leb, ◌!=◌,
  if◌then◌else◌, get_elem?, contains, saturating_add, u64_mod,
}
use aii.Crypto.{Crypto, verify_signature, aggregate_signatures}
use aii.Bft.Error.{
  BftError, wrong_block_hash, wrong_height, wrong_round, validator_index_out_of_bounds,
  duplicate_vote, invalid_bls_signature,
}
use aii.Bft.Validators.{Validator, ValidatorSet, size, quorum_threshold}
use aii.Bft.Votes.{VoteKind, Vote, prevote, precommit, message}
use aii.Bft.Certificate.{Certificate}

pub data TallyState : Type 0 where
  accepted reached_quorum : TallyState

-- `received` is a `BTreeSet`: the list of its members.
pub record Tallier (kind : VoteKind) : Type 0 where
  pub block_hash : ℕ
  pub height : ℕ
  pub round : ℕ
  pub vs : ValidatorSet
  pub received : List ℕ
  pub sigs : List ℕ
  pub pubkeys : List ℕ
  pub signer_bitmap : ℕ
  pub stake_collected : ℕ

abbrev pub PrevoteTallier : Type 0
PrevoteTallier = Tallier prevote

abbrev pub PrecommitTallier : Type 0
PrecommitTallier = Tallier precommit

-- `PrevoteTallier::new`, `PrecommitTallier::new`.
unfoldable pub new_tallier : (kind : VoteKind) → ℕ → ℕ → ℕ → ValidatorSet → Tallier kind
new_tallier kind block_hash height round vs = record {
  block_hash = block_hash;
  height = height;
  round = round;
  vs = vs;
  received = [];
  sigs = [];
  pubkeys = [];
  signer_bitmap = 0;
  stake_collected = 0;
}

module _ (c : Crypto) {kind : VoteKind} where
  -- The validations of `submit`, the first that fails first, and the validator that voted.
  unfoldable pub check_vote : Tallier kind → Vote kind → Result BftError Validator
  check_vote t vote =
      if vote.block_hash != t.block_hash
      then err wrong_block_hash
      else if vote.height != t.height
      then err wrong_height
      else if vote.round != t.round
      then err wrong_round
      else if leb (size t.vs) vote.validator_index
      then err (validator_index_out_of_bounds vote.validator_index (size t.vs))
      else if contains vote.validator_index t.received
      then err (duplicate_vote vote.validator_index)
      else elim (get_elem? t.vs.validators vote.validator_index) [
        | none ↦ panic
        | some v ↦
            elim (verify_signature c vote.bls_sig (message c kind t.block_hash t.height t.round)
              v.bls_pubkey) [ ok _ ↦ ok v | err _ ↦ err invalid_bls_signature | panic ↦ panic ]
      ]

  -- What `submit` records of a vote that is valid.
  unfoldable pub record_vote : Tallier kind → Vote kind → Validator → Tallier kind
  record_vote t vote v = record t {
    received = vote.validator_index ∷ t.received;
    sigs = t.sigs ++ vote.bls_sig ∷ [];
    pubkeys = t.pubkeys ++ v.bls_pubkey ∷ [];
    signer_bitmap = bit_or t.signer_bitmap (2 ^ vote.validator_index);
    stake_collected = saturating_add u64_mod t.stake_collected v.stake;
  }

  -- `PrevoteTallier::submit` and `PrecommitTallier::submit`.
  unfoldable pub submit : Tallier kind → Vote kind → Tallier kind × Result BftError TallyState
  submit t vote = elim (check_vote t vote) [
    | ok v ↦
        let t' = record_vote t vote v in
        (
          t',
          ok (if leb (quorum_threshold t'.vs) t'.stake_collected then reached_quorum else accepted),
        )
    | err e ↦ (t, err e)
    | panic ↦ (t, panic)
  ]

  -- `PrevoteTallier::try_form_polc` and `PrecommitTallier::try_finalize`.
  unfoldable pub try_certify : Tallier kind → Option (Certificate kind)
  try_certify t =
      if ltb t.stake_collected (quorum_threshold t.vs)
      then none
      else elim (aggregate_signatures c t.sigs) [
        | ok a ↦ some (record {
          block_hash = t.block_hash;
          height = t.height;
          round = t.round;
          signer_bitmap = t.signer_bitmap;
          aggregated_sig = a;
        })
        | err _ ↦ none
        | panic ↦ none
      ]
