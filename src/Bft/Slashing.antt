-- ===== src/Bft/Slashing.antt =====
-- Equivocation: `EquivocationDetector`, `EquivocationEvidence`, `SlashingError` of
-- crates/aii-consensus-bft/src/slashing.rs. The detector keeps two maps of votes by key, with one and
-- the same method; the evidence has a case for each kind of vote, with one and the same check.
pub mod Detection
pub mod Soundness
use aii.Base.{
  ℕ, Option, none, some, List, [], ◌∷◌, Result, ok, err, panic, Bool, ◌&&◌, ◌==◌, ◌!=◌,
  if◌then◌else◌, get_elem?,
}
use aii.Crypto.{Crypto, verify_signature}
use aii.Bft.Validators.{ValidatorSet}
use aii.Bft.Votes.{VoteKind, Vote, prevote, precommit, message}

-- `VoteKey`: validator index, height, round.
pub record VoteKey : Type 0 where
  pub validator_index : ℕ
  pub height : ℕ
  pub round : ℕ

abbrev pub key : {kind : VoteKind} → Vote kind → VoteKey
key vote = record {
  validator_index = vote.validator_index;
  height = vote.height;
  round = vote.round;
}

abbrev pub key_eq : VoteKey → VoteKey → Bool
key_eq a b = a.validator_index == b.validator_index && (a.height == b.height && a.round == b.round)

module _ {kind : VoteKind} where
  -- `BTreeMap::get` on the first vote of each key.
  unfoldable pub seen_get : VoteKey → List (Vote kind) → Option (Vote kind)
  seen_get k [] = none
  seen_get k (v ∷ seen) = if key_eq (key v) k then some v else seen_get k seen

pub record Detector : Type 0 where
  pub seen_prevote : List (Vote prevote)
  pub seen_precommit : List (Vote precommit)

pub record Conflict (kind : VoteKind) : Type 0 where
  pub first : Vote kind
  pub second : Vote kind

pub data Evidence : Type 0 where
  prevotes : Conflict prevote → Evidence
  precommits : Conflict precommit → Evidence

module _ {kind : VoteKind} where
  -- The two lookups and the insertion of `record_prevote` and `record_precommit`, on the map of the
  -- kind: a key that is not there yet is inserted.
  unfoldable pub record_vote :
      List (Vote kind) → Vote kind → List (Vote kind) × Option (Conflict kind)
  record_vote seen vote = elim (seen_get (key vote) seen) [
    | some prior ↦ (
      seen,
      if prior.block_hash != vote.block_hash
          then some (record { first = prior; second = vote })
          else none,
    )
    | none ↦ (vote ∷ seen, none)
  ]

abbrev option_map : {A B : Type 0} → (A → B) → Option A → Option B
option_map f none = none
option_map f (some a) = some (f a)

-- `EquivocationDetector::new`.
unfoldable pub new_detector : Detector
new_detector = record { seen_prevote = []; seen_precommit = [] }

-- `EquivocationDetector::record_prevote`.
unfoldable pub record_prevote : Detector → Vote prevote → Detector × Option Evidence
record_prevote d vote =
    let (seen, found) = record_vote d.seen_prevote vote in
    (record d { seen_prevote = seen }, option_map prevotes found)

-- `EquivocationDetector::record_precommit`.
unfoldable pub record_precommit : Detector → Vote precommit → Detector × Option Evidence
record_precommit d vote =
    let (seen, found) = record_vote d.seen_precommit vote in
    (record d { seen_precommit = seen }, option_map precommits found)

-- `mismatch` names the field that differs.
pub data Field : Type 0 where
  of_validator_index of_height of_round : Field

pub data SlashingError : Type 0 where
  same_block : SlashingError
  mismatch : Field → SlashingError
  unknown_validator : ℕ → SlashingError
  invalid_signature : SlashingError

module _ (c : Crypto) {kind : VoteKind} where
  -- One signature of the evidence.
  unfoldable pub check_signature : Vote kind → ℕ → Result SlashingError (Unit {0})
  check_signature v pk =
      elim (verify_signature c v.bls_sig (message c kind v.block_hash v.height v.round) pk) [
        | ok _ ↦ ok tt
        | err _ ↦ err invalid_signature
        | panic ↦ panic
      ]

  -- The arm of `EquivocationEvidence::verify` for the kind.
  unfoldable pub verify_conflict : Conflict kind → ValidatorSet → Result SlashingError (Unit {0})
  verify_conflict e vs =
      let a = e.first in
      let b = e.second in
      if a.validator_index != b.validator_index
      then err (mismatch of_validator_index)
      else if a.height != b.height
      then err (mismatch of_height)
      else if a.round != b.round
      then err (mismatch of_round)
      else if a.block_hash == b.block_hash
      then err same_block
      else elim (get_elem? vs.validators a.validator_index) [
        | none ↦ err (unknown_validator a.validator_index)
        | some v ↦ elim (check_signature a v.bls_pubkey) [
          | ok _ ↦ check_signature b v.bls_pubkey
          | err x ↦ err x
          | panic ↦ panic
        ]
      ]

-- `EquivocationEvidence::verify`.
unfoldable pub verify_evidence : Crypto → Evidence → ValidatorSet → Result SlashingError (Unit {0})
verify_evidence c (prevotes e) vs = verify_conflict c e vs
verify_evidence c (precommits e) vs = verify_conflict c e vs
