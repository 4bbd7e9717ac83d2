-- ===== src/Governance.antt =====
-- On-chain governance: `Proposal`, the votes and their bytes of crates/aii-node/src/governance.rs. A title is
-- the bytes of its UTF-8.
pub mod Calls
pub mod Records
pub mod Tallying
mod Tests
use aii.Base.{
  ℕ, ◌+◌, ◌-◌, ◌*◌, ◌%◌, min, max, Option, none, some, List, [], ◌∷◌, ◌++◌, Result, ok, err, panic,
  ◌>>=◌, map_err, Bool, true, false, not, ◌&&◌, ltb, leb, ◌==◌, ◌!=◌, if◌then◌else◌, length, take,
  drop, to_be_bytes, from_be_bytes, saturating_add, saturating_mul, u32_mod, u64_mod, u256_mod,
}
use aii.Storage.{KvBackend, StorageError, Bytes, meta}
use aii.Staking.{StakeRecord, StakeError, is_bonded, get_stake, total_bonded}

pub data ProposalStatus : Type 0 where
  pending passed rejected executed : ProposalStatus

-- `status as u8`.
abbrev pub status_byte : ProposalStatus → ℕ
status_byte pending = 0
status_byte passed = 1
status_byte rejected = 2
status_byte executed = 3

-- `ProposalStatus::from_byte`.
abbrev pub status_of : ℕ → ProposalStatus
status_of b =
    if b == 1 then passed else if b == 2 then rejected else if b == 3 then executed else pending

abbrev pub is_final : ProposalStatus → Bool
is_final pending = false
is_final passed = true
is_final rejected = true
is_final executed = true

pub record Proposal : Type 0 where
  pub id : ℕ
  pub title : Bytes
  pub voting_ends_at : ℕ
  pub status : ProposalStatus
  pub proposer : ℕ

pub record VoteRecord : Type 0 where
  pub proposal_id : ℕ
  pub voter : ℕ
  pub support : Bool
  pub weight_wei : ℕ

-- An error of the backend or of the stake table, or one of the texts.
pub data GovernanceError : Type 0 where
  from_storage : StorageError → GovernanceError
  from_stake : StakeError → GovernanceError
  proposal_not_found : ℕ → GovernanceError
  window_closed : ℕ → ℕ → GovernanceError
  no_bonded_stake : ℕ → GovernanceError
  voter_is_unbonding : GovernanceError

-- `PROP_PREFIX`, `VOTE_PREFIX`, `TALLY_PREFIX`.
abbrev pub prop_prefix : Bytes
prop_prefix = b'p' ∷ b'r' ∷ b'o' ∷ b'p' ∷ b':' ∷ []

abbrev pub vote_prefix : Bytes
vote_prefix = b'v' ∷ b'o' ∷ b't' ∷ b'e' ∷ b':' ∷ []

abbrev pub tally_prefix : Bytes
tally_prefix = b't' ∷ b'a' ∷ b'l' ∷ b'l' ∷ b'y' ∷ b':' ∷ []

unfoldable pub prop_key : ℕ → Bytes
prop_key id = prop_prefix ++ to_be_bytes 8 id

abbrev pub votes_of : ℕ → Bytes
votes_of id = vote_prefix ++ to_be_bytes 8 id

unfoldable pub vote_key : ℕ → ℕ → Bytes
vote_key id voter = vote_prefix ++ (to_be_bytes 8 id ++ to_be_bytes 20 voter)

unfoldable pub tally_key : ℕ → Bytes
tally_key id = tally_prefix ++ to_be_bytes 8 id

-- `u32::try_from(len).unwrap_or(u32::MAX)`.
abbrev pub title_len : Bytes → ℕ
title_len title = min (length title) (u32_mod - 1)

unfoldable pub encode_proposal : Proposal → Bytes
encode_proposal p =
    to_be_bytes 8 p.id
    ++ (to_be_bytes 8 p.voting_ends_at
        ++ (to_be_bytes 1 (status_byte p.status)
            ++ (to_be_bytes 20 p.proposer ++ (to_be_bytes 4 (title_len p.title) ++ p.title))))

-- A slice of the bytes, as a number; the byte at 16 is the slice of one byte.
abbrev pub slice : Bytes → ℕ → ℕ → ℕ
slice bytes cur n = from_be_bytes (take n (drop cur bytes))

unfoldable pub encode_vote : VoteRecord → Bytes
encode_vote v = (if v.support then 1 else 0) ∷ to_be_bytes 32 v.weight_wei

unfoldable pub decode_vote : ℕ → ℕ → Bytes → Option VoteRecord
decode_vote proposal_id voter bytes =
    if length bytes != 33
    then none
    else some (record {
      proposal_id = proposal_id;
      voter = voter;
      support = slice bytes 0 1 != 0;
      weight_wei = slice bytes 1 32;
    })

-- The loop of `next_id`.
unfoldable pub max_id : ℕ → List (Bytes × Bytes) → ℕ
max_id highest [] = highest
max_id highest (e ∷ entries) =
    let suffix = drop (length prop_prefix) e.0 in
    max_id (if length suffix != 8 then highest else max highest (from_be_bytes suffix)) entries

-- The loop of `tally` over the votes: what has been said yes to, and no.
unfoldable pub count_votes : ℕ → List (Bytes × Bytes) → ℕ → ℕ → ℕ × ℕ
count_votes id [] in_favour against = (in_favour, against)
count_votes id (e ∷ entries) in_favour against =
    let suffix = drop (length (votes_of id)) e.0 in
    let read : Option VoteRecord =
      if length suffix != 20 then none else decode_vote id (from_be_bytes suffix) e.1 in
    elim read [
      | none ↦ count_votes id entries in_favour against
      | some v ↦
          count_votes id entries
            (if v.support then saturating_add u256_mod in_favour v.weight_wei else in_favour)
            (if v.support then against else saturating_add u256_mod against v.weight_wei)
    ]

-- The test of `tally`.
unfoldable pub outcome : ℕ → ℕ → ProposalStatus
outcome in_favour total =
    if ltb (saturating_mul u256_mod total 2) (saturating_mul u256_mod in_favour 3)
      && not (total == 0)
    then passed
    else rejected

-- `String::from_utf8`: whether the bytes are UTF-8.
module _ (is_utf8 : Bytes → Bool) where
  unfoldable pub decode_proposal : Bytes → Option Proposal
  decode_proposal bytes =
      let len = slice bytes 37 4 in
      let title = take len (drop 41 bytes) in
      if ltb (length bytes) 41
      then none
      else if ltb (length bytes) (41 + len)
      then none
      else if is_utf8 title
      then some (record {
        id = slice bytes 0 8;
        title = title;
        voting_ends_at = slice bytes 8 8;
        status = status_of (slice bytes 16 1);
        proposer = slice bytes 17 20;
      })
      else none

  abbrev pub read_proposal : Option Bytes → Option Proposal
  read_proposal none = none
  read_proposal (some bytes) = decode_proposal bytes

  -- The loop of `list_all`.
  unfoldable pub collect_proposals : List (Bytes × Bytes) → List Proposal
  collect_proposals [] = []
  collect_proposals (e ∷ entries) =
      let rest = collect_proposals entries in
      elim (decode_proposal e.1) [ none ↦ rest | some p ↦ p ∷ rest ]
