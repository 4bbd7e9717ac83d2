-- ===== src/Governance/Calls.antt =====
-- The calls of `Governance`, which read and write the store: crates/aii-node/src/governance.rs.
use aii.Base.{
  ℕ, ◌+◌, ◌%◌, Option, none, some, List, ◌++◌, Result, ok, err, panic, ◌>>=◌, map_err, Bool, ltb,
  leb, ◌!=◌, if◌then◌else◌, length, to_be_bytes, u64_mod,
}
use aii.Storage.{KvBackend, Bytes, meta}
use aii.Staking.{is_bonded, get_stake, total_bonded}
use aii.Governance.{
  ProposalStatus, pending, is_final, Proposal, VoteRecord, GovernanceError, from_storage,
  from_stake, proposal_not_found, window_closed, no_bonded_stake, voter_is_unbonding, prop_prefix,
  prop_key, votes_of, vote_key, tally_key, encode_proposal, encode_vote, slice, max_id, count_votes,
  outcome, read_proposal, collect_proposals,
}

module _ (is_utf8 : Bytes → Bool) where
  module _ {S : Type 0} (kv : KvBackend S) where
    -- `Governance::get`.
    unfoldable pub get_proposal : S → ℕ → Result GovernanceError (Option Proposal)
    get_proposal s id =
        map_err from_storage (kv.get s meta (prop_key id))
        >>= (λ bytes. ok (read_proposal is_utf8 bytes))

    -- `max + 1` wraps, as in a release build.
    unfoldable pub next_id : S → Result GovernanceError ℕ
    next_id s =
        map_err from_storage (kv.iter_prefix s meta prop_prefix)
        >>= (λ entries. ok ((max_id 0 entries + 1) % u64_mod))

    -- `Governance::propose`: the store that is left, and the id.
    unfoldable pub propose : S → ℕ → Bytes → ℕ → Result GovernanceError (S × ℕ)
    propose s proposer title voting_ends_at = next_id s >>= (λ id.
        let p : Proposal = record {
          id = id;
          title = title;
          voting_ends_at = voting_ends_at;
          status = pending;
          proposer = proposer;
        } in
        map_err from_storage (kv.put s meta (prop_key id) (encode_proposal p))
        >>= (λ s'. ok (s', id)))

    -- The checks of `cast_vote`, on a table whose store is t: the vote, with the voter's stake.
    unfoldable pub weigh_vote : S → S → ℕ → ℕ → Bool → ℕ → Result GovernanceError VoteRecord
    weigh_vote s t id voter support block_height = get_proposal s id >>= (λ found. elim found [
      | none ↦ err (proposal_not_found id)
      | some p ↦
          if leb p.voting_ends_at block_height
          then err (window_closed id p.voting_ends_at)
          else map_err from_stake (get_stake kv t voter) >>= (λ held. elim held [
            | none ↦ err (no_bonded_stake voter)
            | some stake ↦
                if is_bonded stake
                then ok (record {
                  proposal_id = id;
                  voter = voter;
                  support = support;
                  weight_wei = stake.amount_wei;
                })
                else err voter_is_unbonding
          ])
    ])

    -- `Governance::cast_vote`.
    unfoldable pub cast_vote : S → S → ℕ → ℕ → Bool → ℕ → Result GovernanceError (S × VoteRecord)
    cast_vote s t id voter support block_height =
        weigh_vote s t id voter support block_height >>= (λ vote.
          map_err from_storage (kv.put s meta (vote_key id voter) (encode_vote vote))
          >>= (λ s'. ok (s', vote)))

    -- What `tally` reads: yes, no, and the stake that is bonded.
    unfoldable pub read_totals : S → S → ℕ → Result GovernanceError ((ℕ × ℕ) × ℕ)
    read_totals s t id = do
      entries ← map_err from_storage (kv.iter_prefix s meta (votes_of id))
      total ← map_err from_stake (total_bonded kv t)
      ok (count_votes id entries 0 0, total)

    -- The writes of `tally`: when the second one fails, the first one stands.
    unfoldable pub finalise :
        S → ℕ → Proposal → (ℕ × ℕ) × ℕ → S × Result GovernanceError ProposalStatus
    finalise s id p totals =
        let decided = outcome totals.0.0 totals.1 in
        elim (kv.put s meta (prop_key id) (encode_proposal (record p { status = decided }))) [
          | ok s1 ↦
              elim (kv.put s1 meta (tally_key id)
                (to_be_bytes 32 totals.0.0 ++ to_be_bytes 32 totals.0.1)) [
                  | ok s2 ↦ (s2, ok decided)
                  | err e ↦ (s1, err (from_storage e))
                  | panic ↦ (s1, panic)
                ]
          | err e ↦ (s, err (from_storage e))
          | panic ↦ (s, panic)
        ]

    unfoldable pub tally_proposal :
        S → S → ℕ → Proposal → ℕ → S × Result GovernanceError ProposalStatus
    tally_proposal s t id p block_height =
        if is_final p.status
        then (s, ok p.status)
        else if ltb block_height p.voting_ends_at
        then (s, ok p.status)
        else elim (read_totals s t id) [
          | ok totals ↦ finalise s id p totals
          | err e ↦ (s, err e)
          | panic ↦ (s, panic)
        ]

    -- `Governance::tally`: the store that is left, and the status.
    unfoldable pub tally : S → S → ℕ → ℕ → S × Result GovernanceError ProposalStatus
    tally s t id block_height = elim (get_proposal s id) [
      | ok found ↦ elim found [
        | none ↦ (s, err (proposal_not_found id))
        | some p ↦ tally_proposal s t id p block_height
      ]
      | err e ↦ (s, err e)
      | panic ↦ (s, panic)
    ]

    -- `Governance::tally_of`.
    unfoldable pub tally_of : S → ℕ → Result GovernanceError (Option (ℕ × ℕ))
    tally_of s id = map_err from_storage (kv.get s meta (tally_key id)) >>= (λ found. elim found [
      | none ↦ ok none
      | some bytes ↦
          if length bytes != 64 then ok none else ok (some (slice bytes 0 32, slice bytes 32 32))
    ])

    -- `Governance::list_all`.
    unfoldable pub list_all : S → Result GovernanceError (List Proposal)
    list_all s =
        map_err from_storage (kv.iter_prefix s meta prop_prefix)
        >>= (λ entries. ok (collect_proposals is_utf8 entries))
