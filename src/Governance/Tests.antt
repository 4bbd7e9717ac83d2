-- ===== src/Governance/Tests.antt =====
-- A proposal, two votes and the tally on a store in memory: the theorems applied.
use aii.Base.{
  ℕ, ◌+◌, ◌*◌, ◌<◌, ◌≤◌, ◌≡◌, ◌↔◌, refl, some, List, [], ◌∷◌, Result, ok, err, panic, arith, Bool,
  true, false, u256_mod,
}
use aii.Storage.{Bytes}
use aii.Storage.Memory.{Store, new_store}
use aii.Storage.Memory.Laws.{memory_backend}
use aii.Staking.{bond}
use aii.Governance.{ProposalStatus, pending, passed, is_final, Proposal}
use aii.Governance.Calls.{get_proposal, propose, cast_vote, read_totals, tally}
use aii.Governance.Records.{Fits}
use aii.Governance.Tallying.{tally-passed_iff, tally_final}

abbrev any_text : Bytes → Bool
any_text _ = true

abbrev after : {E A : Type 0} → Result E (Store × A) → Store
after (ok x) = x.0
after (err _) = new_store
after panic = new_store

abbrev or_new : {E : Type 0} → Result E Store → Store
or_new (ok s) = s
or_new (err _) = new_store
or_new panic = new_store

-- Staker 7 has bonded 600 and staker 8 has bonded 90.
abbrev bonded : Store
bonded = or_new (bond memory_backend (or_new (bond memory_backend new_store 7 600)) 8 90)

abbrev proposed : Store
proposed = after (propose any_text memory_backend bonded 7 (b'x' ∷ []) 50)

abbrev voted : Store
voted = after (
    cast_vote any_text memory_backend
      (after (cast_vote any_text memory_backend proposed proposed 1 7 true 10)) proposed 1 8 false
      49)

abbrev tallied : Store
tallied = (tally any_text memory_backend voted voted 1 50).0

abbrev proposal : Proposal
proposal = record { id = 1; title = b'x' ∷ []; voting_ends_at = 50; status = pending; proposer = 7 }

proposal-Fits : Fits any_text proposal
proposal-Fits = record {
  widths = (omega arith, (omega arith, (omega arith, (omega arith, (omega arith, tt)))));
  text = refl;
}

tally-runs :
    (get_proposal any_text memory_backend voted 1 ≡ ok (some proposal))
    × ((read_totals any_text memory_backend voted voted 1 ≡ ok ((600, 90), 690))
        × (tally any_text memory_backend voted voted 1 50 ≡ (tallied, ok passed)))
unfolding propose cast_vote read_totals tally get_proposal bond aii.Staking.get_stake
    aii.Staking.put_stake aii.Staking.read_record aii.Staking.stake_key aii.Staking.encode_value
    aii.Staking.decode_value aii.Staking.collect aii.Staking.add_bonded aii.Staking.list_all
    aii.Staking.total_bonded new_store memory_backend aii.Storage.Memory.memory_get
    aii.Storage.Memory.memory_put aii.Storage.Memory.set_family aii.Storage.Memory.map_get
    aii.Storage.Memory.map_insert aii.Storage.Memory.iter_prefix aii.Base.to_be_bytes
    aii.Base.from_be_bytes aii.Governance.prop_key aii.Governance.vote_key aii.Governance.tally_key
    aii.Governance.encode_proposal aii.Governance.decode_proposal aii.Governance.encode_vote
    aii.Governance.decode_vote aii.Governance.max_id aii.Governance.Calls.next_id
    aii.Governance.count_votes aii.Governance.outcome aii.Governance.Calls.weigh_vote
    aii.Governance.Calls.finalise aii.Governance.Calls.tally_proposal
tally-runs = (refl, (refl, refl))

tally-passed_iff_example :
    ((passed ≡ passed) ↔ ((0 < 690) × (690 * 2 < 600 * 3)))
    × (get_proposal any_text memory_backend tallied 1
        ≡ ok (some (record proposal { status = passed })))
tally-passed_iff_example =
    tally-passed_iff any_text memory_backend voted tallied voted 1 50 proposal 600 90 690 passed
      tally-runs.0 proposal-Fits refl (omega arith) tally-runs.1.0 (omega arith) (omega arith)
      tally-runs.1.1

tally_final_example : tally any_text memory_backend tallied new_store 1 90 ≡ (tallied, ok passed)
tally_final_example =
    tally_final any_text memory_backend voted tallied voted new_store 1 50 90 proposal passed
      tally-runs.0 proposal-Fits tally-runs.1.1 refl
