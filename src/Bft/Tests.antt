-- ===== src/Bft/Tests.antt =====
-- Three validators of equal stake run a round of the toy scheme: tests, and the theorems applied.
use aii.Base.{
  ℕ, ◌+◌, ◌*◌, ◌≤◌, ◌<◌, ◌≡◌, ◌≢◌, ◌↔◌, ◌⊎◌, refl, some, none, List, [], ◌∷◌, ok, err, arith, ◌==◌,
  if◌then◌else◌,
}
use aii.Crypto.Toy.{toy, toy-Aggregates, toy-Proves}
use aii.Bft.Error.{BftError}
use aii.Bft.Validators.{
  Validator, ValidatorSet, IsValid, new_set, size, quorum_threshold, leader_pick, select_leader,
}
use aii.Bft.Validators.Quorum.{quorum_threshold_wraps}
use aii.Bft.Votes.{Vote, prevote, precommit, produce, sign, digest_input, verify_leader}
use aii.Bft.Certificate.{Certificate, verify}
use aii.Bft.Certificate.Overlap.{shared_stake, verify-shares, verify_iff, Certifies}
use aii.Bft.Tally.{Tallier, new_tallier, submit, try_certify}
use aii.Bft.Tally.Invariant.{Inv}
use aii.Bft.Tally.Quorum.{submit_all, submit_all-Inv, submit_all-counts, new_tallier-Inv}
use aii.Bft.Tally.Certify.{try_certify-verifies}
use aii.Bft.Coordinator.{
  Coordinator, new_coordinator, Event, propose, send_prevote, send_precommit, time_out, step, run,
  submit_proposal, submit_prevote, submit_precommit,
}
use aii.Bft.Coordinator.Invariant.{CoordinatorInv}
use aii.Bft.Coordinator.Finality.{
  Commits, new_coordinator-Inv, step_lem, run-Commits, commits-share,
}
use aii.Bft.Slashing.{Conflict, verify_conflict}
use aii.Bft.Slashing.Detection.{detect, AllAgree, detect_iff}
use aii.Bft.Slashing.Soundness.{IsSlashable, verify_conflict_iff}

abbrev member : ℕ → Validator
member sk = record { bls_pubkey = sk; vrf_pubkey = sk; stake = 100 }

abbrev trio : ValidatorSet
trio = record { validators = member 1 ∷ member 2 ∷ member 3 ∷ []; total_stake = 300 }

trio-IsValid : IsValid trio
trio-IsValid = omega arith

start : Coordinator
start = new_coordinator 5 9 trio

pre : ℕ → Vote prevote
unfolding sign
pre i = sign toy prevote (i + 1) 77 5 0 i

commit : ℕ → Vote precommit
unfolding sign
commit i = sign toy precommit (i + 1) 77 5 0 i

-- The leader of round 0 is the first validator. All vote, in two orders.
history : List Event
unfolding pre commit
history =
    propose 77 (produce toy 1 5 0 9)
    ∷ send_prevote (pre 2)
    ∷ send_prevote (pre 0)
    ∷ send_prevote (pre 1)
    ∷ send_precommit (commit 1)
    ∷ send_precommit (commit 0)
    ∷ send_precommit (commit 2)
    ∷ []

abbrev cert : Certificate precommit
cert = record {
  block_hash = 77;
  height = 5;
  round = 0;
  signer_bitmap = 7;
  aggregated_sig = 51288439651925639682;
}

history-commits : (run toy start history).final_cert ≡ some cert
unfolding start history step submit_proposal submit_prevote submit_precommit new_coordinator
    aii.Bft.Coordinator.leader_index select_leader aii.Bft.Validators.first_above leader_pick
    aii.Base.from_be_bytes aii.Base.to_be_bytes toy aii.Bft.Validators.leader_input verify_leader
    aii.Bft.Votes.proof_input produce aii.Bft.Coordinator.accept_proposal
    aii.Bft.Coordinator.after_prevote submit aii.Bft.Tally.check_vote new_tallier
    aii.Base.from_be_bytes_acc aii.Bft.Coordinator.after_precommit aii.Bft.Coordinator.fire_timeout
    aii.Bft.Coordinator.lock_on aii.Bft.Tally.record_vote try_certify commit pre quorum_threshold
    aii.Bft.Votes.digest digest_input aii.Bft.Votes.domain sign aii.Crypto.Toy.mix
    aii.Crypto.aggregate_signatures aii.Crypto.verify_signature
history-commits = refl

-- Votes, one twice, one for another block, one of a stranger: the certificate needs three.
disputed : List (Vote prevote)
unfolding pre sign
disputed = pre 2 ∷ pre 2 ∷ sign toy prevote 1 78 5 0 0 ∷ sign toy prevote 4 77 5 0 3 ∷ pre 0 ∷ []

disputed-stake : (submit_all toy (new_tallier prevote 77 5 0 trio) disputed).stake_collected ≡ 200
unfolding disputed new_tallier submit aii.Bft.Tally.check_vote aii.Crypto.verify_signature toy
    aii.Base.to_be_bytes aii.Bft.Votes.digest digest_input aii.Bft.Votes.domain
    aii.Bft.Tally.record_vote
disputed-stake = refl

full : Tallier prevote
unfolding new_tallier submit pre
full = submit_all toy (new_tallier prevote 77 5 0 trio) (pre 0 ∷ pre 1 ∷ pre 2 ∷ [])

full-counted : full.stake_collected ≡ 300
unfolding full pre sign new_tallier submit aii.Bft.Tally.check_vote aii.Crypto.verify_signature toy
    aii.Base.to_be_bytes aii.Bft.Votes.digest digest_input aii.Bft.Votes.domain
    aii.Bft.Tally.record_vote
full-counted = refl

full-threshold : quorum_threshold full.vs ≡ 201
unfolding full quorum_threshold pre sign new_tallier submit aii.Bft.Tally.check_vote
    aii.Crypto.verify_signature toy aii.Base.to_be_bytes aii.Bft.Votes.digest digest_input
    aii.Bft.Votes.domain aii.Bft.Tally.record_vote
full-threshold = refl

full-Inv : Inv toy full
unfolding full
full-Inv =
    submit_all-Inv toy (new_tallier prevote 77 5 0 trio) (pre 0 ∷ pre 1 ∷ pre 2 ∷ [])
      (new_tallier-Inv toy prevote 77 5 0 trio trio-IsValid)

commits-share_example : 300 < 3 * shared_stake 7 7 0 trio.validators
unfolding start
commits-share_example =
    commits-share toy 5 9 9 trio history history cert cert toy-Aggregates trio-IsValid (omega arith)
      (omega arith) (omega arith) history-commits history-commits

run-Commits_example : Commits toy trio 5 (run toy start history) cert
unfolding start
run-Commits_example =
    run-Commits toy 5 9 trio history cert toy-Aggregates trio-IsValid history-commits

start-Inv : CoordinatorInv toy start
unfolding start
start-Inv = new_coordinator-Inv toy 5 9 trio trio-IsValid

step_lem_example :
    let (co', reply) = step toy start (send_prevote (pre 0)) in
    CoordinatorInv toy co'
    × ((reply ≡ ok tt) ⊎ ((x : BftError) × (reply ≡ err x) × (co' ≡ start)))
    × (co'.height ≡ start.height)
    × (co'.vs ≡ start.vs)
step_lem_example = step_lem toy toy-Aggregates start (send_prevote (pre 0)) start-Inv

submit_all-counts_example :
    (submit_all toy (new_tallier prevote 77 5 0 trio) disputed).stake_collected ≤ 300
submit_all-counts_example = (submit_all-counts toy prevote 77 5 0 trio disputed trio-IsValid).1

try_certify-verifies_example :
    (made : Certificate prevote) × (try_certify toy full ≡ some made)
    × (verify toy made full.vs ≡ ok tt)
    × (made.block_hash ≡ full.block_hash)
    × (made.height ≡ full.height)
    × (made.round ≡ full.round)
    × (made.signer_bitmap ≡ full.signer_bitmap)
try_certify-verifies_example =
    try_certify-verifies toy full toy-Aggregates full-Inv
      (omega (arith, full-counted, full-threshold))

cert-verifies : verify toy cert trio ≡ ok tt
unfolding verify aii.Base.Bits.ilog2 aii.Bft.Certificate.gather aii.Base.Bits.bit quorum_threshold
    aii.Crypto.fast_aggregate_verify toy aii.Base.to_be_bytes aii.Bft.Votes.digest digest_input
    aii.Bft.Votes.domain
cert-verifies = refl

verify-shares_example : 300 < 3 * shared_stake 7 7 0 trio.validators
verify-shares_example =
    verify-shares toy cert cert trio trio-IsValid (omega arith) (omega arith) (omega arith)
      cert-verifies cert-verifies

verify_iff_example : (verify toy cert trio ≡ ok tt) ↔ Certifies toy cert trio
verify_iff_example = verify_iff toy cert trio trio-IsValid (omega arith)

-- Two validators of 2 ^ 62 each.
abbrev whales : ValidatorSet
whales = record {
  validators =
      record { bls_pubkey = 1; vrf_pubkey = 1; stake = 0x4000_0000_0000_0000 }
      ∷ record { bls_pubkey = 2; vrf_pubkey = 2; stake = 0x4000_0000_0000_0000 }
      ∷ [];
  total_stake = 0x8000_0000_0000_0000;
}

whales-threshold : quorum_threshold whales ≡ 1
unfolding quorum_threshold
whales-threshold = refl

quorum_threshold_wraps_example : 3 * quorum_threshold whales ≤ 0x8000_0000_0000_0000
quorum_threshold_wraps_example = quorum_threshold_wraps whales (omega arith) (omega arith)

-- Validator 0 signs two blocks at one height and round.
abbrev two_faced : List (Vote prevote)
two_faced = sign toy prevote 1 77 5 0 0 ∷ sign toy prevote 1 78 5 0 0 ∷ []

detect_iff_example : (detect [] two_faced ≡ []) ↔ AllAgree two_faced
detect_iff_example = detect_iff two_faced

abbrev two_faces : Conflict prevote
two_faces = record { first = sign toy prevote 1 77 5 0 0; second = sign toy prevote 1 78 5 0 0 }

verify_conflict_iff_example :
    (verify_conflict toy two_faces trio ≡ ok tt) ↔ IsSlashable toy two_faces trio
verify_conflict_iff_example = verify_conflict_iff toy two_faces trio
