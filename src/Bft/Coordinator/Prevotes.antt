-- ===== src/Bft/Coordinator/Prevotes.antt =====
-- `submit_prevote`: votes are tallied, and a quorum forms the POLC and the lock.
use aii.Base.{
  ℕ, ◌+◌, ◌≤◌, ◌≡◌, refl, ap, sym, subst, ◌∙◌, inl, inr, Option, none, some, true, false, ok, err,
  arith, leb, if◌then◌else◌, Bool, Bool-cases,
}
use aii.Crypto.{Crypto, Aggregates}
use aii.Bft.Error.{Phase, awaiting_proposal, prevoting, precommitting, committed, wrong_phase}
use aii.Bft.Validators.{Validator, ValidatorSet, quorum_threshold}
use aii.Bft.Votes.{Vote, prevote, precommit}
use aii.Bft.Certificate.{Certificate, verify}
use aii.Bft.Tally.{Tallier, reached_quorum, new_tallier, submit}
use aii.Bft.Tally.Quorum.{submit_lem, new_tallier-Inv}
use aii.Bft.Tally.Certify.{try_certify-verifies}
use aii.Bft.Coordinator.{Coordinator, LockedState, lock_on, after_prevote, submit_prevote}
use aii.Bft.Coordinator.Invariant.{CoordinatorInv, Holds, LockHolds, Tallies, Proves}
use aii.Bft.Coordinator.Steps.{Keeps, refusal-Keeps}

lock_on-LockHolds :
    (c : Crypto) (vs : ValidatorSet) (height round : ℕ) (old : Option LockedState)
    (lock : LockedState) (supersedes : Bool)
    → LockHolds c vs height round old
    → LockHolds c vs height round (some lock)
    → LockHolds c vs height round (if supersedes then some lock else old)
lock_on-LockHolds c vs height round old lock true h k = k
lock_on-LockHolds c vs height round old lock false h k = h

module _ (c : Crypto) (co : Coordinator) (i : CoordinatorInv c co) where
  -- A tallier that its failed call left alone goes back to where it was.
  restore :
      (t : Tallier prevote) → co.prevote_tally ≡ some t → record co { prevote_tally = some t } ≡ co
  restore t e = λ j. record co { prevote_tally = sym e j }

  module _ (block : ℕ) (t : Tallier prevote) (proposed : co.proposed_block ≡ some block)
      (no_polc : co.polc ≡ none) (no_cert : co.final_cert ≡ none)
      (ready : co.phase ≡ prevoting) where
    tallied-Keeps :
        (t' : Tallier prevote)
        → Tallies c co.vs co.height t' block co.round
        → Keeps c co (record co { prevote_tally = some t' }, ok tt)
    tallied-Keeps t' tallies = record {
      inv = record {
        valid = i.valid;
        small = i.small;
        holds =
            subst (Holds c (record co { prevote_tally = some t' })) (sym ready)
              (block, t', proposed, refl, tallies, no_polc, no_cert);
        lock = i.lock;
      };
      no_panic = λ h. cc;
      atomic = λ e h. absurd (cc);
      same_height = refl;
      same_vs = refl;
    }

    lock_on-Keeps :
        (t' : Tallier prevote) (polc : Certificate prevote)
        → Proves c co.vs co.height polc block co.round
        → Keeps c co (lock_on (record co { prevote_tally = some t' }) block polc, ok tt)
    unfolding lock_on new_tallier
    lock_on-Keeps t' polc proves = record {
      inv = record {
        valid = i.valid;
        small = i.small;
        holds = (
          block,
          new_tallier precommit block co.height co.round co.vs,
          polc,
          proposed,
          refl,
          record {
            inv = new_tallier-Inv c precommit block co.height co.round co.vs i.valid;
            same_vs = refl;
            same_block = refl;
            same_height = refl;
            same_round = refl;
          },
          refl,
          proves,
          no_cert,
        );
        lock =
            lock_on-LockHolds c co.vs co.height co.round co.locked _ _ i.lock (omega arith, proves);
      };
      no_panic = λ h. cc;
      atomic = λ e h. absurd (cc);
      same_height = refl;
      same_vs = refl;
    }

    module _ (aggregates : Aggregates c) (tallied : co.prevote_tally ≡ some t)
        (tallies : Tallies c co.vs co.height t block co.round) (vote : Vote prevote) where
      entered :
          submit_prevote c co vote
          ≡ after_prevote c
              (record co { prevote_tally = some (submit c t vote).0 })
              (submit c t vote).0
              (submit c t vote).1
      unfolding submit_prevote
      entered = ground arith

      still-Tallies : Tallies c co.vs co.height (submit c t vote).0 block co.round
      still-Tallies =
          let l = submit_lem c t vote tallies.inv in
          record {
            inv = l.1;
            same_vs = l.2 ∙ tallies.same_vs;
            same_block = l.3 ∙ tallies.same_block;
            same_height = l.4 ∙ tallies.same_height;
            same_round = l.5 ∙ tallies.same_round;
          }

      reached-Keeps :
          (v : Validator)
          → (submit c t vote).0.stake_collected ≡ t.stake_collected + v.stake
          → (submit c t vote).1 ≡ ok reached_quorum
          → quorum_threshold t.vs ≤ t.stake_collected + v.stake
          → Keeps c co (submit_prevote c co vote)
      unfolding after_prevote
      reached-Keeps v sum replied quorum =
          let t' = (submit c t vote).0 in
          let l = submit_lem c t vote tallies.inv in
          let enough : quorum_threshold t'.vs ≤ t'.stake_collected =
            omega (arith, ap quorum_threshold l.2) in
          let (polc, made, good, b, h, r, _) = try_certify-verifies c t' aggregates l.1 enough in
          let proves : Proves c co.vs co.height polc block co.round = record {
            verifies = subst (λ w. verify c polc w ≡ ok tt) still-Tallies.same_vs good;
            for_block = b ∙ still-Tallies.same_block;
            at_height = h ∙ still-Tallies.same_height;
            at_round = r ∙ still-Tallies.same_round;
          } in
          subst (Keeps c co) (ground (arith, entered)) (lock_on-Keeps t' polc proves)

      prevoting-Keeps : Keeps c co (submit_prevote c co vote)
      unfolding after_prevote
      prevoting-Keeps =
          let (t', reply) = submit c t vote in
          elim (submit_lem c t vote tallies.inv).0 [
            | inl (e, refused, same) ↦
                subst (Keeps c co) (ground (arith, entered, restore t tallied))
                  (refusal-Keeps c co i e)
            | inr (v, _, _, sum, replied) ↦
                elim (Bool-cases (leb (quorum_threshold t.vs) (t.stake_collected + v.stake))) [
                  | inl reached ↦ reached-Keeps v sum (ground arith) (ground arith)
                  | inr below ↦
                      subst (Keeps c co) (ground (arith, entered)) (tallied-Keeps t' still-Tallies)
                ]
          ]

-- A PRE-VOTE keeps the invariant in every phase.
pub submit_prevote-Keeps :
    (c : Crypto) (co : Coordinator) (vote : Vote prevote)
    → Aggregates c
    → CoordinatorInv c co
    → Keeps c co (submit_prevote c co vote)
unfolding submit_prevote
submit_prevote-Keeps c co vote aggregates i = go co.phase refl
  where
    wrong :
        (ph : Phase)
        → submit_prevote c co vote ≡ (co, err (wrong_phase prevoting ph))
        → Keeps c co (submit_prevote c co vote)
    wrong ph e = subst (Keeps c co) (sym e) (refusal-Keeps c co i (wrong_phase prevoting ph))

    go : (ph : Phase) → co.phase ≡ ph → Keeps c co (submit_prevote c co vote)
    go prevoting e =
        let (block, t, proposed, tallied, tallies, np, nf) = subst (Holds c co) e i.holds in
        prevoting-Keeps c co i block t proposed np nf e aggregates tallied tallies vote
    go awaiting_proposal e = wrong awaiting_proposal (ground arith)
    go precommitting e = wrong precommitting (ground arith)
    go committed e = wrong committed (ground arith)
