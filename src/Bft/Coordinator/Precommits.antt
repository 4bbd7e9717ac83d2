-- ===== src/Bft/Coordinator/Precommits.antt =====
-- `submit_precommit`: votes are tallied, and a quorum commits the block.
use aii.Base.{
  ℕ, ◌+◌, ◌≤◌, ◌≡◌, refl, ap, sym, subst, ◌∙◌, inl, inr, none, some, ok, err, arith, leb,
  Bool-cases,
}
use aii.Crypto.{Crypto, Aggregates}
use aii.Bft.Error.{Phase, awaiting_proposal, prevoting, precommitting, committed, wrong_phase}
use aii.Bft.Validators.{Validator, quorum_threshold}
use aii.Bft.Votes.{Vote, prevote, precommit}
use aii.Bft.Certificate.{Certificate, verify}
use aii.Bft.Tally.{Tallier, reached_quorum, submit}
use aii.Bft.Tally.Quorum.{submit_lem}
use aii.Bft.Tally.Certify.{try_certify-verifies}
use aii.Bft.Coordinator.{Coordinator, after_precommit, submit_precommit}
use aii.Bft.Coordinator.Invariant.{CoordinatorInv, Holds, Tallies, Proves}
use aii.Bft.Coordinator.Steps.{Keeps, refusal-Keeps}

module _ (c : Crypto) (co : Coordinator) (i : CoordinatorInv c co) where
  restore :
      (t : Tallier precommit)
      → co.precommit_tally ≡ some t
      → record co { precommit_tally = some t } ≡ co
  restore t e = λ j. record co { precommit_tally = sym e j }

  module _ (block : ℕ) (t : Tallier precommit) (polc : Certificate prevote)
      (proposed : co.proposed_block ≡ some block) (locked_in : co.polc ≡ some polc)
      (proves : Proves c co.vs co.height polc block co.round) (no_cert : co.final_cert ≡ none)
      (ready : co.phase ≡ precommitting) where
    tallied-Keeps :
        (t' : Tallier precommit)
        → Tallies c co.vs co.height t' block co.round
        → Keeps c co (record co { precommit_tally = some t' }, ok tt)
    tallied-Keeps t' tallies = record {
      inv = record {
        valid = i.valid;
        small = i.small;
        holds =
            subst (Holds c (record co { precommit_tally = some t' })) (sym ready)
              (block, t', polc, proposed, refl, tallies, locked_in, proves, no_cert);
        lock = i.lock;
      };
      no_panic = λ h. cc;
      atomic = λ e h. absurd (cc);
      same_height = refl;
      same_vs = refl;
    }

    commit-Keeps :
        (t' : Tallier precommit) (cert : Certificate precommit)
        → Proves c co.vs co.height cert block co.round
        → Keeps c co (
          record co { precommit_tally = some t'; final_cert = some cert; phase = committed },
          ok tt,
        )
    commit-Keeps t' cert final = record {
      inv = record {
        valid = i.valid;
        small = i.small;
        holds = (block, polc, cert, proposed, locked_in, proves, refl, final);
        lock = i.lock;
      };
      no_panic = λ h. cc;
      atomic = λ e h. absurd (cc);
      same_height = refl;
      same_vs = refl;
    }

    module _ (aggregates : Aggregates c) (tallied : co.precommit_tally ≡ some t)
        (tallies : Tallies c co.vs co.height t block co.round) (vote : Vote precommit) where
      entered :
          submit_precommit c co vote
          ≡ after_precommit c
              (record co { precommit_tally = some (submit c t vote).0 })
              (submit c t vote).0
              (submit c t vote).1
      unfolding submit_precommit
      entered = ground arith

      still-Tallies : Tallies c co.vs co.height (submit c t vote).0 block co.round
      still-Tallies =
          let l = submit_lem c t vote tallies.inv in
          record {
            inv = l.1;
            same_vs = l.2 ∙ tallies.same_vs;
            same_block = l.3 ∙ tallies.same_block;
            same_height = l.4 ∙ tallies.same_height;
            same_round = l.5 ∙ tallies.same_round;
          }

      reached-Keeps :
          (v : Validator)
          → (submit c t vote).0.stake_collected ≡ t.stake_collected + v.stake
          → (submit c t vote).1 ≡ ok reached_quorum
          → quorum_threshold t.vs ≤ t.stake_collected + v.stake
          → Keeps c co (submit_precommit c co vote)
      unfolding after_precommit
      reached-Keeps v sum replied quorum =
          let t' = (submit c t vote).0 in
          let l = submit_lem c t vote tallies.inv in
          let enough : quorum_threshold t'.vs ≤ t'.stake_collected =
            omega (arith, ap quorum_threshold l.2) in
          let (cert, made, good, b, h, r, _) = try_certify-verifies c t' aggregates l.1 enough in
          let final : Proves c co.vs co.height cert block co.round = record {
            verifies = subst (λ w. verify c cert w ≡ ok tt) still-Tallies.same_vs good;
            for_block = b ∙ still-Tallies.same_block;
            at_height = h ∙ still-Tallies.same_height;
            at_round = r ∙ still-Tallies.same_round;
          } in
          subst (Keeps c co) (ground (arith, entered)) (commit-Keeps t' cert final)

      precommitting-Keeps : Keeps c co (submit_precommit c co vote)
      unfolding after_precommit
      precommitting-Keeps =
          let (t', reply) = submit c t vote in
          elim (submit_lem c t vote tallies.inv).0 [
            | inl (e, refused, same) ↦
                subst (Keeps c co) (ground (arith, entered, restore t tallied))
                  (refusal-Keeps c co i e)
            | inr (v, _, _, sum, replied) ↦
                elim (Bool-cases (leb (quorum_threshold t.vs) (t.stake_collected + v.stake))) [
                  | inl reached ↦ reached-Keeps v sum (ground arith) (ground arith)
                  | inr below ↦
                      subst (Keeps c co) (ground (arith, entered)) (tallied-Keeps t' still-Tallies)
                ]
          ]

-- A PRE-COMMIT keeps the invariant in every phase.
pub submit_precommit-Keeps :
    (c : Crypto) (co : Coordinator) (vote : Vote precommit)
    → Aggregates c
    → CoordinatorInv c co
    → Keeps c co (submit_precommit c co vote)
unfolding submit_precommit
submit_precommit-Keeps c co vote aggregates i = go co.phase refl
  where
    wrong :
        (ph : Phase)
        → submit_precommit c co vote ≡ (co, err (wrong_phase precommitting ph))
        → Keeps c co (submit_precommit c co vote)
    wrong ph e = subst (Keeps c co) (sym e) (refusal-Keeps c co i (wrong_phase precommitting ph))

    go : (ph : Phase) → co.phase ≡ ph → Keeps c co (submit_precommit c co vote)
    go precommitting e =
        let (block, t, polc, proposed, tallied, tallies, in_lock, proves, nf) =
          subst (Holds c co) e i.holds in
        precommitting-Keeps c co i block t polc proposed in_lock proves nf e aggregates tallied
          tallies vote
    go awaiting_proposal e = wrong awaiting_proposal (ground arith)
    go prevoting e = wrong prevoting (ground arith)
    go committed e = wrong committed (ground arith)
