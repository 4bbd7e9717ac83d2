-- ===== src/Bft/Coordinator/Steps.antt =====
-- What a method of the coordinator owes its caller, and `submit_proposal`.
use aii.Base.{
  ℕ, ◌≡◌, ◌≢◌, refl, subst, inl, inr, some, ok, err, panic, arith, get_elem?, Result-cases,
}
use aii.Crypto.{Crypto}
use aii.Bft.Error.{
  Phase, awaiting_proposal, prevoting, precommitting, committed, BftError, wrong_phase,
}
use aii.Bft.Validators.{Validator}
use aii.Bft.Validators.Leader.{select_leader-Leads}
use aii.Bft.Votes.{prevote, LeaderProof, verify_leader}
use aii.Bft.Tally.{new_tallier}
use aii.Bft.Tally.Quorum.{new_tallier-Inv}
use aii.Bft.Coordinator.{Coordinator, Outcome, accept_proposal, leader_index, submit_proposal}
use aii.Bft.Coordinator.Invariant.{CoordinatorInv, Holds}

-- What a method owes: `co` is the coordinator before the call.
pub record Keeps (c : Crypto) (co : Coordinator) (o : Outcome) : Type 0 where
  pub inv : CoordinatorInv c o.0
  pub no_panic : o.1 ≢ panic
  pub atomic : (e : BftError) → o.1 ≡ err e → o.0 ≡ co
  pub same_height : o.0.height ≡ co.height
  pub same_vs : o.0.vs ≡ co.vs

module _ (c : Crypto) (co : Coordinator) (i : CoordinatorInv c co) where
  -- A refusal that changes nothing.
  pub refusal-Keeps : (e : BftError) → Keeps c co (co, err e)
  refusal-Keeps e = record {
    inv = i;
    no_panic = λ h. cc;
    atomic = λ e' h. refl;
    same_height = refl;
    same_vs = refl;
  }

  verify_leader-ne-panic :
      (p : LeaderProof) (pk height round seed : ℕ) → verify_leader c p pk height round seed ≢ panic
  unfolding verify_leader
  verify_leader-ne-panic p pk height round seed h = ground arith

  accept_proposal-Keeps :
      (block_hash : ℕ)
      → co.phase ≡ awaiting_proposal
      → Keeps c co (accept_proposal co block_hash, ok tt)
  unfolding accept_proposal new_tallier
  accept_proposal-Keeps block_hash e =
      let (_, np, nf) = subst (Holds c co) e i.holds in
      record {
        inv = record {
          valid = i.valid;
          small = i.small;
          holds = (
            block_hash,
            new_tallier prevote block_hash co.height co.round co.vs,
            refl,
            refl,
            record {
              inv = new_tallier-Inv c prevote block_hash co.height co.round co.vs i.valid;
              same_vs = refl;
              same_block = refl;
              same_height = refl;
              same_round = refl;
            },
            np,
            nf,
          );
          lock = i.lock;
        };
        no_panic = λ h. cc;
        atomic = λ e' h. absurd (cc);
        same_height = refl;
        same_vs = refl;
      }

  pub submit_proposal-Keeps :
      (block_hash : ℕ) (p : LeaderProof) → Keeps c co (submit_proposal c co block_hash p)
  unfolding submit_proposal leader_index
  submit_proposal-Keeps block_hash p = go co.phase refl
    where
      leader : (v : Validator) × (get_elem? co.vs.validators (leader_index c co) ≡ some v)
      leader = let l = select_leader-Leads c co.vs co.height co.round co.seed i.valid in (l.0, l.1)

      go : (ph : Phase) → co.phase ≡ ph → Keeps c co (submit_proposal c co block_hash p)
      go awaiting_proposal e =
          elim (Result-cases (verify_leader c p leader.0.vrf_pubkey co.height co.round co.seed)) [
            | inl (u, good) ↦
                subst (Keeps c co) (ground (arith, leader.1)) (accept_proposal-Keeps block_hash e)
            | inr (inl (x, bad)) ↦ subst (Keeps c co) (ground (arith, leader.1)) (refusal-Keeps x)
            | inr (inr broken) ↦ absurd (verify_leader-ne-panic p _ _ _ _ broken)
          ]
      go prevoting e =
          subst (Keeps c co) (ground arith)
            (refusal-Keeps (wrong_phase awaiting_proposal prevoting))
      go precommitting e =
          subst (Keeps c co) (ground arith)
            (refusal-Keeps (wrong_phase awaiting_proposal precommitting))
      go committed e =
          subst (Keeps c co) (ground arith)
            (refusal-Keeps (wrong_phase awaiting_proposal committed))
