-- ===== src/Bft/Coordinator/Finality.antt =====
-- The whole life of a coordinator: any sequence of proposals, votes and timeouts.
use aii.Base.{
  ℕ, ◌*◌, ◌^◌, ◌≤◌, ◌<◌, ◌≡◌, refl, ap, sym, subst, u64_mod, ◌∙◌, Option, none, some, List, [], ◌∷◌,
  ok, err, inl, inr, Result-cases, ◌⊎◌, arith, u32_mod, saturating_add,
}
use mathlib.Core.Path.{subst₂}
use aii.Bft.Certificate.Overlap.{shared_stake, verify-shares}
use aii.Crypto.{Crypto, Aggregates}
use aii.Bft.Error.{Phase, BftError, awaiting_proposal, prevoting, precommitting, committed}
use aii.Bft.Validators.{ValidatorSet, IsValid}
use aii.Bft.Votes.{prevote, precommit}
use aii.Bft.Certificate.{Certificate}
use aii.Bft.Coordinator.{
  Coordinator, LockedState, new_coordinator, fire_timeout, submit_proposal, submit_prevote,
  submit_precommit, Event, propose, send_prevote, send_precommit, time_out, step, run,
}
use aii.Bft.Coordinator.Invariant.{CoordinatorInv, Holds, LockHolds, Proves}
use aii.Bft.Coordinator.Steps.{Keeps, submit_proposal-Keeps}
use aii.Bft.Coordinator.Prevotes.{submit_prevote-Keeps}
use aii.Bft.Coordinator.Precommits.{submit_precommit-Keeps}

-- A later round leaves the lock as good as it was.
LockHolds-later :
    (c : Crypto) (vs : ValidatorSet) (height r s : ℕ) (l : Option LockedState)
    → r ≤ s
    → LockHolds c vs height r l
    → LockHolds c vs height s l
LockHolds-later c vs height r s none le h = tt
LockHolds-later c vs height r s (some l) le (before, proves) = (omega arith, proves)

-- The fields that no event changes, and those that a timeout keeps.
pub fire_timeout-Keeps :
    (c : Crypto) (co : Coordinator) → CoordinatorInv c co → Keeps c co (fire_timeout co, ok tt)
unfolding fire_timeout
fire_timeout-Keeps c co i = go co.phase refl
  where
    fresh : Coordinator
    fresh = record co {
      round = saturating_add u32_mod co.round 1;
      phase = awaiting_proposal;
      proposed_block = none;
      prevote_tally = none;
      precommit_tally = none;
      polc = none;
    }

    fresh-Keeps : co.final_cert ≡ none → Keeps c co (fresh, ok tt)
    fresh-Keeps no_cert = record {
      inv = record {
        valid = i.valid;
        small = let bound = i.small in ground arith;
        holds = (refl, refl, no_cert);
        lock =
            LockHolds-later c co.vs co.height co.round fresh.round co.locked
              (let bound = i.small in ground arith) i.lock;
      };
      no_panic = λ h. cc;
      atomic = λ e h. absurd (cc);
      same_height = refl;
      same_vs = refl;
    }

    go : (ph : Phase) → co.phase ≡ ph → Keeps c co (fire_timeout co, ok tt)
    go committed e = subst (Keeps c co) (ground arith) same
      where
        same : Keeps c co (co, ok tt)
        same = record {
          inv = i;
          no_panic = λ h. cc;
          atomic = λ x h. refl;
          same_height = refl;
          same_vs = refl;
        }
    go awaiting_proposal e =
        subst (Keeps c co) (ground arith) (fresh-Keeps (subst (Holds c co) e i.holds).2)
    go prevoting e =
        subst (Keeps c co) (ground arith) (fresh-Keeps (subst (Holds c co) e i.holds).6)
    go precommitting e =
        subst (Keeps c co) (ground arith) (fresh-Keeps (subst (Holds c co) e i.holds).8)

module _ (c : Crypto) (aggregates : Aggregates c) where
  pub step-Keeps : (co : Coordinator) (e : Event) → CoordinatorInv c co → Keeps c co (step c co e)
  unfolding step
  step-Keeps co (propose block_hash proof) i = submit_proposal-Keeps c co i block_hash proof
  step-Keeps co (send_prevote vote) i = submit_prevote-Keeps c co vote aggregates i
  step-Keeps co (send_precommit vote) i = submit_precommit-Keeps c co vote aggregates i
  step-Keeps co time_out i = fire_timeout-Keeps c co i

  -- Given that signatures aggregate, every event, valid or not, keeps the invariant, the height and
  -- the validator set, never panics, and changes nothing when it reports an error.
  pub step_lem :
      (co : Coordinator) (e : Event)
      → CoordinatorInv c co
      → let (co', reply) = step c co e in
        CoordinatorInv c co'
        × ((reply ≡ ok tt) ⊎ ((x : BftError) × (reply ≡ err x) × (co' ≡ co)))
        × (co'.height ≡ co.height)
        × (co'.vs ≡ co.vs)
  step_lem co e i =
      let k = step-Keeps co e i in
      (
        k.inv,
        elim (Result-cases (step c co e).1) [
          | inl (_, done) ↦ inl done
          | inr (inl (x, refused)) ↦ inr (x, refused, k.atomic x refused)
          | inr (inr panics) ↦ absurd (k.no_panic panics)
        ],
        k.same_height,
        k.same_vs,
      )

  pub run-CoordinatorInv :
      (co : Coordinator) (events : List Event)
      → CoordinatorInv c co
      → CoordinatorInv c (run c co events)
        × ((run c co events).height ≡ co.height)
        × ((run c co events).vs ≡ co.vs)
  run-CoordinatorInv co [] i = (i, refl, refl)
  run-CoordinatorInv co (e ∷ events) i =
      let k = step-Keeps co e i in
      let (j, h, v) = run-CoordinatorInv (step c co e).0 events k.inv in
      (j, h ∙ k.same_height, v ∙ k.same_vs)

pub new_coordinator-Inv :
    (c : Crypto) (height seed : ℕ) (vs : ValidatorSet)
    → IsValid vs
    → CoordinatorInv c (new_coordinator height seed vs)
unfolding new_coordinator
new_coordinator-Inv c height seed vs valid = record {
  valid = valid;
  small = omega arith;
  holds = (refl, refl, refl);
  lock = tt;
}

-- In the committed phase no event, valid or not, changes the coordinator.
committed_final :
    (c : Crypto) (co : Coordinator) (e : Event) → co.phase ≡ committed → (step c co e).0 ≡ co
unfolding step submit_proposal submit_prevote submit_precommit fire_timeout
committed_final c co (propose block_hash proof) h = ground arith
committed_final c co (send_prevote vote) h = ground arith
committed_final c co (send_precommit vote) h = ground arith
committed_final c co time_out h = ground arith

-- A coordinator of a height and a set has committed with this certificate: it is in the last phase,
-- and its proposed block has the certificate and a POLC, both of its round, which verify.
pub record Commits (c : Crypto) (vs : ValidatorSet) (height : ℕ) (co : Coordinator)
    (cert : Certificate precommit) : Type 0 where
  pub polc : Certificate prevote
  pub last_phase : co.phase ≡ committed
  pub proposed : co.proposed_block ≡ some cert.block_hash
  pub has_polc : co.polc ≡ some polc
  pub final : Proves c vs height cert cert.block_hash co.round
  pub locked_in : Proves c vs height polc cert.block_hash co.round

certificate-Commits :
    (c : Crypto) (co : Coordinator) (cert : Certificate precommit)
    → CoordinatorInv c co
    → co.final_cert ≡ some cert
    → Commits c co.vs co.height co cert
certificate-Commits c co cert i has = go co.phase refl
  where
    go : (ph : Phase) → co.phase ≡ ph → Commits c co.vs co.height co cert
    go awaiting_proposal e = let f = (subst (Holds c co) e i.holds).2 in absurd (cc)
    go prevoting e = let f = (subst (Holds c co) e i.holds).6 in absurd (cc)
    go precommitting e = let f = (subst (Holds c co) e i.holds).8 in absurd (cc)
    go committed e =
        let (block, polc, cert', proposed, has_polc, locked_in, has', final) =
          subst (Holds c co) e i.holds in
        let same : cert' ≡ cert = cc (sym has' ∙ has) in
        let for_block : cert.block_hash ≡ block =
          sym (ap (λ (x : Certificate precommit). x.block_hash) same) ∙ final.for_block in
        record {
          polc = polc;
          last_phase = e;
          proposed = proposed ∙ ap some (sym for_block);
          has_polc = has_polc;
          final =
              subst (λ x. Proves c co.vs co.height x x.block_hash co.round) same
                (subst (λ b. Proves c co.vs co.height cert' b co.round) (sym final.for_block)
                  final);
          locked_in =
              subst (λ b. Proves c co.vs co.height polc b co.round) (sym for_block) locked_in;
        }

-- Given that signatures aggregate: whatever a new coordinator of a valid set is sent, if it then
-- holds a certificate, it is in the committed phase, the certificate is of its proposed block, and
-- the certificate and the POLC that it holds both verify, for that block, at the height and the final
-- round of the coordinator.
pub run-Commits :
    (c : Crypto) (height seed : ℕ) (vs : ValidatorSet) (events : List Event)
    (cert : Certificate precommit)
    → Aggregates c
    → IsValid vs
    → (run c (new_coordinator height seed vs) events).final_cert ≡ some cert
    → Commits c vs height (run c (new_coordinator height seed vs) events) cert
unfolding new_coordinator
run-Commits c height seed vs events cert aggregates valid has =
    let co = run c (new_coordinator height seed vs) events in
    let (i, at_height, of_vs) =
      run-CoordinatorInv c aggregates (new_coordinator height seed vs) events
        (new_coordinator-Inv c height seed vs valid) in
    subst₂ (λ w h. Commits c w h co cert) of_vs at_height (certificate-Commits c co cert i has)

-- Given that signatures aggregate: two coordinators of one valid set and one height that commit, each
-- with a seed and a run of its own, hold certificates whose common signers have more than a third
-- of the stake, if twice the total stake fits 64 bits and the bitmaps 128.
pub commits-share :
    (c : Crypto) (height seed seed' : ℕ) (vs : ValidatorSet) (events events' : List Event)
    (p q : Certificate precommit)
    → Aggregates c
    → IsValid vs
    → vs.total_stake * 2 < u64_mod
    → p.signer_bitmap < 2 ^ 128
    → q.signer_bitmap < 2 ^ 128
    → (run c (new_coordinator height seed vs) events).final_cert ≡ some p
    → (run c (new_coordinator height seed' vs) events').final_cert ≡ some q
    → vs.total_stake < 3 * shared_stake p.signer_bitmap q.signer_bitmap 0 vs.validators
commits-share c height seed seed' vs events events' p q aggregates valid small fits_p fits_q hp hq =
    verify-shares c p q vs valid small fits_p fits_q
      (run-Commits c height seed vs events p aggregates valid hp).final.verifies
      (run-Commits c height seed' vs events' q aggregates valid hq).final.verifies
