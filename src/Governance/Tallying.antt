-- ===== src/Governance/Tallying.antt =====
-- A tally: when it decides, what it decides, and that a decision is final.
use aii.Base.{
  ℕ, ◌*◌, ◌<◌, ◌≤◌, ◌≡◌, ◌↔◌, refl, ap, sym, ◌∙◌, subst, inl, inr, some, ◌++◌, ok, err, panic,
  arith, Bool, true, false, ltb, to_be_bytes, Bool-cases, Result-cases, saturating_mul, u256_mod,
}
use aii.Storage.{KvBackend, Bytes, meta}
use aii.Governance.{
  ProposalStatus, passed, is_final, Proposal, GovernanceError, from_storage, prop_key, tally_key,
  encode_proposal, outcome,
}
use aii.Governance.Calls.{get_proposal, read_totals, finalise, tally_proposal, tally}
use aii.Governance.Records.{Fits, status_byte-lt, put-get_proposal}

-- A proposal is passed if more than two thirds of the bonded stake are for it.
outcome_iff :
    (in_favour total : ℕ)
    → in_favour * 3 < u256_mod
    → total * 2 < u256_mod
    → (outcome in_favour total ≡ passed) ↔ ((0 < total) × (total * 2 < in_favour * 3))
unfolding outcome
outcome_iff in_favour total small small' =
    let a : saturating_mul u256_mod total 2 ≡ total * 2 = ground (arith, small') in
    let b : saturating_mul u256_mod in_favour 3 ≡ in_favour * 3 = ground (arith, small) in
    rw (a, b) (ground arith)

outcome-is_final : (in_favour total : ℕ) → is_final (outcome in_favour total) ≡ true
unfolding outcome
outcome-is_final in_favour total = ground arith

module _ (is_utf8 : Bytes → Bool) {S : Type 0} (kv : KvBackend S) where
  -- The writes of a tally that succeed leave the proposal with its decision.
  finalise-stores :
      (s s' : S) (id : ℕ) (p : Proposal) (totals : (ℕ × ℕ) × ℕ) (st : ProposalStatus)
      → Fits is_utf8 p
      → finalise is_utf8 kv s id p totals ≡ (s', ok st)
      → (st ≡ outcome totals.0.0 totals.1)
        × (get_proposal is_utf8 kv s' id ≡ ok (some (record p { status = st })))
  unfolding finalise
  finalise-stores s s' id p totals st f h =
      let decided = outcome totals.0.0 totals.1 in
      let q : Proposal = record p { status = decided } in
      let bytes = to_be_bytes 32 totals.0.0 ++ to_be_bytes 32 totals.0.1 in
      let w = f.widths in
      let fits : Fits is_utf8 q = record {
        widths = (w.0, (w.1.0, (status_byte-lt decided, w.1.1.1)));
        text = f.text;
      } in
      elim (Result-cases (kv.put s meta (prop_key id) (encode_proposal q))) [
        | inl (s1, first) ↦ elim (Result-cases (kv.put s1 meta (tally_key id) bytes)) [
          | inl (s2, second) ↦
              let end : finalise is_utf8 kv s id p totals ≡ (s2, ok decided) =
                rw (finalise, first, second) refl in
              let same : (s2, ok decided) ≡ (s', ok st) = sym end ∙ h in
              let at : s2 ≡ s' = ap (λ o. o.0) same in
              let is : st ≡ decided = cc (ap (λ o. o.1) same) in
              let stored = put-get_proposal is_utf8 kv s s1 s2 id id q bytes fits first second in
              (
                is,
                subst (λ x. get_proposal is_utf8 kv x id ≡ ok (some (record p { status = st }))) at
                    (stored ∙ ap (λ x. ok (some (record p { status = x }))) (sym is)),
              )
          | inr (inl (e, failed)) ↦
              let end : finalise is_utf8 kv s id p totals ≡ (s1, err (from_storage e)) =
                rw (finalise, first, failed) refl in
              absurd (cc (ap (λ o. o.1) (sym end ∙ h)))
          | inr (inr failed) ↦
              let end : finalise is_utf8 kv s id p totals ≡ (s1, panic) =
                rw (finalise, first, failed) refl in
              absurd (cc (ap (λ o. o.1) (sym end ∙ h)))
        ]
        | inr (inl (e, failed)) ↦
            let end : finalise is_utf8 kv s id p totals ≡ (s, err (from_storage e)) =
              rw (finalise, failed) refl in
            absurd (cc (ap (λ o. o.1) (sym end ∙ h)))
        | inr (inr failed) ↦
            let end : finalise is_utf8 kv s id p totals ≡ (s, panic) = rw (finalise, failed) refl in
            absurd (cc (ap (λ o. o.1) (sym end ∙ h)))
      ]

  -- A tally of a proposal that is decided reads it and changes nothing.
  decided-stays :
      (s t : S) (id height : ℕ) (p : Proposal)
      → get_proposal is_utf8 kv s id ≡ ok (some p)
      → is_final p.status ≡ true
      → tally is_utf8 kv s t id height ≡ (s, ok p.status)
  unfolding tally tally_proposal
  decided-stays s t id height p found final = rw (tally, found, tally_proposal, final) refl

  tally-early :
      (s t : S) (id height : ℕ) (p : Proposal)
      → get_proposal is_utf8 kv s id ≡ ok (some p)
      → is_final p.status ≡ false
      → height < p.voting_ends_at
      → tally is_utf8 kv s t id height ≡ (s, ok p.status)
  unfolding tally tally_proposal
  tally-early s t id height p found undecided early =
      let test : ltb height p.voting_ends_at ≡ true = ground (arith, early) in
      rw (tally, found, tally_proposal, undecided, test) refl

  tally-finalises :
      (s t : S) (id height : ℕ) (p : Proposal) (totals : (ℕ × ℕ) × ℕ)
      → get_proposal is_utf8 kv s id ≡ ok (some p)
      → is_final p.status ≡ false
      → p.voting_ends_at ≤ height
      → read_totals is_utf8 kv s t id ≡ ok totals
      → tally is_utf8 kv s t id height ≡ finalise is_utf8 kv s id p totals
  unfolding tally tally_proposal
  tally-finalises s t id height p totals found undecided late read =
      let test : ltb height p.voting_ends_at ≡ false = ground (arith, late) in
      rw (tally, found, tally_proposal, undecided, test, read) refl

  stuck-err :
      (s t : S) (id height : ℕ) (p : Proposal) (e : GovernanceError)
      → get_proposal is_utf8 kv s id ≡ ok (some p)
      → is_final p.status ≡ false
      → ltb height p.voting_ends_at ≡ false
      → read_totals is_utf8 kv s t id ≡ err e
      → tally is_utf8 kv s t id height ≡ (s, err e)
  unfolding tally tally_proposal
  stuck-err s t id height p e found undecided late failed =
      rw (tally, found, tally_proposal, undecided, late, failed) refl

  stuck-panic :
      (s t : S) (id height : ℕ) (p : Proposal)
      → get_proposal is_utf8 kv s id ≡ ok (some p)
      → is_final p.status ≡ false
      → ltb height p.voting_ends_at ≡ false
      → read_totals is_utf8 kv s t id ≡ panic
      → tally is_utf8 kv s t id height ≡ (s, panic)
  unfolding tally tally_proposal
  stuck-panic s t id height p found undecided late failed =
      rw (tally, found, tally_proposal, undecided, late, failed) refl

  -- For a stored proposal whose fields fit and that is still undecided: from the height where its window
  -- closes on, a tally that succeeds, on votes and a stake table that can be read, passes it just if some
  -- stake is bonded and the votes in favour are more than two thirds of what is bonded, where neither
  -- product reaches 2 ^ 256; and the proposal that is read afterwards is the same one with this decision.
  pub tally-passed_iff :
      (s s' t : S) (id height : ℕ) (p : Proposal) (in_favour against total : ℕ)
      (st : ProposalStatus)
      → get_proposal is_utf8 kv s id ≡ ok (some p)
      → Fits is_utf8 p
      → is_final p.status ≡ false
      → p.voting_ends_at ≤ height
      → read_totals is_utf8 kv s t id ≡ ok ((in_favour, against), total)
      → in_favour * 3 < u256_mod
      → total * 2 < u256_mod
      → tally is_utf8 kv s t id height ≡ (s', ok st)
      → ((st ≡ passed) ↔ ((0 < total) × (total * 2 < in_favour * 3)))
        × (get_proposal is_utf8 kv s' id ≡ ok (some (record p { status = st })))
  tally-passed_iff s s' t id height p in_favour against total st found f undecided late read small
        small' h =
      let end =
        tally-finalises s t id height p ((in_favour, against), total) found undecided late read in
      let (is, stored) =
        finalise-stores s s' id p ((in_favour, against), total) st f (sym end ∙ h) in
      (
        subst (λ x. (x ≡ passed) ↔ ((0 < total) × (total * 2 < in_favour * 3))) (sym is)
            (outcome_iff in_favour total small small'),
        stored,
      )

  -- The decision of a tally is final: if a tally of a stored proposal whose fields fit succeeds with
  -- another status than undecided, every later tally, at any height and with any stake table, gives the same
  -- status and leaves the store as it is.
  pub tally_final :
      (s s' t t' : S) (id height height' : ℕ) (p : Proposal) (st : ProposalStatus)
      → get_proposal is_utf8 kv s id ≡ ok (some p)
      → Fits is_utf8 p
      → tally is_utf8 kv s t id height ≡ (s', ok st)
      → is_final st ≡ true
      → tally is_utf8 kv s' t' id height' ≡ (s', ok st)
  tally_final s s' t t' id height height' p st found f h final =
      let unchanged : tally is_utf8 kv s t id height ≡ (s, ok p.status)
          → tally is_utf8 kv s' t' id height' ≡ (s', ok st) =
        λ e.
          let same = sym e ∙ h in
          let at : s ≡ s' = ap (λ o. o.0) same in
          let is : p.status ≡ st = cc (ap (λ o. o.1) same) in
          let stays : tally is_utf8 kv s t' id height' ≡ (s, ok p.status) =
            decided-stays s t' id height' p found (ap is_final is ∙ final) in
          subst (λ x. tally is_utf8 kv x t' id height' ≡ (x, ok st)) at
            (stays ∙ ap (λ x. (s, ok x)) is) in
      elim (Bool-cases (is_final p.status)) [
        | inl done ↦ unchanged (decided-stays s t id height p found done)
        | inr undecided ↦ elim (Bool-cases (ltb height p.voting_ends_at)) [
          | inl early ↦
              unchanged (tally-early s t id height p found undecided (ground (arith, early)))
          | inr late ↦ elim (Result-cases (read_totals is_utf8 kv s t id)) [
            | inl (totals, read) ↦
                let end =
                  tally-finalises s t id height p totals found undecided (ground (arith, late))
                    read in
                let (_, stored) = finalise-stores s s' id p totals st f (sym end ∙ h) in
                decided-stays s' t' id height' (record p { status = st }) stored final
            | inr (inl (e, failed)) ↦ absurd (
                cc (
                  ap (λ o. o.1)
                    (sym (stuck-err s t id height p e found undecided late failed) ∙ h)))
            | inr (inr failed) ↦ absurd (
                cc (
                  ap (λ o. o.1)
                    (sym (stuck-panic s t id height p found undecided late failed) ∙ h)))
          ]
        ]
      ]
