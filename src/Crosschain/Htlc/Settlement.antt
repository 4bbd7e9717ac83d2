-- ===== src/Crosschain/Htlc/Settlement.antt =====
-- The life of a contract: whatever the parties try, in whatever order, the first attempt that meets
-- its condition settles the contract, and no other succeeds.
use aii.Base.{
  ℕ, suc, ◌≡◌, refl, List, [], ◌∷◌, Result, ok, err, panic, arith, true, false, Bool, leb, ◌==◌,
  if◌then◌else◌, Bool-cases, inl, inr,
}
use aii.Crypto.{Crypto}
use aii.Crosschain.Htlc.{
  Htlc, not_locked, wrong_preimage, too_early, HtlcState, HtlcError, locked, claimed, refunded,
  claim, refund, Attempt, claim_with, refund_at, try_one, try_all,
}

-- Does an attempt meet the condition of the contract, apart from its state?
abbrev pub is_due : Crypto → Htlc → Attempt → Bool
is_due c h (claim_with preimage) = c.keccak256 preimage == h.secret_hash
is_due c h (refund_at now) = leb h.timeout now

-- The state that an attempt leads to.
abbrev pub goal_of : Attempt → HtlcState
goal_of (claim_with preimage) = claimed
goal_of (refund_at now) = refunded

-- The state after some attempts on a locked contract: that of the first one that is due.
abbrev pub settled : Crypto → Htlc → List Attempt → HtlcState
settled c h [] = locked
settled c h (a ∷ attempts) =
    let rest = settled c h attempts in if is_due c h a then goal_of a else rest

-- How many attempts succeed.
abbrev pub successes : List (Result HtlcError (Unit {0})) → ℕ
successes [] = 0
successes (ok _ ∷ replies) = suc (successes replies)
successes (err _ ∷ replies) = successes replies
successes (panic ∷ replies) = successes replies

-- 1 for a contract that is settled.
abbrev pub closed : HtlcState → ℕ
closed locked = 0
closed claimed = 1
closed refunded = 1

module _ (c : Crypto) (h : Htlc) where
  try_one-closed :
      (a : Attempt) → closed h.state ≡ 1 → try_one c h a ≡ (h, err (not_locked h.state))
  unfolding try_one claim refund
  try_one-closed (claim_with p) e = ground arith
  try_one-closed (refund_at now) e = ground arith

  try_one-due :
      (a : Attempt)
      → h.state ≡ locked
      → is_due c h a ≡ true
      → try_one c h a ≡ (record h { state = goal_of a }, ok tt)
  unfolding try_one claim refund
  try_one-due (claim_with p) e due = ground arith
  try_one-due (refund_at now) e due = ground arith

  try_one-early :
      (a : Attempt)
      → h.state ≡ locked
      → is_due c h a ≡ false
      → (x : HtlcError) × (try_one c h a ≡ (h, err x))
  unfolding try_one claim refund
  try_one-early (claim_with p) e early = (wrong_preimage, ground arith)
  try_one-early (refund_at now) e early = (too_early now h.timeout, ground arith)

  goal_of-closed : (a : Attempt) → closed (goal_of a) ≡ 1
  goal_of-closed (claim_with p) = refl
  goal_of-closed (refund_at now) = refl

module _ (c : Crypto) where
  try_all-closed :
      (h : Htlc) (attempts : List Attempt)
      → closed h.state ≡ 1
      → ((try_all c h attempts).0 ≡ h) × (successes (try_all c h attempts).1 ≡ 0)
  try_all-closed h [] e = (refl, refl)
  try_all-closed h (a ∷ attempts) e =
      ground (arith, try_one-closed c h a e, try_all-closed h attempts e)

  -- On a locked contract every list of attempts changes nothing but the state, which becomes that of
  -- the first attempt that meets the contract's condition; one attempt succeeds if there is such an
  -- attempt, and none otherwise.
  pub try_all-settled :
      (h : Htlc) (attempts : List Attempt)
      → h.state ≡ locked
      → ((try_all c h attempts).0 ≡ record h { state = settled c h attempts })
        × (successes (try_all c h attempts).1 ≡ closed (settled c h attempts))
  try_all-settled h [] e = ground arith
  try_all-settled h (a ∷ attempts) e = elim (Bool-cases (is_due c h a)) [
    | inl due ↦
        let done : Htlc = record h { state = goal_of a } in
        ground (
          arith,
          try_one-due c h a e due,
          goal_of-closed c h a,
          try_all-closed done attempts (goal_of-closed c h a),
        )
    | inr early ↦
        let (x, refused) = try_one-early c h a e early in
        ground (arith, refused, try_all-settled h attempts e)
  ]
