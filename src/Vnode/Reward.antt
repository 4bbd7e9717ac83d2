-- ===== src/Vnode/Reward.antt =====
-- `split_reward`: nothing is lost, even when the product wraps.
use aii.Base.{
  ℕ, ◌+◌, ◌-◌, ◌*◌, ◌/◌, ◌%◌, ◌≤◌, ◌<◌, ◌≡◌, ◌⊎◌, inl, inr, Bool-cases, ltb, arith, u256_mod,
}
use aii.Vnode.{split_reward}

-- For a reward below 2 ^ 256, the two shares of `split_reward` add up to the reward, even if the
-- product wraps; the share of the validator is at most 80 hundredths of it, and is 80 hundredths
-- rounded down if the product does not wrap, else it is less than a hundredth of 2 ^ 256.
split_reward-sum :
    (total : ℕ)
    → total < u256_mod
    → let (validator, treasury) = split_reward total in
      (validator + treasury ≡ total)
      × (100 * validator ≤ 80 * total)
      × (((total * 80 < u256_mod) × (validator ≡ total * 80 / 100))
          ⊎ ((u256_mod ≤ total * 80) × (100 * validator < u256_mod)))
unfolding split_reward
split_reward-sum total small =
    let share = total * 80 % u256_mod / 100 in
    let part : 100 * share ≤ 80 * total = omega (arith, small) in
    let sum : share + (total + (u256_mod - share)) % u256_mod ≡ total =
      omega (arith, small, part) in
    let exact : ((total * 80 < u256_mod) × (share ≡ total * 80 / 100))
        ⊎ ((u256_mod ≤ total * 80) × (100 * share < u256_mod)) =
      elim (Bool-cases (ltb (total * 80) u256_mod)) [
        | inl fits ↦ inl (ground (arith, fits), ground (arith, fits))
        | inr wraps ↦ inr (ground (arith, wraps), omega arith)
      ] in
    (sum, part, exact)
