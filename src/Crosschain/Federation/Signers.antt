-- ===== src/Crosschain/Federation/Signers.antt =====
-- The number of ones in a bitmap is the number of keys it selects, if all of its bits are in range.
use native.Mathlib.Nat.{pow-suc}
use aii.Base.{ℕ, zero, suc, ◌^◌, ◌/◌, ◌≤◌, ◌<◌, ◌≡◌, refl, ap, ◌∙◌, List, [], ◌∷◌, arith, length}
use aii.Base.Bits.{bit, bit-suc, count_ones}
use aii.Crosschain.Federation.{selected}

selected-suc : (b i : ℕ) (pks : List ℕ) → selected b (suc i) pks ≡ selected (b / 2) i pks
unfolding selected
selected-suc b i [] = refl
selected-suc b i (pk ∷ pks) = rw (bit-suc b i, selected-suc b (suc i) pks) refl

count_ones-zero : (w : ℕ) → count_ones w 0 ≡ 0
unfolding count_ones
count_ones-zero zero = refl
count_ones-zero (suc w) = omega (arith, count_ones-zero w)

pub count_ones-selected :
    (w b : ℕ) (pks : List ℕ)
    → length pks ≤ w
    → b < 2 ^ length pks
    → count_ones w b ≡ length (selected b 0 pks)
unfolding count_ones selected bit
count_ones-selected w b [] le lt = ap (count_ones w) (omega arith) ∙ count_ones-zero w
count_ones-selected zero b (pk ∷ pks) le lt = absurd (omega arith)
count_ones-selected (suc w) b (pk ∷ pks) le lt =
    let rest =
      count_ones-selected w (b / 2) pks (omega arith) (omega (arith, pow-suc 2 (length pks))) in
    ground (arith, rest, selected-suc b 0 pks)
