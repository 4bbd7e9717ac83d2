-- ===== src/Base/Bits.antt =====
-- Signer bitmaps: one bit of a word, `|= 1 << i`, `ilog2` and `count_ones`.
use Prim.Native.Nat.{ℕ, zero, suc, ◌+◌, ◌*◌, ◌/◌, ◌%◌, ◌^◌, ◌≤◌, ◌<◌, max, bit_or}
use Prim.Native.Nat.{digits, bit_or-bitwise}
use mathlib.Core.Path.{◌≡◌, refl, ap, sym, ◌∙◌}
use mathlib.Core.Logic.{◌↔◌, inl, inr}
use mathlib.Core.Bool.{Bool, true, false, ◌&&◌}
use native.Mathlib.Omega.{arith}
use native.Mathlib.Nat.{pow-suc, one-le-pow, le_refl, mul_comm, div-div-eq-div-mul}
use aii.Base.Tests.{◌==◌, ◌!=◌, ltb, leb, ltb→lt, if◌then◌else◌, Bool-cases}

-- `(bitmap >> i) & 1 == 1`, with `>> i` as the division that it is.
unfoldable pub bit : ℕ → ℕ → Bool
bit b i = (b / 2 ^ i) % 2 == 1

-- The native `bit_or` by its lowest digit, without the fuel of its definition.
abbrev or_digits : ℕ → ℕ → ℕ → ℕ
or_digits = digits (λ y. y) max

or_digits-fuel : (k l b c : ℕ) → b ≤ k → b ≤ l → or_digits k b c ≡ or_digits l b c
or_digits-fuel zero zero b c p q = refl
or_digits-fuel zero (suc l) zero c p q = refl
or_digits-fuel (suc k) zero zero c p q = refl
or_digits-fuel (suc k) (suc l) zero c p q = refl
or_digits-fuel zero _ (suc b) c p q = absurd (omega arith)
or_digits-fuel (suc k) zero (suc b) c p q = absurd (omega arith)
or_digits-fuel (suc k) (suc l) (suc b) c p q =
    let half = or_digits-fuel k l (suc b / 2) (c / 2) (omega arith) (omega arith) in
    ap (λ (t : ℕ). t * 2 + max (suc b % 2) (c % 2)) half

pub bit_or_lowest : (b c : ℕ) → bit_or b c ≡ bit_or (b / 2) (c / 2) * 2 + max (b % 2) (c % 2)
bit_or_lowest zero c = omega (arith, bit_or-bitwise 0 c, bit_or-bitwise 0 (c / 2))
bit_or_lowest (suc b) c = omega (
  arith,
  bit_or-bitwise (suc b) c,
  bit_or-bitwise (suc b / 2) (c / 2),
  or_digits-fuel b (suc b / 2) (suc b / 2) (c / 2) (omega arith) (le_refl _),
)

bit_or-zero_below : (k b : ℕ) → b < k → bit_or b 0 ≡ b
bit_or-zero_below zero b h = absurd (omega arith)
bit_or-zero_below (suc k) zero h = refl
bit_or-zero_below (suc k) (suc b) h =
    omega (arith, bit_or_lowest (suc b) 0, bit_or-zero_below k (suc b / 2) (omega arith))

bit_or-zero : (b : ℕ) → bit_or b 0 ≡ b
bit_or-zero b = bit_or-zero_below (suc b) b (omega arith)

div_pow-suc : (b i : ℕ) → b / 2 ^ suc i ≡ b / 2 / 2 ^ i
div_pow-suc b i = rw (pow-suc 2 i, mul_comm (2 ^ i) 2) (sym (div-div-eq-div-mul b 2 (2 ^ i)))

-- The bit above the lowest is a bit of the half.
pub bit-suc : (b i : ℕ) → bit b (suc i) ≡ bit (b / 2) i
unfolding bit
bit-suc b i = ap (λ (t : ℕ). t % 2 == 1) (div_pow-suc b i)

bit_or_one_half : (b : ℕ) → bit_or b 1 / 2 ≡ b / 2
bit_or_one_half b = omega (arith, bit_or_lowest b 1, bit_or-zero (b / 2))

two_pow_half : (i : ℕ) → 2 ^ suc i / 2 ≡ 2 ^ i
two_pow_half i = omega (arith, pow-suc 2 i)

bit_or_high_half : (b i : ℕ) → bit_or b (2 ^ suc i) / 2 ≡ bit_or (b / 2) (2 ^ i)
bit_or_high_half b i = omega (
  arith,
  pow-suc 2 i,
  bit_or_lowest b (2 ^ suc i),
  ap (λ (t : ℕ). bit_or (b / 2) t) (two_pow_half i),
)

-- Setting bit i sets it, and leaves every other bit.
pub bit-set_bit : (b i j : ℕ) → bit (bit_or b (2 ^ i)) j ≡ (if i == j then true else bit b j)
unfolding bit
bit-set_bit b zero zero = ground (arith, bit_or_lowest b 1)
bit-set_bit b zero (suc j) =
    bit-suc (bit_or b 1) j
    ∙ ap (λ (t : ℕ). bit t j) (bit_or_one_half b)
    ∙ ground (arith, bit-suc b j)
bit-set_bit b (suc i) zero = ground (arith, bit_or_lowest b (2 ^ suc i), pow-suc 2 i)
bit-set_bit b (suc i) (suc j) =
    bit-suc (bit_or b (2 ^ suc i)) j
    ∙ ap (λ (t : ℕ). bit t j) (bit_or_high_half b i)
    ∙ bit-set_bit (b / 2) i j
    ∙ ground (arith, bit-suc b j)

pub bit-zero : (i : ℕ) → bit 0 i ≡ false
unfolding bit
bit-zero zero = refl
bit-zero (suc i) = bit-suc 0 i ∙ bit-zero i

-- Setting a bit below n keeps the word below 2 ^ n.
pub set_bit-lt : (n i b : ℕ) → i < n → b < 2 ^ n → bit_or b (2 ^ i) < 2 ^ n
set_bit-lt zero i b h k = absurd (omega arith)
set_bit-lt (suc n) zero b h k = omega (arith, pow-suc 2 n, bit_or_lowest b 1, bit_or-zero (b / 2))
set_bit-lt (suc n) (suc i) b h k =
    let below : b / 2 < 2 ^ n = omega (arith, pow-suc 2 n) in
    omega (arith, pow-suc 2 n, bit_or_high_half b i, set_bit-lt n i (b / 2) (omega arith) below)

-- `ilog2` of a word of w bits that is not zero: the place of its highest bit.
unfoldable pub ilog2 : ℕ → ℕ → ℕ
ilog2 zero b = 0
ilog2 (suc w) b = if ltb b 2 then 0 else suc (ilog2 w (b / 2))

pub ilog2-lt : (w b n : ℕ) → b < 2 ^ w → 0 < b → ilog2 w b < n → b < 2 ^ n
unfolding ilog2
ilog2-lt zero b n h p q = absurd (omega arith)
ilog2-lt (suc w) b zero h p q = absurd (omega arith)
ilog2-lt (suc w) b (suc n) h p q = elim (Bool-cases (ltb b 2)) [
  | inl small ↦ omega (arith, pow-suc 2 n, one-le-pow n 2, ltb→lt b 2 small)
  | inr big ↦
      let below : ilog2 w (b / 2) < n = ground arith in
      omega
        (arith, pow-suc 2 n, ilog2-lt w (b / 2) n (omega (arith, pow-suc 2 w)) (ground arith) below)
]

pub le-ilog2 : (w b n : ℕ) → b < 2 ^ w → 0 < b → n ≤ ilog2 w b → 2 ^ n ≤ b
unfolding ilog2
le-ilog2 zero b n h p q = absurd (omega arith)
le-ilog2 (suc w) b zero h p q = omega arith
le-ilog2 (suc w) b (suc n) h p q = elim (Bool-cases (ltb b 2)) [
  | inl small ↦ absurd (ground arith)
  | inr big ↦
      let above : n ≤ ilog2 w (b / 2) = ground arith in
      omega
        (arith, pow-suc 2 n, le-ilog2 w (b / 2) n (omega (arith, pow-suc 2 w)) (ground arith) above)
]

-- The test that no bit lies at place n or above.
pub members_iff : (w b n : ℕ) → b < 2 ^ w → ((b != 0 && leb n (ilog2 w b)) ≡ false) ↔ (b < 2 ^ n)
members_iff w b n fits = (
  λ h. ground (arith, ilog2-lt w b n fits, one-le-pow n 2),
  λ h. ground (arith, le-ilog2 w b n fits),
)

-- `count_ones` of a word of w bits.
unfoldable pub count_ones : ℕ → ℕ → ℕ
count_ones zero b = 0
count_ones (suc w) b = b % 2 + count_ones w (b / 2)
