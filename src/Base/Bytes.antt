-- ===== src/Base/Bytes.antt =====
-- Big-endian bytes: reading back what was written, and splitting fields of known length.
use Prim.Native.Nat.{ℕ, zero, suc, ◌+◌, ◌*◌, ◌/◌, ◌%◌, ◌^◌, ◌<◌}
use mathlib.Core.Path.{◌≡◌, refl, ap, ap₂, subst, sym, ◌∙◌}
use mathlib.Core.List.{List, [], ◌∷◌, ◌++◌}
use native.Mathlib.Omega.{arith}
use native.Mathlib.Nat.{pow-suc}
use aii.Base.Lists.{All, length, length-append}
use aii.Base.Words.{length-to_be_bytes, to_be_bytes, from_be_bytes, from_be_bytes_acc}

from_be_bytes_acc-snoc :
    (acc b : ℕ) (bs : List ℕ)
    → from_be_bytes_acc acc (bs ++ b ∷ []) ≡ from_be_bytes_acc acc bs * 256 + b
unfolding from_be_bytes_acc
from_be_bytes_acc-snoc acc b [] = refl
from_be_bytes_acc-snoc acc b (x ∷ bs) = from_be_bytes_acc-snoc (acc * 256 + x) b bs

-- The n bytes of a number below 256 ^ n spell it.
pub from_be_bytes-to_be_bytes : (n x : ℕ) → x < 256 ^ n → from_be_bytes (to_be_bytes n x) ≡ x
unfolding from_be_bytes to_be_bytes
from_be_bytes-to_be_bytes zero x h = omega arith
from_be_bytes-to_be_bytes (suc n) x h = omega (
  arith,
  from_be_bytes_acc-snoc 0 (x % 256) (to_be_bytes n (x / 256)),
  from_be_bytes-to_be_bytes n (x / 256) (omega (arith, pow-suc 256 n)),
)

pub to_be_bytes-injective :
    (n x y : ℕ) → x < 256 ^ n → y < 256 ^ n → to_be_bytes n x ≡ to_be_bytes n y → x ≡ y
to_be_bytes-injective n x y p q e =
    sym (from_be_bytes-to_be_bytes n x p) ∙ ap from_be_bytes e ∙ from_be_bytes-to_be_bytes n y q

pub append_cancel {ℓ} :
    {A : Type ℓ} (xs ys us vs : List A)
    → length xs ≡ length ys
    → xs ++ us ≡ ys ++ vs
    → (xs ≡ ys) × (us ≡ vs)
append_cancel [] [] us vs h e = (refl, e)
append_cancel [] (y ∷ ys) us vs h e = absurd (omega arith)
append_cancel (x ∷ xs) [] us vs h e = absurd (omega arith)
append_cancel (x ∷ xs) (y ∷ ys) us vs h e =
    let (p, q) = append_cancel xs ys us vs (omega arith) (cc) in (cc, q)

-- A field of fixed length at the front of two byte strings that agree.
pub field_cancel :
    (n x y : ℕ) (us vs : List ℕ)
    → x < 256 ^ n
    → y < 256 ^ n
    → to_be_bytes n x ++ us ≡ to_be_bytes n y ++ vs
    → (x ≡ y) × (us ≡ vs)
field_cancel n x y us vs p q e =
    let (fields, rest) =
      append_cancel (to_be_bytes n x) (to_be_bytes n y) us vs
        (length-to_be_bytes n x ∙ sym (length-to_be_bytes n y)) e in
    (to_be_bytes-injective n x y p q fields, rest)

split_last : (b : ℕ) (bs : List ℕ) → (cs : List ℕ) × (c : ℕ) × (b ∷ bs ≡ cs ++ c ∷ [])
split_last b [] = ([], b, refl)
split_last b (b' ∷ bs) = let (cs, c, e) = split_last b' bs in (b ∷ cs, c, ap (λ xs. b ∷ xs) e)

All-last :
    (cs : List ℕ) (c : ℕ) → All (λ b. b < 256) (cs ++ c ∷ []) → All (λ b. b < 256) cs × (c < 256)
All-last [] c all = (tt, all.0)
All-last (b ∷ cs) c all = let (init, last) = All-last cs c all.1 in ((all.0, init), last)

-- Bytes are those of the number that they spell.
pub to_be_bytes-from_be_bytes :
    (n : ℕ) (bs : List ℕ)
    → length bs ≡ n
    → All (λ b. b < 256) bs
    → to_be_bytes n (from_be_bytes bs) ≡ bs
unfolding to_be_bytes from_be_bytes from_be_bytes_acc
to_be_bytes-from_be_bytes zero [] h all = refl
to_be_bytes-from_be_bytes zero (b ∷ bs) h all = absurd (omega arith)
to_be_bytes-from_be_bytes (suc n) [] h all = absurd (omega arith)
to_be_bytes-from_be_bytes (suc n) (b ∷ bs) h all =
    let (cs, c, e) = split_last b bs in
    let (init, low) = All-last cs c (subst (All (λ x. x < 256)) e all) in
    let count : length cs ≡ n =
      omega (arith, h, ap (λ xs. length xs) e, length-append cs (c ∷ [])) in
    let value = from_be_bytes_acc-snoc 0 c cs in
    let high : (from_be_bytes_acc 0 cs * 256 + c) / 256 ≡ from_be_bytes_acc 0 cs =
      omega (arith, low) in
    let digit : (from_be_bytes_acc 0 cs * 256 + c) % 256 ≡ c = omega (arith, low) in
    let front = to_be_bytes-from_be_bytes n cs count init in
    subst (λ xs. to_be_bytes (suc n) (from_be_bytes xs) ≡ xs) (sym e)
      (ap (to_be_bytes (suc n)) value
        ∙ ap₂ (λ q d. to_be_bytes n q ++ d ∷ []) high digit
        ∙ ap (λ xs. xs ++ c ∷ []) front)
