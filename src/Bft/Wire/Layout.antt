-- ===== src/Bft/Wire/Layout.antt =====
-- Records of fields of fixed widths, as bytes.
use Prim.Native.Nat.{◌<◌}
use native.Mathlib.Nat.{pow-suc}
use aii.Base.{
  ℕ, ◌+◌, ◌*◌, ◌^◌, ◌≡◌, ap, ap₂, sym, ◌∙◌, subst, List, [], ◌∷◌, ◌++◌, arith, length, take, drop,
  All, length-append, take-length_append, drop-length_append, to_be_bytes, from_be_bytes,
  from_be_bytes_acc, length-to_be_bytes, from_be_bytes-to_be_bytes, to_be_bytes-from_be_bytes,
}
use aii.Base.Slices.{take-drop, All-take, All-drop, split_lengths, drop-drop}

-- The number that the n bytes from a position on spell.
abbrev pub field : List ℕ → ℕ → ℕ → ℕ
field bytes cur n = from_be_bytes (take n (drop cur bytes))

-- Fields, each a width and a value, and what stands after them.
abbrev pub frame : List (ℕ × ℕ) → List ℕ → List ℕ
frame [] tail = tail
frame ((n, x) ∷ fields) tail = to_be_bytes n x ++ frame fields tail

abbrev pub width : List (ℕ × ℕ) → ℕ
width [] = 0
width ((n, x) ∷ fields) = n + width fields

abbrev pub FieldsFit : List (ℕ × ℕ) → Type 0
FieldsFit [] = Unit
FieldsFit ((n, x) ∷ fields) = (x < 256 ^ n) × FieldsFit fields

-- The bytes from a position on give the fields.
abbrev pub Reads : ℕ → List (ℕ × ℕ) → List ℕ → Type 0
Reads cur [] bytes = Unit
Reads cur ((n, x) ∷ fields) bytes = (field bytes cur n ≡ x) × Reads (cur + n) fields bytes

pub take_field : (n x : ℕ) (ys : List ℕ) → take n (to_be_bytes n x ++ ys) ≡ to_be_bytes n x
take_field n x ys =
    ap (λ k. take k (to_be_bytes n x ++ ys)) (sym (length-to_be_bytes n x))
    ∙ take-length_append (to_be_bytes n x) ys

pub drop_field : (n x : ℕ) (ys : List ℕ) → drop n (to_be_bytes n x ++ ys) ≡ ys
drop_field n x ys =
    ap (λ k. drop k (to_be_bytes n x ++ ys)) (sym (length-to_be_bytes n x))
    ∙ drop-length_append (to_be_bytes n x) ys

pub length-frame :
    (fields : List (ℕ × ℕ)) (tail : List ℕ)
    → length (frame fields tail) ≡ width fields + length tail
length-frame [] tail = omega arith
length-frame ((n, x) ∷ fields) tail = omega (
  arith,
  length-append (to_be_bytes n x) (frame fields tail),
  length-to_be_bytes n x,
  length-frame fields tail,
)

-- What is written is read back, with any bytes after it.
pub frame-Reads :
    (cur : ℕ) (fields : List (ℕ × ℕ)) (tail bytes : List ℕ)
    → FieldsFit fields
    → drop cur bytes ≡ frame fields tail
    → Reads cur fields bytes × (drop (cur + width fields) bytes ≡ tail)
frame-Reads cur [] tail bytes fit e = (tt, ap (λ k. drop k bytes) (omega arith) ∙ e)
frame-Reads cur ((n, x) ∷ fields) tail bytes fit e =
    let value : field bytes cur n ≡ x =
      ap (λ xs. from_be_bytes (take n xs)) e
      ∙ ap from_be_bytes (take_field n x (frame fields tail))
      ∙ from_be_bytes-to_be_bytes n x fit.0 in
    let next : drop (cur + n) bytes ≡ frame fields tail =
      drop-drop cur n bytes ∙ ap (drop n) e ∙ drop_field n x (frame fields tail) in
    let (rest, after) = frame-Reads (cur + n) fields tail bytes fit.1 next in
    ((value, rest), ap (λ k. drop k bytes) (omega arith) ∙ after)

from_be_bytes_acc-lt :
    (acc k : ℕ) (bs : List ℕ)
    → acc < k
    → All (λ b. b < 256) bs
    → from_be_bytes_acc acc bs < k * 256 ^ length bs
unfolding from_be_bytes_acc
from_be_bytes_acc-lt acc k [] h all = omega arith
from_be_bytes_acc-lt acc k (b ∷ bs) h all =
    let low = all.0 in
    let ih = from_be_bytes_acc-lt (acc * 256 + b) (k * 256) bs (omega (arith, low)) all.1 in
    let q = 256 ^ length bs in
    let power : 256 ^ length (b ∷ bs) ≡ q * 256 = omega (arith, pow-suc 256 (length bs)) in
    let spread : k * (q * 256) ≡ k * 256 * q = grind arith in rw (power, spread) ih

from_be_bytes-lt :
    (n : ℕ) (bs : List ℕ) → length bs ≡ n → All (λ b. b < 256) bs → from_be_bytes bs < 256 ^ n
unfolding from_be_bytes
from_be_bytes-lt n bs h all =
    let low = from_be_bytes_acc-lt 0 1 bs (omega arith) all in
    let pow = ap (λ k. 256 ^ k) h in omega (arith, low, pow)

-- What is read is what was written.
pub Reads-frame :
    (cur : ℕ) (fields : List (ℕ × ℕ)) (bytes : List ℕ) (k : ℕ)
    → All (λ b. b < 256) bytes
    → length (drop cur bytes) ≡ width fields + k
    → Reads cur fields bytes
    → FieldsFit fields × (drop cur bytes ≡ frame fields (drop (cur + width fields) bytes))
Reads-frame cur [] bytes k all count reads = (tt, ap (λ j. drop j bytes) (omega arith))
Reads-frame cur ((n, x) ∷ fields) bytes k all count reads =
    let here = drop cur bytes in
    let (l, r) = split_lengths n (width fields + k) here (omega (arith, count)) in
    let small = All-take _ n here (All-drop _ cur bytes all) in
    let next = drop-drop cur n bytes in
    let (fits, rest) = Reads-frame (cur + n) fields bytes k all (ap length next ∙ r) reads.1 in
    let bound : x < 256 ^ n =
      subst (λ v. v < 256 ^ n) reads.0 (from_be_bytes-lt n (take n here) l small) in
    let front : take n here ≡ to_be_bytes n x =
      sym (to_be_bytes-from_be_bytes n (take n here) l small) ∙ ap (to_be_bytes n) reads.0 in
    (
      (bound, fits),
      take-drop n here
          ∙ ap₂ (λ xs ys. xs ++ ys) front
              (sym next ∙ rest ∙ ap (λ j. frame fields (drop j bytes)) (omega arith)),
    )
