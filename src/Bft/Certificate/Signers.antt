-- ===== src/Bft/Certificate/Signers.antt =====
-- The signers of a bitmap: their stake and their keys, and what one more bit adds to them.
use mathlib.Core.List.{Perm, append-nil, append_assoc}
use mathlib.Core.List.Perm
use Prim.Native.Nat.{bit_or}
use aii.Base.{
  ℕ, zero, suc, ◌+◌, ◌^◌, ◌≤◌, ◌<◌, ◌≡◌, refl, ap, subst, some, false, List, [], ◌∷◌, ◌++◌, arith,
  if◌then◌else◌, get_elem?, u64_mod, inl, inr, Bool-cases,
}
use aii.Base.Bits.{bit, bit-set_bit}
use aii.Bft.Validators.{Validator, stakes}
use aii.Bft.Certificate.{gather}

abbrev pub signer_stake : ℕ → ℕ → List Validator → ℕ
signer_stake b i [] = 0
signer_stake b i (v ∷ vs) = (if bit b i then v.stake else 0) + signer_stake b (suc i) vs

abbrev pub signer_keys : ℕ → ℕ → List Validator → List ℕ
signer_keys b i [] = []
signer_keys b i (v ∷ vs) =
    let rest = signer_keys b (suc i) vs in if bit b i then v.bls_pubkey ∷ rest else rest

pub signer_stake-le : (b i : ℕ) (vs : List Validator) → signer_stake b i vs ≤ stakes vs
signer_stake-le b i [] = omega arith
signer_stake-le b i (v ∷ vs) = ground (arith, signer_stake-le b (suc i) vs)

-- The loop of `verify` computes the two, where the stakes fit 64 bits.
pub gather_lem :
    (b i : ℕ) (vs : List Validator) (pks : List ℕ) (s : ℕ)
    → s + stakes vs < u64_mod
    → gather b i vs pks s ≡ (pks ++ signer_keys b i vs, s + signer_stake b i vs)
unfolding gather
gather_lem b i [] pks s h = ground (arith, append-nil pks)
gather_lem b i (v ∷ vs) pks s h = elim (Bool-cases (bit b i)) [
  | inl hit ↦ ground (
    arith,
    gather_lem b (suc i) vs (pks ++ v.bls_pubkey ∷ []) (s + v.stake),
    append_assoc pks (v.bls_pubkey ∷ []) (signer_keys b (suc i) vs),
  )
  | inr miss ↦ ground (arith, gather_lem b (suc i) vs pks s)
]

pub Perm_of_eq : {xs ys : List ℕ} → xs ≡ ys → Perm xs ys
Perm_of_eq {xs} e = subst (Perm xs) e (Perm.refl xs)

-- A bit below index i says nothing of the validators from i on.
signer_stake-set_below :
    (b j i : ℕ) (vs : List Validator)
    → j < i
    → signer_stake (bit_or b (2 ^ j)) i vs ≡ signer_stake b i vs
signer_stake-set_below b j i [] h = refl
signer_stake-set_below b j i (v ∷ vs) h =
    ground (arith, bit-set_bit b j i, signer_stake-set_below b j (suc i) vs)

signer_keys-set_below :
    (b j i : ℕ) (vs : List Validator)
    → j < i
    → signer_keys (bit_or b (2 ^ j)) i vs ≡ signer_keys b i vs
signer_keys-set_below b j i [] h = refl
signer_keys-set_below b j i (v ∷ vs) h =
    ground (arith, bit-set_bit b j i, signer_keys-set_below b j (suc i) vs)

-- A new signer, at place k of the validators from index i on, adds its stake.
pub signer_stake-set_bit :
    (b i j k : ℕ) (vs : List Validator) (v : Validator)
    → j ≡ i + k
    → get_elem? vs k ≡ some v
    → bit b j ≡ false
    → signer_stake (bit_or b (2 ^ j)) i vs ≡ signer_stake b i vs + v.stake
signer_stake-set_bit b i j k [] v at e fresh = absurd (cc)
signer_stake-set_bit b i j zero (w ∷ vs) v at e fresh =
    let here : j ≡ i = omega arith in
    ground (arith, ap (bit b) here, bit-set_bit b j i, signer_stake-set_below b j (suc i) vs)
signer_stake-set_bit b i j (suc k) (w ∷ vs) v at e fresh =
    ground (arith, bit-set_bit b j i, signer_stake-set_bit b (suc i) j k vs v (omega arith) e fresh)

-- And its key, at some place.
pub signer_keys-set_bit :
    (b i j k : ℕ) (vs : List Validator) (v : Validator)
    → j ≡ i + k
    → get_elem? vs k ≡ some v
    → bit b j ≡ false
    → Perm (v.bls_pubkey ∷ signer_keys b i vs) (signer_keys (bit_or b (2 ^ j)) i vs)
signer_keys-set_bit b i j k [] v at e fresh = absurd (cc)
signer_keys-set_bit b i j zero (w ∷ vs) v at e fresh =
    let here : j ≡ i = omega arith in
    Perm_of_eq
      (ground (arith, ap (bit b) here, bit-set_bit b j i, signer_keys-set_below b j (suc i) vs))
signer_keys-set_bit b i j (suc k) (w ∷ vs) v at e fresh =
    let rest = signer_keys-set_bit b (suc i) j k vs v (omega arith) e fresh in
    let other : bit (bit_or b (2 ^ j)) i ≡ bit b i = ground (arith, bit-set_bit b j i) in
    elim (Bool-cases (bit b i)) [
      | inl hit ↦
          rw (other, hit)
            (Perm.trans (Perm.swap w.bls_pubkey v.bls_pubkey _) (Perm.cons w.bls_pubkey rest))
      | inr miss ↦ rw (other, miss) rest
    ]
