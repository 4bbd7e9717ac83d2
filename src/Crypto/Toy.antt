-- ===== src/Crypto/Toy.antt =====
-- A small scheme that meets the assumptions on the primitives, for the tests: a hash of a list, and
-- signatures that are sums.
use mathlib.Core.List.{Perm, Permᴰ}
use mathlib.Core.Logic.{∥∥₁_elim}
use native.Mathlib.Nat.{ℕ_set}
use aii.Base.{ℕ, ◌+◌, ◌*◌, ◌%◌, ◌≡◌, refl, ap, ◌∙◌, some, List, [], ◌∷◌, arith, ◌==◌, length}
use aii.Crypto.{Crypto, SignedBy, Aggregates, Signs, Proves}

unfoldable pub mix : ℕ → List ℕ → ℕ
mix acc [] = acc
mix acc (b ∷ bs) = mix ((acc * 257 + b) % 0x1_0000_0000_0000_0000) bs

sum : List ℕ → ℕ
sum [] = 0
sum (x ∷ xs) = x + sum xs

unfoldable pub toy : Crypto
unfolding mix sum
toy = record {
  keccak256 = λ bytes. mix 7 bytes;
  bls_public_key = λ sk. sk;
  bls_sign = λ sk msg. mix 7 msg + sk;
  bls_verify = λ sig msg pk. sig == mix 7 msg + pk;
  blst_aggregate = λ sigs. some (sum sigs);
  blst_fast_aggregate_verify = λ sig msg pks. sig == length pks * mix 7 msg + sum pks;
  vrf_prove = λ sk msg. (mix sk msg, mix sk msg);
  vrf_verify = λ pk msg proof. some (mix pk msg);
}

perm-sums : {xs ys : List ℕ} → Permᴰ xs ys → (length xs ≡ length ys) × (sum xs ≡ sum ys)
unfolding sum
perm-sums Permᴰ.nil = (refl, refl)
perm-sums (Permᴰ.cons e d) = let (l, s) = perm-sums d in (omega arith, omega arith)
perm-sums (Permᴰ.swap e f) = (omega arith, omega arith)
perm-sums (Permᴰ.trans d e) = let (l, s) = perm-sums d in let (m, t) = perm-sums e in (l ∙ m, s ∙ t)

perm-length : {xs ys : List ℕ} → Perm xs ys → length xs ≡ length ys
perm-length p = ∥∥₁_elim p (ℕ_set _ _) (λ d. (perm-sums d).0)

perm-sum : {xs ys : List ℕ} → Perm xs ys → sum xs ≡ sum ys
perm-sum p = ∥∥₁_elim p (ℕ_set _ _) (λ d. (perm-sums d).1)

-- The sum of signatures by some keys on one message.
SignedBy-sum :
    (msg sigs pks : List ℕ)
    → SignedBy toy msg sigs pks
    → sum sigs ≡ length pks * mix 7 msg + sum pks
unfolding toy sum
SignedBy-sum msg [] [] h = omega arith
SignedBy-sum msg [] (pk ∷ pks) h = absurd h
SignedBy-sum msg (s ∷ sigs) [] h = absurd h
SignedBy-sum msg (s ∷ sigs) (pk ∷ pks) h =
    let one = h.0 in grind (arith, SignedBy-sum msg sigs pks h.1)

pub toy-Aggregates : Aggregates toy
unfolding toy
toy-Aggregates msg sigs pks pks' ne signed p = (
  sum sigs,
  refl,
  ground (
    arith,
    SignedBy-sum msg sigs pks signed,
    perm-sum p,
    ap (λ (n : ℕ). n * mix 7 msg) (perm-length p),
  ),
)

pub toy-Signs : Signs toy
unfolding toy
toy-Signs sk msg = ground arith

pub toy-Proves : Proves toy (λ sk. sk)
unfolding toy
toy-Proves sk msg = refl
