-- ===== src/Sync/Buffer.antt =====
-- Headers at consecutive heights, and the check that `handle` makes on a batch.
use aii.Base.{
  ℕ, suc, ◌+◌, ◌%◌, ◌<◌, ◌≡◌, refl, subst, none, List, [], ◌∷◌, ◌++◌, arith, length, u64_mod,
}
use aii.Sync.{Chain, out_of_order}

module _ (chain : Chain) where
  -- The headers are at the heights from n on.
  abbrev pub Contiguous : ℕ → List chain.Header → Type 0
  Contiguous n [] = Unit
  Contiguous n (h ∷ hs) = (chain.number h ≡ n) × Contiguous (suc n) hs

  pub Contiguous-append :
      (n : ℕ) (xs ys : List chain.Header)
      → Contiguous n xs
      → Contiguous (n + length xs) ys
      → Contiguous n (xs ++ ys)
  Contiguous-append n [] ys cx cy = subst (λ k. Contiguous k ys) (omega arith) cy
  Contiguous-append n (x ∷ xs) ys cx cy =
      (cx.0, Contiguous-append (suc n) xs ys cx.1 (subst (λ k. Contiguous k ys) (omega arith) cy))

  pub Contiguous-split :
      (n : ℕ) (xs ys : List chain.Header)
      → Contiguous n (xs ++ ys)
      → Contiguous n xs × Contiguous (n + length xs) ys
  Contiguous-split n [] ys c = (tt, subst (λ k. Contiguous k ys) (omega arith) c)
  Contiguous-split n (x ∷ xs) ys c =
      let (here, there) = Contiguous-split (suc n) xs ys c.1 in
      ((c.0, here), subst (λ k. Contiguous k ys) (omega arith) there)

  pub out_of_order-Contiguous :
      (n : ℕ) (hs : List chain.Header)
      → n + length hs < u64_mod
      → out_of_order chain n hs ≡ none
      → Contiguous n hs
  unfolding out_of_order
  out_of_order-Contiguous n [] small h = tt
  out_of_order-Contiguous n (x ∷ hs) small h =
      let next : (n + 1) % u64_mod ≡ suc n = omega arith in
      let rest : out_of_order chain (suc n) hs ≡ none = ground (arith, next) in
      (ground arith, out_of_order-Contiguous (suc n) hs (omega arith) rest)

  pub Contiguous-in_order :
      (n : ℕ) (hs : List chain.Header)
      → n + length hs < u64_mod
      → Contiguous n hs
      → out_of_order chain n hs ≡ none
  unfolding out_of_order
  Contiguous-in_order n [] small c = refl
  Contiguous-in_order n (x ∷ hs) small c =
      let next : (n + 1) % u64_mod ≡ suc n = omega arith in
      let rest = Contiguous-in_order (suc n) hs (omega arith) c.1 in
      let first = c.0 in ground (arith, next, rest, first)
