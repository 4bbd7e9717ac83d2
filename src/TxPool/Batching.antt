-- ===== src/TxPool/Batching.antt =====
-- `drain_up_to`: a batch is the first entries of the map, in the order of the keys.
use aii.Base.{ℕ, zero, suc, ◌≡◌, refl, List, [], ◌∷◌, arith, true, All, take, drop}
use aii.TxPool.{Key, key_lt, PoolEntry, Pool, key_of, find, erase, keys_of, drain_keys, drain_up_to}
use aii.TxPool.Map.{Sorted}

module _ {Tx : Type 0} where
  abbrev pub txs_of : List (PoolEntry Tx) → List Tx
  txs_of [] = []
  txs_of (e ∷ es) = e.tx ∷ txs_of es

  -- A key below all entries erases none.
  pub erase-above :
      (k : Key) (es : List (PoolEntry Tx))
      → All (λ x. key_lt k (key_of x) ≡ true) es
      → erase k es ≡ es
  unfolding erase
  erase-above k [] above = refl
  erase-above k (e ∷ es) above = let first = above.0 in ground (arith, erase-above k es above.1)

  drain_keys-take :
      (n : ℕ) (es : List (PoolEntry Tx))
      → Sorted es
      → drain_keys (keys_of (take n es)) es ≡ (drop n es, txs_of (take n es))
  unfolding drain_keys find erase
  drain_keys-take zero es s = refl
  drain_keys-take (suc n) [] s = refl
  drain_keys-take (suc n) (e ∷ es) s =
      ground (arith, erase-above (key_of e) es s.0, drain_keys-take n es s.1)

  -- On a pool whose keys increase, `drain_up_to` returns the transactions of the first n entries in the
  -- order of the keys, and leaves the other entries.
  drain_up_to-take :
      (p : Pool Tx) (n : ℕ)
      → Sorted p.entries
      → drain_up_to p n ≡ (record p { entries = drop n p.entries }, txs_of (take n p.entries))
  unfolding drain_up_to
  drain_up_to-take p n s = ground (arith, drain_keys-take n p.entries s)
