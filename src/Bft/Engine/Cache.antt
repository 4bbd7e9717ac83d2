-- ===== src/Bft/Engine/Cache.antt =====
-- The cache of committed blocks: bounded, in the order of the heights, and certified.
use aii.Base.{
  ℕ, ◌-◌, ◌<◌, ◌≤◌, ◌≡◌, ◌⊎◌, refl, ap, ◌∙◌, inl, inr, List, [], ◌∷◌, Bool-cases, All, length, ltb,
  ◌==◌, arith, some, ok, true, false,
}
use aii.Base.Maps.{
  map_get, map_insert, map_get-insert, length-map_insert_le, Above, Above-weaken, Increasing,
  insert-Increasing, map_insert-All,
}
use aii.Crypto.{Crypto}
use aii.Block.{Block, Blocks, block_hash}
use aii.Bft.Votes.{precommit}
use aii.Bft.Validators.{ValidatorSet, IsValid}
use aii.Bft.Certificate.{Certificate, verify}
use aii.Bft.Engine.{RecentCommittedBlock, recent_blocks_cap, evict_oldest, cache_recent_block}
use aii.Bft.Engine.Invariant.{Certified, CacheInv}

module _ (b : Blocks) where
  evict_oldest-All :
      (P : ℕ × RecentCommittedBlock b → Type 0) (n : ℕ)
      (entries : List (ℕ × RecentCommittedBlock b))
      → All P entries
      → All P (evict_oldest b n entries)
  unfolding evict_oldest
  evict_oldest-All P n [] all = tt
  evict_oldest-All P n (entry ∷ entries) all = elim (Bool-cases (ltb recent_blocks_cap n)) [
    | inl over ↦ rw over (evict_oldest-All P (n - 1) entries all.1)
    | inr fits ↦ rw fits all
  ]

  evict_oldest-Increasing :
      (n : ℕ) (entries : List (ℕ × RecentCommittedBlock b))
      → Increasing entries
      → Increasing (evict_oldest b n entries)
  unfolding evict_oldest
  evict_oldest-Increasing n [] s = tt
  evict_oldest-Increasing n (entry ∷ entries) s = elim (Bool-cases (ltb recent_blocks_cap n)) [
    | inl over ↦ rw over (evict_oldest-Increasing (n - 1) entries s.1)
    | inr fits ↦ rw fits s
  ]

  -- The loop goes on until the map fits.
  length-evict_oldest :
      (n : ℕ) (entries : List (ℕ × RecentCommittedBlock b))
      → length entries ≡ n
      → length (evict_oldest b n entries) ≤ recent_blocks_cap
  unfolding evict_oldest
  length-evict_oldest n [] h = omega arith
  length-evict_oldest n (entry ∷ entries) h = elim (Bool-cases (ltb recent_blocks_cap n)) [
    | inl over ↦ rw over (length-evict_oldest (n - 1) entries (omega (arith, h)))
    | inr fits ↦ rw fits (ground (arith, h))
  ]

  pub cache_recent_block-All :
      (P : ℕ × RecentCommittedBlock b → Type 0) (recent : List (ℕ × RecentCommittedBlock b))
      (block : Block b.Tx) (cert : Certificate precommit)
      → All P recent
      → P (block.header.number, record { block = block; certificate = cert })
      → All P (cache_recent_block b recent block cert)
  unfolding cache_recent_block
  cache_recent_block-All P recent block cert all new =
      let n = block.header.number in
      let entry : RecentCommittedBlock b = record { block = block; certificate = cert } in
      let m = map_insert n entry recent in
      evict_oldest-All P (length m) m (map_insert-All P n entry recent new all)

  module _ (c : Crypto) where
    pub cache_recent_block-CacheInv :
        (recent : List (ℕ × RecentCommittedBlock b)) (block : Block b.Tx)
        (cert : Certificate precommit) (vs : ValidatorSet)
        → CacheInv b c recent
        → IsValid vs
        → cert.block_hash ≡ block_hash b block
        → verify c cert vs ≡ ok tt
        → CacheInv b c (cache_recent_block b recent block cert)
    unfolding cache_recent_block
    cache_recent_block-CacheInv recent block cert vs i valid for_block verifies =
        let entry : RecentCommittedBlock b = record { block = block; certificate = cert } in
        let n = block.header.number in
        let m = map_insert n entry recent in
        let new : Certified b c (n, entry) = record {
          numbered = refl;
          signs_block = for_block;
          set = vs;
          valid_set = valid;
          verifies = verifies;
        } in
        record {
          increasing =
              evict_oldest-Increasing (length m) m (insert-Increasing n entry recent i.increasing);
          bounded = length-evict_oldest (length m) m refl;
          certified = cache_recent_block-All (Certified b c) recent block cert i.certified new;
        }

  evict_oldest-fits :
      (n : ℕ) (entries : List (ℕ × RecentCommittedBlock b))
      → ltb recent_blocks_cap n ≡ false
      → evict_oldest b n entries ≡ entries
  unfolding evict_oldest
  evict_oldest-fits n [] h = refl
  evict_oldest-fits n (entry ∷ entries) h = rw h refl

  evict_oldest-over :
      (n : ℕ) (entry : ℕ × RecentCommittedBlock b) (entries : List (ℕ × RecentCommittedBlock b))
      → ltb recent_blocks_cap n ≡ true
      → ltb recent_blocks_cap (n - 1) ≡ false
      → evict_oldest b n (entry ∷ entries) ≡ entries
  unfolding evict_oldest
  evict_oldest-over n entry entries over fits = rw over (evict_oldest-fits (n - 1) entries fits)

  -- A cache with no room for a height: it is full of higher ones.
  abbrev pub NoRoom : ℕ → List (ℕ × RecentCommittedBlock b) → Type 0
  NoRoom n recent = (length recent ≡ recent_blocks_cap) × Above n recent

  -- The insertion that makes the cache too large drops the lowest height.
  full_cache-get :
      (n : ℕ) (entry : RecentCommittedBlock b) (recent : List (ℕ × RecentCommittedBlock b))
      → length recent ≤ recent_blocks_cap
      → Increasing recent
      → let m = map_insert n entry recent in
        ltb recent_blocks_cap (length m) ≡ true
        → (map_get n (evict_oldest b (length m) m) ≡ some entry) ⊎ NoRoom n recent
  unfolding map_insert
  full_cache-get n entry [] bounded sorted over = absurd (ground (arith, over))
  full_cache-get n entry ((j, v) ∷ r) bounded sorted over = elim (Bool-cases (ltb n j)) [
    | inl before ↦
        let lt : n < j = ground (arith, before) in
        let count : length ((j, v) ∷ r) ≡ recent_blocks_cap =
          ground (arith, before, over, bounded) in
        inr (count, (lt, Above-weaken n j r lt sorted.0))
    | inr after ↦ elim (Bool-cases (n == j)) [
      | inl same ↦ absurd (ground (arith, after, same, over, bounded))
      | inr differs ↦
          let rest = map_insert n entry r in
          let grown = length-map_insert_le n entry r in
          let over' : ltb recent_blocks_cap (length ((j, v) ∷ rest)) ≡ true =
            ground (arith, after, differs, over) in
          let fits : ltb recent_blocks_cap (length ((j, v) ∷ rest) - 1) ≡ false =
            ground (arith, grown, bounded) in
          rw (after, differs)
            (inl (
              ap (map_get n) (evict_oldest-over (length ((j, v) ∷ rest)) (j, v) rest over' fits)
              ∙ map_get-insert n entry r))
    ]
  ]

  -- What is looked up in a cache after a block has gone in.
  pub cache_recent_block-get :
      (recent : List (ℕ × RecentCommittedBlock b)) (block : Block b.Tx)
      (cert : Certificate precommit)
      → length recent ≤ recent_blocks_cap
      → Increasing recent
      → let n = block.header.number in
        (map_get n (cache_recent_block b recent block cert)
          ≡ some (record { block = block; certificate = cert }))
        ⊎ NoRoom n recent
  unfolding cache_recent_block
  cache_recent_block-get recent block cert bounded sorted =
      let n = block.header.number in
      let entry : RecentCommittedBlock b = record { block = block; certificate = cert } in
      let m = map_insert n entry recent in
      let there = map_get-insert n entry recent in
      elim (Bool-cases (ltb recent_blocks_cap (length m))) [
        | inr fits ↦ inl (ap (map_get n) (evict_oldest-fits (length m) m fits) ∙ there)
        | inl over ↦ full_cache-get n entry recent bounded sorted over
      ]
