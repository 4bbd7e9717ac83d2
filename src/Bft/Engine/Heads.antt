-- ===== src/Bft/Engine/Heads.antt =====
-- The methods that move the head of the chain.
use aii.Base.{
  ℕ, ◌≡◌, ◌≢◌, ◌⊎◌, ◌↔◌, refl, sym, ◌∙◌, subst, inl, inr, Option, none, some, List, [], Result, ok,
  err, panic, true, false, ◌!=◌, ◌||◌, arith, Bool-cases, Option-cases, Result-cases,
}
use aii.Crypto.{Crypto, Aggregates}
use aii.Block.{Block, Blocks, block_hash}
use aii.Bft.Error.{committed, BftError, wrong_height, proposal_hash_mismatch}
use aii.Bft.Validators.{ValidatorSet}
use aii.Bft.Votes.{Vote, prevote, precommit, LeaderProof}
use aii.Bft.Certificate.{Certificate, verify}
use aii.Bft.Coordinator.{Coordinator, phase_eq}
use aii.Bft.Coordinator.Invariant.{Holds}
use aii.Bft.Engine.{
  EngineState, next_height, set_head, cache_recent_block, try_harvest_committed, committed_block_at,
  adopt_synced_block,
}
use aii.Bft.Engine.Invariant.{round_of, Captured, EngineInv}
use aii.Bft.Engine.Cache.{NoRoom, cache_recent_block-CacheInv, cache_recent_block-get}

module _ (b : Blocks) (c : Crypto) where
  -- A certificate of the block that verifies under the set of the state.
  pub record Finalizes (g : EngineState b) (block : Block b.Tx) (cert : Certificate precommit)
      : Type 0 where
    pub signs_block : cert.block_hash ≡ block_hash b block
    pub verifies : verify c cert g.validator_set ≡ ok tt

  set_head-Inv :
      (g : EngineState b) (block : Block b.Tx) (seed : ℕ) (cert : Certificate precommit)
      → EngineInv b c g
      → Finalizes g block cert
      → EngineInv b c (set_head b g block seed cert)
  unfolding set_head
  set_head-Inv g block seed cert i f = record {
    valid = i.valid;
    active = refl;
    cache =
        cache_recent_block-CacheInv b c g.recent_blocks block cert g.validator_set i.cache i.valid
          f.signs_block f.verifies;
  }

  -- The block is the head of the state that is left, which has no round and no captured block; it is
  -- cached with its certificate, unless the cache is full of higher blocks; the set, the index and the
  -- evidence are as they were.
  pub record OnHead (g g' : EngineState b) (block : Block b.Tx) (seed : ℕ)
      (cert : Certificate precommit) : Type 0 where
    pub at_hash : g'.head_hash ≡ block_hash b block
    pub at_number : g'.head_number ≡ block.header.number
    pub at_timestamp : g'.head_timestamp ≡ block.header.timestamp
    pub seeded : g'.seed ≡ seed
    pub no_coordinator : g'.coordinator ≡ none
    pub no_proposal : g'.proposal ≡ none
    pub cached :
        (committed_block_at b g' block.header.number ≡ some (block, cert))
        ⊎ NoRoom b block.header.number g.recent_blocks
    pub recent : g'.recent_blocks ≡ cache_recent_block b g.recent_blocks block cert
    pub same_set : g'.validator_set ≡ g.validator_set
    pub same_index : g'.my_index ≡ g.my_index
    pub same_detector : g'.detector ≡ g.detector
    pub same_evidence : g'.pending_evidence ≡ g.pending_evidence

  set_head-OnHead :
      (g : EngineState b) (block : Block b.Tx) (seed : ℕ) (cert : Certificate precommit)
      (prevotes : List (Vote prevote)) (precommits : List (Vote precommit))
      → EngineInv b c g
      → OnHead g
          (record (set_head b g block seed cert) {
            pending_prevotes = prevotes;
            pending_precommits = precommits;
          })
          block
          seed
          cert
  unfolding set_head committed_block_at
  set_head-OnHead g block seed cert prevotes precommits i = record {
    at_hash = refl;
    at_number = refl;
    at_timestamp = refl;
    seeded = refl;
    no_coordinator = refl;
    no_proposal = refl;
    cached =
        elim (cache_recent_block-get b g.recent_blocks block cert i.cache.bounded
          i.cache.increasing) [
            | inl found ↦ inl (rw (committed_block_at, found) refl)
            | inr full ↦ inr full
          ];
    recent = refl;
    same_set = refl;
    same_index = refl;
    same_detector = refl;
    same_evidence = refl;
  }

  -- A committed coordinator has the certificate of the captured block.
  pub committed-Finalizes :
      (g : EngineState b) (co : Coordinator) (block : Block b.Tx) (proof : LeaderProof)
      → EngineInv b c g
      → g.coordinator ≡ some co
      → g.proposal ≡ some (block, proof)
      → phase_eq co.phase committed ≡ true
      → (cert : Certificate precommit) × (co.final_cert ≡ some cert)
        × Finalizes g block cert
        × (cert.height ≡ next_height b g)
  committed-Finalizes g co block proof i has took last =
      let (r, captured) = round_of b c g co i has in
      let at_end : co.phase ≡ committed = ground arith in
      let (hash, polc, cert, proposed, has_polc, locked, has_cert, final) =
        subst (Holds c co) at_end r.inv.holds in
      let same : block_hash b block ≡ hash =
        subst (λ o. Captured b c o (some (block, proof))) proposed
          (subst (Captured b c co.proposed_block) took captured) in
      (
        cert,
        has_cert,
        record {
          signs_block = final.for_block ∙ sym same;
          verifies = subst (λ vs. verify c cert vs ≡ ok tt) r.of_set final.verifies;
        },
        final.at_height ∙ r.at,
      )

  -- What a harvest comes to: nothing changes, or the block is the captured one of a committed
  -- coordinator, with a certificate of the next height that finalizes it, and the state moves on to it.
  abbrev pub Harvests : EngineState b → EngineState b → Option (Block b.Tx) → Type 0
  Harvests g g' none = g' ≡ g
  Harvests g g' (some block) =
      (proof : LeaderProof) × (cert : Certificate precommit) × (g.proposal ≡ some (block, proof))
      × Finalizes g block cert
      × (cert.height ≡ next_height b g)
      × OnHead g g' block proof.vrf_output cert
      × (g'.pending_prevotes ≡ g.pending_prevotes)
      × (g'.pending_precommits ≡ g.pending_precommits)

  -- On an engine that satisfies the invariant, `try_harvest_committed` keeps the invariant, and
  -- returns nothing and changes nothing, or returns the captured block, for which there is a
  -- certificate of the next height that verifies under the validator set. This block is then the head:
  -- the hash, the number and the timestamp of the head are those of the block, the seed is the VRF
  -- output of its leader proof, and there is no round and no captured block. It is cached with the
  -- certificate, unless the cache is full of higher blocks. All else is as it was.
  pub try_harvest_committed-Harvests :
      (g : EngineState b)
      → EngineInv b c g
      → let (g', found) = try_harvest_committed b g in EngineInv b c g' × Harvests g g' found
  unfolding try_harvest_committed set_head
  try_harvest_committed-Harvests g i =
      let Goal : EngineState b × Option (Block b.Tx) → Type 0 =
        λ o. EngineInv b c o.0 × Harvests g o.0 o.1 in
      let idle : try_harvest_committed b g ≡ (g, none) → Goal (try_harvest_committed b g) =
        λ end. subst Goal (sym end) (i, refl) in
      elim (Option-cases g.coordinator) [
        | inl absent ↦ idle (ground (arith, absent))
        | inr (co, has) ↦ elim (Bool-cases (phase_eq co.phase committed)) [
          | inr going ↦ idle (ground (arith, has, going))
          | inl last ↦ elim (Option-cases g.proposal) [
            | inl lost ↦ idle (ground (arith, has, last, lost))
            | inr ((block, proof), took) ↦
                let (cert, has_cert, f, height) =
                  committed-Finalizes g co block proof i has took last in
                let g' = set_head b g block proof.vrf_output cert in
                let end : try_harvest_committed b g ≡ (g', some block) =
                  ground (arith, has, last, took, has_cert) in
                subst Goal (sym end) (
                  set_head-Inv g block proof.vrf_output cert i f,
                  (
                    proof,
                    cert,
                    took,
                    f,
                    height,
                    set_head-OnHead g block proof.vrf_output cert g.pending_prevotes
                        g.pending_precommits i,
                    refl,
                    refl,
                  ),
                )
          ]
        ]
      ]

  -- What an adoption takes: the block is the next one, on the head, and its certificate finalizes it.
  pub record Extends (g : EngineState b) (block : Block b.Tx) (cert : Certificate precommit)
      : Type 0 where
    pub finalizes : Finalizes g block cert
    pub next : block.header.number ≡ next_height b g
    pub on_head : block.header.parent_hash ≡ g.head_hash
    pub same_height : cert.height ≡ block.header.number

  abbrev pub Adopts :
      EngineState b
      → Block b.Tx
      → Certificate precommit
      → EngineState b × Result BftError (Block b.Tx)
      → Type 0
  Adopts g block cert o =
      (Extends g block cert
        × (o.1 ≡ ok block)
        × OnHead g o.0 block block.header.mix_hash cert
        × (o.0.pending_prevotes ≡ [])
        × (o.0.pending_precommits ≡ []))
      ⊎ ((e : BftError) × (o.1 ≡ err e) × (o.0 ≡ g))

  -- The tests of `adopt_synced_block` are enough.
  linked-Extends :
      (g : EngineState b) (block : Block b.Tx) (cert : Certificate precommit)
      → (block.header.number != next_height b g) || (cert.height != block.header.number) ≡ false
      → (block.header.parent_hash != g.head_hash) || (cert.block_hash != block_hash b block) ≡ false
      → verify c cert g.validator_set ≡ ok tt
      → Extends g block cert
  linked-Extends g block cert on linked good = record {
    finalizes = record { signs_block = ground (arith, linked); verifies = good };
    next = ground (arith, on);
    on_head = ground (arith, linked);
    same_height = ground (arith, on);
  }

  verify-ne-panic : (cert : Certificate precommit) (vs : ValidatorSet) → verify c cert vs ≢ panic
  unfolding verify aii.Crypto.fast_aggregate_verify
  verify-ne-panic cert vs h = ground (arith, h)

  -- On an engine that satisfies the invariant, `adopt_synced_block` keeps it. Either the block is the
  -- next one on the head, with a certificate of its hash and its height that verifies under the
  -- validator set. It is then the head: the hash, the number and the timestamp of the head are those
  -- of the block, the seed is the mix hash of its header, and there is no round, no captured block and
  -- no buffered vote; it is cached with the certificate, unless the cache is full of higher blocks,
  -- and all else is as it was. Or the call fails and changes nothing. It succeeds just if the block is
  -- such a one.
  pub adopt_synced_block-Adopts :
      (g : EngineState b) (block : Block b.Tx) (cert : Certificate precommit)
      → EngineInv b c g
      → EngineInv b c (adopt_synced_block b c g block cert).0
        × Adopts g block cert (adopt_synced_block b c g block cert)
        × (((adopt_synced_block b c g block cert).1 ≡ ok block) ↔ Extends g block cert)
  unfolding adopt_synced_block
  adopt_synced_block-Adopts g block cert i =
      let Goal : EngineState b × Result BftError (Block b.Tx) → Type 0 = λ o.
        EngineInv b c o.0 × Adopts g block cert o × ((o.1 ≡ ok block) ↔ Extends g block cert) in
      let o = adopt_synced_block b c g block cert in
      let refused : (e : BftError) → ¬ Extends g block cert → o ≡ (g, err e) → Goal o = λ e bad end.
        subst Goal (sym end)
          (i, inr (e, refl, refl), ((λ h. absurd (cc)), (λ x. absurd (bad x)))) in
      elim (Bool-cases
        ((block.header.number != next_height b g) || (cert.height != block.header.number))) [
          | inl off ↦
              refused wrong_height
                (λ x. let n = x.next in let h = x.same_height in ground (arith, off, n, h))
                (ground (arith, off))
          | inr on ↦
              elim (Bool-cases (
                (block.header.parent_hash != g.head_hash)
                || (cert.block_hash != block_hash b block))) [
                  | inl other ↦
                      refused proposal_hash_mismatch
                        (λ x.
                          let p = x.on_head in
                          let s = x.finalizes.signs_block in ground (arith, other, p, s))
                        (ground (arith, on, other))
                  | inr linked ↦ elim (Result-cases (verify c cert g.validator_set)) [
                    | inl (_, good) ↦
                        let x = linked-Extends g block cert on linked good in
                        let g' : EngineState b =
                          record (set_head b g block block.header.mix_hash cert) {
                            pending_prevotes = [];
                            pending_precommits = [];
                          } in
                        let end : o ≡ (g', ok block) = ground (arith, on, linked, good) in
                        subst Goal (sym end) (
                          set_head-Inv g block block.header.mix_hash cert i x.finalizes,
                          inl (
                            x,
                            refl,
                            set_head-OnHead g block block.header.mix_hash cert [] [] i,
                            refl,
                            refl,
                          ),
                          ((λ _. x), (λ _. refl)),
                        )
                    | inr (inl (e, bad)) ↦
                        refused e (λ x. let v = x.finalizes.verifies in cc)
                          (ground (arith, on, linked, bad))
                    | inr (inr panics) ↦ absurd (verify-ne-panic cert g.validator_set panics)
                  ]
                ]
        ]
