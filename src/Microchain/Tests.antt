-- ===== src/Microchain/Tests.antt =====
-- A registry of one sub-chain and the data of a flush: tests, and the theorems applied.
use aii.Base.{
  ℕ, ◌<◌, ◌≡◌, refl, List, [], ◌∷◌, some, none, ok, err, arith, true, Bool, Bool-cases, inl, inr,
  ltb, ◌&&◌, All, subst, ◌^◌, ◌+◌, ◌==◌, take, to_be_bytes, from_be_bytes, from_be_bytes_acc,
}
use aii.Base.Maps.{map_get, map_insert}
use aii.Microchain.{
  FlushTxPayload, bft, MicroChainSpec, FlushAnchor, Registry, new_registry, register, record_flush,
  duplicate, parse_flush_anchor, flush_tx_magic, starts_with,
}
use aii.Microchain.Flushes.{RegistryInv, Does, flush, apply_call, apply_call-Does}
use aii.Microchain.Frames.{flush_frame}

abbrev spec : MicroChainSpec
spec = record { id = 3; name = 120 ∷ []; flush_interval_blocks = 100; consensus = bft }

abbrev registry : Registry
registry = record { specs = (3, spec) ∷ []; anchors = [] }

abbrev anchor : FlushAnchor
anchor = record { sub_block_hash = 170; parent_block_hash = 187; sub_block_number = 42 }

register-run : register new_registry spec ≡ (registry, ok tt)
unfolding register map_get map_insert
register-run = refl

register-twice : (register registry spec).1 ≡ err duplicate
unfolding register map_get
register-twice = refl

registry-Inv : RegistryInv registry
unfolding map_get aii.Microchain.last_flush
registry-Inv = record {
  increasing = ((tt, tt), tt);
  spec_ok = λ id s h. elim (Bool-cases (id == 3)) [
    | inl same ↦
        let one : some spec ≡ some s = ground (arith, same, h) in
        let is : spec ≡ s = cc in
        subst (λ x. (x.id ≡ id) × (0 < id) × (0 < x.flush_interval_blocks)) is
          (ground (arith, same), ground (arith, same), omega arith)
    | inr other ↦ absurd (ground (arith, other, h))
  ];
  anchored = λ id a h. absurd (ground (arith, h));
}

apply_call-Does_example :
    let (r', result) = apply_call registry (flush 3 anchor) in
    RegistryInv r' × Does registry (flush 3 anchor) r' result
apply_call-Does_example = apply_call-Does registry (flush 3 anchor) registry-Inv

abbrev payload : FlushTxPayload
payload = record { sub_chain_id = 77; sub_block_hash = 2 ^ 255 + 3; sub_block_number = 42 }

parse-run : parse_flush_anchor (flush_frame payload) ≡ some payload
unfolding parse_flush_anchor starts_with to_be_bytes from_be_bytes from_be_bytes_acc
parse-run = refl

parse-short : parse_flush_anchor (take 52 (flush_frame payload)) ≡ none
unfolding parse_flush_anchor starts_with to_be_bytes
parse-short = refl

are_bytes : List ℕ → Bool
are_bytes [] = true
are_bytes (b ∷ bs) = ltb b 256 && are_bytes bs

are_bytes-All : (bs : List ℕ) → are_bytes bs ≡ true → All (λ b. b < 256) bs
unfolding are_bytes
are_bytes-All [] h = tt
are_bytes-All (b ∷ bs) h = (ground (arith, h), are_bytes-All bs (ground (arith, h)))

frame-bytes : are_bytes (flush_frame payload) ≡ true
unfolding are_bytes to_be_bytes
frame-bytes = refl
