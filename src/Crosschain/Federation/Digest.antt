-- ===== src/Crosschain/Federation/Digest.antt =====
-- What a federation signs: the digest of a receipt commits to the federation and to all fields.
use aii.Base.{
  ℕ, ◌^◌, ◌<◌, ◌≡◌, refl, ap, List, [], ◌∷◌, All, arith, length, length-append, length-to_be_bytes,
  to_be_bytes, to_be_bytes-injective, field_cancel,
}
use aii.Crosschain.Federation.{
  FederationSet, key_bytes, federation_input, LockReceipt, receipt_input,
}

-- The fields of a receipt are in the range of their Rust types.
pub record Fits (r : LockReceipt) : Type 0 where
  pub chain_fits : r.src_chain_id < 2 ^ 64
  pub asset_fits : r.asset < 2 ^ 256
  pub amount_fits : r.amount < 2 ^ 256
  pub recipient_fits : r.recipient < 2 ^ 160
  pub nonce_fits : r.nonce < 2 ^ 64

-- Two receipts with the same bytes under the hash, each with the id of a federation, are one receipt
-- and have one id, for values in the range of their Rust types.
receipt_input-injective :
    (r s : LockReceipt) (f g : ℕ)
    → Fits r
    → Fits s
    → f < 2 ^ 256
    → g < 2 ^ 256
    → receipt_input r f ≡ receipt_input s g
    → (r ≡ s) × (f ≡ g)
unfolding receipt_input
receipt_input-injective r s f g fr fs ff fg e =
    let (ids, e1) = field_cancel 32 f g _ _ (omega arith) (omega arith) e in
    let (chains, e2) =
      field_cancel 8 r.src_chain_id s.src_chain_id _ _ (omega arith) (omega arith) e1 in
    let (assets, e3) = field_cancel 32 r.asset s.asset _ _ (omega arith) (omega arith) e2 in
    let (amounts, e4) = field_cancel 32 r.amount s.amount _ _ (omega arith) (omega arith) e3 in
    let (recipients, e5) =
      field_cancel 20 r.recipient s.recipient _ _ (omega arith) (omega arith) e4 in
    let nonces : r.nonce ≡ s.nonce =
      to_be_bytes-injective 8 r.nonce s.nonce (omega arith) (omega arith) e5 in
    (ground (arith, chains, assets, amounts, recipients, nonces), ids)

key_bytes-injective :
    (ps qs : List ℕ)
    → All (λ pk. pk < 256 ^ 48) ps
    → All (λ pk. pk < 256 ^ 48) qs
    → key_bytes ps ≡ key_bytes qs
    → ps ≡ qs
unfolding key_bytes
key_bytes-injective [] [] fp fq e = refl
key_bytes-injective [] (q ∷ qs) fp fq e = absurd (
    omega (
      arith,
      ap length e,
      length-append (to_be_bytes 48 q) (key_bytes qs),
      length-to_be_bytes 48 q,
    ))
key_bytes-injective (p ∷ ps) [] fp fq e = absurd (
    omega (
      arith,
      ap length e,
      length-append (to_be_bytes 48 p) (key_bytes ps),
      length-to_be_bytes 48 p,
    ))
key_bytes-injective (p ∷ ps) (q ∷ qs) fp fq e =
    let (one, rest) = field_cancel 48 p q _ _ fp.0 fq.0 e in
    let all = key_bytes-injective ps qs fp.1 fq.1 rest in ground (arith, one, all)

-- Two federations with the same bytes under the hash of their ids have the same keys, in the same
-- order, and the same threshold, for values in the range of their Rust types.
federation_input-injective :
    (f g : FederationSet)
    → f.threshold < 2 ^ 64
    → g.threshold < 2 ^ 64
    → All (λ pk. pk < 256 ^ 48) f.pubkeys
    → All (λ pk. pk < 256 ^ 48) g.pubkeys
    → federation_input f ≡ federation_input g
    → f ≡ g
unfolding federation_input
federation_input-injective f g tf tg kf kg e =
    let (thresholds, rest) =
      field_cancel 8 f.threshold g.threshold _ _ (omega arith) (omega arith) e in
    let keys = key_bytes-injective f.pubkeys g.pubkeys kf kg rest in
    ground (arith, thresholds, keys)
