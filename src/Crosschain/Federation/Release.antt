-- ===== src/Crosschain/Federation/Release.antt =====
-- When a vault releases a lock, and that it never releases a nonce twice.
use aii.Base.{
  ℕ, ◌^◌, ◌≤◌, ◌<◌, ◌≡◌, ◌↔◌, ◌⊎◌, ◌≢◌, refl, sym, subst, List, [], ◌∷◌, ok, err, panic, true,
  false, arith, length, contains, to_be_bytes, map, Result-cases, Bool-cases, ◌&&◌, ◌!=◌, leb, ltb,
  inl, inr,
}
use aii.Base.Bits.{members_iff, ilog2, count_ones}
use aii.Crypto.{Crypto, fast_aggregate_verify}
use aii.Crosschain.Federation.{
  FederationSet, IsFederation, new_federation, BridgeError, signer_bitmap_oversized,
  below_threshold, nonce_reused, Vault, AttestationBundle, LockReceipt, receipt_digest,
  federation_id, selected, check_aggregate, release,
}
use aii.Crosschain.Federation.Signers.{count_ones-selected}

-- `new` returns a federation exactly if it holds the keys and the threshold given, with at most 64
-- keys and a threshold from 1 to their number.
new_federation_iff :
    (pubkeys : List ℕ) (threshold : ℕ) (f : FederationSet)
    → (new_federation pubkeys threshold ≡ ok f)
      ↔ (IsFederation f × (f.pubkeys ≡ pubkeys) × (f.threshold ≡ threshold))
unfolding new_federation
new_federation_iff pubkeys threshold f = (
  λ h. (
    record { positive = ground arith; reachable = ground arith; bounded = ground arith },
    ground arith,
    ground arith,
  ),
  λ (valid, keys, same). ground (arith, valid.positive, valid.reachable, valid.bounded, keys, same),
)

-- What a bundle must show to a vault: signers that are members, at least as many as the threshold
-- says, whose aggregate is on the receipt for this federation, and a nonce that is new.
pub record Authorises (c : Crypto) (v : Vault) (b : AttestationBundle) : Type 0 where
  pub members : b.signer_bitmap < 2 ^ length v.federation.pubkeys
  pub enough : v.federation.threshold ≤ length (selected b.signer_bitmap 0 v.federation.pubkeys)
  pub fresh : contains b.receipt.nonce v.used_nonces ≡ false
  pub aggregated :
      fast_aggregate_verify c b.aggregated_sig
        (to_be_bytes 32 (receipt_digest c b.receipt (federation_id c v.federation)))
        (selected b.signer_bitmap 0 v.federation.pubkeys)
      ≡ ok tt

-- On a valid federation, `release` grants a bundle with a bitmap of 64 bits exactly if the bundle
-- authorises it, and then records its nonce.
pub release_iff :
    (c : Crypto) (v : Vault) (b : AttestationBundle)
    → IsFederation v.federation
    → b.signer_bitmap < 2 ^ 64
    → (release c v b ≡ (
      record v { used_nonces = b.receipt.nonce ∷ v.used_nonces },
      ok (record { receipt = b.receipt }),
    ))
      ↔ Authorises c v b
unfolding release check_aggregate
release_iff c v b valid fits =
    let all_in = members_iff 64 b.signer_bitmap (length v.federation.pubkeys) fits in
    let count = count_ones-selected 64 b.signer_bitmap v.federation.pubkeys valid.bounded in
    (
      λ h. record {
        members = all_in.0 (ground arith);
        enough = ground (arith, count, all_in);
        fresh = ground arith;
        aggregated = ground arith;
      },
      λ a. ground (arith, all_in.1 a.members, count a.members, a.enough, a.fresh, a.aggregated),
    )

fast_aggregate_verify-ne-panic :
    (c : Crypto) (sig : ℕ) (msg pks : List ℕ) → fast_aggregate_verify c sig msg pks ≢ panic
unfolding fast_aggregate_verify
fast_aggregate_verify-ne-panic c sig msg [] h = cc
fast_aggregate_verify-ne-panic c sig msg (pk ∷ pks) h = ground arith

check_aggregate-ne-panic :
    (c : Crypto) (v : Vault) (b : AttestationBundle) → check_aggregate c v b ≢ panic
unfolding check_aggregate
check_aggregate-ne-panic c v b h = ground (
  arith,
  fast_aggregate_verify-ne-panic c b.aggregated_sig
      (to_be_bytes 32 (receipt_digest c b.receipt (federation_id c v.federation)))
      (selected b.signer_bitmap 0 v.federation.pubkeys),
)

-- The two ways in which a release can end: with a nonce that is new, or refused without a change.
release-cases :
    (c : Crypto) (v : Vault) (b : AttestationBundle)
    → ((contains b.receipt.nonce v.used_nonces ≡ false)
        × (release c v b ≡ (
          record v { used_nonces = b.receipt.nonce ∷ v.used_nonces },
          ok (record { receipt = b.receipt }),
        )))
      ⊎ ((e : BridgeError) × (release c v b ≡ (v, err e)))
unfolding release check_aggregate
release-cases c v b =
    let n = length v.federation.pubkeys in
    let highest = ilog2 64 b.signer_bitmap in
    let signers = count_ones 64 b.signer_bitmap in
    let t = v.federation.threshold in
    elim (Bool-cases (b.signer_bitmap != 0 && leb n highest)) [
      | inl outside ↦ inr (signer_bitmap_oversized highest n, ground arith)
      | inr inside ↦ elim (Bool-cases (ltb signers t)) [
        | inl few ↦ inr (below_threshold signers t, ground arith)
        | inr enough ↦ elim (Bool-cases (contains b.receipt.nonce v.used_nonces)) [
          | inl used ↦ inr (nonce_reused b.receipt.nonce, ground arith)
          | inr fresh ↦ elim (Result-cases (check_aggregate c v b)) [
            | inl (_, valid) ↦ inl (fresh, ground arith)
            | inr (inl (e, refused)) ↦ inr (e, ground arith)
            | inr (inr panics) ↦ absurd (check_aggregate-ne-panic c v b panics)
          ]
        ]
      ]
    ]

-- A list of bundles, and the receipts that are released.
abbrev pub release_all : Crypto → Vault → List AttestationBundle → Vault × List LockReceipt
release_all c v [] = (v, [])
release_all c v (b ∷ bundles) =
    let (v', reply) = release c v b in
    let (last, released) = release_all c v' bundles in
    (last, elim reply [ ok r ↦ r.receipt ∷ released | err _ ↦ released | panic ↦ released ])

-- No number twice.
abbrev pub Distinct : List ℕ → Type 0
Distinct [] = Unit
Distinct (x ∷ xs) = (contains x xs ≡ false) × Distinct xs

abbrev pub nonces : List LockReceipt → List ℕ
nonces = map (λ r. r.nonce)

used-unreleased :
    (c : Crypto) (v : Vault) (bundles : List AttestationBundle) (n : ℕ)
    → contains n v.used_nonces ≡ true
    → contains n (nonces (release_all c v bundles).1) ≡ false
used-unreleased c v [] n h = refl
used-unreleased c v (b ∷ bundles) n h = elim (release-cases c v b) [
  | inl (fresh, granted) ↦
      let v' : Vault = record v { used_nonces = b.receipt.nonce ∷ v.used_nonces } in
      ground (arith, granted, used-unreleased c v' bundles n)
  | inr (e, refused) ↦ ground (arith, refused, used-unreleased c v bundles n h)
]

-- Whatever bundles a vault is given, in whatever order and however often, no nonce is released twice.
pub release_all-Distinct :
    (c : Crypto) (v : Vault) (bundles : List AttestationBundle)
    → Distinct (nonces (release_all c v bundles).1)
release_all-Distinct c v [] = tt
release_all-Distinct c v (b ∷ bundles) = elim (release-cases c v b) [
  | inl (fresh, granted) ↦
      let v' : Vault = record v { used_nonces = b.receipt.nonce ∷ v.used_nonces } in
      let later = used-unreleased c v' bundles b.receipt.nonce (ground arith) in
      let e : (release_all c v (b ∷ bundles)).1 ≡ b.receipt ∷ (release_all c v' bundles).1 =
        ground (arith, granted) in
      subst (λ l. Distinct (nonces l)) (sym e) (later, release_all-Distinct c v' bundles)
  | inr (x, refused) ↦
      let e : (release_all c v (b ∷ bundles)).1 ≡ (release_all c v bundles).1 =
        ground (arith, refused) in
      subst (λ l. Distinct (nonces l)) (sym e) (release_all-Distinct c v bundles)
]
