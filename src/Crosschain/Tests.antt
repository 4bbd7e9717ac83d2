-- ===== src/Crosschain/Tests.antt =====
-- Swaps and releases in the toy scheme: tests, and the theorems applied.
use aii.Base.{
  to_be_bytes, ◌+◌, ◌*◌, ℕ, ◌^◌, ◌<◌, ◌≡◌, ◌↔◌, refl, List, [], ◌∷◌, ok, arith, contains, length,
}
use aii.Crypto.Toy.{toy, mix}
use aii.Crosschain.Htlc.{Htlc, locked, claimed, Attempt, claim_with, refund_at, try_all}
use aii.Crosschain.Htlc.Settlement.{settled, successes, try_all-settled, closed}
use aii.Crosschain.Htlc.Id.{Fits}
use aii.Crosschain.Federation.{
  FederationSet, IsFederation, new_federation, Vault, new_vault, AttestationBundle, LockReceipt,
  release, receipt_input, federation_input, receipt_digest, federation_id,
}
use aii.Crosschain.Federation.Release.{
  Authorises, release_iff, release_all, Distinct, nonces, release_all-Distinct,
}
use aii.Crosschain.Federation.Digest

-- The secret is the byte string 1 2 3.
abbrev swap : Htlc
swap = record {
  sender = 10;
  recipient = 20;
  amount = 1000;
  secret_hash = mix 7 (1 ∷ 2 ∷ 3 ∷ []);
  timeout = 100;
  state = locked;
}

-- A wrong secret, an early refund, the secret, and two attempts too late.
abbrev quarrel : List Attempt
quarrel =
    claim_with (3 ∷ [])
    ∷ refund_at 99
    ∷ claim_with (1 ∷ 2 ∷ 3 ∷ [])
    ∷ refund_at 100
    ∷ claim_with (1 ∷ 2 ∷ 3 ∷ [])
    ∷ []

quarrel-settled : settled toy swap quarrel ≡ claimed
unfolding toy mix
quarrel-settled = refl

try_all-settled_example :
    ((try_all toy swap quarrel).0 ≡ record swap { state = settled toy swap quarrel })
    × (successes (try_all toy swap quarrel).1 ≡ closed (settled toy swap quarrel))
try_all-settled_example = try_all-settled toy swap quarrel refl

swap-Fits : Fits swap
unfolding mix
swap-Fits = record {
  sender_fits = omega arith;
  recipient_fits = omega arith;
  amount_fits = omega arith;
  hash_fits = omega arith;
  timeout_fits = omega arith;
}

abbrev two_of_three : FederationSet
two_of_three = record { pubkeys = 1 ∷ 2 ∷ 3 ∷ []; threshold = 2 }

two_of_three-IsFederation : IsFederation two_of_three
two_of_three-IsFederation = record {
  positive = omega arith;
  reachable = omega arith;
  bounded = omega arith;
}

abbrev lock : ℕ → LockReceipt
lock nonce = record { src_chain_id = 1; asset = 0; amount = 500; recipient = 30; nonce = nonce }

-- Signed by the first and the last member.
bundle : ℕ → AttestationBundle
bundle nonce = record {
  receipt = lock nonce;
  aggregated_sig =
      2 * mix 7 (to_be_bytes 32 (receipt_digest toy (lock nonce) (federation_id toy two_of_three)))
      + 4;
  signer_bitmap = 5;
}

-- The second bundle for nonce 4 is refused.
release-twice :
    (release_all toy (new_vault two_of_three) (bundle 4 ∷ bundle 5 ∷ bundle 4 ∷ [])).1
    ≡ lock 4 ∷ lock 5 ∷ []
unfolding new_vault bundle release toy aii.Base.Bits.ilog2 aii.Base.Bits.count_ones
    aii.Crosschain.Federation.check_aggregate aii.Crypto.fast_aggregate_verify
    aii.Crosschain.Federation.selected aii.Base.Bits.bit to_be_bytes receipt_digest
    aii.Crosschain.Federation.receipt_input federation_id aii.Crosschain.Federation.federation_input
    aii.Crosschain.Federation.key_bytes
release-twice = refl

release_iff_example :
    (release toy (new_vault two_of_three) (bundle 4) ≡ (
      record { federation = two_of_three; used_nonces = 4 ∷ [] },
      ok (record { receipt = lock 4 }),
    ))
    ↔ Authorises toy (new_vault two_of_three) (bundle 4)
unfolding new_vault bundle
release_iff_example =
    release_iff toy (new_vault two_of_three) (bundle 4) two_of_three-IsFederation (omega arith)

release_all-Distinct_example :
    Distinct
      (nonces (release_all toy (new_vault two_of_three) (bundle 4 ∷ bundle 5 ∷ bundle 4 ∷ [])).1)
release_all-Distinct_example =
    release_all-Distinct toy (new_vault two_of_three) (bundle 4 ∷ bundle 5 ∷ bundle 4 ∷ [])

lock-Fits : Digest.Fits (lock 4)
lock-Fits = record {
  chain_fits = omega arith;
  asset_fits = omega arith;
  amount_fits = omega arith;
  recipient_fits = omega arith;
  nonce_fits = omega arith;
}
