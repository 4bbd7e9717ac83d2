-- ===== src/Bft/Tally/Certify.antt =====
-- The certificate that a tallier makes once the quorum is reached: it verifies.
use native.Mathlib.Nat.{lt_of_lt_of_le, pow-le-pow_right}
use aii.Base.{
  ℕ, suc, ◌≤◌, ◌<◌, ◌≡◌, ◌≢◌, refl, ap, ◌∙◌, some, true, false, List, [], ◌∷◌, ok, arith, contains,
  length,
}
use aii.Crypto.{Crypto, Aggregates, aggregate_signatures, fast_aggregate_verify}
use aii.Bft.Validators.{Validator, ValidatorSet, quorum_threshold}
use aii.Bft.Votes.{VoteKind, message}
use aii.Bft.Certificate.{Certificate, verify}
use aii.Bft.Certificate.Signers.{signer_stake, signer_keys}
use aii.Bft.Certificate.Overlap.{Certifies, verify_iff}
use aii.Bft.Tally.{Tallier, try_certify}
use aii.Bft.Tally.Invariant.{Inv}
use aii.Bft.Tally.Quorum.{no_bits-signer_stake}

no_keys-signer_stake :
    (b i : ℕ) (vs : List Validator) → signer_keys b i vs ≡ [] → signer_stake b i vs ≡ 0
no_keys-signer_stake b i [] h = refl
no_keys-signer_stake b i (v ∷ vs) h = ground (arith, no_keys-signer_stake b (suc i) vs)

no_voters-contains : (l : List ℕ) (j : ℕ) → length l ≡ 0 → contains j l ≡ false
no_voters-contains [] j h = refl
no_voters-contains (x ∷ l) j h = absurd (omega arith)

quorum_threshold-pos : (vs : ValidatorSet) → 0 < quorum_threshold vs
unfolding quorum_threshold
quorum_threshold-pos vs = omega arith

module _ (c : Crypto) where
  aggregate_signatures-ok :
      (sigs : List ℕ) {a : ℕ}
      → sigs ≢ []
      → c.blst_aggregate sigs ≡ some a
      → aggregate_signatures c sigs ≡ ok a
  unfolding aggregate_signatures
  aggregate_signatures-ok [] ne e = absurd (ne refl)
  aggregate_signatures-ok (s ∷ sigs) ne e = rw (e, aggregate_signatures)

  fast_aggregate_verify-ok :
      (sig : ℕ) (msg pks : List ℕ)
      → pks ≢ []
      → c.blst_fast_aggregate_verify sig msg pks ≡ true
      → fast_aggregate_verify c sig msg pks ≡ ok tt
  unfolding fast_aggregate_verify
  fast_aggregate_verify-ok sig msg [] ne e = absurd (ne refl)
  fast_aggregate_verify-ok sig msg (pk ∷ pks) ne e = rw e

module _ (c : Crypto) {kind : VoteKind} (t : Tallier kind) (i : Inv c t) where
  quorum-voters : 0 < t.stake_collected → t.sigs ≢ []
  quorum-voters some_stake none_signed = absurd (
      omega (
        arith,
        i.counted,
        no_bits-signer_stake t.signer_bitmap 0 t.vs.validators (λ j.
            i.marked j
            ∙ no_voters-contains t.received j (omega (arith, i.voters, ap length none_signed))),
      ))

  quorum-keys : 0 < t.stake_collected → signer_keys t.signer_bitmap 0 t.vs.validators ≢ []
  quorum-keys some_stake no_keys =
      absurd
        (omega (arith, i.counted, no_keys-signer_stake t.signer_bitmap 0 t.vs.validators no_keys))

module _ (c : Crypto) {kind : VoteKind} (t : Tallier kind) where
  -- Given that signatures aggregate: a tallier that satisfies the invariant and whose stake has
  -- reached the threshold makes a certificate of its block, height, round and bitmap, which
  -- verifies over its set.
  pub try_certify-verifies :
      Aggregates c
      → Inv c t
      → quorum_threshold t.vs ≤ t.stake_collected
      → (cert : Certificate kind) × (try_certify c t ≡ some cert)
        × (verify c cert t.vs ≡ ok tt)
        × (cert.block_hash ≡ t.block_hash)
        × (cert.height ≡ t.height)
        × (cert.round ≡ t.round)
        × (cert.signer_bitmap ≡ t.signer_bitmap)
  unfolding try_certify
  try_certify-verifies aggregates i quorum =
      let positive : 0 < t.stake_collected = omega (arith, quorum_threshold-pos t.vs) in
      let keys = signer_keys t.signer_bitmap 0 t.vs.validators in
      let msg = message c kind t.block_hash t.height t.round in
      let (a, sum, sum_verifies) =
        aggregates msg t.sigs t.pubkeys keys (quorum-voters c t i positive) i.signed i.keys in
      let cert : Certificate kind = record {
        block_hash = t.block_hash;
        height = t.height;
        round = t.round;
        signer_bitmap = t.signer_bitmap;
        aggregated_sig = a;
      } in
      let certifies : Certifies c cert t.vs = record {
        members = i.members;
        quorum = omega (arith, quorum, i.counted);
        aggregated =
            fast_aggregate_verify-ok c a msg keys (quorum-keys c t i positive) sum_verifies;
      } in
      let made = aggregate_signatures-ok c t.sigs (quorum-voters c t i positive) sum in
      let wide = lt_of_lt_of_le i.members (pow-le-pow_right (omega arith) i.valid.bounded) in
      (
        cert,
        ground (arith, made),
        (verify_iff c cert t.vs i.valid wide).1 certifies,
        refl,
        refl,
        refl,
        refl,
      )
