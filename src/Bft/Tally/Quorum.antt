-- ===== src/Bft/Tally/Quorum.antt =====
-- What a tallier promises: `submit` on every branch, any sequence of votes, and a certificate that
-- verifies once the quorum is reached.
use native.Mathlib.Nat.{one-le-pow}
use aii.Base.{
  ℕ, suc, ◌+◌, ◌≤◌, ◌≡◌, refl, ap, sym, ◌∙◌, ◌⊎◌, inl, inr, false, List, [], ◌∷◌, Result, ok, err,
  arith, leb, if◌then◌else◌, Result-cases,
}
use aii.Base.Bits.{bit, bit-zero}
use aii.Crypto.{Crypto}
use aii.Bft.Error.{BftError}
use aii.Bft.Validators.{Validator, ValidatorSet, IsValid, size, quorum_threshold}
use aii.Bft.Votes.{VoteKind, Vote}
use aii.Bft.Certificate.Signers.{signer_stake, signer_keys, signer_stake-le, Perm_of_eq}
use aii.Bft.Tally.{
  Tallier, TallyState, accepted, reached_quorum, new_tallier, check_vote, record_vote, submit,
}
use aii.Bft.Tally.Invariant.{
  Inv, Passes, check_vote-Passes, check_vote-ne-panic, record_vote-Inv, record_vote-counted,
}

pub no_bits-signer_stake :
    (b i : ℕ) (vs : List Validator) → ((j : ℕ) → bit b j ≡ false) → signer_stake b i vs ≡ 0
no_bits-signer_stake b i [] h = refl
no_bits-signer_stake b i (v ∷ vs) h = ground (arith, h i, no_bits-signer_stake b (suc i) vs h)

no_bits-signer_keys :
    (b i : ℕ) (vs : List Validator) → ((j : ℕ) → bit b j ≡ false) → signer_keys b i vs ≡ []
no_bits-signer_keys b i [] h = refl
no_bits-signer_keys b i (v ∷ vs) h = ground (arith, h i, no_bits-signer_keys b (suc i) vs h)

-- A new tallier satisfies the invariant.
pub new_tallier-Inv :
    (c : Crypto) (kind : VoteKind) (block_hash height round : ℕ) (vs : ValidatorSet)
    → IsValid vs
    → Inv c (new_tallier kind block_hash height round vs)
unfolding new_tallier
new_tallier-Inv c kind block_hash height round vs valid = record {
  valid = valid;
  marked = λ i. bit-zero i;
  members = one-le-pow (size vs) 2 (omega arith);
  counted = sym (no_bits-signer_stake 0 0 vs.validators bit-zero);
  signed = tt;
  keys = Perm_of_eq (sym (no_bits-signer_keys 0 0 vs.validators bit-zero));
  voters = refl;
}

-- The reply to a vote that is counted.
abbrev pub reply_at : ℕ → ℕ → Result BftError TallyState
reply_at threshold stake = ok (if leb threshold stake then reached_quorum else accepted)

new_tallier-vs :
    (kind : VoteKind) (block_hash height round : ℕ) (vs : ValidatorSet)
    → (new_tallier kind block_hash height round vs).vs ≡ vs
unfolding new_tallier
new_tallier-vs kind block_hash height round vs = refl

module _ (c : Crypto) {kind : VoteKind} (t : Tallier kind) (vote : Vote kind) where
  -- What a call of `submit` may do: report an error and change nothing, or count the vote of a
  -- validator that had not voted, and report whether the stake has reached the threshold.
  abbrev pub Submits : Tallier kind → Result BftError TallyState → Type 0
  Submits t' r =
      ((e : BftError) × (r ≡ err e) × (t' ≡ t))
      ⊎ ((v : Validator) × Passes c t vote v
          × (t'.received ≡ vote.validator_index ∷ t.received)
          × (t'.stake_collected ≡ t.stake_collected + v.stake)
          × (r ≡ reply_at (quorum_threshold t.vs) (t.stake_collected + v.stake)))

  -- Under the invariant `submit` never panics, does one of the two, and keeps the invariant and what
  -- the tallier is bound to.
  pub submit_lem :
      Inv c t
      → let (t', r) = submit c t vote in
        Submits t' r
        × Inv c t'
        × (t'.vs ≡ t.vs)
        × (t'.block_hash ≡ t.block_hash)
        × (t'.height ≡ t.height)
        × (t'.round ≡ t.round)
  unfolding submit record_vote
  submit_lem i = elim (Result-cases (check_vote c t vote)) [
    | inl (v, e) ↦
        let p = check_vote-Passes c t vote v e in
        let sum = record_vote-counted c t vote v i p in
        let next = record_vote-Inv c t vote v i p in
        let reply = λ (s : ℕ). reply_at (quorum_threshold t.vs) s in
        rw (e, submit) (inr (v, p, refl, sum, ap reply sum), next, refl, refl, refl, refl)
    | inr (inl (e, h)) ↦ rw (h, submit) (inl (e, refl, refl), i, refl, refl, refl, refl)
    | inr (inr h) ↦ absurd (check_vote-ne-panic c t vote h)
  ]

-- A list of votes, one after the other.
abbrev pub submit_all : Crypto → {kind : VoteKind} → Tallier kind → List (Vote kind) → Tallier kind
submit_all c t [] = t
submit_all c t (vote ∷ votes) = submit_all c (submit c t vote).0 votes

pub submit_all-Inv :
    (c : Crypto) {kind : VoteKind} (t : Tallier kind) (votes : List (Vote kind))
    → Inv c t
    → Inv c (submit_all c t votes)
submit_all-Inv c t [] i = i
submit_all-Inv c t (vote ∷ votes) i =
    submit_all-Inv c (submit c t vote).0 votes (submit_lem c t vote i).1

submit_all-vs :
    (c : Crypto) {kind : VoteKind} (t : Tallier kind) (votes : List (Vote kind))
    → Inv c t
    → (submit_all c t votes).vs ≡ t.vs
submit_all-vs c t [] i = refl
submit_all-vs c t (vote ∷ votes) i =
    submit_all-vs c (submit c t vote).0 votes (submit_lem c t vote i).1 ∙ (submit_lem c t vote i).2

counts_at :
    (c : Crypto) {kind : VoteKind} (t : Tallier kind) (vs : ValidatorSet)
    → Inv c t
    → t.vs ≡ vs
    → (t.stake_collected ≡ signer_stake t.signer_bitmap 0 vs.validators)
      × (t.stake_collected ≤ vs.total_stake)
counts_at c t vs i same = ground (
  arith,
  i.counted,
  i.valid.summed,
  ap (λ (w : ValidatorSet). w.total_stake) same,
  ap (λ (w : ValidatorSet). signer_stake t.signer_bitmap 0 w.validators) same,
  signer_stake-le t.signer_bitmap 0 t.vs.validators,
)

-- Whatever votes arrive, in whatever order and however often, a tallier for a valid set counts each
-- validator at most once: its stake is the stake of the signers in its bitmap, and at most the
-- total.
pub submit_all-counts :
    (c : Crypto) (kind : VoteKind) (block_hash height round : ℕ) (vs : ValidatorSet)
    (votes : List (Vote kind))
    → IsValid vs
    → let t = submit_all c (new_tallier kind block_hash height round vs) votes in
      (t.stake_collected ≡ signer_stake t.signer_bitmap 0 vs.validators)
      × (t.stake_collected ≤ vs.total_stake)
submit_all-counts c kind block_hash height round vs votes valid =
    let t = new_tallier kind block_hash height round vs in
    let start = new_tallier-Inv c kind block_hash height round vs valid in
    counts_at c (submit_all c t votes) vs (submit_all-Inv c t votes start)
      (submit_all-vs c t votes start ∙ new_tallier-vs kind block_hash height round vs)
