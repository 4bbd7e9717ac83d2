-- ===== src/Bft/Tally/Invariant.antt =====
-- The invariant of a tallier, kept by every vote: the bitmap, the stake and the signatures all
-- speak of the same voters, each counted once.
use Prim.Native.Nat.{bit_or}
use mathlib.Core.List.{Perm, perm_middle, append-nil}
use mathlib.Core.List.Perm
use aii.Base.{
  ℕ, ◌+◌, ◌^◌, ◌<◌, ◌≡◌, ◌≢◌, subst, ◌∙◌, some, true, false, List, [], ◌∷◌, ◌++◌, ok, panic, arith,
  get_elem?, get_elem?-lt, get_elem?-some, contains, length, length-append,
}
use aii.Base.Bits.{bit, bit-set_bit, set_bit-lt}
use aii.Crypto.{Crypto, SignedBy, verify_signature}
use aii.Bft.Validators.{Validator, IsValid, size}
use aii.Bft.Votes.{VoteKind, Vote, message}
use aii.Bft.Certificate.Signers.{
  signer_stake, signer_keys, signer_stake-le, signer_stake-set_bit, signer_keys-set_bit,
}
use aii.Bft.Tally.{Tallier, check_vote, record_vote}

pub record Inv (c : Crypto) {kind : VoteKind} (t : Tallier kind) : Type 0 where
  pub valid : IsValid t.vs
  -- The bitmap marks the voters that were received, all of the set.
  pub marked : (i : ℕ) → bit t.signer_bitmap i ≡ contains i t.received
  pub members : t.signer_bitmap < 2 ^ size t.vs
  -- Each counts with its stake, once.
  pub counted : t.stake_collected ≡ signer_stake t.signer_bitmap 0 t.vs.validators
  -- One signature for each, which verifies under its key.
  pub signed : SignedBy c (message c kind t.block_hash t.height t.round) t.sigs t.pubkeys
  pub keys : Perm t.pubkeys (signer_keys t.signer_bitmap 0 t.vs.validators)
  pub voters : length t.sigs ≡ length t.received

module _ (c : Crypto) {kind : VoteKind} (t : Tallier kind) (vote : Vote kind) where
  -- What a vote that passes the validations satisfies.
  pub record Passes (v : Validator) : Type 0 where
    pub same_block : vote.block_hash ≡ t.block_hash
    pub same_height : vote.height ≡ t.height
    pub same_round : vote.round ≡ t.round
    pub found : get_elem? t.vs.validators vote.validator_index ≡ some v
    pub first : contains vote.validator_index t.received ≡ false
    pub verifies :
        c.bls_verify vote.bls_sig (message c kind t.block_hash t.height t.round) v.bls_pubkey ≡ true

  pub check_vote-Passes : (v : Validator) → check_vote c t vote ≡ ok v → Passes v
  unfolding check_vote verify_signature
  check_vote-Passes v h = ground arith

  -- The index is checked before it is used.
  pub check_vote-ne-panic : check_vote c t vote ≢ panic
  unfolding check_vote verify_signature
  check_vote-ne-panic h = ground (arith, get_elem?-some t.vs.validators vote.validator_index)

SignedBy-snoc :
    (c : Crypto) (msg sigs pks : List ℕ) (s pk : ℕ)
    → SignedBy c msg sigs pks
    → c.bls_verify s msg pk ≡ true
    → SignedBy c msg (sigs ++ s ∷ []) (pks ++ pk ∷ [])
SignedBy-snoc c msg [] [] s pk all one = (one, tt)
SignedBy-snoc c msg [] (p ∷ pks) s pk all one = absurd all
SignedBy-snoc c msg (x ∷ sigs) [] s pk all one = absurd all
SignedBy-snoc c msg (x ∷ sigs) (p ∷ pks) s pk all one =
    (all.0, SignedBy-snoc c msg sigs pks s pk all.1 one)

snoc-perm : (xs : List ℕ) (x : ℕ) → Perm (xs ++ x ∷ []) (x ∷ xs)
snoc-perm xs x = subst (λ ys. Perm (xs ++ x ∷ []) (x ∷ ys)) (append-nil xs) (perm_middle xs [])

module _ (c : Crypto) {kind : VoteKind} (t : Tallier kind) (vote : Vote kind) (v : Validator) where
  fresh_bit : Inv c t → Passes c t vote v → bit t.signer_bitmap vote.validator_index ≡ false
  fresh_bit i p = i.marked vote.validator_index ∙ p.first

  pub new_stake :
      Inv c t
      → Passes c t vote v
      → signer_stake (bit_or t.signer_bitmap (2 ^ vote.validator_index)) 0 t.vs.validators
        ≡ signer_stake t.signer_bitmap 0 t.vs.validators + v.stake
  new_stake i p =
      signer_stake-set_bit t.signer_bitmap 0 vote.validator_index vote.validator_index
        t.vs.validators v (omega arith) p.found (fresh_bit i p)

  pub record_vote-counted :
      Inv c t
      → Passes c t vote v
      → (record_vote c t vote v).stake_collected ≡ t.stake_collected + v.stake
  unfolding record_vote
  record_vote-counted i p = ground (
    arith,
    i.counted,
    i.valid.summed,
    i.valid.fits,
    new_stake i p,
    signer_stake-le (bit_or t.signer_bitmap (2 ^ vote.validator_index)) 0 t.vs.validators,
  )

  pub record_vote-Inv : Inv c t → Passes c t vote v → Inv c (record_vote c t vote v)
  unfolding record_vote
  record_vote-Inv i p = record {
    valid = i.valid;
    marked = λ j. ground (arith, bit-set_bit t.signer_bitmap vote.validator_index j, i.marked j);
    members =
        set_bit-lt (size t.vs) vote.validator_index t.signer_bitmap
          (get_elem?-lt t.vs.validators vote.validator_index p.found) i.members;
    counted = ground (arith, record_vote-counted i p, new_stake i p, i.counted);
    signed = SignedBy-snoc c _ t.sigs t.pubkeys vote.bls_sig v.bls_pubkey i.signed p.verifies;
    keys = Perm.trans (snoc-perm t.pubkeys v.bls_pubkey) (
        Perm.trans (Perm.cons v.bls_pubkey i.keys) (
          signer_keys-set_bit t.signer_bitmap 0 vote.validator_index vote.validator_index
            t.vs.validators v (omega arith) p.found (fresh_bit i p)));
    voters = omega (arith, length-append t.sigs (vote.bls_sig ∷ []), i.voters);
  }
