-- ===== src/Bft/Votes/Digest.antt =====
-- What a digest commits to: the bytes under the hash determine the kind of the vote, the block, the
-- height and the round.
use aii.Base.{
  ℕ, ◌+◌, ◌^◌, ◌<◌, ◌≡◌, ◌≢◌, refl, ap, List, ◌++◌, arith, length, length-append, to_be_bytes,
  length-to_be_bytes, to_be_bytes-injective, append_cancel, field_cancel,
}
use aii.Bft.Votes.{VoteKind, prevote, precommit, domain, digest_input}

digest_fields : ℕ → ℕ → ℕ → List ℕ
digest_fields block_hash height round =
    to_be_bytes 32 block_hash ++ (to_be_bytes 8 height ++ to_be_bytes 4 round)

length-digest_fields : (b h r : ℕ) → length (digest_fields b h r) ≡ 44
unfolding digest_fields
length-digest_fields b h r = omega (
  arith,
  length-append (to_be_bytes 32 b) (to_be_bytes 8 h ++ to_be_bytes 4 r),
  length-append (to_be_bytes 8 h) (to_be_bytes 4 r),
  length-to_be_bytes 32 b,
  length-to_be_bytes 8 h,
  length-to_be_bytes 4 r,
)

length-digest_input :
    (k : VoteKind) (b h r : ℕ) → length (digest_input k b h r) ≡ length (domain k) + 44
unfolding digest_input digest_fields
length-digest_input k b h r =
    omega (arith, length-append (domain k) (digest_fields b h r), length-digest_fields b h r)

-- No PRE-VOTE and PRE-COMMIT are signed over the same bytes, whatever their blocks, heights and
-- rounds.
digest_input-separates :
    (b h r b' h' r' : ℕ) → digest_input prevote b h r ≢ digest_input precommit b' h' r'
unfolding domain
digest_input-separates b h r b' h' r' e = absurd (
    omega (
      arith,
      ap length e,
      length-digest_input prevote b h r,
      length-digest_input precommit b' h' r',
    ))

-- Two votes of one kind over the same bytes agree on block, height and round, for values in the
-- range of their Rust types.
digest_input-injective :
    (k : VoteKind) (b h r b' h' r' : ℕ)
    → b < 2 ^ 256
    → b' < 2 ^ 256
    → h < 2 ^ 64
    → h' < 2 ^ 64
    → r < 2 ^ 32
    → r' < 2 ^ 32
    → digest_input k b h r ≡ digest_input k b' h' r'
    → (b ≡ b') × (h ≡ h') × (r ≡ r')
unfolding digest_input
digest_input-injective k b h r b' h' r' bb bb' hh hh' rr rr' e =
    let (_, fields) = append_cancel (domain k) (domain k) _ _ refl e in
    let (blocks, rest) = field_cancel 32 b b' _ _ (omega arith) (omega arith) fields in
    let (heights, rounds) = field_cancel 8 h h' _ _ (omega arith) (omega arith) rest in
    (blocks, heights, to_be_bytes-injective 4 r r' (omega arith) (omega arith) rounds)
