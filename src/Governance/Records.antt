-- ===== src/Governance/Records.antt =====
-- What is stored for a proposal is read back.
use aii.Base.{
  ◌-◌, ℕ, ◌+◌, ◌^◌, ◌<◌, ◌≡◌, ◌≢◌, refl, ap, ◌∙◌, some, List, [], ◌∷◌, ok, arith, Bool, true, false,
  ltb, length, take, drop, to_be_bytes, length-append, length-to_be_bytes, min, u32_mod,
}
use aii.Base.Slices.{take-all}
use aii.Bft.Wire.Layout.{FieldsFit, frame, frame-Reads, length-frame}
use aii.Storage.{KvBackend, Bytes, meta}
use aii.Governance.{
  ProposalStatus, pending, passed, rejected, executed, status_byte, status_of, Proposal, prop_key,
  prop_prefix, tally_key, tally_prefix, encode_proposal, decode_proposal,
}
use aii.Governance.Calls.{get_proposal}

abbrev pub fields : Proposal → List (ℕ × ℕ)
fields p =
    (8, p.id)
    ∷ (8, p.voting_ends_at)
    ∷ (1, status_byte p.status)
    ∷ (20, p.proposer)
    ∷ (4, length p.title)
    ∷ []

status_of-status_byte : (s : ProposalStatus) → status_of (status_byte s) ≡ s
status_of-status_byte pending = refl
status_of-status_byte passed = refl
status_of-status_byte rejected = refl
status_of-status_byte executed = refl

pub status_byte-lt : (s : ProposalStatus) → status_byte s < 256
status_byte-lt pending = omega arith
status_byte-lt passed = omega arith
status_byte-lt rejected = omega arith
status_byte-lt executed = omega arith

-- The two tests of `decode_proposal` on the length.
checks : (n k : ℕ) → n ≡ 41 + k → (ltb n 41 ≡ false) × (ltb n (41 + k) ≡ false)
checks n k count = ground (arith, count)

small_title : (n : ℕ) → n < 256 ^ 4 → min n (u32_mod - 1) ≡ n
small_title n small = ground (arith, small)

module _ (is_utf8 : Bytes → Bool) where
  -- The numbers of a proposal fit in their widths, and its title is UTF-8 of a length below 2 ^ 32.
  pub record Fits (p : Proposal) : Type 0 where
    pub widths : FieldsFit (fields p)
    pub text : is_utf8 p.title ≡ true

  pub decode_proposal-encode_proposal :
      (p : Proposal) → Fits p → decode_proposal is_utf8 (encode_proposal p) ≡ some p
  unfolding decode_proposal encode_proposal
  decode_proposal-encode_proposal p f =
      let bytes = frame (fields p) p.title in
      let (reads, after) = frame-Reads 0 (fields p) p.title bytes f.widths refl in
      let e1 = reads.0 in
      let e2 = reads.1.0 in
      let e3 = reads.1.1.0 in
      let e4 = reads.1.1.1.0 in
      let e5 = reads.1.1.1.1.0 in
      let title : take (length p.title) (drop 41 bytes) ≡ p.title =
        ap (take (length p.title)) after ∙ take-all p.title in
      let (long, whole) =
        checks (length bytes) (length p.title) (omega (arith, length-frame (fields p) p.title)) in
      let text = f.text in
      let decoded : decode_proposal is_utf8 bytes ≡ some p =
        rw
          (
            decode_proposal,
            e1,
            e2,
            e3,
            e4,
            e5,
            title,
            long,
            whole,
            text,
            status_of-status_byte p.status,
          )
          refl in
      ap
        (λ n. decode_proposal is_utf8 (
          frame
            ((8, p.id)
              ∷ (8, p.voting_ends_at)
              ∷ (1, status_byte p.status)
              ∷ (20, p.proposer)
              ∷ (4, n)
              ∷ [])
            p.title))
        (small_title (length p.title) f.widths.1.1.1.1.0)
      ∙ decoded

  tally_key-ne-prop_key : (i j : ℕ) → tally_key i ≢ prop_key j
  unfolding tally_key prop_key
  tally_key-ne-prop_key i j e = omega (
    arith,
    ap (λ (xs : Bytes). length xs) e,
    length-append tally_prefix (to_be_bytes 8 i),
    length-append prop_prefix (to_be_bytes 8 j),
    length-to_be_bytes 8 i,
    length-to_be_bytes 8 j,
  )

  module _ {S : Type 0} (kv : KvBackend S) where
    -- A proposal that is stored is read, also past a tally that is stored.
    pub put-get_proposal :
        (s s1 s2 : S) (id i : ℕ) (p : Proposal) (totals : Bytes)
        → Fits p
        → kv.put s meta (prop_key id) (encode_proposal p) ≡ ok s1
        → kv.put s1 meta (tally_key i) totals ≡ ok s2
        → get_proposal is_utf8 kv s2 id ≡ ok (some p)
    unfolding get_proposal
    put-get_proposal s s1 s2 id i p totals f first second =
        let stored = kv.put-get s s1 meta (prop_key id) (encode_proposal p) first in
        let kept =
          kv.put-get_other s1 s2 meta (tally_key i) totals (prop_key id) second
            (tally_key-ne-prop_key i id) in
        let read : kv.get s2 meta (prop_key id) ≡ ok (some (encode_proposal p)) = kept ∙ stored in
        rw (read, decode_proposal-encode_proposal p f) refl
