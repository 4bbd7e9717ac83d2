-- ===== src/Bft/Wire/Codec/Passing.antt =====
-- Decoders that succeed: the tests that they have passed, and what they give.
use aii.Base.{
  ℕ, ◌+◌, ◌≤◌, ◌≡◌, ◌⊎◌, inl, inr, refl, ap, sym, ◌∙◌, List, [], ◌∷◌, Result, ok, err, panic, ◌>>=◌,
  Bool, true, false, ltb, ◌==◌, ◌!=◌, if◌then◌else◌, arith, length, take, drop, All,
}
use aii.Base.Slices.{split_lengths}
use aii.Bft.Votes.{VoteKind, Vote, precommit}
use aii.Bft.Certificate.{Certificate}
use aii.Bft.Wire.{
  make_vote, BftMessage, proposal, prevote_message, precommit_message, block_response, CodecError,
  encode_vote, decode_proposal, decode_vote, decode_precommit_certificate, decode_block_response,
  tag_prevote, max_proposal_body_len, max_block_response_len,
}
use aii.Bft.Wire.Layout.{field}
use aii.Bft.Wire.Layout.{frame, FieldsFit, Reads-frame}
use aii.Bft.Wire.Codec.{IsByte, vote_fields}
use aii.Bft.Wire.Codec.Total.{
  decode_proposal-total, decode_vote-total, decode_precommit_certificate-total,
  decode_block_response-total,
}

-- Bytes that are dropped past the end leave nothing.
pub drop-end : (n : ℕ) (xs : List ℕ) → length xs ≡ n → drop n xs ≡ []
drop-end n xs count = go (drop n xs) (split_lengths n 0 xs (omega (arith, count))).1
  where
    go : (ys : List ℕ) → length ys ≡ 0 → ys ≡ []
    go [] h = refl
    go (y ∷ ys) h = absurd (omega arith)

pub length-drop : (n k : ℕ) (xs : List ℕ) → length xs ≡ n + k → length (drop n xs) ≡ k
length-drop n k xs h = (split_lengths n k xs h).1

-- A vote, as its fields are read.
abbrev pub vote_at : {kind : VoteKind} → List ℕ → Vote kind
vote_at bytes = record {
  block_hash = field bytes 1 32;
  height = field bytes 33 8;
  round = field bytes 41 4;
  validator_index = field bytes 45 4;
  bls_sig = field bytes 49 96;
}

pub vote_at-encode :
    (kind : VoteKind) (bytes : List ℕ)
    → All IsByte bytes
    → length bytes ≡ 145
    → FieldsFit (vote_fields (vote_at {kind = kind} bytes))
      × (drop 1 bytes ≡ encode_vote (vote_at {kind = kind} bytes))
vote_at-encode kind bytes all count =
    let fields = vote_fields (vote_at {kind = kind} bytes) in
    let (fits, e) =
      Reads-frame 1 fields bytes 0 all (length-drop 1 144 bytes count)
        (refl, (refl, (refl, (refl, (refl, tt))))) in
    (fits, e ∙ ap (frame fields) (drop-end 145 bytes count))

abbrev pub proposal_at : List ℕ → BftMessage
proposal_at bytes =
    proposal (field bytes 1 8) (field bytes 9 4) (field bytes 13 32)
      (record { vrf_proof = field bytes 45 96; vrf_output = field bytes 141 32 })
      (field bytes 173 20) (take (field bytes 193 4) (drop 197 bytes))

-- A test past which there is a result did not hold; and one before it, the other way round.
pub pass_test :
    {A : Type 0} (t : Bool) (e : CodecError) (r : Result CodecError A) {m : A}
    → (if t then err e else r) ≡ ok m
    → (t ≡ false) × (r ≡ ok m)
pass_test true e r h = absurd (cc h)
pass_test false e r h = (refl, h)

pub meet_test :
    {A : Type 0} (t : Bool) (e : CodecError) (r : Result CodecError A) {m : A}
    → (if t then r else err e) ≡ ok m
    → (t ≡ true) × (r ≡ ok m)
meet_test true e r h = (refl, h)
meet_test false e r h = absurd (cc h)

pub same_ok : {A : Type 0} {x y : A} → ◌≡◌ {A = Result CodecError A} (ok x) (ok y) → x ≡ y
same_ok h = cc

pub same_number : (n k : ℕ) → (n != k) ≡ false → n ≡ k
same_number n k h = ground (arith, h)

pub proposal-passes :
    (n k : ℕ)
    → (n != 197 + k) ≡ false
    → ltb max_proposal_body_len k ≡ false
    → (n ≡ 197 + k) × (k ≤ max_proposal_body_len)
proposal-passes n k count small = ground (arith, count, small)

-- What `decode_proposal` gives, if it succeeds.
pub decode_proposal-passes :
    (bytes : List ℕ) (m : BftMessage)
    → decode_proposal bytes ≡ ok m
    → (length bytes ≡ 197 + field bytes 193 4)
      × (field bytes 193 4 ≤ max_proposal_body_len)
      × (proposal_at bytes ≡ m)
decode_proposal-passes bytes m h =
    let (_, h1) = pass_test _ _ _ (sym (decode_proposal-total bytes) ∙ h) in
    let (small, h2) = pass_test _ _ _ h1 in
    let (count, h3) = pass_test _ _ _ h2 in
    let (n, k) = proposal-passes (length bytes) (field bytes 193 4) count small in
    (n, k, same_ok h3)

pub branch :
    {A : Type 0} (t : Bool) (x y : A) {r : A}
    → (if t then x else y) ≡ r
    → ((t ≡ true) × (x ≡ r)) ⊎ ((t ≡ false) × (y ≡ r))
branch true x y h = inl (refl, h)
branch false x y h = inr (refl, h)

pub same_tag : (n k : ℕ) → (n == k) ≡ true → n ≡ k
same_tag n k h = ground (arith, h)

module _ (is_point : ℕ → Bool) where
  -- `decode_vote` that succeeds.
  pub decode_vote-passes :
      (bytes : List ℕ) (t : ℕ) (m : BftMessage)
      → decode_vote is_point bytes t ≡ ok m
      → (length bytes ≡ 145)
        × (is_point (field bytes 49 96) ≡ true)
        × ((if t == tag_prevote
              then prevote_message (vote_at bytes)
              else precommit_message (vote_at bytes))
            ≡ m)
  unfolding make_vote
  decode_vote-passes bytes t m h =
      let (count, h1) = pass_test _ _ _ (sym (decode_vote-total is_point bytes t) ∙ h) in
      let (point, h2) = meet_test _ _ _ h1 in
      (same_number (length bytes) 145 count, point, push (t == tag_prevote) _ _ h2)
    where
      push :
          (t : Bool) (x y : BftMessage)
          → ◌≡◌ {A = Result CodecError BftMessage} (if t then ok x else ok y) (ok m)
          → (if t then x else y) ≡ m
      push true x y h = same_ok h
      push false x y h = same_ok h

  abbrev pub cert_at : List ℕ → Certificate precommit
  cert_at bytes = record {
    block_hash = field bytes 0 32;
    height = field bytes 32 8;
    round = field bytes 40 4;
    signer_bitmap = field bytes 44 16;
    aggregated_sig = field bytes 60 96;
  }

  pub decode_precommit_certificate-passes :
      (bytes : List ℕ) (cert : Certificate precommit)
      → decode_precommit_certificate is_point bytes ≡ ok cert
      → (length bytes ≡ 156) × (is_point (field bytes 60 96) ≡ true) × (cert_at bytes ≡ cert)
  decode_precommit_certificate-passes bytes cert h =
      let (count, h1) =
        pass_test _ _ _ (sym (decode_precommit_certificate-total is_point bytes) ∙ h) in
      let (point, h2) = meet_test _ _ _ h1 in
      (same_number (length bytes) 156 count, point, same_ok h2)

  pub response-passes :
      (n k : ℕ)
      → (n != 5 + k + 156) ≡ false
      → ltb max_block_response_len k ≡ false
      → (n ≡ 161 + k) × (k ≤ max_block_response_len)
  response-passes n k count small = ground (arith, count, small)

  pub bind_ok :
      {A B : Type 0} (r : Result CodecError A) (f : A → B) (y : B)
      → (r >>= λ x. ok (f x)) ≡ ok y
      → (x : A) × (r ≡ ok x) × (f x ≡ y)
  bind_ok (ok x) f y h = (x, refl, same_ok h)
  bind_ok (err e) f y h = absurd (cc h)
  bind_ok panic f y h = absurd (cc h)

  pub decode_block_response-passes :
      (bytes : List ℕ) (m : BftMessage)
      → decode_block_response is_point bytes ≡ ok m
      → (length bytes ≡ 161 + field bytes 1 4)
        × (field bytes 1 4 ≤ max_block_response_len)
        × (cert : Certificate precommit) × (decode_precommit_certificate is_point
              (drop (5 + field bytes 1 4) bytes)
            ≡ ok cert)
        × (block_response (take (field bytes 1 4) (drop 5 bytes)) cert ≡ m)
  decode_block_response-passes bytes m h =
      let (_, h1) = pass_test _ _ _ (sym (decode_block_response-total is_point bytes) ∙ h) in
      let (capped, h2) = pass_test _ _ _ h1 in
      let (counted, h3) = pass_test _ _ _ h2 in
      let (count, small) = response-passes (length bytes) (field bytes 1 4) counted capped in
      let (cert, made, same) =
        bind_ok _ (λ k. block_response (take (field bytes 1 4) (drop 5 bytes)) k) m h3 in
      (count, small, cert, made, same)
