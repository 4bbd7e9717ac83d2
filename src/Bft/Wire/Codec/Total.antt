-- ===== src/Bft/Wire/Codec/Total.antt =====
-- The decoders with no panic in them, and that they are the decoders of the source: each slice is within
-- the bytes, by the tests of the length.
use aii.Base.{
  ℕ, ◌+◌, ◌≤◌, ◌≡◌, refl, inl, inr, List, Result, ok, err, panic, ◌>>=◌, Bool, false, ltb, ◌!=◌,
  if◌then◌else◌, arith, length, take, drop, Bool-cases,
}
use aii.Bft.Votes.{precommit, LeaderProof}
use aii.Bft.Certificate.{Certificate}
use aii.Bft.Wire.{
  BftMessage, proposal, block_request, block_response, CodecError, wrong_length,
  proposal_body_too_large, block_response_too_large, invalid_bls_signature, read_slice, read_from,
  read_field, read_body, decode_proposal, make_vote, decode_vote, decode_block_request,
  decode_precommit_certificate, read_block, decode_block_response, max_proposal_body_len,
  max_block_response_len,
}
use aii.Bft.Wire.Layout.{field}

read_slice-within :
    (bytes : List ℕ) (cur n : ℕ)
    → cur + n ≤ length bytes
    → read_slice bytes cur n ≡ ok (take n (drop cur bytes))
unfolding read_slice
read_slice-within bytes cur n h = go (length bytes) h
  where
    go :
        (k : ℕ)
        → cur + n ≤ k
        → ◌≡◌ {A = Result CodecError (List ℕ)}
            (if ltb k (cur + n) then panic else ok (take n (drop cur bytes)))
            (ok (take n (drop cur bytes)))
    go k h = ground (arith, h)

read_from-within :
    (bytes : List ℕ) (cur : ℕ) → cur ≤ length bytes → read_from bytes cur ≡ ok (drop cur bytes)
unfolding read_from
read_from-within bytes cur h = ground (arith, h)

read_field-within :
    (bytes : List ℕ) (cur n : ℕ)
    → cur + n ≤ length bytes
    → read_field bytes cur n ≡ ok (field bytes cur n)
unfolding read_field
read_field-within bytes cur n h = rw (read_slice-within bytes cur n h) refl

abbrev pub proposal_total : List ℕ → Result CodecError BftMessage
proposal_total bytes =
    let body_len = field bytes 193 4 in
    if ltb (length bytes) 197
    then err (wrong_length 197 (length bytes))
    else if ltb max_proposal_body_len body_len
    then err (proposal_body_too_large max_proposal_body_len body_len)
    else if length bytes != 197 + body_len
    then err (wrong_length (197 + body_len) (length bytes))
    else ok (
        proposal (field bytes 1 8) (field bytes 9 4) (field bytes 13 32)
          (record { vrf_proof = field bytes 45 96; vrf_output = field bytes 141 32 })
          (field bytes 173 20) (take body_len (drop 197 bytes)))

whole_body : (n k : ℕ) → (n != 197 + k) ≡ false → 197 + k ≤ n
whole_body n k h = ground (arith, h)

read_body-total :
    (bytes : List ℕ) (height round block_hash : ℕ) (leader_proof : LeaderProof) (coinbase k : ℕ)
    → read_body bytes height round block_hash leader_proof coinbase k ≡ (
        if ltb max_proposal_body_len k
        then err (proposal_body_too_large max_proposal_body_len k)
        else if length bytes != 197 + k
        then err (wrong_length (197 + k) (length bytes))
        else ok (proposal height round block_hash leader_proof coinbase (take k (drop 197 bytes))))
unfolding read_body
read_body-total bytes height round block_hash leader_proof coinbase k =
    elim (Bool-cases (length bytes != 197 + k)) [
      | inl off ↦ rw off refl
      | inr fits ↦ rw (fits, read_slice-within bytes 197 k (whole_body (length bytes) k fits)) refl
    ]

long_enough : (n k : ℕ) → ltb n k ≡ false → k ≤ n
long_enough n k h = ground (arith, h)

pub decode_proposal-total : (bytes : List ℕ) → decode_proposal bytes ≡ proposal_total bytes
unfolding decode_proposal
decode_proposal-total bytes = elim (Bool-cases (ltb (length bytes) 197)) [
  | inl short ↦ rw short refl
  | inr enough ↦
      let long = long_enough (length bytes) 197 enough in
      let e1 = read_field-within bytes 1 8 (omega (arith, long)) in
      let e2 = read_field-within bytes 9 4 (omega (arith, long)) in
      let e3 = read_field-within bytes 13 32 (omega (arith, long)) in
      let e4 = read_field-within bytes 45 96 (omega (arith, long)) in
      let e5 = read_field-within bytes 141 32 (omega (arith, long)) in
      let e6 = read_field-within bytes 173 20 (omega (arith, long)) in
      let e7 = read_field-within bytes 193 4 (omega (arith, long)) in
      rw (enough, e1, e2, e3, e4, e5, e6, e7) (read_body-total bytes _ _ _ _ _ _)
]

exactly : (n k : ℕ) → (n != k) ≡ false → n ≡ k
exactly n k h = ground (arith, h)

abbrev pub request_total : List ℕ → Result CodecError BftMessage
request_total bytes =
    if length bytes != 9
    then err (wrong_length 9 (length bytes))
    else ok (block_request (field bytes 1 8))

pub decode_block_request-total : (bytes : List ℕ) → decode_block_request bytes ≡ request_total bytes
unfolding decode_block_request
decode_block_request-total bytes = elim (Bool-cases (length bytes != 9)) [
  | inl off ↦ rw off refl
  | inr fits ↦
      let count = exactly (length bytes) 9 fits in
      rw (fits, read_field-within bytes 1 8 (omega (arith, count))) refl
]

module _ (is_point : ℕ → Bool) where
  abbrev pub vote_total : List ℕ → ℕ → Result CodecError BftMessage
  vote_total bytes tag =
      if length bytes != 145
      then err (wrong_length 145 (length bytes))
      else make_vote is_point tag (field bytes 1 32) (field bytes 33 8) (field bytes 41 4)
          (field bytes 45 4) (field bytes 49 96)

  pub decode_vote-total :
      (bytes : List ℕ) (tag : ℕ) → decode_vote is_point bytes tag ≡ vote_total bytes tag
  unfolding decode_vote
  decode_vote-total bytes tag = elim (Bool-cases (length bytes != 145)) [
    | inl off ↦ rw off refl
    | inr fits ↦
        let count = exactly (length bytes) 145 fits in
        let e1 = read_field-within bytes 1 32 (omega (arith, count)) in
        let e2 = read_field-within bytes 33 8 (omega (arith, count)) in
        let e3 = read_field-within bytes 41 4 (omega (arith, count)) in
        let e4 = read_field-within bytes 45 4 (omega (arith, count)) in
        let e5 = read_field-within bytes 49 96 (omega (arith, count)) in
        rw (fits, e1, e2, e3, e4, e5) refl
  ]

  abbrev pub certificate_total : List ℕ → Result CodecError (Certificate precommit)
  certificate_total bytes =
      if length bytes != 156
      then err (wrong_length 156 (length bytes))
      else if is_point (field bytes 60 96)
      then ok (record {
        block_hash = field bytes 0 32;
        height = field bytes 32 8;
        round = field bytes 40 4;
        signer_bitmap = field bytes 44 16;
        aggregated_sig = field bytes 60 96;
      })
      else err invalid_bls_signature

  pub decode_precommit_certificate-total :
      (bytes : List ℕ) → decode_precommit_certificate is_point bytes ≡ certificate_total bytes
  unfolding decode_precommit_certificate
  decode_precommit_certificate-total bytes = elim (Bool-cases (length bytes != 156)) [
    | inl off ↦ rw off refl
    | inr fits ↦
        let count = exactly (length bytes) 156 fits in
        let e1 = read_field-within bytes 0 32 (omega (arith, count)) in
        let e2 = read_field-within bytes 32 8 (omega (arith, count)) in
        let e3 = read_field-within bytes 40 4 (omega (arith, count)) in
        let e4 = read_field-within bytes 44 16 (omega (arith, count)) in
        let e5 = read_field-within bytes 60 96 (omega (arith, count)) in
        rw (fits, e1, e2, e3, e4, e5) refl
  ]

  abbrev pub response_total : List ℕ → Result CodecError BftMessage
  response_total bytes =
      let len = field bytes 1 4 in
      if ltb (length bytes) 161
      then err (wrong_length 161 (length bytes))
      else if ltb max_block_response_len len
      then err (block_response_too_large max_block_response_len len)
      else if length bytes != 5 + len + 156
      then err (wrong_length (5 + len + 156) (length bytes))
      else decode_precommit_certificate is_point (drop (5 + len) bytes) >>= λ certificate.
          ok (block_response (take len (drop 5 bytes)) certificate)

  pub decode_block_response-total :
      (bytes : List ℕ) → decode_block_response is_point bytes ≡ response_total bytes
  unfolding decode_block_response read_block
  decode_block_response-total bytes =
      let len = field bytes 1 4 in
      elim (Bool-cases (ltb (length bytes) 161)) [
        | inl short ↦ rw short refl
        | inr enough ↦
            let long = long_enough (length bytes) 161 enough in
            let e = read_field-within bytes 1 4 (omega (arith, long)) in
            elim (Bool-cases (length bytes != 5 + len + 156)) [
              | inl off ↦ rw (enough, e, off) refl
              | inr fits ↦
                  let count = exactly (length bytes) (5 + len + 156) fits in
                  let block = read_slice-within bytes 5 len (omega (arith, count)) in
                  let rest = read_from-within bytes (5 + len) (omega (arith, count)) in
                  rw (enough, e, fits, block, rest) refl
            ]
      ]
