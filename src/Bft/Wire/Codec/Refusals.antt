-- ===== src/Bft/Wire/Codec/Refusals.antt =====
-- What `decode` refuses: bytes after a message, and a body that is too large.
use aii.Base.{
  ℕ, suc, ◌+◌, ◌≤◌, ◌<◌, ◌≡◌, refl, ap, ◌∙◌, List, [], ◌∷◌, ◌++◌, err, Bool, true, false, ltb, ◌!=◌,
  arith, length, to_be_bytes, length-append,
}
use aii.Bft.Votes.{LeaderProof}
use aii.Bft.Wire.{
  BftMessage, proposal, prevote_message, precommit_message, block_request, block_response,
  wrong_length, proposal_body_too_large, clamp_len, encode, encoded_len, encode_vote,
  encode_precommit_certificate, decode, decode_proposal, decode_vote, decode_block_request,
  decode_block_response, max_proposal_body_len, max_block_response_len,
}
use aii.Bft.Wire.Layout.{field}
use aii.Bft.Wire.Layout.{frame, FieldsFit, frame-Reads, length-frame}
use aii.Bft.Wire.Codec.{proposal_fields, Fits}
use aii.Bft.Wire.Codec.Inverse.{clamp_small, length-encode}
use aii.Bft.Wire.Codec.Total.{
  decode_proposal-total, decode_block_request-total, decode_vote-total, decode_block_response-total,
}

append_assoc : (xs ys zs : List ℕ) → (xs ++ ys) ++ zs ≡ xs ++ (ys ++ zs)
append_assoc [] ys zs = refl
append_assoc (x ∷ xs) ys zs = ap (λ ws. x ∷ ws) (append_assoc xs ys zs)

frame-append :
    (fields : List (ℕ × ℕ)) (tail more : List ℕ)
    → frame fields tail ++ more ≡ frame fields (tail ++ more)
frame-append [] tail more = refl
frame-append ((n, x) ∷ fields) tail more =
    append_assoc (to_be_bytes n x) (frame fields tail) more
    ∙ ap (λ xs. to_be_bytes n x ++ xs) (frame-append fields tail more)

proposal-long :
    (n k extra : ℕ)
    → n ≡ 197 + k + suc extra
    → k ≤ max_proposal_body_len
    → (ltb n 197 ≡ false) × (ltb max_proposal_body_len k ≡ false) × ((n != 197 + k) ≡ true)
proposal-long n k extra count small = ground (arith, count, small)

response-long :
    (n k extra : ℕ)
    → n ≡ 5 + k + 156 + suc extra
    → k ≤ max_block_response_len
    → (ltb n 161 ≡ false) × (ltb max_block_response_len k ≡ false) × ((n != 5 + k + 156) ≡ true)
response-long n k extra count small = ground (arith, count, small)

other_length : (n k extra : ℕ) → n ≡ k + suc extra → (n != k) ≡ true
other_length n k extra h = ground (arith, h)

module _ (is_point : ℕ → Bool) where
  vote-long :
      (bytes : List ℕ) (t extra : ℕ)
      → length bytes ≡ 145 + suc extra
      → decode_vote is_point bytes t ≡ err (wrong_length 145 (145 + suc extra))
  vote-long bytes t extra count =
      decode_vote-total is_point bytes t
      ∙ rw (other_length (length bytes) 145 extra count) (ap (λ n. err (wrong_length 145 n)) count)

  request-long :
      (bytes : List ℕ) (extra : ℕ)
      → length bytes ≡ 9 + suc extra
      → decode_block_request bytes ≡ err (wrong_length 9 (9 + suc extra))
  request-long bytes extra count =
      decode_block_request-total bytes
      ∙ rw (other_length (length bytes) 9 extra count) (ap (λ n. err (wrong_length 9 n)) count)

  proposal_long-refused :
      (bytes : List ℕ) (k extra : ℕ)
      → field bytes 193 4 ≡ k
      → k ≤ max_proposal_body_len
      → length bytes ≡ 197 + k + suc extra
      → decode_proposal bytes ≡ err (wrong_length (197 + k) (197 + k + suc extra))
  proposal_long-refused bytes k extra e small count =
      let (long, within, off) = proposal-long (length bytes) k extra count small in
      decode_proposal-total bytes
      ∙ rw (e, long, within, off) (ap (λ n. err (wrong_length (197 + k) n)) count)

  response_long-refused :
      (bytes : List ℕ) (k extra : ℕ)
      → field bytes 1 4 ≡ k
      → k ≤ max_block_response_len
      → length bytes ≡ 5 + k + 156 + suc extra
      → decode_block_response is_point bytes
        ≡ err (wrong_length (5 + k + 156) (5 + k + 156 + suc extra))
  response_long-refused bytes k extra e small count =
      let (long, within, off) = response-long (length bytes) k extra count small in
      decode_block_response-total is_point bytes
      ∙ rw (e, long, within, off) (ap (λ n. err (wrong_length (5 + k + 156) n)) count)

  -- A message whose fields fit, followed by one byte or more, is refused: `decode` reports the length of
  -- the message's encoding as the length expected.
  pub decode-encode_trailing :
      (m : BftMessage) (y : ℕ) (ys : List ℕ)
      → Fits is_point m
      → decode is_point (encode m ++ y ∷ ys)
        ≡ err (wrong_length (encoded_len m) (encoded_len m + suc (length ys)))
  unfolding decode encode encoded_len
  decode-encode_trailing (proposal height round block_hash leader_proof coinbase body) y ys fits =
      let m = proposal height round block_hash leader_proof coinbase body in
      let fields = proposal_fields height round block_hash leader_proof coinbase in
      let size = length body in
      let small = fits.2 in
      let clamped = clamp_small size (omega (arith, small)) in
      let bytes = 0 ∷ (frame (fields size) body ++ y ∷ ys) in
      let (reads, _) =
        frame-Reads 1 (fields size) (body ++ y ∷ ys) bytes fits.0
          (frame-append (fields size) body (y ∷ ys)) in
      ap (λ n. decode_proposal (0 ∷ (frame (fields n) body ++ y ∷ ys))) clamped
      ∙ proposal_long-refused bytes size (length ys) reads.1.1.1.1.1.1.0 small (
          omega (
            arith,
            length-append (frame (fields size) body) (y ∷ ys),
            length-frame (fields size) body,
          ))
  decode-encode_trailing (prevote_message v) y ys fits =
      vote-long (1 ∷ (encode_vote v ++ y ∷ ys)) 1 (length ys) (
        omega (
          arith,
          length-append (encode (prevote_message v)) (y ∷ ys),
          length-encode (prevote_message v),
        ))
  decode-encode_trailing (precommit_message v) y ys fits =
      vote-long (2 ∷ (encode_vote v ++ y ∷ ys)) 2 (length ys) (
        omega (
          arith,
          length-append (encode (precommit_message v)) (y ∷ ys),
          length-encode (precommit_message v),
        ))
  decode-encode_trailing (block_request height) y ys fits =
      request-long (encode (block_request height) ++ y ∷ ys) (length ys) (
        omega (
          arith,
          length-append (encode (block_request height)) (y ∷ ys),
          length-encode (block_request height),
        ))
  decode-encode_trailing (block_response block_bytes cert) y ys fits =
      let size = length block_bytes in
      let tail = block_bytes ++ encode_precommit_certificate cert in
      let small = fits.2 in
      let bytes = 4 ∷ (frame ((4, size) ∷ []) tail ++ y ∷ ys) in
      let clamped = clamp_small size small in
      let (reads, _) =
        frame-Reads 1 ((4, size) ∷ []) (tail ++ y ∷ ys) bytes ((omega (arith, small)), tt)
          (frame-append ((4, size) ∷ []) tail (y ∷ ys)) in
      let whole : length (encode (block_response block_bytes cert))
          ≡ length (4 ∷ frame ((4, size) ∷ []) tail) =
        ap (λ n. length (4 ∷ frame ((4, n) ∷ []) tail)) clamped in
      ap (λ n. decode_block_response is_point (4 ∷ (frame ((4, n) ∷ []) tail ++ y ∷ ys))) clamped
      ∙ response_long-refused bytes size (length ys) reads.0 small (
          omega (
            arith,
            length-append (frame ((4, size) ∷ []) tail) (y ∷ ys),
            whole,
            length-encode (block_response block_bytes cert),
          ))

  oversized-refused :
      (bytes : List ℕ) (k : ℕ)
      → field bytes 193 4 ≡ k
      → max_proposal_body_len < k
      → 197 ≤ length bytes
      → decode_proposal bytes ≡ err (proposal_body_too_large max_proposal_body_len k)
  oversized-refused bytes k e large long =
      let (t1, t2) = tests (length bytes) k large long in
      decode_proposal-total bytes ∙ rw (e, t1, t2) refl
    where
      tests :
          (n k : ℕ)
          → max_proposal_body_len < k
          → 197 ≤ n
          → (ltb n 197 ≡ false) × (ltb max_proposal_body_len k ≡ true)
      tests n k large long = ground (arith, large, long)

  -- A proposal whose other fields fit and whose body is above the cap is encoded, but its encoding is
  -- refused: `decode` reports that the body is too large, not a wrong length.
  pub decode-encode_oversized :
      (height round block_hash : ℕ) (leader_proof : LeaderProof) (coinbase : ℕ) (body : List ℕ)
      → FieldsFit (proposal_fields height round block_hash leader_proof coinbase 0)
      → max_proposal_body_len < length body
      → decode is_point (encode (proposal height round block_hash leader_proof coinbase body))
        ≡ err (proposal_body_too_large max_proposal_body_len (clamp_len (length body)))
  unfolding decode encode
  decode-encode_oversized height round block_hash leader_proof coinbase body fits large =
      let size = clamp_len (length body) in
      let fields = proposal_fields height round block_hash leader_proof coinbase size in
      let (above, below) = clamped (length body) large in
      let fields_fit : FieldsFit fields = (
        fits.0,
        (fits.1.0, (fits.1.1.0, (fits.1.1.1.0, (fits.1.1.1.1.0, (fits.1.1.1.1.1.0, (below, tt)))))),
      ) in
      let (reads, _) = frame-Reads 1 fields body (0 ∷ frame fields body) fields_fit refl in
      oversized-refused (0 ∷ frame fields body) size reads.1.1.1.1.1.1.0 above
        (omega (arith, length-frame fields body))
    where
      clamped :
          (n : ℕ)
          → max_proposal_body_len < n
          → (max_proposal_body_len < clamp_len n) × (clamp_len n < 0x1_0000_0000)
      clamped n large = ground (arith, large)
