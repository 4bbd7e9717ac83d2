-- ===== src/Bft/Wire/Codec/Inverse.antt =====
-- Decoding gives back the message that was encoded, and refuses more bytes than its encoding.
use aii.Base.{
  ℕ, ◌+◌, ◌≤◌, ◌≡◌, refl, ap, ◌∙◌, List, [], ◌∷◌, ◌++◌, ok, Bool, arith, length, take, drop,
  length-append, take-length_append, drop-length_append,
}
use aii.Base.Slices.{drop-drop, take-all}
use aii.Bft.Votes.{VoteKind, Vote, precommit, LeaderProof}
use aii.Bft.Certificate.{Certificate}
use aii.Bft.Wire.{
  BftMessage, proposal, prevote_message, precommit_message, block_request, block_response,
  clamp_len, encode, encoded_len, encode_vote, encode_precommit_certificate, decode,
  decode_proposal, decode_precommit_certificate, decode_block_response, max_block_response_len,
}
use aii.Bft.Wire.Layout.{Reads, frame, FieldsFit, frame-Reads, length-frame}
use aii.Bft.Wire.Codec.{proposal_fields, vote_fields, cert_fields, Fits, CertFits}
use aii.Bft.Wire.Codec.Reading.{
  decode_proposal-Reads, decode_block_request-Reads, decode_vote-prevote, decode_vote-precommit,
  decode_precommit_certificate-Reads, decode_block_response-Reads,
}

-- `encode` allocates what it fills: the encoding has the length of `encoded_len`.
pub length-encode : (m : BftMessage) → length (encode m) ≡ encoded_len m
unfolding encode encoded_len
length-encode (proposal height round block_hash leader_proof coinbase body) = omega (
  arith,
  length-frame
      (proposal_fields height round block_hash leader_proof coinbase (clamp_len (length body)))
      body,
)
length-encode (prevote_message v) = omega (arith, length-frame (vote_fields v) [])
length-encode (precommit_message v) = omega (arith, length-frame (vote_fields v) [])
length-encode (block_request height) = omega (arith, length-frame ((8, height) ∷ []) [])
length-encode (block_response block_bytes cert) = omega (
  arith,
  length-frame ((4, clamp_len (length block_bytes)) ∷ [])
      (block_bytes ++ encode_precommit_certificate cert),
  length-append block_bytes (encode_precommit_certificate cert),
  length-frame (cert_fields cert) [],
)

-- Below the caps, a length is encoded as it is.
pub clamp_small : (n : ℕ) → n ≤ max_block_response_len → clamp_len n ≡ n
clamp_small n small = ground (arith, small)

take-append_all : (xs : List ℕ) → take (length xs) xs ≡ xs
take-append_all xs = take-all xs

module _ (is_point : ℕ → Bool) where
  vote-Reads :
      {kind : VoteKind} (t : ℕ) (v : Vote kind)
      → FieldsFit (vote_fields v)
      → Reads 1 (vote_fields v) (t ∷ encode_vote v) × (length (t ∷ encode_vote v) ≡ 145)
  vote-Reads t v fits =
      let (reads, _) = frame-Reads 1 (vote_fields v) [] (t ∷ encode_vote v) fits refl in
      (reads, omega (arith, length-frame (vote_fields v) []))

  decode_precommit_certificate-encode :
      (cert : Certificate precommit)
      → CertFits is_point cert
      → decode_precommit_certificate is_point (encode_precommit_certificate cert) ≡ ok cert
  decode_precommit_certificate-encode cert fits =
      let bytes = encode_precommit_certificate cert in
      let (reads, _) = frame-Reads 0 (cert_fields cert) [] bytes fits.0 refl in
      decode_precommit_certificate-Reads is_point bytes cert reads fits.1
        (omega (arith, length-frame (cert_fields cert) []))

  decode-proposal :
      (height round block_hash : ℕ) (leader_proof : LeaderProof) (coinbase : ℕ) (body : List ℕ)
      → Fits is_point (proposal height round block_hash leader_proof coinbase body)
      → decode is_point (encode (proposal height round block_hash leader_proof coinbase body))
        ≡ ok (proposal height round block_hash leader_proof coinbase body)
  unfolding encode decode
  decode-proposal height round block_hash leader_proof coinbase body fits =
      let fields = proposal_fields height round block_hash leader_proof coinbase in
      let size = length body in
      let bytes = 0 ∷ frame (fields size) body in
      let clamped : clamp_len size ≡ size =
        let small = fits.2 in clamp_small size (omega (arith, small)) in
      let (reads, after) = frame-Reads 1 (fields size) body bytes fits.0 refl in
      ap (λ n. decode_proposal (0 ∷ frame (fields n) body)) clamped
      ∙ decode_proposal-Reads bytes body height round block_hash leader_proof coinbase reads
          (ap (take size) after ∙ take-all body) fits.2
          (omega (arith, length-frame (fields size) body))

  decode-block_response :
      (block_bytes : List ℕ) (cert : Certificate precommit)
      → Fits is_point (block_response block_bytes cert)
      → decode is_point (encode (block_response block_bytes cert))
        ≡ ok (block_response block_bytes cert)
  unfolding encode decode
  decode-block_response block_bytes cert fits =
      let size = length block_bytes in
      let tail = block_bytes ++ encode_precommit_certificate cert in
      let bytes = 4 ∷ frame ((4, size) ∷ []) tail in
      let small = fits.2 in
      let (reads, after) =
        frame-Reads 1 ((4, size) ∷ []) tail bytes ((omega (arith, small)), tt) refl in
      let cert_bytes : drop (5 + size) bytes ≡ encode_precommit_certificate cert =
        drop-drop 5 size bytes
        ∙ ap (drop size) after
        ∙ drop-length_append block_bytes (encode_precommit_certificate cert) in
      ap (λ n. decode_block_response is_point (4 ∷ frame ((4, n) ∷ []) tail))
        (clamp_small size small)
      ∙ decode_block_response-Reads is_point bytes block_bytes cert reads.0
          (ap (take size) after
            ∙ take-length_append block_bytes (encode_precommit_certificate cert))
          small
          (omega (
            arith,
            length-frame ((4, size) ∷ []) tail,
            length-append block_bytes (encode_precommit_certificate cert),
            length-frame (cert_fields cert) [],
          ))
          (ap (decode_precommit_certificate is_point) cert_bytes
            ∙ decode_precommit_certificate-encode cert fits.0)

  pub decode-encode : (m : BftMessage) → Fits is_point m → decode is_point (encode m) ≡ ok m
  unfolding encode decode
  decode-encode (proposal height round block_hash leader_proof coinbase body) fits =
      decode-proposal height round block_hash leader_proof coinbase body fits
  decode-encode (prevote_message v) fits =
      let (reads, count) = vote-Reads 1 v fits.0 in
      decode_vote-prevote is_point (1 ∷ encode_vote v) v reads fits.1 count
  decode-encode (precommit_message v) fits =
      let (reads, count) = vote-Reads 2 v fits.0 in
      decode_vote-precommit is_point (2 ∷ encode_vote v) v reads fits.1 count
  decode-encode (block_request height) fits =
      let bytes = 3 ∷ frame ((8, height) ∷ []) [] in
      let (reads, _) = frame-Reads 1 ((8, height) ∷ []) [] bytes (fits, tt) refl in
      decode_block_request-Reads bytes height reads.0
        (omega (arith, length-frame ((8, height) ∷ []) []))
  decode-encode (block_response block_bytes cert) fits = decode-block_response block_bytes cert fits
