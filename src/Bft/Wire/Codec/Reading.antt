-- ===== src/Bft/Wire/Codec/Reading.antt =====
-- What the decoders give on bytes from which the fields are read.
use aii.Base.{
  ℕ, ◌+◌, ◌≤◌, ◌≡◌, refl, ◌∙◌, List, ok, Bool, true, false, ltb, ◌!=◌, arith, length, take, drop,
}
use aii.Bft.Votes.{Vote, prevote, precommit, LeaderProof}
use aii.Bft.Certificate.{Certificate}
use aii.Bft.Wire.{
  make_vote, proposal, prevote_message, precommit_message, block_request, block_response,
  decode_proposal, decode_vote, decode_block_request, decode_precommit_certificate,
  decode_block_response, tag_prevote, tag_precommit, max_proposal_body_len, max_block_response_len,
}
use aii.Bft.Wire.Layout.{field}
use aii.Bft.Wire.Layout.{Reads}
use aii.Bft.Wire.Codec.{proposal_fields, vote_fields, cert_fields}
use aii.Bft.Wire.Codec.Total.{
  proposal_total, request_total, vote_total, certificate_total, response_total,
  decode_proposal-total, decode_block_request-total, decode_vote-total,
  decode_precommit_certificate-total, decode_block_response-total,
}

-- The tests of `decode_proposal`.
body-checks :
    (n k : ℕ)
    → n ≡ 197 + k
    → k ≤ max_proposal_body_len
    → (ltb n 197 ≡ false) × (ltb max_proposal_body_len k ≡ false) × ((n != 197 + k) ≡ false)
body-checks n k count small = ground (arith, count, small)

pub decode_proposal-Reads :
    (bytes body : List ℕ) (height round block_hash : ℕ) (leader_proof : LeaderProof) (coinbase : ℕ)
    → Reads 1 (proposal_fields height round block_hash leader_proof coinbase (length body)) bytes
    → take (length body) (drop 197 bytes) ≡ body
    → length body ≤ max_proposal_body_len
    → length bytes ≡ 197 + length body
    → decode_proposal bytes ≡ ok (proposal height round block_hash leader_proof coinbase body)
decode_proposal-Reads bytes body height round block_hash leader_proof coinbase reads rest small
      count =
    let e1 = reads.0 in
    let e2 = reads.1.0 in
    let e3 = reads.1.1.0 in
    let e4 = reads.1.1.1.0 in
    let e5 = reads.1.1.1.1.0 in
    let e6 = reads.1.1.1.1.1.0 in
    let e7 = reads.1.1.1.1.1.1.0 in
    let (long, within, whole) = body-checks (length bytes) (length body) count small in
    let read : proposal_total bytes
        ≡ ok (proposal height round block_hash leader_proof coinbase body) =
      rw (e1, e2, e3, e4, e5, e6, e7, rest, long, within, whole) refl in
    decode_proposal-total bytes ∙ read

pub decode_block_request-Reads :
    (bytes : List ℕ) (height : ℕ)
    → field bytes 1 8 ≡ height
    → length bytes ≡ 9
    → decode_block_request bytes ≡ ok (block_request height)
decode_block_request-Reads bytes height e count =
    let read : request_total bytes ≡ ok (block_request height) = ground (arith, e, count) in
    decode_block_request-total bytes ∙ read

module _ (is_point : ℕ → Bool) where
  pub decode_vote-prevote :
      (bytes : List ℕ) (v : Vote prevote)
      → Reads 1 (vote_fields v) bytes
      → is_point v.bls_sig ≡ true
      → length bytes ≡ 145
      → decode_vote is_point bytes tag_prevote ≡ ok (prevote_message v)
  unfolding make_vote
  decode_vote-prevote bytes v reads point count =
      let e1 = reads.0 in
      let e2 = reads.1.0 in
      let e3 = reads.1.1.0 in
      let e4 = reads.1.1.1.0 in
      let e5 = reads.1.1.1.1.0 in
      let read : vote_total is_point bytes tag_prevote ≡ ok (prevote_message v) =
        rw (e1, e2, e3, e4, e5, point) (ground (arith, count)) in
      decode_vote-total is_point bytes tag_prevote ∙ read

  pub decode_vote-precommit :
      (bytes : List ℕ) (v : Vote precommit)
      → Reads 1 (vote_fields v) bytes
      → is_point v.bls_sig ≡ true
      → length bytes ≡ 145
      → decode_vote is_point bytes tag_precommit ≡ ok (precommit_message v)
  unfolding make_vote
  decode_vote-precommit bytes v reads point count =
      let e1 = reads.0 in
      let e2 = reads.1.0 in
      let e3 = reads.1.1.0 in
      let e4 = reads.1.1.1.0 in
      let e5 = reads.1.1.1.1.0 in
      let read : vote_total is_point bytes tag_precommit ≡ ok (precommit_message v) =
        rw (e1, e2, e3, e4, e5, point) (ground (arith, count)) in
      decode_vote-total is_point bytes tag_precommit ∙ read

  pub decode_precommit_certificate-Reads :
      (bytes : List ℕ) (cert : Certificate precommit)
      → Reads 0 (cert_fields cert) bytes
      → is_point cert.aggregated_sig ≡ true
      → length bytes ≡ 156
      → decode_precommit_certificate is_point bytes ≡ ok cert
  decode_precommit_certificate-Reads bytes cert reads point count =
      let e1 = reads.0 in
      let e2 = reads.1.0 in
      let e3 = reads.1.1.0 in
      let e4 = reads.1.1.1.0 in
      let e5 = reads.1.1.1.1.0 in
      let read : certificate_total is_point bytes ≡ ok cert =
        rw (e1, e2, e3, e4, e5, point) (ground (arith, count)) in
      decode_precommit_certificate-total is_point bytes ∙ read

  pub decode_block_response-Reads :
      (bytes block_bytes : List ℕ) (cert : Certificate precommit)
      → field bytes 1 4 ≡ length block_bytes
      → take (length block_bytes) (drop 5 bytes) ≡ block_bytes
      → length block_bytes ≤ max_block_response_len
      → length bytes ≡ 161 + length block_bytes
      → decode_precommit_certificate is_point (drop (5 + length block_bytes) bytes) ≡ ok cert
      → decode_block_response is_point bytes ≡ ok (block_response block_bytes cert)
  decode_block_response-Reads bytes block_bytes cert e block small count made =
      let read : response_total is_point bytes ≡ ok (block_response block_bytes cert) =
        rw (e, block, made) (ground (arith, small, count)) in
      decode_block_response-total is_point bytes ∙ read
