-- ===== src/Bft/Wire.antt =====
-- Messages on the wire: crates/aii-consensus-bft/src/wire.rs. Hashes, addresses and signatures are the
-- numbers that their bytes spell; a VRF proof is the number of its pre-output and its proof, 96 bytes
-- in one piece.
pub mod Layout
pub mod Codec
pub mod Tests
use aii.Base.{
  ℕ, ◌+◌, ◌-◌, ◌*◌, min, List, [], ◌∷◌, ◌++◌, Result, ok, err, panic, ◌>>=◌, Bool, ltb, ◌==◌, ◌!=◌,
  if◌then◌else◌, length, take, drop, to_be_bytes, from_be_bytes, u32_mod,
}
use aii.Bft.Votes.{VoteKind, Vote, prevote, precommit, LeaderProof}
use aii.Bft.Certificate.{Certificate}

abbrev pub tag_proposal : ℕ
tag_proposal = 0

abbrev pub tag_prevote : ℕ
tag_prevote = 1

abbrev pub tag_precommit : ℕ
tag_precommit = 2

abbrev pub tag_block_request : ℕ
tag_block_request = 3

abbrev pub tag_block_response : ℕ
tag_block_response = 4

abbrev pub block_request_len : ℕ
block_request_len = 9

abbrev pub block_response_header_len : ℕ
block_response_header_len = 5

abbrev pub block_cert_len : ℕ
block_cert_len = 156

abbrev pub block_response_min_len : ℕ
block_response_min_len = 161

abbrev pub proposal_header_len : ℕ
proposal_header_len = 193

abbrev pub proposal_min_len : ℕ
proposal_min_len = 197

abbrev pub max_proposal_body_len : ℕ
max_proposal_body_len = 16777216

abbrev pub max_block_response_len : ℕ
max_block_response_len = 16842752

abbrev pub vote_len : ℕ
vote_len = 145

pub data BftMessage : Type 0 where
  -- Height, round, hash of the block, leader proof, coinbase, bytes of the body.
  proposal : ℕ → ℕ → ℕ → LeaderProof → ℕ → List ℕ → BftMessage
  prevote_message : Vote prevote → BftMessage
  precommit_message : Vote precommit → BftMessage
  block_request : ℕ → BftMessage
  block_response : List ℕ → Certificate precommit → BftMessage

-- A length is that expected, then that found; a size is the cap, then that found.
pub data CodecError : Type 0 where
  empty : CodecError
  unknown_tag : ℕ → CodecError
  wrong_length : ℕ → ℕ → CodecError
  invalid_bls_signature : CodecError
  proposal_body_too_large : ℕ → ℕ → CodecError
  block_response_too_large : ℕ → ℕ → CodecError

unfoldable pub tag : BftMessage → ℕ
tag (proposal height round block_hash leader_proof coinbase body_bytes) = tag_proposal
tag (prevote_message v) = tag_prevote
tag (precommit_message v) = tag_precommit
tag (block_request height) = tag_block_request
tag (block_response block_bytes certificate) = tag_block_response

unfoldable pub encoded_len : BftMessage → ℕ
encoded_len (proposal height round block_hash leader_proof coinbase body_bytes) =
    proposal_min_len + length body_bytes
encoded_len (prevote_message v) = vote_len
encoded_len (precommit_message v) = vote_len
encoded_len (block_request height) = block_request_len
encoded_len (block_response block_bytes certificate) =
    block_response_header_len + length block_bytes + block_cert_len

-- `encode_vote_body`, and the signature after it.
abbrev pub encode_vote : {kind : VoteKind} → Vote kind → List ℕ
encode_vote v =
    to_be_bytes 32 v.block_hash
    ++ (to_be_bytes 8 v.height
        ++ (to_be_bytes 4 v.round
            ++ (to_be_bytes 4 v.validator_index ++ (to_be_bytes 96 v.bls_sig ++ []))))

abbrev pub encode_precommit_certificate : Certificate precommit → List ℕ
encode_precommit_certificate cert =
    to_be_bytes 32 cert.block_hash
    ++ (to_be_bytes 8 cert.height
        ++ (to_be_bytes 4 cert.round
            ++ (to_be_bytes 16 cert.signer_bitmap ++ (to_be_bytes 96 cert.aggregated_sig ++ []))))

-- `u32::try_from(len).unwrap_or(u32::MAX)`.
abbrev pub clamp_len : ℕ → ℕ
clamp_len n = min n (u32_mod - 1)

unfoldable pub encode : BftMessage → List ℕ
encode (proposal height round block_hash leader_proof coinbase body_bytes) =
    tag_proposal ∷ to_be_bytes 8 height
    ++ (to_be_bytes 4 round
        ++ (to_be_bytes 32 block_hash
            ++ (to_be_bytes 96 leader_proof.vrf_proof
                ++ (to_be_bytes 32 leader_proof.vrf_output
                    ++ (to_be_bytes 20 coinbase
                        ++ (to_be_bytes 4 (clamp_len (length body_bytes)) ++ body_bytes))))))
encode (prevote_message v) = tag_prevote ∷ encode_vote v
encode (precommit_message v) = tag_precommit ∷ encode_vote v
encode (block_request height) = tag_block_request ∷ to_be_bytes 8 height ++ []
encode (block_response block_bytes certificate) =
    tag_block_response ∷ to_be_bytes 4 (clamp_len (length block_bytes))
    ++ (block_bytes ++ encode_precommit_certificate certificate)

-- `bytes[cur..cur + n]`, which panics past the end.
unfoldable pub read_slice : List ℕ → ℕ → ℕ → Result CodecError (List ℕ)
read_slice bytes cur n =
    if ltb (length bytes) (cur + n) then panic else ok (take n (drop cur bytes))

-- `bytes[cur..]`, which panics past the end.
unfoldable pub read_from : List ℕ → ℕ → Result CodecError (List ℕ)
read_from bytes cur = if ltb (length bytes) cur then panic else ok (drop cur bytes)

-- The number that a slice spells.
unfoldable pub read_field : List ℕ → ℕ → ℕ → Result CodecError ℕ
read_field bytes cur n = read_slice bytes cur n >>= (λ xs. ok (from_be_bytes xs))

-- `decode_proposal` from its test of the cap on.
unfoldable pub read_body : List ℕ → ℕ → ℕ → ℕ → LeaderProof → ℕ → ℕ → Result CodecError BftMessage
read_body bytes height round block_hash leader_proof coinbase body_len =
    let expected_total = proposal_min_len + body_len in
    if ltb max_proposal_body_len body_len
    then err (proposal_body_too_large max_proposal_body_len body_len)
    else if length bytes != expected_total
    then err (wrong_length expected_total (length bytes))
    else read_slice bytes 197 body_len
      >>= (λ body_bytes. ok (proposal height round block_hash leader_proof coinbase body_bytes))

unfoldable pub decode_proposal : List ℕ → Result CodecError BftMessage
decode_proposal bytes =
    let read : Result CodecError BftMessage = do
      height ← read_field bytes 1 8
      round ← read_field bytes 9 4
      block_hash ← read_field bytes 13 32
      vrf_proof ← read_field bytes 45 96
      vrf_output ← read_field bytes 141 32
      coinbase ← read_field bytes 173 20
      body_len ← read_field bytes 193 4
      read_body bytes height round block_hash
          (record { vrf_proof = vrf_proof; vrf_output = vrf_output }) coinbase body_len
    in if ltb (length bytes) proposal_min_len
      then err (wrong_length proposal_min_len (length bytes))
      else read

unfoldable pub decode_block_request : List ℕ → Result CodecError BftMessage
decode_block_request bytes =
    if length bytes != block_request_len
    then err (wrong_length block_request_len (length bytes))
    else read_field bytes 1 8 >>= (λ height. ok (block_request height))

-- `bls::Signature::from_compressed` on 96 bytes: whether they are a point. A signature is the number of
-- its compressed bytes, so that `to_compressed` of the point gives the bytes back.
module _ (is_point : ℕ → Bool) where
  -- The vote of either kind with these fields, if its signature is a point.
  unfoldable pub make_vote : ℕ → ℕ → ℕ → ℕ → ℕ → ℕ → Result CodecError BftMessage
  make_vote tag block_hash height round validator_index bls_sig =
      if is_point bls_sig
      then if tag == tag_prevote
        then ok (
            prevote_message (record {
              block_hash = block_hash;
              height = height;
              round = round;
              validator_index = validator_index;
              bls_sig = bls_sig;
            }))
        else ok (
            precommit_message (record {
              block_hash = block_hash;
              height = height;
              round = round;
              validator_index = validator_index;
              bls_sig = bls_sig;
            }))
      else err invalid_bls_signature

  unfoldable pub decode_vote : List ℕ → ℕ → Result CodecError BftMessage
  decode_vote bytes tag =
      let read : Result CodecError BftMessage = do
        block_hash ← read_field bytes 1 32
        height ← read_field bytes 33 8
        round ← read_field bytes 41 4
        validator_index ← read_field bytes 45 4
        bls_sig ← read_field bytes 49 96
        make_vote tag block_hash height round validator_index bls_sig
      in if length bytes != vote_len then err (wrong_length vote_len (length bytes)) else read

  unfoldable pub decode_precommit_certificate : List ℕ → Result CodecError (Certificate precommit)
  decode_precommit_certificate bytes =
      let read : Result CodecError (Certificate precommit) = do
        block_hash ← read_field bytes 0 32
        height ← read_field bytes 32 8
        round ← read_field bytes 40 4
        signer_bitmap ← read_field bytes 44 16
        aggregated_sig ← read_field bytes 60 96
        if is_point aggregated_sig
            then ok (record {
              block_hash = block_hash;
              height = height;
              round = round;
              signer_bitmap = signer_bitmap;
              aggregated_sig = aggregated_sig;
            })
            else err invalid_bls_signature
      in if length bytes != block_cert_len
        then err (wrong_length block_cert_len (length bytes))
        else read

  -- `decode_block_response` from its test of the cap on.
  unfoldable pub read_block : List ℕ → ℕ → Result CodecError BftMessage
  read_block bytes len =
      let expected_total = block_response_header_len + len + block_cert_len in
      let read : Result CodecError BftMessage = do
        block_bytes ← read_slice bytes block_response_header_len len
        cert_bytes ← read_from bytes (block_response_header_len + len)
        certificate ← decode_precommit_certificate cert_bytes
        ok (block_response block_bytes certificate)
      in if ltb max_block_response_len len
        then err (block_response_too_large max_block_response_len len)
        else if length bytes != expected_total
        then err (wrong_length expected_total (length bytes))
        else read

  unfoldable pub decode_block_response : List ℕ → Result CodecError BftMessage
  decode_block_response bytes =
      if ltb (length bytes) block_response_min_len
      then err (wrong_length block_response_min_len (length bytes))
      else read_field bytes 1 4 >>= (λ len. read_block bytes len)

  unfoldable pub decode : List ℕ → Result CodecError BftMessage
  decode [] = err empty
  decode (tag ∷ rest) =
      let bytes = tag ∷ rest in
      if tag == tag_proposal
      then decode_proposal bytes
      else if tag == tag_prevote
      then decode_vote bytes tag_prevote
      else if tag == tag_precommit
      then decode_vote bytes tag_precommit
      else if tag == tag_block_request
      then decode_block_request bytes
      else if tag == tag_block_response
      then decode_block_response bytes
      else err (unknown_tag tag)
