-- ===== src/Bft/Wire/Tests.antt =====
-- A proposal with a body of three bytes: tests, and the theorems applied.
use aii.Base.{
  ℕ, ◌+◌, ◌≡◌, ◌↔◌, zero, suc, refl, List, [], ◌∷◌, ◌++◌, ok, err, Bool, arith, ltb, length, All,
}
use aii.Bft.Votes.{Vote, prevote}
use aii.Bft.Wire.{
  BftMessage, block_request, proposal, prevote_message, wrong_length, invalid_bls_signature,
  proposal_body_too_large, encode, encoded_len, decode, clamp_len, max_proposal_body_len,
}
use aii.Bft.Wire.Codec.{IsByte, Fits}
use aii.Bft.Wire.Codec.Sound.{decode_iff}
use aii.Bft.Wire.Codec.Refusals.{decode-encode_trailing, decode-encode_oversized}

-- The points, for the tests, are the numbers that are not 0.
abbrev nonzero : ℕ → Bool
nonzero s = ltb 0 s

abbrev small_proposal : BftMessage
small_proposal = proposal 5 0 77 (record { vrf_proof = 12; vrf_output = 13 }) 99 (1 ∷ 2 ∷ 3 ∷ [])

small_proposal-Fits : Fits nonzero small_proposal
small_proposal-Fits = omega arith

small_proposal-decodes : decode nonzero (encode small_proposal) ≡ ok small_proposal
unfolding decode encode aii.Bft.Wire.read_field aii.Bft.Wire.read_slice aii.Bft.Wire.read_body
    aii.Bft.Wire.decode_proposal aii.Base.to_be_bytes aii.Base.from_be_bytes
    aii.Base.from_be_bytes_acc
small_proposal-decodes = refl

abbrev no_point : Vote prevote
no_point = record { block_hash = 77; height = 5; round = 0; validator_index = 2; bls_sig = 0 }

no_point-refused : decode nonzero (encode (prevote_message no_point)) ≡ err invalid_bls_signature
unfolding decode encode aii.Bft.Wire.read_field aii.Bft.Wire.read_slice aii.Bft.Wire.make_vote
    aii.Bft.Wire.decode_vote aii.Base.to_be_bytes aii.Base.from_be_bytes aii.Base.from_be_bytes_acc
no_point-refused = refl

request_bytes : List ℕ
request_bytes = 3 ∷ 0 ∷ 0 ∷ 0 ∷ 0 ∷ 0 ∷ 0 ∷ 1 ∷ 44 ∷ []

request_bytes-IsByte : All IsByte request_bytes
unfolding request_bytes
request_bytes-IsByte = omega arith

decode_iff_example :
    (decode nonzero request_bytes ≡ ok (block_request 300))
    ↔ ((request_bytes ≡ encode (block_request 300)) × Fits nonzero (block_request 300))
decode_iff_example = decode_iff nonzero request_bytes (block_request 300) request_bytes-IsByte

decode-encode_trailing_example :
    decode nonzero (encode small_proposal ++ 0 ∷ 0 ∷ [])
    ≡ err (wrong_length (encoded_len small_proposal) (encoded_len small_proposal + 2))
decode-encode_trailing_example =
    decode-encode_trailing nonzero small_proposal 0 (0 ∷ []) small_proposal-Fits

zeros : ℕ → List ℕ
zeros zero = []
zeros (suc n) = 0 ∷ zeros n

length-zeros : (n : ℕ) → length (zeros n) ≡ n
unfolding zeros
length-zeros zero = refl
length-zeros (suc n) = omega (arith, length-zeros n)

decode-encode_oversized_example :
    decode nonzero
      (encode (proposal 5 0 77 (record { vrf_proof = 12; vrf_output = 13 }) 99 (zeros 16777217)))
    ≡ err (proposal_body_too_large max_proposal_body_len (clamp_len (length (zeros 16777217))))
decode-encode_oversized_example =
    decode-encode_oversized nonzero 5 0 77 (record { vrf_proof = 12; vrf_output = 13 }) 99
      (zeros 16777217) (omega arith) (omega (arith, length-zeros 16777217))
