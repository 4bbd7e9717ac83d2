-- ===== src/Bft/Wire/Codec/Panics.antt =====
-- The decoder does not panic.
use aii.Base.{
  refl, sym, ◌∙◌, ltb, length, ◌!=◌, ◌==◌, ◌⊎◌, inl, inr, take, ℕ, ◌+◌, ◌≡◌, ◌≢◌, List, [], ◌∷◌,
  Result, ok, err, panic, ◌>>=◌, Bool, true, false, if◌then◌else◌, drop,
}
use aii.Bft.Wire.{
  make_vote, proposal_min_len, max_proposal_body_len, block_request_len, vote_len, tag_prevote,
  block_cert_len, block_response_min_len, max_block_response_len, block_response_header_len,
  block_response, CodecError, decode, decode_proposal, decode_vote, decode_block_request,
  decode_precommit_certificate, decode_block_response,
}
use aii.Bft.Wire.Layout.{field}
use aii.Bft.Wire.Codec.Total.{
  decode_proposal-total, decode_block_request-total, decode_vote-total,
  decode_precommit_certificate-total, decode_block_response-total,
}

-- A panic past a test stands in the branch that is taken, and an error is no panic.
past_test :
    {A : Type 0} (t : Bool) (e : CodecError) (r : Result CodecError A)
    → (if t then err e else r) ≡ panic
    → r ≡ panic
past_test true e r h = absurd (cc h)
past_test false e r h = h

past_guard :
    {A : Type 0} (t : Bool) (e : CodecError) (r : Result CodecError A)
    → (if t then r else err e) ≡ panic
    → r ≡ panic
past_guard true e r h = h
past_guard false e r h = absurd (cc h)

either :
    {A : Type 0} (t : Bool) (x y : Result CodecError A)
    → (if t then x else y) ≡ panic
    → (x ≡ panic) ⊎ (y ≡ panic)
either true x y h = inl h
either false x y h = inr h

no_ok : {A : Type 0} {x : A} → ◌≢◌ {A = Result CodecError A} (ok x) panic
no_ok h = cc

no_err : {A : Type 0} {e : CodecError} → ◌≢◌ {A = Result CodecError A} (err e) panic
no_err h = cc

past_map :
    {A B : Type 0} (r : Result CodecError A) (f : A → B) → (r >>= λ x. ok (f x)) ≡ panic → r ≡ panic
past_map (ok x) f h = absurd (cc h)
past_map (err e) f h = absurd (cc h)
past_map panic f h = refl

decode_proposal-ne-panic : (bytes : List ℕ) → decode_proposal bytes ≢ panic
decode_proposal-ne-panic bytes h =
    let body_len = field bytes 193 4 in
    let h1 =
      past_test (ltb (length bytes) proposal_min_len) _ _ (sym (decode_proposal-total bytes) ∙ h) in
    let h2 = past_test (ltb max_proposal_body_len body_len) _ _ h1 in
    no_ok (past_test (length bytes != proposal_min_len + body_len) _ _ h2)

decode_block_request-ne-panic : (bytes : List ℕ) → decode_block_request bytes ≢ panic
decode_block_request-ne-panic bytes h =
    no_ok (
      past_test (length bytes != block_request_len) _ _
        (sym (decode_block_request-total bytes) ∙ h))

module _ (is_point : ℕ → Bool) where
  decode_vote-ne-panic : (bytes : List ℕ) (t : ℕ) → decode_vote is_point bytes t ≢ panic
  unfolding make_vote
  decode_vote-ne-panic bytes t h =
      let h1 =
        past_test (length bytes != vote_len) _ _ (sym (decode_vote-total is_point bytes t) ∙ h) in
      let h2 = past_guard (is_point (field bytes 49 96)) _ _ h1 in
      elim (either (t == tag_prevote) _ _ h2) [ inl h3 ↦ no_ok h3 | inr h3 ↦ no_ok h3 ]

  certificate-ne-panic : (bytes : List ℕ) → decode_precommit_certificate is_point bytes ≢ panic
  certificate-ne-panic bytes h =
      let h1 =
        past_test (length bytes != block_cert_len) _ _
          (sym (decode_precommit_certificate-total is_point bytes) ∙ h) in
      no_ok (past_guard (is_point (field bytes 60 96)) _ _ h1)

  decode_block_response-ne-panic : (bytes : List ℕ) → decode_block_response is_point bytes ≢ panic
  decode_block_response-ne-panic bytes h =
      let len = field bytes 1 4 in
      let h1 =
        past_test (ltb (length bytes) block_response_min_len) _ _
          (sym (decode_block_response-total is_point bytes) ∙ h) in
      let h2 = past_test (ltb max_block_response_len len) _ _ h1 in
      let h3 =
        past_test (length bytes != block_response_header_len + len + block_cert_len) _ _ h2 in
      certificate-ne-panic (drop (5 + field bytes 1 4) bytes)
        (past_map _ (λ k. block_response (take (field bytes 1 4) (drop 5 bytes)) k) h3)

  pub decode-ne-panic : (bytes : List ℕ) → decode is_point bytes ≢ panic
  unfolding decode
  decode-ne-panic [] h = no_err h
  decode-ne-panic (t ∷ rest) h =
      let bytes = t ∷ rest in
      elim (either (t == 0) _ _ h) [
        | inl h0 ↦ decode_proposal-ne-panic bytes h0
        | inr h1 ↦ elim (either (t == 1) _ _ h1) [
          | inl h2 ↦ decode_vote-ne-panic bytes 1 h2
          | inr h3 ↦ elim (either (t == 2) _ _ h3) [
            | inl h4 ↦ decode_vote-ne-panic bytes 2 h4
            | inr h5 ↦ elim (either (t == 3) _ _ h5) [
              | inl h6 ↦ decode_block_request-ne-panic bytes h6
              | inr h7 ↦ elim (either (t == 4) _ _ h7) [
                | inl h8 ↦ decode_block_response-ne-panic bytes h8
                | inr h9 ↦ no_err h9
              ]
            ]
          ]
        ]
      ]
