-- ===== src/Bft/Wire/Codec/Sound.antt =====
-- What decodes is the encoding of the message that it gives.
use aii.Base.{
  ℕ, ◌+◌, ◌≤◌, ◌≡◌, ◌↔◌, ◌⊎◌, inl, inr, refl, ap, ap₂, sym, ◌∙◌, subst, List, [], ◌∷◌, ◌++◌, Result,
  ok, Bool, false, ◌==◌, ◌!=◌, if◌then◌else◌, arith, length, take, drop, All,
}
use aii.Base.Slices.{take-drop, take-all, All-take, All-drop, split_lengths, drop-drop}
use aii.Bft.Votes.{prevote, precommit}
use aii.Bft.Certificate.{Certificate}
use aii.Bft.Wire.{
  BftMessage, prevote_message, precommit_message, block_request, CodecError, clamp_len, encode,
  encode_precommit_certificate, decode, decode_proposal, decode_vote, decode_block_request,
  decode_precommit_certificate, decode_block_response, tag_prevote, tag_precommit,
  max_proposal_body_len,
}
use aii.Bft.Wire.Layout.{field}
use aii.Bft.Wire.Layout.{frame, FieldsFit, Reads-frame}
use aii.Bft.Wire.Codec.{IsByte, proposal_fields, cert_fields, Fits, CertFits}
use aii.Bft.Wire.Codec.Inverse.{clamp_small, decode-encode}
use aii.Bft.Wire.Codec.Passing.{
  drop-end, length-drop, vote_at, vote_at-encode, proposal_at, pass_test, same_ok,
  decode_proposal-passes, branch, same_tag, decode_vote-passes, cert_at,
  decode_precommit_certificate-passes, decode_block_response-passes,
}
use aii.Bft.Wire.Codec.Total.{decode_block_request-total}

module _ (is_point : ℕ → Bool) where
  abbrev Sound : List ℕ → BftMessage → Type 0
  Sound bytes m = (bytes ≡ encode m) × Fits is_point m

  proposal_at-Sound :
      (rest : List ℕ)
      → let bytes = 0 ∷ rest in
        All IsByte bytes
        → length bytes ≡ 197 + field bytes 193 4
        → field bytes 193 4 ≤ max_proposal_body_len
        → (bytes ≡ encode (proposal_at bytes)) × Fits is_point (proposal_at bytes)
  unfolding encode
  proposal_at-Sound rest all count small =
      let bytes = 0 ∷ rest in
      let size = field bytes 193 4 in
      let body = take size (drop 197 bytes) in
      let end : length (drop 197 bytes) ≡ size = length-drop 197 size bytes count in
      let whole : body ≡ drop 197 bytes =
        ap (λ n. take n (drop 197 bytes)) (sym end) ∙ take-all (drop 197 bytes) in
      let len : length body ≡ size = ap (λ (xs : List ℕ). length xs) whole ∙ end in
      let fields =
        proposal_fields (field bytes 1 8) (field bytes 9 4) (field bytes 13 32)
          (record { vrf_proof = field bytes 45 96; vrf_output = field bytes 141 32 })
          (field bytes 173 20) in
      let (fits, e) =
        Reads-frame 1 (fields size) bytes size all
          (length-drop 1 (196 + size) bytes (omega (arith, count)))
          (refl, (refl, (refl, (refl, (refl, (refl, (refl, tt))))))) in
      let clamped : size ≡ clamp_len (length body) =
        sym (ap clamp_len len ∙ clamp_small size (omega (arith, small))) in
      (
        ap (λ xs. 0 ∷ xs) (e ∙ ap₂ (λ n xs. frame (fields n) xs) clamped (sym whole)),
        (
          subst (λ n. FieldsFit (fields n)) (sym len) fits,
          All-take _ size (drop 197 bytes) (All-drop _ 197 bytes all),
          omega (arith, len, small),
        ),
      )

  decode_proposal-Sound :
      (rest : List ℕ) (m : BftMessage)
      → All IsByte (0 ∷ rest)
      → decode_proposal (0 ∷ rest) ≡ ok m
      → Sound (0 ∷ rest) m
  decode_proposal-Sound rest m all h =
      let (count, small, same) = decode_proposal-passes (0 ∷ rest) m h in
      subst (Sound (0 ∷ rest)) same (proposal_at-Sound rest all count small)

  decode_vote-Sound :
      (t : ℕ) (rest : List ℕ) (m : BftMessage)
      → (t ≡ tag_prevote) ⊎ (t ≡ tag_precommit)
      → All IsByte (t ∷ rest)
      → decode_vote is_point (t ∷ rest) t ≡ ok m
      → Sound (t ∷ rest) m
  unfolding encode
  decode_vote-Sound t rest m which all h =
      let (count, point, same) = decode_vote-passes is_point (t ∷ rest) t m h in
      elim which [
        | inl pre ↦
            let (fits, e) = vote_at-encode prevote (t ∷ rest) all count in
            let same' : prevote_message (vote_at (t ∷ rest)) ≡ m =
              ap
                (λ n.
                  if n == tag_prevote
                  then prevote_message (vote_at (t ∷ rest))
                  else precommit_message (vote_at (t ∷ rest)))
                (sym pre)
              ∙ same in
            subst (Sound (t ∷ rest)) same' (ap₂ (λ x xs. x ∷ xs) pre e, (fits, point))
        | inr last ↦
            let (fits, e) = vote_at-encode precommit (t ∷ rest) all count in
            let same' : precommit_message (vote_at (t ∷ rest)) ≡ m =
              ap
                (λ n.
                  if n == tag_prevote
                  then prevote_message (vote_at (t ∷ rest))
                  else precommit_message (vote_at (t ∷ rest)))
                (sym last)
              ∙ same in
            subst (Sound (t ∷ rest)) same' (ap₂ (λ x xs. x ∷ xs) last e, (fits, point))
      ]

  decode_block_request-Sound :
      (rest : List ℕ) (m : BftMessage)
      → All IsByte (3 ∷ rest)
      → decode_block_request (3 ∷ rest) ≡ ok m
      → Sound (3 ∷ rest) m
  unfolding encode
  decode_block_request-Sound rest m all h =
      let bytes = 3 ∷ rest in
      let (passed, h1) : ((length bytes != 9) ≡ false)
          × (◌≡◌ {A = Result CodecError BftMessage} (ok (block_request (field bytes 1 8))) (ok m)) =
        pass_test _ _ _ (sym (decode_block_request-total bytes) ∙ h) in
      let count : length bytes ≡ 9 = ground (arith, passed) in
      let height = field bytes 1 8 in
      let (fits, e) =
        Reads-frame 1 ((8, height) ∷ []) bytes 0 all (length-drop 1 8 bytes count) (refl, tt) in
      subst (Sound bytes) (same_ok h1)
        (ap (λ xs. 3 ∷ xs) (e ∙ ap (frame ((8, height) ∷ [])) (drop-end 9 bytes count)), fits.0)

  decode_precommit_certificate-Sound :
      (bytes : List ℕ) (cert : Certificate precommit)
      → All IsByte bytes
      → decode_precommit_certificate is_point bytes ≡ ok cert
      → (bytes ≡ encode_precommit_certificate cert) × CertFits is_point cert
  decode_precommit_certificate-Sound bytes cert all h =
      let (count, point, same) = decode_precommit_certificate-passes is_point bytes cert h in
      let made = cert_at is_point bytes in
      let (fits, e) =
        Reads-frame 0 (cert_fields made) bytes 0 all (omega (arith, count))
          (refl, (refl, (refl, (refl, (refl, tt))))) in
      let whole : bytes ≡ encode_precommit_certificate made =
        e ∙ ap (frame (cert_fields made)) (drop-end 156 bytes count) in
      subst (λ k. (bytes ≡ encode_precommit_certificate k) × CertFits is_point k) same
        (whole, (fits, point))

  decode_block_response-Sound :
      (rest : List ℕ) (m : BftMessage)
      → All IsByte (4 ∷ rest)
      → decode_block_response is_point (4 ∷ rest) ≡ ok m
      → Sound (4 ∷ rest) m
  unfolding encode
  decode_block_response-Sound rest m all h =
      let bytes = 4 ∷ rest in
      let len = field bytes 1 4 in
      let (count, small, cert, made, same) = decode_block_response-passes is_point bytes m h in
      let after = drop 5 bytes in
      let block = take len after in
      let end : length after ≡ len + 156 = length-drop 5 (len + 156) bytes (omega (arith, count)) in
      let size : length block ≡ len = (split_lengths len 156 after end).0 in
      let after_all = All-drop _ 5 bytes all in
      let split = drop-drop 5 len bytes in
      let (cert_bytes, fits) =
        decode_precommit_certificate-Sound (drop (5 + len) bytes) cert
          (subst (All IsByte) (sym split) (All-drop _ len after after_all)) made in
      let (len_fits, e) =
        Reads-frame 1 ((4, len) ∷ []) bytes (len + 156) all
          (length-drop 1 (4 + (len + 156)) bytes (omega (arith, count))) (refl, tt) in
      let clamped : len ≡ clamp_len (length block) =
        sym (ap clamp_len size ∙ clamp_small len small) in
      let tail : after ≡ block ++ encode_precommit_certificate cert =
        take-drop len after ∙ ap (λ xs. block ++ xs) (sym split ∙ cert_bytes) in
      subst (Sound bytes) same (
        ap (λ xs. 4 ∷ xs) (e ∙ ap₂ (λ n xs. frame ((4, n) ∷ []) xs) clamped tail),
        (fits, All-take _ len after after_all, omega (arith, size, small)),
      )

  decode-Sound :
      (bytes : List ℕ) (m : BftMessage)
      → All IsByte bytes
      → decode is_point bytes ≡ ok m
      → Sound bytes m
  unfolding decode
  decode-Sound [] m all h = absurd (cc h)
  decode-Sound (t ∷ rest) m all h =
      let At : ℕ → Type 0 = λ n. All IsByte (n ∷ rest) in
      elim (branch (t == 0) _ _ h) [
        | inl (is, h0) ↦
            let e = same_tag t 0 is in
            subst (λ n. Sound (n ∷ rest) m) (sym e)
              (decode_proposal-Sound rest m (subst At e all)
                (subst (λ n. decode_proposal (n ∷ rest) ≡ ok m) e h0))
        | inr (_, h1) ↦ elim (branch (t == 1) _ _ h1) [
          | inl (is, h2) ↦
              let e = same_tag t 1 is in
              decode_vote-Sound t rest m (inl e) all
                (subst (λ n. decode_vote is_point (t ∷ rest) n ≡ ok m) (sym e) h2)
          | inr (_, h3) ↦ elim (branch (t == 2) _ _ h3) [
            | inl (is, h4) ↦
                let e = same_tag t 2 is in
                decode_vote-Sound t rest m (inr e) all
                  (subst (λ n. decode_vote is_point (t ∷ rest) n ≡ ok m) (sym e) h4)
            | inr (_, h5) ↦ elim (branch (t == 3) _ _ h5) [
              | inl (is, h6) ↦
                  let e = same_tag t 3 is in
                  subst (λ n. Sound (n ∷ rest) m) (sym e)
                    (decode_block_request-Sound rest m (subst At e all)
                      (subst (λ n. decode_block_request (n ∷ rest) ≡ ok m) e h6))
              | inr (_, h7) ↦ elim (branch (t == 4) _ _ h7) [
                | inl (is, h8) ↦
                    let e = same_tag t 4 is in
                    subst (λ n. Sound (n ∷ rest) m) (sym e)
                      (decode_block_response-Sound rest m (subst At e all)
                        (subst (λ n. decode_block_response is_point (n ∷ rest) ≡ ok m) e h8))
                | inr (_, h9) ↦ absurd (cc h9)
              ]
            ]
          ]
        ]
      ]

  -- On bytes, `decode` returns a message just if the fields of the message fit in their widths, its
  -- signatures are points, its body or block is made of bytes and within its cap, and the bytes are its
  -- encoding: so the encoding round-trips, and no two encodings decode to one message.
  pub decode_iff :
      (bytes : List ℕ) (m : BftMessage)
      → All IsByte bytes
      → (decode is_point bytes ≡ ok m) ↔ ((bytes ≡ encode m) × Fits is_point m)
  decode_iff bytes m all = (
    λ h. decode-Sound bytes m all h,
    λ s. ap (decode is_point) s.0 ∙ decode-encode is_point m s.1,
  )
