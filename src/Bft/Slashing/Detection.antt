-- ===== src/Bft/Slashing/Detection.antt =====
-- The detector over a whole history of votes of one kind: it reports if and only if some validator
-- signed two blocks at one height and round.
use aii.Base.{
  ℕ, zero, suc, ◌≡◌, refl, ap, sym, ◌∙◌, ◌↔◌, Option, none, some, true, inl, inr, List, [], ◌∷◌,
  arith, get_elem?, Option-cases, Bool-cases,
}
use aii.Bft.Votes.{VoteKind, Vote}
use aii.Bft.Slashing.{VoteKey, key, key_eq, seen_get, record_vote, Conflict}

abbrev add_found : {A : Type 0} → Option A → List A → List A
add_found none l = l
add_found (some x) l = x ∷ l

key_eq_comm : (k l : VoteKey) → key_eq k l ≡ true → key_eq l k ≡ true
key_eq_comm k l h = ground arith

module _ {kind : VoteKind} where
  -- The conflicts that are reported over a history.
  abbrev pub detect : List (Vote kind) → List (Vote kind) → List (Conflict kind)
  detect seen [] = []
  detect seen (vote ∷ votes) =
      let (seen', found) = record_vote seen vote in add_found found (detect seen' votes)

  -- No two votes of a history contradict each other.
  abbrev pub AllAgree : List (Vote kind) → Type 0
  AllAgree votes =
      (i j : ℕ) (x y : Vote kind)
      → get_elem? votes i ≡ some x
      → get_elem? votes j ≡ some y
      → key_eq (key x) (key y) ≡ true
      → x.block_hash ≡ y.block_hash

  pub seen_get-key :
      (seen : List (Vote kind)) (k : VoteKey) (p : Vote kind)
      → seen_get k seen ≡ some p
      → key_eq (key p) k ≡ true
  unfolding seen_get
  seen_get-key [] k p h = absurd (cc)
  seen_get-key (v ∷ seen) k p h = ground (arith, seen_get-key seen k p)

  -- Two equal keys find the same vote.
  seen_get-same :
      (seen : List (Vote kind)) (k l : VoteKey)
      → key_eq k l ≡ true
      → seen_get k seen ≡ seen_get l seen
  unfolding seen_get
  seen_get-same [] k l h = refl
  seen_get-same (v ∷ seen) k l h = ground (arith, seen_get-same seen k l h)

  -- What is recorded for a key stays.
  seen_get-record_vote :
      (seen : List (Vote kind)) (vote p : Vote kind) (k : VoteKey)
      → seen_get k seen ≡ some p
      → seen_get k (record_vote seen vote).0 ≡ some p
  unfolding record_vote seen_get
  seen_get-record_vote seen vote p k h = elim (Option-cases (seen_get (key vote) seen)) [
    | inl new ↦ ground (arith, new, seen_get-same seen (key vote) k)
    | inr (q, old) ↦ ground (arith, old)
  ]

  -- A vote that is not reported leaves its block recorded for its key.
  silent_records :
      (seen : List (Vote kind)) (vote : Vote kind)
      → (record_vote seen vote).1 ≡ none
      → (p : Vote kind) × (seen_get (key vote) (record_vote seen vote).0 ≡ some p)
        × (p.block_hash ≡ vote.block_hash)
  unfolding record_vote seen_get
  silent_records seen vote h = elim (Option-cases (seen_get (key vote) seen)) [
    | inl new ↦ (vote, ground (arith, new), refl)
    | inr (q, old) ↦ (q, ground (arith, old), ground (arith, old))
  ]

  silent_head :
      (seen : List (Vote kind)) (vote : Vote kind) (votes : List (Vote kind))
      → detect seen (vote ∷ votes) ≡ []
      → ((record_vote seen vote).1 ≡ none) × (detect (record_vote seen vote).0 votes ≡ [])
  silent_head seen vote votes h = ground arith

  -- In a history without a report every vote agrees with what was recorded before.
  silent-agrees :
      (seen votes : List (Vote kind)) (p x : Vote kind) (i : ℕ)
      → detect seen votes ≡ []
      → seen_get (key x) seen ≡ some p
      → get_elem? votes i ≡ some x
      → p.block_hash ≡ x.block_hash
  silent-agrees seen [] p x i quiet h at = absurd (cc)
  silent-agrees seen (v ∷ votes) p x zero quiet h at =
      let same : v ≡ x = cc in
      let (q, here, agrees) = silent_records seen v (silent_head seen v votes quiet).0 in
      let there = seen_get-record_vote seen v p (key x) h in
      let joined : seen_get (key x) (record_vote seen v).0 ≡ some q =
        ap (λ (w : Vote kind). seen_get (key w) (record_vote seen v).0) (sym same) ∙ here in
      let equal : p ≡ q = cc (sym there ∙ joined) in
      ap (λ (w : Vote kind). w.block_hash) equal
      ∙ agrees
      ∙ ap (λ (w : Vote kind). w.block_hash) same
  silent-agrees seen (v ∷ votes) p x (suc i) quiet h at =
      silent-agrees (record_vote seen v).0 votes p x i (silent_head seen v votes quiet).1
        (seen_get-record_vote seen v p (key x) h) at

  silent-agrees_later :
      (seen votes : List (Vote kind)) (v x : Vote kind) (j : ℕ)
      → detect seen (v ∷ votes) ≡ []
      → get_elem? votes j ≡ some x
      → key_eq (key v) (key x) ≡ true
      → v.block_hash ≡ x.block_hash
  silent-agrees_later seen votes v x j quiet at same =
      let (silent, rest) = silent_head seen v votes quiet in
      let (q, here, agrees) = silent_records seen v silent in
      let found = sym (seen_get-same (record_vote seen v).0 (key v) (key x) same) ∙ here in
      sym agrees ∙ silent-agrees (record_vote seen v).0 votes q x j rest found at

  -- A history without a report has no contradiction.
  silent-AllAgree : (seen votes : List (Vote kind)) → detect seen votes ≡ [] → AllAgree votes
  silent-AllAgree seen [] quiet i j x y p q same = absurd (cc)
  silent-AllAgree seen (v ∷ votes) quiet zero zero x y p q same =
      let e : x ≡ y = cc in ap (λ (w : Vote kind). w.block_hash) e
  silent-AllAgree seen (v ∷ votes) quiet zero (suc j) x y p q same =
      let e : v ≡ x = cc in
      sym (ap (λ (w : Vote kind). w.block_hash) e)
      ∙ silent-agrees_later seen votes v y j quiet q
          (ap (λ (w : Vote kind). key_eq (key w) (key y)) e ∙ same)
  silent-AllAgree seen (v ∷ votes) quiet (suc i) zero x y p q same =
      let e : v ≡ y = cc in
      sym (
        silent-agrees_later seen votes v x i quiet p
          (ap (λ (w : Vote kind). key_eq (key w) (key x)) e ∙ key_eq_comm (key x) (key y) same))
      ∙ ap (λ (w : Vote kind). w.block_hash) e
  silent-AllAgree seen (v ∷ votes) quiet (suc i) (suc j) x y p q same =
      silent-AllAgree (record_vote seen v).0 votes (silent_head seen v votes quiet).1 i j x y p q
        same

  grown :
      (seen : List (Vote kind)) (v x p : Vote kind)
      → (key_eq (key v) (key x) ≡ true → v.block_hash ≡ x.block_hash)
      → (seen_get (key x) seen ≡ some p → p.block_hash ≡ x.block_hash)
      → seen_get (key x) (v ∷ seen) ≡ some p
      → p.block_hash ≡ x.block_hash
  unfolding seen_get
  grown seen v x p new old h = elim (Bool-cases (key_eq (key v) (key x))) [
    | inl same ↦
        let e : v ≡ p = ground arith in sym (ap (λ (w : Vote kind). w.block_hash) e) ∙ new same
    | inr other ↦ old (ground arith)
  ]

  -- Votes that agree with what is recorded and among themselves are not reported.
  agreed-silent :
      (seen votes : List (Vote kind))
      → ((i : ℕ) (x p : Vote kind)
          → get_elem? votes i ≡ some x
          → seen_get (key x) seen ≡ some p
          → p.block_hash ≡ x.block_hash)
      → AllAgree votes
      → detect seen votes ≡ []
  unfolding record_vote seen_get
  agreed-silent seen [] old new = refl
  agreed-silent seen (v ∷ votes) old new = elim (Option-cases (seen_get (key v) seen)) [
    | inl fresh ↦
        let rest =
          agreed-silent (v ∷ seen) votes
            (λ i x p at. grown seen v x p (new 0 (suc i) v x refl at) (old (suc i) x p at))
            (λ i j. new (suc i) (suc j)) in
        ground (arith, fresh, rest)
    | inr (p, known) ↦
        let rest =
          agreed-silent seen votes (λ i x p at. old (suc i) x p at) (λ i j. new (suc i) (suc j)) in
        ground (arith, known, old 0 v p refl known, rest)
  ]

  -- A new detector reports nothing over a history of votes exactly if no two of the votes have one
  -- validator, height and round and different blocks.
  pub detect_iff : (votes : List (Vote kind)) → (detect [] votes ≡ []) ↔ AllAgree votes
  unfolding seen_get
  detect_iff votes = (silent-AllAgree [] votes, agreed-silent [] votes (λ i x p at h. absurd (cc)))
