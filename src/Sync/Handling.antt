-- ===== src/Sync/Handling.antt =====
-- Every event, expected or not: the invariant of the engine, and what it does on an error.
use mathlib.Core.List.{append_assoc}
use aii.Base.{
  ℕ, ◌+◌, ◌%◌, ◌≤◌, ◌<◌, ◌≡◌, ◌⊎◌, refl, sym, ◌∙◌, subst, List, [], ◌∷◌, ◌++◌, ok, err, Result,
  arith, Bool-cases, Option-cases, inl, inr, length, length-append, leb, ltb, ◌==◌, u64_mod,
}
use aii.Sync.{
  Chain, SyncState, idle, done, in_headers, in_bodies, header_batch, Event, peer_announced_tip,
  headers_received, body_received, peer_disconnected, Action, nothing_to_do, request_headers,
  SyncEngine, SyncError, empty_header_batch, unexpected_body, unexpected, out_of_order, hashes,
  on_tip, start_bodies, on_headers, after_body, on_body, handle_in, handle,
}
use aii.Sync.Buffer.{Contiguous, Contiguous-append, out_of_order-Contiguous}

module _ (chain : Chain) where
  -- The buffer by state: headers at consecutive heights from the local one on, up to the next one to
  -- ask for; or headers at consecutive heights, whose hashes are those fetched and those pending, of
  -- which there is one.
  abbrev pub Buffers : SyncEngine chain → SyncState → Type 0
  Buffers e idle = e.headers_buffer ≡ []
  Buffers e done = e.headers_buffer ≡ []
  Buffers e (in_headers target next) =
      (next ≡ e.local_height + 1 + length e.headers_buffer)
      × Contiguous chain (e.local_height + 1) e.headers_buffer
      × (next ≤ target)
  Buffers e (in_bodies pending) =
      (base : ℕ) × (fetched : List ℕ) × (first : ℕ) × (rest : List ℕ) × Contiguous chain base
        e.headers_buffer
      × (hashes chain e.headers_buffer ≡ fetched ++ pending)
      × (pending ≡ first ∷ rest)

  abbrev pub SyncInv : SyncEngine chain → Type 0
  SyncInv e = Buffers e e.state

  -- The heights of a batch of headers stay below 2 ^ 64.
  abbrev pub Small : SyncEngine chain → Event chain → Type 0
  Small e (headers_received batch) =
      e.local_height + 1 + length e.headers_buffer + length batch < u64_mod
  Small e (peer_announced_tip height) = Unit
  Small e (body_received block) = Unit
  Small e peer_disconnected = Unit

  -- The invariant after a call, and an error that changes nothing.
  abbrev pub Handles :
      SyncEngine chain → SyncEngine chain × Result (SyncError chain) (Action chain) → Type 0
  Handles e o =
      SyncInv o.0
      × (((a : Action chain) × (o.1 ≡ ok a)) ⊎ ((x : SyncError chain) × (o.1 ≡ err x) × (o.0 ≡ e)))

  module _ (e : SyncEngine chain) where
    on_tip-Handles : (height : ℕ) → e.headers_buffer ≡ [] → Handles e (on_tip chain e height)
    unfolding on_tip
    on_tip-Handles height empty = elim (Bool-cases (leb height e.local_height)) [
      | inl reached ↦
          let end : on_tip chain e height ≡ (record e { state = done }, ok nothing_to_do) =
            ground (arith, reached) in
          subst (Handles e) (sym end) (empty, inl (nothing_to_do, refl))
      | inr behind ↦
          let end : on_tip chain e height ≡ (
            record e { state = in_headers height (e.local_height + 1) },
            ok (request_headers (e.local_height + 1) header_batch),
          ) =
            ground (arith, behind) in
          subst (Handles e) (sym end) (
            (
              ground (arith, empty),
              subst (Contiguous chain (e.local_height + 1)) (sym empty) tt,
              ground (arith, behind),
            ),
            inl (_, refl),
          )
    ]

    -- The fields of the move into the bodies, from a buffer that is not empty.
    start_bodies-Handles :
        (base : ℕ) (x : chain.Header) (xs : List chain.Header)
        → Contiguous chain base (x ∷ xs)
        → Handles e
            (start_bodies chain (record e { headers_buffer = x ∷ xs }) (hashes chain (x ∷ xs)))
    unfolding start_bodies
    start_bodies-Handles base x xs c =
        ((base, [], chain.hash x, hashes chain xs, c, refl, refl), inl (_, refl))

    into_bodies-Handles :
        (base : ℕ) (xs : List chain.Header) (y : chain.Header) (ys : List chain.Header)
        → Contiguous chain base (xs ++ y ∷ ys)
        → Handles e (
            start_bodies chain
              (record e { headers_buffer = xs ++ y ∷ ys })
              (hashes chain (xs ++ y ∷ ys)))
    into_bodies-Handles base [] y ys c = start_bodies-Handles base y ys c
    into_bodies-Handles base (x ∷ xs) y ys c = start_bodies-Handles base x (xs ++ y ∷ ys) c

    on_headers-Handles :
        (target next : ℕ) (batch : List chain.Header)
        → Buffers e (in_headers target next)
        → e.state ≡ in_headers target next
        → Small e (headers_received batch)
        → Handles e (on_headers chain e target next batch)
    unfolding on_headers
    on_headers-Handles target next [] b at small =
        (subst (Buffers e) (sym at) b, inr (empty_header_batch, refl, refl))
    on_headers-Handles target next (h ∷ batch) b at small =
        let (next_eq, held, low) = b in
        let all = e.headers_buffer ++ h ∷ batch in
        elim (Option-cases (out_of_order chain next (h ∷ batch))) [
          | inr (x, found) ↦
              let end : on_headers chain e target next (h ∷ batch) ≡ (e, err x) =
                ground (arith, found) in
              subst (Handles e) (sym end) (subst (Buffers e) (sym at) b, inr (x, refl, refl))
          | inl fine ↦
              let fits : next + length (h ∷ batch) < u64_mod = omega (arith, next_eq, small) in
              let fresh : Contiguous chain next (h ∷ batch) =
                out_of_order-Contiguous chain next (h ∷ batch) fits fine in
              let joined : Contiguous chain (e.local_height + 1) all =
                Contiguous-append chain (e.local_height + 1) e.headers_buffer (h ∷ batch) held
                  (subst (λ k. Contiguous chain k (h ∷ batch)) next_eq fresh) in
              let longer : length all ≡ length e.headers_buffer + length (h ∷ batch) =
                length-append e.headers_buffer (h ∷ batch) in
              let new_next = next + length (h ∷ batch) in
              let whole : new_next % u64_mod ≡ new_next = omega (arith, fits) in
              elim (Bool-cases (ltb target new_next)) [
                | inl reached ↦
                    let end : on_headers chain e target next (h ∷ batch)
                        ≡ start_bodies chain (record e { headers_buffer = all })
                            (hashes chain all) =
                      ground (arith, fine, reached, whole) in
                    subst (Handles e) (sym end)
                      (into_bodies-Handles (e.local_height + 1) e.headers_buffer h batch joined)
                | inr more ↦
                    let end : on_headers chain e target next (h ∷ batch) ≡ (
                      record e { headers_buffer = all; state = in_headers target new_next },
                      ok (request_headers new_next header_batch),
                    ) =
                      ground (arith, fine, more, whole) in
                    subst (Handles e) (sym end) (
                      (omega (arith, next_eq, longer), joined, ground (arith, more)),
                      inl (_, refl),
                    )
              ]
        ]

    after_body-Handles :
        (e' : SyncEngine chain) (block : chain.Block) (first : ℕ) (pending : List ℕ)
        → Buffers e' (in_bodies (first ∷ pending))
        → Handles e (after_body chain e' block pending)
    unfolding after_body
    after_body-Handles e' block first [] b = (refl, inl (_, refl))
    after_body-Handles e' block first (next ∷ pending') b =
        let (base, fetched, f, r, c, split, _) = b in
        (
          (
            base,
            fetched ++ first ∷ [],
            next,
            pending',
            c,
            split ∙ sym (append_assoc fetched (first ∷ []) (next ∷ pending')),
            refl,
          ),
          inl (_, refl),
        )

    on_body-Handles :
        (pending : List ℕ) (block : chain.Block)
        → Buffers e (in_bodies pending)
        → e.state ≡ in_bodies pending
        → Handles e (on_body chain e pending block)
    unfolding on_body
    on_body-Handles [] block b at = (subst (Buffers e) (sym at) b, inr (_, refl, refl))
    on_body-Handles (first ∷ pending) block b at =
        elim (Bool-cases (first == chain.hash (chain.header_of block))) [
          | inl same ↦
              let e' = record e { local_height = chain.number (chain.header_of block) } in
              let end : on_body chain e (first ∷ pending) block
                  ≡ after_body chain e' block pending =
                ground (arith, same) in
              subst (Handles e) (sym end) (after_body-Handles e' block first pending b)
          | inr other ↦
              let end : on_body chain e (first ∷ pending) block
                  ≡ (e, err (unexpected_body (chain.hash (chain.header_of block)))) =
                ground (arith, other) in
              subst (Handles e) (sym end) (subst (Buffers e) (sym at) b, inr (_, refl, refl))
        ]

  handle_in-Handles :
      (e : SyncEngine chain) (state : SyncState) (event : Event chain)
      → e.state ≡ state
      → Buffers e state
      → Small e event
      → Handles e (handle_in chain e state event)
  unfolding handle_in
  handle_in-Handles e idle (peer_announced_tip height) at b small = on_tip-Handles e height b
  handle_in-Handles e (in_headers target next) (headers_received batch) at b small =
      on_headers-Handles e target next batch b at small
  handle_in-Handles e (in_bodies pending) (body_received block) at b small =
      on_body-Handles e pending block b at
  handle_in-Handles e _ peer_disconnected at b small = (refl, inl (nothing_to_do, refl))
  handle_in-Handles e state event at b small =
      (subst (Buffers e) (sym at) b, inr (unexpected state event, refl, refl))

  -- From a state that satisfies the invariant, whatever the event, `handle` does not panic and keeps the
  -- invariant, and it changes nothing if it returns an error, as long as the heights of the headers
  -- that arrive stay below 2 ^ 64.
  pub handle_lem :
      (e : SyncEngine chain) (event : Event chain)
      → SyncInv e
      → Small e event
      → Handles e (handle chain e event)
  unfolding handle
  handle_lem e event i small = handle_in-Handles e e.state event refl i small
