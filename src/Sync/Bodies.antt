-- ===== src/Sync/Bodies.antt =====
-- Runs of the engine, and the bodies of a run: each that is next is taken.
use aii.Base.{
  Result, ℕ, suc, ◌+◌, ◌≡◌, ap, ◌∙◌, Option, none, some, List, [], ◌∷◌, ok, err, panic, arith,
  length,
}
use aii.Sync.{
  Action, SyncError, Chain, done, in_bodies, Event, body_received, request_body, persist_block,
  SyncEngine, hashes, after_body, on_body, handle_in, handle,
}
use aii.Sync.Buffer.{Contiguous}

module _ (chain : Chain) where
  -- The engine after some events, if none of them fails.
  abbrev pub run_ok : SyncEngine chain → List (Event chain) → Option (SyncEngine chain)
  run_ok e [] = some e
  run_ok e (event ∷ events) =
      let o = handle chain e event in
      elim o.1 [ ok _ ↦ run_ok o.0 events | err _ ↦ none | panic ↦ none ]

  abbrev pub headers_of : List chain.Block → List chain.Header
  headers_of [] = []
  headers_of (b ∷ bs) = chain.header_of b ∷ headers_of bs

  abbrev pub bodies_of : List chain.Block → List (Event chain)
  bodies_of [] = []
  bodies_of (b ∷ bs) = body_received b ∷ bodies_of bs

  pub run_step :
      (e e' : SyncEngine chain) (event : Event chain) (a : Action chain)
      (events : List (Event chain))
      → handle chain e event ≡ (e', ok a)
      → run_ok e (event ∷ events) ≡ run_ok e' events
  run_step e e' event a events h =
      let next : SyncEngine chain × Result (SyncError chain) (Action chain)
          → Option (SyncEngine chain) =
        λ o. elim o.1 [ ok _ ↦ run_ok o.0 events | err _ ↦ none | panic ↦ none ] in
      ap next h

  -- The engine while the bodies arrive.
  abbrev pub fetching : List chain.Header → ℕ → List ℕ → SyncEngine chain
  fetching buffer h pending = record {
    state = in_bodies pending;
    headers_buffer = buffer;
    local_height = h;
  }

  abbrev pub synced : ℕ → SyncEngine chain
  synced h = record { state = done; headers_buffer = []; local_height = h }

  body-last :
      (h : ℕ) (buffer : List chain.Header) (b : chain.Block)
      → handle chain (fetching buffer h (chain.hash (chain.header_of b) ∷ [])) (body_received b)
        ≡ (synced (chain.number (chain.header_of b)), ok (persist_block b))
  unfolding handle handle_in on_body after_body
  body-last h buffer b = ground arith

  body-next :
      (h : ℕ) (buffer : List chain.Header) (b : chain.Block) (next : ℕ) (pending : List ℕ)
      → handle chain
          (fetching buffer h (chain.hash (chain.header_of b) ∷ next ∷ pending))
          (body_received b)
        ≡ (
          fetching buffer (chain.number (chain.header_of b)) (next ∷ pending),
          ok (request_body next),
        )
  unfolding handle handle_in on_body after_body
  body-next h buffer b next pending = ground arith

  -- The bodies, in the order of the headers.
  pub run_ok-bodies :
      (n h : ℕ) (buffer : List chain.Header) (b : chain.Block) (bs : List chain.Block)
      → Contiguous chain n (headers_of (b ∷ bs))
      → run_ok (fetching buffer h (hashes chain (headers_of (b ∷ bs)))) (bodies_of (b ∷ bs))
        ≡ some (synced (n + length bs))
  run_ok-bodies n h buffer b [] c =
      run_step _ _ _ _ [] (body-last h buffer b)
      ∙ ap (λ k. some (synced k)) (let first = c.0 in omega (arith, first))
  run_ok-bodies n h buffer b (b' ∷ bs) c =
      run_step _ _ _ _ (bodies_of (b' ∷ bs)) (body-next h buffer b _ _)
      ∙ run_ok-bodies (suc n) (chain.number (chain.header_of b)) buffer b' bs c.1
      ∙ ap (λ k. some (synced k)) (omega arith)
