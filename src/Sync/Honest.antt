-- ===== src/Sync/Honest.antt =====
-- A whole sync with a peer that answers each request: the engine ends up at the tip.
use mathlib.Core.List.{append-nil, append_assoc}
use aii.Base.{
  ℕ, suc, ◌+◌, ◌%◌, ◌≤◌, ◌<◌, ◌≡◌, refl, ap, sym, ◌∙◌, subst, some, List, [], ◌∷◌, ◌++◌, ok, arith,
  length, length-append, u64_mod,
}
use aii.Sync.{
  Action, Chain, in_headers, header_batch, Event, peer_announced_tip, headers_received,
  request_headers, request_body, SyncEngine, new_engine, hashes, on_tip, start_bodies, on_headers,
  handle_in, handle,
}
use aii.Sync.Buffer.{Contiguous, Contiguous-split, Contiguous-in_order}
use aii.Sync.Bodies.{run_ok, headers_of, bodies_of, run_step, fetching, synced, run_ok-bodies}

module _ (chain : Chain) where
  -- Replies of headers: batches, each with a first header.
  abbrev pub joined : List (chain.Header × List chain.Header) → List chain.Header
  joined [] = []
  joined ((x, xs) ∷ more) = (x ∷ xs) ++ joined more

  abbrev pub batches_of : List (chain.Header × List chain.Header) → List (Event chain)
  batches_of [] = []
  batches_of ((x, xs) ∷ more) = headers_received (x ∷ xs) ∷ batches_of more

  -- The engine while the headers arrive.
  abbrev asking : List chain.Header → ℕ → ℕ → ℕ → SyncEngine chain
  asking buffer h target next = record {
    state = in_headers target next;
    headers_buffer = buffer;
    local_height = h;
  }

  start_bodies-fetching :
      (e : SyncEngine chain) (h : ℕ) (buffer : List chain.Header) (x : chain.Header)
      (xs : List chain.Header)
      → (a : Action chain) × (start_bodies chain
            (record e { headers_buffer = buffer ++ x ∷ xs; local_height = h })
            (hashes chain (buffer ++ x ∷ xs))
          ≡ (fetching chain (buffer ++ x ∷ xs) h (hashes chain (buffer ++ x ∷ xs)), ok a))
  unfolding start_bodies
  start_bodies-fetching e h [] x xs = (request_body (chain.hash x), refl)
  start_bodies-fetching e h (y ∷ buffer) x xs = (request_body (chain.hash y), refl)

  headers-last :
      (buffer : List chain.Header) (h target next : ℕ) (x : chain.Header) (xs : List chain.Header)
      → suc target ≡ next + length (x ∷ xs)
      → suc target < u64_mod
      → Contiguous chain next (x ∷ xs)
      → (a : Action chain) × (handle chain (asking buffer h target next) (headers_received (x ∷ xs))
          ≡ (fetching chain (buffer ++ x ∷ xs) h (hashes chain (buffer ++ x ∷ xs)), ok a))
  unfolding handle handle_in on_headers
  headers-last buffer h target next x xs whole small c =
      let (a, start) = start_bodies-fetching (asking buffer h target next) h buffer x xs in
      let fine = Contiguous-in_order chain next (x ∷ xs) (omega (arith, whole, small)) c in
      let sum : (next + length (x ∷ xs)) % u64_mod ≡ suc target = omega (arith, whole, small) in
      let move : on_headers chain (asking buffer h target next) target next (x ∷ xs)
          ≡ start_bodies chain
              (record {
                state = in_headers target next;
                headers_buffer = buffer ++ x ∷ xs;
                local_height = h;
              })
              (hashes chain (buffer ++ x ∷ xs)) =
        ground (arith, fine, sum) in
      (a, move ∙ start)

  headers-next :
      (buffer : List chain.Header) (h target next : ℕ) (x : chain.Header) (xs : List chain.Header)
      → next + length (x ∷ xs) ≤ target
      → suc target < u64_mod
      → Contiguous chain next (x ∷ xs)
      → handle chain (asking buffer h target next) (headers_received (x ∷ xs)) ≡ (
        asking (buffer ++ x ∷ xs) h target (next + length (x ∷ xs)),
        ok (request_headers (next + length (x ∷ xs)) header_batch),
      )
  unfolding handle handle_in on_headers
  headers-next buffer h target next x xs low small c =
      let fine = Contiguous-in_order chain next (x ∷ xs) (omega (arith, low, small)) c in
      let sum : (next + length (x ∷ xs)) % u64_mod ≡ next + length (x ∷ xs) =
        omega (arith, low, small) in
      ground (arith, fine, sum, low)

  -- Batches that reach the target, and not before the last.
  run_ok-headers :
      (buffer : List chain.Header) (h target next : ℕ) (x : chain.Header) (xs : List chain.Header)
      (more : List (chain.Header × List chain.Header)) (events : List (Event chain))
      → suc target ≡ next + length (joined ((x, xs) ∷ more))
      → suc target < u64_mod
      → Contiguous chain next (joined ((x, xs) ∷ more))
      → run_ok chain (asking buffer h target next) (batches_of ((x, xs) ∷ more) ++ events)
        ≡ run_ok chain
            (fetching chain
              (buffer ++ joined ((x, xs) ∷ more))
              h
              (hashes chain (buffer ++ joined ((x, xs) ∷ more))))
            events
  run_ok-headers buffer h target next x xs [] events whole small c =
      let alone : x ∷ xs ≡ joined ((x, xs) ∷ []) = ap (λ ys. x ∷ ys) (sym (append-nil xs)) in
      let sum = ap (λ ys. length ys) alone in
      let (a, last) =
        headers-last buffer h target next x xs (omega (arith, whole, sum)) small
          (subst (Contiguous chain next) (sym alone) c) in
      run_step chain _ _ _ a events last
      ∙ ap
          (λ ys.
            run_ok chain (fetching chain (buffer ++ ys) h (hashes chain (buffer ++ ys))) events)
          alone
  run_ok-headers buffer h target next x xs ((y, ys) ∷ more) events whole small c =
      let split = Contiguous-split chain next (x ∷ xs) (joined ((y, ys) ∷ more)) c in
      let sum : length (joined ((x, xs) ∷ (y, ys) ∷ more))
          ≡ length (x ∷ xs) + length (joined ((y, ys) ∷ more)) =
        length-append (x ∷ xs) (joined ((y, ys) ∷ more)) in
      run_step chain _ _ _ _ (batches_of ((y, ys) ∷ more) ++ events)
        (headers-next buffer h target next x xs (omega (arith, whole, sum)) small split.0)
      ∙ run_ok-headers (buffer ++ x ∷ xs) h target (next + length (x ∷ xs)) y ys more events
          (omega (arith, whole, sum)) small split.1
      ∙ ap (λ b. run_ok chain (fetching chain b h (hashes chain b)) events)
          (append_assoc buffer (x ∷ xs) (joined ((y, ys) ∷ more)))

  length-headers_of : (bs : List chain.Block) → length (headers_of chain bs) ≡ length bs
  length-headers_of [] = refl
  length-headers_of (b ∷ bs) = ap suc (length-headers_of bs)

  tip-ahead :
      (h n : ℕ)
      → handle chain (new_engine chain h) (peer_announced_tip (h + suc n))
        ≡ (asking [] h (h + suc n) (h + 1), ok (request_headers (h + 1) header_batch))
  unfolding handle handle_in on_tip new_engine
  tip-ahead h n = ground arith

  -- On an engine that starts at height h, a tip ahead of h, replies that bring the headers from h + 1 up
  -- to the tip, in batches that are not empty, and then the bodies of those headers in their order all
  -- succeed, and leave the engine done, with no headers, at the tip, if the tip is below 2 ^ 64 - 1.
  pub run_ok-synced :
      (h : ℕ) (b : chain.Block) (bs : List chain.Block) (x : chain.Header) (xs : List chain.Header)
      (more : List (chain.Header × List chain.Header))
      → headers_of chain (b ∷ bs) ≡ joined ((x, xs) ∷ more)
      → Contiguous chain (h + 1) (headers_of chain (b ∷ bs))
      → h + length (b ∷ bs) + 1 < u64_mod
      → run_ok chain (new_engine chain h) (
          peer_announced_tip (h + length (b ∷ bs))
          ∷ (batches_of ((x, xs) ∷ more) ++ bodies_of chain (b ∷ bs)))
        ≡ some (synced chain (h + length (b ∷ bs)))
  run_ok-synced h b bs x xs more same c small =
      let count = ap (λ ys. length ys) same in
      let total = length-headers_of bs in
      let tip = h + length (b ∷ bs) in
      run_step chain _ _ _ _ (batches_of ((x, xs) ∷ more) ++ bodies_of chain (b ∷ bs))
        (tip-ahead h (length bs))
      ∙ run_ok-headers [] h tip (h + 1) x xs more (bodies_of chain (b ∷ bs))
          (omega (arith, count, total)) (omega (arith, small))
          (subst (Contiguous chain (h + 1)) same c)
      ∙ ap (λ ys. run_ok chain (fetching chain ys h (hashes chain ys)) (bodies_of chain (b ∷ bs)))
          (sym same)
      ∙ run_ok-bodies chain (h + 1) h (headers_of chain (b ∷ bs)) b bs c
      ∙ ap (λ k. some (synced chain k)) (omega arith)
