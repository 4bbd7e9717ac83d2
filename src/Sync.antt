-- ===== src/Sync.antt =====
-- Block sync: `SyncState`, `Event`, `Action`, `SyncEngine`, `SyncError` of
-- crates/aii-net-sync/src/lib.rs. Headers and blocks are those of any chain, with a number and a hash
-- of headers; the hash of a block is that of its header. Heights are numbers below 2 ^ 64.
pub mod Bodies
pub mod Buffer
pub mod Handling
pub mod Honest
mod Tests
use aii.Base.{
  ℕ, suc, ◌+◌, ◌%◌, Option, none, some, List, [], ◌∷◌, ◌++◌, Result, ok, err, panic, leb, ltb, ◌==◌,
  if◌then◌else◌, length, u64_mod,
}

-- What the engine uses of the headers and blocks of a chain.
pub record Chain : Type 1 where
  pub Header : Type 0
  pub Block : Type 0
  pub number : Header → ℕ
  pub hash : Header → ℕ
  pub header_of : Block → Header

pub data SyncState : Type 0 where
  idle done : SyncState
  in_headers : ℕ → ℕ → SyncState
  in_bodies : List ℕ → SyncState

abbrev pub header_batch : ℕ
header_batch = 192

module _ (chain : Chain) where
  pub data Event : Type 0 where
    peer_announced_tip : ℕ → Event
    headers_received : List chain.Header → Event
    body_received : chain.Block → Event
    peer_disconnected : Event

  pub data Action : Type 0 where
    request_headers : ℕ → ℕ → Action
    request_body : ℕ → Action
    persist_block : chain.Block → Action
    nothing_to_do : Action

  pub record SyncEngine : Type 0 where
    pub state : SyncState
    pub headers_buffer : List chain.Header
    pub local_height : ℕ

  -- `unexpected` keeps the state and the event, which the code prints.
  pub data SyncError : Type 0 where
    empty_header_batch : SyncError
    header_out_of_order : ℕ → ℕ → SyncError
    unexpected_body : ℕ → SyncError
    unexpected : SyncState → Event → SyncError

  -- `SyncEngine::new`.
  unfoldable pub new_engine : ℕ → SyncEngine
  new_engine local_height = record {
    state = idle;
    headers_buffer = [];
    local_height = local_height;
  }

  -- The loop of `handle` over a batch of headers: the first that is not at its height.
  unfoldable pub out_of_order : ℕ → List chain.Header → Option SyncError
  out_of_order next [] = none
  out_of_order next (h ∷ batch) =
      let rest = out_of_order ((next + 1) % u64_mod) batch in
      if chain.number h == next then rest else some (header_out_of_order next (chain.number h))

  abbrev pub hashes : List chain.Header → List ℕ
  hashes [] = []
  hashes (h ∷ hs) = chain.hash h ∷ hashes hs

  -- The arm of `handle` for a tip.
  unfoldable pub on_tip : SyncEngine → ℕ → SyncEngine × Result SyncError Action
  on_tip e height =
      if leb height e.local_height then (record e { state = done }, ok nothing_to_do) else (
        record e { state = in_headers height (e.local_height + 1) },
        ok (request_headers (e.local_height + 1) header_batch),
      )

  -- The move of `handle` into the bodies; the index fails if there is no header.
  unfoldable pub start_bodies : SyncEngine → List ℕ → SyncEngine × Result SyncError Action
  start_bodies e [] = (e, panic)
  start_bodies e (first ∷ rest) =
      (record e { state = in_bodies (first ∷ rest) }, ok (request_body first))

  -- The arm of `handle` for headers.
  unfoldable pub on_headers :
      SyncEngine → ℕ → ℕ → List chain.Header → SyncEngine × Result SyncError Action
  on_headers e target next [] = (e, err empty_header_batch)
  on_headers e target next (h ∷ batch) =
      let buffer = e.headers_buffer ++ h ∷ batch in
      let new_next = (next + length (h ∷ batch)) % u64_mod in
      elim (out_of_order next (h ∷ batch)) [
        | some x ↦ (e, err x)
        | none ↦
            if ltb target new_next
            then start_bodies (record e { headers_buffer = buffer }) (hashes buffer)
            else (
              record e { headers_buffer = buffer; state = in_headers target new_next },
              ok (request_headers new_next header_batch),
            )
      ]

  -- What `handle` does after a body that was pending.
  unfoldable pub after_body :
      SyncEngine → chain.Block → List ℕ → SyncEngine × Result SyncError Action
  after_body e block [] = (record e { state = done; headers_buffer = [] }, ok (persist_block block))
  after_body e block (next_hash ∷ pending) =
      (record e { state = in_bodies (next_hash ∷ pending) }, ok (request_body next_hash))

  -- The arm of `handle` for a body.
  unfoldable pub on_body : SyncEngine → List ℕ → chain.Block → SyncEngine × Result SyncError Action
  on_body e [] block = (e, err (unexpected_body (chain.hash (chain.header_of block))))
  on_body e (first ∷ pending) block =
      if first == chain.hash (chain.header_of block)
      then after_body (record e { local_height = chain.number (chain.header_of block) }) block
          pending
      else (e, err (unexpected_body (chain.hash (chain.header_of block))))

  -- `SyncEngine::handle`, on the state and the event.
  unfoldable pub handle_in : SyncEngine → SyncState → Event → SyncEngine × Result SyncError Action
  handle_in e idle (peer_announced_tip height) = on_tip e height
  handle_in e (in_headers target next) (headers_received batch) = on_headers e target next batch
  handle_in e (in_bodies pending) (body_received block) = on_body e pending block
  handle_in e _ peer_disconnected =
      (record e { state = idle; headers_buffer = [] }, ok nothing_to_do)
  handle_in e state event = (e, err (unexpected state event))

  -- `SyncEngine::handle`.
  unfoldable pub handle : SyncEngine → Event → SyncEngine × Result SyncError Action
  handle e event = handle_in e e.state event
