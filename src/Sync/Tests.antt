-- ===== src/Sync/Tests.antt =====
-- A chain of two blocks, whose headers are their heights: tests, and the theorems applied.
use aii.Base.{ℕ, ◌+◌, ◌*◌, ◌≡◌, refl, [], ◌∷◌, ◌++◌, some, ok, err, arith}
use aii.Sync.{
  Chain, in_headers, peer_announced_tip, headers_received, SyncEngine, header_out_of_order,
  request_body, new_engine, handle, handle_in, on_headers, out_of_order, start_bodies,
}
use aii.Sync.Bodies.{run_ok, bodies_of, synced}
use aii.Sync.Handling.{Handles, handle_lem}
use aii.Sync.Honest.{batches_of, run_ok-synced}

abbrev chain : Chain
chain = record {
  Header = ℕ;
  Block = ℕ × ℕ;
  number = λ h. h;
  hash = λ h. h * 100 + 7;
  header_of = λ b. b.0;
}

-- Headers 6 and 7 have arrived, of those up to 8.
abbrev engine : SyncEngine chain
engine = record { state = in_headers 8 8; headers_buffer = 6 ∷ 7 ∷ []; local_height = 5 }

handle-last : (handle chain engine (headers_received (8 ∷ []))).1 ≡ ok (request_body 607)
unfolding handle handle_in on_headers out_of_order start_bodies
handle-last = refl

handle-gap :
    handle chain engine (headers_received (9 ∷ [])) ≡ (engine, err (header_out_of_order 8 9))
unfolding handle handle_in on_headers out_of_order start_bodies
handle-gap = refl

handle_lem_example : Handles chain engine (handle chain engine (headers_received (8 ∷ [])))
handle_lem_example =
    handle_lem chain engine (headers_received (8 ∷ [])) (refl, (refl, (refl, tt)), omega arith)
      (omega arith)

run_ok-synced_example :
    run_ok chain (new_engine chain 5) (
      peer_announced_tip 8
      ∷ (batches_of chain ((6, 7 ∷ []) ∷ (8, []) ∷ [])
          ++ bodies_of chain ((6, 0) ∷ (7, 1) ∷ (8, 2) ∷ [])))
    ≡ some (synced chain 8)
run_ok-synced_example =
    run_ok-synced chain 5 (6, 0) ((7, 1) ∷ (8, 2) ∷ []) 6 (7 ∷ []) ((8, []) ∷ []) refl
      (refl, (refl, (refl, tt))) (omega arith)
