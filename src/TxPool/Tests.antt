-- ===== src/TxPool/Tests.antt =====
-- A pool of two senders, whose transactions are numbers: tests, and the theorems applied.
use aii.Base.{ℕ, ◌+◌, ◌*◌, ◌≡◌, refl, List, [], ◌∷◌, ok, err, arith}
use aii.TxPool.{
  Key, PoolEntry, Pool, AddOutcome, inserted, replaced, rejected_underpriced, PoolError, full, find,
  add, drain_ready, drain_up_to, evict_to,
}
use aii.TxPool.Map.{Sorted}
use aii.TxPool.Adding.{PoolInv, Adds, add_lem}
use aii.TxPool.Draining.{Drains, drain_ready-Drains}
use aii.TxPool.Evicting.{Evicts, evict_to-Evicts}

abbrev entry : ℕ → ℕ → ℕ → PoolEntry ℕ
entry sender nonce price = record {
  sender = sender;
  nonce = nonce;
  effective_gas_price = price;
  tx = sender * 100 + nonce;
}

-- Sender 1 has nonces 4, 5 and 7, sender 2 has nonce 0.
abbrev pool : Pool ℕ
pool = record { entries = entry 1 4 9 ∷ entry 1 5 3 ∷ entry 1 7 5 ∷ entry 2 0 4 ∷ []; capacity = 5 }

pool-Sorted : Sorted pool.entries
pool-Sorted = ((refl, (refl, (refl, tt))), ((refl, (refl, tt)), ((refl, tt), (tt, tt))))

pool-Inv : PoolInv pool
pool-Inv = record { sorted = pool-Sorted; within = omega arith }

add-replaces : (add pool (entry 1 5 4)).1 ≡ ok (replaced (entry 1 5 3))
unfolding add find
add-replaces = refl

-- A pool that is full refuses even an entry that would replace a cheaper one.
add-full : (add (record pool { capacity = 4 }) (entry 1 5 4)).1 ≡ err full
unfolding add
add-full = refl

drain-run : (drain_ready pool 1 4).1 ≡ ok (104 ∷ 105 ∷ [])
unfolding drain_ready aii.TxPool.drain_from find aii.TxPool.erase
drain-run = refl

-- Evicting two entries leaves the two that pay most.
evicted : (evict_to pool 2).entries ≡ entry 1 4 9 ∷ entry 1 7 5 ∷ []
unfolding evict_to aii.TxPool.erase_all aii.TxPool.erase aii.TxPool.sort_by_price
    aii.TxPool.by_price
evicted = refl

add_lem_example :
    let (p', r) = add pool (entry 1 5 4) in
    Adds pool (entry 1 5 4) (record { sender = 1; nonce = 7 }) p' r × PoolInv p' × (p'.capacity ≡ 5)
add_lem_example = add_lem pool (entry 1 5 4) (record { sender = 1; nonce = 7 }) pool-Inv

drain_ready-Drains_example :
    let (p', r) = drain_ready pool 1 4 in
    (txs : List ℕ) × (r ≡ ok txs)
    × Drains pool.entries 1 4 (record { sender = 2; nonce = 0 }) p'.entries txs
unfolding find
drain_ready-Drains_example =
    drain_ready-Drains pool 1 4 (record { sender = 2; nonce = 0 }) (omega arith) refl

evict_to-Evicts_example :
    Evicts pool 2
      (record { sender = 1; nonce = 5 })
      (record { sender = 1; nonce = 4 })
      (entry 1 5 3)
      (entry 1 4 9)
      (evict_to pool 2)
unfolding find
evict_to-Evicts_example =
    evict_to-Evicts pool 2 (record { sender = 1; nonce = 5 }) (record { sender = 1; nonce = 4 })
      (entry 1 5 3) (entry 1 4 9) pool-Sorted refl refl
