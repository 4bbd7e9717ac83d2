-- ===== src/TxPool/Draining.antt =====
-- `drain_ready`: it takes the run of consecutive nonces of a sender, all of it, and nothing else.
use aii.Base.{
  ℕ, zero, suc, ◌+◌, ◌≤◌, ◌<◌, ◌≡◌, refl, ap, sym, ◌∙◌, subst, Option, none, some, List, [], ◌∷◌,
  ok, arith, Bool, Bool-cases, Option-cases, inl, inr, length, leb, ltb, false, ◌==◌, ◌&&◌,
  if◌then◌else◌, u64_mod,
}
use aii.TxPool.{Key, key_eq, PoolEntry, Pool, find, erase, drain_from, drain_ready}
use aii.TxPool.Map.{find-erase, length-erase_found}

-- Is the key one of k nonces of the sender from one on?
abbrev pub in_run : ℕ → ℕ → ℕ → Key → Bool
in_run k sender nonce j = j.sender == sender && (leb nonce j.nonce && ltb j.nonce (nonce + k))

module _ {Tx : Type 0} where
  -- The transactions of a sender at k nonces from one on, if all of them are there.
  abbrev pub run_at : ℕ → ℕ → ℕ → List (PoolEntry Tx) → Option (List Tx)
  run_at zero sender nonce es = some []
  run_at (suc k) sender nonce es = elim (find (record { sender = sender; nonce = nonce }) es) [
    | none ↦ none
    | some e ↦ elim (run_at k sender (nonce + 1) es) [ none ↦ none | some txs ↦ some (e.tx ∷ txs) ]
  ]

  -- A list of transactions is the run from a nonce on, the run ends there, and the entries that are
  -- left are all others.
  abbrev pub Drains : List (PoolEntry Tx) → ℕ → ℕ → Key → List (PoolEntry Tx) → List Tx → Type 0
  Drains es sender nonce j left txs =
      (k : ℕ) × (run_at k sender nonce es ≡ some txs)
      × (find (record { sender = sender; nonce = nonce + k }) es ≡ none)
      × (find j left ≡ (if in_run k sender nonce j then none else find j es))

  -- A run does not read the entries below it.
  run_at-erase_below :
      (k sender nonce below : ℕ) (es : List (PoolEntry Tx))
      → below < nonce
      → run_at k sender nonce (erase (record { sender = sender; nonce = below }) es)
        ≡ run_at k sender nonce es
  run_at-erase_below zero sender nonce below es lt = refl
  run_at-erase_below (suc k) sender nonce below es lt =
      let b : Key = record { sender = sender; nonce = below } in
      let n : Key = record { sender = sender; nonce = nonce } in
      let other : key_eq b n ≡ false = ground arith in
      let same : find n (erase b es) ≡ find n es = find-erase b n es ∙ ground (arith, other) in
      ground (arith, same, run_at-erase_below k sender (nonce + 1) below es (omega arith))

  -- The highest nonce is not there, so the next one exists.
  next_nonce-lt :
      (es : List (PoolEntry Tx)) (sender nonce : ℕ) (e : PoolEntry Tx)
      → nonce < u64_mod
      → find (record { sender = sender; nonce = nonce }) es ≡ some e
      → find (record { sender = sender; nonce = 0xffff_ffff_ffff_ffff }) es ≡ none
      → nonce + 1 < u64_mod
  next_nonce-lt es sender nonce e lt present top =
      elim (Bool-cases (nonce == 0xffff_ffff_ffff_ffff)) [
        | inl last ↦
            let at : nonce ≡ 0xffff_ffff_ffff_ffff = ground arith in
            let gone = ap (λ n. find (record { sender = sender; nonce = n }) es) at ∙ top in
            absurd (cc)
        | inr other ↦ ground arith
      ]

  -- The end of the run, and the entries that are left, after the first of them is taken.
  run-stops :
      (es : List (PoolEntry Tx)) (sender nonce k : ℕ)
      → find
          (record { sender = sender; nonce = nonce + 1 + k })
          (erase (record { sender = sender; nonce = nonce }) es)
        ≡ none
      → find (record { sender = sender; nonce = nonce + suc k }) es ≡ none
  run-stops es sender nonce k stop =
      let here : Key = record { sender = sender; nonce = nonce } in
      let end : Key = record { sender = sender; nonce = nonce + 1 + k } in
      let apart : key_eq here end ≡ false = ground arith in
      let same : nonce + suc k ≡ nonce + 1 + k = omega arith in
      ap (λ n. find (record { sender = sender; nonce = n }) es) same
      ∙ ground (arith, apart, find-erase here end es, stop)

  run-leaves :
      (es : List (PoolEntry Tx)) (sender nonce k : ℕ) (j : Key)
      → (if in_run k sender (nonce + 1) j
          then none
          else find j (erase (record { sender = sender; nonce = nonce }) es))
        ≡ (if in_run (suc k) sender nonce j then none else find j es)
  run-leaves es sender nonce k j =
      ground (arith, find-erase (record { sender = sender; nonce = nonce }) j es)

  find-nil : (k : Key) → find {Tx = Tx} k [] ≡ none
  unfolding find
  find-nil k = refl

  drain_from-Drains :
      (fuel : ℕ) (es : List (PoolEntry Tx)) (sender nonce : ℕ) (j : Key)
      → length es ≤ fuel
      → nonce < u64_mod
      → find (record { sender = sender; nonce = 0xffff_ffff_ffff_ffff }) es ≡ none
      → (txs : List Tx) × ((drain_from fuel es sender nonce).1 ≡ ok txs)
        × Drains es sender nonce j (drain_from fuel es sender nonce).0 txs
  unfolding drain_from
  drain_from-Drains zero [] sender nonce j le lt top =
      ([], refl, (0, refl, find-nil _, ground arith))
  drain_from-Drains zero (e ∷ es) sender nonce j le lt top = absurd (omega arith)
  drain_from-Drains (suc fuel) es sender nonce j le lt top =
      let here : Key = record { sender = sender; nonce = nonce } in
      elim (Option-cases (find here es)) [
        | inl absent ↦
            let done : drain_from (suc fuel) es sender nonce ≡ (es, ok []) =
              ground (arith, absent) in
            subst (λ o. (txs : List Tx) × (o.1 ≡ ok txs) × Drains es sender nonce j o.0 txs)
              (sym done)
              (
                [],
                refl,
                (
                  0,
                  refl,
                  ap (λ n. find (record { sender = sender; nonce = n }) es) (omega arith) ∙ absent,
                  ground arith,
                ),
              )
        | inr (e, present) ↦
            let left = erase here es in
            let below_top : nonce + 1 < u64_mod = next_nonce-lt es sender nonce e lt present top in
            let top' : find (record { sender = sender; nonce = 0xffff_ffff_ffff_ffff }) left
                ≡ none =
              find-erase here _ es ∙ ground (arith, top) in
            let (txs, ran, (k, run, stop, rest)) =
              drain_from-Drains fuel left sender (nonce + 1) j
                (omega (arith, length-erase_found here es e present)) below_top top' in
            let done : drain_from (suc fuel) es sender nonce
                ≡ ((drain_from fuel left sender (nonce + 1)).0, ok (e.tx ∷ txs)) =
              ground (arith, present, below_top, ran) in
            subst (λ o. (txs : List Tx) × (o.1 ≡ ok txs) × Drains es sender nonce j o.0 txs)
              (sym done)
              (
                e.tx ∷ txs,
                refl,
                (
                  suc k,
                  ground (
                    arith,
                    present,
                    run,
                    run_at-erase_below k sender (nonce + 1) nonce es (omega arith),
                  ),
                  run-stops es sender nonce k stop,
                  rest ∙ run-leaves es sender nonce k j,
                ),
              )
      ]

  -- On a pool that has no entry of the sender at the highest nonce, `drain_ready` never panics, and
  -- returns the transactions of the sender at consecutive nonces from the one given up to the first
  -- that is missing; those entries are gone, and every other key keeps its entry.
  pub drain_ready-Drains :
      (p : Pool Tx) (sender nonce : ℕ) (j : Key)
      → nonce < u64_mod
      → find (record { sender = sender; nonce = 0xffff_ffff_ffff_ffff }) p.entries ≡ none
      → let (p', r) = drain_ready p sender nonce in
        (txs : List Tx) × (r ≡ ok txs) × Drains p.entries sender nonce j p'.entries txs
  unfolding drain_ready
  drain_ready-Drains p sender nonce j lt top =
      drain_from-Drains (length p.entries) p.entries sender nonce j (omega arith) lt top
