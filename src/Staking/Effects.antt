-- ===== src/Staking/Effects.antt =====
-- What a call of the table comes to, as a specification on the record of the address alone.
use aii.Base.{
  ℕ, ◌-◌, ◌<◌, ◌≡◌, refl, Option, none, some, Result, ok, err, ◌>>=◌, map_err, bind-ok, Bool-cases,
  Result-cases, inl, inr, arith, ◌==◌, ◌||◌, ltb, if◌then◌else◌, saturating_add, u64_mod, u256_mod,
}
use aii.Storage.{KvBackend, meta}
use aii.Staking.{
  StakeRecord, StakeError, storage, no_stake, stake_key, get_stake, put_stake, bond, begin_unbond,
  withdraw, slash,
}

-- What can be done to the stake of an address.
pub data StakeOp : Type 0 where
  bond_more slash_by sweep_at : ℕ → StakeOp
  unbond_from : ℕ → ℕ → StakeOp

-- What a record holds, and that its fields are in the range of their Rust types.
abbrev pub held : Option StakeRecord → ℕ
held none = 0
held (some r) = r.amount_wei

abbrev pub Fits : Option StakeRecord → Type 0
Fits none = Unit
Fits (some r) = (r.amount_wei < u256_mod) × (r.unbond_at < u64_mod)

-- What a call does to the record: nothing, an error, a new amount and height, or a payment of all.
pub data Effect : Type 0 where
  nothing : Effect
  refused : StakeError → Effect
  written : ℕ → ℕ → Effect
  paid_out : ℕ → Effect

-- The specification: a bond adds and cancels an unbonding, an unbonding sets the height at which the
-- amount is free, a slash takes from the amount, and a sweep pays all of it from that height on.
abbrev pub effect : ℕ → Option StakeRecord → StakeOp → Effect
effect addr r (bond_more delta) = written (saturating_add u256_mod (held r) delta) 0
effect addr none (slash_by delta) = refused (no_stake addr)
effect addr (some r) (slash_by delta) = written (r.amount_wei - delta) r.unbond_at
effect addr none (sweep_at height) = nothing
effect addr (some r) (sweep_at height) =
    if r.unbond_at == 0 || ltb height r.unbond_at then nothing else paid_out r.amount_wei
effect addr none (unbond_from height period) = refused (no_stake addr)
effect addr (some r) (unbond_from height period) =
    written r.amount_wei (saturating_add u64_mod height period)

module _ {S : Type 0} (kv : KvBackend S) (s : S) (addr : ℕ) where
  -- One call of the table for the address: the store that is left, and what is paid.
  unfoldable pub apply : StakeOp → Result StakeError (S × ℕ)
  apply (bond_more delta) = bond kv s addr delta >>= (λ s'. ok (s', 0))
  apply (slash_by delta) = slash kv s addr delta >>= (λ s'. ok (s', 0))
  apply (sweep_at height) =
      withdraw kv s addr height >>= (λ p. ok (p.0, elim p.1 [ none ↦ 0 | some paid ↦ paid ]))
  apply (unbond_from height period) = begin_unbond kv s addr height period >>= (λ s'. ok (s', 0))

  -- An effect, carried out on the store.
  unfoldable pub perform : Effect → Result StakeError (S × ℕ)
  perform nothing = ok (s, 0)
  perform (refused e) = err e
  perform (written amount unbond_at) = put_stake kv s addr amount unbond_at >>= (λ s'. ok (s', 0))
  perform (paid_out paid) =
      map_err storage (kv.delete s meta (stake_key addr)) >>= (λ s'. ok (s', paid))

  -- Where the record of the address can be read, every call of the table carries out what the
  -- specification says of that record alone.
  pub apply-effect :
      (r : Option StakeRecord) (op : StakeOp)
      → get_stake kv s addr ≡ ok r
      → apply op ≡ perform (effect addr r op)
  unfolding bond begin_unbond withdraw slash apply perform
  apply-effect none (bond_more delta) h = rw h refl
  apply-effect (some r) (bond_more delta) h = rw h refl
  apply-effect none (slash_by delta) h = rw h refl
  apply-effect (some r) (slash_by delta) h = rw h refl
  apply-effect none (sweep_at height) h = rw h refl
  apply-effect (some r) (sweep_at height) h =
      elim (Bool-cases (r.unbond_at == 0 || ltb height r.unbond_at)) [
        | inl early ↦ ground (arith, h)
        | inr due ↦ elim (Result-cases (kv.delete s meta (stake_key addr))) [
          | inl (s', gone) ↦ ground (arith, h, gone)
          | inr (inl (e, failed)) ↦ ground (arith, h, failed)
          | inr (inr failed) ↦ ground (arith, h, failed)
        ]
      ]
  apply-effect none (unbond_from height period) h = rw h refl
  apply-effect (some r) (unbond_from height period) h = rw h refl

  -- A call that succeeds has read the record of its address.
  pub apply-reads :
      (op : StakeOp) (p : S × ℕ)
      → apply op ≡ ok p
      → (r : Option StakeRecord) × (get_stake kv s addr ≡ ok r)
  unfolding apply bond slash withdraw begin_unbond
  apply-reads (bond_more delta) p h =
      let (_, done, _) = bind-ok (bond kv s addr delta) (λ x. ok (x, 0)) h in
      let (r, read, _) = bind-ok (get_stake kv s addr) _ done in (r, read)
  apply-reads (slash_by delta) p h =
      let (_, done, _) = bind-ok (slash kv s addr delta) (λ x. ok (x, 0)) h in
      let (r, read, _) = bind-ok (get_stake kv s addr) _ done in (r, read)
  apply-reads (sweep_at height) p h =
      let (_, done, _) = bind-ok (withdraw kv s addr height) _ h in
      let (r, read, _) = bind-ok (get_stake kv s addr) _ done in (r, read)
  apply-reads (unbond_from height period) p h =
      let (_, done, _) = bind-ok (begin_unbond kv s addr height period) (λ x. ok (x, 0)) h in
      let (r, read, _) = bind-ok (get_stake kv s addr) _ done in (r, read)
