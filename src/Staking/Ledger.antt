-- ===== src/Staking/Ledger.antt =====
-- The books of an address: whatever is done to the table, nobody is paid more than they bonded.
use aii.Base.{
  ℕ, ◌+◌, ◌^◌, ◌≤◌, ◌<◌, ◌≡◌, ◌≢◌, refl, ap, sym, subst, ◌∙◌, Option, none, some, List, [], ◌∷◌, ok,
  err, panic, Result-cases, inl, inr, arith, All, ◌==◌, ==→eq, map_err, map_err-ok, bind-ok, Bool,
  true, false, Bool-cases, ltb, ◌||◌,
}
use aii.Storage.{KvBackend, meta}
use aii.Staking.{StakeRecord, storage, stake_key, get_stake, put_stake}
use aii.Staking.Records.{
  put_stake-get, put_stake-get_other, delete-get_stake, delete-get_stake_other,
}
use aii.Staking.Effects.{
  StakeOp, bond_more, slash_by, sweep_at, unbond_from, held, Fits, Effect, nothing, refused,
  written, paid_out, effect, apply, perform, apply-effect, apply-reads,
}

abbrev pub bonded_by : StakeOp → ℕ
bonded_by (bond_more delta) = delta
bonded_by (slash_by delta) = 0
bonded_by (sweep_at height) = 0
bonded_by (unbond_from height period) = 0

-- What an effect leaves of the record of an address, and what it pays.
abbrev left_by : ℕ → Option StakeRecord → Effect → Option StakeRecord
left_by addr r nothing = r
left_by addr r (refused e) = r
left_by addr r (written amount unbond_at) =
    some (record { staker = addr; amount_wei = amount; unbond_at = unbond_at })
left_by addr r (paid_out paid) = none

abbrev paid_by : Effect → ℕ
paid_by nothing = 0
paid_by (refused e) = 0
paid_by (written amount unbond_at) = 0
paid_by (paid_out paid) = paid

effect-Fits :
    (addr : ℕ) (r : Option StakeRecord) (op : StakeOp)
    → Fits r
    → Fits (left_by addr r (effect addr r op))
effect-Fits addr none (bond_more d) f = (ground arith, omega arith)
effect-Fits addr (some r) (bond_more d) f = (ground arith, omega arith)
effect-Fits addr none (slash_by d) f = tt
effect-Fits addr (some r) (slash_by d) f = let amount = f.0 in (omega arith, f.1)
effect-Fits addr none (sweep_at h) f = tt
effect-Fits addr (some r) (sweep_at h) f =
    elim (Bool-cases (r.unbond_at == 0 || ltb h r.unbond_at)) [
      | inl early ↦ rw early f
      | inr due ↦ rw due tt
    ]
effect-Fits addr none (unbond_from h p) f = tt
effect-Fits addr (some r) (unbond_from h p) f = (f.0, ground arith)

effect-balance :
    (addr : ℕ) (r : Option StakeRecord) (op : StakeOp)
    → paid_by (effect addr r op) + held (left_by addr r (effect addr r op)) ≤ bonded_by op + held r
effect-balance addr none (bond_more d) = ground arith
effect-balance addr (some r) (bond_more d) = ground arith
effect-balance addr none (slash_by d) = ground arith
effect-balance addr (some r) (slash_by d) = ground arith
effect-balance addr none (sweep_at h) = ground arith
effect-balance addr (some r) (sweep_at h) = ground arith
effect-balance addr none (unbond_from h p) = ground arith
effect-balance addr (some r) (unbond_from h p) = ground arith

module _ {S : Type 0} (kv : KvBackend S) (s s' : S) (addr : ℕ) where
  -- An effect that is carried out leaves the record that it says and pays what it says.
  perform-left_by :
      (e : Effect) (r : Option StakeRecord) (paid : ℕ)
      → Fits (left_by addr r e)
      → get_stake kv s addr ≡ ok r
      → perform kv s addr e ≡ ok (s', paid)
      → (get_stake kv s' addr ≡ ok (left_by addr r e)) × (paid ≡ paid_by e)
  unfolding perform
  perform-left_by nothing r paid f before h =
      let same : s ≡ s' = cc in (ap (λ t. get_stake kv t addr) (sym same) ∙ before, cc)
  perform-left_by (refused e) r paid f before h = absurd (cc)
  perform-left_by (written amount unbond_at) r paid f before h =
      let (t, stored, end) =
        bind-ok (put_stake kv s addr amount unbond_at) (λ (x : S). ok (x, 0)) h in
      let same : t ≡ s' = cc in
      (
        ap (λ x. get_stake kv x addr) (sym same)
            ∙ put_stake-get kv s t addr amount unbond_at f.0 f.1 stored,
        cc,
      )
  perform-left_by (paid_out p) r paid f before h =
      let (t, gone, end) =
        bind-ok (map_err storage (kv.delete s meta (stake_key addr))) (λ (x : S). ok (x, p)) h in
      let same : t ≡ s' = cc in
      (
        ap (λ x. get_stake kv x addr) (sym same)
            ∙ delete-get_stake kv s t addr
                (map_err-ok storage (kv.delete s meta (stake_key addr)) gone),
        cc,
      )

  -- An effect leaves the records of other addresses alone.
  perform-other :
      (e : Effect) (other paid : ℕ)
      → addr < 2 ^ 160
      → other < 2 ^ 160
      → addr ≢ other
      → perform kv s addr e ≡ ok (s', paid)
      → get_stake kv s' other ≡ get_stake kv s other
  unfolding perform
  perform-other nothing other paid fa fo ne h =
      let same : s ≡ s' = cc in ap (λ t. get_stake kv t other) (sym same)
  perform-other (refused e) other paid fa fo ne h = absurd (cc)
  perform-other (written amount unbond_at) other paid fa fo ne h =
      let (t, stored, end) =
        bind-ok (put_stake kv s addr amount unbond_at) (λ (x : S). ok (x, 0)) h in
      let same : t ≡ s' = cc in
      ap (λ x. get_stake kv x other) (sym same)
      ∙ put_stake-get_other kv s t addr amount unbond_at other fa fo ne stored
  perform-other (paid_out p) other paid fa fo ne h =
      let (t, gone, end) =
        bind-ok (map_err storage (kv.delete s meta (stake_key addr))) (λ (x : S). ok (x, p)) h in
      let same : t ≡ s' = cc in
      ap (λ x. get_stake kv x other) (sym same)
      ∙ delete-get_stake_other kv s t addr other fa fo ne
          (map_err-ok storage (kv.delete s meta (stake_key addr)) gone)

-- What a list of calls comes to for one address.
pub record Flows (S : Type 0) : Type 0 where
  pub last : S
  pub bonded : ℕ
  pub paid : ℕ

-- One more call before the others, by this address or by another.
abbrev pub add_call : {S : Type 0} → Bool → StakeOp → ℕ → Flows S → Flows S
add_call true op paid f = record {
  last = f.last;
  bonded = bonded_by op + f.bonded;
  paid = paid + f.paid;
}
add_call false op paid f = f

module _ {S : Type 0} (kv : KvBackend S) (addr : ℕ) where
  -- A list of calls for any addresses: the last store, what `addr` has bonded, and what it was paid. A
  -- call that fails leaves the store as it was.
  abbrev pub flows : S → List (ℕ × StakeOp) → Flows S
  flows s [] = record { last = s; bonded = 0; paid = 0 }
  flows s (call ∷ calls) = elim (apply kv s call.0 call.1) [
    | ok p ↦ add_call (call.0 == addr) call.1 p.1 (flows p.0 calls)
    | err e ↦ flows s calls
    | panic ↦ flows s calls
  ]

  flows-cons :
      (s : S) (call : ℕ × StakeOp) (calls : List (ℕ × StakeOp)) (p : S × ℕ)
      → apply kv s call.0 call.1 ≡ ok p
      → flows s (call ∷ calls) ≡ add_call (call.0 == addr) call.1 p.1 (flows p.0 calls)
  flows-cons s call calls p done = rw (done, flows) refl

  -- What `addr` is paid and has in the end is at most what it has bonded and had at the start.
  abbrev pub Balances : Option StakeRecord → Flows S → Type 0
  Balances r f =
      (r' : Option StakeRecord) × (get_stake kv f.last addr ≡ ok r')
      × (f.paid + held r' ≤ f.bonded + held r)

  -- Whatever is called, for whatever addresses below 2 ^ 160, in whatever order, on a store in which
  -- an address has no record or one in the range of its Rust types: what the address is paid and
  -- still has in the end is at most what it has bonded and had at the start.
  pub flows-Balances :
      (s : S) (calls : List (ℕ × StakeOp)) (r : Option StakeRecord)
      → addr < 2 ^ 160
      → All (λ call. call.0 < 2 ^ 160) calls
      → get_stake kv s addr ≡ ok r
      → Fits r
      → Balances r (flows s calls)
  flows-Balances s [] r fa in_range before fits = (r, before, omega arith)
  flows-Balances s (call ∷ calls) r fa in_range before fits =
      elim (Result-cases (apply kv s call.0 call.1)) [
        | inl (p, done) ↦ elim (Bool-cases (call.0 == addr)) [
          | inl own ↦
              let here : apply kv s addr call.1 ≡ ok p =
                ap (λ b. apply kv s b call.1) (sym (==→eq call.0 addr own)) ∙ done in
              let act = sym (apply-effect kv s addr r call.1 before) ∙ here in
              let next_fits = effect-Fits addr r call.1 fits in
              let (now, pays) =
                perform-left_by kv s p.0 addr (effect addr r call.1) r p.1 next_fits before act in
              let (r', after, bound) =
                flows-Balances p.0 calls (left_by addr r (effect addr r call.1)) fa in_range.1 now
                  next_fits in
              subst (Balances r)
                (sym (
                  flows-cons s call calls p done
                  ∙ ap (λ b. add_call b call.1 p.1 (flows p.0 calls)) own))
                (r', after, omega (arith, effect-balance addr r call.1, pays, bound))
          | inr foreign ↦
              let (rb, read) = apply-reads kv s call.0 call.1 p done in
              let act = sym (apply-effect kv s call.0 rb call.1 read) ∙ done in
              let same =
                perform-other kv s p.0 call.0 (effect call.0 rb call.1) addr p.1 in_range.0 fa
                  (λ e. ground arith) act in
              subst (Balances r)
                (sym (
                  flows-cons s call calls p done
                  ∙ ap (λ b. add_call b call.1 p.1 (flows p.0 calls)) foreign))
                (flows-Balances p.0 calls r fa in_range.1 (same ∙ before) fits)
        ]
        | inr (inl (e, failed)) ↦
            let (r', after, bound) = flows-Balances s calls r fa in_range.1 before fits in
            rw (failed, flows) (r', after, bound)
        | inr (inr failed) ↦
            let (r', after, bound) = flows-Balances s calls r fa in_range.1 before fits in
            rw (failed, flows) (r', after, bound)
      ]
