-- ===== src/Staking/Records.antt =====
-- What the writes of the table mean for the records: the codec is lossless, and a write changes the
-- record of its own address alone.
use aii.Base.{
  ℕ, ◌^◌, ◌<◌, ◌≡◌, ◌≢◌, refl, ap, sym, ◌∙◌, none, some, ok, ◌++◌, map_err-ok, arith, take, drop,
  map_err, ◌>>=◌, to_be_bytes, length-append, length-to_be_bytes, take-length_append,
  drop-length_append, from_be_bytes-to_be_bytes, to_be_bytes-injective, append_cancel, u64_mod,
  u256_mod,
}
use aii.Storage.{KvBackend, meta}
use aii.Staking.{
  storage, stake_key, key_prefix, encode_value, decode_value, read_record, get_stake, put_stake,
}

take_32 : (a h : ℕ) → take 32 (to_be_bytes 32 a ++ to_be_bytes 8 h) ≡ to_be_bytes 32 a
take_32 a h =
    ap (λ n. take n (to_be_bytes 32 a ++ to_be_bytes 8 h)) (sym (length-to_be_bytes 32 a))
    ∙ take-length_append (to_be_bytes 32 a) (to_be_bytes 8 h)

drop_32 : (a h : ℕ) → drop 32 (to_be_bytes 32 a ++ to_be_bytes 8 h) ≡ to_be_bytes 8 h
drop_32 a h =
    ap (λ n. drop n (to_be_bytes 32 a ++ to_be_bytes 8 h)) (sym (length-to_be_bytes 32 a))
    ∙ drop-length_append (to_be_bytes 32 a) (to_be_bytes 8 h)

-- What is stored for an amount and a height is read back, for values in the range of their Rust
-- types.
decode_value-encode_value :
    (amount unbond_at : ℕ)
    → amount < u256_mod
    → unbond_at < u64_mod
    → decode_value (encode_value amount unbond_at) ≡ some (amount, unbond_at)
unfolding decode_value encode_value
decode_value-encode_value a h fa fh = ground (
  arith,
  length-append (to_be_bytes 32 a) (to_be_bytes 8 h),
  length-to_be_bytes 32 a,
  length-to_be_bytes 8 h,
  take_32 a h,
  drop_32 a h,
  from_be_bytes-to_be_bytes 32 a (omega arith),
  from_be_bytes-to_be_bytes 8 h (omega arith),
)

stake_key-injective : (a b : ℕ) → a < 2 ^ 160 → b < 2 ^ 160 → stake_key a ≡ stake_key b → a ≡ b
unfolding stake_key
stake_key-injective a b fa fb e =
    to_be_bytes-injective 20 a b (omega arith) (omega arith)
      (append_cancel key_prefix key_prefix _ _ refl e).1

module _ {S : Type 0} (kv : KvBackend S) (s s' : S) (addr : ℕ) where
  put_stake-ok :
      (amount unbond_at : ℕ)
      → put_stake kv s addr amount unbond_at ≡ ok s'
      → kv.put s meta (stake_key addr) (encode_value amount unbond_at) ≡ ok s'
  unfolding put_stake
  put_stake-ok amount unbond_at h =
      map_err-ok storage (kv.put s meta (stake_key addr) (encode_value amount unbond_at)) h

  pub put_stake-get :
      (amount unbond_at : ℕ)
      → amount < u256_mod
      → unbond_at < u64_mod
      → put_stake kv s addr amount unbond_at ≡ ok s'
      → get_stake kv s' addr
        ≡ ok (some (record { staker = addr; amount_wei = amount; unbond_at = unbond_at }))
  unfolding get_stake read_record
  put_stake-get amount unbond_at fa fh h = ground (
    arith,
    kv.put-get s s' meta (stake_key addr) (encode_value amount unbond_at)
        (put_stake-ok amount unbond_at h),
    decode_value-encode_value amount unbond_at fa fh,
  )

  pub put_stake-get_other :
      (amount unbond_at other : ℕ)
      → addr < 2 ^ 160
      → other < 2 ^ 160
      → addr ≢ other
      → put_stake kv s addr amount unbond_at ≡ ok s'
      → get_stake kv s' other ≡ get_stake kv s other
  unfolding get_stake
  put_stake-get_other amount unbond_at other fa fo ne h =
      ap (λ r. map_err storage r >>= (λ bytes. ok (read_record other bytes)))
        (kv.put-get_other s s' meta (stake_key addr) (encode_value amount unbond_at)
          (stake_key other) (put_stake-ok amount unbond_at h)
          (λ e. ne (stake_key-injective addr other fa fo e)))

module _ {S : Type 0} (kv : KvBackend S) (s s' : S) (addr : ℕ) where
  pub delete-get_stake : kv.delete s meta (stake_key addr) ≡ ok s' → get_stake kv s' addr ≡ ok none
  unfolding get_stake read_record
  delete-get_stake h = ground (arith, kv.delete-get s s' meta (stake_key addr) h)

  pub delete-get_stake_other :
      (other : ℕ)
      → addr < 2 ^ 160
      → other < 2 ^ 160
      → addr ≢ other
      → kv.delete s meta (stake_key addr) ≡ ok s'
      → get_stake kv s' other ≡ get_stake kv s other
  unfolding get_stake
  delete-get_stake_other other fa fo ne h =
      ap (λ r. map_err storage r >>= (λ bytes. ok (read_record other bytes)))
        (kv.delete-get_other s s' meta (stake_key addr) (stake_key other) h
          (λ e. ne (stake_key-injective addr other fa fo e)))
