-- ===== src/Crosschain/Htlc.antt =====
-- Hash time-locked contracts: `Htlc`, `HtlcState`, `HtlcError`, `htlc_id` of
-- crates/aii-crosschain/src/htlc.rs. A method returns the contract that it leaves and its result.
-- Addresses, hashes and amounts are numbers in the range of their Rust types.
pub mod Settlement
pub mod Id
use aii.Base.{
  ℕ, List, [], ◌∷◌, ◌++◌, Result, ok, err, Bool, true, false, ltb, ◌==◌, ◌!=◌, not, if◌then◌else◌,
  to_be_bytes,
}
use aii.Crypto.{Crypto}

pub data HtlcState : Type 0 where
  locked claimed refunded : HtlcState

pub record Htlc : Type 0 where
  pub sender : ℕ
  pub recipient : ℕ
  pub amount : ℕ
  pub secret_hash : ℕ
  pub timeout : ℕ
  pub state : HtlcState

pub data HtlcError : Type 0 where
  amount_zero self_lock wrong_preimage : HtlcError
  not_locked : HtlcState → HtlcError
  too_early : ℕ → ℕ → HtlcError

-- `Htlc::new`.
unfoldable pub new_htlc : ℕ → ℕ → ℕ → ℕ → ℕ → Result HtlcError Htlc
new_htlc sender recipient amount secret_hash timeout =
    if amount == 0
    then err amount_zero
    else if sender == recipient
    then err self_lock
    else ok (record {
      sender = sender;
      recipient = recipient;
      amount = amount;
      secret_hash = secret_hash;
      timeout = timeout;
      state = locked;
    })

-- `Htlc::is_open`, which is also the test `self.state == HtlcState::Locked`.
abbrev pub is_open : Htlc → Bool
is_open h = elim h.state [ locked ↦ true | claimed ↦ false | refunded ↦ false ]

-- `Htlc::claim`.
unfoldable pub claim : Crypto → Htlc → List ℕ → Htlc × Result HtlcError (Unit {0})
claim c h preimage =
    if not (is_open h)
    then (h, err (not_locked h.state))
    else if c.keccak256 preimage != h.secret_hash
    then (h, err wrong_preimage)
    else (record h { state = claimed }, ok tt)

-- `Htlc::refund`.
unfoldable pub refund : Htlc → ℕ → Htlc × Result HtlcError (Unit {0})
refund h now =
    if not (is_open h)
    then (h, err (not_locked h.state))
    else if ltb now h.timeout
    then (h, err (too_early now h.timeout))
    else (record h { state = refunded }, ok tt)

-- The bytes under the hash of `htlc_id`.
unfoldable pub id_input : Htlc → List ℕ
id_input h =
    to_be_bytes 20 h.sender
    ++ (to_be_bytes 20 h.recipient
        ++ (to_be_bytes 32 h.amount ++ (to_be_bytes 32 h.secret_hash ++ to_be_bytes 8 h.timeout)))

-- `htlc_id`.
unfoldable pub htlc_id : Crypto → Htlc → ℕ
htlc_id c h = c.keccak256 (id_input h)

-- What the two parties may try.
pub data Attempt : Type 0 where
  claim_with : List ℕ → Attempt
  refund_at : ℕ → Attempt

-- One attempt, and a list of them with their results.
unfoldable pub try_one : Crypto → Htlc → Attempt → Htlc × Result HtlcError (Unit {0})
try_one c h (claim_with preimage) = claim c h preimage
try_one c h (refund_at now) = refund h now

abbrev pub try_all : Crypto → Htlc → List Attempt → Htlc × List (Result HtlcError (Unit {0}))
try_all c h [] = (h, [])
try_all c h (a ∷ attempts) =
    let (h', reply) = try_one c h a in
    let (last, replies) = try_all c h' attempts in (last, reply ∷ replies)
