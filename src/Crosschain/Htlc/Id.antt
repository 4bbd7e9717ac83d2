-- ===== src/Crosschain/Htlc/Id.antt =====
-- What an id commits to: all terms of the contract, and not its state.
use aii.Base.{◌^◌, ◌<◌, ◌≡◌, arith, to_be_bytes-injective, field_cancel}
use aii.Crosschain.Htlc.{Htlc, id_input}

-- The terms of a contract are in the range of their Rust types.
pub record Fits (h : Htlc) : Type 0 where
  pub sender_fits : h.sender < 2 ^ 160
  pub recipient_fits : h.recipient < 2 ^ 160
  pub amount_fits : h.amount < 2 ^ 256
  pub hash_fits : h.secret_hash < 2 ^ 256
  pub timeout_fits : h.timeout < 2 ^ 64

-- Two contracts with the same bytes under the hash of their ids have the same terms, for values in
-- the range of their Rust types; the states may differ.
id_input-injective :
    (g h : Htlc) → Fits g → Fits h → id_input g ≡ id_input h → g ≡ record h { state = g.state }
unfolding id_input
id_input-injective g h fg fh e =
    let (senders, e1) = field_cancel 20 g.sender h.sender _ _ (omega arith) (omega arith) e in
    let (recipients, e2) =
      field_cancel 20 g.recipient h.recipient _ _ (omega arith) (omega arith) e1 in
    let (amounts, e3) = field_cancel 32 g.amount h.amount _ _ (omega arith) (omega arith) e2 in
    let (hashes, e4) =
      field_cancel 32 g.secret_hash h.secret_hash _ _ (omega arith) (omega arith) e3 in
    let timeouts : g.timeout ≡ h.timeout =
      to_be_bytes-injective 8 g.timeout h.timeout (omega arith) (omega arith) e4 in
    ground (arith, senders, recipients, amounts, hashes, timeouts)
