-- ===== src/Bft/Votes/Leader.antt =====
-- Leader proofs: what `produce` makes, `verify` accepts for the same height, round and seed, and
-- with no other output.
use aii.Base.{ℕ, ◌≡◌, ok, err, arith, ◌==◌, if◌then◌else◌}
use aii.Crypto.{Crypto, Proves}
use aii.Bft.Error.{invalid_vrf_proof}
use aii.Bft.Votes.{produce, proof_input, verify_leader}

-- Given that VRF proofs verify: the proof that a leader produces, with any output in it, is accepted by the leader's key at the
-- same height, round and seed exactly if the output is the one produced.
verify_leader-produce :
    (c : Crypto) (public_key : ℕ → ℕ) (sk height round seed output : ℕ)
    → Proves c public_key
    → let p = produce c sk height round seed in
      verify_leader c (record p { vrf_output = output }) (public_key sk) height round seed
      ≡ (if output == p.vrf_output then ok tt else err invalid_vrf_proof)
unfolding verify_leader produce
verify_leader-produce c public_key sk height round seed output proves =
    ground (arith, proves sk (proof_input c height round seed))
