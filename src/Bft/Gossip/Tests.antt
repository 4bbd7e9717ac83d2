-- ===== src/Bft/Gossip/Tests.antt =====
-- Gossip drivers over the engines of the samples: tests, and the theorems applied.
use aii.Base.{
  ℕ, suc, ◌+◌, ◌<◌, ◌≡◌, refl, none, some, Option, List, [], ◌∷◌, ◌++◌, Result, ok, err, Bool,
  arith, ltb, u32_mod, u64_mod,
}
use aii.Crypto.Toy.{toy, toy-Aggregates}
use aii.Block.{Block, block_hash}
use aii.Bft.Error.{prevoting, invalid_proposal_body}
use aii.Bft.Votes.{Vote, prevote, precommit, sign}
use aii.Bft.Certificate.{Certificate, verify}
use aii.Bft.Coordinator.{Coordinator}
use aii.Bft.Engine.{EngineState, BftEngine, try_harvest_committed, committed_block_at}
use aii.Bft.Engine.Samples.{
  b, block, trio, fresh, fresh-Inv, pre, proof, ended, ended-Inv, harvested, harvested-serves, cert,
}
use aii.Bft.Wire.{BftMessage, prevote_message, precommit_message, encode, decode}
use aii.Bft.Gossip.{BlockCodec, Gossip, new_gossip, harvest_loop, auto_harvest}
use aii.Bft.Gossip.Inbound.{handle_proposal_msg, dispatch_inbound}
use aii.Bft.Gossip.Loop.{tick}
use aii.Bft.Gossip.Harvesting.{GossipInv, auto_harvest-ends}
use aii.Bft.Gossip.Ticks.{tick-Keeps}
use aii.Bft.Gossip.Skipping.{Reset, handle_proposal_msg-resets}
use aii.Bft.Gossip.CatchUp.{CanServe, catches_up}

abbrev nonzero : ℕ → Bool
nonzero s = ltb 0 s

-- Blocks that differ from the sample in the number alone.
abbrev read_block : List ℕ → Option (Block ℕ × List ℕ)
read_block [] = none
read_block (n ∷ rest) = some (record block { header = record block.header { number = n } }, rest)

abbrev codec : BlockCodec b
codec = record {
  encode_body = λ body. [];
  decode_body = λ bytes. none;
  encode_block = λ x. x.header.number ∷ [];
  decode_block = read_block;
}

abbrev driver : Gossip b
driver = new_gossip b fresh

abbrev inbox : List (List ℕ)
inbox = encode (prevote_message (pre 1)) ∷ (9 ∷ []) ∷ []

tick-Keeps_example :
    (g' : Gossip b) × (n : ℕ) × (tick b codec toy nonzero inbox driver ≡ ok (g', n))
    × GossipInv b toy g'
tick-Keeps_example = tick-Keeps b toy codec toy-Aggregates nonzero inbox driver fresh-Inv

-- The driver of the engine whose round is over.
abbrev finished : Gossip b
finished = record driver { engine = record fresh { state = ended } }

auto_harvest-ends_example :
    ((try_harvest_committed b (auto_harvest b finished).engine.state).1 ≡ none)
    × (harvest_loop b (suc (suc 3)) finished ≡ auto_harvest b finished)
auto_harvest-ends_example = auto_harvest-ends b toy 3 finished ended-Inv

-- A validator that is locked on a block.
abbrev locked_round : Coordinator
locked_round = record {
  height = 1;
  round = 1;
  phase = prevoting;
  vs = trio;
  seed = 9;
  proposed_block = some 77;
  prevote_tally = none;
  precommit_tally = none;
  polc = none;
  locked = some (record {
    block_hash = 77;
    round = 0;
    polc = record { block_hash = 77; height = 1; round = 0; signer_bitmap = 7; aggregated_sig = 1 };
  });
  final_cert = none;
}

abbrev locked_driver : Gossip b
locked_driver = record driver {
  engine = record fresh { state = record fresh.state { coordinator = some locked_round } };
}

handle_proposal_msg-resets_example :
    let (g', reply) = handle_proposal_msg b codec toy locked_driver 1 4 78 proof 0 (1 ∷ []) in
    (reply ≡ err invalid_proposal_body) × Reset b toy codec g'.engine.state 4
unfolding aii.Bft.Engine.start_at
handle_proposal_msg-resets_example =
    handle_proposal_msg-resets b toy codec locked_driver locked_round 4 78 proof 0 (1 ∷ []) refl
      refl (omega arith) (omega arith) (omega arith) refl

abbrev peer : Gossip b
peer = record driver { engine = record fresh { state = harvested } }

cert-verifies : verify toy cert trio ≡ ok tt
unfolding verify aii.Base.Bits.ilog2 aii.Bft.Certificate.gather aii.Base.Bits.bit
    aii.Bft.Validators.quorum_threshold aii.Crypto.fast_aggregate_verify toy aii.Base.to_be_bytes
    aii.Bft.Votes.digest aii.Bft.Votes.digest_input aii.Bft.Votes.domain
cert-verifies = refl

peer-CanServe : CanServe b toy codec nonzero driver peer block cert
unfolding aii.Bft.Engine.start_at
peer-CanServe = record {
  cached = harvested-serves;
  reads_back = refl;
  fits = ((omega arith, refl), omega arith, omega arith);
  extends = record {
    finalizes = record { signs_block = refl; verifies = cert-verifies };
    next = refl;
    on_head = refl;
    same_height = refl;
  };
}

-- A precommit of height 3, seen at height 0.
abbrev ahead : Vote precommit
ahead = sign toy precommit 2 99 3 0 1

catches_up_example :
    let asks = (dispatch_inbound b codec toy driver (precommit_message ahead)).0 in
    (request response : List ℕ) × (ask_for answer : BftMessage) × (asks.sent ≡ [] ++ request ∷ [])
    × (decode nonzero request ≡ ok ask_for)
    × ((dispatch_inbound b codec toy peer ask_for).0.sent ≡ [] ++ response ∷ [])
    × (decode nonzero response ≡ ok answer)
    × (let (g', reply) = dispatch_inbound b codec toy asks answer in
        (reply ≡ ok tt)
        × (g'.engine.state.head_hash ≡ block_hash b block)
        × (g'.engine.state.head_number ≡ 0 + 1)
        × (g'.harvested_blocks ≡ [] ++ block ∷ []))
unfolding sign aii.Bft.Engine.start_at
catches_up_example =
    catches_up b toy codec nonzero driver peer ahead block cert fresh-Inv (omega arith)
      (omega arith) refl peer-CanServe
