-- ===== src/Tests/Messages.antt =====
-- The replicator of packages/core/src/replicator.ts at concrete messages.
use tangentfeed.Prelude.{◌≡◌, refl, ℕ, true, none, some, List, [], ◌∷◌, ◌++◌, codes, map}
use tangentfeed.Signing
use tangentfeed.Op.{op_value}
use tangentfeed.Storage.{ops_since}
use tangentfeed.Replica.{empty_replica}
use tangentfeed.Replica.Coherence.{empty-IsCoherent}
use tangentfeed.Engine.{remote, commit}
use tangentfeed.Engine.Commit.{empty-Refines}
use tangentfeed.Replicator.{Replicator, WireMsg, hello, ops, chunks, handle, answer}
use tangentfeed.Replicator.Safety.{IsSound}
use tangentfeed.Replicator.Keys
use tangentfeed.Replicator.Keys.{IsOwned}
use tangentfeed.Replicator.Answers
use tangentfeed.Replicator.Answers.{carried}
use tangentfeed.Samples.{platform, physical_clock, engine, first_op, second_op, early_text}

abbrev replicator : Replicator
replicator = record {
  engine = engine;
  space = codes "s";
  peers = [];
  started = true;
  sent = [];
  peer_changes = [];
  errors = [];
}

abbrev numbers : List ℕ
numbers = 1 ∷ 2 ∷ 3 ∷ []

abbrev stocked : Replicator
stocked = record replicator { engine = (commit (second_op ∷ first_op ∷ []) remote engine).1 }

abbrev greeting : WireMsg
greeting = record {
  version = 2;
  space = codes "s";
  from = codes "p";
  body = hello early_text (some (codes "02"));
}

abbrev batch : WireMsg
batch = record {
  version = 2;
  space = codes "s";
  from = codes "p";
  body = ops none (op_value second_op ∷ op_value first_op ∷ []);
}

engine-IsSound : IsSound engine
engine-IsSound = record {
  replica = empty_replica;
  refines = empty-Refines;
  coherent = empty-IsCoherent;
}

engine-IsOwned : IsOwned platform engine.keys
unfolding Signing.device_id_from_public_key
engine-IsOwned = (refl, tt)

handle-IsOwned_example :
    IsOwned platform (handle platform physical_clock greeting replicator).engine.keys
handle-IsOwned_example =
    Keys.handle-IsOwned platform physical_clock greeting replicator engine-IsOwned

carried-answer_example :
    carried (answer (codes "p") [] stocked).sent
    ≡ carried [] ++ map op_value (ops_since [] stocked.engine.storage)
carried-answer_example = Answers.carried-answer (codes "p") [] stocked

two_chunks : chunks 2 numbers ≡ (1 ∷ 2 ∷ []) ∷ (3 ∷ []) ∷ []
unfolding chunks
two_chunks = refl
