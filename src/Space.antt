-- ===== src/Space.antt =====
-- packages/tangentfeed/src/index.ts: what `openSpace` puts together, and the writes that go through a schema.
-- Transports are made outside; a replicator is known here by the ids of its peers.
pub mod Typed
use tangentfeed.Prelude.{
  ℕ, Bool, true, false, Option, none, some, List, [], ◌∷◌, ◌++◌, Text, codes, Map, keys, text_eqb,
  if◌then◌else◌,
}
use tangentfeed.Errors.{Error, Result, ok, err, no_indexeddb, unknown_storage}
use tangentfeed.Values.{Value}
use tangentfeed.Signing.{Platform, Bytes}
use tangentfeed.Compaction.{CompactionOptions, add}
use tangentfeed.Schema.{Schema}
use tangentfeed.Schema.Check.{Host}
use tangentfeed.Schema.Validate.{validate_insert, validate_update}
use tangentfeed.Engine.{Cipher, SyncEngine, compact}
use tangentfeed.Engine.Local
use tangentfeed.Crypto.{Noble, SpaceCipher, new_cipher, from_passphrase}
use tangentfeed.Replicator.{Replicator, stop}

-- The option `storage`: an adapter, a text, or none.
pub data StorageOption (A : Type 0) : Type 0 where
  given : A → StorageOption A
  named : Text → StorageOption A
  unset : StorageOption A

-- The adapter that is used: the one given, a new one in memory, or the database of a name.
pub data Resolved (A : Type 0) : Type 0 where
  own : A → Resolved A
  memory : Resolved A
  database : Text → Resolved A

pub data Encryption : Type 0 where
  passphrase : Text → Encryption
  secret : Bytes → Encryption

-- `${space}:${replica}`
abbrev pub database_name : Text → Text → Text
database_name space replica = space ++ b':' ∷ replica

-- `available` is whether the environment has IndexedDB.
unfoldable pub resolve_storage :
    {A : Type 0} → Bool → StorageOption A → Text → Text → Result (Resolved A)
resolve_storage available (given a) space replica = ok (own a)
resolve_storage available (named t) space replica =
    if text_eqb t (codes "memory")
    then ok memory
    else if text_eqb t (codes "indexeddb")
    then (if available then ok (database (database_name space replica)) else err no_indexeddb)
    else err (unknown_storage t)
resolve_storage available unset space replica =
    if available then ok (database (database_name space replica)) else ok memory

abbrev some_cipher : Result SpaceCipher → Result (Option SpaceCipher)
some_cipher (err x) = err x
some_cipher (ok c) = ok (some c)

unfoldable pub resolve_cipher :
    Platform → Noble → Option Encryption → Text → Result (Option SpaceCipher)
resolve_cipher p n none space = ok none
resolve_cipher p n (some (passphrase t)) space = some_cipher (from_passphrase p n t space)
resolve_cipher p n (some (secret s)) space = some_cipher (new_cipher p n s)

-- `opts.schema ? validateInsert(opts.schema, table, values) : values`
unfoldable pub insert_values : Host → Option Schema → Text → Map Value → Result (Map Value)
insert_values host none table values = ok values
insert_values host (some schema) table values = validate_insert host schema table values

unfoldable pub update_values : Host → Option Schema → Text → Map Value → Result (Map Value)
update_values host none table values = ok values
update_values host (some schema) table values = validate_update host schema table values

-- `for (const id of ids) set.add(id)`
pub add_all : List Text → List Text → List Text
add_all ids [] = ids
add_all ids (id ∷ rest) = add_all (add ids id) rest

pub add_each : List Text → List (List Text) → List Text
unfolding add_all
add_each ids [] = ids
add_each ids (xs ∷ rest) = add_each (add_all ids xs) rest

pub peer_ids : List Replicator → List (List Text)
peer_ids [] = []
peer_ids (r ∷ rs) = keys r.peers ∷ peer_ids rs

-- The peers of the replicators, then those that the transports report.
unfoldable pub peers : List Replicator → List (List Text) → List Text
unfolding add_each peer_ids
peers replicators connected = add_each (add_each [] (peer_ids replicators)) connected

pub record Reclaimed : Type 0 where
  pub removed : ℕ
  pub rows_reclaimed : ℕ
  pub blocked_by : List Text

unfoldable pub compact_space : CompactionOptions → SyncEngine → Reclaimed × SyncEngine
compact_space opts e =
    let (stats, blocked_by, e') = compact opts e in
    (
      record {
        removed = stats.removed;
        rows_reclaimed = stats.rows_reclaimed;
        blocked_by = blocked_by;
      },
      e',
    )

-- The replicators, stopped.
pub stop_all : List Replicator → List Replicator
stop_all [] = []
stop_all (r ∷ rs) = stop r ∷ stop_all rs

-- A write of the values that the check has let through; an error of the check throws.
abbrev pub after_check :
    {A : Type 0}
    → Result (Map Value)
    → (Map Value → SyncEngine → Result A × SyncEngine)
    → SyncEngine
    → Result A × SyncEngine
after_check (err x) write e = (err x, e)
after_check (ok out) write e = write out e

module _ (host : Host) (schema : Option Schema) (p : Platform) (physical_clock : ℕ → ℕ)
    (cipher : Option Cipher) where
  unfoldable pub insert : ℕ → (ℕ → Bytes) → Text → Map Value → SyncEngine → Result Text × SyncEngine
  unfolding insert_values
  insert date random_bytes table values e =
      after_check (insert_values host schema table values)
        (λ out e. Local.insert p physical_clock cipher date random_bytes table out e) e

  unfoldable pub update : Text → Text → Map Value → SyncEngine → Result (Unit {0}) × SyncEngine
  unfolding update_values
  update table row values e =
      after_check (update_values host schema table values)
        (λ out e. Local.update p physical_clock cipher table row out e) e
