-- ===== src/Tests/Databases.antt =====
-- The adapters of packages/adapter-idb/src/index.ts, over sorted object stores, and of
-- packages/adapter-sqlite/src/index.ts, with the same operations.
use tangentfeed.Prelude.{
  ◌≡◌, refl, inl, inr, ◌↔◌, true, some, [], ◌∷◌, map, arith, Text, codes, text_eqb, text_compare,
  get, or_else, IsUnique, Elem, get_of_Elem, Elem-of_get,
}
use tangentfeed.Values.{Value}
use tangentfeed.Op.{Op}
use tangentfeed.Storage
use tangentfeed.Storage.{MemoryAdapter, BatchWrite, empty_store, cell_key, cell_of}
use tangentfeed.Storage.Writes.{batch, write_all}
use tangentfeed.Storage.Listing.{Elem-values, values_of_Elem}
use tangentfeed.Storage.Strict.{IsKeyed}
use tangentfeed.Idb
use tangentfeed.Idb.{IdbAdapter, new_database}
use tangentfeed.Idb.Writes.{Agrees, write_database_all, write_database_all-Agrees}
use tangentfeed.Idb.Listing.{ops_since-Agrees}
use tangentfeed.Idb.Rows.{get-get_row}
use tangentfeed.Sqlite
use tangentfeed.Sqlite.{Json, SqliteAdapter, new_adapter, op_of_row, row_of_op}
use tangentfeed.Sqlite.Listing.{ops_since-Matches}
use tangentfeed.Samples.{first_op, second_op, cell-AreParts}
use tangentfeed.Samples.Sorted.{sorted_factory, sorted_factory-AreDocumented}

abbrev both : BatchWrite
both = record {
  ops = second_op ∷ first_op ∷ [];
  winners = (cell_key first_op.table first_op.row first_op.column, second_op) ∷ [];
  frontier = [];
  clock = record { millis = 6; counter = 0 };
}

abbrev database : IdbAdapter sorted_factory
database =
    write_database_all sorted_factory sorted_factory-AreDocumented (batch both ∷ [])
      (new_database sorted_factory)

abbrev store : MemoryAdapter
store = write_all (batch both ∷ []) empty_store

write_database_all-Agrees_example :
    Agrees sorted_factory sorted_factory-AreDocumented database store
unfolding get
write_database_all-Agrees_example =
    write_database_all-Agrees sorted_factory sorted_factory-AreDocumented (batch both ∷ []) (
      (
        (refl, tt),
        (
          record {
            table = first_op.table;
            row = first_op.row;
            column = first_op.column;
            parts = cell-AreParts;
            made = refl;
          },
          tt,
        ),
      ),
      tt,
    )

store-IsUnique : IsUnique store.ops_by_id
unfolding write_all Storage.program text_compare
store-IsUnique = (refl, (refl, tt))

store-IsKeyed : IsKeyed store.ops_by_id
unfolding write_all Storage.program text_compare
store-IsKeyed k op e = elim e [
  | inl q ↦ ground arith
  | inr (inl q) ↦ ground arith
  | inr (inr q) ↦ absurd q
]

ops_since-Agrees_example : Idb.ops_since sorted_factory [] database ≡ Storage.ops_since [] store
ops_since-Agrees_example =
    ops_since-Agrees sorted_factory sorted_factory-AreDocumented database store
      write_database_all-Agrees_example store-IsUnique store-IsKeyed []

get-get_row_example :
    get first_op.column
      (or_else (Idb.get_row sorted_factory first_op.table first_op.row database) [])
    ≡ cell_of first_op.table first_op.row first_op.column store.tables
unfolding text_compare
get-get_row_example =
    get-get_row sorted_factory sorted_factory-AreDocumented database store
      write_database_all-Agrees_example first_op.table first_op.row first_op.column cell-AreParts
      refl

abbrev written : Value → Text
written (Value.boolean true) = codes "true"
written v = codes "false"

-- It writes the truth values apart, and nothing else.
abbrev json : Json
json = record {
  of_value = written;
  to_value = λ t. Value.boolean (text_eqb t (codes "true"));
  of_op = λ op. op.id;
  to_op = λ t. first_op;
  of_frontier = λ f. [];
  to_frontier = λ t. [];
  of_clock = λ c. [];
  to_clock = λ t. record { millis = 0; counter = 0 };
  of_peers = λ m. [];
  to_peers = λ t. [];
  of_keys = λ k. k.0;
  to_keys = λ t. (t, t);
}

abbrev filled : SqliteAdapter
filled = record new_adapter { ops = row_of_op json second_op ∷ row_of_op json first_op ∷ [] }

filled-AreLogged :
    (x : Op)
    → Elem x (map (op_of_row json) filled.ops) ↔ ((k : Text) × (get k store.ops_by_id ≡ some x))
unfolding write_all Storage.program text_compare op_of_row row_of_op
filled-AreLogged x = (
  λ e.
      let (k, at) = Elem-values x store.ops_by_id e in
      (k, get_of_Elem k x store.ops_by_id store-IsUnique at),
  λ (k, found). values_of_Elem k x store.ops_by_id (Elem-of_get k x store.ops_by_id found),
)

ops_since-Matches_example :
    Sqlite.ops_since json ((first_op.device, first_op.hlc) ∷ []) filled
    ≡ Storage.ops_since ((first_op.device, first_op.hlc) ∷ []) store
unfolding text_compare op_of_row row_of_op get
ops_since-Matches_example =
    ops_since-Matches json filled store filled-AreLogged (refl, (refl, tt)) ((refl, tt), (tt, tt))
      store-IsUnique store-IsKeyed ((first_op.device, first_op.hlc) ∷ []) (refl, tt)
