-- ===== src/Startup/Tables.antt =====
-- The database by its tables with their rows, its indexes and its hypertables.
use hft_bench.Prelude.{◌≡◌, none, some, List, [], Option-cases, inl, inr, arith}
use hft_bench.Prelude.Text.{Str}
use hft_bench.Prelude.Dict.{Dict, lookup, insert, lookup-insert, lookup-insert_self}

-- `indexes` leads from an index to its table, `hypertables` from a table to its time column.
pub record Database (R : Type 0) : Type 0 where
  pub tables : Dict (List R)
  pub indexes : Dict Str
  pub hypertables : Dict Str

module _ {V : Type 0} where
  -- What IF NOT EXISTS does with a name.
  unfoldable pub if_absent : Str → V → Dict V → Dict V
  if_absent k v m = elim (lookup k m) [ none ↦ insert k v m | some _ ↦ m ]

module _ {R : Type 0} where
  -- CREATE TABLE IF NOT EXISTS
  abbrev pub create_table : Str → Database R → Database R
  create_table name db = record db { tables = if_absent name [] db.tables }

  -- CREATE INDEX IF NOT EXISTS … ON …
  abbrev pub create_index : Str → Str → Database R → Database R
  create_index name table db = record db { indexes = if_absent name table db.indexes }

  -- create_hypertable(…, if_not_exists => TRUE)
  abbrev pub create_hypertable : Str → Str → Database R → Database R
  create_hypertable table column db = record db {
    hypertables = if_absent table column db.hypertables;
  }

module _ {V : Type 0} where
  pub if_absent-there :
      (k : Str) (v : V) (m : Dict V) → (w : V) × (lookup k (if_absent k v m) ≡ some w)
  unfolding if_absent
  if_absent-there k v m = elim (Option-cases (lookup k m)) [
    | inl e ↦ (v, ground (arith, lookup-insert_self k v m))
    | inr (w, e) ↦ (w, ground arith)
  ]

  -- What is there stays as it is.
  pub if_absent-keeps :
      (j k : Str) (v w : V) (m : Dict V) → lookup j m ≡ some w → lookup j (if_absent k v m) ≡ some w
  unfolding if_absent
  if_absent-keeps j k v w m e = ground (arith, lookup-insert j k v m)

  -- A second time changes nothing.
  pub if_absent-twice :
      (k : Str) (v v' : V) (m : Dict V) → if_absent k v' (if_absent k v m) ≡ if_absent k v m
  unfolding if_absent
  if_absent-twice k v v' m = ground (arith, lookup-insert_self k v m)
