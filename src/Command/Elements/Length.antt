-- ===== src/Command/Elements/Length.antt =====
-- PutOrDeleteKV and GetCountByObject: the count of an object follows its elements.
use lancelot.Base.{Bytes}
use lancelot.Base.Int.{ℤ, pos}
use lancelot.Utils.Bytes.{prefix_next}
use lancelot.Store.Kv.{Kv, KvLaws, Cursor}
use lancelot.Store.Txn.{Txn}
use lancelot.Store.Scan.Laws.{entries, ScanLaws}
use lancelot.Command.Object.{Object}
use lancelot.Command.Elements.Tally.{sum_entries}
use lancelot.Command.Elements.Counted.{count_start}

module _ {kv : Kv} (laws : KvLaws kv) (scan : ScanLaws kv) where
  -- The sum of the counts of `o` in a store, for the user and the database of `t`.
  abbrev sum_in : Txn kv → Object → kv.Store → ℤ
  sum_in t o s =
      sum_entries (pos 0) (entries (kv.iter s (count_start t o) (prefix_next (count_start t o))))

  abbrev range_in : Txn kv → Object → kv.Store → Cursor kv.Fault
  range_in t o s = kv.iter s (count_start t o) (prefix_next (count_start t o))
