-- ===== src/Tests/Memory.antt =====
-- A store in memory for the client library's interface: the log of what has been written.
pub mod Table
use lancelot.Base.{
  ◌≡◌, ◌≢◌, refl, sym, ap, true, false, not, ◌&&◌, Option, none, some, List, [], ◌∷◌, Bytes, codes,
  bytes_eq, bytes_eq_refl, bytes_eq→eq, bytes_lt, if◌then◌else◌, arith, inl, inr, Bool-cases,
}
use lancelot.Base.Int.{pos}
use lancelot.Store.Kv.{Kv, KvLaws, Found, found, missing, failed, Cursor, ended, item}
use lancelot.Store.Txn.{Config, Txn}
use lancelot.Tests.Memory.Table.{
  Log, table, restrict, cursor_of, entries-cursor_of, ending-cursor_of, table-IsAscending,
  restrict-IsAscending, restrict-AreWithin, lookup-restrict, restrict-upsert, restrict-remove,
  restrict-upsert_out, restrict-remove_out,
}
use lancelot.Store.Scan.Entries.{lookup-upsert, lookup-remove}
use lancelot.Store.Scan.Laws.{Entry, Agrees, lookup, upsert, remove, ScanLaws}
use lancelot.Store.Error.{ok}
use lancelot.Command.Reply.{null}
use lancelot.Command.Session.{Client, connected, Conn, Handlers, Session}
use lancelot.Command.Strings.Read.{get_handle}
use lancelot.Command.Strings.Counter.{incrby_handle}

-- The last entry of a key counts; a deletion is an entry too.
abbrev pub look : Log → Bytes → Found Bytes
look [] k = missing
look ((j, v) ∷ rest) k = let found_later = look rest k in if bytes_eq j k then v else found_later

-- The entries of a range.
abbrev pub scan : Log → Bytes → Bytes → Cursor Bytes
scan s start end = cursor_of (restrict start end (table s))

abbrev downwards : List Entry → List Entry → List Entry
downwards [] es = es
downwards (e ∷ rest) es = downwards rest (e ∷ es)

abbrev pub mem_kv : Kv
mem_kv = record {
  Store = Log;
  Fault = Bytes;
  get = look;
  put = λ s k v. (none, (k, found v) ∷ s);
  delete = λ s k. (none, (k, missing) ∷ s);
  lock = λ s k. (none, s);
  iter = scan;
  iter_reverse = λ s end. cursor_of (downwards (restrict [] end (table s)) []);
  is_write_conflict = λ f. false;
  is_lock_no_wait = λ f. false;
  is_lock_timeout = λ f. false;
  message = λ f. f;
  extract_physical = λ n. pos n;
}

look-same : (s : Log) (k : Bytes) (v : Found Bytes) → look ((k, v) ∷ s) k ≡ v
look-same s k v = ground (arith, bytes_eq_refl k)

look_ne : (s : Log) (k j : Bytes) (v : Found Bytes) → j ≢ k → look ((k, v) ∷ s) j ≡ look s j
look_ne s k j v h = elim (Bool-cases (bytes_eq k j)) [
  | inl e ↦ absurd (h (sym (bytes_eq→eq k j e)))
  | inr e ↦ rw e refl
]

pub mem_laws : KvLaws mem_kv
mem_laws = record {
  get-put = λ s k v h. look-same s k (found v);
  get-put_ne = λ s k v j h. look_ne s k j (found v) h;
  get-put_failed = λ s k v f h. cc;
  get-delete = λ s k h. look-same s k missing;
  get-delete_ne = λ s k j h. look_ne s k j missing h;
  get-delete_failed = λ s k f h. cc;
  get-lock = λ s k j. refl;
}

look-lookup : (s : Log) (k : Bytes) → Agrees (look s k) (lookup (table s) k)
look-lookup [] k = refl
look-lookup ((j, found v) ∷ s) k = ground (arith, lookup-upsert j v k (table s), look-lookup s k)
look-lookup ((j, missing) ∷ s) k =
    ground (arith, lookup-remove j k (table s) (table-IsAscending s), look-lookup s k)
look-lookup ((j, failed f) ∷ s) k = elim (Bool-cases (bytes_eq j k)) [
  | inl e ↦ rw e tt
  | inr e ↦ rw e (look-lookup s k)
]

pub mem_scan : ScanLaws mem_kv
mem_scan = record {
  ascending =
      λ s a b. rw entries-cursor_of (restrict-IsAscending a b (table s) (table-IsAscending s));
  within = λ s a b. rw entries-cursor_of (restrict-AreWithin a b (table s));
  lookup-get =
      λ s a b k e i. rw (entries-cursor_of, lookup-restrict a b k (table s) i) (look-lookup s k);
  iter-put = λ s a b k v i p e e'.
      rw
        (
          entries-cursor_of (restrict a b (upsert k v (table s))),
          entries-cursor_of (restrict a b (table s)),
        )
        (restrict-upsert a b k v (table s) (table-IsAscending s) i);
  iter-delete = λ s a b k i p e e'.
      rw
        (
          entries-cursor_of (restrict a b (remove k (table s))),
          entries-cursor_of (restrict a b (table s)),
        )
        (restrict-remove a b k (table s) i);
  iter-put_out = λ s a b k v i. ap cursor_of (restrict-upsert_out a b k v (table s) i);
  iter-delete_out = λ s a b k i. ap cursor_of (restrict-remove_out a b k (table s) i);
  iter-lock = λ s a b k. refl;
}

abbrev pub config : Config
config = record {
  object_hash = 5;
  db_size_hash = 4;
  disable_count = false;
  blist = false;
  ttl_sensitive = pos 0;
  scan_max_count = 100;
  skip_conflict = false;
  pessimistic = true;
  set_operation_get = true;
}

abbrev pub txn_on : Log → Txn mem_kv
txn_on s = record {
  store = s;
  error = none;
  timestamp = 9;
  now = pos 1000;
  user_id = 258;
  db_id = 3;
  config = config;
}

-- Transactions that always commit; the server is what has been committed.
abbrev pub mem_client : Client mem_kv
mem_client = record {
  Server = Log;
  begin = λ s. (inr (s, 1000), s);
  commit = λ s st. (none, st);
  rollback = λ s st. s;
  reset = λ st. st;
  lock_keys = λ st ks. (none, st);
}

-- GET and INCRBY.
abbrev pub handlers : Handlers mem_kv
handlers = record {
  table = λ name.
      if bytes_eq name (codes "get")
      then some get_handle
      else if bytes_eq name (codes "incrby")
      then some incrby_handle
      else none;
  wait_alive = none;
  publish = λ rs. [];
  traces = ok null;
}

abbrev pub conn : Option (Session mem_kv) → Conn mem_kv mem_client
conn s = record {
  user_id = 258;
  db_id = 3;
  config = config;
  link = connected;
  trace = false;
  session = s;
  server = [];
}
