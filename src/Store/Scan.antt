-- ===== src/Store/Scan.antt =====
-- store/txn.go: List, which hands the entries of a range to a callback.
pub mod Laws
pub mod Update
pub mod Entries
use lancelot.Base.{
  ℕ, ◌+◌, ◌≡◌, Bool, true, false, not, ◌&&◌, ◌||◌, Option, none, some, List, [], ◌∷◌, leb,
  if◌then◌else◌, Bytes, bytes_lt,
}
use lancelot.Store.Kv.{Kv, Cursor, ended, broken, item}
use lancelot.Store.Error.{Error, ok, err, fault, reach_limit}
use lancelot.Store.Txn.{Txn, Exec}

-- A callback keeps a state, the variables that its closure changes, and answers false to stop.
abbrev pub Callback {ℓ} : Type ℓ → Type ℓ
Callback S = S → Bytes → Bytes → Bool × S

-- The loop of List over the iterator's entries: its error, if any, and the state of the callback.
unfoldable pub list_loop {ℓ} :
    {F : Type 0} {S : Type ℓ}
    → Cursor F
    → Bytes
    → Bytes
    → ℕ
    → ℕ
    → Callback S
    → S
    → Option (Error F) × S
list_loop ended start end limit count callback s = (none, s)
list_loop (broken f) start end limit count callback s = (some (fault f), s)
list_loop (item key val rest) start end limit count callback s =
    let (more, s') = callback s key val in
    let later = list_loop rest start end limit (count + 1) callback s' in
    if bytes_lt key start || not (bytes_lt key end)
    then (none, s)
    else if not more
    then (none, s')
    else if leb 1 limit && leb limit (count + 1)
    then (some reach_limit, s')
    else later

-- List: a range whose end comes first is read downwards.
unfoldable pub list {ℓ} :
    {kv : Kv} {S : Type ℓ}
    → Txn kv
    → Bytes
    → Bytes
    → ℕ
    → Callback S
    → S
    → Option (Error kv.Fault) × S
list {kv = kv} t start end limit callback s =
    if not (bytes_lt end start)
    then list_loop (kv.iter t.store start end) start end limit 0 callback s
    else list_loop (kv.iter_reverse t.store start) end start limit 0 callback s

-- A caller that takes ReachLimit for an answer, and one that does not.
abbrev pub up_to_limit {ℓ} : {kv : Kv} {S : Type ℓ} → Option (Error kv.Fault) × S → Exec kv S
up_to_limit (none, s) t = (ok s, t)
up_to_limit (some reach_limit, s) t = (ok s, t)
up_to_limit (some e, s) t = (err e, t)

abbrev pub whole {ℓ} : {kv : Kv} {S : Type ℓ} → Option (Error kv.Fault) × S → Exec kv S
whole (none, s) t = (ok s, t)
whole (some e, s) t = (err e, t)
