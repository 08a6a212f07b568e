-- ===== src/Command/Session.antt =====
-- command/transaction.go: the state of a connection between MULTI or WATCH and EXEC.
pub mod Single
pub mod Control
pub mod Connection
pub mod Serve
pub mod Laws
use lancelot.Base.{
  ℕ, zero, suc, ◌+◌, ◌≡◌, Bool, true, false, not, ◌&&◌, ◌||◌, ◌==◌, ◌⊎◌, inl, inr, Option, none,
  some, List, [], ◌∷◌, ◌++◌, map, ltb, leb, if◌then◌else◌, Bytes, codes, length, bytes_eq, ◌-◌,
}
use lancelot.Base.Int.{ℤ, pos}
use lancelot.Store.Kv.{Kv}
use lancelot.Store.Error.{
  Error, Result, ok, err, fault, wrong_args, unknown_command, exceed_max_size, exec_without_multi,
  discard_without_multi, multi_nested, watch_inside_multi, transaction_discarded,
}
use lancelot.Store.Txn.{Txn, Config, Exec, ◌>>=◌, pure, return_err, written, max_key_size}
use lancelot.Command.Object.{object_key, get_key_bytes, data_prefix, key_prefix}
use lancelot.Command.Reply.{Reply, null, simple_int, failure, ok_reply, Handler}
pub use lancelot.Base.{to_lower}

-- The TiKV client: what opens and ends transactions. `Server` is what all transactions share.
pub record Client (kv : Kv) : Type 1 where
  pub Server : Type 0
  -- `Begin`, with the start timestamp of the transaction that it opens
  pub begin : Server → (kv.Fault ⊎ (kv.Store × ℕ)) × Server
  pub commit : Server → kv.Store → Option kv.Fault × Server
  pub rollback : Server → kv.Store → Server
  pub reset : kv.Store → kv.Store
  pub lock_keys : kv.Store → List Bytes → Option kv.Fault × kv.Store

-- `redcon.Command`: the name that the client sent, and the arguments.
pub record Request : Type 0 where
  pub name : Bytes
  pub args : List Bytes

-- The map `TxnHandle`, the PUBLISH manager, which EXEC and SUBSCRIBE call, and what
-- `trace.GetTraces` answers. The entry of "unwatch" in the table is UnWatchHandle.
pub record Handlers (kv : Kv) : Type 0 where
  pub table : Bytes → Option (List Bytes → Handler kv)
  pub wait_alive : Option (Error kv.Fault)
  pub publish : List (Reply kv.Fault) → List ℤ
  pub traces : Result kv.Fault (Reply kv.Fault)

-- The `store.Txn` of a connection between WATCH or MULTI and EXEC or DISCARD; `txn` is its
-- TiKV transaction. (The field `Exec` is never read.)
pub record Session (kv : Kv) : Type 0 where
  pub multi : Bool
  pub watch : Bool
  pub pending_err : Bool
  pub pending : List Request
  pub txn : Option (Txn kv)

-- Whether the request loop of redcon serves a connection: QUIT closes it, and SUBSCRIBE detaches it.
pub data Link : Type 0 where
  connected closed detached : Link

-- A connection, with the server that its transactions work on.
pub record Conn (kv : Kv) (client : Client kv) : Type 0 where
  pub user_id : ℕ
  pub db_id : ℕ
  pub config : Config
  pub link : Link
  pub trace : Bool
  pub session : Option (Session kv)
  pub server : client.Server

-- What a connection writes for one request: QUEUED, one reply, the array of EXEC, one reply after
-- the other, the table COMMANDS, or nothing. A connection with subscriptions, of patterns where the
-- flag is set, belongs to the PUBLISH manager, which answers from then on.
pub data Answer (F : Type 0) : Type 0 where
  queued : Answer F
  one : Reply F → Answer F
  many : List (Reply F) → Answer F
  several : List (List (Reply F)) → Answer F
  commands_table silent : Answer F
  subscribed : Bool → List Bytes → Answer F

-- checkSingle and UnWatchHandle: whether the queue has an UNWATCH that runs without an error.
abbrev pub unwatches : List Request → Bool
unwatches [] = false
unwatches (r ∷ rs) =
    (bytes_eq (to_lower r.name) (codes "unwatch") && length r.args == 0) || unwatches rs

abbrev pub is_publish : Bytes → Bool
is_publish name = bytes_eq (to_lower name) (codes "publish")

-- The loop of LockKeys over the lengths.
abbrev pub any_long : List Bytes → Bool
any_long [] = false
any_long (k ∷ ks) = leb max_key_size (length k) || any_long ks

-- The replies of PUBLISH give way to the counts of `PublishMessages`, in order.
unfoldable pub fill {ℓ} : {F : Type ℓ} → (ℤ → F) → List (Bool × F) → List ℤ → List F
fill f [] counts = []
fill f ((false, r) ∷ rs) counts = r ∷ fill f rs counts
fill f ((true, r) ∷ rs) [] = r ∷ fill f rs []
fill f ((true, r) ∷ rs) (n ∷ counts) = f n ∷ fill f rs counts

abbrev pub messages {ℓ} : {F : Type ℓ} → List (Bool × F) → List F
messages [] = []
messages ((b, r) ∷ rs) = if b then r ∷ messages rs else messages rs

module _ {kv : Kv} where
  abbrev pub new_session : Session kv
  new_session = record {
    multi = false;
    watch = false;
    pending_err = false;
    pending = [];
    txn = none;
  }

  -- The loop of exec over the queued commands.
  unfoldable pub run_pending :
      (Bytes → Option (List Bytes → Handler kv))
      → List Request
      → Exec kv (List (Bool × Reply kv.Fault))
  run_pending table [] t = (ok [], t)
  run_pending table (r ∷ rs) t = elim (table (to_lower r.name)) [
    | none ↦ (err (unknown_command (to_lower r.name)), t)
    | some h ↦
        (let (resp, t') = h r.args t in
          elim t'.error [
            | some e ↦ (err e, t')
            | none ↦ (run_pending table rs >>= λ rest. pure ((is_publish r.name, resp) ∷ rest)) t'
          ])
  ]

module _ {kv : Kv} (client : Client kv) where
  -- checkSingle: what UNWATCH does to a session outside MULTI.
  unfoldable pub unwatch : Bytes → Session kv → Session kv
  unwatch name s =
      if bytes_eq name (codes "unwatch")
      then record s {
        watch = false;
        txn = elim s.txn [
          | none ↦ none
          | some t ↦ some (record t { store = client.reset t.store })
        ];
      }
      else s

  -- Txn.LockKeys
  unfoldable pub lock_keys : List Bytes → Exec kv (Unit {0})
  lock_keys keys t =
      if any_long keys
      then (err exceed_max_size, t)
      else (let (e, s) = client.lock_keys t.store keys in (written kv e, record t { store = s }))

  -- Txn.Commit
  unfoldable pub commit : client.Server → Txn kv → Result kv.Fault (Unit {0}) × client.Server
  commit s t =
      let (e, s') = client.commit s t.store in
      elim e [ none ↦ (ok tt, s') | some f ↦ (err (return_err kv f), client.rollback s' t.store) ]

  -- Txn.Rollback
  abbrev pub rollback : client.Server → Option (Txn kv) → client.Server
  rollback s none = s
  rollback s (some t) = client.rollback s t.store
