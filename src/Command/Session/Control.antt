-- ===== src/Command/Session/Control.antt =====
-- command/transaction.go: DISCARD, MULTI, EXEC and WATCH.
use lancelot.Base.{
  Bool, true, not, ◌&&◌, inl, inr, none, some, List, [], ◌∷◌, map, ltb, if◌then◌else◌, Bytes,
  length,
}
use lancelot.Store.Kv.{Kv}
use lancelot.Store.Error.{
  ok, err, fault, wrong_args, exec_without_multi, discard_without_multi, multi_nested,
  watch_inside_multi, transaction_discarded,
}
use lancelot.Store.Txn.{Txn}
use lancelot.Command.Object.{get_key_bytes, data_prefix, key_prefix}
use lancelot.Command.Reply.{Reply, null, simple_int, failure, ok_reply}
use lancelot.Command.Session.{
  Client, Request, Handlers, Session, Conn, Answer, one, many, fill, messages, unwatches,
  run_pending, lock_keys, commit, rollback,
}
use lancelot.Command.Session.Single.{begin, session_of, has_session}

module _ {kv : Kv} {client : Client kv} where
  -- discard
  unfoldable pub discard : Request → Conn kv client → Answer kv.Fault × Conn kv client
  discard r c =
      if ltb 0 (length r.args) then (one (failure (wrong_args r.name)), c) else elim c.session [
        | none ↦ (one (failure discard_without_multi), c)
        | some s ↦
            if s.multi
            then (
              one (ok_reply kv.Fault),
              record c { session = none; server = rollback client c.server s.txn },
            )
            else (one (failure discard_without_multi), record c { session = none })
      ]

  -- multi
  unfoldable pub multi : Request → Conn kv client → Answer kv.Fault × Conn kv client
  multi r c =
      let s = session_of c in
      if ltb 0 (length r.args)
      then (one (failure (wrong_args r.name)), c)
      else if s.multi
      then (one (failure multi_nested), c)
      else (
        one (ok_reply kv.Fault),
        record c { session = some (record s { pending = []; multi = true }) },
      )

  -- exec, once its commands have run: PUBLISH waits, the commit, and the replies.
  unfoldable pub finish :
      Handlers kv
      → Bool
      → List (Bool × Reply kv.Fault)
      → Txn kv
      → Conn kv client
      → Answer kv.Fault × Conn kv client
  unfolding commit fill
  finish hs watch entries t c =
      let publishing = ltb 0 (length (messages entries)) in
      let committing : Answer kv.Fault × Conn kv client =
        let (r, s) = commit client c.server t in
        elim r [
          | ok _ ↦ (
            many (
                fill simple_int entries (if publishing then hs.publish (messages entries) else [])),
            record c { server = s },
          )
          | err e ↦ (one (if watch then null else failure e), record c { server = s })
        ] in
      if publishing
      then elim hs.wait_alive [
        | some e ↦ (one (failure e), record c { server = client.rollback c.server t.store })
        | none ↦ committing
      ]
      else committing

  -- exec, with its TiKV transaction at hand; an UNWATCH in the queue clears the flag of WATCH.
  unfoldable pub run_session :
      Handlers kv → Bool → List Request → Txn kv → Conn kv client → Answer kv.Fault × Conn kv client
  unfolding finish
  run_session hs watch pending t c =
      let (r, t') = run_pending hs.table pending t in
      elim r [
        | err e ↦ (one (failure e), record c { server = client.rollback c.server t'.store })
        | ok entries ↦ finish hs (watch && not (unwatches pending)) entries t' c
      ]

  -- exec, for a session that has been taken from the connection
  unfoldable pub exec_session :
      Handlers kv → Session kv → Conn kv client → Answer kv.Fault × Conn kv client
  unfolding begin run_session
  exec_session hs s c =
      if not s.multi
      then (one (failure exec_without_multi), c)
      else if s.pending_err
      then (one (failure transaction_discarded), c)
      else elim s.txn [
        | some t ↦ run_session hs s.watch s.pending t c
        | none ↦
            (let (b, server) = begin c in
              elim b [
                | inl f ↦ (one (failure (fault f)), record c { server = server })
                | inr t ↦ run_session hs s.watch s.pending t (record c { server = server })
              ])
      ]

  -- exec
  unfoldable pub exec : Handlers kv → Request → Conn kv client → Answer kv.Fault × Conn kv client
  unfolding exec_session
  exec hs r c =
      if ltb 0 (length r.args) then (one (failure (wrong_args r.name)), c) else elim c.session [
        | none ↦ (one (failure exec_without_multi), c)
        | some s ↦ exec_session hs s (record c { session = none })
      ]

  -- watch, with its TiKV transaction at hand; `s` is the session before.
  unfoldable pub watch_with :
      List Bytes → Bool → Session kv → Txn kv → Conn kv client → Answer kv.Fault × Conn kv client
  unfolding lock_keys
  watch_with keys exists s t c =
      let (r, t') =
        lock_keys client
          (map (get_key_bytes data_prefix c.user_id c.db_id key_prefix) (map (λ k. k ∷ []) keys))
          t in
      elim r [
        | err e ↦ (
          one (failure e),
          record c {
            session = if exists then some (record s { txn = none }) else none;
            server = client.rollback c.server t'.store;
          },
        )
        | ok _ ↦ (
          one (ok_reply kv.Fault),
          record c { session = some (record s { watch = true; txn = some t' }) },
        )
      ]

  -- watch
  unfoldable pub watch : Request → Conn kv client → Answer kv.Fault × Conn kv client
  unfolding begin watch_with
  watch r c =
      let s = session_of c in
      let exists = has_session c in
      if not (ltb 0 (length r.args))
      then (one (failure (wrong_args r.name)), c)
      else if s.multi
      then (one (failure watch_inside_multi), c)
      else elim s.txn [
        | some t ↦ watch_with r.args exists s t c
        | none ↦
            (let (b, server) = begin c in
              elim b [
                | inl f ↦ (one (failure (fault f)), record c { server = server })
                | inr t ↦ watch_with r.args exists s t (record c { server = server })
              ])
      ]
