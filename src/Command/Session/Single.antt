-- ===== src/Command/Session/Single.antt =====
-- command/transaction.go: a command outside MULTI, and TxnHandler.
use lancelot.Base.{
  ℕ, zero, suc, Bool, true, false, ◌⊎◌, inl, inr, Option, none, some, List, [], ◌∷◌, ◌++◌,
  if◌then◌else◌, Bytes,
}
use lancelot.Store.Kv.{Kv}
use lancelot.Store.Error.{Result, ok, err, fault, unknown_command}
use lancelot.Store.Txn.{Txn}
use lancelot.Command.Reply.{Reply, failure, Handler}
use lancelot.Command.Session.{
  Client, Request, Handlers, Session, Conn, Answer, queued, one, to_lower, new_session, unwatch,
  commit,
}

module _ {kv : Kv} {client : Client kv} where
  -- Txn.Begin
  unfoldable pub begin : Conn kv client → (kv.Fault ⊎ Txn kv) × client.Server
  begin c =
      let (r, s) = client.begin c.server in
      elim r [
        | inl f ↦ (inl f, s)
        | inr (st, ts) ↦ (
          inr (record {
            store = st;
            error = none;
            timestamp = ts;
            now = kv.extract_physical ts;
            user_id = c.user_id;
            db_id = c.db_id;
            config = c.config;
          }),
          s,
        )
      ]

  -- getOrCreateTransaction
  abbrev pub session_of : Conn kv client → Session kv
  session_of c = elim c.session [ none ↦ new_session | some s ↦ s ]

  abbrev pub has_session : Conn kv client → Bool
  has_session c = elim c.session [ none ↦ false | some s ↦ true ]

  -- SingleHandler
  unfoldable pub single_handler :
      (List Bytes → Handler kv)
      → List Bytes
      → Conn kv client
      → Result kv.Fault (Reply kv.Fault) × client.Server
  unfolding begin commit
  single_handler h args c =
      let (b, s) = begin c in
      elim b [
        | inl f ↦ (err (fault f), s)
        | inr t ↦
            (let (resp, t') = h args t in
              elim t'.error [
                | some e ↦ (ok resp, client.rollback s t'.store)
                | none ↦
                    (let (r, s') = commit client s t' in
                      elim r [ ok _ ↦ (ok resp, s') | err e ↦ (err e, s') ])
              ])
      ]

  -- The loop of TxnHandler: after `n` more failures the error is the reply.
  unfoldable pub retry :
      ℕ → (List Bytes → Handler kv) → List Bytes → Conn kv client → Reply kv.Fault × client.Server
  unfolding single_handler
  retry zero h args c =
      let (r, s) = single_handler h args c in
      elim r [ ok resp ↦ (resp, s) | err e ↦ (failure e, s) ]
  retry (suc n) h args c =
      let (r, s) = single_handler h args c in
      elim r [ ok resp ↦ (resp, s) | err e ↦ retry n h args (record c { server = s }) ]

  -- A command of its own; the session, if there is one, stays.
  unfoldable pub single :
      (List Bytes → Handler kv)
      → Request
      → Option (Session kv)
      → Conn kv client
      → Answer kv.Fault × Conn kv client
  unfolding retry
  single h r session c =
      let (resp, s) = retry 2 h r.args c in (one resp, record c { session = session; server = s })

  -- TxnHandler, for a name in lower case
  unfoldable pub txn_handler :
      Handlers kv → Request → Conn kv client → Answer kv.Fault × Conn kv client
  unfolding single unwatch
  txn_handler hs r c = elim (hs.table (to_lower r.name)) [
    | none ↦ (
      one (failure (unknown_command (to_lower r.name))),
      (elim c.session [
        | none ↦ c
        | some s ↦
            if s.multi then record c { session = some (record s { pending_err = true }) } else c
      ]),
    )
    | some h ↦ elim c.session [
      | none ↦ single h r none c
      | some s ↦
          if s.multi
          then (queued, record c { session = some (record s { pending = s.pending ++ r ∷ [] }) })
          else single h r (some (unwatch client (to_lower r.name) s)) c
    ]
  ]
