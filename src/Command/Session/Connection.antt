-- ===== src/Command/Session/Connection.antt =====
-- command/transaction.go and command/pubsub.go: the commands on a connection itself, QUIT, COMMAND,
-- TRACE and the ones that begin and end subscriptions.
use lancelot.Base.{
  Bool, true, false, not, none, some, List, [], ◌∷◌, map, if◌then◌else◌, Bytes, codes, bytes_eq,
}
use lancelot.Base.Int.{pos}
use lancelot.Store.Kv.{Kv}
use lancelot.Store.Error.{ok, err, wrong_args}
use lancelot.Command.Reply.{Reply, bulk, simple_int, failure, ok_reply}
use lancelot.Command.Session.{
  Client, Handlers, connected, closed, detached, Conn, Answer, one, several, commands_table,
  subscribed, to_lower, rollback,
}

-- The words of TRACE.
pub data TraceWord : Type 0 where
  trace_enable trace_disable trace_toggle trace_info trace_list trace_other : TraceWord

unfoldable pub trace_word : Bytes → TraceWord
trace_word sub =
    if bytes_eq (to_lower sub) (codes "enable")
    then trace_enable
    else if bytes_eq (to_lower sub) (codes "disable")
    then trace_disable
    else if bytes_eq (to_lower sub) (codes "toggle")
    then trace_toggle
    else if bytes_eq (to_lower sub) (codes "info")
    then trace_info
    else if bytes_eq (to_lower sub) (codes "list")
    then trace_list
    else trace_other

-- The array of UNSUBSCRIBE for one channel.
abbrev pub unsubscribed : {F : Type 0} → Bytes → Bytes → List (Reply F)
unsubscribed name channel = bulk name ∷ bulk channel ∷ simple_int (pos 0) ∷ []

module _ {kv : Kv} {client : Client kv} where
  -- Close: when a connection leaves the request loop, an open transaction is rolled back.
  unfoldable pub close : Conn kv client → client.Server
  close c = elim c.link [
    | connected ↦ elim c.session [ none ↦ c.server | some s ↦ rollback client c.server s.txn ]
    | _ ↦ c.server
  ]

  -- quit, and the Close that follows when the request loop sees the closed connection
  unfoldable pub quit : Conn kv client → Answer kv.Fault × Conn kv client
  unfolding close
  quit c = (one (ok_reply kv.Fault), record c { link = closed; server = close c })

  -- command
  unfoldable pub command : Conn kv client → Answer kv.Fault × Conn kv client
  command c = (commands_table, c)

  -- trace, for a subcommand
  unfoldable pub trace_sub :
      Handlers kv → TraceWord → Conn kv client → Answer kv.Fault × Conn kv client
  trace_sub hs trace_enable c = (one (ok_reply kv.Fault), record c { trace = true })
  trace_sub hs trace_disable c = (one (ok_reply kv.Fault), record c { trace = false })
  trace_sub hs trace_toggle c = (one (ok_reply kv.Fault), record c { trace = not c.trace })
  trace_sub hs trace_info c = (one (bulk (if c.trace then codes "enable" else codes "disable")), c)
  trace_sub hs trace_list c = (one (elim hs.traces [ ok traces ↦ traces | err e ↦ failure e ]), c)
  trace_sub hs trace_other c = (one (failure (wrong_args (codes "trace"))), c)

  -- trace
  unfoldable pub trace :
      Handlers kv → List Bytes → Conn kv client → Answer kv.Fault × Conn kv client
  unfolding trace_sub
  trace hs (sub ∷ []) c = trace_sub hs (trace_word sub) c
  trace hs _ c = (one (failure (wrong_args (codes "trace"))), c)

  -- UnsubscribeHandle and PUnsubscribeHandle, by the name that they write; outside a subscription
  -- there is nothing to end.
  unfoldable pub unsubscribe :
      Bytes → List Bytes → Conn kv client → Answer kv.Fault × Conn kv client
  unsubscribe name [] c = (several (unsubscribed name (codes "all") ∷ []), c)
  unsubscribe name channels c = (several (map (unsubscribed name) channels), c)

  -- Command.subscribe: the connection leaves the request loop, so that Close follows.
  unfoldable pub subscribe :
      Handlers kv → Bool → List Bytes → Conn kv client → Answer kv.Fault × Conn kv client
  unfolding close
  subscribe hs pattern [] c = (one (failure (wrong_args (codes "subscribe"))), c)
  subscribe hs pattern channels c = elim hs.wait_alive [
    | some e ↦ (one (failure e), c)
    | none ↦ (subscribed pattern channels, record c { link = detached; server = close c })
  ]
