-- ===== src/Command/Session/Serve.antt =====
-- server/server.go: the dispatch of ServeRESP to the commands of a connection and of TxnHandler.
use lancelot.Base.{List, [], ◌∷◌, if◌then◌else◌, Bytes, codes, bytes_eq, true, false}
use lancelot.Store.Kv.{Kv}
use lancelot.Command.Session.{Client, Request, Handlers, connected, Conn, Answer, silent, to_lower}
use lancelot.Command.Session.Single.{txn_handler}
use lancelot.Command.Session.Control.{discard, multi, exec, watch}
use lancelot.Command.Session.Connection.{quit, command, trace, unsubscribe, subscribe}

-- What ServeRESP makes of a name: a command of ConnHandle, or one for TxnHandler.
pub data Kind : Type 0 where
  of_multi of_exec of_discard of_watch of_quit of_command of_trace of_subscribe of_psubscribe
        of_unsubscribe of_punsubscribe of_txn :
      Kind

unfoldable pub kind_of : Bytes → Kind
kind_of name =
    if bytes_eq (to_lower name) (codes "watch")
    then of_watch
    else if bytes_eq (to_lower name) (codes "multi")
    then of_multi
    else if bytes_eq (to_lower name) (codes "exec")
    then of_exec
    else if bytes_eq (to_lower name) (codes "discard")
    then of_discard
    else if bytes_eq (to_lower name) (codes "quit")
    then of_quit
    else if bytes_eq (to_lower name) (codes "command")
    then of_command
    else if bytes_eq (to_lower name) (codes "trace")
    then of_trace
    else if bytes_eq (to_lower name) (codes "subscribe")
    then of_subscribe
    else if bytes_eq (to_lower name) (codes "psubscribe")
    then of_psubscribe
    else if bytes_eq (to_lower name) (codes "unsubscribe")
    then of_unsubscribe
    else if bytes_eq (to_lower name) (codes "punsubscribe")
    then of_punsubscribe
    else of_txn

module _ {kv : Kv} {client : Client kv} where
  -- The call of the handler that ServeRESP has found
  unfoldable pub dispatch :
      Handlers kv → Kind → Request → Conn kv client → Answer kv.Fault × Conn kv client
  dispatch hs of_multi r c = multi r c
  dispatch hs of_exec r c = exec hs r c
  dispatch hs of_discard r c = discard r c
  dispatch hs of_watch r c = watch r c
  dispatch hs of_quit r c = quit c
  dispatch hs of_command r c = command c
  dispatch hs of_trace r c = trace hs r.args c
  dispatch hs of_subscribe r c = subscribe hs false r.args c
  dispatch hs of_psubscribe r c = subscribe hs true r.args c
  dispatch hs of_unsubscribe r c = unsubscribe (codes "unsubscribe") r.args c
  dispatch hs of_punsubscribe r c = unsubscribe (codes "punsubscribe") r.args c
  dispatch hs of_txn r c = txn_handler hs r c

  -- ServeRESP, for a connection that is authenticated. One that is closed gets nothing, and one that
  -- is detached is no longer in the request loop.
  unfoldable pub serve : Handlers kv → Request → Conn kv client → Answer kv.Fault × Conn kv client
  serve hs r c = elim c.link [ connected ↦ dispatch hs (kind_of r.name) r c | _ ↦ (silent, c) ]

  -- The requests of a connection, one after the other.
  unfoldable pub serve_all :
      Handlers kv → List Request → Conn kv client → List (Answer kv.Fault) × Conn kv client
  serve_all hs [] c = ([], c)
  serve_all hs (r ∷ rs) c =
      let (a, c') = serve hs r c in let (answers, c'') = serve_all hs rs c' in (a ∷ answers, c'')
