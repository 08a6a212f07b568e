-- ===== src/Tests/Sessions.antt =====
-- Results about MULTI and EXEC at concrete inputs.
use lancelot.Base.{
  ◌≡◌, ◌≢◌, refl, true, false, none, some, List, [], ◌∷◌, ◌++◌, Bytes, codes, length, replicate,
  bytes_eq,
}
use lancelot.Store.Error.{transaction_discarded}
use lancelot.Base.BigEndian.{be_bytes}
use lancelot.Store.Txn.{get}
use lancelot.Command.Object.{object_key}
use lancelot.Command.Access.{with_object, get_txn_object}
use lancelot.Command.Strings.Read.{get_handle}
use lancelot.Command.Reply.{failure, ok_reply, null}
use lancelot.Command.Session.{
  Conn, run_pending, Request, Session, one, many, queued, silent, to_lower, unwatches,
}
use lancelot.Command.Session.Control.{exec}
use lancelot.Command.Session.Connection.{quit}
use lancelot.Command.Session.Serve.{kind_of, of_multi, of_exec, of_txn, dispatch, serve, serve_all}
use lancelot.Command.Session.Laws.{IsKnown, IsInner, at_once, serve_all-at_once}
use lancelot.Command.Session.Laws.Abort.{exec-unknown, serve_all-server}
use lancelot.Command.Session.Laws.Commit.{Executed, exec-Executed}
use lancelot.Command.Session.Laws.Reachable.{start, step, IsWell, view, Reaches-IsWell}
use lancelot.Tests.Memory.{mem_kv, mem_client, handlers, conn}

abbrev request : Bytes → List Bytes → Request
request name args = record { name = name; args = args }

abbrev get_it : Request
get_it = request (codes "GET") (codes "n" ∷ [])

abbrev frobnicate : Request
frobnicate = request (codes "frobnicate") []

abbrev multi_it : Request
multi_it = request (codes "MULTI") []

abbrev exec_it : Request
exec_it = request (codes "exec") []

multi_kind : kind_of multi_it.name ≡ of_multi
unfolding kind_of bytes_eq
multi_kind = refl

exec_kind : kind_of exec_it.name ≡ of_exec
unfolding kind_of bytes_eq
exec_kind = refl

frobnicate_kind : kind_of frobnicate.name ≡ of_txn
unfolding kind_of bytes_eq
frobnicate_kind = refl

frobnicate_unknown : handlers.table (to_lower frobnicate.name) ≡ none
unfolding bytes_eq
frobnicate_unknown = refl

get_kind : kind_of get_it.name ≡ of_txn
unfolding kind_of bytes_eq
get_kind = refl

get_entry : handlers.table (to_lower get_it.name) ≢ none
unfolding bytes_eq
get_entry h = cc

get_it-IsKnown : IsKnown handlers get_it
get_it-IsKnown = record { kind = get_kind; entry = get_entry }

get_it-IsInner : IsInner get_it
unfolding kind_of bytes_eq
get_it-IsInner = record {
  not_exec = λ e. cc;
  not_discard = λ e. cc;
  not_quit = λ e. cc;
  not_subscribe = λ e. cc;
  not_psubscribe = λ e. cc;
}

serve_all-at_once_example :
    serve_all handlers (multi_it ∷ (get_it ∷ []) ++ exec_it ∷ []) (conn none) ≡ (
      one (ok_reply Bytes) ∷ replicate (length (get_it ∷ [])) queued
          ++ (at_once handlers (get_it ∷ []) (conn none)).0 ∷ [],
      (at_once handlers (get_it ∷ []) (conn none)).1,
    )
serve_all-at_once_example =
    serve_all-at_once handlers multi_it exec_it (get_it ∷ []) (conn none) refl multi_kind refl
      exec_kind refl refl (get_it-IsKnown, tt)

-- A session in MULTI with a GET queued.
abbrev in_multi : Session mem_kv
in_multi = record {
  multi = true;
  watch = false;
  pending_err = false;
  pending = get_it ∷ [];
  txn = none;
}

exec-unknown_example :
    serve handlers exec_it (serve_all handlers (frobnicate ∷ get_it ∷ []) (conn (some in_multi))).1
    ≡ (
      one (failure transaction_discarded),
      record (conn (some in_multi)) {
        session = none;
        trace = (serve_all handlers (frobnicate ∷ get_it ∷ []) (conn (some in_multi))).1.trace;
      },
    )
exec-unknown_example =
    exec-unknown handlers frobnicate exec_it (get_it ∷ []) (conn (some in_multi)) in_multi refl refl
      refl frobnicate_kind frobnicate_unknown (get_it-IsInner, tt) exec_kind refl

serve_all-server_example :
    (serve_all handlers (get_it ∷ get_it ∷ []) (conn (some in_multi))).1.server
    ≡ (conn (some in_multi)).server
serve_all-server_example =
    serve_all-server handlers (get_it ∷ get_it ∷ []) (conn (some in_multi)) in_multi refl refl refl
      (get_it-IsInner, (get_it-IsInner, tt))

exec_done : (exec handlers exec_it (conn (some in_multi))).0 ≡ many (null ∷ [])
unfolding exec run_pending bytes_eq get_handle with_object get_txn_object get object_key be_bytes
exec_done = refl

exec-Executed_example :
    Executed mem_client handlers
      (conn (some in_multi))
      (exec handlers exec_it (conn (some in_multi))).1
      (null ∷ [])
exec-Executed_example = exec-Executed handlers exec_it (conn (some in_multi)) (null ∷ []) exec_done

-- After MULTI and a GET.
abbrev after_multi : Conn mem_kv mem_client
after_multi = (serve handlers multi_it (conn none)).1

abbrev after_get : Conn mem_kv mem_client
after_get = (serve handlers get_it after_multi).1

Reaches-IsWell_example : IsWell handlers (view after_get.session)
Reaches-IsWell_example =
    Reaches-IsWell handlers (conn none) after_get refl
      (step get_it after_multi after_get (step multi_it (conn none) after_multi start refl) refl)

-- QUIT closes the connection, and what comes after it gets nothing.
quit_closes :
    (serve_all handlers (request (codes "QUIT") [] ∷ get_it ∷ []) (conn (some in_multi))).0
    ≡ one (ok_reply Bytes) ∷ silent ∷ []
unfolding serve_all serve dispatch kind_of quit bytes_eq
quit_closes = refl

-- A queued UNWATCH clears the flag of WATCH; one with arguments is an error, and does not.
unwatch_clears : unwatches (get_it ∷ request (codes "UNWATCH") [] ∷ []) ≡ true
unfolding bytes_eq
unwatch_clears = refl

unwatch_args : unwatches (request (codes "unwatch") (codes "n" ∷ []) ∷ []) ≡ false
unfolding bytes_eq
unwatch_args = refl
