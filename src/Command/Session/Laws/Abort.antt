-- ===== src/Command/Session/Laws/Abort.antt =====
-- Commands inside MULTI: they do not reach the server, and one that is unknown aborts the EXEC.
use lancelot.Base.{
  ◌≡◌, refl, sym, subst, ap, ◌∙◌, Bool, true, none, some, List, [], ◌∷◌, ◌++◌, All, Bytes, codes,
  arith,
}
use lancelot.Store.Kv.{Kv}
use lancelot.Store.Error.{transaction_discarded}
use lancelot.Command.Reply.{failure}
use lancelot.Command.Session.{Client, Request, Handlers, Session, connected, Conn, one, to_lower}
use lancelot.Command.Session.Single.{txn_handler}
use lancelot.Command.Session.Control.{multi, exec_session, watch}
use lancelot.Command.Session.Connection.{
  TraceWord, trace_word, trace_sub, trace, command, unsubscribe,
}
use lancelot.Command.Session.Serve.{
  Kind, of_multi, of_exec, of_discard, of_watch, of_quit, of_command, of_trace, of_subscribe,
  of_psubscribe, of_unsubscribe, of_punsubscribe, of_txn, kind_of, dispatch, serve, serve_all,
}
use lancelot.Command.Session.Laws.{IsInner, serve-dispatch, serve-exec}

module _ {kv : Kv} (hs : Handlers kv) where
  -- What a request that does not end a MULTI makes of a session there.
  unfoldable inner_kind : Kind → Request → Session kv → Session kv
  inner_kind of_txn r s = elim (hs.table (to_lower r.name)) [
    | none ↦ record s { pending_err = true }
    | some h ↦ record s { pending = s.pending ++ r ∷ [] }
  ]
  inner_kind _ r s = s

  unfoldable inner_session : Request → Session kv → Session kv
  unfolding inner_kind
  inner_session r s = inner_kind (kind_of r.name) r s

  inner_session-multi :
      (r : Request) (s : Session kv) → s.multi ≡ true → (inner_session r s).multi ≡ true
  unfolding inner_session
  inner_session-multi r s h = ground arith

  inner_session-pending_err :
      (r : Request) (s : Session kv) → s.pending_err ≡ true → (inner_session r s).pending_err ≡ true
  unfolding inner_session
  inner_session-pending_err r s h = ground arith

  inner_session-unknown :
      (r : Request) (s : Session kv)
      → kind_of r.name ≡ of_txn
      → hs.table (to_lower r.name) ≡ none
      → (inner_session r s).pending_err ≡ true
  unfolding inner_session
  inner_session-unknown r s k n = ground arith

  unfoldable inner_all : List Request → Session kv → Session kv
  inner_all [] s = s
  inner_all (r ∷ rs) s = inner_all rs (inner_session r s)

  inner_all-multi :
      (rs : List Request) (s : Session kv) → s.multi ≡ true → (inner_all rs s).multi ≡ true
  unfolding inner_all
  inner_all-multi [] s h = h
  inner_all-multi (r ∷ rs) s h = inner_all-multi rs (inner_session r s) (inner_session-multi r s h)

  inner_all-pending_err :
      (rs : List Request) (s : Session kv)
      → s.pending_err ≡ true
      → (inner_all rs s).pending_err ≡ true
  unfolding inner_all
  inner_all-pending_err [] s h = h
  inner_all-pending_err (r ∷ rs) s h =
      inner_all-pending_err rs (inner_session r s) (inner_session-pending_err r s h)

module _ {kv : Kv} {client : Client kv} (hs : Handlers kv) where
  -- The connection with another session; TRACE may have changed its flag.
  abbrev with_session : Conn kv client → Session kv → Bool → Conn kv client
  with_session c s b = record c { session = some s; trace = b }

  trace_sub-with_session :
      (w : TraceWord) (c : Conn kv client)
      → (trace_sub hs w c).1 ≡ record c { trace = (trace_sub hs w c).1.trace }
  unfolding trace_sub
  trace_sub-with_session w c = ground arith

  trace-with_session :
      (args : List Bytes) (c : Conn kv client)
      → (trace hs args c).1 ≡ record c { trace = (trace hs args c).1.trace }
  unfolding trace
  trace-with_session [] c = refl
  trace-with_session (a ∷ []) c = trace_sub-with_session (trace_word a) c
  trace-with_session (a ∷ b ∷ rest) c = refl

  unsubscribe-same :
      (name : Bytes) (channels : List Bytes) (c : Conn kv client)
      → (unsubscribe name channels c).1 ≡ c
  unfolding unsubscribe
  unsubscribe-same name [] c = refl
  unsubscribe-same name (x ∷ xs) c = refl

  -- Inside MULTI, such a request changes the session, and the flag of TRACE, and nothing else.
  dispatch-inner :
      (k : Kind) (r : Request) (c : Conn kv client) (s : Session kv)
      → c.session ≡ some s
      → s.multi ≡ true
      → kind_of r.name ≡ k
      → IsInner r
      → (dispatch hs k r c).1 ≡ with_session c (inner_kind hs k r s) (dispatch hs k r c).1.trace
  unfolding dispatch txn_handler multi watch command inner_kind
  dispatch-inner of_multi r c s h m e i = ground arith
  dispatch-inner of_watch r c s h m e i = ground arith
  dispatch-inner of_command r c s h m e i = ground arith
  dispatch-inner of_trace r c s h m e i = ground (arith, trace-with_session r.args c)
  dispatch-inner of_unsubscribe r c s h m e i =
      ground (arith, unsubscribe-same (codes "unsubscribe") r.args c)
  dispatch-inner of_punsubscribe r c s h m e i =
      ground (arith, unsubscribe-same (codes "punsubscribe") r.args c)
  dispatch-inner of_txn r c s h m e i = ground arith
  dispatch-inner of_exec r c s h m e i = absurd (i.not_exec e)
  dispatch-inner of_discard r c s h m e i = absurd (i.not_discard e)
  dispatch-inner of_quit r c s h m e i = absurd (i.not_quit e)
  dispatch-inner of_subscribe r c s h m e i = absurd (i.not_subscribe e)
  dispatch-inner of_psubscribe r c s h m e i = absurd (i.not_psubscribe e)

  serve-inner :
      (r : Request) (c : Conn kv client) (s : Session kv)
      → c.link ≡ connected
      → c.session ≡ some s
      → s.multi ≡ true
      → IsInner r
      → (serve hs r c).1 ≡ with_session c (inner_session hs r s) (serve hs r c).1.trace
  unfolding inner_session
  serve-inner r c s o h m i =
      let here = serve-dispatch hs r (kind_of r.name) c o refl in
      subst (λ x. x.1 ≡ with_session c (inner_kind hs (kind_of r.name) r s) x.1.trace) (sym here)
        (dispatch-inner (kind_of r.name) r c s h m refl i)

  serve_all-inner :
      (rs : List Request) (c : Conn kv client) (s : Session kv)
      → c.link ≡ connected
      → c.session ≡ some s
      → s.multi ≡ true
      → All IsInner rs
      → (serve_all hs rs c).1 ≡ with_session c (inner_all hs rs s) (serve_all hs rs c).1.trace
  unfolding serve_all inner_all
  serve_all-inner [] c s o h m i = ground (arith, h)
  serve_all-inner (r ∷ rs) c s o h m (i, is) =
      let s' = inner_session hs r s in
      subst
        (λ x.
          (serve_all hs rs x).1 ≡ with_session c (inner_all hs rs s') (serve_all hs rs x).1.trace)
        (sym (serve-inner r c s o h m i))
        (serve_all-inner rs (with_session c s' (serve hs r c).1.trace) s' o refl
          (inner_session-multi hs r s m) is)

  -- Inside MULTI on a connection that is neither closed nor detached, requests other than EXEC,
  -- DISCARD, QUIT, SUBSCRIBE and PSUBSCRIBE leave the server as it was.
  pub serve_all-server :
      (rs : List Request) (c : Conn kv client) (s : Session kv)
      → c.link ≡ connected
      → c.session ≡ some s
      → s.multi ≡ true
      → All IsInner rs
      → (serve_all hs rs c).1.server ≡ c.server
  serve_all-server rs c s o h m i =
      ap (λ (x : Conn kv client). x.server) (serve_all-inner rs c s o h m i)

  exec-pending_err :
      (e : Request) (c : Conn kv client) (s : Session kv)
      → c.link ≡ connected
      → c.session ≡ some s
      → s.multi ≡ true
      → s.pending_err ≡ true
      → kind_of e.name ≡ of_exec
      → e.args ≡ []
      → serve hs e c ≡ (one (failure transaction_discarded), record c { session = none })
  unfolding exec_session
  exec-pending_err e c s o h m p ek ea = ground (arith, serve-exec hs e c s o ek ea h)

  -- After an unknown command in MULTI on a connection that is neither closed nor detached, and any
  -- requests but EXEC, DISCARD, QUIT, SUBSCRIBE and PSUBSCRIBE, EXEC without arguments answers that the
  -- transaction is discarded: no command has run, the server is as it was, and the session is gone. Of
  -- the rest of the connection only the flag of TRACE may have changed.
  pub exec-unknown :
      (r e : Request) (rs : List Request) (c : Conn kv client) (s : Session kv)
      → c.link ≡ connected
      → c.session ≡ some s
      → s.multi ≡ true
      → kind_of r.name ≡ of_txn
      → hs.table (to_lower r.name) ≡ none
      → All IsInner rs
      → kind_of e.name ≡ of_exec
      → e.args ≡ []
      → serve hs e (serve_all hs (r ∷ rs) c).1 ≡ (
        one (failure transaction_discarded),
        record c { session = none; trace = (serve_all hs (r ∷ rs) c).1.trace },
      )
  exec-unknown r e rs c s o h m k n i ek ea =
      let ir : IsInner r = record {
        not_exec = λ p. cc;
        not_discard = λ p. cc;
        not_quit = λ p. cc;
        not_subscribe = λ p. cc;
        not_psubscribe = λ p. cc;
      } in
      let s' = inner_all hs (r ∷ rs) s in
      let pe : s'.pending_err ≡ true =
        unfold inner_all in
        inner_all-pending_err hs rs (inner_session hs r s) (inner_session-unknown hs r s k n) in
      let after = serve_all-inner (r ∷ rs) c s o h m (ir, i) in
      ap (λ x. serve hs e x) after
      ∙ exec-pending_err e (with_session c s' (serve_all hs (r ∷ rs) c).1.trace) s' o refl
          (inner_all-multi hs (r ∷ rs) s m) pe ek ea
