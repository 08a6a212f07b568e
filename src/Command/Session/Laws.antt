-- ===== src/Command/Session/Laws.antt =====
-- What MULTI, queued commands and EXEC do together.
pub mod Abort
pub mod Run
pub mod Commit
pub mod Reachable
use lancelot.Base.{
  ℕ, zero, suc, ◌≡◌, ◌≢◌, refl, sym, ap, ◌∙◌, Bool, true, false, not, ◌&&◌, Option, none, some,
  List, [], ◌∷◌, ◌++◌, All, replicate, length, arith, if◌then◌else◌, inl, inr,
}
use lancelot.Store.Kv.{Kv}
use lancelot.Store.Error.{Result, ok, err, fault, transaction_discarded}
use lancelot.Store.Txn.{Txn}
use lancelot.Command.Reply.{failure, ok_reply}
use lancelot.Command.Session.{
  Client, Request, Handlers, Session, connected, Conn, Answer, queued, one, many, to_lower,
  run_pending, new_session,
}
use lancelot.Command.Session.Single.{begin, txn_handler}
use lancelot.Command.Session.Control.{multi, exec, exec_session, watch, run_session, discard}
use lancelot.Command.Session.Serve.{
  Kind, of_multi, of_exec, of_discard, of_quit, of_subscribe, of_psubscribe, of_txn, kind_of,
  dispatch, serve, serve_all,
}

-- A request that MULTI queues: its name is in the table of commands.
pub record IsKnown {kv : Kv} (hs : Handlers kv) (r : Request) : Type 0 where
  pub kind : kind_of r.name ≡ of_txn
  pub entry : hs.table (to_lower r.name) ≢ none

-- A request that neither ends a MULTI nor takes the connection out of the request loop: one other than
-- EXEC, DISCARD, QUIT, SUBSCRIBE and PSUBSCRIBE.
pub record IsInner (r : Request) : Type 0 where
  pub not_exec : kind_of r.name ≢ of_exec
  pub not_discard : kind_of r.name ≢ of_discard
  pub not_quit : kind_of r.name ≢ of_quit
  pub not_subscribe : kind_of r.name ≢ of_subscribe
  pub not_psubscribe : kind_of r.name ≢ of_psubscribe

append-nil {ℓ} : {A : Type ℓ} (xs : List A) → xs ++ [] ≡ xs
append-nil [] = refl
append-nil (x ∷ xs) = ap (◌∷◌ x) (append-nil xs)

append_assoc {ℓ} :
    {A : Type ℓ} (xs : List A) (y : A) (zs : List A) → (xs ++ y ∷ []) ++ zs ≡ xs ++ y ∷ zs
append_assoc [] y zs = refl
append_assoc (x ∷ xs) y zs = ap (◌∷◌ x) (append_assoc xs y zs)

module _ {kv : Kv} {client : Client kv} (hs : Handlers kv) where
  -- The connection after `rs` have been queued.
  abbrev pub with_pending : Conn kv client → Session kv → List Request → Conn kv client
  with_pending c s rs = record c { session = some (record s { pending = s.pending ++ rs }) }

  pub serve-dispatch :
      (r : Request) (k : Kind) (c : Conn kv client)
      → c.link ≡ connected
      → kind_of r.name ≡ k
      → serve hs r c ≡ dispatch hs k r c
  unfolding serve
  serve-dispatch r k c o e = ground (arith, o, e)

  serve-queued :
      (r : Request) (c : Conn kv client) (s : Session kv)
      → c.link ≡ connected
      → c.session ≡ some s
      → s.multi ≡ true
      → IsKnown hs r
      → serve hs r c ≡ (queued, with_pending c s (r ∷ []))
  unfolding dispatch txn_handler
  serve-queued r c s o h m k =
      serve-dispatch r of_txn c o k.kind ∙ (let n = k.entry in ground arith)

  serve_all-queued :
      (rs : List Request) (c : Conn kv client) (s : Session kv)
      → c.link ≡ connected
      → c.session ≡ some s
      → s.multi ≡ true
      → All (IsKnown hs) rs
      → serve_all hs rs c ≡ (replicate (length rs) queued, with_pending c s rs)
  unfolding serve_all
  serve_all-queued [] c s o h m k = ground (arith, append-nil s.pending)
  serve_all-queued (r ∷ rs) c s o h m (k, ks) =
      let c' = with_pending c s (r ∷ []) in
      let s' : Session kv = record s { pending = s.pending ++ r ∷ [] } in
      ground (
        arith,
        serve-queued r c s o h m k,
        serve_all-queued rs c' s' o refl m ks,
        append_assoc s.pending r rs,
      )

  serve-multi :
      (r : Request) (c : Conn kv client)
      → c.link ≡ connected
      → kind_of r.name ≡ of_multi
      → r.args ≡ []
      → c.session ≡ none
      → serve hs r c ≡ (
        one (ok_reply kv.Fault),
        record c { session = some (record new_session { multi = true }) },
      )
  unfolding dispatch multi
  serve-multi r c o k a n = serve-dispatch r of_multi c o k ∙ ground (arith, a, n)

  pub serve-exec :
      (r : Request) (c : Conn kv client) (s : Session kv)
      → c.link ≡ connected
      → kind_of r.name ≡ of_exec
      → r.args ≡ []
      → c.session ≡ some s
      → serve hs r c ≡ exec_session hs s (record c { session = none })
  unfolding dispatch exec
  serve-exec r c s o k a h = serve-dispatch r of_exec c o k ∙ ground (arith, a, h)

  pub serve_all-append :
      (rs qs : List Request) (c : Conn kv client)
      → serve_all hs (rs ++ qs) c ≡ (
        (serve_all hs rs c).0 ++ (serve_all hs qs (serve_all hs rs c).1).0,
        (serve_all hs qs (serve_all hs rs c).1).1,
      )
  unfolding serve_all
  serve_all-append [] qs c = refl
  serve_all-append (r ∷ rs) qs c = ground (arith, serve_all-append rs qs (serve hs r c).1)

  -- The commands `rs` in one transaction: it begins when they run, not when they came.
  unfoldable pub at_once : List Request → Conn kv client → Answer kv.Fault × Conn kv client
  at_once rs c =
      let (b, server) = begin c in
      elim b [
        | inl f ↦ (one (failure (fault f)), record c { server = server })
        | inr t ↦ run_session hs false rs t (record c { server = server })
      ]

  -- MULTI, commands of the table, EXEC on a connection that is neither closed nor
  -- detached and has no session: each command is queued, and EXEC answers and acts as if all
  -- of them ran at once in one transaction, in their order; the connection has no session left.
  pub serve_all-at_once :
      (m e : Request) (rs : List Request) (c : Conn kv client)
      → c.link ≡ connected
      → kind_of m.name ≡ of_multi
      → m.args ≡ []
      → kind_of e.name ≡ of_exec
      → e.args ≡ []
      → c.session ≡ none
      → All (IsKnown hs) rs
      → serve_all hs (m ∷ rs ++ e ∷ []) c ≡ (
        one (ok_reply kv.Fault) ∷ replicate (length rs) queued ++ (at_once rs c).0 ∷ [],
        (at_once rs c).1,
      )
  unfolding serve_all at_once exec_session begin
  serve_all-at_once m e rs c o mk ma ek ea n ks =
      let s : Session kv = record new_session { multi = true } in
      let c1 = record c { session = some s } in
      let c2 = with_pending c1 s rs in
      let s2 : Session kv = record s { pending = rs } in
      ground (
        arith,
        serve-multi m c o mk ma n,
        serve_all-append rs (e ∷ []) c1,
        serve_all-queued rs c1 s o refl refl ks,
        serve-exec e c2 s2 o ek ea refl,
      )
