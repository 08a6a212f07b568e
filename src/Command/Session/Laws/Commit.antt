-- ===== src/Command/Session/Laws/Commit.antt =====
-- What EXEC makes of the server.
use lancelot.Base.{
  ◌≡◌, refl, sym, ap, ◌∙◌, Bool, true, false, not, ◌&&◌, none, some, List, [], length, arith, inl,
  inr, Option-cases, ◌⊎◌, subst,
}
use lancelot.Store.Kv.{Kv}
use lancelot.Store.Error.{Result-cases, ok, fault}
use lancelot.Store.Txn.{Txn}
use lancelot.Command.Reply.{Reply, simple_int, failure}
use lancelot.Command.Session.{
  Client, Request, Handlers, Session, Conn, one, many, run_pending, messages, unwatches, commit,
}
use lancelot.Command.Session.Single.{begin}
use lancelot.Command.Session.Control.{exec, exec_session, watch, run_session, finish}
use lancelot.Command.Session.Laws.Run.{fill-length, HasLength, run_pending-HasLength}

-- EXEC has committed: all queued commands ran, one after the other, on the transaction `start`, and
-- what they wrote is what was committed.
pub record Committed {kv : Kv} (client : Client kv) (hs : Handlers kv) (rs : List Request)
    (server : client.Server) : Type 0 where
  pub start : Txn kv
  pub last : Txn kv
  pub before : client.Server
  pub entries : List (Bool × Reply kv.Fault)
  pub ran : run_pending hs.table rs start ≡ (ok entries, last)
  pub committed : client.commit before last.store ≡ (none, server)

module _ {kv : Kv} {client : Client kv} (hs : Handlers kv) where
  finish-many :
      (watch : Bool) (entries : List (Bool × Reply kv.Fault)) (t : Txn kv) (c : Conn kv client)
      (replies : List (Reply kv.Fault))
      → (finish hs watch entries t c).0 ≡ many replies
      → (client.commit c.server t.store ≡ (none, (finish hs watch entries t c).1.server))
        × (length replies ≡ length entries)
  unfolding finish commit
  finish-many watch entries t c replies h = ground (
    arith,
    fill-length simple_int entries (hs.publish (messages entries)),
    fill-length simple_int entries [],
  )

  run_session-ok :
      (w : Bool) (rs : List Request) (t : Txn kv) (c : Conn kv client)
      (entries : List (Bool × Reply kv.Fault))
      → (run_pending hs.table rs t).0 ≡ ok entries
      → run_session hs w rs t c
        ≡ finish hs (w && not (unwatches rs)) entries (run_pending hs.table rs t).1 c
  unfolding run_session
  run_session-ok w rs t c entries e = ground (arith, e)

  run_session-many :
      (w : Bool) (rs : List Request) (t : Txn kv) (c : Conn kv client)
      (replies : List (Reply kv.Fault))
      → (run_session hs w rs t c).0 ≡ many replies
      → Committed client hs rs (run_session hs w rs t c).1.server × (length replies ≡ length rs)
  unfolding run_session
  run_session-many w rs t c replies h =
      let ran = run_pending hs.table rs t in
      elim (Result-cases ran.0) [
        | inl (entries, e) ↦
            (let same = run_session-ok w rs t c entries e in
              let done =
                finish-many (w && not (unwatches rs)) entries ran.1 c replies
                  (ap (λ x. x.0) (sym same) ∙ h) in
              (
                record {
                  start = t;
                  last = ran.1;
                  before = c.server;
                  entries = entries;
                  ran = ground (arith, e);
                  committed = done.0 ∙ ap (λ x. (none, x.1.server)) (sym same);
                },
                done.1 ∙ subst (HasLength (length rs)) e (run_pending-HasLength hs.table rs t),
              ))
        | inr (x, e) ↦ absurd (ground (arith, e))
      ]

-- `exec` has run the session's commands on `start`.
record Runs {kv : Kv} {client : Client kv} (hs : Handlers kv) (s : Session kv) (c : Conn kv client)
    : Type 0 where
  start : Txn kv
  server : client.Server
  runs : exec_session hs s c ≡ run_session hs s.watch s.pending start (record c { server = server })
  multi : s.multi ≡ true
  pending_err : s.pending_err ≡ false

pub Begun-cases {ℓ κ} :
    {A : Type ℓ} {B : Type κ} (s : A ⊎ B) → ((a : A) × (s ≡ inl a)) ⊎ ((b : B) × (s ≡ inr b))
Begun-cases (inl a) = inl (a, refl)
Begun-cases (inr b) = inr (b, refl)

-- What an EXEC that answers with replies has done.
pub record Executed {kv : Kv} (client : Client kv) (hs : Handlers kv) (c c' : Conn kv client)
    (replies : List (Reply kv.Fault)) : Type 0 where
  pub session : Session kv
  pub there : c.session ≡ some session
  pub multi : session.multi ≡ true
  pub pending_err : session.pending_err ≡ false
  pub all : Committed client hs session.pending c'.server
  pub replies_length : length replies ≡ length session.pending
  pub gone : c'.session ≡ none

module _ {kv : Kv} {client : Client kv} (hs : Handlers kv) where
  exec_session-open :
      (s : Session kv) (c : Conn kv client)
      → s.multi ≡ true
      → s.pending_err ≡ false
      → (Runs hs s c) ⊎ ((f : kv.Fault) × ((exec_session hs s c).0 ≡ one (failure (fault f))))
  unfolding exec_session
  exec_session-open s c m p = elim (Option-cases s.txn) [
    | inr (t, e) ↦ inl (record {
      start = t;
      server = c.server;
      runs = ground (arith, e);
      multi = m;
      pending_err = p;
    })
    | inl n ↦ elim (Begun-cases (begin c).0) [
      | inl (f, e) ↦ inr (f, ground (arith, e, n))
      | inr (t, e) ↦ inl (record {
        start = t;
        server = (begin c).1;
        runs = ground (arith, e, n);
        multi = m;
        pending_err = p;
      })
    ]
  ]

  exec_session-flags :
      (s : Session kv) (c : Conn kv client) (replies : List (Reply kv.Fault))
      → (exec_session hs s c).0 ≡ many replies
      → (s.multi ≡ true) × (s.pending_err ≡ false)
  unfolding exec_session
  exec_session-flags s c replies h = ground arith

  exec_session-Runs :
      (s : Session kv) (c : Conn kv client) (replies : List (Reply kv.Fault))
      → (exec_session hs s c).0 ≡ many replies
      → Runs hs s c
  exec_session-Runs s c replies h =
      let f = exec_session-flags s c replies h in
      elim (exec_session-open s c f.0 f.1) [
        | inl r ↦ r
        | inr (x, e) ↦ absurd (ground (arith, e, h))
      ]

  finish-session :
      (w : Bool) (entries : List (Bool × Reply kv.Fault)) (t : Txn kv) (c : Conn kv client)
      → (finish hs w entries t c).1.session ≡ c.session
  unfolding finish
  finish-session w entries t c = ground arith

  pub run_session-session :
      (w : Bool) (rs : List Request) (t : Txn kv) (c : Conn kv client)
      → (run_session hs w rs t c).1.session ≡ c.session
  unfolding run_session
  run_session-session w rs t c = elim (Result-cases (run_pending hs.table rs t).0) [
    | inl (entries, e) ↦
        ground (
          arith,
          e,
          finish-session (w && not (unwatches rs)) entries (run_pending hs.table rs t).1 c,
        )
    | inr (x, e) ↦ ground (arith, e)
  ]

  exec-there :
      (r : Request) (c : Conn kv client) (replies : List (Reply kv.Fault))
      → (exec hs r c).0 ≡ many replies
      → (s : Session kv) × (c.session ≡ some s)
        × (exec hs r c ≡ exec_session hs s (record c { session = none }))
  unfolding exec
  exec-there r c replies h = elim (Option-cases c.session) [
    | inl n ↦ absurd (ground (arith, n, h))
    | inr (s, e) ↦ (s, e, ground (arith, e, h))
  ]

  -- An EXEC that answers with replies had a session in MULTI without unknown commands; the commands
  -- queued there ran in their order on one transaction, and the server committed what that
  -- transaction held in the end; there is one reply for each, and the session is gone.
  pub exec-Executed :
      (r : Request) (c : Conn kv client) (replies : List (Reply kv.Fault))
      → (exec hs r c).0 ≡ many replies
      → Executed client hs c (exec hs r c).1 replies
  exec-Executed r c replies h =
      let (s, e, same) = exec-there r c replies h in
      let c0 = record c { session = none } in
      let h0 : (exec_session hs s c0).0 ≡ many replies = ap (λ x. x.0) (sym same) ∙ h in
      let run = exec_session-Runs s c0 replies h0 in
      let c1 = record c0 { server = run.server } in
      let done =
        run_session-many hs s.watch s.pending run.start c1 replies
          (ap (λ x. x.0) (sym run.runs) ∙ h0) in
      let last = sym run.runs ∙ sym same in
      record {
        session = s;
        there = e;
        multi = run.multi;
        pending_err = run.pending_err;
        all = subst (λ x. Committed client hs s.pending x.1.server) last done.0;
        replies_length = done.1;
        gone =
            ap (λ x. x.1.session) (sym last) ∙ run_session-session s.watch s.pending run.start c1;
      }
