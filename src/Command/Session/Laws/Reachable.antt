-- ===== src/Command/Session/Laws/Reachable.antt =====
-- The connections that requests lead to, and what always holds of their sessions.
use lancelot.Base.{
  ◌≡◌, ◌≢◌, ◌⊎◌, refl, sym, subst, Bytes, codes, Bool, true, false, Option, none, some, List, [],
  ◌∷◌, ◌++◌, All, All-append, arith, inl, inr, Option-cases, Bool-cases,
}
use lancelot.Store.Kv.{Kv}
use lancelot.Command.Session.{
  Client, Request, Handlers, Session, Link, connected, closed, detached, Conn, to_lower, unwatch,
}
use lancelot.Command.Session.Single.{begin, txn_handler, single}
use lancelot.Command.Session.Control.{multi, exec, exec_session, watch, watch_with, discard}
use lancelot.Command.Session.Connection.{
  TraceWord, trace_word, trace_sub, trace, command, unsubscribe, subscribe, quit,
}
use lancelot.Command.Session.Serve.{
  Kind, of_multi, of_exec, of_discard, of_watch, of_quit, of_command, of_trace, of_subscribe,
  of_psubscribe, of_unsubscribe, of_punsubscribe, of_txn, kind_of, dispatch, serve,
}
use lancelot.Command.Session.Laws.{IsKnown, serve-dispatch}
use lancelot.Command.Session.Laws.Commit.{run_session-session, Begun-cases}

-- `c'` is reached from `c` by requests.
pub data Reaches {kv : Kv} {client : Client kv} (hs : Handlers kv) (c : Conn kv client)
    : Conn kv client → Type 0 where
  start : Reaches hs c c
  step :
      (r : Request) (c' c'' : Conn kv client)
      → Reaches hs c c'
      → (serve hs r c').1 ≡ c''
      → Reaches hs c c''

-- What the queue of a session is about; without a session it is empty.
pub record View : Type 0 where
  pub multi : Bool
  pub pending_err : Bool
  pub pending : List Request

abbrev empty_view : View
empty_view = record { multi = false; pending_err = false; pending = [] }

abbrev pub view : {kv : Kv} → Option (Session kv) → View
view none = empty_view
view (some s) = record { multi = s.multi; pending_err = s.pending_err; pending = s.pending }

-- Every queued command is in the table; only a session in MULTI has a queue, or an error of one.
pub record IsWell {kv : Kv} (hs : Handlers kv) (v : View) : Type 0 where
  pub known : All (IsKnown hs) v.pending
  pub idle : v.multi ≡ false → v.pending ≡ []
  pub blame : v.pending_err ≡ true → v.multi ≡ true

unwatch-view :
    {kv : Kv} (client : Client kv) (name : Bytes) (s : Session kv)
    → view (some (unwatch client name s)) ≡ view (some s)
unfolding unwatch
unwatch-view client name s = ground arith

module _ {kv : Kv} (hs : Handlers kv) where
  empty-IsWell : IsWell hs empty_view
  empty-IsWell = record { known = tt; idle = λ e. refl; blame = λ e. cc }

  kept : {a b : Option (Session kv)} → a ≡ b → IsWell hs (view b) → IsWell hs (view a)
  kept e w = subst (λ x. IsWell hs (view x)) (sym e) w

  same_or_empty-IsWell : (v v' : View) → (v' ≡ v) ⊎ (v' ≡ empty_view) → IsWell hs v → IsWell hs v'
  same_or_empty-IsWell v v' (inl e) w = subst (IsWell hs) (sym e) w
  same_or_empty-IsWell v v' (inr e) w = subst (IsWell hs) (sym e) empty-IsWell

module _ {kv : Kv} {client : Client kv} (hs : Handlers kv) where
  watch-view : (r : Request) (c : Conn kv client) → view (watch r c).1.session ≡ view c.session
  unfolding watch watch_with
  watch-view r c = ground arith

  discard-view :
      (r : Request) (c : Conn kv client)
      → (view (discard r c).1.session ≡ view c.session)
        ⊎ (view (discard r c).1.session ≡ empty_view)
  unfolding discard
  discard-view r c = ground arith

  multi-view :
      (r : Request) (c : Conn kv client)
      → (view (multi r c).1.session ≡ view c.session)
        ⊎ (view (multi r c).1.session ≡ record (view c.session) { multi = true; pending = [] })
  unfolding multi
  multi-view r c = ground arith

  txn_handler-view :
      (r : Request) (c : Conn kv client)
      → (view (txn_handler hs r c).1.session ≡ view c.session)
        ⊎ (((view c.session).multi ≡ true)
            × (view (txn_handler hs r c).1.session
                ≡ record (view c.session) { pending_err = true }))
        ⊎ (((view c.session).multi ≡ true)
            × (hs.table (to_lower r.name) ≢ none)
            × (view (txn_handler hs r c).1.session
                ≡ record (view c.session) { pending = (view c.session).pending ++ r ∷ [] }))
  unfolding txn_handler single
  txn_handler-view r c = elim (Option-cases c.session) [
    | inl n ↦ inl (ground (arith, n))
    | inr (s, e) ↦ elim (Bool-cases s.multi) [
      | inl m ↦ elim (Option-cases (hs.table (to_lower r.name))) [
        | inl z ↦ inr (inl (ground (arith, e, m), ground (arith, e, m, z)))
        | inr (h, z) ↦ inr (inr (ground (arith, e, m), (λ q. cc), ground (arith, e, m, z)))
      ]
      | inr m ↦ inl (ground (arith, e, m, unwatch-view client (to_lower r.name) s))
    ]
  ]

  exec_session-session :
      (s : Session kv) (c : Conn kv client) → (exec_session hs s c).1.session ≡ c.session
  unfolding exec_session
  exec_session-session s c = elim (Option-cases s.txn) [
    | inr (t, e) ↦ ground (arith, e, run_session-session hs s.watch s.pending t c)
    | inl n ↦ elim (Begun-cases (begin c).0) [
      | inl (f, e) ↦ ground (arith, e, n)
      | inr (t, e) ↦ ground (
        arith,
        e,
        n,
        run_session-session hs s.watch s.pending t (record c { server = (begin c).1 }),
      )
    ]
  ]

  exec-view :
      (r : Request) (c : Conn kv client)
      → (view (exec hs r c).1.session ≡ view c.session)
        ⊎ (view (exec hs r c).1.session ≡ empty_view)
  unfolding exec
  exec-view r c = elim (Option-cases c.session) [
    | inl n ↦ inl (ground (arith, n))
    | inr (s, e) ↦ ground (arith, e, exec_session-session s (record c { session = none }))
  ]

  txn_handler-IsWell :
      (r : Request) (c : Conn kv client)
      → kind_of r.name ≡ of_txn
      → IsWell hs (view c.session)
      → IsWell hs (view (txn_handler hs r c).1.session)
  txn_handler-IsWell r c k w = elim (txn_handler-view r c) [
    | inl e ↦ subst (IsWell hs) (sym e) w
    | inr (inl (m, e)) ↦
        subst (IsWell hs) (sym e) (record { known = w.known; idle = w.idle; blame = λ b. m })
    | inr (inr (m, t, e)) ↦ subst (IsWell hs) (sym e) (record {
      known =
          All-append (IsKnown hs) (view c.session).pending (r ∷ []) w.known
            (record { kind = k; entry = t }, tt);
      idle = λ i. absurd (ground (arith, i, m));
      blame = w.blame;
    })
  ]

  multi-IsWell :
      (r : Request) (c : Conn kv client)
      → IsWell hs (view c.session)
      → IsWell hs (view (multi r c).1.session)
  multi-IsWell r c w = elim (multi-view r c) [
    | inl e ↦ subst (IsWell hs) (sym e) w
    | inr e ↦ subst (IsWell hs) (sym e) (record { known = tt; idle = λ i. refl; blame = λ b. refl })
  ]

  quit-session : (c : Conn kv client) → (quit c).1.session ≡ c.session
  unfolding quit
  quit-session c = refl

  command-session : (c : Conn kv client) → (command c).1.session ≡ c.session
  unfolding command
  command-session c = refl

  trace_sub-session :
      (w : TraceWord) (c : Conn kv client) → (trace_sub hs w c).1.session ≡ c.session
  unfolding trace_sub
  trace_sub-session w c = ground arith

  trace-session : (args : List Bytes) (c : Conn kv client) → (trace hs args c).1.session ≡ c.session
  unfolding trace
  trace-session [] c = refl
  trace-session (a ∷ []) c = trace_sub-session (trace_word a) c
  trace-session (a ∷ b ∷ rest) c = refl

  subscribe-session :
      (pattern : Bool) (channels : List Bytes) (c : Conn kv client)
      → (subscribe hs pattern channels c).1.session ≡ c.session
  unfolding subscribe
  subscribe-session pattern [] c = refl
  subscribe-session pattern (x ∷ xs) c = ground arith

  unsubscribe-session :
      (name : Bytes) (channels : List Bytes) (c : Conn kv client)
      → (unsubscribe {client = client} name channels c).1.session ≡ c.session
  unfolding unsubscribe
  unsubscribe-session name [] c = refl
  unsubscribe-session name (x ∷ xs) c = refl

  dispatch-IsWell :
      (k : Kind) (r : Request) (c : Conn kv client)
      → kind_of r.name ≡ k
      → IsWell hs (view c.session)
      → IsWell hs (view (dispatch hs k r c).1.session)
  unfolding dispatch
  dispatch-IsWell of_multi r c e w = multi-IsWell r c w
  dispatch-IsWell of_exec r c e w = same_or_empty-IsWell hs _ _ (exec-view r c) w
  dispatch-IsWell of_discard r c e w = same_or_empty-IsWell hs _ _ (discard-view r c) w
  dispatch-IsWell of_watch r c e w = subst (IsWell hs) (sym (watch-view r c)) w
  dispatch-IsWell of_quit r c e w = kept hs (quit-session c) w
  dispatch-IsWell of_command r c e w = kept hs (command-session c) w
  dispatch-IsWell of_trace r c e w = kept hs (trace-session r.args c) w
  dispatch-IsWell of_subscribe r c e w = kept hs (subscribe-session false r.args c) w
  dispatch-IsWell of_psubscribe r c e w = kept hs (subscribe-session true r.args c) w
  dispatch-IsWell of_unsubscribe r c e w =
      kept hs (unsubscribe-session (codes "unsubscribe") r.args c) w
  dispatch-IsWell of_punsubscribe r c e w =
      kept hs (unsubscribe-session (codes "punsubscribe") r.args c) w
  dispatch-IsWell of_txn r c e w = txn_handler-IsWell r c e w

  serve-IsWell :
      (r : Request) (c : Conn kv client)
      → IsWell hs (view c.session)
      → IsWell hs (view (serve hs r c).1.session)
  unfolding serve
  serve-IsWell r c w = by_link c.link refl
    where
      by_link : (l : Link) → c.link ≡ l → IsWell hs (view (serve hs r c).1.session)
      by_link connected o =
          subst (λ x. IsWell hs (view x.1.session)) (sym (serve-dispatch hs r _ c o refl))
            (dispatch-IsWell (kind_of r.name) r c refl w)
      by_link closed o = rw o w
      by_link detached o = rw o w

  -- Whatever requests a new connection gets: every command in the queue of its session is in the table
  -- of commands, a queue or an error of a queue exists inside MULTI only.
  pub Reaches-IsWell :
      (c c' : Conn kv client) → c.session ≡ none → Reaches hs c c' → IsWell hs (view c'.session)
  Reaches-IsWell c c' n start = subst (λ s. IsWell hs (view s)) (sym n) (empty-IsWell hs)
  Reaches-IsWell c c' n (step r b _ h e) =
      subst (λ (x : Conn kv client). IsWell hs (view x.session)) e
        (serve-IsWell r b (Reaches-IsWell c b n h))
