-- ===== src/System/Count.antt =====
-- How many returns a `Session` of session.go and its handler have before them.
use ssmlib.Common.{
  ℕ, ◌+◌, ◌≡◌, refl, ap, inl, inr, Bool, ◌&&◌, ◌||◌, not, true, List, [], ◌∷◌, some, Option-cases,
  if_some, map-eq-some, and_split, arith,
}
use ssmlib.Group.{Errgroup}
use ssmlib.Session.Life as SessionLife
use ssmlib.Session.Life.Shutdown as SessionShutdown
use ssmlib.Session.Life.Shutdown.{is_waiting}
use ssmlib.Handler.Life as HandlerLife
use ssmlib.Handler.Life.Shutdown as HandlerShutdown
use ssmlib.System.{
  System, Event, session_event, handler_event, handler_wait_returns, after_session, on_session,
  is_call, is_wait, step,
}
use ssmlib.System.Parts.{Run, idle, next, session_step}

-- The calls of `Stop` are no returns.
abbrev pub amount : Event → ℕ
amount (session_event e) = SessionShutdown.returns (e ∷ [])
amount (handler_event HandlerLife.stop_called) = 0
amount (handler_event e) = 1
amount handler_wait_returns = 1

abbrev pub returns : List Event → ℕ
returns [] = 0
returns (e ∷ es) = amount e + returns es

abbrev pub pending : {G : Type 0} → System G → ℕ
pending sys = SessionShutdown.pending sys.session + HandlerShutdown.pending sys.handler

module _ (eg : Errgroup) where
  after_session-pending :
      (e : SessionLife.Event) (sys : System eg.Group) (s : SessionLife.Life eg.Group)
      → pending (after_session eg e sys s)
        ≡ SessionShutdown.pending s + HandlerShutdown.pending sys.handler
  after_session-pending SessionLife.stop_called sys s = refl
  after_session-pending SessionLife.cleanup_returns sys s = refl
  after_session-pending SessionLife.watcher_returns sys s = refl
  after_session-pending (SessionLife.outgoing_returns e) sys s = refl
  after_session-pending (SessionLife.incoming_returns e) sys s = refl
  after_session-pending (SessionLife.handler_start_returns r) sys s = refl
  after_session-pending SessionLife.failing_returns sys s = refl
  after_session-pending (SessionLife.handler_wait_returns r) sys s = refl

  on_session-pending :
      (e : SessionLife.Event) (sys sys' : System eg.Group)
      → on_session eg e sys ≡ some sys'
      → SessionShutdown.returns (e ∷ []) + pending sys' ≡ pending sys
  on_session-pending e sys sys' h =
      let (s, moved, same) =
        map-eq-some (after_session eg e sys) (SessionLife.step eg sys.session e) h in
      omega (
        arith,
        ap (λ (x : System eg.Group). pending x) same,
        after_session-pending e sys s,
        SessionShutdown.pending-step eg sys.session s e [] moved,
      )

  module _ (kind : HandlerLife.Kind) where
    handler-pending :
        (e : HandlerLife.Event) (h h' : HandlerLife.Life eg.Group)
        → HandlerLife.step eg kind h e ≡ some h'
        → amount (handler_event e) + HandlerShutdown.pending h' ≡ HandlerShutdown.pending h
    unfolding HandlerLife.step
    handler-pending HandlerLife.stop_called h h' m = ground arith
    handler-pending HandlerLife.cleanup_returns h h' m = ground arith
    handler-pending HandlerLife.watcher_returns h h' m = ground arith
    handler-pending (HandlerLife.to_writer_returns x) h h' m = ground arith
    handler-pending (HandlerLife.to_session_returns x) h h' m = ground arith
    handler-pending HandlerLife.loop_returns h h' m = ground arith

    step-pending :
        (sys sys' : System eg.Group) (e : Event)
        → step eg kind sys e ≡ some sys'
        → amount e + pending sys' ≡ pending sys
    unfolding step
    step-pending sys sys' (session_event e) h =
        on_session-pending e sys sys' (session_step eg kind e sys sys' h).1
    step-pending sys sys' (handler_event e) h =
        let (l, moved, same) =
          map-eq-some (λ l. record sys { handler = l }) (HandlerLife.step eg kind sys.handler e)
            (if_some (is_call eg e || sys.running) h).1 in
        omega (
          arith,
          ap (λ (x : System eg.Group). pending x) same,
          handler-pending e sys.handler l moved,
        )
    step-pending sys sys' handler_wait_returns h =
        elim (Option-cases (HandlerLife.wait eg kind sys.handler)) [
          | inl w ↦ cc (rw (w, step) at h)
          | inr (r, w) ↦
              on_session-pending (SessionLife.handler_wait_returns r) sys sys' (rw (w, step) at h)
        ]

    -- What has returned and what is to return.
    pub returns_counted :
        {es : List Event} {sys : System eg.Group}
        → Run eg kind es sys
        → returns es + pending sys ≡ 11
    returns_counted idle = refl
    returns_counted (next {es} {sys} {sys'} e r h) =
        omega (arith, step-pending sys sys' e h, returns_counted r)

    -- The code itself makes the event happen: what the goroutine waits for has come.
    abbrev pub prompt : System eg.Group → Event → Bool
    prompt sys (session_event e) = not (is_wait e) && SessionShutdown.prompt eg sys.session e
    prompt sys (handler_event e) = sys.running && HandlerShutdown.prompt eg kind sys.handler e
    prompt sys handler_wait_returns = is_waiting sys.session.handler

    session_amount :
        (s : SessionLife.Life eg.Group) (e : SessionLife.Event)
        → SessionShutdown.prompt eg s e ≡ true
        → SessionShutdown.returns (e ∷ []) ≡ 1
    session_amount s SessionLife.stop_called p = cc
    session_amount s SessionLife.cleanup_returns p = refl
    session_amount s SessionLife.watcher_returns p = refl
    session_amount s (SessionLife.outgoing_returns e) p = refl
    session_amount s (SessionLife.incoming_returns e) p = refl
    session_amount s (SessionLife.handler_start_returns r) p = refl
    session_amount s SessionLife.failing_returns p = refl
    session_amount s (SessionLife.handler_wait_returns r) p = refl

    handler_amount :
        (h : HandlerLife.Life eg.Group) (e : HandlerLife.Event)
        → HandlerShutdown.prompt eg kind h e ≡ true
        → amount (handler_event e) ≡ 1
    handler_amount h HandlerLife.stop_called p = cc
    handler_amount h HandlerLife.cleanup_returns p = refl
    handler_amount h HandlerLife.watcher_returns p = refl
    handler_amount h (HandlerLife.to_writer_returns x) p = refl
    handler_amount h (HandlerLife.to_session_returns x) p = refl
    handler_amount h HandlerLife.loop_returns p = refl

    pub prompt-amount : (sys : System eg.Group) (e : Event) → prompt sys e ≡ true → amount e ≡ 1
    prompt-amount sys (session_event e) p =
        session_amount sys.session e (and_split (not (is_wait e)) _ p).1
    prompt-amount sys (handler_event e) p =
        handler_amount sys.handler e (and_split sys.running _ p).1
    prompt-amount sys handler_wait_returns p = refl
