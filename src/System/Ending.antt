-- ===== src/System/Ending.antt =====
-- A `Session` of session.go and its handler end together.
use ssmlib.Common.{
  suc, ◌≤◌, ◌≡◌, ◌⊎◌, refl, ap, inl, inr, ◌||◌, not, true, false, List, ◌∷◌, Option, none, some,
  Option-cases, Bool-cases, map_taken, and_split, and_true, or_true, arith,
}
use mathlib.Core.Option
use ssmlib.Common.Settle.{Progress}
use ssmlib.Errors.{Error}
use ssmlib.Group.{Errgroup, is_some}
use ssmlib.Session.Life as SessionLife
use ssmlib.Session.Life.{starting, failing, waiting, ended}
use ssmlib.Session.Life.Sound as SessionSound
use ssmlib.Session.Life.Shutdown as SessionShutdown
use ssmlib.Session.Life.Shutdown.{Answers, is_starting, is_waiting, is_failing, calls}
use ssmlib.Session.Life.Ending as SessionEnding
use ssmlib.Handler.Life as HandlerLife
use ssmlib.Handler.Life.Shutdown as HandlerShutdown
use ssmlib.Handler.Life.Ending as HandlerEnding
use ssmlib.System.{
  System, Event, session_event, handler_event, handler_wait_returns, after_session, is_call,
  is_wait, step,
}
use ssmlib.System.Parts.{Run, session_life, handler_life}
use ssmlib.System.Links.{IsLinked, is_ended, Run-IsLinked}
use ssmlib.System.Count.{returns, returns_counted, prompt, prompt-amount}

module _ (eg : Errgroup) (kind : HandlerLife.Kind) where
  handler_moves :
      (sys : System eg.Group) (e : HandlerLife.Event) (h : HandlerLife.Life eg.Group)
      → sys.running ≡ true
      → HandlerShutdown.prompt eg kind sys.handler e ≡ true
      → HandlerLife.step eg kind sys.handler e ≡ some h
      → Progress (step eg kind) (prompt eg kind) sys
  unfolding step
  handler_moves sys e h runs p m = (
    handler_event e,
    record sys { handler = h },
    and_true sys.running _ runs p,
    map_taken (λ l. record sys { handler = l }) (is_call eg e || sys.running)
        (HandlerLife.step eg kind sys.handler e) h (or_true (is_call eg e) sys.running runs) m,
  )

  waits_return :
      (s : SessionLife.Life eg.Group) (r : Option Error)
      → s.handler ≡ waiting
      → SessionLife.step eg s (SessionLife.handler_wait_returns r)
        ≡ some (record s { group = eg.finish r s.group; handler = ended })
  unfolding SessionLife.step
  waits_return s r w = ground arith

  wait_moves :
      (sys : System eg.Group) (r : Option Error)
      → sys.session.handler ≡ waiting
      → HandlerLife.wait eg kind sys.handler ≡ some r
      → Progress (step eg kind) (prompt eg kind) sys
  unfolding step
  wait_moves sys r w answer = (
    handler_wait_returns,
    record sys {
      session = record sys.session { group = eg.finish r sys.session.group; handler = ended };
    },
    ap is_waiting w,
    rw (answer, step)
        (ap (Option.map (after_session eg (SessionLife.handler_wait_returns r) sys))
          (waits_return sys.session r w)),
  )

  session_moves :
      (sys : System eg.Group) (e : SessionLife.Event) (s : SessionLife.Life eg.Group)
      → is_wait e ≡ false
      → SessionShutdown.prompt eg sys.session e ≡ true
      → SessionLife.step eg sys.session e ≡ some s
      → Progress (step eg kind) (prompt eg kind) sys
  unfolding step
  session_moves sys e s other p m = (
    session_event e,
    after_session eg e sys s,
    and_true (not (is_wait e)) _ (rw other) p,
    rw (other, step) (ap (Option.map (after_session eg e sys)) m),
  )

  watcher_moves :
      (h : HandlerLife.Life eg.Group)
      → h.watcher ≡ true
      → h.stopped ≡ true
      → HandlerLife.step eg kind h HandlerLife.watcher_returns
        ≡ some (record h {
          group = eg.finish (some (HandlerLife.stop_requested kind)) h.group;
          watcher = false;
        })
  unfolding HandlerLife.step
  watcher_moves h w s = ground arith

  -- A handler that was stopped goes on to its end, and then its `Wait` returns.
  stopped_moves :
      (sys : System eg.Group)
      → HandlerShutdown.IsSound eg kind sys.handler
      → IsLinked eg kind sys
      → sys.session.handler ≡ waiting
      → sys.handler.stopped ≡ true
      → Progress (step eg kind) (prompt eg kind) sys
  stopped_moves sys v l w stopped = elim (Option-cases (eg.first sys.handler.group)) [
    | inl f ↦
        let watching = HandlerEnding.watcher_waits eg kind sys.handler v f in
        handler_moves sys HandlerLife.watcher_returns _ (l.started (ap is_waiting w))
          (and_true sys.handler.watcher sys.handler.stopped watching stopped)
          (watcher_moves sys.handler watching stopped)
    | inr (y, f) ↦ elim (HandlerShutdown.progress eg kind sys.handler y v f) [
      | inl none_left ↦
          wait_moves sys _ w (HandlerEnding.wait_settled eg kind sys.handler y none_left f)
      | inr (e, h, p, m) ↦ handler_moves sys e h (l.started (ap is_waiting w)) p m
    ]
  ]

  -- What is left when nothing is prompt any more.
  abbrev pub IsOver : System eg.Group → Error → Type 0
  IsOver sys x =
      (SessionShutdown.pending sys.session ≡ 0)
      × (SessionLife.wait eg sys.session ≡ some (SessionLife.without_stop x))
      × ((sys.running ≡ false) ⊎ (HandlerLife.all_returned eg sys.handler ≡ true))

  session_over :
      (sys : System eg.Group)
      → IsLinked eg kind sys
      → SessionShutdown.pending sys.session ≡ 0
      → (sys.running ≡ false) ⊎ (HandlerLife.all_returned eg sys.handler ≡ true)
  session_over sys l none_left = elim (Bool-cases sys.running) [
    | inr stopped ↦ inl stopped
    | inl runs ↦ inr (l.ended_both (no_calls sys.session.handler (omega (arith, none_left))) runs)
  ]
    where
      no_calls : (p : SessionLife.HandlerPhase) → calls p ≡ 0 → is_ended p ≡ true
      no_calls starting h = absurd (omega arith)
      no_calls (failing e) h = absurd (omega arith)
      no_calls waiting h = absurd (omega arith)
      no_calls ended h = refl

  phase_of_wait :
      (s : SessionLife.Life eg.Group) (e : SessionLife.Event)
      → is_wait e ≡ true
      → SessionShutdown.prompt eg s e ≡ true
      → (is_waiting s.handler ≡ true) × (s.handler_stopped ≡ true)
  phase_of_wait s (SessionLife.handler_wait_returns r) w p = and_split (is_waiting s.handler) _ p
  phase_of_wait s SessionLife.stop_called w p = cc
  phase_of_wait s SessionLife.cleanup_returns w p = cc
  phase_of_wait s SessionLife.watcher_returns w p = cc
  phase_of_wait s (SessionLife.outgoing_returns x) w p = cc
  phase_of_wait s (SessionLife.incoming_returns x) w p = cc
  phase_of_wait s (SessionLife.handler_start_returns r) w p = cc
  phase_of_wait s SessionLife.failing_returns w p = cc

  waiting_of : (p : SessionLife.HandlerPhase) → is_waiting p ≡ true → p ≡ waiting
  waiting_of starting h = cc
  waiting_of (failing e) h = cc
  waiting_of waiting h = refl
  waiting_of ended h = cc

  progress :
      (sys : System eg.Group) (x : Error) (answers : Answers)
      → SessionSound.IsSound eg sys.session
      → HandlerShutdown.IsSound eg kind sys.handler
      → IsLinked eg kind sys
      → eg.first sys.session.group ≡ some x
      → IsOver sys x ⊎ Progress (step eg kind) (prompt eg kind) sys
  progress sys x answers v w l f =
      elim (SessionShutdown.progress eg sys.session answers v (ap is_some f)) [
        | inl none_left ↦ inl (
          none_left,
          SessionEnding.wait_settled eg sys.session x none_left f,
          session_over sys l none_left,
        )
        | inr (e, s, p, m) ↦ elim (Bool-cases (is_wait e)) [
          | inr other ↦ inr (session_moves sys e s other p m)
          | inl waits ↦
              let (phase, stopped) = phase_of_wait sys.session e waits p in
              inr (
                stopped_moves sys w l (waiting_of sys.session.handler phase)
                  (l.stopped_both (cleaned_up sys.session v stopped)))
        ]
      ]
    where
      cleaned_up :
          (s : SessionLife.Life eg.Group)
          → SessionSound.IsSound eg s
          → s.handler_stopped ≡ true
          → s.cleanup ≡ false
      cleaned_up s v h = ground arith

  -- Once something has failed in a session, whatever has happened so far in it and in its handler:
  -- there were at most eleven returns, of their goroutines, `Handler.Start` and `Handler.Wait`; and
  -- some prompt event of the session or of the handler can happen, which is one more return, or
  -- the session is over, all that runs of its handler has returned, and `Wait` returns the first
  -- error of the session, or nil if that is the one for a requested stop.
  pub system_settles :
      {es : List Event} {sys : System eg.Group} (x : Error)
      → Run eg kind es sys
      → eg.first sys.session.group ≡ some x
      → (returns es ≤ 11)
        × (IsOver sys x
            ⊎ ((e : Event) × (sys' : System eg.Group) × (prompt eg kind sys e ≡ true)
                × (step eg kind sys e ≡ some sys')
                × (returns (e ∷ es) ≡ suc (returns es))))
  system_settles {es} {sys} x r f = (
    omega (arith, returns_counted eg kind r),
    elim (progress sys x any (SessionSound.Run-IsSound eg (session_life eg kind r).1)
        (HandlerShutdown.Run-IsSound eg kind (handler_life eg kind r).1) (Run-IsLinked eg kind r)
        f) [
          | inl over ↦ inl over
          | inr (e, sys', p, h) ↦ inr (e, sys', p, h, omega (arith, prompt-amount eg kind sys e p))
        ],
  )
    where
      any : Answers
      any = record {
        outgoing_error = x;
        incoming_error = x;
        start_result = none;
        wait_result = none;
      }
