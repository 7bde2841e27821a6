-- ===== src/System/Links.antt =====
-- What links a `Session` of session.go and its handler while they live.
use ssmlib.Common.{
  ◌≡◌, refl, subst, inl, inr, Bool, ◌||◌, true, false, List, Option, some, Option-cases, if_some,
  map-eq-some, arith,
}
use ssmlib.Errors.{Error}
use ssmlib.Group.{Errgroup}
use ssmlib.Session.Life as SessionLife
use ssmlib.Session.Life.{waiting, starting, failing, ended}
use ssmlib.Session.Life.Shutdown.{is_starting, is_waiting, is_failing}
use ssmlib.Handler.Life as HandlerLife
use ssmlib.System.{
  System, Event, session_event, handler_event, handler_wait_returns, after_session, on_session,
  is_call, is_wait, step,
}
use ssmlib.System.Parts.{Run, idle, next, session_step}

abbrev pub is_ended : SessionLife.HandlerPhase → Bool
is_ended starting = false
is_ended (failing e) = false
is_ended waiting = false
is_ended ended = true

module _ (eg : Errgroup) (kind : HandlerLife.Kind) where
  pub record IsLinked (sys : System eg.Group) : Type 0 where
    -- the clean-up has stopped the handler
    pub stopped_both : sys.session.cleanup ≡ false → sys.handler.stopped ≡ true
    pub not_started :
        (is_starting sys.session.handler || is_failing sys.session.handler) ≡ true
        → sys.running ≡ false
    pub started : is_waiting sys.session.handler ≡ true → sys.running ≡ true
    -- where the handler's `Wait` has returned, its goroutines have
    pub ended_both :
        is_ended sys.session.handler ≡ true
        → sys.running ≡ true
        → HandlerLife.all_returned eg sys.handler ≡ true

  session-IsLinked :
      (e : SessionLife.Event) (sys : System eg.Group) (s : SessionLife.Life eg.Group)
      → (is_wait e ≡ true → HandlerLife.all_returned eg sys.handler ≡ true)
      → IsLinked sys
      → SessionLife.step eg sys.session e ≡ some s
      → IsLinked (after_session eg e sys s)
  unfolding SessionLife.step SessionLife.clean_up HandlerLife.all_returned
  session-IsLinked SessionLife.stop_called sys s k v h = ground arith
  session-IsLinked SessionLife.cleanup_returns sys s k v h = ground arith
  session-IsLinked SessionLife.watcher_returns sys s k v h = ground arith
  session-IsLinked (SessionLife.outgoing_returns e) sys s k v h = ground arith
  session-IsLinked (SessionLife.incoming_returns e) sys s k v h = ground arith
  session-IsLinked (SessionLife.handler_start_returns r) sys s k v h = ground arith
  session-IsLinked SessionLife.failing_returns sys s k v h = ground arith
  session-IsLinked (SessionLife.handler_wait_returns r) sys s k v h = ground arith

  handler-IsLinked :
      (e : HandlerLife.Event) (sys : System eg.Group) (h : HandlerLife.Life eg.Group)
      → IsLinked sys
      → HandlerLife.step eg kind sys.handler e ≡ some h
      → IsLinked (record sys { handler = h })
  unfolding HandlerLife.step HandlerLife.all_returned
  handler-IsLinked HandlerLife.stop_called sys h v m = ground arith
  handler-IsLinked HandlerLife.cleanup_returns sys h v m = ground arith
  handler-IsLinked HandlerLife.watcher_returns sys h v m = ground arith
  handler-IsLinked (HandlerLife.to_writer_returns x) sys h v m = ground arith
  handler-IsLinked (HandlerLife.to_session_returns x) sys h v m = ground arith
  handler-IsLinked HandlerLife.loop_returns sys h v m = ground arith

  wait_all :
      (h : HandlerLife.Life eg.Group) (r : Option Error)
      → HandlerLife.wait eg kind h ≡ some r
      → HandlerLife.all_returned eg h ≡ true
  unfolding HandlerLife.wait
  wait_all h r e = elim (Option-cases (eg.first h.group)) [
    | inl f ↦ cc (rw (f, HandlerLife.wait) at e)
    | inr (x, f) ↦ (if_some (HandlerLife.all_returned eg h) (rw (f, HandlerLife.wait) at e)).0
  ]

  on_session-IsLinked :
      (e : SessionLife.Event) (sys sys' : System eg.Group)
      → (is_wait e ≡ true → HandlerLife.all_returned eg sys.handler ≡ true)
      → IsLinked sys
      → on_session eg e sys ≡ some sys'
      → IsLinked sys'
  on_session-IsLinked e sys sys' k v h =
      let (s, moved, same) =
        map-eq-some (after_session eg e sys) (SessionLife.step eg sys.session e) h in
      subst IsLinked same (session-IsLinked e sys s k v moved)

  step-IsLinked :
      (sys sys' : System eg.Group) (e : Event)
      → IsLinked sys
      → step eg kind sys e ≡ some sys'
      → IsLinked sys'
  unfolding step
  step-IsLinked sys sys' (session_event e) v h =
      let (other, moved) = session_step eg kind e sys sys' h in
      on_session-IsLinked e sys sys' (λ w. cc (other, w)) v moved
  step-IsLinked sys sys' (handler_event e) v h =
      let (l, moved, same) =
        map-eq-some (λ l. record sys { handler = l }) (HandlerLife.step eg kind sys.handler e)
          (if_some (is_call eg e || sys.running) h).1 in
      subst IsLinked same (handler-IsLinked e sys l v moved)
  step-IsLinked sys sys' handler_wait_returns v h =
      elim (Option-cases (HandlerLife.wait eg kind sys.handler)) [
        | inl w ↦ cc (rw (w, step) at h)
        | inr (r, w) ↦
            on_session-IsLinked (SessionLife.handler_wait_returns r) sys sys'
              (λ _. wait_all sys.handler r w) v (rw (w, step) at h)
      ]

  pub Run-IsLinked : {es : List Event} {sys : System eg.Group} → Run eg kind es sys → IsLinked sys
  unfolding HandlerLife.all_returned
  Run-IsLinked idle = record {
    stopped_both = λ h. cc;
    not_started = λ h. refl;
    started = λ h. cc;
    ended_both = λ h k. cc;
  }
  Run-IsLinked (next {sys} {sys'} e r h) = step-IsLinked sys sys' e (Run-IsLinked r) h
