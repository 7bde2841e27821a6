-- ===== src/Session/Life/Ending.antt =====
-- A `Session` of session.go ends once anything fails or it is stopped, and what `Wait` returns.
use ssmlib.Common.{
  suc, ◌≤◌, ◌≡◌, ◌⊎◌, ◌∷◌, refl, ap, ◌∙◌, true, false, List, [], Option, none, some, Bool-cases,
  subst, inl, inr, arith,
}
use ssmlib.Common.Settle.{PromptRun, settle, prepend}
use ssmlib.Errors.{Error, session_stop_requested}
use ssmlib.Group.{Errgroup, is_some}
use ssmlib.Session.Life.{
  waiting, ended, Life, Event, stop_called, cleanup_returns, watcher_returns, outgoing_returns,
  incoming_returns, handler_start_returns, failing_returns, handler_wait_returns, step,
  all_returned, without_stop, wait,
}
use ssmlib.Session.Life.Sound.{IsSound, step-IsSound, Run, Run-IsSound}
use ssmlib.Session.Life.Shutdown.{
  pending, returns, returns_bounded, Answers, prompt, pending-step, first_of, step-first, progress,
}

module _ (eg : Errgroup) where
  pub pending_falls :
      (s s' : Life eg.Group) (e : Event)
      → prompt eg s e ≡ true
      → step eg s e ≡ some s'
      → suc (pending s') ≡ pending s
  pending_falls s s' stop_called p h = cc
  pending_falls s s' cleanup_returns p h = omega (arith, pending-step eg s s' cleanup_returns [] h)
  pending_falls s s' watcher_returns p h = omega (arith, pending-step eg s s' watcher_returns [] h)
  pending_falls s s' (outgoing_returns e) p h =
      omega (arith, pending-step eg s s' (outgoing_returns e) [] h)
  pending_falls s s' (incoming_returns e) p h =
      omega (arith, pending-step eg s s' (incoming_returns e) [] h)
  pending_falls s s' (handler_start_returns r) p h =
      omega (arith, pending-step eg s s' (handler_start_returns r) [] h)
  pending_falls s s' failing_returns p h = omega (arith, pending-step eg s s' failing_returns [] h)
  pending_falls s s' (handler_wait_returns r) p h =
      omega (arith, pending-step eg s s' (handler_wait_returns r) [] h)

  pub all_done : (s : Life eg.Group) → pending s ≡ 0 → all_returned eg s ≡ true
  unfolding all_returned
  all_done s none_left = ground arith

  pub wait_settled :
      (s : Life eg.Group) (x : Error)
      → pending s ≡ 0
      → first_of eg s ≡ some x
      → wait eg s ≡ some (without_stop x)
  unfolding wait all_returned
  wait_settled s x none_left f = rw (f, wait) (rw (all_done s none_left))

  -- Prompt events alone lead to a life in which all have returned, and there `Wait` returns
  -- `answer`.
  abbrev pub Ends : Life eg.Group → Option Error → Type 0
  Ends s answer =
      (s' : Life eg.Group) × PromptRun (step eg) (prompt eg) s s'
      × (pending s' ≡ 0)
      × (wait eg s' ≡ some answer)

  sound-Ends :
      (s : Life eg.Group) (x : Error) (answers : Answers)
      → IsSound eg s
      → eg.first s.group ≡ some x
      → Ends s (without_stop x)
  sound-Ends s x answers v f =
      let (last, run, done, (sound, failed)) =
        settle (step eg) (prompt eg) pending (λ l. IsSound eg l × (eg.first l.group ≡ some x))
          (λ l l' e (v', f') h. (step-IsSound eg l l' e v' h, step-first eg l l' e x f' h))
          pending_falls (λ l (v', f'). progress eg l answers v' (ap is_some f')) (pending s) s
          (omega arith) (v, f) in
      (last, run, done, wait_settled last x done failed)

  -- Once something has failed in a session, whatever has happened so far: there were at most six
  -- returns, of the goroutines and of `Handler.Start`; and some prompt event can happen, which is
  -- one more return, or all six have happened and `Wait` returns the first error, or nil if that is
  -- the one for a requested stop.
  pub session_settles :
      {es : List Event} {s : Life eg.Group} (x : Error)
      → Run eg es s
      → eg.first s.group ≡ some x
      → (returns es ≤ 6)
        × (((e : Event) × (s' : Life eg.Group) × (prompt eg s e ≡ true)
              × (step eg s e ≡ some s')
              × (returns (e ∷ es) ≡ suc (returns es)))
            ⊎ ((returns es ≡ 6) × (wait eg s ≡ some (without_stop x))))
  session_settles {es} {s} x r f = (
    omega (arith, returns_bounded eg r),
    elim (progress eg s any (Run-IsSound eg r) (ap is_some f)) [
      | inl none_left ↦
          inr (omega (arith, returns_bounded eg r, none_left), wait_settled s x none_left f)
      | inr (e, s', p, h) ↦
          inl (e, s', p, h, omega (arith, pending-step eg s s' e es h, pending_falls s s' e p h))
    ],
  )
    where
      any : Answers
      any = record {
        outgoing_error = x;
        incoming_error = x;
        start_result = none;
        wait_result = none;
      }

  -- In a session in which nothing has failed, the watcher has not returned.
  watcher_waits : (s : Life eg.Group) → IsSound eg s → eg.first s.group ≡ none → s.watcher ≡ true
  watcher_waits s v f = elim (Bool-cases s.watcher) [
    | inl w ↦ w
    | inr w ↦ cc (v.watcher_fails w, ap is_some f)
  ]

  -- A session in which nothing has failed can end by prompt events alone after a call of `Stop`,
  -- and `Wait` then returns nil.
  pub stopped-Ends :
      {es : List Event} {s s' : Life eg.Group} (answers : Answers)
      → Run eg es s
      → eg.first s.group ≡ none
      → step eg s stop_called ≡ some s'
      → Ends s' none
  unfolding step
  stopped-Ends {es} {s} {s'} answers r f h =
      let same : record s { stopped = true } ≡ s' = cc in
      let v = Run-IsSound eg r in
      let stopped_life : Life eg.Group = record s { stopped = true } in
      let t : Life eg.Group = record stopped_life {
        group = eg.finish (some session_stop_requested) s.group;
        watcher = false;
      } in
      let w = watcher_waits s v f in
      let first_error : eg.first t.group ≡ some session_stop_requested =
        eg.first-finish (some session_stop_requested) s.group ∙ rw f in
      let moves : step eg stopped_life watcher_returns ≡ some t = rw w in
      let v' =
        step-IsSound eg stopped_life t watcher_returns
          (step-IsSound eg s stopped_life stop_called v refl) moves in
      let (last, run, all, answer) = sound-Ends t session_stop_requested answers v' first_error in
      subst (λ (l : Life eg.Group). Ends l none) same
        (last, prepend (step eg) (prompt eg) watcher_returns (rw w) moves run, all, answer)

  socket_open :
      (s : Life eg.Group) → IsSound eg s → eg.first s.group ≡ none → s.socket_closed ≡ false
  socket_open s v f = elim (Bool-cases s.cleanup) [
    | inl c ↦ (v.open_before c).0
    | inr c ↦ cc ((v.closed_after c).3, ap is_some f)
  ]

  nothing_prompt :
      (s : Life eg.Group) (e : Event)
      → eg.first s.group ≡ none
      → s.stopped ≡ false
      → s.socket_closed ≡ false
      → s.handler ≡ ended
      → prompt eg s e ≡ false
  nothing_prompt s stop_called f h c p = refl
  nothing_prompt s cleanup_returns f h c p = ground arith
  nothing_prompt s watcher_returns f h c p = ground arith
  nothing_prompt s (outgoing_returns e) f h c p = ground arith
  nothing_prompt s (incoming_returns e) f h c p = ground arith
  nothing_prompt s (handler_start_returns r) f h c p = ground arith
  nothing_prompt s failing_returns f h c p = ground arith
  nothing_prompt s (handler_wait_returns r) f h c p = ground arith

  -- A handler whose `Wait` returns nil while nothing has failed and nobody has called `Stop` does
  -- not end the session: no event happens by itself any more, and `Wait` blocks.
  pub nil_handler_stalls :
      {es : List Event} {s : Life eg.Group}
      → Run eg es s
      → eg.first s.group ≡ none
      → s.stopped ≡ false
      → s.handler ≡ waiting
      → (s' : Life eg.Group) × (step eg s (handler_wait_returns none) ≡ some s')
        × ((e : Event) → prompt eg s' e ≡ false)
        × (wait eg s' ≡ none)
  unfolding step wait
  nil_handler_stalls {es} {s} r f open_still w =
      let v = Run-IsSound eg r in
      let still : eg.first (eg.finish none s.group) ≡ none = eg.first-finish none s.group ∙ rw f in
      (
        record s { group = eg.finish none s.group; handler = ended },
        rw w,
        λ e.
            nothing_prompt (record s { group = eg.finish none s.group; handler = ended }) e still
              open_still (socket_open s v f) refl,
        rw (still, wait),
      )
