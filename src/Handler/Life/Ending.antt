-- ===== src/Handler/Life/Ending.antt =====
-- A handler of handler/stream.go or handler/muxPortForward.go ends once anything fails or it is
-- stopped, and what its `Wait` returns.
use ssmlib.Common.{◌≡◌, refl, ◌∙◌, subst, true, false, List, Option, none, some, inl, inr, arith}
use ssmlib.Errors.{Error}
use ssmlib.Common.Settle.{PromptRun, settle, prepend}
use ssmlib.Group.{Errgroup}
use ssmlib.Handler.Life.{
  Kind, stream, mux_port_forward, stop_requested, Life, Event, stop_called, watcher_returns, step,
  all_returned, without_stop, wait,
}
use ssmlib.Handler.Life.Shutdown.{
  pending, prompt, Run, IsSound, step-IsSound, Run-IsSound, step-first, pending_falls, progress,
}

stop_answer : (kind : Kind) → without_stop kind (stop_requested kind) ≡ none
stop_answer stream = refl
stop_answer mux_port_forward = refl

module _ (eg : Errgroup) (kind : Kind) where
  all_done : (s : Life eg.Group) → pending s ≡ 0 → all_returned eg s ≡ true
  unfolding all_returned
  all_done s none_left = ground arith

  pub wait_settled :
      (s : Life eg.Group) (x : Error)
      → pending s ≡ 0
      → eg.first s.group ≡ some x
      → wait eg kind s ≡ some (without_stop kind x)
  unfolding wait all_returned
  wait_settled s x none_left f = rw (f, wait) (rw (all_done s none_left))

  -- Prompt events alone lead to a life in which all have returned, and there `Wait` returns
  -- `answer`.
  abbrev pub Ends : Life eg.Group → Option Error → Type 0
  Ends s answer =
      (s' : Life eg.Group) × PromptRun (step eg kind) (prompt eg kind) s s'
      × (pending s' ≡ 0)
      × (wait eg kind s' ≡ some answer)

  sound-Ends :
      (s : Life eg.Group) (x : Error)
      → IsSound eg kind s
      → eg.first s.group ≡ some x
      → Ends s (without_stop kind x)
  sound-Ends s x v f =
      let (last, run, done, (sound, failed)) =
        settle (step eg kind) (prompt eg kind) pending
          (λ l. IsSound eg kind l × (eg.first l.group ≡ some x))
          (λ l l' e (v', f') h.
            (step-IsSound eg kind l l' e v' h, step-first eg kind l l' e x f' h))
          (pending_falls eg kind) (λ l (v', f'). progress eg kind l x v' f') (pending s) s
          (omega arith) (v, f) in
      (last, run, done, wait_settled last x done failed)

  -- Once something has failed, a handler in which no event is prompt has ended: all goroutines have
  -- returned, and `Wait` returns the first error, or nil if that is the handler's own for a
  -- requested stop.
  pub handler_quiet_has_ended :
      {es : List Event} {s : Life eg.Group} (x : Error)
      → Run eg kind es s
      → eg.first s.group ≡ some x
      → ((e : Event) → prompt eg kind s e ≡ false)
      → (pending s ≡ 0) × (wait eg kind s ≡ some (without_stop kind x))
  handler_quiet_has_ended {es} {s} x r f quiet =
      elim (progress eg kind s x (Run-IsSound eg kind r) f) [
        | inl none_left ↦ (none_left, wait_settled s x none_left f)
        | inr (e, s', p, h) ↦ cc (quiet e, p)
      ]

  pub watcher_waits :
      (s : Life eg.Group) → IsSound eg kind s → eg.first s.group ≡ none → s.watcher ≡ true
  watcher_waits s v f = ground arith

  -- A handler in which nothing has failed can end by prompt events alone after a call of `Stop`,
  -- and its `Wait` then returns nil.
  pub handler_stopped-Ends :
      {es : List Event} {s s' : Life eg.Group}
      → Run eg kind es s
      → eg.first s.group ≡ none
      → step eg kind s stop_called ≡ some s'
      → Ends s' none
  unfolding step
  handler_stopped-Ends {es} {s} {s'} r f h =
      let same : record s { stopped = true } ≡ s' = cc in
      let v = Run-IsSound eg kind r in
      let stopped_life : Life eg.Group = record s { stopped = true } in
      let t : Life eg.Group = record stopped_life {
        group = eg.finish (some (stop_requested kind)) s.group;
        watcher = false;
      } in
      let w = watcher_waits s v f in
      let first_error : eg.first t.group ≡ some (stop_requested kind) =
        eg.first-finish (some (stop_requested kind)) s.group ∙ rw f in
      let moves : step eg kind stopped_life watcher_returns ≡ some t = rw w in
      let v' =
        step-IsSound eg kind stopped_life t watcher_returns
          (step-IsSound eg kind s stopped_life stop_called v refl) moves in
      let (last, run, all, answer) = sound-Ends t (stop_requested kind) v' first_error in
      subst (λ (l : Life eg.Group). Ends l none) same
        (
          last,
          prepend (step eg kind) (prompt eg kind) watcher_returns (rw w) moves run,
          all,
          answer ∙ rw (stop_answer kind),
        )
