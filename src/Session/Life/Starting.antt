-- ===== src/Session/Life/Starting.antt =====
-- What `Start` of session.go returns once its handler has started or has failed to.
use ssmlib.Common.{
  ◌≡◌, ◌⊎◌, refl, ap, subst, true, false, ◌||◌, List, In, Option, none, some, Option-cases,
  Bool-cases, if◌then◌else◌, inl, inr, arith,
}
use ssmlib.Common.Settle.{PromptRun, Progress, settle}
use ssmlib.Errors.{Error, session_stop_requested}
use ssmlib.Group.{Errgroup}
use ssmlib.Session.Life.{
  HandlerPhase, starting, failing, waiting, ended, Life, Event, stop_called, cleanup_returns,
  watcher_returns, outgoing_returns, incoming_returns, handler_start_returns, failing_returns,
  handler_wait_returns, is_done, clean_up, step, all_returned,
}
use ssmlib.Session.Life.Sound.{IsSound, step-IsSound, Run, idle, next, Run-IsSound}
use ssmlib.Session.Life.Shutdown.{pending, Answers, prompt, is_failing, progress}
use ssmlib.Session.Life.Ending.{pending_falls, all_done}

module _ (eg : Errgroup) where
  open eg use {first}

  -- What `Start` answers after `Handler.Start`; `none` while it blocks in `errgrp.Wait`, which gives
  -- the first error of the group, or nil.
  unfoldable pub start_answer : Option Error → Life eg.Group → Option (Option Error)
  start_answer none s = some none
  start_answer (some e) s = if all_returned eg s then some (first s.group) else none

  -- The handler's failure is on its way to the group, or the group has failed.
  abbrev Failing : Life eg.Group → Type 0
  Failing s = (is_failing s.handler || is_done eg s) ≡ true

  step-Failing : (s s' : Life eg.Group) (e : Event) → Failing s → step eg s e ≡ some s' → Failing s'
  unfolding step clean_up
  step-Failing s s' stop_called v h = ground arith
  step-Failing s s' cleanup_returns v h = ground (arith, eg.first-finish none s.group)
  step-Failing s s' watcher_returns v h =
      ground (arith, eg.first-finish (some session_stop_requested) s.group)
  step-Failing s s' (outgoing_returns e) v h = ground (arith, eg.first-finish (some e) s.group)
  step-Failing s s' (incoming_returns e) v h = ground (arith, eg.first-finish (some e) s.group)
  step-Failing s s' (handler_start_returns r) v h = ground arith
  step-Failing s s' failing_returns v h = grind (arith, eg.first-finish)
  step-Failing s s' (handler_wait_returns r) v h = ground (arith, eg.first-finish r s.group)

  start_fails :
      (s s' : Life eg.Group) (e : Error)
      → step eg s (handler_start_returns (some e)) ≡ some s'
      → Failing s'
  unfolding step
  start_fails s s' e h = ground arith

  Run-Failing :
      {es : List Event} {s : Life eg.Group} (e : Error)
      → Run eg es s
      → In (handler_start_returns (some e)) es
      → Failing s
  Run-Failing e idle i = absurd i
  Run-Failing e (next {s} {s'} x r h) (inl here) =
      start_fails s s' e (subst (λ y. step eg s y ≡ some s') here h)
  Run-Failing e (next {s} {s'} x r h) (inr before) = step-Failing s s' x (Run-Failing e r before) h

  failing_moves :
      (s : Life eg.Group) (p : HandlerPhase)
      → s.handler ≡ p
      → is_failing p ≡ true
      → Progress (step eg) (prompt eg) s
  unfolding step
  failing_moves s starting e f = cc
  failing_moves s (failing x) e f = (
    failing_returns,
    record s { group = eg.finish (some x) s.group; handler = ended },
    ground arith,
    ground arith,
  )
  failing_moves s waiting e f = cc
  failing_moves s ended e f = cc

  goes_on :
      (s : Life eg.Group) (answers : Answers)
      → IsSound eg s
      → Failing s
      → (pending s ≡ 0) ⊎ Progress (step eg) (prompt eg) s
  goes_on s answers v f = elim (Bool-cases (is_done eg s)) [
    | inl done ↦ progress eg s answers v done
    | inr not_yet ↦ inr (failing_moves s s.handler refl (ground arith))
  ]

  cleaned : (s : Life eg.Group) → pending s ≡ 0 → s.cleanup ≡ false
  cleaned s over = ground arith

  over_fails : (s : Life eg.Group) → Failing s → pending s ≡ 0 → first s.group ≡ none → ⊥
  over_fails s f over nothing = ground arith

  first_one :
      (s : Life eg.Group) → Failing s → pending s ≡ 0 → (x : Error) × (first s.group ≡ some x)
  first_one s f over = elim (Option-cases (first s.group)) [
    | inl nothing ↦ absurd (over_fails s f over nothing)
    | inr (x, e) ↦ (x, e)
  ]

  -- A session whose handler fails to start ends by prompt events alone, whatever has happened before
  -- and whatever the goroutines return, and then `Start` returns: the session's first error, never
  -- nil, with the socket closed and the handler stopped.
  pub failed_start_returns :
      {es : List Event} {s : Life eg.Group} (answers : Answers) (e : Error)
      → Run eg es s
      → In (handler_start_returns (some e)) es
      → (last : Life eg.Group) × PromptRun (step eg) (prompt eg) s last
        × ((x : Error) × (start_answer (some e) last ≡ some (some x)) × (first last.group ≡ some x))
        × (last.socket_closed ≡ true)
        × (last.handler_stopped ≡ true)
  unfolding start_answer
  failed_start_returns {s = s} answers e r i =
      let (last, run, over, (sound, failed)) =
        settle (step eg) (prompt eg) pending (λ l. IsSound eg l × Failing l)
          (λ l l' e (v, f) h. (step-IsSound eg l l' e v h, step-Failing l l' e f h))
          (pending_falls eg) (λ l (v, f). goes_on l answers v f) (pending s) s (omega arith)
          (Run-IsSound eg r, Run-Failing e r i) in
      let (x, f) = first_one last failed over in
      let closed = sound.closed_after (cleaned last over) in
      (last, run, (x, rw (all_done eg last over) (ap some f), f), closed.1, closed.2)
