-- ===== src/Session/Life/Shutdown.antt =====
-- How a `Session` of session.go ends.
use ssmlib.Common.{
  ℕ, suc, ◌+◌, ◌≡◌, ◌⊎◌, refl, ap, ◌∙◌, Bool, true, false, ◌&&◌, List, [], ◌∷◌, Option, none, some,
  Bool-cases, inl, inr, arith,
}
use ssmlib.Common.Settle.{Progress}
use ssmlib.Errors.{Error, session_stop_requested}
use ssmlib.Group.{Errgroup}
use ssmlib.Session.Life.{
  after_start, HandlerPhase, starting, failing, waiting, ended, Life, Event, stop_called,
  cleanup_returns, watcher_returns, outgoing_returns, incoming_returns, handler_start_returns,
  failing_returns, handler_wait_returns, is_done, clean_up, step,
}
use ssmlib.Session.Life.Sound.{IsSound, Run, idle, next}

abbrev pub flag : Bool → ℕ
flag true = 1
flag false = 0

abbrev pub calls : HandlerPhase → ℕ
calls starting = 2
calls (failing e) = 1
calls waiting = 1
calls ended = 0

-- How many returns are to come.
abbrev pub pending : {G : Type 0} → Life G → ℕ
pending s = flag s.cleanup + flag s.watcher + flag s.outgoing + flag s.incoming + calls s.handler

abbrev pub returns : List Event → ℕ
returns [] = 0
returns (stop_called ∷ es) = returns es
returns (cleanup_returns ∷ es) = suc (returns es)
returns (watcher_returns ∷ es) = suc (returns es)
returns (outgoing_returns e ∷ es) = suc (returns es)
returns (incoming_returns e ∷ es) = suc (returns es)
returns (handler_start_returns r ∷ es) = suc (returns es)
returns (failing_returns ∷ es) = suc (returns es)
returns (handler_wait_returns r ∷ es) = suc (returns es)

abbrev pub is_starting : HandlerPhase → Bool
is_starting starting = true
is_starting (failing e) = false
is_starting waiting = false
is_starting ended = false

abbrev pub is_waiting : HandlerPhase → Bool
is_waiting starting = false
is_waiting (failing e) = false
is_waiting waiting = true
is_waiting ended = false

abbrev pub is_failing : HandlerPhase → Bool
is_failing starting = false
is_failing (failing e) = true
is_failing waiting = false
is_failing ended = false

-- What the goroutines that have yet to return will answer.
pub record Answers : Type 0 where
  pub outgoing_error : Error
  pub incoming_error : Error
  pub start_result : Option Error
  pub wait_result : Option Error

module _ (eg : Errgroup) where
  -- The code itself makes the event happen, with no other call from outside: what the goroutine
  -- waits for has come. A read of a closed socket fails, and a handler that was stopped returns.
  abbrev pub prompt : Life eg.Group → Event → Bool
  prompt s stop_called = false
  prompt s cleanup_returns = s.cleanup && is_done eg s
  prompt s watcher_returns = s.watcher && s.stopped
  prompt s (outgoing_returns e) = s.outgoing && is_done eg s
  prompt s (incoming_returns e) = s.incoming && s.socket_closed
  prompt s (handler_start_returns r) = is_starting s.handler && is_done eg s
  prompt s failing_returns = is_failing s.handler
  prompt s (handler_wait_returns r) = is_waiting s.handler && s.handler_stopped

  abbrev pub first_of : Life eg.Group → Option Error
  first_of s = eg.first s.group

  pub pending-step :
      (s s' : Life eg.Group) (e : Event) (es : List Event)
      → step eg s e ≡ some s'
      → returns (e ∷ es) + pending s' ≡ returns es + pending s
  unfolding step clean_up
  pending-step s s' stop_called es h = ground arith
  pending-step s s' cleanup_returns es h = ground arith
  pending-step s s' watcher_returns es h = ground arith
  pending-step s s' (outgoing_returns e) es h = ground arith
  pending-step s s' (incoming_returns e) es h = ground arith
  pending-step s s' (handler_start_returns r) es h = ground arith
  pending-step s s' failing_returns es h = ground arith
  pending-step s s' (handler_wait_returns r) es h = ground arith

  -- What has returned and what is to return.
  pub returns_bounded :
      {es : List Event} {s : Life eg.Group} → Run eg es s → returns es + pending s ≡ 6
  returns_bounded idle = refl
  returns_bounded (next {es} {s} {s'} e r h) = pending-step s s' e es h ∙ returns_bounded r

  pub step-first :
      (s s' : Life eg.Group) (e : Event) (x : Error)
      → first_of s ≡ some x
      → step eg s e ≡ some s'
      → first_of s' ≡ some x
  unfolding step clean_up
  step-first s s' stop_called x f h = ground arith
  step-first s s' cleanup_returns x f h = ground (arith, eg.first-finish none s.group)
  step-first s s' watcher_returns x f h =
      ground (arith, eg.first-finish (some session_stop_requested) s.group)
  step-first s s' (outgoing_returns e) x f h = ground (arith, eg.first-finish (some e) s.group)
  step-first s s' (incoming_returns e) x f h = ground (arith, eg.first-finish (some e) s.group)
  step-first s s' (handler_start_returns r) x f h = ground arith
  step-first s s' failing_returns x f h = grind (arith, eg.first-finish)
  step-first s s' (handler_wait_returns r) x f h = ground (arith, eg.first-finish r s.group)

  handler_moves :
      (s : Life eg.Group) (p : HandlerPhase) (answers : Answers)
      → s.handler ≡ p
      → is_done eg s ≡ true
      → s.handler_stopped ≡ true
      → (calls s.handler ≡ 0) ⊎ Progress (step eg) prompt s
  unfolding step
  handler_moves s starting answers e done stopped = inr (
    handler_start_returns answers.start_result,
    record s { handler = after_start eg answers.start_result },
    ground arith,
    ground arith,
  )
  handler_moves s (failing x) answers e done stopped = inr (
    failing_returns,
    record s { group = eg.finish (some x) s.group; handler = ended },
    ground arith,
    ground arith,
  )
  handler_moves s waiting answers e done stopped = inr (
    handler_wait_returns answers.wait_result,
    record s { group = eg.finish answers.wait_result s.group; handler = ended },
    ground arith,
    ground arith,
  )
  handler_moves s ended answers e done stopped = inl (ap calls e)

  -- Once the context is done, some prompt event can happen until all have returned.
  pub progress :
      (s : Life eg.Group) (answers : Answers)
      → IsSound eg s
      → is_done eg s ≡ true
      → (pending s ≡ 0) ⊎ Progress (step eg) prompt s
  unfolding step
  progress s answers v done = elim (Bool-cases s.cleanup) [
    | inl c ↦ inr (cleanup_returns, clean_up eg s, ground arith, ground arith)
    | inr c ↦
        let closed = v.closed_after c in
        elim (Bool-cases s.watcher) [
          | inl w ↦ inr (
            watcher_returns,
            record s { group = eg.finish (some session_stop_requested) s.group; watcher = false },
            ground arith,
            ground arith,
          )
          | inr w ↦ elim (Bool-cases s.outgoing) [
            | inl o ↦ inr (
              outgoing_returns answers.outgoing_error,
              record s {
                group = eg.finish (some answers.outgoing_error) s.group;
                outgoing = false;
              },
              ground arith,
              ground arith,
            )
            | inr o ↦ elim (Bool-cases s.incoming) [
              | inl i ↦ inr (
                incoming_returns answers.incoming_error,
                record s {
                  group = eg.finish (some answers.incoming_error) s.group;
                  incoming = false;
                },
                ground arith,
                ground arith,
              )
              | inr i ↦ elim (handler_moves s s.handler answers refl done closed.2) [
                | inl none_left ↦ inl (ground arith)
                | inr more ↦ inr more
              ]
            ]
          ]
        ]
  ]
