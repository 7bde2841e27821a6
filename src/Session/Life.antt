-- ===== src/Session/Life.antt =====
-- The life of a `Session` of session.go from the first goroutine of `Start` on. The goroutines are
-- flags of one record, and an event is one of them that returns, the end of `Handler.Start`, or a
-- call of `Stop`.
pub mod Sound
pub mod Shutdown
pub mod Ending
pub mod Phases
pub mod Waiting
pub mod Starting
use ssmlib.Common.{Bool, true, false, ◌&&◌, not, Option, none, some, if◌then◌else◌}
use ssmlib.Errors.{Error, session_stop_requested, handler_start_failed}
use ssmlib.Group.{Errgroup, is_some}

-- Where the code that calls the handler is: in `Handler.Start`, in the goroutine that returns its
-- error, in the goroutine that has called `Handler.Wait`, or at its end.
pub data HandlerPhase : Type 0 where
  starting : HandlerPhase
  failing : Error → HandlerPhase
  waiting : HandlerPhase
  ended : HandlerPhase

-- `stopped` is a closed channel. The next two say that `ws.Close` and `Handler.Stop` were called,
-- and the flags behind them which goroutines run.
pub record Life (G : Type 0) : Type 0 where
  pub group : G
  pub stopped : Bool
  pub socket_closed : Bool
  pub handler_stopped : Bool
  pub cleanup : Bool
  pub watcher : Bool
  pub outgoing : Bool
  pub incoming : Bool
  pub handler : HandlerPhase

pub data Event : Type 0 where
  stop_called : Event
  cleanup_returns : Event
  watcher_returns : Event
  -- the two loops only ever return errors
  outgoing_returns : Error → Event
  incoming_returns : Error → Event
  handler_start_returns : Option Error → Event
  failing_returns : Event
  handler_wait_returns : Option Error → Event

-- `if err != errSessionStopRequested`.
abbrev pub without_stop : Error → Option Error
without_stop session_stop_requested = none
without_stop e = some e

module _ (eg : Errgroup) where
  open eg use {Group, fresh, finish, first}

  -- `Start` has passed the first four goroutines to `Go` and calls `Handler.Start`.
  abbrev pub begin : Life Group
  begin = record {
    group = fresh;
    stopped = false;
    socket_closed = false;
    handler_stopped = false;
    cleanup = true;
    watcher = true;
    outgoing = true;
    incoming = true;
    handler = starting;
  }

  -- `<-s.errctx.Done()`.
  abbrev pub is_done : Life Group → Bool
  is_done s = is_some (first s.group)

  -- After `<-s.errctx.Done()` of the first goroutine.
  unfoldable pub clean_up : Life Group → Life Group
  clean_up s = record s {
    group = finish none s.group;
    stopped = true;
    socket_closed = true;
    handler_stopped = true;
    cleanup = false;
  }

  -- What follows the call of `Handler.Start`.
  abbrev pub after_start : Option Error → HandlerPhase
  after_start none = waiting
  after_start (some e) = failing (handler_start_failed e)

  abbrev pub on_handler_start : Option Error → HandlerPhase → Life Group → Option (Life Group)
  on_handler_start r starting s = some (record s { handler = after_start r })
  on_handler_start r (failing e) s = none
  on_handler_start r waiting s = none
  on_handler_start r ended s = none

  abbrev pub on_failing : HandlerPhase → Life Group → Option (Life Group)
  on_failing starting s = none
  on_failing (failing e) s = some (record s { group = finish (some e) s.group; handler = ended })
  on_failing waiting s = none
  on_failing ended s = none

  abbrev pub on_handler_wait : Option Error → HandlerPhase → Life Group → Option (Life Group)
  on_handler_wait r starting s = none
  on_handler_wait r (failing e) s = none
  on_handler_wait r waiting s = some (record s { group = finish r s.group; handler = ended })
  on_handler_wait r ended s = none

  -- `none` where the event cannot happen.
  unfoldable pub step : Life Group → Event → Option (Life Group)
  unfolding clean_up
  step s stop_called = some (record s { stopped = true })
  step s cleanup_returns = if s.cleanup && is_done s then some (clean_up s) else none
  step s watcher_returns =
      if s.watcher && s.stopped
      then some (record s { group = finish (some session_stop_requested) s.group; watcher = false })
      else none
  step s (outgoing_returns e) =
      if s.outgoing
      then some (record s { group = finish (some e) s.group; outgoing = false })
      else none
  step s (incoming_returns e) =
      if s.incoming
      then some (record s { group = finish (some e) s.group; incoming = false })
      else none
  step s (handler_start_returns r) = on_handler_start r s.handler s
  step s failing_returns = on_failing s.handler s
  step s (handler_wait_returns r) = on_handler_wait r s.handler s

  -- Every goroutine has returned.
  abbrev pub has_returned : HandlerPhase → Bool
  has_returned starting = true
  has_returned (failing e) = false
  has_returned waiting = false
  has_returned ended = true

  unfoldable pub all_returned : Life Group → Bool
  all_returned s =
      not s.cleanup
      && (not s.watcher && (not s.outgoing && (not s.incoming && has_returned s.handler)))

  -- `Wait` with a context that is never done: `none` while it blocks, and else what it returns.
  unfoldable pub wait : Life Group → Option (Option Error)
  unfolding all_returned
  wait s = elim (first s.group) [
    | none ↦ none
    | some e ↦ if all_returned s then some (without_stop e) else none
  ]
