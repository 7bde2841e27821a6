-- ===== src/Handler/Life.antt =====
-- What `Stream` of handler/stream.go and `MuxPortForward` of handler/muxPortForward.go have in
-- common from the first goroutine of their `Start` on: a clean-up, a goroutine that waits for the
-- stop, the two copy loops, and one more that runs until the context is done. A handler is the
-- error for a requested stop and what this last goroutine returns, given the cause of the context.
pub mod Shutdown
pub mod Ending
use ssmlib.Common.{Bool, true, false, ◌&&◌, not, Option, none, some, if◌then◌else◌}
use ssmlib.Errors.{Error, stream_stop_requested, mux_stop_requested}
use ssmlib.Group.{Errgroup, is_some}

pub data Kind : Type 0 where
  stream : Kind
  mux_port_forward : Kind

-- `errStreamStopRequested` and `errMuxStopRequested`.
abbrev pub stop_requested : Kind → Error
stop_requested stream = stream_stop_requested
stop_requested mux_port_forward = mux_stop_requested

-- The loop of the terminal size returns nil, the loop of the dial requests the cause.
abbrev pub loop_result : Kind → Option Error → Option Error
loop_result stream cause = none
loop_result mux_port_forward cause = cause

-- `closed` says that the clean-up ran: a `MuxPortForward` closes its smux session and its pipe there.
pub record Life (G : Type 0) : Type 0 where
  pub group : G
  pub stopped : Bool
  pub closed : Bool
  pub cleanup : Bool
  pub watcher : Bool
  pub to_writer : Bool
  pub to_session : Bool
  pub loop : Bool

pub data Event : Type 0 where
  stop_called : Event
  cleanup_returns : Event
  watcher_returns : Event
  -- the two copy loops only ever return errors
  to_writer_returns : Error → Event
  to_session_returns : Error → Event
  loop_returns : Event

-- `if err != errStreamStopRequested`, or the other one.
abbrev pub without_stop : Kind → Error → Option Error
without_stop stream stream_stop_requested = none
without_stop stream e = some e
without_stop mux_port_forward mux_stop_requested = none
without_stop mux_port_forward e = some e

module _ (eg : Errgroup) where
  open eg use {Group, fresh, finish, first}

  -- `Start` has passed its goroutines to `Go`.
  abbrev pub begin : Life Group
  begin = record {
    group = fresh;
    stopped = false;
    closed = false;
    cleanup = true;
    watcher = true;
    to_writer = true;
    to_session = true;
    loop = true;
  }

  -- `<-errctx.Done()`.
  abbrev pub is_done : Life Group → Bool
  is_done s = is_some (first s.group)

  -- `none` where the event cannot happen.
  unfoldable pub step : Kind → Life Group → Event → Option (Life Group)
  step kind s stop_called = some (record s { stopped = true })
  step kind s cleanup_returns =
      if s.cleanup && is_done s
      then some
          (record s { group = finish none s.group; stopped = true; closed = true; cleanup = false })
      else none
  step kind s watcher_returns =
      if s.watcher && s.stopped
      then some (record s { group = finish (some (stop_requested kind)) s.group; watcher = false })
      else none
  step kind s (to_writer_returns e) =
      if s.to_writer
      then some (record s { group = finish (some e) s.group; to_writer = false })
      else none
  step kind s (to_session_returns e) =
      if s.to_session
      then some (record s { group = finish (some e) s.group; to_session = false })
      else none
  step kind s loop_returns =
      if s.loop && is_done s
      then some
          (record s { group = finish (loop_result kind (first s.group)) s.group; loop = false })
      else none

  unfoldable pub all_returned : Life Group → Bool
  all_returned s =
      not s.cleanup && (not s.watcher && (not s.to_writer && (not s.to_session && not s.loop)))

  -- `Wait` with a context that is never done: `none` while it blocks, and else what it returns.
  unfoldable pub wait : Kind → Life Group → Option (Option Error)
  unfolding all_returned
  wait kind s = elim (first s.group) [
    | none ↦ none
    | some e ↦ if all_returned s then some (without_stop kind e) else none
  ]
