-- ===== src/System.antt =====
-- A `Session` of session.go together with its handler, a `Stream` of handler/stream.go or a
-- `MuxPortForward` of handler/muxPortForward.go: their lives, with the calls `Handler.Stop` and
-- `Handler.Wait` of session.go as what links them.
pub mod Parts
pub mod Links
pub mod Count
pub mod Ending
use ssmlib.Common.{Bool, true, false, ◌||◌, Option, none, some, if◌then◌else◌}
use mathlib.Core.Option
use ssmlib.Errors.{Error}
use ssmlib.Group.{Errgroup}
use ssmlib.Session.Life as SessionLife
use ssmlib.Handler.Life as HandlerLife

-- `running`: `Handler.Start` has passed its goroutines to `Go` and returned nil.
pub record System (G : Type 0) : Type 0 where
  pub session : SessionLife.Life G
  pub handler : HandlerLife.Life G
  pub running : Bool

pub data Event : Type 0 where
  session_event : SessionLife.Event → Event
  handler_event : HandlerLife.Event → Event
  -- `Handler.Wait` returns, and with it the goroutine of the session that called it
  handler_wait_returns : Event

abbrev pub is_nil : Option Error → Bool
is_nil none = true
is_nil (some e) = false

-- The return of `Handler.Wait` is an event of the two.
abbrev pub is_wait : SessionLife.Event → Bool
is_wait (SessionLife.handler_wait_returns r) = true
is_wait e = false

module _ (eg : Errgroup) where
  open eg use {Group}

  abbrev pub begin : System Group
  begin = record { session = SessionLife.begin eg; handler = HandlerLife.begin eg; running = false }

  -- `signalStop` of the handler.
  abbrev pub stop_handler : HandlerLife.Life Group → HandlerLife.Life Group
  stop_handler h = record h { stopped = true }

  -- What an event of the session does to the handler.
  abbrev pub after_session :
      SessionLife.Event → System Group → SessionLife.Life Group → System Group
  after_session SessionLife.cleanup_returns sys s = record sys {
    session = s;
    handler = stop_handler sys.handler;
  }
  after_session (SessionLife.handler_start_returns r) sys s = record sys {
    session = s;
    running = is_nil r;
  }
  after_session e sys s = record sys { session = s }

  abbrev pub on_session : SessionLife.Event → System Group → Option (System Group)
  on_session e sys = Option.map (after_session e sys) (SessionLife.step eg sys.session e)

  -- The goroutines of the handler run once it has started; it can be stopped at any time.
  abbrev pub is_call : HandlerLife.Event → Bool
  is_call HandlerLife.stop_called = true
  is_call e = false

  -- `none` where the event cannot happen.
  unfoldable pub step : HandlerLife.Kind → System Group → Event → Option (System Group)
  step kind sys (session_event e) = if is_wait e then none else on_session e sys
  step kind sys (handler_event e) =
      if is_call e || sys.running
      then Option.map (λ h. record sys { handler = h }) (HandlerLife.step eg kind sys.handler e)
      else none
  step kind sys handler_wait_returns = elim (HandlerLife.wait eg kind sys.handler) [
    | none ↦ none
    | some r ↦ on_session (SessionLife.handler_wait_returns r) sys
  ]
