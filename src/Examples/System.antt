-- ===== src/Examples/System.antt =====
-- A session with a stream whose socket fails, to its end.
use ssmlib.Common.{◌≤◌, suc, ◌≡◌, ◌⊎◌, refl, true, false, List, [], ◌∷◌, Option, none, some}
use ssmlib.Errors.{Error, external}
use ssmlib.Session.Life as SessionLife
use ssmlib.Handler.Life as HandlerLife
use ssmlib.System.{System, Event, session_event, handler_event, handler_wait_returns, step}
use ssmlib.System.Parts.{Run, idle, next}
use ssmlib.System.Count.{returns, prompt}
use ssmlib.System.Ending.{IsOver, system_settles}
use ssmlib.Examples.Life.{first_error, lost}

abbrev events : List Event
events =
    session_event (SessionLife.outgoing_returns (external 5))
    ∷ session_event SessionLife.watcher_returns
    ∷ handler_wait_returns
    ∷ handler_event HandlerLife.loop_returns
    ∷ handler_event (HandlerLife.to_session_returns (external 4))
    ∷ handler_event (HandlerLife.to_writer_returns (external 3))
    ∷ handler_event HandlerLife.cleanup_returns
    ∷ handler_event HandlerLife.watcher_returns
    ∷ session_event SessionLife.cleanup_returns
    ∷ session_event (SessionLife.incoming_returns lost)
    ∷ session_event (SessionLife.handler_start_returns none)
    ∷ []

abbrev ended : System (Option Error)
ended = record {
  session = record {
    group = some lost;
    stopped = true;
    socket_closed = true;
    handler_stopped = true;
    cleanup = false;
    watcher = false;
    outgoing = false;
    incoming = false;
    handler = SessionLife.ended;
  };
  handler = record {
    group = some (HandlerLife.stop_requested HandlerLife.stream);
    stopped = true;
    closed = true;
    cleanup = false;
    watcher = false;
    to_writer = false;
    to_session = false;
    loop = false;
  };
  running = true;
}

ended-Run : Run first_error HandlerLife.stream events ended
unfolding step SessionLife.step SessionLife.clean_up HandlerLife.step HandlerLife.wait
    HandlerLife.all_returned
ended-Run =
    next _
      (next _
        (next _
          (next _
            (next _
              (next _ (next _ (next _ (next _ (next _ (next _ idle refl) refl) refl) refl) refl)
                refl)
              refl)
            refl)
          refl)
        refl)
      refl

system_settles_example :
    (returns events ≤ 11)
    × (IsOver first_error HandlerLife.stream ended lost
        ⊎ ((e : Event) × (sys' : System (Option Error)) × (prompt first_error HandlerLife.stream
                ended e
              ≡ true)
            × (step first_error HandlerLife.stream ended e ≡ some sys')
            × (returns (e ∷ events) ≡ suc (returns events))))
system_settles_example = system_settles first_error HandlerLife.stream lost ended-Run refl
