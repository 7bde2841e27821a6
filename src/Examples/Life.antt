-- ===== src/Examples/Life.antt =====
-- Lives of a session and of a handler, and the connection of a session, on concrete input.
use ssmlib.Common.{
  ◌≤◌, suc, ◌⊎◌, ◌≡◌, ◌↔◌, refl, Bytes, codes, true, false, List, [], ◌∷◌, Option, none, some,
}
use ssmlib.Errors.{Error, external}
use ssmlib.Group.{Errgroup, or_else}
use ssmlib.Messages.Create.{ok}
use ssmlib.Session.Life
use ssmlib.Session.Life.Sound
use ssmlib.Session.Life.Shutdown
use ssmlib.Session.Life.Ending
use ssmlib.Session.Life.Phases
use ssmlib.Session.Nop.{NopRun, idle, next, nop_init, nop_wait, when_stopped, nop_returns_late}
use ssmlib.Session.Connect.{Dialer, open_data_channel, connect, Succeeds, connect_iff}
use ssmlib.Handler.Life as HandlerLife
use ssmlib.Handler.Life.Ending as HandlerEnding
use ssmlib.Handler.Life.Shutdown as HandlerShutdown

-- A group is its first error.
abbrev pub first_error : Errgroup
first_error = record {
  Group = Option Error;
  fresh = none;
  finish = λ r g. or_else g r;
  first = λ g. g;
  first-fresh = refl;
  first-finish = λ r g. refl;
}

-- The socket fails, and then everything returns.
abbrev pub lost : Error
lost = external 1

abbrev all_events : List Life.Event
all_events =
    Life.handler_wait_returns none
    ∷ Life.handler_start_returns none
    ∷ Life.outgoing_returns (external 2)
    ∷ Life.watcher_returns
    ∷ Life.cleanup_returns
    ∷ Life.incoming_returns lost
    ∷ []

abbrev ended_life : Life.Life (Option Error)
ended_life = record {
  group = some lost;
  stopped = true;
  socket_closed = true;
  handler_stopped = true;
  cleanup = false;
  watcher = false;
  outgoing = false;
  incoming = false;
  handler = Life.ended;
}

abbrev waiting_life : Life.Life (Option Error)
waiting_life = record (Life.begin first_error) { handler = Life.waiting }

waiting_life-Run : Sound.Run first_error (Life.handler_start_returns none ∷ []) waiting_life
unfolding Life.step
waiting_life-Run = Sound.next (Life.handler_start_returns none) Sound.idle refl

-- The socket fails once the handler runs.
abbrev lost_life : Life.Life (Option Error)
lost_life = record waiting_life { group = some lost; incoming = false }

-- Before the handler has returned.
abbrev closing_life : Life.Life (Option Error)
closing_life = record ended_life { handler = Life.waiting }

closing_life-Run :
    Sound.Run first_error
      (Life.handler_start_returns none
        ∷ Life.outgoing_returns (external 2)
        ∷ Life.watcher_returns
        ∷ Life.cleanup_returns
        ∷ Life.incoming_returns lost
        ∷ [])
      closing_life
unfolding Life.step Life.clean_up
closing_life-Run =
    Sound.next (Life.handler_start_returns none)
      (Sound.next (Life.outgoing_returns (external 2))
        (Sound.next Life.watcher_returns
          (Sound.next Life.cleanup_returns (Sound.next (Life.incoming_returns lost) Sound.idle refl)
            refl)
          refl)
        refl)
      refl

ended_life-Run : Sound.Run first_error all_events ended_life
unfolding Life.step
ended_life-Run = Sound.next (Life.handler_wait_returns none) closing_life-Run refl

session_settles_example :
    (Shutdown.returns all_events ≤ 6)
    × (((e : Life.Event) × (s' : Life.Life (Option Error)) × (Shutdown.prompt first_error ended_life
              e
            ≡ true)
          × (Life.step first_error ended_life e ≡ some s')
          × (Shutdown.returns (e ∷ all_events) ≡ suc (Shutdown.returns all_events)))
        ⊎ ((Shutdown.returns all_events ≡ 6)
            × (Life.wait first_error ended_life ≡ some (some lost))))
session_settles_example = Ending.session_settles first_error lost ended_life-Run refl

life_refines_example :
    Phases.Move (Phases.closing lost) (Phases.over lost)
    × (Life.wait first_error ended_life ≡ some (some lost))
    × Phases.Closes (Phases.over lost) ended_life
unfolding Life.step
life_refines_example =
    Phases.life_refines first_error {s = closing_life} {s' = ended_life}
      (Life.handler_wait_returns none) closing_life-Run refl

abbrev stopped_life : Life.Life (Option Error)
stopped_life = record waiting_life { stopped = true }

abbrev answers : Shutdown.Answers
answers = record {
  outgoing_error = external 2;
  incoming_error = external 3;
  start_result = none;
  wait_result = none;
}

stopped-Ends_example : Ending.Ends first_error stopped_life none
unfolding Life.step
stopped-Ends_example = Ending.stopped-Ends first_error answers waiting_life-Run refl refl

nil_handler_stalls_example :
    (s' : Life.Life (Option Error)) × (Life.step first_error waiting_life
        (Life.handler_wait_returns none)
      ≡ some s')
    × ((e : Life.Event) → Shutdown.prompt first_error s' e ≡ false)
    × (Life.wait first_error s' ≡ none)
nil_handler_stalls_example = Ending.nil_handler_stalls first_error waiting_life-Run refl refl refl

-- A handler whose reader fails.
abbrev read_events : List HandlerLife.Event
read_events =
    HandlerLife.loop_returns
    ∷ HandlerLife.to_writer_returns (external 2)
    ∷ HandlerLife.watcher_returns
    ∷ HandlerLife.cleanup_returns
    ∷ HandlerLife.to_session_returns lost
    ∷ []

abbrev ended_handler : HandlerLife.Life (Option Error)
ended_handler = record {
  group = some lost;
  stopped = true;
  closed = true;
  cleanup = false;
  watcher = false;
  to_writer = false;
  to_session = false;
  loop = false;
}

ended_handler-Run :
    HandlerShutdown.Run first_error HandlerLife.mux_port_forward read_events ended_handler
unfolding HandlerLife.step
ended_handler-Run =
    HandlerShutdown.next HandlerLife.loop_returns
      (HandlerShutdown.next (HandlerLife.to_writer_returns (external 2))
        (HandlerShutdown.next HandlerLife.watcher_returns
          (HandlerShutdown.next HandlerLife.cleanup_returns
            (HandlerShutdown.next (HandlerLife.to_session_returns lost) HandlerShutdown.idle refl)
            refl)
          refl)
        refl)
      refl

no_goroutine_left :
    (e : HandlerLife.Event)
    → HandlerShutdown.prompt first_error HandlerLife.mux_port_forward ended_handler e ≡ false
no_goroutine_left HandlerLife.stop_called = refl
no_goroutine_left HandlerLife.cleanup_returns = refl
no_goroutine_left HandlerLife.watcher_returns = refl
no_goroutine_left (HandlerLife.to_writer_returns e) = refl
no_goroutine_left (HandlerLife.to_session_returns e) = refl
no_goroutine_left HandlerLife.loop_returns = refl

handler_quiet_has_ended_example :
    (HandlerShutdown.pending ended_handler ≡ 0)
    × (HandlerLife.wait first_error HandlerLife.mux_port_forward ended_handler ≡ some (some lost))
handler_quiet_has_ended_example =
    HandlerEnding.handler_quiet_has_ended first_error HandlerLife.mux_port_forward lost
      ended_handler-Run refl no_goroutine_left

handler_stopped-Ends_example :
    HandlerEnding.Ends first_error HandlerLife.stream
      (record (HandlerLife.begin first_error) { stopped = true })
      none
unfolding HandlerLife.step
handler_stopped-Ends_example =
    HandlerEnding.handler_stopped-Ends first_error HandlerLife.stream HandlerShutdown.idle refl refl

-- A dialer whose socket cannot be written.
abbrev dialer : Dialer
dialer = record {
  dial = λ url. none;
  marshal = λ m. ok m.token_value;
  write_message = λ payload. some lost;
  close = none;
  request_uuid = codes "1";
  client_uuid = codes "2";
}

abbrev token : Bytes
token = codes "token"

connect_iff_example :
    (((connect dialer [] token).failure ≡ none) ↔ Succeeds dialer [] token)
    × (((connect dialer [] token).closed ≡ true) ↔ (
        ((connect dialer [] token).dialled ≡ true)
        × ((e : Error) × ((connect dialer [] token).failure ≡ some e))))
connect_iff_example = connect_iff dialer [] token

-- The write fails, and the socket is closed.
dialer_closes : (connect dialer [] token).closed ≡ true
unfolding connect open_data_channel
dialer_closes = refl

-- A session without a handler of its own, whose socket fails.
nop_life-NopRun :
    NopRun first_error
      (Life.incoming_returns lost ∷ Life.handler_start_returns none ∷ [])
      lost_life
      nop_init
unfolding Life.step
nop_life-NopRun =
    next (Life.incoming_returns lost)
      (next {s' = waiting_life} (Life.handler_start_returns none) idle refl refl) tt refl

nop_returns_late_example :
    (nop_wait when_stopped nop_init ≡ none)
    × ((Life.is_done first_error lost_life ≡ true)
        ⊎ ((lost_life.handler ≡ Life.starting) ⊎ (lost_life.handler ≡ Life.waiting)))
nop_returns_late_example = nop_returns_late first_error nop_life-NopRun
