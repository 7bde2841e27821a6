-- ===== src/Once.antt =====
-- What a `Session` of session.go, a `Stream` of handler/stream.go and a `MuxPortForward` of
-- handler/muxPortForward.go have in common around `sync.Once`: `init`, which fills in what the
-- user has left out and makes the channel `stopped`, and `signalStop`, which closes the channel.
pub mod Safe
use ssmlib.Common.{ℕ, Bool, true, false, List, [], ◌∷◌, Option, none, some, if◌then◌else◌}
use mathlib.Core.Option

-- A channel of which only its closing matters. Closing one that is nil or closed panics.
pub data Signal : Type 0 where
  unmade open_still closed : Signal

-- `close`; `none` is a panic.
abbrev pub close_signal : Signal → Option Signal
close_signal unmade = none
close_signal open_still = some closed
close_signal closed = none

-- A value whose two `sync.Once` may have been used.
pub record Guarded (C : Type 0) : Type 0 where
  pub config : C
  pub init_done : Bool
  pub stop_done : Bool
  pub stopped : Signal

-- The value as the user writes it.
abbrev pub as_written : {C : Type 0} → C → Guarded C
as_written c = record { config = c; init_done = false; stop_done = false; stopped = unmade }

-- A method that calls `init` and no more of this, such as `Start`, `Wait`, `Read`, `Write` and
-- `Dial`; `Stop`; and the goroutine of `Start` that cleans up, which calls `signalStop` alone.
pub data MethodCall : Type 0 where
  method stop_method clean_up_runs : MethodCall

unfoldable pub signal_stop : {C : Type 0} → Guarded C → Option (Guarded C)
signal_stop g =
    if g.stop_done
    then some g
    else Option.map (λ s. record g { stopped = s; stop_done = true }) (close_signal g.stopped)

-- `fill` is what `init` does to the fields that the user may set.
module _ {C : Type 0} (fill : C → C) where
  unfoldable pub init_once : Guarded C → Guarded C
  init_once g =
      if g.init_done
      then g
      else record g { config = fill g.config; init_done = true; stopped = open_still }

  unfoldable pub stop_once : Guarded C → Option (Guarded C)
  stop_once g = signal_stop (init_once g)

  abbrev pub do_call : MethodCall → Guarded C → Option (Guarded C)
  do_call method g = some (init_once g)
  do_call stop_method g = stop_once g
  do_call clean_up_runs g = signal_stop g

  -- Calls one after the other, as `sync.Once` orders them; `none` is a panic.
  unfoldable pub run_calls : List MethodCall → Guarded C → Option (Guarded C)
  run_calls [] g = some g
  run_calls (c ∷ cs) g = elim (do_call c g) [ none ↦ none | some g' ↦ run_calls cs g' ]

-- `if field == nil { field = default }`.
abbrev pub or_default : {A : Type 0} → A → Option A → Option A
or_default d none = some d
or_default d (some a) = some a
