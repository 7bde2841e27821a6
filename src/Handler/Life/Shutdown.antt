-- ===== src/Handler/Life/Shutdown.antt =====
-- What holds of a handler of handler/stream.go or handler/muxPortForward.go while it lives, and which
-- goroutine returns next once something has failed.
use ssmlib.Common.{
  ℕ, suc, ◌+◌, ◌≡◌, ◌⊎◌, refl, Bool, true, false, ◌&&◌, List, [], ◌∷◌, none, some, Bool-cases, inl,
  inr, arith,
}
use ssmlib.Errors.{Error}
use ssmlib.Common.Settle.{Progress}
use ssmlib.Group.{Errgroup}
use ssmlib.Handler.Life.{
  Kind, stop_requested, loop_result, Life, Event, stop_called, cleanup_returns, watcher_returns,
  to_writer_returns, to_session_returns, loop_returns, begin, is_done, step,
}

abbrev flag : Bool → ℕ
flag true = 1
flag false = 0

-- How many goroutines have yet to return.
abbrev pub pending : {G : Type 0} → Life G → ℕ
pending s = flag s.cleanup + flag s.watcher + flag s.to_writer + flag s.to_session + flag s.loop

module _ (eg : Errgroup) (kind : Kind) where
  -- The code itself makes the event happen: what the goroutine waits for has come.
  abbrev pub prompt : Life eg.Group → Event → Bool
  prompt s stop_called = false
  prompt s cleanup_returns = s.cleanup && is_done eg s
  prompt s watcher_returns = s.watcher && s.stopped
  prompt s (to_writer_returns e) = s.to_writer && is_done eg s
  prompt s (to_session_returns e) = s.to_session && is_done eg s
  prompt s loop_returns = s.loop && is_done eg s

  -- The lives that a handler can have; the last event stands first.
  pub data Run : List Event → Life eg.Group → Type 0 where
    idle : Run [] (begin eg)
    next :
        {es : List Event} {s s' : Life eg.Group}
        → (e : Event) → Run es s
        → step eg kind s e ≡ some s'
        → Run (e ∷ es) s'

  pub record IsSound (s : Life eg.Group) : Type 0 where
    pub closed_after : s.cleanup ≡ false → (s.stopped ≡ true) × (s.closed ≡ true)
    pub failing : pending s ≡ 5 ⊎ (is_done eg s ≡ true)

  pub step-IsSound :
      (s s' : Life eg.Group) (e : Event) → IsSound s → step eg kind s e ≡ some s' → IsSound s'
  unfolding step
  step-IsSound s s' stop_called v h = ground arith
  step-IsSound s s' cleanup_returns v h = ground (arith, eg.first-finish none s.group)
  step-IsSound s s' watcher_returns v h =
      ground (arith, eg.first-finish (some (stop_requested kind)) s.group)
  step-IsSound s s' (to_writer_returns e) v h = ground (arith, eg.first-finish (some e) s.group)
  step-IsSound s s' (to_session_returns e) v h = ground (arith, eg.first-finish (some e) s.group)
  step-IsSound s s' loop_returns v h =
      ground (arith, eg.first-finish (loop_result kind (eg.first s.group)) s.group)

  pub Run-IsSound : {es : List Event} {s : Life eg.Group} → Run es s → IsSound s
  Run-IsSound idle = record { closed_after = λ h. cc; failing = inl refl }
  Run-IsSound (next {s} {s'} e r h) = step-IsSound s s' e (Run-IsSound r) h

  pub step-first :
      (s s' : Life eg.Group) (e : Event) (x : Error)
      → eg.first s.group ≡ some x
      → step eg kind s e ≡ some s'
      → eg.first s'.group ≡ some x
  unfolding step
  step-first s s' stop_called x f h = ground arith
  step-first s s' cleanup_returns x f h = ground (arith, eg.first-finish none s.group)
  step-first s s' watcher_returns x f h =
      ground (arith, eg.first-finish (some (stop_requested kind)) s.group)
  step-first s s' (to_writer_returns e) x f h = ground (arith, eg.first-finish (some e) s.group)
  step-first s s' (to_session_returns e) x f h = ground (arith, eg.first-finish (some e) s.group)
  step-first s s' loop_returns x f h =
      ground (arith, eg.first-finish (loop_result kind (eg.first s.group)) s.group)

  pub pending_falls :
      (s s' : Life eg.Group) (e : Event)
      → prompt s e ≡ true
      → step eg kind s e ≡ some s'
      → suc (pending s') ≡ pending s
  unfolding step
  pending_falls s s' stop_called p h = cc
  pending_falls s s' cleanup_returns p h = ground arith
  pending_falls s s' watcher_returns p h = ground arith
  pending_falls s s' (to_writer_returns e) p h = ground arith
  pending_falls s s' (to_session_returns e) p h = ground arith
  pending_falls s s' loop_returns p h = ground arith

  pub progress :
      (s : Life eg.Group) (x : Error)
      → IsSound s
      → eg.first s.group ≡ some x
      → (pending s ≡ 0) ⊎ Progress (step eg kind) prompt s
  unfolding step
  progress s x v f = elim (Bool-cases s.cleanup) [
    | inl c ↦ inr (
      cleanup_returns,
      record s { group = eg.finish none s.group; stopped = true; closed = true; cleanup = false },
      ground arith,
      ground arith,
    )
    | inr c ↦
        let stopped = (v.closed_after c).0 in
        elim (Bool-cases s.watcher) [
          | inl w ↦ inr (
            watcher_returns,
            record s { group = eg.finish (some (stop_requested kind)) s.group; watcher = false },
            ground arith,
            ground arith,
          )
          | inr w ↦ elim (Bool-cases s.to_writer) [
            | inl o ↦ inr (
              to_writer_returns x,
              record s { group = eg.finish (some x) s.group; to_writer = false },
              ground arith,
              ground arith,
            )
            | inr o ↦ elim (Bool-cases s.to_session) [
              | inl i ↦ inr (
                to_session_returns x,
                record s { group = eg.finish (some x) s.group; to_session = false },
                ground arith,
                ground arith,
              )
              | inr i ↦ elim (Bool-cases s.loop) [
                | inl l ↦ inr (
                  loop_returns,
                  record s {
                    group = eg.finish (loop_result kind (eg.first s.group)) s.group;
                    loop = false;
                  },
                  ground arith,
                  ground arith,
                )
                | inr l ↦ inl (ground arith)
              ]
            ]
          ]
        ]
  ]
