-- ===== src/Session/Life/Sound.antt =====
-- What holds of a `Session` of session.go while it lives, whatever its goroutines return.
use ssmlib.Common.{◌≡◌, refl, true, false, List, [], ◌∷◌, none, some, arith}
use ssmlib.Errors.{session_stop_requested}
use ssmlib.Group.{Errgroup}
use ssmlib.Session.Life.{
  Life, Event, stop_called, cleanup_returns, watcher_returns, outgoing_returns, incoming_returns,
  handler_start_returns, failing_returns, handler_wait_returns, begin, is_done, step,
}

module _ (eg : Errgroup) where
  -- The first goroutine runs until the context is done, and then has closed everything; the other
  -- three return only with an error.
  pub record IsSound (s : Life eg.Group) : Type 0 where
    pub open_before : s.cleanup ≡ true → (s.socket_closed ≡ false) × (s.handler_stopped ≡ false)
    pub closed_after :
        s.cleanup ≡ false
        → (s.stopped ≡ true)
          × (s.socket_closed ≡ true)
          × (s.handler_stopped ≡ true)
          × (is_done eg s ≡ true)
    pub watcher_fails : s.watcher ≡ false → is_done eg s ≡ true
    pub outgoing_fails : s.outgoing ≡ false → is_done eg s ≡ true
    pub incoming_fails : s.incoming ≡ false → is_done eg s ≡ true

  pub begin-IsSound : IsSound (begin eg)
  begin-IsSound = record {
    open_before = λ h. (refl, refl);
    closed_after = λ h. cc;
    watcher_fails = λ h. cc;
    outgoing_fails = λ h. cc;
    incoming_fails = λ h. cc;
  }

  pub step-IsSound :
      (s s' : Life eg.Group) (e : Event) → IsSound s → step eg s e ≡ some s' → IsSound s'
  unfolding step
  step-IsSound s s' stop_called v h = ground arith
  step-IsSound s s' cleanup_returns v h = ground (arith, eg.first-finish none s.group)
  step-IsSound s s' watcher_returns v h =
      ground (arith, eg.first-finish (some session_stop_requested) s.group)
  step-IsSound s s' (outgoing_returns e) v h = ground (arith, eg.first-finish (some e) s.group)
  step-IsSound s s' (incoming_returns e) v h = ground (arith, eg.first-finish (some e) s.group)
  step-IsSound s s' (handler_start_returns r) v h = ground arith
  step-IsSound s s' failing_returns v h = grind (arith, eg.first-finish)
  step-IsSound s s' (handler_wait_returns r) v h = ground (arith, eg.first-finish r s.group)

  -- The lives that the goroutines can have; the last event stands first.
  pub data Run : List Event → Life eg.Group → Type 0 where
    idle : Run [] (begin eg)
    next :
        {es : List Event} {s s' : Life eg.Group}
        → (e : Event) → Run es s
        → step eg s e ≡ some s'
        → Run (e ∷ es) s'

  pub Run-IsSound : {es : List Event} {s : Life eg.Group} → Run es s → IsSound s
  Run-IsSound idle = begin-IsSound
  Run-IsSound (next {s} {s'} e r h) = step-IsSound s s' e (Run-IsSound r) h
