-- ===== src/Session/Nop.antt =====
-- `NopHandler` of handler.go, the handler of a session that was given none, and the life of such
-- a session.
use ssmlib.Common.{
  ◌≡◌, refl, ap, sym, ◌⊎◌, Bool, true, false, List, [], ◌∷◌, Option, none, some, if◌then◌else◌, inl,
  inr, arith,
}
use ssmlib.Errors.{Error, session_stop_requested}
use ssmlib.Group.{Errgroup}
use ssmlib.Session.Life.{
  HandlerPhase, starting, failing, waiting, ended, Life, Event, stop_called, cleanup_returns,
  watcher_returns, outgoing_returns, incoming_returns, handler_start_returns, failing_returns,
  handler_wait_returns, begin, is_done, clean_up, step,
}
use ssmlib.Session.Life.Sound.{IsSound, step-IsSound, begin-IsSound}

-- `stopped` is a closed channel.
pub record NopHandler : Type 0 where
  pub stopped : Bool

abbrev pub nop_init : NopHandler
nop_init = record { stopped = false }

abbrev pub nop_start : NopHandler → NopHandler × Option Error
nop_start n = (n, none)

abbrev pub nop_stop : NopHandler → NopHandler
nop_stop n = record { stopped = true }

-- The branch that the `select` of `Wait` takes.
pub data WaitBranch : Type 0 where
  when_stopped : WaitBranch
  when_done : Error → WaitBranch

abbrev pub nop_wait : WaitBranch → NopHandler → Option (Option Error)
nop_wait when_stopped n = if n.stopped then some none else none
nop_wait (when_done e) n = some (some e)

-- What the handler answers where the session calls it.
abbrev pub Answered : Event → NopHandler → Type 0
Answered (handler_start_returns r) n = (nop_start n).1 ≡ r
Answered (handler_wait_returns r) n = nop_wait when_stopped n ≡ some r
Answered e n = Unit

abbrev pub handler_after : Event → NopHandler → NopHandler
handler_after cleanup_returns n = nop_stop n
handler_after e n = n

abbrev has_failed : HandlerPhase → Bool
has_failed starting = false
has_failed (failing e) = true
has_failed waiting = false
has_failed ended = true

module _ (eg : Errgroup) where
  -- The lives of a session with this handler.
  pub data NopRun : List Event → Life eg.Group → NopHandler → Type 0 where
    idle : NopRun [] (begin eg) nop_init
    next :
        {es : List Event} {s s' : Life eg.Group} {n : NopHandler}
        → (e : Event) → NopRun es s n
        → Answered e n
        → step eg s e ≡ some s'
        → NopRun (e ∷ es) s' (handler_after e n)

  record IsLinked (s : Life eg.Group) (n : NopHandler) : Type 0 where
    sound : IsSound eg s
    linked : s.handler_stopped ≡ n.stopped
    kept : has_failed s.handler ≡ true → is_done eg s ≡ true
    stopped_late : n.stopped ≡ true → is_done eg s ≡ true

  step-linked :
      (s s' : Life eg.Group) (n : NopHandler) (e : Event)
      → IsLinked s n
      → Answered e n
      → step eg s e ≡ some s'
      → (s'.handler_stopped ≡ (handler_after e n).stopped)
        × ((has_failed s'.handler ≡ true → is_done eg s' ≡ true)
            × ((handler_after e n).stopped ≡ true → is_done eg s' ≡ true))
  unfolding step clean_up
  step-linked s s' n stop_called v a h = ground arith
  step-linked s s' n cleanup_returns v a h = ground (arith, eg.first-finish none s.group)
  step-linked s s' n watcher_returns v a h =
      ground (arith, eg.first-finish (some session_stop_requested) s.group)
  step-linked s s' n (outgoing_returns e) v a h = ground (arith, eg.first-finish (some e) s.group)
  step-linked s s' n (incoming_returns e) v a h = ground (arith, eg.first-finish (some e) s.group)
  step-linked s s' n (handler_start_returns r) v a h = ground arith
  step-linked s s' n failing_returns v a h = grind (arith, eg.first-finish)
  step-linked s s' n (handler_wait_returns r) v a h = ground (arith, eg.first-finish r s.group)

  NopRun-IsLinked :
      {es : List Event} {s : Life eg.Group} {n : NopHandler} → NopRun es s n → IsLinked s n
  NopRun-IsLinked idle = record {
    sound = begin-IsSound eg;
    linked = refl;
    kept = λ h. cc;
    stopped_late = λ h. cc;
  }
  NopRun-IsLinked (next {s} {s'} {n} e r a h) =
      let v = NopRun-IsLinked r in
      let (linked, (kept, late)) = step-linked s s' n e v a h in
      record {
        sound = step-IsSound eg s s' e v.sound h;
        linked = linked;
        kept = kept;
        stopped_late = late;
      }

  -- In a session whose handler is a `NopHandler`, the handler's `Wait` can return, with nil,
  -- exactly once the session has stopped the handler; and unless something has failed in the
  -- session, the handler has not failed to start and has not returned from its `Wait`, so that it
  -- never leaves the session without an end.
  pub nop_returns_late :
      {es : List Event} {s : Life eg.Group} {n : NopHandler}
      → NopRun es s n
      → (nop_wait when_stopped n ≡ (if s.handler_stopped then some none else none))
        × ((is_done eg s ≡ true) ⊎ ((s.handler ≡ starting) ⊎ (s.handler ≡ waiting)))
  nop_returns_late {es} {s} {n} r =
      let v = NopRun-IsLinked r in
      (ap (λ b. if b then some none else none) (sym v.linked), still s.handler refl v)
    where
      still :
          (p : HandlerPhase)
          → s.handler ≡ p
          → IsLinked s n
          → (is_done eg s ≡ true) ⊎ ((s.handler ≡ starting) ⊎ (s.handler ≡ waiting))
      still starting e v = inr (inl e)
      still waiting e v = inr (inr e)
      still (failing x) e v = inl (v.kept (ap has_failed e))
      still ended e v = inl (v.kept (ap has_failed e))
