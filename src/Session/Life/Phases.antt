-- ===== src/Session/Life/Phases.antt =====
-- The life of a `Session` of session.go as its client sees it: a machine of four phases.
use ssmlib.Common.{
  ℕ, ◌+◌, ◌≡◌, refl, ap, ◌∙◌, Bool, true, false, ◌==◌, ==_iff, List, [], Option, none, some,
  if◌then◌else◌, Bool-cases, Option-cases, inl, inr, arith,
}
use ssmlib.Errors.{Error}
use ssmlib.Group.{Errgroup, is_some}
use ssmlib.Session.Life.{
  HandlerPhase, starting, failing, waiting, ended, Life, Event, stop_called, cleanup_returns,
  watcher_returns, outgoing_returns, incoming_returns, handler_start_returns, failing_returns,
  handler_wait_returns, clean_up, step, all_returned, without_stop, wait,
}
use ssmlib.Session.Life.Sound.{IsSound, step-IsSound, Run, Run-IsSound}
use ssmlib.Session.Life.Shutdown.{flag, pending, pending-step, step-first}

-- What a client may rely on: a session runs, it shuts down for one reason, and it is over. It is
-- `resting` when no goroutine of it runs, but `Handler.Start` has not returned.
pub data Phase : Type 0 where
  running : Phase
  closing : Error → Phase
  resting : Error → Phase
  over : Error → Phase

-- The return of a late `Handler.Start` adds a goroutine.
pub data Move : Phase → Phase → Type 0 where
  stays : {p : Phase} → Move p p
  fails : (e : Error) → Move running (closing e)
  rests : (e : Error) → Move (closing e) (resting e)
  resumes : (e : Error) → Move (resting e) (closing e)
  ends : (e : Error) → Move (closing e) (over e)

-- What `Wait` shows: it blocks, or it returns the error of the phase.
abbrev pub shown : Phase → Option (Option Error)
shown running = none
shown (closing e) = none
shown (resting e) = some (without_stop e)
shown (over e) = some (without_stop e)

-- What is closed: the socket, and the handler by its `Stop`.
abbrev pub Closes : {G : Type 0} → Phase → Life G → Type 0
Closes running s = (s.socket_closed ≡ false) × (s.handler_stopped ≡ false)
Closes (closing e) s = Unit
Closes (resting e) s = (s.stopped ≡ true) × (s.socket_closed ≡ true) × (s.handler_stopped ≡ true)
Closes (over e) s = (s.stopped ≡ true) × (s.socket_closed ≡ true) × (s.handler_stopped ≡ true)

-- The goroutines that run, of those that `Start` passes to `Go`.
abbrev pub handler_goroutines : HandlerPhase → ℕ
handler_goroutines starting = 0
handler_goroutines (failing e) = 1
handler_goroutines waiting = 1
handler_goroutines ended = 0

abbrev pub goroutines : {G : Type 0} → Life G → ℕ
goroutines s =
    flag s.cleanup
    + flag s.watcher
    + flag s.outgoing
    + flag s.incoming
    + handler_goroutines s.handler

-- The phase of a first error, by whether no goroutine runs and whether no return is to come.
abbrev pub phase_of : Option Error → Bool → Bool → Phase
phase_of none g z = running
phase_of (some e) false z = closing e
phase_of (some e) true false = resting e
phase_of (some e) true true = over e

module _ (eg : Errgroup) where
  abbrev pub phase : Life eg.Group → Phase
  phase s = phase_of (eg.first s.group) (goroutines s == 0) (pending s == 0)

  moves_on :
      (x : Error) (g z g' z' : Bool)
      → (z ≡ true → g ≡ true)
      → (z' ≡ true → g' ≡ true)
      → (z ≡ true → z' ≡ true)
      → (g ≡ true → g' ≡ true → z' ≡ z)
      → Move (phase_of (some x) g z) (phase_of (some x) g' z')
  moves_on x false z false z' i j e k = stays
  moves_on x false z true false i j e k = rests x
  moves_on x false z true true i j e k = ends x
  moves_on x true true false z' i j e k = cc (j (e refl))
  moves_on x true true true z' i j e k = rw (e refl) stays
  moves_on x true false false z' i j e k = resumes x
  moves_on x true false true z' i j e k = rw (k refl refl) stays

  moves :
      (f f' : Option Error) (g z g' z' : Bool)
      → (f ≡ none → g' ≡ false)
      → ((x : Error) → f ≡ some x → f' ≡ some x)
      → (z ≡ true → g ≡ true)
      → (z' ≡ true → g' ≡ true)
      → (z ≡ true → z' ≡ true)
      → (g ≡ true → g' ≡ true → z' ≡ z)
      → Move (phase_of f g z) (phase_of f' g' z')
  moves none none g z g' z' c d i j e k = stays
  moves none (some x) g z g' z' c d i j e k = rw (c refl) (fails x)
  moves (some x) f' g z g' z' c d i j e k = rw (d x refl) (moves_on x g z g' z' i j e k)

  cleanup_left :
      (s s' : Life eg.Group) (e : Event)
      → s.cleanup ≡ true
      → eg.first s.group ≡ none
      → step eg s e ≡ some s'
      → s'.cleanup ≡ true
  unfolding step clean_up
  cleanup_left s s' stop_called c f h = ground arith
  cleanup_left s s' cleanup_returns c f h = ground arith
  cleanup_left s s' watcher_returns c f h = ground arith
  cleanup_left s s' (outgoing_returns e) c f h = ground arith
  cleanup_left s s' (incoming_returns e) c f h = ground arith
  cleanup_left s s' (handler_start_returns r) c f h = ground arith
  cleanup_left s s' failing_returns c f h = ground arith
  cleanup_left s s' (handler_wait_returns r) c f h = ground arith

  cleanup_before : (s : Life eg.Group) → IsSound eg s → eg.first s.group ≡ none → s.cleanup ≡ true
  cleanup_before s v f = elim (Bool-cases s.cleanup) [
    | inl c ↦ c
    | inr c ↦ cc ((v.closed_after c).3, ap is_some f)
  ]

  cleanup_kept :
      (s s' : Life eg.Group) (e : Event)
      → IsSound eg s
      → eg.first s.group ≡ none
      → step eg s e ≡ some s'
      → s'.cleanup ≡ true
  cleanup_kept s s' e v f h = cleanup_left s s' e (cleanup_before s v f) f h

  cleanup_runs : (s : Life eg.Group) → s.cleanup ≡ true → (goroutines s == 0) ≡ false
  cleanup_runs s c = ground arith

  pending_zero :
      (s s' : Life eg.Group) (e : Event)
      → step eg s e ≡ some s'
      → (pending s == 0) ≡ true
      → (pending s' == 0) ≡ true
  pending_zero s s' e h z =
      (==_iff (pending s') 0).1
        (omega (arith, pending-step eg s s' e [] h, (==_iff (pending s) 0).0 z))

  none_runs : (s : Life eg.Group) → (pending s == 0) ≡ true → (goroutines s == 0) ≡ true
  none_runs s z = ground arith

  -- While no goroutine runs before and after an event, nothing has returned by it.
  rest_step :
      (s s' : Life eg.Group) (e : Event)
      → step eg s e ≡ some s'
      → (goroutines s == 0) ≡ true
      → (goroutines s' == 0) ≡ true
      → (pending s' == 0) ≡ (pending s == 0)
  unfolding step clean_up
  rest_step s s' stop_called h g g' = ground arith
  rest_step s s' cleanup_returns h g g' = ground arith
  rest_step s s' watcher_returns h g g' = ground arith
  rest_step s s' (outgoing_returns e) h g g' = ground arith
  rest_step s s' (incoming_returns e) h g g' = ground arith
  rest_step s s' (handler_start_returns none) h g g' = ground arith
  rest_step s s' (handler_start_returns (some e)) h g g' = ground arith
  rest_step s s' failing_returns h g g' = ground arith
  rest_step s s' (handler_wait_returns r) h g g' = ground arith

  all_returned_iff : (s : Life eg.Group) → all_returned eg s ≡ (goroutines s == 0)
  unfolding all_returned
  all_returned_iff s = ground arith

  -- What `Wait` shows of a first error and of the goroutines.
  abbrev wait_of : (f : Option Error) (a : Bool) → Option (Option Error)
  wait_of none a = none
  wait_of (some x) a = if a then some (without_stop x) else none

  wait-wait_of : (s : Life eg.Group) → wait eg s ≡ wait_of (eg.first s.group) (all_returned eg s)
  unfolding wait
  wait-wait_of s = elim (Option-cases (eg.first s.group)) [
    | inl f ↦ rw (f, wait) refl
    | inr (x, f) ↦ rw (f, wait) refl
  ]

  wait_of-shown : (f : Option Error) (g z : Bool) → wait_of f g ≡ shown (phase_of f g z)
  wait_of-shown none g z = refl
  wait_of-shown (some x) false z = refl
  wait_of-shown (some x) true false = refl
  wait_of-shown (some x) true true = refl

  wait-shown : (s : Life eg.Group) → wait eg s ≡ shown (phase s)
  wait-shown s =
      wait-wait_of s
      ∙ ap (wait_of (eg.first s.group)) (all_returned_iff s)
      ∙ wait_of-shown (eg.first s.group) (goroutines s == 0) (pending s == 0)

  closes :
      (s : Life eg.Group) (f : Option Error) (g z : Bool)
      → (f ≡ none → (s.socket_closed ≡ false) × (s.handler_stopped ≡ false))
      → (g ≡ true → (s.stopped ≡ true) × (s.socket_closed ≡ true) × (s.handler_stopped ≡ true))
      → Closes (phase_of f g z) s
  closes s none g z c d = c refl
  closes s (some x) false z c d = tt
  closes s (some x) true false c d = d refl
  closes s (some x) true true c d = d refl

  cleanup_over : (s : Life eg.Group) → (goroutines s == 0) ≡ true → s.cleanup ≡ false
  cleanup_over s g = ground arith

  sound-Closes : (s : Life eg.Group) → IsSound eg s → Closes (phase s) s
  sound-Closes s v =
      closes s (eg.first s.group) (goroutines s == 0) (pending s == 0)
        (λ f. v.open_before (cleanup_before s v f))
        (λ g. let after = v.closed_after (cleanup_over s g) in (after.0, after.1, after.2))

  -- Every life of a session refines the machine of four phases. Each event keeps the phase; or
  -- takes a running session to its shutdown for the first error; or takes the shutdown for an
  -- error to its end, or to rest while `Handler.Start` has not returned, and back when it does.
  -- `Wait` blocks exactly while the session runs or shuts down, that is before the first error and
  -- while any of its goroutines runs, and else returns that error, nil for a requested stop. The
  -- socket is open and the handler was not stopped while the session runs; both are closed, and
  -- `stopped` too, when it rests or is over.
  pub life_refines :
      {es : List Event} {s s' : Life eg.Group} (e : Event)
      → Run eg es s
      → step eg s e ≡ some s'
      → Move (phase s) (phase s') × (wait eg s' ≡ shown (phase s')) × Closes (phase s') s'
  life_refines {es} {s} {s'} e r h =
      let v = Run-IsSound eg r in
      (
        moves (eg.first s.group) (eg.first s'.group) (goroutines s == 0) (pending s == 0)
            (goroutines s' == 0) (pending s' == 0)
            (λ f. cleanup_runs s' (cleanup_kept s s' e v f h)) (λ x f. step-first eg s s' e x f h)
            (none_runs s) (none_runs s') (pending_zero s s' e h) (rest_step s s' e h),
        wait-shown s',
        sound-Closes s' (step-IsSound eg s s' e v h),
      )
