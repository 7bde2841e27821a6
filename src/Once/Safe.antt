-- ===== src/Once/Safe.antt =====
-- The calls around `sync.Once` of session.go, handler/stream.go and handler/muxPortForward.go never
-- panic.
use ssmlib.Common.{◌≡◌, ◌≢◌, refl, Bool, true, false, ◌||◌, List, [], ◌∷◌, some, arith}
use ssmlib.Once.{
  Signal, open_still, closed, Guarded, as_written, MethodCall, method, stop_method, clean_up_runs,
  signal_stop, init_once, stop_once, do_call, run_calls,
}

abbrev pub is_stop : MethodCall → Bool
is_stop method = false
is_stop stop_method = true
is_stop clean_up_runs = true

abbrev pub any_stop : List MethodCall → Bool
any_stop [] = false
any_stop (c ∷ cs) = is_stop c || any_stop cs

abbrev pub signal_of : Bool → Signal
signal_of true = closed
signal_of false = open_still

-- After a call of `init`: with what the user wrote filled in, and the channel as `stop_done` says.
abbrev pub used : {C : Type 0} → C → Bool → Guarded C
used c b = record { config = c; init_done = true; stop_done = b; stopped = signal_of b }

or_assoc : (a b c : Bool) → ((a || b) || c) ≡ (a || (b || c))
or_assoc a b c = ground arith

module _ {C : Type 0} (fill : C → C) where
  do_call-used :
      (c : C) (b : Bool) (e : MethodCall)
      → do_call fill e (used c b) ≡ some (used c (b || is_stop e))
  unfolding stop_once init_once signal_stop
  do_call-used c true method = refl
  do_call-used c true stop_method = refl
  do_call-used c true clean_up_runs = refl
  do_call-used c false method = refl
  do_call-used c false stop_method = refl
  do_call-used c false clean_up_runs = refl

  run_calls-used :
      (c : C) (b : Bool) (es : List MethodCall)
      → run_calls fill es (used c b) ≡ some (used c (b || any_stop es))
  unfolding run_calls
  run_calls-used c true [] = refl
  run_calls-used c false [] = refl
  run_calls-used c b (e ∷ es) =
      rw
        (
          do_call-used c b e,
          run_calls,
          run_calls-used c (b || is_stop e) es,
          or_assoc b (is_stop e) (any_stop es),
        )
        refl

  -- However the methods of such a value are called, the first of them any method and then any of
  -- them and the clean-up in any order, no channel is closed twice or before it is made: the
  -- calls end without a panic, what the user left out was filled in once, and the channel is closed
  -- exactly if there was a call of `Stop` or the clean-up.
  pub never_panics :
      (c : C) (e : MethodCall) (es : List MethodCall)
      → e ≢ clean_up_runs
      → run_calls fill (e ∷ es) (as_written c) ≡ some (used (fill c) (any_stop (e ∷ es)))
  unfolding run_calls stop_once init_once signal_stop
  never_panics c method es h = run_calls-used (fill c) false es
  never_panics c stop_method es h = run_calls-used (fill c) true es
  never_panics c clean_up_runs es h = absurd (h refl)
