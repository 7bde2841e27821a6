-- ===== src/Examples/Setup.antt =====
-- A `Session` that is given no handler and is stopped twice.
use ssmlib.Common.{ℕ, ◌≡◌, true, [], ◌∷◌, some, none}
use ssmlib.Once.{method, stop_method, clean_up_runs, as_written, run_calls}
use ssmlib.Once.Safe.{used, never_panics}
use ssmlib.Session.Setup.{SessionFields, fill_session}

-- Handlers, dialers and loggers are numbers here; the user gives a dialer alone.
abbrev fields : SessionFields ℕ ℕ ℕ
fields = record { handler = none; dialer = some 7; log = none }

abbrev filled : SessionFields ℕ ℕ ℕ
filled = record { handler = some 1; dialer = some 7; log = some 3 }

never_panics_example :
    run_calls
      (fill_session 1 2 3)
      (method ∷ stop_method ∷ clean_up_runs ∷ stop_method ∷ [])
      (as_written fields)
    ≡ some (used filled true)
unfolding fill_session
never_panics_example =
    never_panics (fill_session 1 2 3) fields method (stop_method ∷ clean_up_runs ∷ stop_method ∷ [])
      (λ h. cc)
