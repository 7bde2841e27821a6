-- ===== src/Examples/Starting.antt =====
-- A session whose handler fails to start.
use ssmlib.Common.{◌≡◌, refl, true, [], ◌∷◌, Option, some, none, inl}
use ssmlib.Common.Settle.{PromptRun}
use ssmlib.Errors.{Error, external, handler_start_failed}
use ssmlib.Session.Life.{Life, failing, handler_start_returns, begin, step}
use ssmlib.Session.Life.Sound.{Run, idle, next}
use ssmlib.Session.Life.Shutdown.{Answers, prompt}
use ssmlib.Session.Life.Starting.{start_answer, failed_start_returns}
use ssmlib.Examples.Life.{first_error, lost}

abbrev refused : Life (Option Error)
refused = record (begin first_error) { handler = failing (handler_start_failed (external 4)) }

refused-Run : Run first_error (handler_start_returns (some (external 4)) ∷ []) refused
unfolding step
refused-Run = next (handler_start_returns (some (external 4))) idle refl

abbrev answers : Answers
answers = record {
  outgoing_error = external 5;
  incoming_error = lost;
  start_result = none;
  wait_result = none;
}

failed_start_returns_example :
    (last : Life (Option Error)) × PromptRun (step first_error) (prompt first_error) refused last
    × ((x : Error) × (start_answer first_error (some (external 4)) last ≡ some (some x))
        × (last.group ≡ some x))
    × (last.socket_closed ≡ true)
    × (last.handler_stopped ≡ true)
failed_start_returns_example =
    failed_start_returns first_error answers (external 4) refused-Run (inl refl)
