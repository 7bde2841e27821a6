-- ===== src/Session/Verdict.antt =====
-- How a round of a loop of session.go ends.
use ssmlib.Errors.{Error}

-- `crashed` is a panic.
pub data Verdict : Type 0 where
  go_on : Verdict
  stop : Error → Verdict
  crashed : Verdict
