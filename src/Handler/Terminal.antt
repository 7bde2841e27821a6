-- ===== src/Handler/Terminal.antt =====
-- The goroutine "Update Terminal Size" that `Start` of handler/stream.go runs. A width or a height
-- is the bit pattern of an int. The errors of the terminal and of `SetTerminalSize` go to the log
-- alone, so that a tick is what `Size` gives for the width and the height, failed or not.
pub mod Updates
use ssmlib.Common.{
  ℕ, Bytes, Bool, ◌||◌, not, List, [], ◌∷◌, ◌++◌, Option, none, some, length, ◌==◌, if◌then◌else◌,
}
use ssmlib.Errors.{Error}
use ssmlib.Messages.Wire.{Time}
use ssmlib.Messages.Message.{AgentMessage}
use ssmlib.Messages.Create.{Result}
use ssmlib.Handler.Copy.{set_terminal_size}

-- The variables of the loop, the sizes for which `SetTerminalSize` was called, whether the call
-- failed or not, and the messages that these calls handed to the session's `Write`.
pub record Terminal : Type 0 where
  pub last_width : ℕ
  pub last_height : ℕ
  pub updates : List (ℕ × ℕ)
  pub written : List AgentMessage

abbrev pub start : Terminal
start = record { last_width = 0; last_height = 0; updates = []; written = [] }

-- The message of a call, if there is one.
abbrev pub with_message : Option AgentMessage → List AgentMessage → List AgentMessage
with_message none ms = ms
with_message (some m) ms = ms ++ (m ∷ [])

-- `marshal` is `json.Marshal` on the two numbers, `write` is the session's `Write`.
module _ (marshal : ℕ × ℕ → Result Bytes) (write : AgentMessage → Option Error) (now : ℕ → Time)
    (new_uuid : ℕ → Bytes) where
  -- `case <-ticker.C`.
  unfoldable pub on_tick : ℕ × ℕ → Terminal → Terminal
  on_tick (width, height) st =
      let n = length st.updates in
      if not (st.last_width == width) || not (st.last_height == height)
      then record {
        last_width = width;
        last_height = height;
        updates = st.updates ++ ((width, height) ∷ []);
        written =
            with_message (set_terminal_size marshal write (now n) (new_uuid n) width height).0
              st.written;
      }
      else st

  -- The loop over the ticks, until the context is done.
  unfoldable pub update_terminal_size : List (ℕ × ℕ) → Terminal → Terminal
  update_terminal_size [] st = st
  update_terminal_size (size ∷ ticks) st = update_terminal_size ticks (on_tick size st)
