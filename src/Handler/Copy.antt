-- ===== src/Handler/Copy.antt =====
-- `CopySessionReaderToWriter`, `CopyReaderToSessionWriter` and `SetTerminalSize` of
-- handler/misc.go. The goroutine that serves a loop does one call of the writer or the reader for
-- each value of its channel, so that its work is part of a round. A list holds the answers of
-- what is read, at whose end the loop waits. Each time the code selects on `<-ctx.Done()` the
-- context says whether it finds it done; any answers are allowed.
pub mod Output
pub mod Input
use ssmlib.Common.{
  ℕ, suc, Bytes, Bool, true, false, not, List, [], ◌∷◌, ◌++◌, Option, none, some, length, ltb, ◌==◌,
  if◌then◌else◌,
}
use mathlib.Core.Option
use ssmlib.Errors.{
  Error, get_session_message, write_data, write_session_message, read_data, create_size_message,
  write_size_message,
}
use ssmlib.Messages.PayloadType
use ssmlib.Messages.Wire.{Time}
use ssmlib.Messages.Message.{AgentMessage}
use ssmlib.Messages.Create.{Result, ok, err, new_stream_message, new_size_message}

pub record Context : Type 0 where
  pub is_done : ℕ → Bool
  pub ctx_err : Error

-- How often the context was consulted, and what was handed to the writer or to the session.
pub record Copied {ℓ} (A : Type ℓ) : Type ℓ where
  pub consulted : ℕ
  pub handed : List A

abbrev pub nothing : {A : Type 0} → Copied A
nothing = record { consulted = 0; handed = [] }

abbrev pub consult : {A : Type 0} → Copied A → Copied A
consult st = record st { consulted = suc st.consulted }

-- The value goes through the channel, which is the other branch of a `select`.
abbrev pub hand : {A : Type 0} → A → Copied A → Copied A
hand a st = record { consulted = suc st.consulted; handed = st.handed ++ (a ∷ []) }

module _ (ctx : Context) (write : Bytes → Option Error) where
  -- The two selects of a round: the payload goes to the goroutine, and its answer comes back.
  unfoldable pub write_payload : Bytes → Copied Bytes → Copied Bytes × Option Error
  write_payload payload st =
      if ctx.is_done st.consulted
      then (consult st, some ctx.ctx_err)
      else if ctx.is_done (suc st.consulted)
      then (consult (hand payload st), some ctx.ctx_err)
      else elim (write payload) [
        | none ↦ (consult (hand payload st), none)
        | some e ↦ (consult (hand payload st), some (write_data e))
      ]

  -- The loop, with the error that it returns, or none while it waits.
  unfoldable pub copy_session_reader_to_writer :
      List (Result AgentMessage) → Copied Bytes → Copied Bytes × Option Error
  copy_session_reader_to_writer [] st = (st, none)
  copy_session_reader_to_writer (err e ∷ reads) st = (st, some (get_session_message e))
  copy_session_reader_to_writer (ok msg ∷ reads) st =
      let (st', failure) = write_payload msg.payload st in
      let skipped = copy_session_reader_to_writer reads st in
      let next = copy_session_reader_to_writer reads st' in
      if not (msg.payload_type == PayloadType.output)
      then skipped
      else elim failure [ some e ↦ (st', some e) | none ↦ next ]

-- What a `Read` of the reader gives: the bytes, at most the buffer's 1024, and an error or none.
pub record ReadResult : Type 0 where
  pub content : Bytes
  pub read_error : Option Error

-- `now` and `new_uuid` give the date and the id of a message by how many came before it.
module _ (ctx : Context) (write : AgentMessage → Option Error) (now : ℕ → Time)
    (new_uuid : ℕ → Bytes) where
  -- `if bytes > 0`: the message, and the error of the session's `Write`.
  unfoldable pub write_chunk : Bytes → Copied AgentMessage → Copied AgentMessage × Option Error
  unfolding new_stream_message
  write_chunk content st =
      let n = length st.handed in
      let message = new_stream_message (now n) (new_uuid n) content in
      let st' = record st { handed = st.handed ++ (message ∷ []) } in
      if ltb 0 (length content)
      then (st', Option.map write_session_message (write message))
      else (st, none)

  -- The bytes are written first, and only then is the error of the reader looked at.
  unfoldable pub copy_reader_to_session_writer :
      List ReadResult → Copied AgentMessage → Copied AgentMessage × Option Error
  copy_reader_to_session_writer [] st =
      if ctx.is_done st.consulted
      then (consult st, some ctx.ctx_err)
      else if ctx.is_done (suc st.consulted)
      then (consult (consult st), some ctx.ctx_err)
      else (consult st, none)
  copy_reader_to_session_writer (r ∷ reads) st =
      let (st', failure) = write_chunk r.content (consult (consult st)) in
      let next = copy_reader_to_session_writer reads st' in
      if ctx.is_done st.consulted
      then (consult st, some ctx.ctx_err)
      else if ctx.is_done (suc st.consulted)
      then (consult (consult st), some ctx.ctx_err)
      else elim failure [
        | some e ↦ (st', some e)
        | none ↦ elim r.read_error [ some e ↦ (st', some (read_data e)) | none ↦ next ]
      ]

-- `marshal` is `json.Marshal` on the width and the height.
unfoldable pub set_terminal_size :
    (ℕ × ℕ → Result Bytes)
    → (AgentMessage → Option Error)
    → Time
    → Bytes
    → ℕ
    → ℕ
    → Option AgentMessage × Option Error
unfolding new_size_message
set_terminal_size marshal write now id width height =
    elim (new_size_message marshal now id (width, height)) [
      | err e ↦ (none, some (create_size_message e))
      | ok msg ↦ (some msg, Option.map write_size_message (write msg))
    ]
