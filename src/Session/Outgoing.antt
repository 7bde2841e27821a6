-- ===== src/Session/Outgoing.antt =====
-- `handleOutgoingMessages` of session.go with `writeMessage`. The variables of the loop and what was
-- handed to the socket are one record, and what a `select` chooses is an event. Times are
-- nanoseconds of the monotonic clock. The source stores the pointer that `Write` was given, the
-- table here the message: a caller that changes it afterwards is not modelled.
pub mod Resend
pub mod Ticker
pub mod History
pub mod Window
pub mod Reach
pub mod Retransmit
pub mod Frames
use ssmlib.Common.{
  ℕ, suc, ◌+◌, ◌*◌, Bytes, Bool, true, false, ◌&&◌, not, List, [], ◌∷◌, ◌++◌, Option, none, some,
  length, ltb, ◌==◌, if◌then◌else◌,
}
use mathlib.Core.Option
use ssmlib.Common.Table.{lookup, insert, delete}
use ssmlib.Common.Words.{u64}
use ssmlib.Errors.{Error, ack_timeout, marshal_outgoing_failed, send_outgoing_failed}
use ssmlib.Messages.AgentMessageFlag
use ssmlib.Messages.Message.{AgentMessage}
use ssmlib.Messages.Create.{Result, ok, err}
use ssmlib.Messages.Codec.{marshal_binary}
use ssmlib.Session.Verdict.{Verdict, go_on, stop}

pub record Unacknowledged : Type 0 where
  pub message : AgentMessage
  pub first_send_time : ℕ
  pub last_send_time : ℕ

pub record Outgoing : Type 0 where
  pub next_outgoing_sequence_number : ℕ
  pub unacknowledged_messages : List (ℕ × Unacknowledged)
  pub write_throttled : Bool
  -- the data that `WriteMessage` of the socket was called with
  pub written : List Bytes

abbrev pub start : Outgoing
start = record {
  next_outgoing_sequence_number = 0;
  unacknowledged_messages = [];
  write_throttled = false;
  written = [];
}

abbrev pub max_inflight_messages : ℕ
max_inflight_messages = 10

abbrev pub resend_interval_duration : ℕ
resend_interval_duration = 1_000_000_000

abbrev pub resend_timeout_duration : ℕ
resend_timeout_duration = 60 * 1_000_000_000

-- What the `select` may choose. A message that is sent comes with the two readings of the clock;
-- a tick comes with the time and with the order in which the map is ranged over.
pub data Event : Type 0 where
  ack_received : ℕ → Event
  control_message : AgentMessage → Event
  outgoing_message : AgentMessage → ℕ → ℕ → Event
  write_throttle : Event
  resend_ticker : ℕ → List ℕ → Event
  ctx_done : Error → Event

-- The channel is nil while the window is full or the writer is throttled.
unfoldable pub takes_messages : Outgoing → Bool
takes_messages st =
    ltb (length st.unacknowledged_messages) max_inflight_messages && not st.write_throttled

-- The error of a write goes to the log alone.
abbrev pub with_written : Option Bytes → List Bytes → List Bytes
with_written none bs = bs
with_written (some b) bs = bs ++ (b ∷ [])

unfoldable pub on_ack : ℕ → Outgoing → Outgoing
on_ack seq_number st = record st {
  unacknowledged_messages = delete seq_number st.unacknowledged_messages;
}

-- The number and the flag that a message gets before it is written.
unfoldable pub stamp : ℕ → AgentMessage → AgentMessage
stamp n msg =
    if n == 0 && not (msg.flags == AgentMessageFlag.fin)
    then record msg { sequence_number = n; flags = AgentMessageFlag.syn }
    else record msg { sequence_number = n }

-- The data that reaches the socket, and the error of marshalling or of the socket.
abbrev pub octets_of : Result Bytes → Option Bytes
octets_of (ok octets) = some octets
octets_of (err e) = none

abbrev pub error_of : (Bytes → Option Error) → Result Bytes → Option Error
error_of write (ok octets) = Option.map send_outgoing_failed (write octets)
error_of write (err e) = some (marshal_outgoing_failed e)

-- `SHA-256` and the socket, whose answer is an error or none.
module _ (sha256 : Bytes → Bytes) (write : Bytes → Option Error) where
  -- The message as marshalling leaves it, the data that was written, and the error.
  unfoldable pub write_message : AgentMessage → AgentMessage × Option Bytes × Option Error
  write_message msg =
      let (msg', result) = marshal_binary sha256 msg in
      (msg', octets_of result, error_of write result)

  unfoldable pub on_control : AgentMessage → Outgoing → Outgoing
  on_control msg st = record st { written = with_written (write_message msg).1 st.written }

  unfoldable pub on_outgoing : AgentMessage → ℕ → ℕ → Outgoing → Outgoing
  on_outgoing msg first last st =
      let n = st.next_outgoing_sequence_number in
      let sent = write_message (stamp n msg) in
      record st {
        unacknowledged_messages =
            insert n (record { message = sent.0; first_send_time = first; last_send_time = last })
              st.unacknowledged_messages;
        next_outgoing_sequence_number = u64 (n + 1);
        write_throttled = true;
        written = with_written sent.1 st.written;
      }

  -- The message is written again, and its entry is stored with the time.
  unfoldable pub resend_one : ℕ → ℕ → Unacknowledged → Outgoing → Outgoing
  resend_one now k u st =
      let sent = write_message u.message in
      record st {
        unacknowledged_messages =
            insert k (record u { message = sent.0; last_send_time = now })
              st.unacknowledged_messages;
        written = with_written sent.1 st.written;
      }

  -- The loop over the map: a difference of times is compared by moving the subtrahend over.
  unfoldable pub resend : ℕ → List ℕ → Outgoing → Outgoing × Verdict
  resend now [] st = (st, go_on)
  resend now (k ∷ ks) st = elim (lookup k st.unacknowledged_messages) [
    | none ↦ resend now ks st
    | some u ↦
        let rest = resend now ks (
          if ltb (u.last_send_time + resend_interval_duration) now
          then resend_one now k u st
          else st) in
        if ltb (u.first_send_time + resend_timeout_duration) now
        then (st, stop ack_timeout)
        else rest
  ]

  -- One round of the loop; `none` where the `select` cannot choose the event.
  unfoldable pub step : Outgoing → Event → Option (Outgoing × Verdict)
  unfolding takes_messages
  step st (ack_received n) = some (on_ack n st, go_on)
  step st (control_message msg) = some (on_control msg st, go_on)
  step st (outgoing_message msg first last) =
      if takes_messages st then some (on_outgoing msg first last st, go_on) else none
  step st write_throttle =
      if st.write_throttled then some (record st { write_throttled = false }, go_on) else none
  step st (resend_ticker now keys) = some (resend now keys st)
  step st (ctx_done cause) = some (st, stop cause)
