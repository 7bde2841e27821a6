-- ===== src/Session/Incoming.antt =====
-- `handleIncomingMessages` of session.go with `sendAcknowledgeMessage` and `readMessage`. The
-- variables of the loop and what it has sent on the session's channels are one record. Each time
-- the code consults the context (`ctx.Err()`, or a `select` with `<-ctx.Done()`) the environment
-- says whether it finds it done; any answers are allowed.
pub mod Drain
pub mod Loop
pub mod Order
pub mod Settled
pub mod Delivery
pub mod Promises
pub mod Arrival
pub mod Progress
use ssmlib.Common.{
  ℕ, zero, suc, ◌+◌, Bytes, Bool, true, false, List, [], ◌∷◌, ◌++◌, Option, none, some, length, ltb,
  ◌==◌, if◌then◌else◌,
}
use ssmlib.Common.Table.{lookup, insert, delete}
use ssmlib.Common.Words.{u64, int64_ge}
use ssmlib.Errors.{
  Error, create_acknowledgment_failed, queue_acknowledgment_failed, read_websocket_message_failed,
  unmarshal_message_failed, remote_ssm_closed_pipe, websocket_closed, read_websocket_failed,
}
pub use ssmlib.Session.Verdict.{Verdict, go_on, stop, crashed}
use ssmlib.Messages.Types.{
  AckContent, acknowledge, pause_publication, start_publication, output_stream_data, channel_closed,
}
use ssmlib.Messages.Wire.{Time}
use ssmlib.Messages.Text.{bytes_eq}
use ssmlib.Messages.Message.{AgentMessage, empty_message}
use ssmlib.Messages.Create.{Result, ok, err, new_acknowledgement_message, parse_acknowledgment}
use ssmlib.Messages.Codec.{Outcome, done, failed, panicked, unmarshal_binary}

-- What the loop takes from outside: the context, the clock, the uuid package, encoding/json,
-- SHA-256 and the test for a close error of the websocket package. Where an answer may change from
-- one use to the next it depends on how often the context was consulted before.
pub record Env : Type 0 where
  pub is_done : ℕ → Bool
  pub cause : Error
  pub ctx_err : Error
  pub now : ℕ → Time
  pub new_uuid : ℕ → Bytes
  pub uuid_string : Bytes → Bytes
  pub marshal_ack : AckContent → Result Bytes
  pub unmarshal_ack : Bytes → Result ℕ
  pub sha256 : Bytes → Bytes
  pub is_close_error : Error → Bool

pub record Incoming : Type 0 where
  pub out_of_order : List (ℕ × AgentMessage)
  pub expected_sequence_id : ℕ
  pub consulted : ℕ
  -- what went to `incomingDataMessages`, `outgoingControlMessages` and `ackReceived`
  pub delivered : List AgentMessage
  pub control : List AgentMessage
  pub acks : List ℕ

abbrev pub start : Incoming
start = record {
  out_of_order = [];
  expected_sequence_id = 0;
  consulted = 0;
  delivered = [];
  control = [];
  acks = [];
}

abbrev pub max_out_of_order_messages : ℕ
max_out_of_order_messages = 50

abbrev pub consult : Incoming → Incoming
consult st = record st { consulted = suc st.consulted }

-- `case s.incomingDataMessages <- msg: expectedSequenceId += 1`.
unfoldable pub deliver : AgentMessage → Incoming → Incoming
deliver msg st = record st {
  consulted = suc st.consulted;
  delivered = st.delivered ++ (msg ∷ []);
  expected_sequence_id = u64 (st.expected_sequence_id + 1);
}

module _ (env : Env) where
  -- The map that is marshalled.
  abbrev pub ack_content : AgentMessage → AckContent
  ack_content msg = record {
    acknowledged_message_type = msg.message_type;
    acknowledged_message_id = env.uuid_string msg.message_id;
    acknowledged_message_sequence_number = msg.sequence_number;
  }

  -- The error is for the log of the caller alone.
  unfoldable pub send_acknowledge_message : AgentMessage → Incoming → Incoming × Option Error
  unfolding new_acknowledgement_message
  send_acknowledge_message msg st = elim (env.marshal_ack (ack_content msg)) [
    | err e ↦ (st, some (create_acknowledgment_failed e))
    | ok payload ↦
        if env.is_done st.consulted
        then (consult st, some (queue_acknowledgment_failed env.ctx_err))
        else (
          record st {
            consulted = suc st.consulted;
            control =
                st.control
                ++ (new_acknowledgement_message (env.now st.consulted) (env.new_uuid st.consulted)
                      msg.sequence_number payload
                    ∷ []);
          },
          none,
        )
  ]

  -- One round of the inner loop, when the buffered message could be delivered.
  unfoldable pub take_held : AgentMessage → Incoming → Incoming
  take_held msg st =
      let st' = (send_acknowledge_message msg st).0 in
      record (deliver msg st') { out_of_order = delete st'.expected_sequence_id st'.out_of_order }

  -- The inner loop. Each round deletes an entry, so one round for each entry and one to find
  -- nothing are enough.
  unfoldable pub drain : ℕ → Incoming → Incoming × Verdict
  drain zero st = (st, go_on)
  drain (suc fuel) st = elim (lookup st.expected_sequence_id st.out_of_order) [
    | none ↦ (st, go_on)
    | some msg ↦
        let st' = (send_acknowledge_message msg st).0 in
        elim (env.is_done st'.consulted) [
          | true ↦ (consult st', stop env.cause)
          | false ↦ drain fuel (take_held msg st)
        ]
  ]

  -- The acknowledgement of what is expected or was read before, and the buffer for what is ahead.
  unfoldable pub acknowledge_or_hold : AgentMessage → Incoming → Incoming
  acknowledge_or_hold msg st =
      if int64_ge st.expected_sequence_id msg.sequence_number
      then (send_acknowledge_message msg st).0
      else if ltb (length st.out_of_order) max_out_of_order_messages
      then (send_acknowledge_message msg
          (record st { out_of_order = insert msg.sequence_number msg st.out_of_order })).0
      else st

  -- `case messages.OutputStreamData`.
  unfoldable pub on_output : AgentMessage → Incoming → Incoming × Verdict
  on_output msg st =
      let st' = acknowledge_or_hold msg st in
      if st'.expected_sequence_id == msg.sequence_number
      then (if env.is_done st'.consulted
          then (consult st', stop env.cause)
          else drain (suc (length st'.out_of_order)) (deliver msg st'))
      else (st', go_on)

  -- `case messages.Acknowledge`.
  unfoldable pub on_acknowledge : AgentMessage → Incoming → Incoming × Verdict
  unfolding parse_acknowledgment
  on_acknowledge msg st = elim (parse_acknowledgment env.unmarshal_ack msg) [
    | err e ↦ (st, go_on)
    | ok n ↦
        if env.is_done st.consulted
        then (consult st, stop env.cause)
        else (record st { consulted = suc st.consulted; acks = st.acks ++ (n ∷ []) }, go_on)
  ]

  -- The switch on the message type.
  unfoldable pub on_message : AgentMessage → Incoming → Incoming × Verdict
  on_message msg st =
      if bytes_eq msg.message_type acknowledge
      then on_acknowledge msg st
      else if bytes_eq msg.message_type pause_publication
      then (st, go_on)
      else if bytes_eq msg.message_type start_publication
      then (st, go_on)
      else if bytes_eq msg.message_type output_stream_data
      then on_output msg st
      else if bytes_eq msg.message_type channel_closed
      then (st, stop remote_ssm_closed_pipe)
      else (st, go_on)

  -- `readMessage` on what the socket's `ReadMessage` gives.
  unfoldable pub read_message : Result Bytes → Result Bytes
  read_message (ok s) = ok s
  read_message (err e) =
      if env.is_close_error e then err websocket_closed else err (read_websocket_failed e)

  -- What follows a successful read.
  unfoldable pub on_data : Bytes → Incoming → Incoming × Verdict
  on_data s st =
      let (msg, outcome) = unmarshal_binary env.sha256 empty_message s in
      elim outcome [
        | done ↦ on_message msg st
        | failed e ↦ (st, stop (unmarshal_message_failed e))
        | panicked ↦ (st, crashed)
      ]

  -- One round of the loop, on what the socket has for it.
  unfoldable pub step : Result Bytes → Incoming → Incoming × Verdict
  unfolding read_message
  step frame st =
      let st' = consult st in
      if env.is_done st.consulted then (st', stop env.ctx_err) else elim (read_message frame) [
        | err e ↦ (st', stop (read_websocket_message_failed e))
        | ok s ↦ on_data s st'
      ]

  -- The loop over the frames of a connection; `go_on` at the end waits for the next frame.
  unfoldable pub run : List (Result Bytes) → Incoming → Incoming × Verdict
  run [] st = (st, go_on)
  run (frame ∷ frames) st =
      let (st', verdict) = step frame st in
      elim verdict [ go_on ↦ run frames st' | stop e ↦ (st', stop e) | crashed ↦ (st', crashed) ]
