-- ===== src/Examples/Acknowledging.antt =====
-- An acknowledgement on its way to the socket, and a message that is sent twice.
use mathlib.Core.List.{flatten}
use ssmlib.Common.{
  ◌≡◌, ◌≢◌, refl, subst, ◌⊎◌, Bytes, codes, List, [], ◌∷◌, In, replicate, inl, inr, arith,
}
use ssmlib.Common.Table.{lookup, insert, delete}
use ssmlib.Messages.Types.{acknowledge}
use ssmlib.Messages.Text.{bytes_eq, parse_message_type, convert_message_type}
use ssmlib.Messages.Wire.{unix_nano, unix_milli, big_endian, parse_time}
use ssmlib.Messages.Message.{AgentMessage, empty_message}
use ssmlib.Messages.Create.{new_acknowledgement_message, new_agent_message}
use ssmlib.Messages.Codec.{
  done, wire, format_uuid_bytes, read_payload_type, read_basic_header, read_payload, seal,
  unmarshal_binary, marshal_binary, validate_message,
}
use ssmlib.Session.Incoming as Incoming
use ssmlib.Session.Incoming.{
  on_data, on_message, acknowledge_or_hold, deliver, drain, on_output, read_message,
  send_acknowledge_message, take_held,
}
use ssmlib.Session.Incoming.Settled.{Settled}
use ssmlib.Session.Outgoing.{
  Outgoing, Event, control_message, start, step, on_control, write_message,
}
use ssmlib.Session.Outgoing.Reach.{Reach, idle, next}
use ssmlib.Session.Outgoing.Frames.{controls}
use ssmlib.Acknowledging.{CanBeSent, acknowledgements_genuine}
use ssmlib.Examples.Wire.{zeros, All-IsPlain}
use ssmlib.Examples.Incoming.{env, frames, reached, frames-IsOctets, run_goes_on}
use ssmlib.Examples.Outgoing.{socket}

-- What the reader queues for the number 1.
abbrev ack : AgentMessage
ack = new_acknowledgement_message (unix_nano 1700000000000000000) (replicate 16 9) 1 (codes "ack")

ack_queued : In ack reached.control
unfolding Incoming.run Incoming.step on_data unmarshal_binary flatten wire convert_message_type
    format_uuid_bytes big_endian read_payload_type read_basic_header read_payload validate_message
    bytes_eq parse_message_type parse_time on_message delete insert lookup
    new_acknowledgement_message new_agent_message unix_milli acknowledge_or_hold deliver drain
    on_output read_message send_acknowledge_message take_held
ack_queued = inl refl

ack-CanBeSent : CanBeSent ack
unfolding new_acknowledgement_message new_agent_message
ack-CanBeSent = (
  1700000000000000000,
  record {
    go_types = record {
      header_length_u32 = omega arith;
      schema_version_u32 = omega arith;
      sequence_number_i64 = omega arith;
      flags_u64 = omega arith;
      message_id_array = refl;
      payload_type_u32 = omega arith;
      payload_length_u32 = omega arith;
    };
    full_header = refl;
    schema = omega arith;
    plain_type = All-IsPlain acknowledge refl;
    type_min = omega arith;
    type_max = omega arith;
    dated = refl;
    after_1970 = omega arith;
    payload_fits = omega arith;
  },
)

abbrev events : List Event
events = control_message ack ∷ []

abbrev written : Outgoing
written = on_control zeros socket ack start

written-Reach : Reach zeros socket events written
unfolding step
written-Reach = next (control_message ack) idle refl

abbrev frame : Bytes
frame = flatten (wire (seal zeros ack))

frame_written : In frame written.written
unfolding on_control write_message marshal_binary seal validate_message new_acknowledgement_message
    new_agent_message bytes_eq
frame_written = inl refl

-- The message as the peer reads it.
abbrev seen : AgentMessage
seen = (unmarshal_binary zeros empty_message frame).0

frame_read : unmarshal_binary zeros empty_message frame ≡ (seen, done)
unfolding unmarshal_binary flatten wire convert_message_type format_uuid_bytes big_endian seal
    read_payload_type read_basic_header read_payload validate_message bytes_eq parse_message_type
    parse_time new_acknowledgement_message new_agent_message unix_milli
frame_read = refl

acknowledgement_seen : seen.message_type ≡ acknowledge
unfolding unmarshal_binary flatten wire convert_message_type format_uuid_bytes big_endian seal
    read_payload_type read_basic_header read_payload validate_message bytes_eq parse_message_type
    parse_time new_acknowledgement_message new_agent_message unix_milli
acknowledgement_seen = refl

controls_queued :
    (m : AgentMessage)
    → In m (controls events)
    → CanBeSent m × (In m reached.control ⊎ (m.message_type ≢ acknowledge))
controls_queued m (inl e) =
    subst
      (λ (x : AgentMessage). CanBeSent x × (In x reached.control ⊎ (x.message_type ≢ acknowledge)))
      e (ack-CanBeSent, inl ack_queued)
controls_queued m (inr nowhere) = absurd nowhere

acknowledgements_genuine_example : Settled reached seen.sequence_number
acknowledgements_genuine_example =
    acknowledgements_genuine env (λ s. refl) socket frames reached frame seen frames-IsOctets
      run_goes_on written-Reach (omega arith) controls_queued (λ m i. absurd i) frame_written
      frame_read acknowledgement_seen
