-- ===== src/Examples/Incoming.antt =====
-- The loop of `handleIncomingMessages` in session.go on two data messages that arrive in the
-- wrong order.
use ssmlib.Common.{
  ℕ, zero, suc, ◌≤◌, ◌<◌, ◌≡◌, refl, Bytes, codes, false, List, [], ◌∷◌, length, replicate, All,
  inl, inr, arith,
}
use ssmlib.Errors.{external}
use mathlib.Core.List.{flatten}
use ssmlib.Common.Table.{lookup, insert, delete}
use ssmlib.Messages.Text.{bytes_eq, parse_message_type, convert_message_type}
use ssmlib.Messages.Codec.{
  done, wire, format_uuid_bytes, read_payload_type, read_basic_header, read_payload,
  unmarshal_binary, validate_message,
}
use ssmlib.Messages.Wire.{unix_nano, unix_milli, big_endian, parse_time}
use ssmlib.Messages.Create.{Result, ok, new_acknowledgement_message, new_agent_message}
use ssmlib.Session.Incoming.{
  Env, Incoming, go_on, start, run, step, on_data, on_message, acknowledge_or_hold, deliver, drain,
  on_output, read_message, send_acknowledge_message, take_held,
}
use ssmlib.Session.Incoming.Order.{Consecutive}
use ssmlib.Session.Incoming.Settled.{HasSeq}
use ssmlib.Session.Incoming.Promises.{
  Arrived, IsOctets, delivered_in_order, acknowledged_prefix_delivered,
}
use ssmlib.Session.Incoming.Arrival.Delivered.{IsArrived}
use ssmlib.Messages.Types.{output_stream_data}
use ssmlib.Messages.Message.{AgentMessage, empty_message}
use ssmlib.Examples.Wire.{zeros, frame, All-IsByte, frame_ok}

abbrev pub env : Env
env = record {
  is_done = λ n. false;
  cause = external 0;
  ctx_err = external 1;
  now = λ n. unix_nano 1700000000000000000;
  new_uuid = λ n. replicate 16 9;
  uuid_string = λ id. id;
  marshal_ack = λ c. ok (codes "ack");
  unmarshal_ack = λ s. ok 0;
  sha256 = zeros;
  is_close_error = λ e. false;
}

abbrev pub frames : List (Result Bytes)
frames = ok (frame 1) ∷ ok (frame 0) ∷ []

abbrev pub reached : Incoming
reached = (run env frames start).0

pub run_goes_on : run env frames start ≡ (reached, go_on)
unfolding run step on_data unmarshal_binary flatten wire convert_message_type format_uuid_bytes
    big_endian read_payload_type read_basic_header read_payload validate_message bytes_eq
    parse_message_type parse_time on_message delete insert lookup new_acknowledgement_message
    new_agent_message unix_milli acknowledge_or_hold deliver drain on_output read_message
    send_acknowledge_message take_held
run_goes_on = refl

pub frames-IsOctets : All IsOctets frames
frames-IsOctets = (All-IsByte (frame 1) frame_ok.1, (All-IsByte (frame 0) frame_ok.0, tt))

two_delivered : length reached.delivered ≡ 2
unfolding run step on_data unmarshal_binary flatten wire convert_message_type format_uuid_bytes
    big_endian read_payload_type read_basic_header read_payload validate_message bytes_eq
    parse_message_type parse_time on_message delete insert lookup new_acknowledgement_message
    new_agent_message unix_milli acknowledge_or_hold deliver drain on_output read_message
    send_acknowledge_message take_held
two_delivered = refl

two_acknowledged : HasSeq 0 reached.control × HasSeq 1 reached.control
unfolding run step on_data unmarshal_binary flatten wire convert_message_type format_uuid_bytes
    big_endian read_payload_type read_basic_header read_payload validate_message bytes_eq
    parse_message_type parse_time on_message delete insert lookup new_acknowledgement_message
    new_agent_message unix_milli acknowledge_or_hold deliver drain on_output read_message
    send_acknowledge_message take_held
two_acknowledged = (inr (inl refl), inl refl)

pub below_two : (q : ℕ) → q < 2 → HasSeq q reached.control
below_two zero h = two_acknowledged.0
below_two (suc zero) h = two_acknowledged.1
below_two (suc (suc q)) h = absurd (omega arith)

delivered_in_order_example :
    Consecutive 0 reached.delivered
    × All (Arrived env frames) reached.delivered
    × (length reached.out_of_order ≤ 50)
delivered_in_order_example = delivered_in_order env frames

acknowledged_prefix_delivered_example : 2 ≤ length reached.delivered
acknowledged_prefix_delivered_example =
    acknowledged_prefix_delivered env frames reached 2 frames-IsOctets run_goes_on (omega arith)
      below_two

-- The messages of the two frames, as they are read.
abbrev arrived : ℕ → AgentMessage
arrived q = (unmarshal_binary zeros empty_message (frame q)).0

arrived_read :
    (unmarshal_binary zeros empty_message (frame 0) ≡ (arrived 0, done))
    × (unmarshal_binary zeros empty_message (frame 1) ≡ (arrived 1, done))
    × ((arrived 0).message_type ≡ output_stream_data)
    × ((arrived 1).message_type ≡ output_stream_data)
    × ((arrived 0).sequence_number ≡ 0)
    × ((arrived 1).sequence_number ≡ 1)
unfolding unmarshal_binary flatten wire convert_message_type format_uuid_bytes big_endian
    read_payload_type read_basic_header read_payload validate_message bytes_eq parse_message_type
    parse_time unix_milli
arrived_read = (refl, refl, refl, refl, refl, refl)

pub both-IsArrived : (q : ℕ) → q < 2 → IsArrived env frames q
both-IsArrived zero h =
    (arrived 0, (frame 0, inr (inl refl), arrived_read.0, arrived_read.2), arrived_read.4)
both-IsArrived (suc zero) h =
    (arrived 1, (frame 1, inl refl, arrived_read.1, arrived_read.3), arrived_read.5)
both-IsArrived (suc (suc q)) h = absurd (omega arith)
