-- ===== src/Examples/Receiving.antt =====
-- Two data messages of an agent on their way to the writer.
use ssmlib.Common.{
  ℕ, ◌≡◌, refl, sym, ap, ◌∙◌, Bytes, codes, false, [], ◌∷◌, Option, none, PrefixOf, inl, inr, arith,
}
use mathlib.Core.List.{map, flatten}
use ssmlib.Common.Table.{lookup, insert, delete}
use ssmlib.Errors.{Error, external}
use ssmlib.Messages.Text.{bytes_eq, parse_message_type, convert_message_type}
use ssmlib.Messages.Wire.{unix_milli, big_endian, parse_time}
use ssmlib.Messages.Message.{AgentMessage, empty_message}
use ssmlib.Messages.Create.{Result, ok, err, new_acknowledgement_message, new_agent_message}
use ssmlib.Messages.Codec.{
  done, wire, format_uuid_bytes, read_payload_type, read_basic_header, read_payload,
  unmarshal_binary, validate_message,
}
use ssmlib.Session.Incoming.{
  run, step, on_data, on_message, acknowledge_or_hold, deliver, drain, on_output, read_message,
  send_acknowledge_message, take_held,
}
use ssmlib.Session.Client.{Channels, channel, init, send, read, put_incoming}
use ssmlib.Session.Client.Fifo.{Reach, made, read_call, put_incoming_call}
use ssmlib.Handler.Copy.{Context, nothing, write_payload, copy_session_reader_to_writer}
use ssmlib.Receiving.{Numbered, IsFrom, written_in_order, acknowledged_written, arrived_written}
use ssmlib.Examples.Wire.{frame}
use ssmlib.Examples.Incoming.{
  env, frames, reached, run_goes_on, frames-IsOctets, below_two, both-IsArrived,
}

abbrev greeting : Numbered
greeting n = (1, codes "hello")

abbrev parsed : ℕ → AgentMessage
parsed q = (unmarshal_binary env.sha256 empty_message (frame q)).0

abbrev content : AgentMessage → ℕ × Bytes
content m = (m.payload_type, m.payload)

parsed_content :
    (content (parsed 0) ≡ (1, codes "hello")) × (content (parsed 1) ≡ (1, codes "hello"))
unfolding unmarshal_binary flatten wire convert_message_type format_uuid_bytes big_endian
    read_payload_type read_basic_header read_payload validate_message bytes_eq parse_message_type
    parse_time unix_milli
parsed_content = (refl, refl)

abbrev octets : Result Bytes → Bytes
octets (ok s) = s
octets (err e) = []

read_content :
    (q : ℕ) (s : Bytes) (msg : AgentMessage)
    → content (parsed q) ≡ (1, codes "hello")
    → ok (frame q) ≡ ok s
    → unmarshal_binary env.sha256 empty_message s ≡ (msg, done)
    → content msg ≡ (1, codes "hello")
read_content q s msg known same e =
    sym (ap (λ r. content r.0) e)
    ∙ ap (λ (r : Result Bytes). content (unmarshal_binary env.sha256 empty_message (octets r)).0)
        (sym same)
    ∙ known

frames-IsFrom : IsFrom env greeting frames
frames-IsFrom s msg (inl same) e t = read_content 1 s msg parsed_content.1 same e
frames-IsFrom s msg (inr (inl same)) e t = read_content 0 s msg parsed_content.0 same e
frames-IsFrom s msg (inr (inr none_left)) e t = absurd none_left

-- Both were delivered and read.
abbrev after : AgentMessage → AgentMessage → Channels
after a b = record init { delivered = a ∷ b ∷ []; returned = a ∷ b ∷ [] }

after-Reach : (a b : AgentMessage) → Reach (after a b)
unfolding put_incoming read send
after-Reach a b =
    read_call channel {r = ok b}
      (put_incoming_call {c' = queued} b
        (read_call {c = first} {c' = taken} channel {r = ok a} (put_incoming_call a made refl) refl)
        refl)
      refl
  where
    first : Channels
    first = record init { delivered = a ∷ []; incoming_data_messages = a ∷ [] }

    taken : Channels
    taken = record init { delivered = a ∷ []; returned = a ∷ [] }

    queued : Channels
    queued = record taken { delivered = a ∷ b ∷ []; incoming_data_messages = b ∷ [] }

abbrev both : Channels
both = after (parsed 0) (parsed 1)

both-Reach : Reach both
both-Reach = after-Reach (parsed 0) (parsed 1)

both_delivered : both.delivered ≡ reached.delivered
unfolding run step on_data unmarshal_binary flatten wire convert_message_type format_uuid_bytes
    big_endian read_payload_type read_basic_header read_payload validate_message bytes_eq
    parse_message_type parse_time on_message delete insert lookup new_acknowledgement_message
    new_agent_message unix_milli acknowledge_or_hold deliver drain on_output read_message
    send_acknowledge_message take_held
both_delivered = refl

abbrev ctx : Context
ctx = record { is_done = λ n. false; ctx_err = external 1 }

abbrev accept : Bytes → Option Error
accept s = none

written_in_order_example :
    PrefixOf
      (copy_session_reader_to_writer ctx accept
        (ok (parsed 0) ∷ ok (parsed 1) ∷ err (external 3) ∷ [])
        nothing).0.handed
      (codes "hello" ∷ codes "hello" ∷ [])
written_in_order_example =
    written_in_order env ctx accept greeting frames both (external 3 ∷ []) frames-IsFrom both-Reach
      both_delivered

copy_waits : (copy_session_reader_to_writer ctx accept (map ok both.returned) nothing).1 ≡ none
unfolding copy_session_reader_to_writer write_payload unmarshal_binary flatten wire
    convert_message_type format_uuid_bytes big_endian read_payload_type read_basic_header
    read_payload validate_message bytes_eq parse_message_type parse_time unix_milli
copy_waits = refl

acknowledged_written_example :
    PrefixOf
      (codes "hello" ∷ codes "hello" ∷ [])
      (copy_session_reader_to_writer ctx accept (map ok both.returned) nothing).0.handed
acknowledged_written_example =
    acknowledged_written env ctx accept greeting frames reached both 2 frames-IsFrom frames-IsOctets
      run_goes_on (omega arith) below_two both-Reach both_delivered refl copy_waits

arrived_written_example :
    PrefixOf
      (codes "hello" ∷ codes "hello" ∷ [])
      (copy_session_reader_to_writer ctx accept (map ok both.returned) nothing).0.handed
arrived_written_example =
    arrived_written env ctx accept greeting frames reached both 2 frames-IsFrom frames-IsOctets
      (omega arith) run_goes_on (omega arith) both-IsArrived both-Reach both_delivered refl
      copy_waits
