-- ===== src/Examples/Outgoing.antt =====
-- The loop of `handleOutgoingMessages` in session.go: a message is accepted, its acknowledgement
-- does not come, and the ticker fires.
use ssmlib.Common.{
  ℕ, ◌≡◌, ◌↔◌, refl, Bytes, codes, false, List, [], ◌∷◌, ◌++◌, Option, none, some, replicate, In,
  inl, arith,
}
use ssmlib.Common.Table.{lookup, insert}
use mathlib.Core.List.{flatten}
use ssmlib.Errors.{Error, ack_timeout}
use ssmlib.Messages.Wire.{unix_nano}
use ssmlib.Messages.Message.{AgentMessage}
use ssmlib.Messages.Create.{new_stream_message}
use ssmlib.Messages.Codec.{seal, wire}
use ssmlib.Session.Verdict.{go_on, stop}
use ssmlib.Session.Outgoing.{
  Unacknowledged, Outgoing, start, Event, outgoing_message, write_throttle, resend_ticker,
  takes_messages, stamp, write_message, on_outgoing, resend, step,
}
use ssmlib.Session.Outgoing.Ticker.{resend_timeout_iff}
use ssmlib.Session.Outgoing.Retransmit.{Resends, resend_writes_due}
use ssmlib.Session.Outgoing.History.{Window}
use ssmlib.Session.Outgoing.Reach.{Reach, idle, next, reached-Window}
use ssmlib.Examples.Wire.{zeros}

abbrev pub socket : Bytes → Option Error
socket s = none

abbrev pub hello : AgentMessage
hello = new_stream_message (unix_nano 1700000000000000000) (replicate 16 7) (codes "hello")

-- After the message, which was first sent at the time 5.
abbrev sent : Outgoing
sent = on_outgoing zeros socket hello 5 6 start

-- After the throttle too.
abbrev free : Outgoing
free = record sent { write_throttled = false }

-- Two seconds later.
abbrev pub resent : Outgoing
resent = (resend zeros socket 2_000_000_000 (0 ∷ []) free).0

first_step : step zeros socket start (outgoing_message hello 5 6) ≡ some (sent, go_on)
unfolding step takes_messages
first_step = refl

second_step : step zeros socket sent write_throttle ≡ some (free, go_on)
unfolding step on_outgoing
second_step = refl

third_step : step zeros socket free (resend_ticker 2_000_000_000 (0 ∷ [])) ≡ some (resent, go_on)
unfolding step resend on_outgoing lookup insert
third_step = refl

abbrev pub events : List Event
events = resend_ticker 2_000_000_000 (0 ∷ []) ∷ write_throttle ∷ outgoing_message hello 5 6 ∷ []

pub resent-Reach : Reach zeros socket events resent
resent-Reach =
    next (resend_ticker 2_000_000_000 (0 ∷ []))
      (next write_throttle (next (outgoing_message hello 5 6) idle first_step) second_step)
      third_step

reached-Window_example : Window events resent
reached-Window_example = reached-Window zeros socket resent-Reach (omega arith)

-- The entry of the message.
abbrev entry : Unacknowledged
entry = record {
  message = (write_message zeros socket (stamp 0 hello)).0;
  first_send_time = 5;
  last_send_time = 6;
}

entry_found : lookup 0 free.unacknowledged_messages ≡ some entry
unfolding lookup insert on_outgoing
entry_found = refl

resend_timeout_example : (resend zeros socket 60_000_000_006 (0 ∷ []) free).1 ≡ stop ack_timeout
resend_timeout_example =
    (resend_timeout_iff zeros socket 60_000_000_006 (0 ∷ []) free).1
      (0, entry, inl refl, entry_found, omega arith)

abbrev octets : Bytes
octets = flatten (wire (seal zeros entry.message))

no_timeout : (resend zeros socket 2_000_000_000 (0 ∷ []) free).1 ≡ go_on
unfolding resend on_outgoing lookup insert
no_timeout = refl

resend_writes_due_example :
    (again : List Bytes) × (resent.written ≡ free.written ++ again)
    × ((b : Bytes)
        → In b again ↔ (
            (k : ℕ) × In k (0 ∷ [])
            × Resends zeros socket 2_000_000_000 free.unacknowledged_messages k b))
resend_writes_due_example =
    resend_writes_due zeros socket 2_000_000_000 (0 ∷ []) free ((λ i. i), tt) no_timeout
