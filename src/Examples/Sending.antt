-- ===== src/Examples/Sending.antt =====
-- A chunk that a reader gives, on its way to the socket.
use ssmlib.Common.{
  ℕ, ◌≡◌, ◌⊎◌, refl, Bytes, codes, false, List, [], ◌∷◌, ◌++◌, Option, none, some, length,
  replicate, PrefixOf, arith,
}
use ssmlib.Errors.{Error, external}
use ssmlib.Messages.Wire.{Time, unix_nano}
use ssmlib.Messages.Message.{AgentMessage}
use ssmlib.Session.Client.{Channels, channel, init, send, write, take_outgoing}
use ssmlib.Session.Client.Fifo.{Reach, made, write_call, take_outgoing_call}
use ssmlib.Session.Outgoing.History.{IsAcknowledged, IsHeld}
use ssmlib.Handler.Copy.{Context, ReadResult, nothing, write_chunk, copy_reader_to_session_writer}
use ssmlib.Handler.Copy.Input.{input}
use ssmlib.Sending.{bytes_of, sent_in_order}
use ssmlib.Examples.Wire.{zeros}
use ssmlib.Examples.Outgoing.{socket, hello, resent, events, resent-Reach}

abbrev ctx : Context
ctx = record { is_done = λ n. false; ctx_err = external 1 }

abbrev accept : AgentMessage → Option Error
accept m = none

abbrev now : ℕ → Time
now n = unix_nano 1700000000000000000

abbrev new_uuid : ℕ → Bytes
new_uuid n = replicate 16 7

abbrev reads : List ReadResult
reads = record { content = codes "hello"; read_error = none } ∷ []

abbrev queued : Channels
queued = record init { outgoing_messages = hello ∷ []; accepted = hello ∷ [] }

abbrev taken : Channels
taken = record init { accepted = hello ∷ []; taken = hello ∷ [] }

written : write hello channel init ≡ some (queued, none)
unfolding write send
written = refl

took : take_outgoing queued ≡ some taken
unfolding take_outgoing
took = refl

taken-Reach : Reach taken
taken-Reach = take_outgoing_call (write_call hello channel made written) took

all_accepted :
    PrefixOf taken.accepted
      (copy_reader_to_session_writer ctx accept now new_uuid reads nothing).0.handed
unfolding copy_reader_to_session_writer write_chunk
all_accepted = ([], refl)

sent_in_order_example :
    ((front : List AgentMessage) × (back : List AgentMessage) × (taken.taken
        ≡ front ++ (hello ∷ back))
      × (length front ≡ 0)
      × PrefixOf (bytes_of front ++ hello.payload) (input reads))
    × (IsAcknowledged 0 events ⊎ IsHeld 0 hello resent)
sent_in_order_example =
    sent_in_order ctx accept now new_uuid zeros socket reads taken events resent 0 hello
      all_accepted taken-Reach refl resent-Reach (omega arith) refl
