-- ===== src/Session/Client.antt =====
-- `Read`, `Write` and `Stop` of a `Session` of session.go, with the channels that they share with
-- the two loops. A channel is the list of what it holds; a send to a full one and a receive from
-- an empty one block, which is `none`.
pub mod Fifo
use ssmlib.Common.{
  ℕ, Bytes, Bool, true, false, List, [], ◌∷◌, ◌++◌, Option, none, some, length, ltb, if◌then◌else◌,
}
use mathlib.Core.Option
use ssmlib.Errors.{Error, session_stopped}
use ssmlib.Messages.Wire.{Time}
use ssmlib.Messages.Message.{AgentMessage}
use ssmlib.Messages.Create.{Result, ok, err, new_terminate_session_message}

-- The sizes with which `init` makes the channels.
abbrev pub capacity : ℕ
capacity = 20

unfoldable pub send : {A : Type 0} → A → List A → Option (List A)
send a queue = if ltb (length queue) capacity then some (queue ++ (a ∷ [])) else none

abbrev pub receive : {A : Type 0} → List A → Option (A × List A)
receive [] = none
receive (a ∷ queue) = some (a, queue)

-- The channels, and what went into and came out of two of them so far.
pub record Channels : Type 0 where
  pub outgoing_control_messages : List AgentMessage
  pub outgoing_messages : List AgentMessage
  -- the sequence numbers of the messages that were acknowledged
  pub ack_received : List ℕ
  pub incoming_data_messages : List AgentMessage
  -- what `Write` accepted and the outgoing loop took
  pub accepted : List AgentMessage
  pub taken : List AgentMessage
  -- what the incoming loop delivered and `Read` returned
  pub delivered : List AgentMessage
  pub returned : List AgentMessage

abbrev pub init : Channels
init = record {
  outgoing_control_messages = [];
  outgoing_messages = [];
  ack_received = [];
  incoming_data_messages = [];
  accepted = [];
  taken = [];
  delivered = [];
  returned = [];
}

-- The branch that a `select` of `Read` or `Write` takes; the last two give the error of the
-- caller's context and the cause of the session's.
pub data Branch : Type 0 where
  channel : Branch
  ctx_done : Error → Branch
  errctx_done : Error → Branch

unfoldable pub read : Branch → Channels → Option (Channels × Result AgentMessage)
read channel c = elim (receive c.incoming_data_messages) [
  | none ↦ none
  | some (message, queue) ↦ some (
    record c { incoming_data_messages = queue; returned = c.returned ++ (message ∷ []) },
    ok message,
  )
]
read (ctx_done e) c = some (c, err e)
read (errctx_done cause) c = some (c, err (session_stopped cause))

unfoldable pub write : AgentMessage → Branch → Channels → Option (Channels × Option Error)
write message channel c = elim (send message c.outgoing_messages) [
  | none ↦ none
  | some queue ↦
      some (record c { outgoing_messages = queue; accepted = c.accepted ++ (message ∷ []) }, none)
]
write message (ctx_done e) c = some (c, some e)
write message (errctx_done cause) c = some (c, some (session_stopped cause))

-- `Stop` up to the deferred `signalStop`: the message is dropped where the channel is full.
unfoldable pub stop : Time → Bytes → Channels → Channels
stop now id c = elim (send (new_terminate_session_message now id) c.outgoing_control_messages) [
  | none ↦ c
  | some queue ↦ record c { outgoing_control_messages = queue }
]

-- The loops' ends of the channels: the incoming loop delivers, acknowledges and passes on the
-- acknowledgements that it receives, the outgoing loop takes.
unfoldable pub put_incoming : AgentMessage → Channels → Option Channels
put_incoming message c = elim (send message c.incoming_data_messages) [
  | none ↦ none
  | some queue ↦
      some (record c { incoming_data_messages = queue; delivered = c.delivered ++ (message ∷ []) })
]

unfoldable pub put_control : AgentMessage → Channels → Option Channels
put_control message c = elim (send message c.outgoing_control_messages) [
  | none ↦ none
  | some queue ↦ some (record c { outgoing_control_messages = queue })
]

unfoldable pub take_outgoing : Channels → Option Channels
take_outgoing c = elim (receive c.outgoing_messages) [
  | none ↦ none
  | some (message, queue) ↦
      some (record c { outgoing_messages = queue; taken = c.taken ++ (message ∷ []) })
]

unfoldable pub take_control : Channels → Option Channels
take_control c = elim (receive c.outgoing_control_messages) [
  | none ↦ none
  | some (message, queue) ↦ some (record c { outgoing_control_messages = queue })
]

unfoldable pub put_ack : ℕ → Channels → Option Channels
put_ack acknowledged_sequence c = elim (send acknowledged_sequence c.ack_received) [
  | none ↦ none
  | some queue ↦ some (record c { ack_received = queue })
]

unfoldable pub take_ack : Channels → Option (ℕ × Channels)
take_ack c = elim (receive c.ack_received) [
  | none ↦ none
  | some (seq_number, queue) ↦ some (seq_number, record c { ack_received = queue })
]
