-- ===== src/Handler/Handshake.antt =====
-- `PerformHandshake` of handler/handshake.go. What the session's `Read` gives is a list of answers,
-- at whose end `Read` waits; its `Write` and encoding/json are parameters.
pub mod Protocol
use ssmlib.Common.{ℕ, Bytes, codes, List, [], ◌∷◌, Option, none, some, ◌==◌, if◌then◌else◌}
use ssmlib.Errors.{
  Error, session_handshake, unmarshal_handshake, create_handshake_resp, send_handshake_resp,
}
use ssmlib.Messages.PayloadType
use ssmlib.Messages.Types.{HandshakeRequestPayload, HandshakeResponsePayload}
use ssmlib.Messages.Wire.{Time}
use ssmlib.Messages.Message.{AgentMessage}
use ssmlib.Messages.Create.{Result, ok, err, new_handshake_response}

abbrev pub client_version : Bytes
client_version = codes "1.2.331.1"

-- The parts that are not under the model's control.
pub record Peer : Type 0 where
  pub unmarshal : Bytes → Result HandshakeRequestPayload
  pub marshal : HandshakeResponsePayload → Result Bytes
  pub write : AgentMessage → Option Error
  pub now : Time
  pub new_uuid : Bytes

-- How a call stands: what it returned if it did, what it wrote, and the answers that `Read` has left.
pub record Call : Type 0 where
  pub returned : Option (Result Bytes)
  pub written : List AgentMessage
  pub left : List (Result AgentMessage)

-- The two loops that read up to a message of a payload type; `none` while they wait.
unfoldable pub wait_for :
    ℕ → List (Result AgentMessage) → Option (Result AgentMessage × List (Result AgentMessage))
wait_for t [] = none
wait_for t (err e ∷ reads) = some (err (session_handshake e), reads)
wait_for t (ok msg ∷ reads) =
    let later = wait_for t reads in if msg.payload_type == t then some (ok msg, reads) else later

-- From "Wait for handshake completion" on.
unfoldable pub await_completion : Bytes → List AgentMessage → List (Result AgentMessage) → Call
await_completion version sent reads = elim (wait_for PayloadType.handshake_complete reads) [
  | none ↦ record { returned = none; written = sent; left = [] }
  | some (err e, left) ↦ record { returned = some (err e); written = sent; left = left }
  | some (ok msg, left) ↦ record { returned = some (ok version); written = sent; left = left }
]

-- From "Send handshake response" on. A message whose write fails counts as written.
unfoldable pub respond : Peer → HandshakeRequestPayload → List (Result AgentMessage) → Call
respond peer request reads =
    elim (new_handshake_response peer.marshal peer.now peer.new_uuid client_version
      request.requested_client_actions) [
        | err e ↦ record {
          returned = some (err (create_handshake_resp e));
          written = [];
          left = reads;
        }
        | ok resp ↦ elim (peer.write resp) [
          | some e ↦ record {
            returned = some (err (send_handshake_resp e));
            written = resp ∷ [];
            left = reads;
          }
          | none ↦ await_completion request.agent_version (resp ∷ []) reads
        ]
      ]

-- `HandshakeResult` has the one field, the remote version.
unfoldable pub perform_handshake : Peer → List (Result AgentMessage) → Call
perform_handshake peer reads = elim (wait_for PayloadType.handshake_request reads) [
  | none ↦ record { returned = none; written = []; left = [] }
  | some (err e, left) ↦ record { returned = some (err e); written = []; left = left }
  | some (ok msg, left) ↦ elim (peer.unmarshal msg.payload) [
    | err e ↦ record { returned = some (err (unmarshal_handshake e)); written = []; left = left }
    | ok request ↦ respond peer request left
  ]
]
