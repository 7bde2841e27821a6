-- ===== src/Examples/Handlers.antt =====
-- The handshake and the copy loops of the package handler on some messages.
use ssmlib.Common.{
  ℕ, ◌≡◌, ◌↔◌, All, refl, Bytes, codes, false, List, [], ◌∷◌, Option, none, some, replicate, arith,
}
use mathlib.Core.List.{map}
use ssmlib.Errors.{Error, external, read_data}
use ssmlib.Messages.PayloadType
use ssmlib.Messages.Types.{
  RequestedClientAction, ProcessedClientAction, session_type, kms_encryption,
}
use ssmlib.Messages.Wire.{Time, unix_nano}
use ssmlib.Messages.Message.{AgentMessage, empty_message}
use ssmlib.Messages.Create.{
  Result, ok, new_agent_message, new_handshake_response, handshake_payload,
}
use ssmlib.Messages.Answers.{response_answers}
use ssmlib.Handler.Handshake.{Peer, client_version, perform_handshake}
use ssmlib.Handler.Handshake.Protocol.{Exchange, succeeded, handshake_succeeds_iff}
use ssmlib.Handler.Copy.{Context, ReadResult, nothing, copy_reader_to_session_writer}
use ssmlib.Handler.Terminal.{start, on_tick, update_terminal_size}
use ssmlib.Handler.Stream.{Stream, get_terminal_size, sizes}
use ssmlib.Handler.Terminal.Updates.{last_of, NoRepeat, size_message, terminal_size_synced}
use ssmlib.Handler.Copy.Input.{sent, copy_input_all}

abbrev shell : RequestedClientAction
shell = record { action_type = session_type; action_parameters = [] }

abbrev kms : RequestedClientAction
kms = record { action_type = kms_encryption; action_parameters = [] }

response_answers_example :
    let answer = handshake_payload client_version (shell ∷ kms ∷ []) in
    (map (λ (p : ProcessedClientAction). p.action_type) answer.processed_client_actions
      ≡ session_type ∷ kms_encryption ∷ [])
    × ((answer.errors ≡ [])
        ↔ All (λ (a : RequestedClientAction). a.action_type ≡ session_type) (shell ∷ kms ∷ []))
response_answers_example = response_answers client_version (shell ∷ kms ∷ [])

abbrev message : ℕ → Bytes → AgentMessage
message t content = record empty_message { payload_type = t; payload = content }

abbrev pub peer : Peer
peer = record {
  unmarshal = λ s. ok (record { agent_version = s; requested_client_actions = shell ∷ [] });
  marshal = λ p. ok (codes "response");
  write = λ m. none;
  now = unix_nano 1700000000000000000;
  new_uuid = replicate 16 7;
}

abbrev pub exchanged : List (Result AgentMessage)
exchanged =
    ok (message PayloadType.output (codes "noise"))
    ∷ ok (message PayloadType.handshake_request (codes "3.1.0.0"))
    ∷ ok (message PayloadType.handshake_complete [])
    ∷ []

abbrev pub response : AgentMessage
response = record (new_agent_message peer.now peer.new_uuid) {
  message_type = codes "input_stream_data";
  payload_type = PayloadType.handshake_response;
  payload = codes "response";
}

response_made :
    new_handshake_response peer.marshal peer.now peer.new_uuid client_version (shell ∷ [])
    ≡ ok response
unfolding new_handshake_response new_agent_message
response_made = refl

pub exchanged-Exchange : Exchange peer exchanged (codes "3.1.0.0") (response ∷ []) []
exchanged-Exchange = record {
  request_message = message PayloadType.handshake_request (codes "3.1.0.0");
  request = record { agent_version = codes "3.1.0.0"; requested_client_actions = shell ∷ [] };
  resp = response;
  completion = message PayloadType.handshake_complete [];
  between = ok (message PayloadType.handshake_complete []) ∷ [];
  asked = record {
    skipped = ok (message PayloadType.output (codes "noise")) ∷ [];
    all_skipped = (λ e. absurd (omega (arith, e)), tt);
    is_type = refl;
    splits = refl;
  };
  understood = refl;
  answered = response_made;
  accepted = refl;
  completed = record { skipped = []; all_skipped = tt; is_type = refl; splits = refl };
  version = refl;
  wrote = refl;
}

handshake_succeeds_example :
    perform_handshake peer exchanged ≡ succeeded (codes "3.1.0.0") (response ∷ []) []
handshake_succeeds_example =
    (handshake_succeeds_iff peer exchanged [] (codes "3.1.0.0") (response ∷ [])).1
      exchanged-Exchange

abbrev ctx : Context
ctx = record { is_done = λ n. false; ctx_err = external 0 }

-- The last bytes come with the error.
abbrev typed : List ReadResult
typed =
    record { content = codes "ls"; read_error = none }
    ∷ record { content = codes "!"; read_error = some (external 1) }
    ∷ []

abbrev clock : ℕ → Time
clock n = unix_nano n

abbrev ids : ℕ → Bytes
ids n = replicate 16 n

abbrev accept : AgentMessage → Option Error
accept m = none

copy_input_all_example :
    (sent (copy_reader_to_session_writer ctx accept clock ids typed nothing).0 ≡ codes "ls!")
    × ((copy_reader_to_session_writer ctx accept clock ids typed nothing).1
        ≡ some (read_data (external 1)))
copy_input_all_example = copy_input_all ctx accept clock ids typed (λ n. refl) (λ m. refl)

-- The window is made wider, and stays so for a tick.
abbrev ticks : List (ℕ × ℕ)
ticks = (80, 24) ∷ (120, 24) ∷ (120, 24) ∷ []

-- Stands for `json.Marshal`: the two numbers as two bytes.
abbrev marshal_size : ℕ × ℕ → Result Bytes
marshal_size (width, height) = ok (width ∷ height ∷ [])

terminal_size_synced_example :
    let st = update_terminal_size marshal_size accept clock ids ticks start in
    (st.updates ≡ (80, 24) ∷ (120, 24) ∷ [])
    × (st.written
        ≡ size_message (clock 0) (ids 0) (80 ∷ 24 ∷ [])
          ∷ size_message (clock 1) (ids 1) (120 ∷ 24 ∷ [])
          ∷ [])
    × (last_of (0, 0) st.updates ≡ (120, 24))
    × NoRepeat (0, 0) st.updates
terminal_size_synced_example = terminal_size_synced marshal_size accept clock ids ticks

-- A stream that writes to a pipe.
abbrev piped : Stream
piped = record { terminal_size = none; writer_fd = none }

-- It sends the default size once.
default_size_once :
    (update_terminal_size
      (λ size. ok [])
      accept
      clock
      ids
      (sizes (get_terminal_size (λ fd tick. (100, 40)) piped) 4)
      start).updates
    ≡ (80, 24) ∷ []
unfolding update_terminal_size on_tick get_terminal_size
default_size_once = refl
