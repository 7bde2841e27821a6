-- ===== src/Handler/MuxPortForward.antt =====
-- `MuxPortForward` of handler/muxPortForward.go: `Start` up to its first goroutine, and `Dial` with
-- the loop of the dial requests. Its life from the first goroutine on is that of Life.
pub mod Starting
pub mod Dialling
pub mod Lost
pub mod Many
pub mod Answering
use ssmlib.Common.{
  ℕ, Bytes, codes, Bool, true, false, ◌&&◌, ◌||◌, not, List, [], ◌∷◌, Option, none, some,
  if◌then◌else◌,
}
use ssmlib.Errors.{
  Error, handshake_failed, create_smux_client_failed, remote_version_not_supported, failed_dial,
}
use ssmlib.Messages.Message.{AgentMessage}
use ssmlib.Messages.Create.{Result, ok, err}
use ssmlib.Handler.Handshake.{Peer, perform_handshake}
use ssmlib.Version.{supports_version}

abbrev pub mux_supported : Bytes
mux_supported = codes "3.0.196.0"

abbrev pub smux_keep_alive_supported : Bytes
smux_keep_alive_supported = codes "3.1.1511.0"

-- How `Start` stands when it comes to its first goroutine, or does not: `started` says whether the
-- keep-alive of smux was disabled.
pub data Startup : Type 0 where
  handshaking : Startup
  failed : Error → Startup
  started : Bool → Startup

-- `smux_client` is `smux.Client` with the value of `KeepAliveDisabled`: its error or none.
unfoldable pub start : Peer → (Bool → Option Error) → List (Result AgentMessage) → Startup
start peer smux_client reads = elim (perform_handshake peer reads).returned [
  | none ↦ handshaking
  | some (err e) ↦ failed (handshake_failed e)
  | some (ok version) ↦
      let disabled = supports_version smux_keep_alive_supported version in
      if not (supports_version mux_supported version)
      then failed remote_version_not_supported
      else elim (smux_client disabled) [
        | some e ↦ failed (create_smux_client_failed e)
        | none ↦ started disabled
      ]
]

-- A stream is named by a number; what `OpenStream` gives is a stream or an error.
abbrev pub Response : Type 0
Response = Result ℕ

-- The caller of `Dial`: before the request is handed over, before `<-responseC`, and at its end.
pub data Caller : Type 0 where
  sending : Caller
  awaiting : Caller
  returned : Response → Caller

-- The goroutine that `Dial` starts: before its `select`, in it, before its send to `responseC`, and
-- at its end.
pub data Helper : Type 0 where
  created : Helper
  listening : Helper
  holding : Response → Helper
  ended : Helper

-- `handleDialRequests`: in its first `select`, before the second one with what it opened, or at its
-- end.
pub data Server : Type 0 where
  idle : Server
  opened : Response → Server
  gone : Server

-- One call of `Dial` and the server, with the two contexts and the streams that were closed.
pub record Dial : Type 0 where
  pub caller : Caller
  pub helper : Helper
  pub server : Server
  pub ctx_done : Bool
  pub errctx_done : Bool
  pub closed : List ℕ

pub data DialEvent : Type 0 where
  -- the contexts
  ctx_ends errctx_ends : DialEvent
  -- the goroutine
  helper_listens helper_sees_ctx helper_sees_errctx helper_hands_over : DialEvent
  -- the caller
  caller_sees_ctx caller_sees_errctx : DialEvent
  -- the request goes to the server, which opens a stream; it answers or finds nobody listening
  request_served : Response → DialEvent
  server_responds : DialEvent
  server_sees_errctx : DialEvent

abbrev pub call : Dial
call = record {
  caller = sending;
  helper = created;
  server = idle;
  ctx_done = false;
  errctx_done = false;
  closed = [];
}

-- `if smuxConn != nil { smuxConn.Close() }`.
abbrev pub close_stream : Response → List ℕ → List ℕ
close_stream (ok conn) closed = conn ∷ closed
close_stream (err e) closed = closed

-- The end of `Dial`.
abbrev pub dial_result : Response → Response
dial_result (ok conn) = ok conn
dial_result (err e) = err (failed_dial e)

abbrev pub is_sending : Caller → Bool
is_sending sending = true
is_sending awaiting = false
is_sending (returned r) = false

abbrev pub is_created : Helper → Bool
is_created created = true
is_created listening = false
is_created (holding r) = false
is_created ended = false

abbrev pub is_idle : Server → Bool
is_idle idle = true
is_idle (opened r) = false
is_idle gone = false

abbrev pub is_listening : Helper → Bool
is_listening created = false
is_listening listening = true
is_listening (holding r) = false
is_listening ended = false

-- The send on `responseC`, which the caller receives.
abbrev pub hand_over : Caller → Helper → Dial → Option Dial
hand_over sending h d = none
hand_over awaiting created d = none
hand_over awaiting listening d = none
hand_over awaiting (holding r) d =
    some (record d { caller = returned (dial_result r); helper = ended })
hand_over awaiting ended d = none
hand_over (returned r) h d = none

-- The send on `dialRequests`, and `OpenStream`.
abbrev pub serve : Caller → Server → Response → Dial → Option Dial
serve sending idle r d = some (record d { caller = awaiting; server = opened r })
serve sending (opened r') r d = none
serve sending gone r d = none
serve awaiting s r d = none
serve (returned r') s r d = none

-- The second `select`: its send succeeds where the goroutine is in its own `select`.
abbrev pub respond : Server → Dial → Option Dial
respond idle d = none
respond (opened r) d =
    if is_listening d.helper
    then some (record d { server = idle; helper = holding r })
    else some (record d { server = idle; closed = close_stream r d.closed })
respond gone d = none

-- The errors of the two contexts.
module _ (ctx_err cause : Error) where
  unfoldable pub step : Dial → DialEvent → Option Dial
  step d ctx_ends = some (record d { ctx_done = true })
  step d errctx_ends = some (record d { errctx_done = true })
  step d helper_listens =
      if is_created d.helper then some (record d { helper = listening }) else none
  step d helper_sees_ctx =
      if is_listening d.helper && d.ctx_done
      then some (record d { helper = holding (err ctx_err) })
      else none
  step d helper_sees_errctx =
      if is_listening d.helper && d.errctx_done
      then some (record d { helper = holding (err (failed_dial cause)) })
      else none
  step d helper_hands_over = hand_over d.caller d.helper d
  step d caller_sees_ctx =
      if is_sending d.caller && d.ctx_done
      then some (record d { caller = returned (err ctx_err) })
      else none
  step d caller_sees_errctx =
      if is_sending d.caller && d.errctx_done
      then some (record d { caller = returned (err (failed_dial cause)) })
      else none
  step d (request_served r) = serve d.caller d.server r d
  step d server_responds = respond d.server d
  step d server_sees_errctx =
      if is_idle d.server && d.errctx_done then some (record d { server = gone }) else none
