-- ===== src/Handler/MuxPortForward/Many.antt =====
-- Many calls of `Dial` of handler/muxPortForward.go at once: each has a caller, a goroutine and a
-- context of its own, and they share the context of the handler and the one goroutine that
-- serves their requests.
pub mod Single
pub mod Isolated
pub mod Returning
use ssmlib.Common.{ℕ, Bool, true, false, ◌&&◌, List, Option, none, some, ◌==◌, if◌then◌else◌}
use mathlib.Core.Option
use ssmlib.Errors.{Error}
use ssmlib.Handler.MuxPortForward as Mux
use ssmlib.Handler.MuxPortForward.{
  Response, Caller, Helper, Dial, DialEvent, call, ctx_ends, helper_listens, helper_sees_ctx,
  helper_sees_errctx, helper_hands_over, caller_sees_ctx, caller_sees_errctx,
}

-- What a call has for itself.
pub record OpenCall : Type 0 where
  pub caller : Caller
  pub helper : Helper
  pub ctx_done : Bool
  pub closed : List ℕ

-- The server is idle, answers the call of a number, or has ended.
pub data Serving : Type 0 where
  idle : Serving
  answering : ℕ → Response → Serving
  gone : Serving

pub record Dials : Type 0 where
  pub calls : ℕ → OpenCall
  pub serving : Serving
  pub errctx_done : Bool

pub data Event : Type 0 where
  -- the caller, the goroutine or the context of a call
  of_call : ℕ → DialEvent → Event
  -- the request of a call goes to the server, which opens a stream, and the server answers it
  request_served : ℕ → Response → Event
  server_responds : ℕ → Event
  errctx_ends server_sees_errctx : Event

abbrev pub call_of : Dial → OpenCall
call_of d = record {
  caller = d.caller;
  helper = d.helper;
  ctx_done = d.ctx_done;
  closed = d.closed;
}

abbrev pub begin : Dials
begin = record { calls = λ i. call_of call; serving = idle; errctx_done = false }

-- The server as one call sees it: it is idle while it answers another.
abbrev pub server_for : ℕ → Serving → Mux.Server
server_for i idle = Mux.idle
server_for i (answering j r) = if i == j then Mux.opened r else Mux.idle
server_for i gone = Mux.gone

-- A call as it is by itself.
abbrev pub view : ℕ → Dials → Dial
view i m = record {
  caller = (m.calls i).caller;
  helper = (m.calls i).helper;
  server = server_for i m.serving;
  ctx_done = (m.calls i).ctx_done;
  errctx_done = m.errctx_done;
  closed = (m.calls i).closed;
}

abbrev pub update : (ℕ → OpenCall) → ℕ → OpenCall → ℕ → OpenCall
update f i c j = if i == j then c else f j

abbrev pub is_own : DialEvent → Bool
is_own ctx_ends = true
is_own helper_listens = true
is_own helper_sees_ctx = true
is_own helper_sees_errctx = true
is_own helper_hands_over = true
is_own caller_sees_ctx = true
is_own caller_sees_errctx = true
is_own e = false

abbrev pub is_free : Serving → Bool
is_free idle = true
is_free (answering i r) = false
is_free gone = false

abbrev pub answers : ℕ → Serving → Bool
answers i idle = false
answers i (answering j r) = i == j
answers i gone = false

module _ (ctx_err cause : Error) where
  -- A step of one call, after which the server is as given.
  abbrev pub on_call : ℕ → DialEvent → Serving → Dials → Option Dials
  on_call i e serving m =
      Option.map
        (λ (d : Dial). record m { calls = update m.calls i (call_of d); serving = serving })
        (Mux.step ctx_err cause (view i m) e)

  -- `none` where the event cannot happen.
  unfoldable pub step : Dials → Event → Option Dials
  step m (of_call i e) = if is_own e then on_call i e m.serving m else none
  step m (request_served i r) =
      if is_free m.serving then on_call i (Mux.request_served r) (answering i r) m else none
  step m (server_responds i) =
      if answers i m.serving then on_call i Mux.server_responds idle m else none
  step m errctx_ends = some (record m { errctx_done = true })
  step m server_sees_errctx =
      if is_free m.serving && m.errctx_done then some (record m { serving = gone }) else none
