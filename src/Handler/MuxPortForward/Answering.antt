-- ===== src/Handler/MuxPortForward/Answering.antt =====
-- Where the streams that are opened for a call of `Dial` of handler/muxPortForward.go end up.
use ssmlib.Common.{
  ℕ, ◌+◌, ◌≡◌, refl, sym, ap, Bool, true, false, not, ◌||◌, List, [], ◌∷◌, some, if◌then◌else◌,
  ◌==◌, ◌⊎◌, inl, inr, arith,
}
use ssmlib.Errors.{Error}
use ssmlib.Messages.Create.{ok, err}
use ssmlib.Handler.MuxPortForward.{
  Response, Caller, sending, awaiting, returned, Helper, created, listening, holding, ended, Server,
  idle, opened, gone, Dial, DialEvent, ctx_ends, errctx_ends, helper_listens, helper_sees_ctx,
  helper_sees_errctx, helper_hands_over, caller_sees_ctx, caller_sees_errctx, request_served,
  server_responds, server_sees_errctx, call, close_stream, dial_result, step,
}
use ssmlib.Handler.MuxPortForward.Dialling.{Run, made, next, is_awaiting}

-- How often the stream stands in each place.
abbrev pub in_response : ℕ → Response → ℕ
in_response n (ok conn) = if n == conn then 1 else 0
in_response n (err e) = 0

abbrev pub in_caller : ℕ → Caller → ℕ
in_caller n sending = 0
in_caller n awaiting = 0
in_caller n (returned r) = in_response n r

abbrev pub in_helper : ℕ → Helper → ℕ
in_helper n created = 0
in_helper n listening = 0
in_helper n (holding r) = in_response n r
in_helper n ended = 0

abbrev pub in_server : ℕ → Server → ℕ
in_server n idle = 0
in_server n (opened r) = in_response n r
in_server n gone = 0

abbrev pub in_closed : ℕ → List ℕ → ℕ
in_closed n [] = 0
in_closed n (conn ∷ rest) = (if n == conn then 1 else 0) + in_closed n rest

-- How often `OpenStream` gave it.
abbrev pub times_opened : ℕ → List DialEvent → ℕ
times_opened n [] = 0
times_opened n (request_served r ∷ rest) = in_response n r + times_opened n rest
times_opened n (e ∷ rest) = times_opened n rest

abbrev pub served : ℕ → DialEvent → ℕ
served n (request_served r) = in_response n r
served n e = 0

pub times_opened-served :
    (n : ℕ) (e : DialEvent) (es : List DialEvent)
    → times_opened n (e ∷ es) ≡ served n e + times_opened n es
times_opened-served n ctx_ends es = omega arith
times_opened-served n errctx_ends es = omega arith
times_opened-served n helper_listens es = omega arith
times_opened-served n helper_sees_ctx es = omega arith
times_opened-served n helper_sees_errctx es = omega arith
times_opened-served n helper_hands_over es = omega arith
times_opened-served n caller_sees_ctx es = omega arith
times_opened-served n caller_sees_errctx es = omega arith
times_opened-served n (request_served r) es = omega arith
times_opened-served n server_responds es = omega arith
times_opened-served n server_sees_errctx es = omega arith

abbrev pub accounted : ℕ → Dial → ℕ
accounted n d =
    in_caller n d.caller + in_helper n d.helper + (in_server n d.server + in_closed n d.closed)

in_closed-close_stream :
    (n : ℕ) (r : Response) (closed : List ℕ)
    → in_closed n (close_stream r closed) ≡ in_response n r + in_closed n closed
in_closed-close_stream n (ok conn) closed = refl
in_closed-close_stream n (err e) closed = omega arith

in_response-dial_result : (n : ℕ) (r : Response) → in_response n (dial_result r) ≡ in_response n r
in_response-dial_result n (ok conn) = refl
in_response-dial_result n (err e) = refl

abbrev carries : Helper → Bool
carries created = false
carries listening = false
carries (holding (ok conn)) = true
carries (holding (err e)) = false
carries ended = false

abbrev is_ended : Helper → Bool
is_ended created = false
is_ended listening = false
is_ended (holding r) = false
is_ended ended = true

abbrev is_opened : Server → Bool
is_opened idle = false
is_opened (opened r) = true
is_opened gone = false

-- A caller that does not wait leaves no stream to the goroutine, and none comes to it any more.
record IsKept (d : Dial) : Type 0 where
  empty : is_awaiting d.caller ≡ false → carries d.helper ≡ false
  closing : is_awaiting d.caller ≡ false → (is_ended d.helper || not (is_opened d.server)) ≡ true

module _ (ctx_err cause : Error) where
  step-accounted :
      (n : ℕ) (d d' : Dial) (e : DialEvent)
      → step ctx_err cause d e ≡ some d'
      → accounted n d' ≡ served n e + accounted n d
  unfolding step
  step-accounted n d d' ctx_ends h = ground arith
  step-accounted n d d' errctx_ends h = ground arith
  step-accounted n d d' helper_listens h = ground arith
  step-accounted n d d' helper_sees_ctx h = ground arith
  step-accounted n d d' helper_sees_errctx h = ground arith
  step-accounted n d d' helper_hands_over h = grind (arith, in_response-dial_result)
  step-accounted n d d' caller_sees_ctx h = ground arith
  step-accounted n d d' caller_sees_errctx h = ground arith
  step-accounted n d d' (request_served r) h = ground arith
  step-accounted n d d' server_responds h = grind (arith, in_closed-close_stream)
  step-accounted n d d' server_sees_errctx h = ground arith

  step-IsKept :
      (d d' : Dial) (e : DialEvent) → IsKept d → step ctx_err cause d e ≡ some d' → IsKept d'
  unfolding step
  step-IsKept d d' ctx_ends v h = ground arith
  step-IsKept d d' errctx_ends v h = ground arith
  step-IsKept d d' helper_listens v h = ground arith
  step-IsKept d d' helper_sees_ctx v h = ground arith
  step-IsKept d d' helper_sees_errctx v h = ground arith
  step-IsKept d d' helper_hands_over v h = ground arith
  step-IsKept d d' caller_sees_ctx v h = ground arith
  step-IsKept d d' caller_sees_errctx v h = ground arith
  step-IsKept d d' (request_served r) v h = ground arith
  step-IsKept d d' server_responds v h = ground arith
  step-IsKept d d' server_sees_errctx v h = ground arith

  Run-IsKept : {es : List DialEvent} {d : Dial} → Run ctx_err cause es d → IsKept d
  Run-IsKept made = record { empty = λ h. refl; closing = λ h. refl }
  Run-IsKept (next {d} {d'} e r h) = step-IsKept d d' e (Run-IsKept r) h

  pub accounted-call : (n : ℕ) → accounted n call ≡ 0
  accounted-call n = omega arith

  pub Run-accounted :
      {es : List DialEvent} {d : Dial} (n : ℕ)
      → Run ctx_err cause es d
      → times_opened n es ≡ accounted n d
  Run-accounted n made = sym (accounted-call n)
  Run-accounted n (next {es} {d} {d'} e r h) =
      omega (arith, times_opened-served n e es, step-accounted n d d' e h, Run-accounted n r)

  no_stream_carried : (n : ℕ) (h : Helper) → carries h ≡ false → in_helper n h ≡ 0
  no_stream_carried n created e = refl
  no_stream_carried n listening e = refl
  no_stream_carried n (holding (ok conn)) e = cc
  no_stream_carried n (holding (err x)) e = refl
  no_stream_carried n ended e = refl

  -- The server closes what nobody listens for.
  late_stream_closed :
      (n : ℕ) (d : Dial) (h : Helper) (s : Server)
      → d.helper ≡ h
      → d.server ≡ s
      → (is_ended h || not (is_opened s)) ≡ true
      → (in_server n d.server ≡ 0)
        ⊎ ((d' : Dial) × (step ctx_err cause d server_responds ≡ some d')
            × (in_closed n d'.closed ≡ in_server n d.server + in_closed n d.closed))
  unfolding step
  late_stream_closed n d h idle he se k = inl (rw se)
  late_stream_closed n d h gone he se k = inl (rw se)
  late_stream_closed n d ended (opened r) he se k = inr (
    record d { server = idle; closed = close_stream r d.closed },
    ground arith,
    grind (arith, in_closed-close_stream),
  )
  late_stream_closed n d created (opened r) he se k = cc
  late_stream_closed n d listening (opened r) he se k = cc
  late_stream_closed n d (holding x) (opened r) he se k = cc

  -- When `Dial` has returned, each stream was opened for it, however the two goroutines, the server
  -- and the two contexts have raced, exactly as often as it is the connection that `Dial` returned,
  -- was closed, or is with the server; and a stream that is with the server is closed by its next
  -- step.
  pub streams_kept :
      {es : List DialEvent} {d : Dial} (n : ℕ) (r : Response)
      → Run ctx_err cause es d
      → d.caller ≡ returned r
      → (times_opened n es ≡ in_response n r + (in_server n d.server + in_closed n d.closed))
        × ((in_server n d.server ≡ 0)
            ⊎ ((d' : Dial) × (step ctx_err cause d server_responds ≡ some d')
                × (in_closed n d'.closed ≡ in_server n d.server + in_closed n d.closed)))
  streams_kept {es} {d} n r run e =
      let kept = Run-IsKept run in
      let waiting = ap is_awaiting e in
      let carried = no_stream_carried n d.helper (kept.empty waiting) in
      let here = ap (in_caller n) e in
      (
        omega (arith, Run-accounted n run, carried, here),
        late_stream_closed n d d.helper d.server refl refl (kept.closing waiting),
      )
