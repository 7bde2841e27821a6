-- ===== src/Handler/MuxPortForward/Lost.antt =====
-- Two ways in which a call of `Dial` of handler/muxPortForward.go loses a goroutine or a request.
use ssmlib.Common.{◌≡◌, ◌≢◌, ◌⊎◌, refl, [], ◌∷◌, none, some, inl, inr, arith}
use ssmlib.Errors.{Error}
use ssmlib.Handler.MuxPortForward.{
  Response, awaiting, returned, listening, ended, Dial, DialEvent, ctx_ends, errctx_ends,
  helper_listens, helper_sees_ctx, helper_sees_errctx, helper_hands_over, caller_sees_ctx,
  caller_sees_errctx, request_served, server_responds, server_sees_errctx, call, close_stream, step,
}
use ssmlib.Handler.MuxPortForward.Dialling.{Run, made, next}

module _ (ctx_err cause : Error) where
  -- Once `Dial` has returned while its goroutine has not ended, the goroutine never ends: no step
  -- of anybody changes this, so that the goroutine is left behind.
  pub helper_left_behind :
      (d d' : Dial) (e : DialEvent) (r : Response)
      → d.caller ≡ returned r
      → d.helper ≢ ended
      → step ctx_err cause d e ≡ some d'
      → (d'.caller ≡ returned r) × (d'.helper ≢ ended)
  unfolding step
  helper_left_behind d d' ctx_ends r c h s = ground arith
  helper_left_behind d d' errctx_ends r c h s = ground arith
  helper_left_behind d d' helper_listens r c h s = ground arith
  helper_left_behind d d' helper_sees_ctx r c h s = ground arith
  helper_left_behind d d' helper_sees_errctx r c h s = ground arith
  helper_left_behind d d' helper_hands_over r c h s = ground arith
  helper_left_behind d d' caller_sees_ctx r c h s = ground arith
  helper_left_behind d d' caller_sees_errctx r c h s = ground arith
  helper_left_behind d d' (request_served x) r c h s = ground arith
  helper_left_behind d d' server_responds r c h s = ground arith
  helper_left_behind d d' server_sees_errctx r c h s = ground arith

  -- The call whose request was answered before its goroutine listened.
  abbrev unanswered : Response → Dial
  unanswered r = record call { caller = awaiting; helper = listening; closed = close_stream r [] }

  unanswered-none :
      (r : Response) (e : DialEvent)
      → (e ≡ ctx_ends) ⊎ ((e ≡ errctx_ends) ⊎ (step ctx_err cause (unanswered r) e ≡ none))
  unfolding step
  unanswered-none r ctx_ends = inl refl
  unanswered-none r errctx_ends = inr (inl refl)
  unanswered-none r helper_listens = inr (inr refl)
  unanswered-none r helper_sees_ctx = inr (inr refl)
  unanswered-none r helper_sees_errctx = inr (inr refl)
  unanswered-none r helper_hands_over = inr (inr refl)
  unanswered-none r caller_sees_ctx = inr (inr refl)
  unanswered-none r caller_sees_errctx = inr (inr refl)
  unanswered-none r (request_served x) = inr (inr refl)
  unanswered-none r server_responds = inr (inr refl)
  unanswered-none r server_sees_errctx = inr (inr refl)

  -- A request that is answered before the goroutine listens is lost, whatever the server opened:
  -- the call is then in a state in which nothing but the end of a context can happen.
  pub early_answer_hangs :
      (r : Response)
      → (d : Dial) × Run ctx_err cause (helper_listens ∷ server_responds ∷ request_served r ∷ []) d
        × (d.caller ≡ awaiting)
        × ((e : DialEvent) → (e ≡ ctx_ends) ⊎ ((e ≡ errctx_ends) ⊎ (step ctx_err cause d e ≡ none)))
  unfolding step
  early_answer_hangs r = (
    unanswered r,
    next helper_listens (next server_responds (next (request_served r) made refl) refl) refl,
    refl,
    unanswered-none r,
  )
