-- ===== src/Handler/MuxPortForward/Dialling.antt =====
-- How a call of `Dial` of handler/muxPortForward.go goes on and ends.
use ssmlib.Common.{
  ℕ, suc, ◌≡◌, ◌≢◌, ◌⊎◌, refl, ap, Bool, true, false, ◌&&◌, ◌||◌, List, [], ◌∷◌, some, Bool-cases,
  inl, inr, arith,
}
use ssmlib.Common.Settle.{PromptRun, Progress, settle}
use ssmlib.Errors.{Error, failed_dial}
use ssmlib.Messages.Create.{err}
use ssmlib.Handler.MuxPortForward.{
  Response, Caller, sending, awaiting, returned, Helper, created, listening, holding, ended, Dial,
  DialEvent, ctx_ends, errctx_ends, helper_listens, helper_sees_ctx, helper_sees_errctx,
  helper_hands_over, caller_sees_ctx, caller_sees_errctx, request_served, server_responds,
  server_sees_errctx, call, dial_result, is_sending, is_created, is_listening, step,
}

abbrev pub is_awaiting : Caller → Bool
is_awaiting sending = false
is_awaiting awaiting = true
is_awaiting (returned r) = false

abbrev helper_steps : Helper → ℕ
helper_steps created = 2
helper_steps listening = 1
helper_steps (holding r) = 0
helper_steps ended = 0

abbrev steps_left : Caller → Helper → ℕ
steps_left sending h = 1
steps_left awaiting h = suc (helper_steps h)
steps_left (returned r) h = 0

abbrev pub may_hand_over : Helper → Bool
may_hand_over created = false
may_hand_over listening = false
may_hand_over (holding r) = true
may_hand_over ended = false

module _ (ctx_err cause : Error) where
  -- The calls that can be made; the last event stands first.
  pub data Run : List DialEvent → Dial → Type 0 where
    made : Run [] call
    next :
        {es : List DialEvent} {d d' : Dial}
        → (e : DialEvent) → Run es d
        → step ctx_err cause d e ≡ some d'
        → Run (e ∷ es) d'

  -- What the two goroutines of `Dial` do by themselves on the way to its return.
  abbrev pub prompt : Dial → DialEvent → Bool
  prompt d ctx_ends = false
  prompt d errctx_ends = false
  prompt d helper_listens = is_awaiting d.caller && is_created d.helper
  prompt d helper_sees_ctx = is_awaiting d.caller && (is_listening d.helper && d.ctx_done)
  prompt d helper_sees_errctx = is_awaiting d.caller && (is_listening d.helper && d.errctx_done)
  prompt d helper_hands_over = is_awaiting d.caller && may_hand_over d.helper
  prompt d caller_sees_ctx = is_sending d.caller && d.ctx_done
  prompt d caller_sees_errctx = is_sending d.caller && d.errctx_done
  prompt d (request_served r) = false
  prompt d server_responds = false
  prompt d server_sees_errctx = false

  abbrev left : Dial → ℕ
  left d = steps_left d.caller d.helper

  -- While the caller awaits, the goroutine has not ended.
  record IsServed (d : Dial) : Type 0 where
    serving : is_awaiting d.caller ≡ true → d.helper ≢ ended
    before : is_sending d.caller ≡ true → d.helper ≢ ended

  step-IsServed :
      (d d' : Dial) (e : DialEvent) → IsServed d → step ctx_err cause d e ≡ some d' → IsServed d'
  unfolding step
  step-IsServed d d' ctx_ends v h = ground arith
  step-IsServed d d' errctx_ends v h = ground arith
  step-IsServed d d' helper_listens v h = ground arith
  step-IsServed d d' helper_sees_ctx v h = ground arith
  step-IsServed d d' helper_sees_errctx v h = ground arith
  step-IsServed d d' helper_hands_over v h = ground arith
  step-IsServed d d' caller_sees_ctx v h = ground arith
  step-IsServed d d' caller_sees_errctx v h = ground arith
  step-IsServed d d' (request_served r) v h = ground arith
  step-IsServed d d' server_responds v h = ground arith
  step-IsServed d d' server_sees_errctx v h = ground arith

  Run-IsServed : {es : List DialEvent} {d : Dial} → Run es d → IsServed d
  Run-IsServed made = record { serving = λ h. cc; before = λ h e. cc }
  Run-IsServed (next {d} {d'} e r h) = step-IsServed d d' e (Run-IsServed r) h

  left_falls :
      (d d' : Dial) (e : DialEvent)
      → prompt d e ≡ true
      → step ctx_err cause d e ≡ some d'
      → suc (left d') ≡ left d
  unfolding step
  left_falls d d' ctx_ends p h = cc
  left_falls d d' errctx_ends p h = cc
  left_falls d d' helper_listens p h = ground arith
  left_falls d d' helper_sees_ctx p h = ground arith
  left_falls d d' helper_sees_errctx p h = ground arith
  left_falls d d' helper_hands_over p h = ground arith
  left_falls d d' caller_sees_ctx p h = ground arith
  left_falls d d' caller_sees_errctx p h = ground arith
  left_falls d d' (request_served r) p h = cc
  left_falls d d' server_responds p h = cc
  left_falls d d' server_sees_errctx p h = cc

  abbrev is_over : Dial → Bool
  is_over d = d.ctx_done || d.errctx_done

  step-is_over :
      (d d' : Dial) (e : DialEvent)
      → is_over d ≡ true
      → step ctx_err cause d e ≡ some d'
      → is_over d' ≡ true
  unfolding step
  step-is_over d d' ctx_ends v h = ground arith
  step-is_over d d' errctx_ends v h = ground arith
  step-is_over d d' helper_listens v h = ground arith
  step-is_over d d' helper_sees_ctx v h = ground arith
  step-is_over d d' helper_sees_errctx v h = ground arith
  step-is_over d d' helper_hands_over v h = ground arith
  step-is_over d d' caller_sees_ctx v h = ground arith
  step-is_over d d' caller_sees_errctx v h = ground arith
  step-is_over d d' (request_served r) v h = ground arith
  step-is_over d d' server_responds v h = ground arith
  step-is_over d d' server_sees_errctx v h = ground arith

  -- What the caller or the goroutine does next, once a context is done.
  next_move :
      (d : Dial) (c : Caller) (h : Helper)
      → d.caller ≡ c
      → d.helper ≡ h
      → IsServed d
      → is_over d ≡ true
      → (left d ≡ 0) ⊎ Progress (step ctx_err cause) prompt d
  unfolding step
  next_move d (returned r) h ce he v over = inl (rw ce)
  next_move d sending h ce he v over = elim (Bool-cases d.ctx_done) [
    | inl x ↦
        inr (
          caller_sees_ctx,
          record d { caller = returned (err ctx_err) },
          ground arith,
          ground arith,
        )
    | inr x ↦ inr (
      caller_sees_errctx,
      record d { caller = returned (err (failed_dial cause)) },
      ground arith,
      ground arith,
    )
  ]
  next_move d awaiting created ce he v over =
      inr (helper_listens, record d { helper = listening }, ground arith, ground arith)
  next_move d awaiting listening ce he v over = elim (Bool-cases d.ctx_done) [
    | inl x ↦
        inr
          (helper_sees_ctx, record d { helper = holding (err ctx_err) }, ground arith, ground arith)
    | inr x ↦ inr (
      helper_sees_errctx,
      record d { helper = holding (err (failed_dial cause)) },
      ground arith,
      ground arith,
    )
  ]
  next_move d awaiting (holding r) ce he v over = inr (
    helper_hands_over,
    record d { caller = returned (dial_result r); helper = ended },
    ground arith,
    ground arith,
  )
  next_move d awaiting ended ce he v over = absurd (v.serving (ap is_awaiting ce) he)

  returned_at :
      (d : Dial) (c : Caller) → d.caller ≡ c → left d ≡ 0 → (r : Response) × (d.caller ≡ returned r)
  returned_at d sending e none_left =
      absurd (omega (arith, ap (λ c. steps_left c d.helper) e, none_left))
  returned_at d awaiting e none_left =
      absurd (omega (arith, ap (λ c. steps_left c d.helper) e, none_left))
  returned_at d (returned r) e none_left = (r, e)

  -- Once the caller's context or the handler's is done, the caller and the goroutine of `Dial`
  -- come by themselves to the return of `Dial`, whatever has happened before.
  pub dial_returns :
      {es : List DialEvent} {d : Dial}
      → Run es d
      → (d.ctx_done || d.errctx_done) ≡ true
      → (last : Dial) × PromptRun (step ctx_err cause) prompt d last
        × ((r : Response) × (last.caller ≡ returned r))
  dial_returns {es} {d} r over =
      let (last, run, none_left, kept) =
        settle (step ctx_err cause) prompt left (λ x. IsServed x × (is_over x ≡ true))
          (λ x x' e (v, o) h. (step-IsServed x x' e v h, step-is_over x x' e o h)) left_falls
          (λ x (v, o). next_move x x.caller x.helper refl refl v o) (left d) d (omega arith)
          (Run-IsServed r, over) in
      (last, run, returned_at last last.caller refl none_left)
