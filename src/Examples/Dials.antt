-- ===== src/Examples/Dials.antt =====
-- Two calls of `Dial` at once, on concrete input.
use ssmlib.Common.{ℕ, ◌≡◌, refl, ◌||◌, true, List, [], ◌∷◌, arith}
use ssmlib.Messages.Create.{ok}
use ssmlib.Handler.MuxPortForward as Mux
use ssmlib.Handler.MuxPortForward.{
  Response, returned, DialEvent, ctx_ends, helper_listens, helper_hands_over,
}
use ssmlib.Handler.MuxPortForward.Dialling as Dialling
use ssmlib.Handler.MuxPortForward.Answering.{in_closed}
use ssmlib.Handler.MuxPortForward.Many.{
  Dials, Event, of_call, request_served, server_responds, view, step,
}
use ssmlib.Handler.MuxPortForward.Many.Isolated.{Run, made, next, many_refine_one, dials_isolated}
use ssmlib.Common.Settle.{PromptRun}
use ssmlib.Handler.MuxPortForward.Many.Returning.{own_prompt, each_dial_returns}
use ssmlib.Examples.Mux.{deadline, shutdown}

abbrev events : List Event
events =
    of_call 1 helper_hands_over
    ∷ server_responds 1
    ∷ request_served 1 (ok 9)
    ∷ of_call 0 helper_hands_over
    ∷ server_responds 0
    ∷ request_served 0 (ok 7)
    ∷ of_call 1 helper_listens
    ∷ of_call 0 helper_listens
    ∷ []

abbrev both : (m : Dials) × Run deadline shutdown events m
unfolding step Mux.step
both = (
  _,
  next _
      (next _
        (next _ (next _ (next _ (next _ (next _ (next _ made refl) refl) refl) refl) refl) refl)
        refl)
      refl,
)

many_refine_one_example :
    Dialling.Run deadline shutdown
      (helper_hands_over ∷ Mux.server_responds ∷ Mux.request_served (ok 7) ∷ helper_listens ∷ [])
      (view 0 both.0)
many_refine_one_example = many_refine_one deadline shutdown 0 both.1

dials_isolated_example :
    (in_closed 7 (both.0.calls 1).closed ≡ 0)
    × ((both.0.calls 1).caller ≡ returned (ok 7) → ◌≡◌ {A = ℕ} 0 1)
unfolding both
dials_isolated_example = dials_isolated deadline shutdown 7 0 both.1 (omega arith) refl 1

-- A call whose context ends while another one is answered.
abbrev contended :
    (m : Dials) × Run deadline shutdown
      (of_call 0 ctx_ends ∷ request_served 1 (ok 9) ∷ of_call 0 helper_listens ∷ [])
      m
unfolding step Mux.step
contended = (_, next _ (next _ (next _ made refl) refl) refl)

contended_done : ((contended.0.calls 0).ctx_done || contended.0.errctx_done) ≡ true
unfolding contended
contended_done = refl

each_dial_returns_example :
    (last : Dials) × PromptRun
      (step deadline shutdown)
      (own_prompt deadline shutdown 0)
      contended.0
      last
    × ((r : Response) × ((last.calls 0).caller ≡ returned r))
each_dial_returns_example = each_dial_returns deadline shutdown 0 contended.1 contended_done
