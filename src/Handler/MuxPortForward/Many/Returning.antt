-- ===== src/Handler/MuxPortForward/Many/Returning.antt =====
-- Each of many calls of `Dial` of handler/muxPortForward.go returns by itself.
use ssmlib.Common.{
  ℕ, ◌≡◌, refl, sym, ap, ◌∙◌, subst, Bool, true, false, ◌&&◌, ◌||◌, List, some, ◌==◌, ==_refl,
  map_taken, and_true,
}
use ssmlib.Common.Settle.{PromptRun, here, then_event}
use ssmlib.Errors.{Error}
use ssmlib.Handler.MuxPortForward as Mux
use ssmlib.Handler.MuxPortForward.{Response, returned, Dial, DialEvent}
use ssmlib.Handler.MuxPortForward.Dialling as Dialling
use ssmlib.Handler.MuxPortForward.Many.{
  Dials, Event, of_call, request_served, server_responds, errctx_ends, server_sees_errctx, call_of,
  view, update, is_own, step,
}
use ssmlib.Handler.MuxPortForward.Many.Single.{own_step, view-update_self}
use ssmlib.Handler.MuxPortForward.Many.Isolated.{Run, many_refine_one}

module _ (ctx_err cause : Error) where
  -- What the two goroutines of the call `i` do by themselves on the way to its return.
  abbrev pub own_prompt : ℕ → Dials → Event → Bool
  own_prompt i m (of_call j e) = (i == j) && Dialling.prompt ctx_err cause (view i m) e
  own_prompt i m (request_served j r) = false
  own_prompt i m (server_responds j) = false
  own_prompt i m errctx_ends = false
  own_prompt i m server_sees_errctx = false

  prompt-is_own :
      (d : Dial) (e : DialEvent) → Dialling.prompt ctx_err cause d e ≡ true → is_own e ≡ true
  prompt-is_own d Mux.ctx_ends p = cc
  prompt-is_own d Mux.errctx_ends p = cc
  prompt-is_own d Mux.helper_listens p = refl
  prompt-is_own d Mux.helper_sees_ctx p = refl
  prompt-is_own d Mux.helper_sees_errctx p = refl
  prompt-is_own d Mux.helper_hands_over p = refl
  prompt-is_own d Mux.caller_sees_ctx p = refl
  prompt-is_own d Mux.caller_sees_errctx p = refl
  prompt-is_own d (Mux.request_served r) p = cc
  prompt-is_own d Mux.server_responds p = cc
  prompt-is_own d Mux.server_sees_errctx p = cc

  -- A prompt step of the call by itself is one among the many.
  lifted_step :
      (i : ℕ) (m : Dials) (d : Dial) (e : DialEvent)
      → Dialling.prompt ctx_err cause (view i m) e ≡ true
      → Mux.step ctx_err cause (view i m) e ≡ some d
      → (m' : Dials) × (own_prompt i m (of_call i e) ≡ true)
        × (step ctx_err cause m (of_call i e) ≡ some m')
        × (view i m' ≡ d)
  unfolding step
  lifted_step i m d e p h =
      let own = prompt-is_own (view i m) e p in
      let (s, c) = own_step ctx_err cause (view i m) d e own h in
      (
        record m { calls = update m.calls i (call_of d) },
        and_true (i == i) _ (==_refl i) p,
        map_taken (λ (x : Dial). record m { calls = update m.calls i (call_of x) }) (is_own e)
            (Mux.step ctx_err cause (view i m) e) d own h,
        view-update_self ctx_err cause i m d m.serving s c,
      )

  lifted :
      (i : ℕ) (m : Dials) {last : Dial}
      → PromptRun (Mux.step ctx_err cause) (Dialling.prompt ctx_err cause) (view i m) last
      → (m' : Dials) × PromptRun (step ctx_err cause) (own_prompt i) m m' × (view i m' ≡ last)
  lifted i m here = (m, here, refl)
  lifted i m (then_event {t} {u} e r p h) =
      let (m₁, run, same) = lifted i m r in
      let (m₂, p', h', same') =
        lifted_step i m₁ u e (subst (λ d. Dialling.prompt ctx_err cause d e ≡ true) (sym same) p)
          (subst (λ d. Mux.step ctx_err cause d e ≡ some u) (sym same) h) in
      (m₂, then_event (of_call i e) run p' h', same')

  -- However many calls of `Dial` are under way, once the context of one of them or the handler's is
  -- done, the two goroutines of this call alone come by themselves to its return, whatever has
  -- happened before and with no step of another call or of the server.
  pub each_dial_returns :
      {es : List Event} {m : Dials} (i : ℕ)
      → Run ctx_err cause es m
      → ((m.calls i).ctx_done || m.errctx_done) ≡ true
      → (last : Dials) × PromptRun (step ctx_err cause) (own_prompt i) m last
        × ((r : Response) × ((last.calls i).caller ≡ returned r))
  each_dial_returns {m = m} i run over =
      let (d, alone, (r, e)) =
        Dialling.dial_returns ctx_err cause (many_refine_one ctx_err cause i run) over in
      let (last, prompt_run, same) = lifted i m alone in
      (last, prompt_run, (r, ap (λ (x : Dial). x.caller) same ∙ e))
