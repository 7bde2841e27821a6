-- ===== src/Handler/MuxPortForward/Many/Single.antt =====
-- Each of many calls of `Dial` of handler/muxPortForward.go goes on as one call does by itself.
use ssmlib.Common.{
  ℕ, ◌≡◌, refl, sym, ap, ◌∙◌, subst, inl, inr, true, false, ◌&&◌, List, [], ◌∷◌, Option, none, some,
  ◌==◌, ==_iff, ==_refl, ==_comm, if_some, if_taken, and_split, map-eq-some, if◌then◌else◌,
  Bool-cases, arith,
}
use mathlib.Core.Option.{some-injective}
use ssmlib.Errors.{Error}
use ssmlib.Handler.MuxPortForward as Mux
use ssmlib.Handler.MuxPortForward.{
  Response, Dial, DialEvent, ctx_ends, helper_listens, helper_sees_ctx, helper_sees_errctx,
  helper_hands_over, caller_sees_ctx, caller_sees_errctx,
}
use ssmlib.Handler.MuxPortForward.Many.{
  Serving, idle, answering, gone, Dials, Event, of_call, request_served, server_responds,
  errctx_ends, server_sees_errctx, call_of, server_for, view, update, is_own, is_free, answers,
  on_call, step,
}

-- What an event is for the call `i`.
abbrev pub for_call : ℕ → Event → Option DialEvent
for_call i (of_call j e) = if i == j then some e else none
for_call i (request_served j r) = if i == j then some (Mux.request_served r) else none
for_call i (server_responds j) = if i == j then some Mux.server_responds else none
for_call i errctx_ends = some Mux.errctx_ends
for_call i server_sees_errctx = some Mux.server_sees_errctx

abbrev pub with_event : Option DialEvent → List DialEvent → List DialEvent
with_event none es = es
with_event (some e) es = e ∷ es

abbrev pub own_events : ℕ → List Event → List DialEvent
own_events i [] = []
own_events i (e ∷ es) = with_event (for_call i e) (own_events i es)

module _ (ctx_err cause : Error) where
  -- Such a step leaves what is shared.
  pub own_step :
      (d d' : Dial) (e : DialEvent)
      → is_own e ≡ true
      → Mux.step ctx_err cause d e ≡ some d'
      → (d'.server ≡ d.server) × (d'.errctx_done ≡ d.errctx_done)
  unfolding Mux.step
  own_step d d' ctx_ends o h = ground arith
  own_step d d' Mux.errctx_ends o h = cc
  own_step d d' helper_listens o h = ground arith
  own_step d d' helper_sees_ctx o h = ground arith
  own_step d d' helper_sees_errctx o h = ground arith
  own_step d d' helper_hands_over o h = ground arith
  own_step d d' caller_sees_ctx o h = ground arith
  own_step d d' caller_sees_errctx o h = ground arith
  own_step d d' (Mux.request_served r) o h = cc
  own_step d d' Mux.server_responds o h = cc
  own_step d d' Mux.server_sees_errctx o h = cc

  -- What an event does to a call: nothing, or one step of it.
  abbrev pub Moves : Option DialEvent → Dial → Dial → Type 0
  Moves none d d' = d' ≡ d
  Moves (some e) d d' = Mux.step ctx_err cause d e ≡ some d'

  served_step :
      (d d' : Dial) (r : Response)
      → Mux.step ctx_err cause d (Mux.request_served r) ≡ some d'
      → (d'.server ≡ Mux.opened r) × (d'.errctx_done ≡ d.errctx_done)
  unfolding Mux.step
  served_step d d' r h = ground arith

  responds_step :
      (d d' : Dial)
      → Mux.step ctx_err cause d Mux.server_responds ≡ some d'
      → (d'.server ≡ Mux.idle) × (d'.errctx_done ≡ d.errctx_done)
  unfolding Mux.step
  responds_step d d' h = ground arith

  -- The call that moved, and another one.
  pub view-update_self :
      (i : ℕ) (m : Dials) (d : Dial) (serving : Serving)
      → d.server ≡ server_for i serving
      → d.errctx_done ≡ m.errctx_done
      → view i (record m { calls = update m.calls i (call_of d); serving = serving }) ≡ d
  view-update_self i m d serving s c = rw (==_refl i) (ground arith)

  view-update_other :
      (i j : ℕ) (m : Dials) (d : Dial) (serving : Serving)
      → (j == i) ≡ false
      → server_for i serving ≡ server_for i m.serving
      → view i (record m { calls = update m.calls j (call_of d); serving = serving }) ≡ view i m
  view-update_other i j m d serving ne s = rw (ne, s) refl

  server_for_free : (i : ℕ) (s : Serving) → is_free s ≡ true → server_for i s ≡ Mux.idle
  server_for_free i idle h = refl
  server_for_free i (answering j r) h = cc
  server_for_free i gone h = cc

  server_for_other :
      (i j : ℕ) (s : Serving) → answers j s ≡ true → (i == j) ≡ false → server_for i s ≡ Mux.idle
  server_for_other i j idle h ne = cc
  server_for_other i j (answering k r) h ne =
      let eq = (==_iff j k).0 h in rw (subst (λ x. (i == x) ≡ false) eq ne) refl
  server_for_other i j gone h ne = cc

  on_call-Moves :
      (i j : ℕ) (e : DialEvent) (serving : Serving) (m m' : Dials)
      → ((d : Dial)
          → Mux.step ctx_err cause (view j m) e ≡ some d
          → (d.server ≡ server_for j serving) × (d.errctx_done ≡ m.errctx_done))
      → ((i == j) ≡ false → server_for i serving ≡ server_for i m.serving)
      → on_call ctx_err cause j e serving m ≡ some m'
      → Moves (if i == j then some e else none) (view i m) (view i m')
  on_call-Moves i j e serving m m' shared others h =
      let (d, moved, same) =
        map-eq-some
          (λ (x : Dial). record m { calls = update m.calls j (call_of x); serving = serving })
          (Mux.step ctx_err cause (view j m) e) h in
      let (s, c) = shared d moved in
      elim (Bool-cases (i == j)) [
        | inl hit ↦
            let eq = (==_iff i j).0 hit in
            let there =
              moved ∙ ap some (sym (ap (view j) (sym same) ∙ view-update_self j m d serving s c)) in
            rw hit
              (subst (λ k. Mux.step ctx_err cause (view k m) e ≡ some (view k m')) (sym eq) there)
        | inr miss ↦ rw miss (
            ap (view i) (sym same)
            ∙ view-update_other i j m d serving (==_comm j i ∙ miss) (others miss))
      ]

  pub step-Moves :
      (i : ℕ) (m m' : Dials) (e : Event)
      → step ctx_err cause m e ≡ some m'
      → Moves (for_call i e) (view i m) (view i m')
  unfolding step Mux.step
  step-Moves i m m' (of_call j e) h =
      let (own, moved) = if_some (is_own e) h in
      on_call-Moves i j e m.serving m m' (λ d k. own_step (view j m) d e own k) (λ _. refl) moved
  step-Moves i m m' (request_served j r) h =
      let (free, moved) = if_some (is_free m.serving) h in
      on_call-Moves i j (Mux.request_served r) (answering j r) m m'
        (λ d k. rw (==_refl j) (served_step (view j m) d r k))
        (λ ne. rw ne (sym (server_for_free i m.serving free))) moved
  step-Moves i m m' (server_responds j) h =
      let (turn, moved) = if_some (answers j m.serving) h in
      on_call-Moves i j Mux.server_responds idle m m' (responds_step (view j m))
        (λ ne. sym (server_for_other i j m.serving turn ne)) moved
  step-Moves i m m' errctx_ends h = ap (λ x. some (view i x)) (some-injective _ _ h)
  step-Moves i m m' server_sees_errctx h =
      let (free, moved) = if_some (is_free m.serving && m.errctx_done) h in
      let (is_idle, done) = and_split (is_free m.serving) m.errctx_done free in
      rw (server_for_free i m.serving is_idle)
        (if_taken m.errctx_done done ∙ ap (λ x. some (view i x)) (some-injective _ _ moved))
