-- ===== src/Handler/MuxPortForward/Many/Isolated.antt =====
-- What many calls of `Dial` of handler/muxPortForward.go keep from each other: their runs, and
-- whose connections are whose.
use ssmlib.Common.{
  ℕ, ◌+◌, ◌≤◌, ◌≡◌, refl, sym, ap, ◌∙◌, subst, inl, inr, Bool, true, false, List, [], ◌∷◌, Option,
  none, some, ◌==◌, ==_iff, ==_refl, if_some, suc, if◌then◌else◌, Bool-cases, arith,
}
use ssmlib.Errors.{Error}
use ssmlib.Messages.Create.{ok}
use ssmlib.Handler.MuxPortForward as Mux
use ssmlib.Handler.MuxPortForward.{Response, Caller, returned, Dial, DialEvent}
use ssmlib.Handler.MuxPortForward.Dialling as Dialling
use ssmlib.Handler.MuxPortForward.Answering.{
  times_opened, served, times_opened-served, in_response, in_closed, in_caller, accounted,
  Run-accounted,
}
use ssmlib.Handler.MuxPortForward.Many.{
  Dials, Event, of_call, request_served, server_responds, errctx_ends, server_sees_errctx, begin,
  view, is_own, step,
}
use ssmlib.Handler.MuxPortForward.Many.Single.{for_call, with_event, own_events, Moves, step-Moves}

-- How often `OpenStream` gave a stream for one of the calls.
abbrev pub times_given : ℕ → List Event → ℕ
times_given n [] = 0
times_given n (request_served i r ∷ rest) = in_response n r + times_given n rest
times_given n (e ∷ rest) = times_given n rest

abbrev given : ℕ → Event → ℕ
given n (request_served i r) = in_response n r
given n e = 0

abbrev gives : ℕ → Option DialEvent → ℕ
gives n none = 0
gives n (some e) = served n e

returned_once : (conn : ℕ) → in_caller conn (returned (ok conn)) ≡ 1
returned_once conn = rw (==_refl conn) refl

module _ (ctx_err cause : Error) where
  -- What can happen to the calls; the last event stands first.
  pub data Run : List Event → Dials → Type 0 where
    made : Run [] begin
    next :
        {es : List Event} {m m' : Dials}
        → (e : Event) → Run es m
        → step ctx_err cause m e ≡ some m'
        → Run (e ∷ es) m'

  goes_on :
      (o : Option DialEvent) {es : List DialEvent} {d d' : Dial}
      → Dialling.Run ctx_err cause es d
      → Moves ctx_err cause o d d'
      → Dialling.Run ctx_err cause (with_event o es) d'
  goes_on none {es} r h = subst (Dialling.Run ctx_err cause es) (sym h) r
  goes_on (some e) r h = Dialling.next e r h

  -- However many calls of `Dial` are under way, each goes through a run of a single call: the events
  -- that concern it, in their order, lead from a call that is made to what it has become.
  pub many_refine_one :
      {es : List Event} {m : Dials} (i : ℕ)
      → Run es m
      → Dialling.Run ctx_err cause (own_events i es) (view i m)
  many_refine_one i made = Dialling.made
  many_refine_one i (next {es} {m} {m'} e r h) =
      goes_on (for_call i e) (many_refine_one i r) (step-Moves ctx_err cause i m m' e h)

  is_own-served : (n : ℕ) (e : DialEvent) → is_own e ≡ true → served n e ≡ 0
  is_own-served n Mux.ctx_ends h = refl
  is_own-served n Mux.errctx_ends h = refl
  is_own-served n Mux.helper_listens h = refl
  is_own-served n Mux.helper_sees_ctx h = refl
  is_own-served n Mux.helper_sees_errctx h = refl
  is_own-served n Mux.helper_hands_over h = refl
  is_own-served n Mux.caller_sees_ctx h = refl
  is_own-served n Mux.caller_sees_errctx h = refl
  is_own-served n (Mux.request_served r) h = cc
  is_own-served n Mux.server_responds h = refl
  is_own-served n Mux.server_sees_errctx h = refl

  own_gives :
      (n : ℕ) (b : Bool) (e : DialEvent) → served n e ≡ 0 → gives n (if b then some e else none) ≡ 0
  own_gives n true e h = h
  own_gives n false e h = refl

  gives_apart :
      (n i j : ℕ) (m m' : Dials) (e : Event)
      → (i == j) ≡ false
      → step ctx_err cause m e ≡ some m'
      → gives n (for_call i e) + gives n (for_call j e) ≤ given n e
  unfolding step
  gives_apart n i j m m' (of_call k e) ne h =
      let (own, moved) = if_some (is_own e) h in
      let none_given = is_own-served n e own in
      omega (arith, own_gives n (i == k) e none_given, own_gives n (j == k) e none_given)
  gives_apart n i j m m' (request_served k r) ne h = ground arith
  gives_apart n i j m m' (server_responds k) ne h = omega (
    arith,
    own_gives n (i == k) Mux.server_responds refl,
    own_gives n (j == k) Mux.server_responds refl,
  )
  gives_apart n i j m m' errctx_ends ne h = omega arith
  gives_apart n i j m m' server_sees_errctx ne h = omega arith

  times-with_event :
      (n : ℕ) (o : Option DialEvent) (es : List DialEvent)
      → times_opened n (with_event o es) ≡ gives n o + times_opened n es
  times-with_event n none es = omega arith
  times-with_event n (some e) es = times_opened-served n e es

  times_given-given :
      (n : ℕ) (e : Event) (es : List Event) → times_given n (e ∷ es) ≡ given n e + times_given n es
  times_given-given n (of_call k e) es = omega arith
  times_given-given n (request_served k r) es = omega arith
  times_given-given n (server_responds k) es = omega arith
  times_given-given n errctx_ends es = omega arith
  times_given-given n server_sees_errctx es = omega arith

  times_apart :
      {es : List Event} {m : Dials} (n i j : ℕ)
      → (i == j) ≡ false
      → Run es m
      → times_opened n (own_events i es) + times_opened n (own_events j es) ≤ times_given n es
  times_apart n i j ne made = omega arith
  times_apart n i j ne (next {es} {m} {m'} e r h) = omega (
    arith,
    times-with_event n (for_call i e) (own_events i es),
    times-with_event n (for_call j e) (own_events j es),
    times_given-given n e es,
    gives_apart n i j m m' e ne h,
    times_apart n i j ne r,
  )

  accounted_apart :
      {es : List Event} {m : Dials} (n i j : ℕ)
      → (i == j) ≡ false
      → Run es m
      → accounted n (view i m) + accounted n (view j m) ≤ times_given n es
  accounted_apart n i j ne r = omega (
    arith,
    times_apart n i j ne r,
    Run-accounted ctx_err cause n (many_refine_one i r),
    Run-accounted ctx_err cause n (many_refine_one j r),
  )

  -- One call needs another one to be counted against, which any other number is.
  accounted_once :
      {es : List Event} {m : Dials} (n i : ℕ) → Run es m → accounted n (view i m) ≤ times_given n es
  accounted_once {m} n i r =
      let ne : (i == suc i) ≡ false = ground arith in
      omega (arith, accounted_apart n i (suc i) ne r)

  -- Where `OpenStream` gives a stream for at most one of the calls, the connection that a call of
  -- `Dial` has returned is that call's alone: no call has closed it, and no other call has returned
  -- it.
  pub dials_isolated :
      {es : List Event} {m : Dials} (conn i : ℕ)
      → Run es m
      → times_given conn es ≤ 1
      → (m.calls i).caller ≡ returned (ok conn)
      → (j : ℕ)
      → (in_closed conn (m.calls j).closed ≡ 0) × ((m.calls j).caller ≡ returned (ok conn) → i ≡ j)
  dials_isolated {m} conn i r once e j =
      let here = ap (in_caller conn) e ∙ returned_once conn in
      elim (Bool-cases (i == j)) [
        | inl same ↦
            let eq = (==_iff i j).0 same in
            let own : in_closed conn (m.calls i).closed ≡ 0 =
              omega (arith, here, once, accounted_once conn i r) in
            (subst (λ k. in_closed conn (m.calls k).closed ≡ 0) eq own, λ _. eq)
        | inr ne ↦
            let few = accounted_apart conn i j ne r in
            (
              omega (arith, here, once, few),
              λ also.
                  let there = ap (in_caller conn) also ∙ returned_once conn in
                  absurd (omega (arith, here, there, once, few)),
            )
      ]
