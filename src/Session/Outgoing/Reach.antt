-- ===== src/Session/Outgoing/Reach.antt =====
-- Every state that the loop of `handleOutgoingMessages` in session.go reaches.
use ssmlib.Common.{
  ◌≤◌, ◌<◌, ◌^◌, ◌≡◌, ap, Bytes, false, List, [], ◌∷◌, Option, some, length, Bool-cases, inl, inr,
  subst, arith,
}
use ssmlib.Errors.{Error}
use ssmlib.Session.Verdict.{Verdict, go_on}
use ssmlib.Session.Outgoing.{
  Outgoing, start, Event, ack_received, control_message, outgoing_message, write_throttle,
  resend_ticker, ctx_done, takes_messages, on_ack, on_control, on_outgoing, resend, step,
}
use ssmlib.Session.Outgoing.History.{accepted, Window}
use ssmlib.Session.Outgoing.Window.{
  start-Window, on_ack-Window, on_outgoing-Window, control-Window, throttle-Window, resend-Window,
}

module _ (sha256 : Bytes → Bytes) (write : Bytes → Option Error) where
  -- The states that the loop reaches; the last event stands first.
  pub data Reach : List Event → Outgoing → Type 0 where
    idle : Reach [] start
    next :
        {es : List Event} {st st' : Outgoing}
        → (e : Event) → Reach es st
        → step sha256 write st e ≡ some (st', go_on)
        → Reach (e ∷ es) st'

  step-Window :
      (e : Event) {es : List Event} {st st' : Outgoing}
      → length (accepted es) < 2 ^ 63
      → Window es st
      → step sha256 write st e ≡ some (st', go_on)
      → Window (e ∷ es) st'
  unfolding step
  step-Window (ack_received n) {es} {st} {st'} small w h =
      let equal : on_ack n st ≡ st' = cc in subst (Window _) equal (on_ack-Window n w)
  step-Window (control_message msg) {es} {st} {st'} small w h =
      let equal : on_control sha256 write msg st ≡ st' = cc in
      subst (Window _) equal (control-Window sha256 write msg w)
  step-Window (outgoing_message msg first last) {es} {st} {st'} small w h =
      elim (Bool-cases (takes_messages st)) [
        | inl takes ↦
            let equal : on_outgoing sha256 write msg first last st ≡ st' = cc (rw takes at h) in
            subst (Window _) equal (on_outgoing-Window sha256 write msg first last takes small w)
        | inr closed ↦ cc (rw closed at h)
      ]
  step-Window write_throttle {es} {st} {st'} small w h = elim (Bool-cases st.write_throttled) [
    | inl throttled ↦
        let equal : record st { write_throttled = false } ≡ st' = cc (rw throttled at h) in
        subst (Window _) equal (throttle-Window sha256 write w)
    | inr free ↦ cc (rw free at h)
  ]
  step-Window (resend_ticker now ks) {es} {st} {st'} small w h =
      let pair : resend sha256 write now ks st ≡ (st', go_on) = cc in
      subst (Window _) (ap (λ (r : Outgoing × Verdict). r.0) pair)
        (resend-Window sha256 write now ks w)
  step-Window (ctx_done cause) {es} {st} {st'} small w h = cc

  pub accepted_grows :
      (e : Event) (es : List Event) → length (accepted es) ≤ length (accepted (e ∷ es))
  accepted_grows (ack_received n) es = omega arith
  accepted_grows (control_message msg) es = omega arith
  accepted_grows (outgoing_message msg first last) es = omega arith
  accepted_grows write_throttle es = omega arith
  accepted_grows (resend_ticker now ks) es = omega arith
  accepted_grows (ctx_done cause) es = omega arith

  -- In a state that the loop reaches before `2^63` messages were accepted, the next number is
  -- their count, at most ten entries are unacknowledged, each entry stands under the number its
  -- message carries, and an accepted message that no later acknowledgement of its number answered
  -- is still in the table with its payload, type and id.
  pub reached-Window :
      {es : List Event} {st : Outgoing} → Reach es st → length (accepted es) < 2 ^ 63 → Window es st
  reached-Window idle small = start-Window
  reached-Window (next {es} e r h) small =
      let before : length (accepted es) < 2 ^ 63 = omega (arith, accepted_grows e es) in
      step-Window e before (reached-Window r before) h
