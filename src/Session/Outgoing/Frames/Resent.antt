-- ===== src/Session/Outgoing/Frames/Resent.antt =====
-- What the ticker of `handleOutgoingMessages` in session.go writes to the socket.
use ssmlib.Common.{
  ℕ, ◌≡◌, subst, inl, inr, Bytes, List, [], ◌∷◌, Option, some, ltb, ◌+◌, ◌==◌, ==_iff, Bool-cases,
  Option-cases, if_rule,
}
use ssmlib.Common.Table.{lookup, lookup-insert}
use ssmlib.Errors.{Error}
use ssmlib.Session.Verdict.{Verdict}
use ssmlib.Session.Outgoing.{
  Unacknowledged, Outgoing, Event, resend_interval_duration, resend_timeout_duration, stamp,
  write_message, resend_one, resend,
}
use ssmlib.Session.Outgoing.Resend.{
  SameContent-trans, write-SameContent, resend_round, resend-none, resend-some,
}
use ssmlib.Session.Outgoing.Frames.{In-with_written, IsEntry, Sent, written-IsFrameOf}

module _ (sha256 : Bytes → Bytes) (write : Bytes → Option Error) where
  resend_one-Sent :
      (now k : ℕ) (u : Unacknowledged) {es : List Event} (st : Outgoing)
      → lookup k st.unacknowledged_messages ≡ some u
      → Sent sha256 write es st
      → Sent sha256 write es (resend_one sha256 write now k u st)
  unfolding resend_one
  resend_one-Sent now k u {es} st h v =
      let (m, n, s) = v.entries k u h in
      let entry : Unacknowledged = record u {
        message = (write_message sha256 write u.message).0;
        last_send_time = now;
      } in
      record {
        frames = λ b i. elim (In-with_written b _ st.written i) [
          | inl old ↦ v.frames b old
          | inr new ↦ inr (k, m, n, written-IsFrameOf sha256 write (stamp k m) u.message b s new)
        ];
        entries = λ j x e. elim (Bool-cases (k == j)) [
          | inl hit ↦
              let equal : entry ≡ x =
                cc (rw (lookup-insert k j entry st.unacknowledged_messages, hit) at e) in
              subst (λ i. IsEntry sha256 write es i x) ((==_iff k j).0 hit)
                (subst (IsEntry sha256 write es k) equal
                  (m, n, SameContent-trans s (write-SameContent sha256 write u.message)))
          | inr miss ↦
              v.entries j x (rw (lookup-insert k j entry st.unacknowledged_messages, miss) at e)
        ];
      }

  pub resend-Sent :
      (now : ℕ) (ks : List ℕ) {es : List Event} (st : Outgoing)
      → Sent sha256 write es st
      → Sent sha256 write es (resend sha256 write now ks st).0
  resend-Sent now [] st v = unfold resend in v
  resend-Sent now (k ∷ ks) {es} st v = elim (Option-cases (lookup k st.unacknowledged_messages)) [
    | inl e ↦ rw (resend-none sha256 write now k ks st e) (resend-Sent now ks st v)
    | inr (u, e) ↦ rw (resend-some sha256 write now k ks st u e) (
        if_rule (λ (r : Outgoing × Verdict). Sent sha256 write es r.0)
          (ltb (u.first_send_time + resend_timeout_duration) now) (λ _. v)
          (λ _. resend-Sent now ks (resend_round sha256 write now k u st) (
            if_rule (Sent sha256 write es) (ltb (u.last_send_time + resend_interval_duration) now)
              (λ _. resend_one-Sent now k u st e v) (λ _. v))))
  ]
