-- ===== src/Session/Outgoing/Frames/Genuine.antt =====
-- Every piece of data that `handleOutgoingMessages` of session.go writes, in every state.
use ssmlib.Common.{
  ℕ, ◌<◌, ◌^◌, ◌≡◌, refl, ap, subst, inl, inr, Bytes, false, List, ◌∷◌, Option, some, length, In,
  ◌==◌, ==_iff, ==_refl, Bool-cases, if_some, arith,
}
use ssmlib.Common.Table.{lookup, lookup-insert, lookup-delete}
use ssmlib.Errors.{Error}
use ssmlib.Messages.Message.{AgentMessage}
use ssmlib.Session.Verdict.{Verdict, go_on}
use ssmlib.Session.Outgoing.{
  Unacknowledged, Outgoing, Event, ack_received, control_message, outgoing_message, write_throttle,
  resend_ticker, ctx_done, takes_messages, on_ack, stamp, write_message, on_control, on_outgoing,
  resend, step,
}
use ssmlib.Session.Outgoing.Resend.{SameContent-refl, write-SameContent}
use ssmlib.Session.Outgoing.History.{accepted, numbered}
use ssmlib.Session.Outgoing.Reach.{Reach, idle, next, accepted_grows, reached-Window}
use ssmlib.Session.Outgoing.Frames.{
  In-with_written, IsSent, IsEntry, Sent, Sent-more, written-IsFrameOf,
}
use ssmlib.Session.Outgoing.Frames.Resent.{resend-Sent}

module _ (sha256 : Bytes → Bytes) (write : Bytes → Option Error) where
  on_ack-Sent :
      (n : ℕ) {es : List Event} {st : Outgoing}
      → Sent sha256 write es st
      → Sent sha256 write es (on_ack n st)
  unfolding on_ack
  on_ack-Sent n {es} {st} v = record {
    frames = v.frames;
    entries = λ k u e. elim (Bool-cases (n == k)) [
      | inl hit ↦ cc (rw (lookup-delete n k st.unacknowledged_messages, hit) at e)
      | inr miss ↦ v.entries k u (rw (lookup-delete n k st.unacknowledged_messages, miss) at e)
    ];
  }

  on_control-Sent :
      (msg : AgentMessage) {es : List Event} {st : Outgoing}
      → Sent sha256 write es st
      → Sent sha256 write (control_message msg ∷ es) (on_control sha256 write msg st)
  unfolding on_control write_message
  on_control-Sent msg {es} {st} v =
      let old = Sent-more sha256 write (control_message msg) v in
      record {
        frames = λ b i. elim (In-with_written b _ st.written i) [
          | inl before ↦ old.frames b before
          | inr new ↦ inl (msg, inl refl, new)
        ];
        entries = old.entries;
      }

  on_outgoing-Sent :
      (msg : AgentMessage) (first last : ℕ) {es : List Event} {st : Outgoing}
      → st.next_outgoing_sequence_number ≡ length (accepted es)
      → Sent sha256 write es st
      → Sent sha256 write
          (outgoing_message msg first last ∷ es)
          (on_outgoing sha256 write msg first last st)
  unfolding on_outgoing
  on_outgoing-Sent msg first last {es} {st} counts v =
      let e = outgoing_message msg first last in
      let n = st.next_outgoing_sequence_number in
      let old = Sent-more sha256 write e v in
      let entry : Unacknowledged = record {
        message = (write_message sha256 write (stamp n msg)).0;
        first_send_time = first;
        last_send_time = last;
      } in
      let last_one : numbered n (accepted (e ∷ es)) ≡ some msg =
        rw (counts, ==_refl (length (accepted es))) refl in
      record {
        frames = λ b i. elim (In-with_written b _ st.written i) [
          | inl before ↦ old.frames b before
          | inr new ↦ inr (
            n,
            msg,
            last_one,
            written-IsFrameOf sha256 write (stamp n msg) (stamp n msg) b
                (SameContent-refl (stamp n msg)) new,
          )
        ];
        entries = λ j x h. elim (Bool-cases (n == j)) [
          | inl hit ↦
              let equal : entry ≡ x =
                cc (rw (lookup-insert n j entry st.unacknowledged_messages, hit) at h) in
              subst (λ i. IsEntry sha256 write (e ∷ es) i x) ((==_iff n j).0 hit)
                (subst (IsEntry sha256 write (e ∷ es) n) equal
                  (msg, last_one, write-SameContent sha256 write (stamp n msg)))
          | inr miss ↦
              old.entries j x (rw (lookup-insert n j entry st.unacknowledged_messages, miss) at h)
        ];
      }

  step-Sent :
      (e : Event) {es : List Event} {st st' : Outgoing}
      → st.next_outgoing_sequence_number ≡ length (accepted es)
      → Sent sha256 write es st
      → step sha256 write st e ≡ some (st', go_on)
      → Sent sha256 write (e ∷ es) st'
  unfolding step
  step-Sent (ack_received n) {es} {st} {st'} c v h =
      let equal : on_ack n st ≡ st' = cc in
      subst (Sent sha256 write _) equal (Sent-more sha256 write (ack_received n) (on_ack-Sent n v))
  step-Sent (control_message msg) {es} {st} {st'} c v h =
      let equal : on_control sha256 write msg st ≡ st' = cc in
      subst (Sent sha256 write _) equal (on_control-Sent msg v)
  step-Sent (outgoing_message msg first last) {es} {st} {st'} c v h =
      let (takes, taken) = if_some (takes_messages st) h in
      let equal : on_outgoing sha256 write msg first last st ≡ st' = cc in
      subst (Sent sha256 write _) equal (on_outgoing-Sent msg first last c v)
  step-Sent write_throttle {es} {st} {st'} c v h =
      let (throttled, over) = if_some st.write_throttled h in
      let equal : record st { write_throttled = false } ≡ st' = cc in
      let more = Sent-more sha256 write write_throttle v in
      subst (Sent sha256 write _) equal (record { frames = more.frames; entries = more.entries })
  step-Sent (resend_ticker now ks) {es} {st} {st'} c v h =
      let pair : resend sha256 write now ks st ≡ (st', go_on) = cc in
      subst (Sent sha256 write _) (ap (λ (r : Outgoing × Verdict). r.0) pair)
        (Sent-more sha256 write (resend_ticker now ks) (resend-Sent sha256 write now ks st v))
  step-Sent (ctx_done cause) {es} {st} {st'} c v h = cc

  reached-Sent :
      {es : List Event} {st : Outgoing}
      → Reach sha256 write es st
      → length (accepted es) < 2 ^ 63
      → Sent sha256 write es st
  unfolding lookup
  reached-Sent idle small = record { frames = λ b i. absurd i; entries = λ k u e. cc }
  reached-Sent (next {es} e r h) small =
      let before : length (accepted es) < 2 ^ 63 =
        omega (arith, accepted_grows sha256 write e es) in
      step-Sent e (reached-Window sha256 write r before).counts (reached-Sent r before) h

  pub frames_genuine :
      {es : List Event} {st : Outgoing} (b : Bytes)
      → Reach sha256 write es st
      → length (accepted es) < 2 ^ 63
      → In b st.written
      → IsSent sha256 write es b
  frames_genuine b r small i = (reached-Sent r small).frames b i
