-- ===== src/Session/Outgoing/Window.antt =====
-- Every event of `handleOutgoingMessages` in session.go keeps the window of unacknowledged messages.
use ssmlib.Common.{
  ℕ, ◌<◌, ◌^◌, ◌≡◌, refl, sym, ap, ◌∙◌, Bytes, true, false, ◌&&◌, not, List, [], ◌∷◌, Option,
  length, ltb, ltb→lt, ◌==◌, ==_iff, if_rule, Bool-cases, Option-cases, inl, inr, arith,
}
use ssmlib.Common.Table.{lookup, lookup-insert, lookup-delete, length-insert-le, length-delete-le}
use ssmlib.Errors.{Error}
use ssmlib.Messages.AgentMessageFlag
use ssmlib.Messages.Message.{AgentMessage}
use ssmlib.Session.Outgoing.{
  Unacknowledged, Outgoing, start, Event, ack_received, control_message, outgoing_message,
  write_throttle, resend_ticker, takes_messages, on_ack, stamp, write_message, on_control,
  on_outgoing, resend,
}
use ssmlib.Session.Outgoing.Resend.{write-SameContent, resend-Keeps}
use ssmlib.Session.Outgoing.History.{accepted, Window, numbered_lt}

pub start-Window : Window [] start
unfolding lookup
start-Window = record {
  counts = refl;
  bounded = omega arith;
  entries = λ k u e. cc;
  retained = λ j m e. cc;
}

pub on_ack-Window :
    (n : ℕ) {es : List Event} {st : Outgoing}
    → Window es st
    → Window (ack_received n ∷ es) (on_ack n st)
unfolding on_ack
on_ack-Window n {es} {st} w = record {
  counts = w.counts;
  bounded = omega (arith, length-delete-le n st.unacknowledged_messages, w.bounded);
  entries = λ k u e. elim (Bool-cases (n == k)) [
    | inl hit ↦ cc (rw (lookup-delete n k st.unacknowledged_messages, hit) at e)
    | inr miss ↦ w.entries k u (rw (lookup-delete n k st.unacknowledged_messages, miss) at e)
  ];
  retained = λ j m e. elim (w.retained j m e) [
    | inl old ↦ inl (inr old)
    | inr (u, found, p, t, i) ↦ elim (Bool-cases (n == j)) [
      | inl hit ↦ inl (inl ((==_iff n j).0 hit, numbered_lt j (accepted es) e))
      | inr miss ↦ inr (u, lookup-delete n j st.unacknowledged_messages ∙ rw miss found, p, t, i)
    ]
  ];
}

stamp_sequence : (n : ℕ) (m : AgentMessage) → (stamp n m).sequence_number ≡ n
unfolding stamp
stamp_sequence n m =
    if_rule (λ (x : AgentMessage). x.sequence_number ≡ n)
      (n == 0 && not (m.flags == AgentMessageFlag.fin)) (λ _. refl) (λ _. refl)

-- What a stamp leaves of a message.
pub stamp_rest :
    (n : ℕ) (m : AgentMessage)
    → ((stamp n m).payload ≡ m.payload)
      × ((stamp n m).message_type ≡ m.message_type)
      × ((stamp n m).message_id ≡ m.message_id)
unfolding stamp
stamp_rest n m =
    if_rule
      (λ (x : AgentMessage).
        (x.payload ≡ m.payload) × (x.message_type ≡ m.message_type) × (x.message_id ≡ m.message_id))
      (n == 0 && not (m.flags == AgentMessageFlag.fin)) (λ _. (refl, refl, refl))
      (λ _. (refl, refl, refl))

-- The channel is open only where there is room.
takes-room : (st : Outgoing) → takes_messages st ≡ true → length st.unacknowledged_messages < 10
unfolding takes_messages
takes-room st h = elim (Bool-cases (ltb (length st.unacknowledged_messages) 10)) [
  | inl room ↦ ltb→lt (length st.unacknowledged_messages) 10 room
  | inr full ↦ cc (rw full at h)
]

module _ (sha256 : Bytes → Bytes) (write : Bytes → Option Error) where
  -- The messages that are accepted get the next number, which the bound keeps from wrapping.
  pub on_outgoing-Window :
      (msg : AgentMessage) (first last : ℕ) {es : List Event} {st : Outgoing}
      → takes_messages st ≡ true
      → length (accepted es) < 2 ^ 63
      → Window es st
      → Window (outgoing_message msg first last ∷ es) (on_outgoing sha256 write msg first last st)
  on_outgoing-Window msg first last {es} {st} takes small w =
      let sent = write_message sha256 write (stamp (length (accepted es)) msg) in
      let same = write-SameContent sha256 write (stamp (length (accepted es)) msg) in
      let rest = stamp_rest (length (accepted es)) msg in
      let added : Unacknowledged = record {
        message = sent.0;
        first_send_time = first;
        last_send_time = last;
      } in
      let added_at = λ (k : ℕ) (v : Unacknowledged). lookup-insert (length (accepted es)) k v in
      unfold on_outgoing in
      rw w.counts (record {
        counts = omega arith;
        bounded = omega (
          arith,
          takes-room st takes,
          length-insert-le (length (accepted es)) added st.unacknowledged_messages,
        );
        entries = λ k u e. elim (Bool-cases (length (accepted es) == k)) [
          | inl hit ↦
              let equal : added ≡ u =
                cc (rw (added_at k added st.unacknowledged_messages, hit) at e) in
              (
                omega (arith, (==_iff (length (accepted es)) k).0 hit),
                ap (λ (x : Unacknowledged). x.message.sequence_number) (sym equal)
                    ∙ (same.same_sequence
                        ∙ (stamp_sequence (length (accepted es)) msg
                            ∙ (==_iff (length (accepted es)) k).0 hit)),
              )
          | inr miss ↦
              let old =
                w.entries k u (rw (added_at k added st.unacknowledged_messages, miss) at e) in
              (omega (arith, old.0), old.1)
        ];
        retained = λ j m e. elim (Bool-cases (length (accepted es) == j)) [
          | inl hit ↦
              let equal : msg ≡ m = cc (rw hit at e) in
              inr (
                added,
                added_at j added st.unacknowledged_messages ∙ rw hit,
                same.same_payload ∙ (rest.0 ∙ ap (λ (x : AgentMessage). x.payload) equal),
                same.same_type ∙ (rest.1 ∙ ap (λ (x : AgentMessage). x.message_type) equal),
                same.same_id ∙ (rest.2 ∙ ap (λ (x : AgentMessage). x.message_id) equal),
              )
          | inr miss ↦ elim (w.retained j m (rw miss at e)) [
            | inl old ↦ inl old
            | inr (u, found, p, t, i) ↦
                inr (u, added_at j added st.unacknowledged_messages ∙ rw miss found, p, t, i)
          ]
        ];
      })

  pub control-Window :
      (msg : AgentMessage) {es : List Event} {st : Outgoing}
      → Window es st
      → Window (control_message msg ∷ es) (on_control sha256 write msg st)
  unfolding on_control
  control-Window msg {es} {st} w = record {
    counts = w.counts;
    bounded = w.bounded;
    entries = w.entries;
    retained = w.retained;
  }

  pub throttle-Window :
      {es : List Event} {st : Outgoing}
      → Window es st
      → Window (write_throttle ∷ es) (record st { write_throttled = false })
  throttle-Window {es} {st} w = record {
    counts = w.counts;
    bounded = w.bounded;
    entries = w.entries;
    retained = w.retained;
  }

  pub resend-Window :
      (now : ℕ) (ks : List ℕ) {es : List Event} {st : Outgoing}
      → Window es st
      → Window (resend_ticker now ks ∷ es) (resend sha256 write now ks st).0
  resend-Window now ks {es} {st} w =
      let kept = resend-Keeps sha256 write now ks st in
      record {
        counts = kept.same_next ∙ w.counts;
        bounded = omega (arith, kept.as_many, w.bounded);
        entries = λ k u e. elim (Option-cases (lookup k st.unacknowledged_messages)) [
          | inl missing ↦ cc (kept.nothing_new k missing, e)
          | inr (v, found) ↦
              let (u', found', same) = kept.entries k v found in
              let equal : u' ≡ u = cc (found', e) in
              let old = w.entries k v found in
              (
                old.0,
                ap (λ (x : Unacknowledged). x.message.sequence_number) (sym equal)
                    ∙ (same.content.same_sequence ∙ old.1),
              )
        ];
        retained = λ j m e. elim (w.retained j m e) [
          | inl old ↦ inl old
          | inr (v, found, p, t, i) ↦
              let (u', found', same) = kept.entries j v found in
              inr (
                u',
                found',
                same.content.same_payload ∙ p,
                same.content.same_type ∙ t,
                same.content.same_id ∙ i,
              )
        ];
      }
