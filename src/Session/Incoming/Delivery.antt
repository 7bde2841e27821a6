-- ===== src/Session/Incoming/Delivery.antt =====
-- What `handleIncomingMessages` of session.go keeps from one round to the next.
use ssmlib.Common.{
  ℕ, suc, ◌<◌, ◌^◌, ◌≡◌, ◌≢◌, sym, ◌∙◌, true, false, some, length, ◌==◌, ==_iff, ==_comm, ltb,
  Bool-cases, if_rule, inl, inr, arith,
}
use ssmlib.Common.Table.{lookup, insert, lookup-insert, Entries-lookup}
use ssmlib.Common.Words.{int64_ge, int64_ge_refl}
use ssmlib.Messages.Message.{AgentMessage}
use ssmlib.Session.Incoming.{
  Env, Incoming, Verdict, go_on, stop, crashed, send_acknowledge_message, deliver, take_held, drain,
  acknowledge_or_hold, on_output,
}
use ssmlib.Session.Incoming.Drain.{
  SameOrder, Ends, send-SameOrder, drain_rule, Drained, drain-Drained,
}
use ssmlib.Session.Incoming.Loop.{SameData}
use ssmlib.Session.Incoming.Order.{
  Keyed, IsOrdered, SameOrder-IsOrdered, deliver-IsOrdered, take_held-IsOrdered,
  acknowledge_or_hold-IsOrdered,
}
use ssmlib.Session.Incoming.Settled.{
  Settled, Acks, Acks-mono, earlier-Settled, send-Acks, deliver-Settled, deliver-Settled_self,
  SameOrder-Settled, take_held-Settled_self, SameOrder-Acks, insert-Settled, insert-Settled_self,
  take_held-Settled,
}

-- The Go type of the field.
abbrev pub IsInt64 : AgentMessage → Type 0
IsInt64 m = m.sequence_number < 2 ^ 64

-- The state between two rounds of the loop.
pub record IsReliable (st : Incoming) : Type 0 where
  pub ordered : IsOrdered IsInt64 st
  pub acked : Acks (Settled st) st.control
  pub drained : Drained st

abbrev pub Stopped : Incoming → Type 0
Stopped st = Unit

abbrev InDrain : Incoming → Type 0
InDrain st = IsOrdered IsInt64 st × Acks (Settled st) st.control

Ends-both :
    (r : Incoming × Verdict)
    → Ends InDrain Stopped r
    → Ends Drained Stopped r
    → Ends IsReliable Stopped r
Ends-both (st, go_on) (o, a) d = record { ordered = o; acked = a; drained = d }
Ends-both (st, stop e) h d = tt
Ends-both (st, crashed) h d = tt

pub not_next :
    (msg : AgentMessage) (st : Incoming)
    → msg.sequence_number ≢ st.expected_sequence_id
    → (st.expected_sequence_id == msg.sequence_number) ≡ false
not_next msg st ne = elim (Bool-cases (st.expected_sequence_id == msg.sequence_number)) [
  | inl e ↦ absurd (ne (sym ((==_iff st.expected_sequence_id msg.sequence_number).0 e)))
  | inr e ↦ e
]

module _ (env : Env) where
  take_held-Acks :
      (msg : AgentMessage) (st : Incoming)
      → InDrain st
      → lookup st.expected_sequence_id st.out_of_order ≡ some msg
      → Acks (Settled (take_held env msg st)) (take_held env msg st).control
  unfolding take_held deliver
  take_held-Acks msg st (o, a) e =
      let (k, _) =
        Entries-lookup (Keyed IsInt64) st.expected_sequence_id st.out_of_order o.keyed e in
      let R = Settled (take_held env msg st) in
      send-Acks env R msg st
        (Acks-mono {Q = Settled st} {R = R} st.control (λ q. take_held-Settled env msg st q k) a)
        (take_held-Settled_self env msg st)

  drain-IsReliable :
      (fuel : ℕ) (st : Incoming)
      → length st.out_of_order < fuel
      → InDrain st
      → Ends IsReliable Stopped (drain env fuel st)
  drain-IsReliable fuel st enough h =
      Ends-both (drain env fuel st)
        (drain_rule env InDrain Stopped
          (λ st msg (o, a) e.
            (tt, (take_held-IsOrdered env IsInt64 st msg o e, take_held-Acks msg st (o, a) e)))
          fuel st h)
        (drain-Drained env fuel st enough)

  -- The next message, once it was acknowledged, is delivered.
  deliver-InDrain :
      (msg : AgentMessage) (st : Incoming)
      → IsReliable st
      → IsInt64 msg
      → msg.sequence_number ≡ st.expected_sequence_id
      → InDrain (deliver msg (send_acknowledge_message env msg st).0)
  unfolding deliver
  deliver-InDrain msg st v small e =
      let st' = (send_acknowledge_message env msg st).0 in
      let s = send-SameOrder env msg st in
      let R = Settled (deliver msg st') in
      (
        deliver-IsOrdered IsInt64 msg st' (SameOrder-IsOrdered s v.ordered)
            (e ∙ sym s.same_expected) small,
        send-Acks env R msg st
            (Acks-mono {Q = Settled st} {R = R} st.control
              (λ q h. deliver-Settled msg st' q (SameOrder-Settled {st = st} {st' = st'} q s h))
              v.acked)
            (deliver-Settled_self msg st'),
      )

  -- `case messages.OutputStreamData` on the next message, on one before it and on one ahead of it.
  next-IsReliable :
      (msg : AgentMessage) (st : Incoming)
      → IsReliable st
      → IsInt64 msg
      → msg.sequence_number ≡ st.expected_sequence_id
      → Ends IsReliable Stopped (on_output env msg st)
  unfolding on_output acknowledge_or_hold
  next-IsReliable msg st v small e =
      let st' = (send_acknowledge_message env msg st).0 in
      let s = send-SameOrder env msg st in
      let d = deliver-InDrain msg st v small e in
      let ge : int64_ge st.expected_sequence_id msg.sequence_number ≡ true =
        rw e (int64_ge_refl st.expected_sequence_id) in
      rw (ge, (==_iff st'.expected_sequence_id msg.sequence_number).1 (s.same_expected ∙ sym e))
        (if_rule (Ends IsReliable Stopped) (env.is_done st'.consulted) (λ _. tt)
          (λ _.
            drain-IsReliable (suc (length st'.out_of_order)) (deliver msg st')
              (unfold deliver in omega arith) d))

  earlier-IsReliable :
      (msg : AgentMessage) (st : Incoming)
      → IsReliable st
      → IsInt64 msg
      → msg.sequence_number ≢ st.expected_sequence_id
      → int64_ge st.expected_sequence_id msg.sequence_number ≡ true
      → Ends IsReliable Stopped (on_output env msg st)
  unfolding on_output acknowledge_or_hold
  earlier-IsReliable msg st v small ne ge =
      let st' = (send_acknowledge_message env msg st).0 in
      let s = send-SameOrder env msg st in
      let settled =
        earlier-Settled st msg.sequence_number v.ordered.consecutive v.ordered.counted small ge
          ne in
      rw (ge, not_next msg st' (λ e. ne (e ∙ s.same_expected)))
        (record {
          ordered = SameOrder-IsOrdered s v.ordered;
          acked =
              SameOrder-Acks {st = st} {st' = st'} st'.control s
                (send-Acks env (Settled st) msg st v.acked settled);
          drained = rw (s.same_expected, s.same_held) v.drained;
        })

  ahead-IsReliable :
      (msg : AgentMessage) (st : Incoming)
      → IsReliable st
      → IsInt64 msg
      → msg.sequence_number ≢ st.expected_sequence_id
      → int64_ge st.expected_sequence_id msg.sequence_number ≡ false
      → Ends IsReliable Stopped (on_output env msg st)
  unfolding on_output acknowledge_or_hold
  ahead-IsReliable msg st v small ne ge = elim (Bool-cases (ltb (length st.out_of_order) 50)) [
    | inr full ↦ rw (ge, full, not_next msg st ne) v
    | inl room ↦
        let st₁ = record st { out_of_order = insert msg.sequence_number msg st.out_of_order } in
        let st' = (send_acknowledge_message env msg st₁).0 in
        let s = send-SameOrder env msg st₁ in
        let R = Settled st₁ in
        let other = not_next msg st ne in
        rw (ge, room, not_next msg st' (λ e. ne (e ∙ s.same_expected)))
          (record {
            ordered =
                rw (ge, room) at (acknowledge_or_hold-IsOrdered env IsInt64 msg st v.ordered small);
            acked = SameOrder-Acks {st = st₁} {st' = st'} st'.control s (
                send-Acks env R msg st₁
                  (Acks-mono {Q = Settled st} {R = R} st.control (insert-Settled msg st) v.acked)
                  (insert-Settled_self msg st));
            drained =
                rw (s.same_expected, s.same_held)
                  (lookup-insert msg.sequence_number st.expected_sequence_id msg st.out_of_order
                    ∙ rw (==_comm msg.sequence_number st.expected_sequence_id, other) v.drained);
          })
  ]

  pub on_output-IsReliable :
      (msg : AgentMessage) (st : Incoming)
      → IsReliable st
      → IsInt64 msg
      → Ends IsReliable Stopped (on_output env msg st)
  on_output-IsReliable msg st v small =
      elim (Bool-cases (msg.sequence_number == st.expected_sequence_id)) [
        | inl e ↦
            next-IsReliable msg st v small
              ((==_iff msg.sequence_number st.expected_sequence_id).0 e)
        | inr ne ↦
            let differ : msg.sequence_number ≢ st.expected_sequence_id = (λ p. ground arith) in
            elim (Bool-cases (int64_ge st.expected_sequence_id msg.sequence_number)) [
              | inl ge ↦ earlier-IsReliable msg st v small differ ge
              | inr lt ↦ ahead-IsReliable msg st v small differ lt
            ]
      ]

pub SameData-IsReliable : (st st' : Incoming) → SameData st st' → IsReliable st → IsReliable st'
SameData-IsReliable st st' s v =
    let same : SameOrder st st' = record {
      same_delivered = s.same_delivered;
      same_expected = s.same_expected;
      same_held = s.same_held;
    } in
    record {
      ordered = SameOrder-IsOrdered same v.ordered;
      acked = rw s.same_control (SameOrder-Acks {st = st} {st' = st'} st.control same v.acked);
      drained = rw (s.same_expected, s.same_held) v.drained;
    }
