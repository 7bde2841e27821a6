-- ===== src/Session/Incoming/Progress.antt =====
-- The data message that `handleIncomingMessages` of session.go expects is handed on.
use ssmlib.Common.{
  ℕ, zero, suc, ◌≡◌, refl, sym, ap, ◌∙◌, true, false, [], ◌∷◌, length, In, In-append_left,
  In-append_right, ◌==◌, ==_iff, Option-cases, inl, inr, arith,
}
use ssmlib.Common.Table.{lookup}
use ssmlib.Common.Words.{int64_ge, int64_ge_refl}
use ssmlib.Messages.Message.{AgentMessage}
use ssmlib.Session.Incoming.{
  Env, Incoming, Verdict, go_on, stop, crashed, deliver, send_acknowledge_message, take_held, drain,
  acknowledge_or_hold, on_output,
}
use ssmlib.Session.Incoming.Drain.{
  send-SameOrder, Ends, Drained, drain_rule, drain_empty, drain_step, drain-Drained,
}

Ends-go_on :
    (I Stop : Incoming → Type 0) (r : Incoming × Verdict) → r.1 ≡ go_on → Ends I Stop r → I r.0
Ends-go_on I Stop (st, go_on) e h = h
Ends-go_on I Stop (st, stop x) e h = cc
Ends-go_on I Stop (st, crashed) e h = cc

module _ (env : Env) where
  drain-go_on :
      ((n : ℕ) → env.is_done n ≡ false) → (fuel : ℕ) (st : Incoming) → (drain env fuel st).1 ≡ go_on
  drain-go_on never zero st = unfold drain in refl
  drain-go_on never (suc fuel) st =
      elim (Option-cases (lookup st.expected_sequence_id st.out_of_order)) [
        | inl e ↦ rw (drain_empty env (suc fuel) st e)
        | inr (msg, e) ↦
            rw (drain_step env fuel st msg e (never _))
              (drain-go_on never fuel (take_held env msg st))
      ]

  -- What was delivered stays delivered.
  drain-In :
      (m : AgentMessage) (fuel : ℕ) (st : Incoming)
      → In m st.delivered
      → Ends (λ r. In m r.delivered) (λ r. In m r.delivered) (drain env fuel st)
  unfolding take_held deliver
  drain-In m =
      drain_rule env (λ r. In m r.delivered) (λ r. In m r.delivered)
        (λ st msg i e.
          let s = send-SameOrder env msg st in
          (rw s.same_delivered i, rw s.same_delivered (In-append_left m st.delivered (msg ∷ []) i)))

  on_output_expected :
      (msg : AgentMessage) (st : Incoming)
      → ((n : ℕ) → env.is_done n ≡ false)
      → msg.sequence_number ≡ st.expected_sequence_id
      → let st' = (send_acknowledge_message env msg st).0 in
        on_output env msg st ≡ drain env (suc (length st'.out_of_order)) (deliver msg st')
  unfolding on_output acknowledge_or_hold
  on_output_expected msg st never e =
      let s = send-SameOrder env msg st in
      let st' = (send_acknowledge_message env msg st).0 in
      let ge : int64_ge st.expected_sequence_id msg.sequence_number ≡ true =
        ap (int64_ge st.expected_sequence_id) e ∙ int64_ge_refl st.expected_sequence_id in
      let next : (st'.expected_sequence_id == msg.sequence_number) ≡ true =
        (==_iff st'.expected_sequence_id msg.sequence_number).1 (s.same_expected ∙ sym e) in
      rw ge (rw (next, never st'.consulted))

  -- While the context is not done, a data message with the number that is expected is delivered,
  -- the loop goes on, and afterwards the number that is expected next is not held in the buffer.
  pub expected_delivered :
      (msg : AgentMessage) (st : Incoming)
      → ((n : ℕ) → env.is_done n ≡ false)
      → msg.sequence_number ≡ st.expected_sequence_id
      → let r = on_output env msg st in (r.1 ≡ go_on) × In msg r.0.delivered × Drained r.0
  unfolding deliver
  expected_delivered msg st never e =
      let st' = (send_acknowledge_message env msg st).0 in
      let fuel = suc (length st'.out_of_order) in
      let goes = drain-go_on never fuel (deliver msg st') in
      rw (on_output_expected msg st never e) (
        goes,
        Ends-go_on (λ r. In msg r.delivered) (λ r. In msg r.delivered)
            (drain env fuel (deliver msg st')) goes
            (drain-In msg fuel (deliver msg st')
              (In-append_right msg st'.delivered (msg ∷ []) (inl refl))),
        Ends-go_on Drained (λ _. Unit {0}) (drain env fuel (deliver msg st')) goes
            (drain-Drained env fuel (deliver msg st') (omega arith)),
      )
