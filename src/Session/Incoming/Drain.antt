-- ===== src/Session/Incoming/Drain.antt =====
-- The inner loop of `handleIncomingMessages` in session.go, which empties the buffer of what has
-- become deliverable.
use ssmlib.Common.{
  ℕ, zero, suc, ◌<◌, ◌≡◌, refl, true, false, none, some, length, Bool-cases, Option-cases, inl, inr,
  arith,
}
use ssmlib.Common.Table.{lookup, length-delete-lt}
use ssmlib.Messages.Message.{AgentMessage}
use ssmlib.Session.Incoming.{
  Env, Incoming, Verdict, go_on, stop, crashed, consult, send_acknowledge_message, take_held, drain,
}

-- Two states that differ only in what was acknowledged and in how often the context was consulted.
pub record SameOrder (st st' : Incoming) : Type 0 where
  pub same_delivered : st'.delivered ≡ st.delivered
  pub same_expected : st'.expected_sequence_id ≡ st.expected_sequence_id
  pub same_held : st'.out_of_order ≡ st.out_of_order

-- What is to hold of a result: `I` where the loop goes on and `Stop` where it stops.
abbrev pub Ends : (Incoming → Type 0) → (Incoming → Type 0) → Incoming × Verdict → Type 0
Ends I Stop (st, go_on) = I st
Ends I Stop (st, stop e) = Stop st
Ends I Stop (st, crashed) = Stop st

-- The message that is expected next is not in the buffer.
abbrev pub Drained : Incoming → Type 0
Drained st = lookup st.expected_sequence_id st.out_of_order ≡ none

module _ (env : Env) where
  pub send-SameOrder :
      (msg : AgentMessage) (st : Incoming) → SameOrder st (send_acknowledge_message env msg st).0
  unfolding send_acknowledge_message
  send-SameOrder msg st = ground arith

  pub drain_empty :
      (fuel : ℕ) (st : Incoming)
      → lookup st.expected_sequence_id st.out_of_order ≡ none
      → drain env fuel st ≡ (st, go_on)
  unfolding drain
  drain_empty zero st e = refl
  drain_empty (suc fuel) st e = rw (e, drain)

  drain_halts :
      (fuel : ℕ) (st : Incoming) (msg : AgentMessage)
      → lookup st.expected_sequence_id st.out_of_order ≡ some msg
      → env.is_done (send_acknowledge_message env msg st).0.consulted ≡ true
      → drain env (suc fuel) st ≡ (consult (send_acknowledge_message env msg st).0, stop env.cause)
  unfolding drain
  drain_halts fuel st msg e d = rw (e, drain) (rw d)

  pub drain_step :
      (fuel : ℕ) (st : Incoming) (msg : AgentMessage)
      → lookup st.expected_sequence_id st.out_of_order ≡ some msg
      → env.is_done (send_acknowledge_message env msg st).0.consulted ≡ false
      → drain env (suc fuel) st ≡ drain env fuel (take_held env msg st)
  unfolding drain
  drain_step fuel st msg e d = rw (e, drain) (rw d)

  -- The rule for the loop: what a round keeps, and what a round leaves where it is stopped.
  pub drain_rule :
      (I Stop : Incoming → Type 0)
      → ((st : Incoming) (msg : AgentMessage)
          → I st
          → lookup st.expected_sequence_id st.out_of_order ≡ some msg
          → Stop (consult (send_acknowledge_message env msg st).0) × I (take_held env msg st))
      → (fuel : ℕ) (st : Incoming) → I st
      → Ends I Stop (drain env fuel st)
  drain_rule I Stop round zero st h = unfold drain in h
  drain_rule I Stop round (suc fuel) st h =
      elim (Option-cases (lookup st.expected_sequence_id st.out_of_order)) [
        | inl e ↦ rw (drain_empty (suc fuel) st e) h
        | inr (msg, e) ↦
            let (halted, kept) = round st msg h e in
            elim (Bool-cases (env.is_done (send_acknowledge_message env msg st).0.consulted)) [
              | inl d ↦ rw (drain_halts fuel st msg e d) halted
              | inr d ↦
                  rw (drain_step fuel st msg e d)
                    (drain_rule I Stop round fuel (take_held env msg st) kept)
            ]
      ]

  pub take_held_shorter :
      (msg : AgentMessage) (st : Incoming)
      → lookup st.expected_sequence_id st.out_of_order ≡ some msg
      → length (take_held env msg st).out_of_order < length st.out_of_order
  unfolding take_held
  take_held_shorter msg st e =
      let s = send-SameOrder msg st in
      rw (s.same_expected, s.same_held) (length-delete-lt st.expected_sequence_id st.out_of_order e)

  -- A round for each entry is enough: where the loop goes on, the message that is expected next
  -- is not in the buffer.
  pub drain-Drained :
      (fuel : ℕ) (st : Incoming)
      → length st.out_of_order < fuel
      → Ends Drained (λ _. Unit {0}) (drain env fuel st)
  drain-Drained zero st h = absurd (omega arith)
  drain-Drained (suc fuel) st h =
      elim (Option-cases (lookup st.expected_sequence_id st.out_of_order)) [
        | inl e ↦ rw (drain_empty (suc fuel) st e) e
        | inr (msg, e) ↦
            elim (Bool-cases (env.is_done (send_acknowledge_message env msg st).0.consulted)) [
              | inl d ↦ rw (drain_halts fuel st msg e d) tt
              | inr d ↦ rw (drain_step fuel st msg e d) (
                  drain-Drained fuel (take_held env msg st)
                    (omega (arith, take_held_shorter msg st e)))
            ]
      ]
