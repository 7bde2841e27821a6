-- ===== src/Session/Incoming/Loop.antt =====
-- The rule for the loop of `handleIncomingMessages` in session.go: what the handling of data
-- messages keeps, the whole loop keeps.
use ssmlib.Common.{◌≡◌, refl, Bytes, List, [], ◌∷◌, All, if_rule, inl, inr}
use ssmlib.Errors.{unmarshal_message_failed, read_websocket_message_failed}
use ssmlib.Messages.Types.{
  acknowledge, pause_publication, start_publication, output_stream_data, channel_closed,
}
use ssmlib.Messages.Text.{bytes_eq, bytes_eq_iff}
use ssmlib.Messages.Message.{AgentMessage, empty_message}
use ssmlib.Messages.Create.{Result, ok, err, Result-cases, parse_acknowledgment}
use ssmlib.Messages.Codec.{Outcome, done, failed, panicked, unmarshal_binary}
use ssmlib.Session.Incoming.{
  Env, Incoming, Verdict, go_on, stop, crashed, consult, on_output, on_acknowledge, on_message,
  on_data, step, run,
}
use ssmlib.Session.Incoming.Drain.{Ends}

-- Two states that differ only in what went to `ackReceived` and in the context.
pub record SameData (st st' : Incoming) : Type 0 where
  pub same_delivered : st'.delivered ≡ st.delivered
  pub same_expected : st'.expected_sequence_id ≡ st.expected_sequence_id
  pub same_held : st'.out_of_order ≡ st.out_of_order
  pub same_control : st'.control ≡ st.control

-- A frame gives only data messages of which `P` is known.
abbrev pub Gives : Env → (AgentMessage → Type 0) → Result Bytes → Type 0
Gives env P (err e) = Unit
Gives env P (ok s) =
    (msg : AgentMessage)
    → unmarshal_binary env.sha256 empty_message s ≡ (msg, done)
    → msg.message_type ≡ output_stream_data
    → P msg

-- A round that begins with `I` ends with `J`, or with `Stop` where it stops the loop.
module _ (env : Env) (I J Stop : Incoming → Type 0) (P : AgentMessage → Type 0)
    (quiet : (st st' : Incoming) → SameData st st' → I st → I st')
    (settle : (st : Incoming) → I st → J st) (weaken : (st : Incoming) → I st → Stop st)
    (output : (msg : AgentMessage) (st : Incoming)
      → I st
      → P msg
      → Ends J Stop (on_output env msg st)) where
  consulted : (st : Incoming) → I st → I (consult st)
  consulted st h =
      quiet st (consult st)
        (record {
          same_delivered = refl;
          same_expected = refl;
          same_held = refl;
          same_control = refl;
        })
        h

  abbrev Fine : Incoming × Verdict → Type 0
  Fine = Ends J Stop

  on_acknowledge_rule :
      (msg : AgentMessage) (st : Incoming) → I st → Fine (on_acknowledge env msg st)
  unfolding on_acknowledge parse_acknowledgment
  on_acknowledge_rule msg st h = elim (Result-cases (env.unmarshal_ack msg.payload)) [
    | inr (e, r) ↦ rw (r, on_acknowledge, parse_acknowledgment) (settle st h)
    | inl (n, r) ↦
        rw (r, on_acknowledge, parse_acknowledgment)
          (if_rule Fine (env.is_done st.consulted) (λ d. weaken _ (consulted st h))
            (λ d. settle _ (
              quiet st _
                (record {
                  same_delivered = refl;
                  same_expected = refl;
                  same_held = refl;
                  same_control = refl;
                })
                h)))
  ]

  on_message_rule :
      (msg : AgentMessage) (st : Incoming)
      → I st
      → (msg.message_type ≡ output_stream_data → P msg)
      → Fine (on_message env msg st)
  unfolding on_message
  on_message_rule msg st h p =
      if_rule Fine (bytes_eq msg.message_type acknowledge) (λ e. on_acknowledge_rule msg st h)
        λ _.
          if_rule Fine (bytes_eq msg.message_type pause_publication) (λ e. settle st h)
            λ _.
              if_rule Fine (bytes_eq msg.message_type start_publication) (λ e. settle st h)
                λ _.
                  if_rule Fine (bytes_eq msg.message_type output_stream_data)
                    (λ e.
                      output msg st h (p ((bytes_eq_iff msg.message_type output_stream_data).0 e)))
                    λ _.
                      if_rule Fine (bytes_eq msg.message_type channel_closed) (λ e. weaken st h)
                        (λ e. settle st h)

  on_data_rule : (s : Bytes) (st : Incoming) → I st → Gives env P (ok s) → Fine (on_data env s st)
  unfolding on_data
  on_data_rule s st h g = verdict (unmarshal_binary env.sha256 empty_message s) refl
    where
      verdict :
          (r : AgentMessage × Outcome)
          → unmarshal_binary env.sha256 empty_message s ≡ r
          → Fine (elim r.1 [
            | done ↦ on_message env r.0 st
            | failed e ↦ (st, stop (unmarshal_message_failed e))
            | panicked ↦ (st, crashed)
          ])
      verdict (msg, done) e = on_message_rule msg st h (g msg e)
      verdict (msg, failed x) e = weaken st h
      verdict (msg, panicked) e = weaken st h

  pub step_rule :
      (frame : Result Bytes) (st : Incoming) → I st → Gives env P frame → Fine (step env frame st)
  unfolding step
  step_rule (ok s) st h g =
      if_rule Fine (env.is_done st.consulted) (λ d. weaken _ (consulted st h))
        (λ d. on_data_rule s (consult st) (consulted st h) g)
  step_rule (err e) st h g =
      if_rule Fine (env.is_done st.consulted) (λ d. weaken _ (consulted st h))
        (λ d.
          if_rule {A = Result Bytes}
            (λ r. Fine (elim r [
              | err x ↦ (consult st, stop (read_websocket_message_failed x))
              | ok s ↦ on_data env s (consult st)
            ]))
            (env.is_close_error e) (λ c. weaken _ (consulted st h))
            (λ c. weaken _ (consulted st h)))

module _ (env : Env) (I Stop : Incoming → Type 0) (P : AgentMessage → Type 0)
    (quiet : (st st' : Incoming) → SameData st st' → I st → I st')
    (weaken : (st : Incoming) → I st → Stop st)
    (output : (msg : AgentMessage) (st : Incoming)
      → I st
      → P msg
      → Ends I Stop (on_output env msg st)) where
  pub run_rule :
      (frames : List (Result Bytes)) (st : Incoming)
      → I st
      → All (Gives env P) frames
      → Ends I Stop (run env frames st)
  unfolding run
  run_rule [] st h g = h
  run_rule (frame ∷ frames) st h g =
      continue (λ st' k. run_rule frames st' k g.1) (step env frame st)
        (step_rule env I I Stop P quiet (λ st h. h) weaken output frame st h g.0)
    where
      continue :
          ((st' : Incoming) → I st' → Ends I Stop (run env frames st'))
          → (r : Incoming × Verdict) → Ends I Stop r
          → Ends I Stop (elim r.1 [
            | go_on ↦ run env frames r.0
            | stop e ↦ (r.0, stop e)
            | crashed ↦ (r.0, crashed)
          ])
      continue rest (st', go_on) k = rest st' k
      continue rest (st', stop e) k = k
      continue rest (st', crashed) k = k
