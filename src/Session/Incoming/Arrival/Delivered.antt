-- ===== src/Session/Incoming/Arrival/Delivered.antt =====
-- Data that arrives in any order is delivered by `handleIncomingMessages` of session.go.
use ssmlib.Common.{
  ℕ, ◌+◌, ◌≤◌, ◌<◌, ◌^◌, ◌≡◌, refl, sym, ap, ◌∙◌, subst, inl, inr, Bytes, List, [], ◌∷◌, length,
  All, ltb, ltb→lt, ltb_false→le, Bool-cases, if_rule, arith,
}
use ssmlib.Messages.Types.{output_stream_data}
use ssmlib.Messages.Text.{bytes_eq}
use ssmlib.Messages.Message.{AgentMessage, empty_message}
use ssmlib.Messages.Create.{Result, ok, err}
use ssmlib.Messages.Malformed.{unmarshal_int64}
use ssmlib.Messages.Codec.{Outcome, done, unmarshal_binary}
use ssmlib.Session.Incoming.{
  Env, Incoming, Verdict, go_on, stop, crashed, start, consult, on_output, on_message, on_data,
  step, run,
}
use ssmlib.Session.Incoming.Drain.{SameOrder, Ends}
use ssmlib.Session.Incoming.Loop.{SameData, Gives, step_rule}
use ssmlib.Session.Incoming.Settled.{Settled}
use ssmlib.Session.Incoming.Delivery.{
  IsInt64, IsReliable, Stopped, SameData-IsReliable, on_output-IsReliable,
}
use ssmlib.Session.Incoming.Promises.{
  Arrived, IsOctets, start-IsReliable, next_unsettled, goes_on-IsReliable,
}
use ssmlib.Session.Incoming.Arrival.{
  Grows, SameOrder-Grows, Grows-trans, Grows-refl, Settles, on_output-Settles,
}

both :
    {A B C : Incoming → Type 0} (r : Incoming × Verdict)
    → ((st : Incoming) → A st → B st → C st)
    → Ends A Stopped r
    → Ends B Stopped r
    → Ends C Stopped r
both (st, go_on) f a b = f st a b
both (st, stop e) f a b = tt
both (st, crashed) f a b = tt

same_order : (a b : Incoming) → SameData a b → SameOrder a b
same_order a b s = record {
  same_delivered = s.same_delivered;
  same_expected = s.same_expected;
  same_held = s.same_held;
}

consulted-IsReliable : (st : Incoming) → IsReliable st → IsReliable (consult st)
consulted-IsReliable st v =
    SameData-IsReliable st (consult st)
      (record {
        same_delivered = refl;
        same_expected = refl;
        same_held = refl;
        same_control = refl;
      })
      v

module _ (env : Env) where
  -- Before and after a round that began in the first state.
  abbrev Before : Incoming → Incoming → Type 0
  Before st₀ st = IsReliable st × Grows 0 st₀ st

  abbrev After : Incoming → Incoming → Type 0
  After st₀ st = IsReliable st × Grows 1 st₀ st

  output-After :
      (st₀ : Incoming) (msg : AgentMessage) (st : Incoming)
      → Before st₀ st
      → IsInt64 msg
      → Ends (After st₀) Stopped (on_output env msg st)
  output-After st₀ msg st (v, g) small =
      both {A = IsReliable} {B = Settles msg st} {C = After st₀} (on_output env msg st)
        (λ st' v' s. (v', Grows-trans st₀ st st' g s.grows))
        (on_output-IsReliable env msg st v small) (on_output-Settles env msg st v small)

  octets-Gives : (frame : Result Bytes) → IsOctets frame → Gives env IsInt64 frame
  octets-Gives (ok s) h = λ msg e t. unmarshal_int64 env.sha256 empty_message msg s h e
  octets-Gives (err e) h = tt

  step-After :
      (frame : Result Bytes) (st : Incoming)
      → IsReliable st
      → IsOctets frame
      → Ends (After st) Stopped (step env frame st)
  step-After frame st v h =
      step_rule env (Before st) (After st) Stopped IsInt64
        (λ a b s (va, g). (
          SameData-IsReliable a b s va,
          Grows-trans st a b g (SameOrder-Grows a b (same_order a b s)),
        ))
        (λ a (va, g). (va, record { keeps = g.keeps; held = omega (arith, g.held) })) (λ a k. tt)
        (output-After st) frame st (v, Grows-refl st) (octets-Gives frame h)

  -- A round on a data message.
  on_message-data :
      (msg : AgentMessage) (st : Incoming)
      → msg.message_type ≡ output_stream_data
      → on_message env msg st ≡ on_output env msg st
  unfolding on_message bytes_eq
  on_message-data msg st t = rw t refl

  on_data-data :
      (s : Bytes) (msg : AgentMessage) (st : Incoming)
      → unmarshal_binary env.sha256 empty_message s ≡ (msg, done)
      → msg.message_type ≡ output_stream_data
      → on_data env s st ≡ on_output env msg st
  unfolding on_data
  on_data-data s msg st e t =
      rw (e, on_data)
        (ap (λ (r : AgentMessage × Outcome). on_message env r.0 st) e ∙ on_message-data msg st t)

  step-Settles :
      (s : Bytes) (msg : AgentMessage) (st : Incoming)
      → IsReliable st
      → IsInt64 msg
      → unmarshal_binary env.sha256 empty_message s ≡ (msg, done)
      → msg.message_type ≡ output_stream_data
      → length st.out_of_order < 50
      → Ends (λ st'. Settled st' msg.sequence_number) Stopped (step env (ok s) st)
  unfolding step
  step-Settles s msg st v small e t room =
      if_rule (Ends (λ st'. Settled st' msg.sequence_number) Stopped) (env.is_done st.consulted)
        (λ _. tt)
        (λ _.
          let settles = on_output-Settles env msg (consult st) (consulted-IsReliable st v) small in
          rw (on_data-data s msg (consult st) e t) (
            both {A = Settles msg (consult st)} {B = Settles msg (consult st)}
              {C = λ st'. Settled st' msg.sequence_number} (on_output env msg (consult st))
              (λ st' k _. k.settled room) settles settles))

  run_round :
      (frame : Result Bytes) (frames : List (Result Bytes)) (st last : Incoming)
      → run env (frame ∷ frames) st ≡ (last, go_on)
      → (st' : Incoming) × (step env frame st ≡ (st', go_on)) × (run env frames st' ≡ (last, go_on))
  unfolding run
  run_round frame frames st last h = split (step env frame st) refl h
    where
      split :
          (r : Incoming × Verdict)
          → step env frame st ≡ r
          → (elim r.1 [
            | go_on ↦ run env frames r.0
            | stop e ↦ (r.0, stop e)
            | crashed ↦ (r.0, crashed)
          ])
            ≡ (last, go_on)
          → (st' : Incoming) × (step env frame st ≡ (st', go_on))
            × (run env frames st' ≡ (last, go_on))
      split (st', go_on) e k = (st', e, k)
      split (st', stop x) e k = cc
      split (st', crashed) e k = cc

  -- The number of a data message among the frames.
  abbrev pub IsArrived : List (Result Bytes) → ℕ → Type 0
  IsArrived frames q = (msg : AgentMessage) × Arrived env frames msg × (msg.sequence_number ≡ q)

  -- Where every frame finds room, all that arrives is settled.
  run-Settled :
      (frames : List (Result Bytes)) (st last : Incoming)
      → IsReliable st
      → All IsOctets frames
      → length st.out_of_order + length frames ≤ 50
      → run env frames st ≡ (last, go_on)
      → ((q : ℕ) → Settled st q → Settled last q) × ((q : ℕ) → IsArrived frames q → Settled last q)
  unfolding run
  run-Settled [] st last v octets room h =
      let same = ap (λ (r : Incoming × Verdict). r.0) h in
      ((λ q k. subst (λ x. Settled x q) same k), λ q (msg, (s, i, e, t), n). absurd i)
  run-Settled (frame ∷ frames) st last v octets room h =
      let (st', round, rest) = run_round frame frames st last h in
      let (v', g) = subst (Ends (After st) Stopped) round (step-After frame st v octets.0) in
      let (keeps, arrives) = run-Settled frames st' last v' octets.1 (omega (arith, g.held)) rest in
      (
        λ q k. keeps q (g.keeps q k),
        λ q (msg, (s, i, e, t), n). elim i [
          | inl here ↦
              let small =
                unmarshal_int64 env.sha256 empty_message msg s (subst IsOctets here octets.0) e in
              let now =
                subst (Ends (λ x. Settled x msg.sequence_number) Stopped)
                  (ap (λ f. step env f st) (sym here) ∙ round)
                  (step-Settles s msg st v small e t (omega arith)) in
              subst (Settled last) n (keeps msg.sequence_number now)
          | inr later ↦ arrives q (msg, (s, later, e, t), n)
        ],
      )

  -- While the loop goes on and at most 50 frames came in, so that there is room for all of them,
  -- data that arrives, in any order and with repetitions, is delivered as soon as it can be: if a
  -- data message with each of the numbers below `n` was among the frames, at least `n` messages were
  -- delivered. (`n` is an int64.)
  pub arrived_delivered :
      (frames : List (Result Bytes)) (st : Incoming) (n : ℕ)
      → All IsOctets frames
      → length frames ≤ 50
      → run env frames start ≡ (st, go_on)
      → n ≤ 2 ^ 63
      → ((q : ℕ) → q < n → IsArrived frames q)
      → n ≤ length st.delivered
  arrived_delivered frames st n octets few e small arrived =
      elim (Bool-cases (ltb (length st.delivered) n)) [
        | inr enough ↦ ltb_false→le (length st.delivered) n enough
        | inl short ↦
            let lt = ltb→lt (length st.delivered) n short in
            let (_, settled) =
              run-Settled frames start st start-IsReliable octets (omega arith) e in
            absurd (
              next_unsettled env st (goes_on-IsReliable env frames st octets e) (omega arith)
                (settled (length st.delivered) (arrived (length st.delivered) lt)))
      ]
