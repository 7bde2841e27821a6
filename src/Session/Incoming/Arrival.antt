-- ===== src/Session/Incoming/Arrival.antt =====
-- What becomes of the data messages that `handleIncomingMessages` of session.go reads while there is
-- room to hold them.
pub mod Delivered
use ssmlib.Common.{
  ℕ, suc, ◌+◌, ◌≤◌, ◌<◌, ◌^◌, ◌≡◌, ◌≢◌, refl, sym, ap, ◌∙◌, subst, ◌⊎◌, inl, inr, Bytes, true,
  false, List, [], ◌∷◌, some, length, All, In, ◌==◌, ==_iff, ltb, ltb→lt, ltb_false→le, lt→ltb,
  Bool-cases, if_rule, arith,
}
use ssmlib.Common.Table.{lookup, insert, length-insert-le, Entries-lookup}
use ssmlib.Common.Words.{int64_ge, int64_ge_refl}
use ssmlib.Messages.Message.{AgentMessage, empty_message}
use ssmlib.Messages.Create.{Result, ok, err}
use ssmlib.Messages.Codec.{done, unmarshal_binary}
use ssmlib.Session.Incoming.{
  Env, Incoming, Verdict, go_on, stop, crashed, send_acknowledge_message, deliver, take_held, drain,
  acknowledge_or_hold, on_output,
}
use ssmlib.Session.Incoming.Drain.{SameOrder, Ends, send-SameOrder, drain_rule, take_held_shorter}
use ssmlib.Session.Incoming.Loop.{SameData}
use ssmlib.Session.Incoming.Order.{
  Keyed, IsOrdered, SameOrder-IsOrdered, take_held-IsOrdered, deliver-IsOrdered,
}
use ssmlib.Session.Incoming.Settled.{
  Settled, earlier-Settled, deliver-Settled, deliver-Settled_self, SameOrder-Settled,
  insert-Settled, insert-Settled_self, take_held-Settled,
}
use ssmlib.Session.Incoming.Delivery.{IsInt64, IsReliable, Stopped, not_next}

-- From one state to another: what was settled stays so, and at most `n` more messages are held.
pub record Grows (n : ℕ) (st st' : Incoming) : Type 0 where
  pub keeps : (q : ℕ) → Settled st q → Settled st' q
  pub held : length st'.out_of_order ≤ length st.out_of_order + n

pub SameOrder-Grows : (st st' : Incoming) → SameOrder st st' → Grows 0 st st'
SameOrder-Grows st st' s = record {
  keeps = λ q. SameOrder-Settled {st = st} {st' = st'} q s;
  held = rw s.same_held (omega arith);
}

pub Grows-trans : {n k : ℕ} (a b c : Incoming) → Grows n a b → Grows k b c → Grows (n + k) a c
Grows-trans a b c f g = record {
  keeps = λ q h. g.keeps q (f.keeps q h);
  held = omega (arith, f.held, g.held);
}

Grows-refl : (st : Incoming) → Grows 0 st st
Grows-refl st = record { keeps = λ q h. h; held = omega arith }

deliver-Grows : (msg : AgentMessage) (st : Incoming) → Grows 0 st (deliver msg st)
unfolding deliver
deliver-Grows msg st = record { keeps = λ q. deliver-Settled msg st q; held = omega arith }

-- A data message is settled by its round, where there is room.
pub record Settles (msg : AgentMessage) (st st' : Incoming) : Type 0 where
  pub grows : Grows 1 st st'
  pub settled : length st.out_of_order < 50 → Settled st' msg.sequence_number

module _ (env : Env) where
  -- The inner loop settles what is settled, and holds no more.
  drain-Grows :
      (fuel : ℕ) (st₀ st : Incoming)
      → IsOrdered IsInt64 st
      → Grows 0 st₀ st
      → Ends (Grows 0 st₀) Stopped (drain env fuel st)
  drain-Grows fuel st₀ st o g = only (drain env fuel st) (
      drain_rule env (λ s. IsOrdered IsInt64 s × Grows 0 st₀ s) Stopped
        (λ s msg (o, g) e.
          let (k, _) =
            Entries-lookup (Keyed IsInt64) s.expected_sequence_id s.out_of_order o.keyed e in
          (
            tt,
            (
              take_held-IsOrdered env IsInt64 s msg o e,
              record {
                keeps = λ q h. take_held-Settled env msg s q k (g.keeps q h);
                held = omega (arith, take_held_shorter env msg s e, g.held);
              },
            ),
          ))
        fuel st (o, g))
    where
      only :
          (r : Incoming × Verdict)
          → Ends (λ s. IsOrdered IsInt64 s × Grows 0 st₀ s) Stopped r
          → Ends (Grows 0 st₀) Stopped r
      only (s, go_on) h = h.1
      only (s, stop e) h = tt
      only (s, crashed) h = tt

  next-Settles :
      (msg : AgentMessage) (st : Incoming)
      → IsReliable st
      → IsInt64 msg
      → msg.sequence_number ≡ st.expected_sequence_id
      → Ends (Settles msg st) Stopped (on_output env msg st)
  unfolding on_output acknowledge_or_hold
  next-Settles msg st v small e =
      let st' = (send_acknowledge_message env msg st).0 in
      let s = send-SameOrder env msg st in
      let after = deliver msg st' in
      let ge : int64_ge st.expected_sequence_id msg.sequence_number ≡ true =
        rw e (int64_ge_refl st.expected_sequence_id) in
      let o =
        deliver-IsOrdered IsInt64 msg st' (SameOrder-IsOrdered s v.ordered)
          (e ∙ sym s.same_expected) small in
      rw (ge, (==_iff st'.expected_sequence_id msg.sequence_number).1 (s.same_expected ∙ sym e))
        (if_rule (Ends (Settles msg st) Stopped) (env.is_done st'.consulted) (λ _. tt)
          (λ _.
            settled_here after
              (Grows-trans st st' after (SameOrder-Grows st st' s) (deliver-Grows msg st'))
              (deliver-Settled_self msg st') (drain env (suc (length st'.out_of_order)) after)
              (drain-Grows (suc (length st'.out_of_order)) after after o (Grows-refl after))))
    where
      settled_here :
          (after : Incoming)
          → Grows 0 st after
          → Settled after msg.sequence_number
          → (r : Incoming × Verdict) → Ends (Grows 0 after) Stopped r
          → Ends (Settles msg st) Stopped r
      settled_here after b d (s, go_on) g = record {
        grows = record {
          keeps = λ q h. g.keeps q (b.keeps q h);
          held = omega (arith, b.held, g.held);
        };
        settled = λ _. g.keeps msg.sequence_number d;
      }
      settled_here after b d (s, stop x) g = tt
      settled_here after b d (s, crashed) g = tt

  earlier-Settles :
      (msg : AgentMessage) (st : Incoming)
      → IsReliable st
      → IsInt64 msg
      → msg.sequence_number ≢ st.expected_sequence_id
      → int64_ge st.expected_sequence_id msg.sequence_number ≡ true
      → Ends (Settles msg st) Stopped (on_output env msg st)
  unfolding on_output acknowledge_or_hold
  earlier-Settles msg st v small ne ge =
      let st' = (send_acknowledge_message env msg st).0 in
      let s = send-SameOrder env msg st in
      let settled =
        earlier-Settled st msg.sequence_number v.ordered.consecutive v.ordered.counted small ge
          ne in
      let g = SameOrder-Grows st st' s in
      rw (ge, not_next msg st' (λ e. ne (e ∙ s.same_expected)))
        (record {
          grows = record { keeps = g.keeps; held = omega (arith, g.held) };
          settled = λ _. g.keeps msg.sequence_number settled;
        })

  ahead-Settles :
      (msg : AgentMessage) (st : Incoming)
      → msg.sequence_number ≢ st.expected_sequence_id
      → int64_ge st.expected_sequence_id msg.sequence_number ≡ false
      → Ends (Settles msg st) Stopped (on_output env msg st)
  unfolding on_output acknowledge_or_hold
  ahead-Settles msg st ne ge = elim (Bool-cases (ltb (length st.out_of_order) 50)) [
    | inr full ↦
        rw (ge, full, not_next msg st ne)
          (record {
            grows = record { keeps = λ q h. h; held = omega arith };
            settled =
                λ room. absurd (omega (arith, ltb_false→le (length st.out_of_order) 50 full, room));
          })
    | inl room ↦
        let st₁ = record st { out_of_order = insert msg.sequence_number msg st.out_of_order } in
        let st' = (send_acknowledge_message env msg st₁).0 in
        let s = send-SameOrder env msg st₁ in
        let g = SameOrder-Grows st₁ st' s in
        rw (ge, room, not_next msg st' (λ e. ne (e ∙ s.same_expected)))
          (record {
            grows = record {
              keeps = λ q h. g.keeps q (insert-Settled msg st q h);
              held =
                  omega (arith, g.held, length-insert-le msg.sequence_number msg st.out_of_order);
            };
            settled = λ _. g.keeps msg.sequence_number (insert-Settled_self msg st);
          })
  ]

  pub on_output-Settles :
      (msg : AgentMessage) (st : Incoming)
      → IsReliable st
      → IsInt64 msg
      → Ends (Settles msg st) Stopped (on_output env msg st)
  on_output-Settles msg st v small =
      elim (Bool-cases (msg.sequence_number == st.expected_sequence_id)) [
        | inl e ↦
            next-Settles msg st v small ((==_iff msg.sequence_number st.expected_sequence_id).0 e)
        | inr ne ↦
            let differ : msg.sequence_number ≢ st.expected_sequence_id = (λ p. ground arith) in
            elim (Bool-cases (int64_ge st.expected_sequence_id msg.sequence_number)) [
              | inl ge ↦ earlier-Settles msg st v small differ ge
              | inr lt ↦ ahead-Settles msg st differ lt
            ]
      ]
