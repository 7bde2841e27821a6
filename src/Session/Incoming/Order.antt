-- ===== src/Session/Incoming/Order.antt =====
-- What the loop of session.go delivers: the messages in the order of their sequence numbers.
use native.Mathlib.Nat.{add-zero}
use ssmlib.Common.{
  ℕ, suc, ◌+◌, ◌≤◌, ◌≡◌, refl, sym, ap, ◌∙◌, true, List, [], ◌∷◌, ◌++◌, some, length, length-append,
  All, All-append, ltb, ◌==◌, ==_iff, ltb→lt, Bool-cases, inl, inr, arith,
}
use ssmlib.Common.Table.{
  lookup, insert, Entries, Entries-lookup, Entries-insert, Entries-delete, length-insert-le,
  length-delete-le,
}
use ssmlib.Common.Words.{u64, int64_ge}
use ssmlib.Messages.Message.{AgentMessage}
use ssmlib.Session.Incoming.{
  Env, Incoming, start, consult, send_acknowledge_message, deliver, take_held, drain,
  acknowledge_or_hold, on_output,
}
use ssmlib.Session.Incoming.Loop.{SameData}
use ssmlib.Session.Incoming.Drain.{SameOrder, Ends, send-SameOrder, drain_rule}

-- Sequence numbers that count up from `i`, as int64 does.
abbrev pub Consecutive : ℕ → List AgentMessage → Type 0
Consecutive i [] = Unit
Consecutive i (m ∷ ms) = (m.sequence_number ≡ u64 i) × Consecutive (i + 1) ms

Consecutive-snoc :
    (i : ℕ) (ms : List AgentMessage) (m : AgentMessage)
    → Consecutive i ms
    → m.sequence_number ≡ u64 (i + length ms)
    → Consecutive i (ms ++ (m ∷ []))
Consecutive-snoc i [] m h e = (rw (add-zero i) at e, tt)
Consecutive-snoc i (n ∷ ms) m h e =
    (h.0, Consecutive-snoc (i + 1) ms m h.1 (e ∙ ap u64 (omega arith)))

-- A buffered message stands under its own sequence number.
abbrev pub Keyed : (AgentMessage → Type 0) → ℕ → AgentMessage → Type 0
Keyed P k m = (m.sequence_number ≡ k) × P m

-- `P` is what is known of every message that came in.
pub record IsOrdered (P : AgentMessage → Type 0) (st : Incoming) : Type 0 where
  pub consecutive : Consecutive 0 st.delivered
  pub counted : st.expected_sequence_id ≡ u64 (length st.delivered)
  pub genuine : All P st.delivered
  pub keyed : Entries (Keyed P) st.out_of_order
  pub bounded : length st.out_of_order ≤ 50

pub SameOrder-IsOrdered :
    {P : AgentMessage → Type 0} {st st' : Incoming}
    → SameOrder st st'
    → IsOrdered P st
    → IsOrdered P st'
SameOrder-IsOrdered {P} s v = record {
  consecutive = rw s.same_delivered v.consecutive;
  counted = s.same_expected ∙ rw s.same_delivered v.counted;
  genuine = rw s.same_delivered v.genuine;
  keyed = rw s.same_held v.keyed;
  bounded = rw s.same_held v.bounded;
}

pub start-IsOrdered : (P : AgentMessage → Type 0) → IsOrdered P start
start-IsOrdered P = record {
  consecutive = tt;
  counted = refl;
  genuine = tt;
  keyed = tt;
  bounded = omega arith;
}

pub deliver-IsOrdered :
    (P : AgentMessage → Type 0) (msg : AgentMessage) (st : Incoming)
    → IsOrdered P st
    → msg.sequence_number ≡ st.expected_sequence_id
    → P msg
    → IsOrdered P (deliver msg st)
unfolding deliver
deliver-IsOrdered P msg st v e p = record {
  consecutive =
      Consecutive-snoc 0 st.delivered msg v.consecutive (e ∙ v.counted ∙ ap u64 (omega arith));
  counted = rw length-append (omega (arith, v.counted));
  genuine = All-append P st.delivered (msg ∷ []) v.genuine (p, tt);
  keyed = v.keyed;
  bounded = v.bounded;
}

consult-IsOrdered :
    {P : AgentMessage → Type 0} {st : Incoming} → IsOrdered P st → IsOrdered P (consult st)
consult-IsOrdered v =
    SameOrder-IsOrdered (record { same_delivered = refl; same_expected = refl; same_held = refl }) v

module _ (env : Env) where
  pub take_held-IsOrdered :
      (P : AgentMessage → Type 0) (st : Incoming) (msg : AgentMessage)
      → IsOrdered P st
      → lookup st.expected_sequence_id st.out_of_order ≡ some msg
      → IsOrdered P (take_held env msg st)
  unfolding take_held
  take_held-IsOrdered P st msg v e =
      let s = send-SameOrder env msg st in
      let st' = (send_acknowledge_message env msg st).0 in
      let v' = SameOrder-IsOrdered s v in
      let (k, p) = Entries-lookup (Keyed P) st.expected_sequence_id st.out_of_order v.keyed e in
      let d = deliver-IsOrdered P msg st' v' (k ∙ sym s.same_expected) p in
      let held = length-delete-le st'.expected_sequence_id st'.out_of_order in
      record {
        consecutive = d.consecutive;
        counted = d.counted;
        genuine = d.genuine;
        keyed = Entries-delete (Keyed P) st'.expected_sequence_id st'.out_of_order v'.keyed;
        bounded = omega (arith, held, v'.bounded);
      }

  pub drain-IsOrdered :
      (P : AgentMessage → Type 0) (fuel : ℕ) (st : Incoming)
      → IsOrdered P st
      → Ends (IsOrdered P) (IsOrdered P) (drain env fuel st)
  drain-IsOrdered P = drain_rule env (IsOrdered P) (IsOrdered P) λ st msg v e. (
    consult-IsOrdered (SameOrder-IsOrdered (send-SameOrder env msg st) v),
    take_held-IsOrdered P st msg v e,
  )

  pub acknowledge_or_hold-IsOrdered :
      (P : AgentMessage → Type 0) (msg : AgentMessage) (st : Incoming)
      → IsOrdered P st
      → P msg
      → IsOrdered P (acknowledge_or_hold env msg st)
  unfolding acknowledge_or_hold
  acknowledge_or_hold-IsOrdered P msg st v p =
      elim (Bool-cases (int64_ge st.expected_sequence_id msg.sequence_number)) [
        | inl ge ↦ rw ge (SameOrder-IsOrdered (send-SameOrder env msg st) v)
        | inr lt ↦ elim (Bool-cases (ltb (length st.out_of_order) 50)) [
          | inl room ↦ rw (lt, room) (SameOrder-IsOrdered (send-SameOrder env msg _) (held room))
          | inr full ↦ rw (lt, full) v
        ]
      ]
    where
      held :
          ltb (length st.out_of_order) 50 ≡ true
          → IsOrdered P
              (record st { out_of_order = insert msg.sequence_number msg st.out_of_order })
      held room = record {
        consecutive = v.consecutive;
        counted = v.counted;
        genuine = v.genuine;
        keyed = Entries-insert (Keyed P) msg.sequence_number msg st.out_of_order (refl, p) v.keyed;
        bounded = omega (
          arith,
          ltb→lt (length st.out_of_order) 50 room,
          length-insert-le msg.sequence_number msg st.out_of_order,
        );
      }

  pub on_output-IsOrdered :
      (P : AgentMessage → Type 0) (msg : AgentMessage) (st : Incoming)
      → IsOrdered P st
      → P msg
      → Ends (IsOrdered P) (IsOrdered P) (on_output env msg st)
  unfolding on_output
  on_output-IsOrdered P msg st v p =
      let st' = acknowledge_or_hold env msg st in
      let v' = acknowledge_or_hold-IsOrdered P msg st v p in
      elim (Bool-cases (st'.expected_sequence_id == msg.sequence_number)) [
        | inr other ↦ rw other v'
        | inl next ↦
            let e = sym ((==_iff st'.expected_sequence_id msg.sequence_number).0 next) in
            elim (Bool-cases (env.is_done st'.consulted)) [
              | inl d ↦ rw (next, d) (consult-IsOrdered v')
              | inr d ↦
                  rw (next, d)
                    (drain-IsOrdered P (suc (length st'.out_of_order)) (deliver msg st')
                      (deliver-IsOrdered P msg st' v' e p))
            ]
      ]

pub SameData-IsOrdered :
    {P : AgentMessage → Type 0} (st st' : Incoming)
    → SameData st st'
    → IsOrdered P st
    → IsOrdered P st'
SameData-IsOrdered st st' s v =
    SameOrder-IsOrdered {st = st} {st' = st'}
      (record {
        same_delivered = s.same_delivered;
        same_expected = s.same_expected;
        same_held = s.same_held;
      })
      v
