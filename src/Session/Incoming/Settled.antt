-- ===== src/Session/Incoming/Settled.antt =====
-- What the loop of session.go has acknowledged: data that it has delivered or that it holds.
use ssmlib.Common.{
  ℕ, ◌+◌, ◌≤◌, ◌<◌, ◌^◌, ◌≡◌, ◌≢◌, refl, ◌∙◌, ◌⊎◌, true, List, [], ◌∷◌, ◌++◌, Option, some, length,
  All, All-append, ◌==◌, ==_iff, ==_refl, Bool-cases, ltb, ltb_false→le, ltb→lt, inl, inr, if_rule,
  arith,
}
use ssmlib.Common.Table.{lookup, insert, lookup-insert, lookup-delete}
use ssmlib.Common.Words.{u64, int64_ge, IsNegative, int64_ge→le}
use ssmlib.Errors.{Error}
use ssmlib.Messages.Message.{AgentMessage}
use ssmlib.Messages.Create.{Result-cases}
use ssmlib.Session.Incoming.{
  Env, Incoming, ack_content, send_acknowledge_message, deliver, take_held,
}
use ssmlib.Session.Incoming.Drain.{SameOrder, send-SameOrder}
use ssmlib.Session.Incoming.Order.{Consecutive}

-- Some message of the list has the sequence number.
abbrev pub HasSeq : ℕ → List AgentMessage → Type 0
HasSeq q [] = ⊥
HasSeq q (m ∷ ms) = (m.sequence_number ≡ q) ⊎ HasSeq q ms

HasSeq-append : (q : ℕ) (ms ns : List AgentMessage) → HasSeq q ms → HasSeq q (ms ++ ns)
HasSeq-append q [] ns h = absurd h
HasSeq-append q (m ∷ ms) ns (inl e) = inl e
HasSeq-append q (m ∷ ms) ns (inr h) = inr (HasSeq-append q ms ns h)

HasSeq-snoc :
    (q : ℕ) (ms : List AgentMessage) (m : AgentMessage)
    → m.sequence_number ≡ q
    → HasSeq q (ms ++ (m ∷ []))
HasSeq-snoc q [] m e = inl e
HasSeq-snoc q (n ∷ ms) m e = inr (HasSeq-snoc q ms m e)

-- Consecutive messages have every number up to their end, and none beyond.
Consecutive-HasSeq :
    (i q : ℕ) (ms : List AgentMessage)
    → Consecutive i ms
    → i ≤ q
    → q < i + length ms
    → q < 2 ^ 64
    → HasSeq q ms
Consecutive-HasSeq i q [] h lo hi small = absurd (omega arith)
Consecutive-HasSeq i q (m ∷ ms) h lo hi small = elim (Bool-cases (i == q)) [
  | inl e ↦ let same = (==_iff i q).0 e in inl (h.0 ∙ rw same (omega arith))
  | inr e ↦ inr (Consecutive-HasSeq (i + 1) q ms h.1 (ground arith) (omega arith) small)
]

pub Consecutive-ne :
    (i q : ℕ) (ms : List AgentMessage)
    → Consecutive i ms
    → i + length ms ≤ q
    → q < 2 ^ 64
    → HasSeq q ms
    → ⊥
Consecutive-ne i q [] h lo small s = s
Consecutive-ne i q (m ∷ ms) h lo small (inl e) = omega (arith, h.0)
Consecutive-ne i q (m ∷ ms) h lo small (inr s) =
    Consecutive-ne (i + 1) q ms h.1 (omega arith) small s

-- An acknowledged number is of data before the session, or the message was delivered, or it is
-- held until those before it arrive.
abbrev pub Settled : Incoming → ℕ → Type 0
Settled st q =
    IsNegative q
    ⊎ (HasSeq q st.delivered ⊎ ((msg : AgentMessage) × (lookup q st.out_of_order ≡ some msg)))

-- Acknowledgements, each of a number with the property.
abbrev pub Acks : (ℕ → Type 0) → List AgentMessage → Type 0
Acks Q = All (λ a. Q a.sequence_number)

pub Acks-mono :
    {Q R : ℕ → Type 0} (as' : List AgentMessage) → ((q : ℕ) → Q q → R q) → Acks Q as' → Acks R as'
Acks-mono [] f h = tt
Acks-mono (a ∷ as') f h = (f a.sequence_number h.0, Acks-mono as' f h.1)

-- What was read before is settled: its number is below the one that is expected.
pub earlier-Settled :
    (st : Incoming) (q : ℕ)
    → Consecutive 0 st.delivered
    → st.expected_sequence_id ≡ u64 (length st.delivered)
    → q < 2 ^ 64
    → int64_ge st.expected_sequence_id q ≡ true
    → q ≢ st.expected_sequence_id
    → Settled st q
earlier-Settled st q c e small ge ne = elim (Bool-cases (ltb q (2 ^ 63))) [
  | inr big ↦ inl (ltb_false→le q (2 ^ 63) big)
  | inl plain ↦ inr (inl (Consecutive-HasSeq 0 q st.delivered c (omega arith) (below plain) small))
]
  where
    below : ltb q (2 ^ 63) ≡ true → q < 0 + length st.delivered
    below plain = omega (
      arith,
      e,
      int64_ge→le st.expected_sequence_id q (omega (arith, e)) (ltb→lt q (2 ^ 63) plain) ge,
    )

module _ (env : Env) where
  pub send-Acks :
      (Q : ℕ → Type 0) (msg : AgentMessage) (st : Incoming)
      → Acks Q st.control
      → Q msg.sequence_number
      → Acks Q (send_acknowledge_message env msg st).0.control
  unfolding send_acknowledge_message
  send-Acks Q msg st h q = elim (Result-cases (env.marshal_ack (ack_content env msg))) [
    | inr (e, r) ↦ rw (r, send_acknowledge_message) h
    | inl (payload, r) ↦
        rw (r, send_acknowledge_message)
          (if_rule (λ (p : Incoming × Option Error). Acks Q p.0.control) (env.is_done st.consulted)
            (λ d. h) (λ d. All-append (λ a. Q a.sequence_number) st.control _ h (q, tt)))
  ]

pub deliver-Settled :
    (msg : AgentMessage) (st : Incoming) (q : ℕ) → Settled st q → Settled (deliver msg st) q
unfolding deliver
deliver-Settled msg st q (inl n) = inl n
deliver-Settled msg st q (inr (inl d)) = inr (inl (HasSeq-append q st.delivered (msg ∷ []) d))
deliver-Settled msg st q (inr (inr h)) = inr (inr h)

-- A delivered message is settled.
pub deliver-Settled_self :
    (msg : AgentMessage) (st : Incoming) → Settled (deliver msg st) msg.sequence_number
unfolding deliver
deliver-Settled_self msg st = inr (inl (HasSeq-snoc msg.sequence_number st.delivered msg refl))

pub SameOrder-Settled :
    {st st' : Incoming} (q : ℕ) → SameOrder st st' → Settled st q → Settled st' q
SameOrder-Settled q s (inl n) = inl n
SameOrder-Settled q s (inr (inl d)) = inr (inl (rw s.same_delivered d))
SameOrder-Settled q s (inr (inr h)) = inr (inr (rw s.same_held h))

pub SameOrder-Acks :
    {st st' : Incoming} (as' : List AgentMessage)
    → SameOrder st st'
    → Acks (Settled st) as'
    → Acks (Settled st') as'
SameOrder-Acks {st} {st'} as' s h =
    Acks-mono {Q = Settled st} {R = Settled st'} as' (λ q. SameOrder-Settled q s) h

-- A held message stays settled when it is buffered, and so do the others.
pub insert-Settled :
    (msg : AgentMessage) (st : Incoming) (q : ℕ)
    → Settled st q
    → Settled (record st { out_of_order = insert msg.sequence_number msg st.out_of_order }) q
insert-Settled msg st q (inl n) = inl n
insert-Settled msg st q (inr (inl d)) = inr (inl d)
insert-Settled msg st q (inr (inr (m, e))) = inr (
    inr (elim (Bool-cases (msg.sequence_number == q)) [
      | inl hit ↦ (msg, lookup-insert msg.sequence_number q msg st.out_of_order ∙ rw hit)
      | inr miss ↦ (m, lookup-insert msg.sequence_number q msg st.out_of_order ∙ rw miss e)
    ]))

pub insert-Settled_self :
    (msg : AgentMessage) (st : Incoming)
    → Settled
        (record st { out_of_order = insert msg.sequence_number msg st.out_of_order })
        msg.sequence_number
insert-Settled_self msg st = inr (
    inr (
      msg,
      lookup-insert msg.sequence_number msg.sequence_number msg st.out_of_order
          ∙ rw (==_refl msg.sequence_number),
    ))

-- A round of the inner loop moves the message that is expected from the buffer to the delivered.
pub take_held-Settled :
    (env : Env) (msg : AgentMessage) (st : Incoming) (q : ℕ)
    → msg.sequence_number ≡ st.expected_sequence_id
    → Settled st q
    → Settled (take_held env msg st) q
unfolding take_held deliver
take_held-Settled env msg st q e (inl n) = inl n
take_held-Settled env msg st q e (inr (inl d)) = inr (
    inl (rw (send-SameOrder env msg st).same_delivered (HasSeq-append q st.delivered (msg ∷ []) d)))
take_held-Settled env msg st q e (inr (inr (m, held))) =
    elim (Bool-cases (st.expected_sequence_id == q)) [
      | inl hit ↦
          let same = e ∙ (==_iff st.expected_sequence_id q).0 hit in
          inr (inl (HasSeq-snoc q (send_acknowledge_message env msg st).0.delivered msg same))
      | inr miss ↦ inr (
          inr (
            m,
            rw ((send-SameOrder env msg st).same_expected, (send-SameOrder env msg st).same_held)
                (lookup-delete st.expected_sequence_id q st.out_of_order ∙ rw miss held),
          ))
    ]

pub take_held-Settled_self :
    (env : Env) (msg : AgentMessage) (st : Incoming)
    → Settled (take_held env msg st) msg.sequence_number
unfolding take_held deliver
take_held-Settled_self env msg st = inr (
    inl
      (HasSeq-snoc msg.sequence_number (send_acknowledge_message env msg st).0.delivered msg refl))
