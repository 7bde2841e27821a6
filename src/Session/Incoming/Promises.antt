-- ===== src/Session/Incoming/Promises.antt =====
-- The promises of `handleIncomingMessages` in session.go over any sequence of frames.
use ssmlib.Common.{
  ℕ, ◌≤◌, ◌<◌, ◌^◌, ◌≡◌, refl, subst, Bytes, List, [], ◌∷◌, length, All, In, ltb, ltb→lt,
  ltb_false→le, Bool-cases, inl, inr, arith,
}
use ssmlib.Common.Table.{lookup}
use ssmlib.Messages.Types.{output_stream_data}
use ssmlib.Messages.Message.{AgentMessage, empty_message}
use ssmlib.Messages.Create.{Result, ok, err}
use ssmlib.Messages.Codec.{done, unmarshal_binary}
use ssmlib.Messages.Malformed.{IsByte, unmarshal_int64}
use ssmlib.Session.Incoming.{Env, Incoming, Verdict, go_on, stop, crashed, start, run}
use ssmlib.Session.Incoming.Drain.{Ends}
use ssmlib.Session.Incoming.Loop.{Gives, run_rule}
use ssmlib.Session.Incoming.Order.{
  Consecutive, IsOrdered, start-IsOrdered, on_output-IsOrdered, SameData-IsOrdered,
}
use ssmlib.Session.Incoming.Settled.{HasSeq, Consecutive-ne, Settled, Acks}
use ssmlib.Session.Incoming.Delivery.{
  IsInt64, IsReliable, Stopped, on_output-IsReliable, SameData-IsReliable,
}

-- The message was read from one of the frames, and is a data message.
abbrev pub Arrived : Env → List (Result Bytes) → AgentMessage → Type 0
Arrived env frames msg =
    (s : Bytes) × In (ok s) frames
    × (unmarshal_binary env.sha256 empty_message s ≡ (msg, done))
    × (msg.message_type ≡ output_stream_data)

-- The frames that came in are bytes.
abbrev pub IsOctets : Result Bytes → Type 0
IsOctets (ok s) = All IsByte s
IsOctets (err e) = Unit

Ends_always : (I : Incoming → Type 0) (r : Incoming × Verdict) → Ends I I r → I r.0
Ends_always I (st, go_on) h = h
Ends_always I (st, stop e) h = h
Ends_always I (st, crashed) h = h

pub start-IsReliable : IsReliable start
start-IsReliable = record {
  ordered = start-IsOrdered IsInt64;
  acked = tt;
  drained = unfold lookup in refl;
}

module _ (env : Env) where
  Gives-Arrived :
      (all frames : List (Result Bytes))
      → ((f : Result Bytes) → In f frames → In f all)
      → All (Gives env (Arrived env all)) frames
  Gives-Arrived all [] sub = tt
  Gives-Arrived all (err e ∷ frames) sub = (tt, Gives-Arrived all frames (λ f i. sub f (inr i)))
  Gives-Arrived all (ok s ∷ frames) sub =
      (λ msg e t. (s, sub (ok s) (inl refl), e, t), Gives-Arrived all frames (λ f i. sub f (inr i)))

  -- Whatever frames come in, and however the loop ends, the messages that were delivered have the
  -- sequence numbers 0, 1, 2, … in this order, as int64 counts, each of them was read from a frame
  -- that came in, and at most 50 messages are held back.
  pub delivered_in_order :
      (frames : List (Result Bytes))
      → let st = (run env frames start).0 in
        Consecutive 0 st.delivered
        × All (Arrived env frames) st.delivered
        × (length st.out_of_order ≤ 50)
  delivered_in_order frames =
      let P = Arrived env frames in
      let v = Ends_always (IsOrdered P) (run env frames start) (
        run_rule env (IsOrdered P) (IsOrdered P) P SameData-IsOrdered (λ st h. h)
          (λ msg st h p. on_output-IsOrdered env P msg st h p) frames start (start-IsOrdered P)
          (Gives-Arrived frames frames (λ f i. i))) in
      (v.consecutive, v.genuine, v.bounded)

  Gives-IsInt64 :
      (frames : List (Result Bytes)) → All IsOctets frames → All (Gives env IsInt64) frames
  Gives-IsInt64 [] h = tt
  Gives-IsInt64 (err e ∷ frames) h = (tt, Gives-IsInt64 frames h.1)
  Gives-IsInt64 (ok s ∷ frames) h =
      (λ msg e t. unmarshal_int64 env.sha256 empty_message msg s h.0 e, Gives-IsInt64 frames h.1)

  run-IsReliable :
      (frames : List (Result Bytes))
      → All IsOctets frames
      → Ends IsReliable Stopped (run env frames start)
  run-IsReliable frames h =
      run_rule env IsReliable Stopped IsInt64 SameData-IsReliable (λ st v. tt)
        (λ msg st v p. on_output-IsReliable env msg st v p) frames start start-IsReliable
        (Gives-IsInt64 frames h)

  pub goes_on-IsReliable :
      (frames : List (Result Bytes)) (st : Incoming)
      → All IsOctets frames
      → run env frames start ≡ (st, go_on)
      → IsReliable st
  goes_on-IsReliable frames st h e = subst (Ends IsReliable Stopped) e (run-IsReliable frames h)

  -- While the loop goes on, every sequence number that was acknowledged is negative, or a message
  -- with it was delivered, or a message with it is held: no acknowledged data is dropped.
  pub acknowledged_kept :
      (frames : List (Result Bytes)) (st : Incoming)
      → All IsOctets frames
      → run env frames start ≡ (st, go_on)
      → Acks (Settled st) st.control
  acknowledged_kept frames st h e = (goes_on-IsReliable frames st h e).acked

  Acks-HasSeq : (Q : ℕ → Type 0) (q : ℕ) (as' : List AgentMessage) → Acks Q as' → HasSeq q as' → Q q
  Acks-HasSeq Q q [] a h = absurd h
  Acks-HasSeq Q q (m ∷ ms) a (inl e) = subst Q e a.0
  Acks-HasSeq Q q (m ∷ ms) a (inr h) = Acks-HasSeq Q q ms a.1 h

  -- The next number to deliver is not settled.
  pub next_unsettled :
      (st : Incoming)
      → IsReliable st
      → length st.delivered < 2 ^ 63
      → Settled st (length st.delivered)
      → ⊥
  next_unsettled st v small (inl negative) = omega arith
  next_unsettled st v small (inr (inl d)) =
      Consecutive-ne 0 (length st.delivered) st.delivered v.ordered.consecutive (omega arith)
        (omega arith) d
  next_unsettled st v small (inr (inr (m, e))) =
      let next : st.expected_sequence_id ≡ length st.delivered = omega (arith, v.ordered.counted) in
      cc (rw next at v.drained, e)

  -- Where the next number to deliver would be below `n`, it was not acknowledged.
  next_unacknowledged :
      (st : Incoming)
      → IsReliable st
      → length st.delivered < 2 ^ 63
      → HasSeq (length st.delivered) st.control
      → ⊥
  next_unacknowledged st v small h =
      next_unsettled st v small
        (Acks-HasSeq (Settled st) (length st.delivered) st.control v.acked h)

  -- While the loop goes on, if all of the sequence numbers below `n` were acknowledged, then at
  -- least `n` messages were delivered: a peer that has its data acknowledged knows that it was
  -- delivered, in order. (`n` is an int64.)
  pub acknowledged_prefix_delivered :
      (frames : List (Result Bytes)) (st : Incoming) (n : ℕ)
      → All IsOctets frames
      → run env frames start ≡ (st, go_on)
      → n ≤ 2 ^ 63
      → ((q : ℕ) → q < n → HasSeq q st.control)
      → n ≤ length st.delivered
  acknowledged_prefix_delivered frames st n h e small acked =
      elim (Bool-cases (ltb (length st.delivered) n)) [
        | inr enough ↦ ltb_false→le (length st.delivered) n enough
        | inl short ↦
            let lt = ltb→lt (length st.delivered) n short in
            absurd (
              next_unacknowledged st (goes_on-IsReliable frames st h e) (omega arith)
                (acked (length st.delivered) lt))
      ]
