-- ===== src/Session/Outgoing/Frames.antt =====
-- What `handleOutgoingMessages` of session.go writes to the socket.
pub mod Resent
pub mod Genuine
use ssmlib.Common.{
  ℕ, ◌<◌, ◌^◌, ◌≡◌, refl, sym, ap, ◌∙◌, subst, ◌⊎◌, inl, inr, Bytes, true, false, List, [], ◌∷◌,
  ◌++◌, Option, none, some, length, In, In-append_cases, ltb, ◌+◌, ◌==◌, ==_iff, ==_refl,
  Bool-cases, Option-cases, if_rule, if_some, if◌then◌else◌, arith,
}
use ssmlib.Common.Table.{lookup, lookup-insert, lookup-delete}
use ssmlib.Errors.{Error}
use ssmlib.Messages.Message.{AgentMessage}
use ssmlib.Messages.Codec.{validate_message, wire, seal, marshal_binary}
use ssmlib.Messages.Create.{ok, err}
use mathlib.Core.List.{flatten}
use ssmlib.Session.Verdict.{Verdict, go_on, stop}
use ssmlib.Session.Outgoing.{
  Unacknowledged, Outgoing, start, Event, ack_received, control_message, outgoing_message,
  write_throttle, resend_ticker, ctx_done, resend_interval_duration, resend_timeout_duration,
  takes_messages, with_written, on_ack, stamp, octets_of, write_message, on_control, on_outgoing,
  resend_one, resend, step,
}
use ssmlib.Session.Outgoing.Resend.{
  SameContent, SameContent-refl, seal-SameContent, SameContent-trans, write-SameContent,
  resend_round, resend-none, resend-some,
}
use ssmlib.Session.Outgoing.History.{accepted, numbered, numbered_lt, Window}
use ssmlib.Session.Outgoing.Reach.{Reach, idle, next, accepted_grows, reached-Window}

-- The control messages that were taken, the last one first.
abbrev pub controls : List Event → List AgentMessage
controls [] = []
controls (control_message msg ∷ es) = msg ∷ controls es
controls (ack_received n ∷ es) = controls es
controls (outgoing_message msg first last ∷ es) = controls es
controls (write_throttle ∷ es) = controls es
controls (resend_ticker now ks ∷ es) = controls es
controls (ctx_done cause ∷ es) = controls es

-- What a further event leaves of the numbers and the control messages.
numbered-more :
    (j : ℕ) (e : Event) (es : List Event) {m : AgentMessage}
    → numbered j (accepted es) ≡ some m
    → numbered j (accepted (e ∷ es)) ≡ some m
numbered-more j (ack_received n) es h = h
numbered-more j (control_message msg) es h = h
numbered-more j (outgoing_message msg first last) es h =
    let lt = numbered_lt j (accepted es) h in
    let other : (length (accepted es) == j) ≡ false = ground arith in rw other h
numbered-more j write_throttle es h = h
numbered-more j (resend_ticker now ks) es h = h
numbered-more j (ctx_done cause) es h = h

controls_more :
    (e : Event) (es : List Event) (m : AgentMessage) → In m (controls es) → In m (controls (e ∷ es))
controls_more (ack_received n) es m h = h
controls_more (control_message msg) es m h = inr h
controls_more (outgoing_message msg first last) es m h = h
controls_more write_throttle es m h = h
controls_more (resend_ticker now ks) es m h = h
controls_more (ctx_done cause) es m h = h

pub In-with_written :
    (b : Bytes) (o : Option Bytes) (bs : List Bytes)
    → In b (with_written o bs)
    → In b bs ⊎ (o ≡ some b)
In-with_written b none bs h = inl h
In-with_written b (some x) bs h = elim (In-append_cases b bs (x ∷ []) h) [
  | inl old ↦ inl old
  | inr (inl e) ↦ inr (ap some e)
  | inr (inr nowhere) ↦ absurd nowhere
]

module _ (sha256 : Bytes → Bytes) (write : Bytes → Option Error) where
  -- The data that `MarshalBinary` makes of the message.
  abbrev pub IsFrameOf : Bytes → AgentMessage → Type 0
  IsFrameOf b m = octets_of (marshal_binary sha256 m).1 ≡ some b

  -- The data is a control message that was taken, or the accepted message `j` under its number.
  abbrev pub IsSent : List Event → Bytes → Type 0
  IsSent es b =
      ((m : AgentMessage) × In m (controls es) × IsFrameOf b m)
      ⊎ ((j : ℕ) × (m : AgentMessage) × (numbered j (accepted es) ≡ some m)
          × IsFrameOf b (stamp j m))

  -- The entry holds the accepted message of its number.
  abbrev pub IsEntry : List Event → ℕ → Unacknowledged → Type 0
  IsEntry es k u =
      (m : AgentMessage) × (numbered k (accepted es) ≡ some m) × SameContent (stamp k m) u.message

  pub record Sent (es : List Event) (st : Outgoing) : Type 0 where
    pub frames : (b : Bytes) → In b st.written → IsSent es b
    pub entries :
        (k : ℕ) (u : Unacknowledged) → lookup k st.unacknowledged_messages ≡ some u → IsEntry es k u

  IsSent-more : (e : Event) (es : List Event) (b : Bytes) → IsSent es b → IsSent (e ∷ es) b
  IsSent-more e es b (inl (m, i, f)) = inl (m, controls_more e es m i, f)
  IsSent-more e es b (inr (j, m, n, f)) = inr (j, m, numbered-more j e es n, f)

  pub Sent-more : (e : Event) {es : List Event} {st : Outgoing} → Sent es st → Sent (e ∷ es) st
  Sent-more e {es} {st} v = record {
    frames = λ b i. IsSent-more e es b (v.frames b i);
    entries = λ k u h. let (m, n, s) = v.entries k u h in (m, numbered-more k e es n, s);
  }

  marshal-SameContent :
      {m m' : AgentMessage} → SameContent m m' → marshal_binary sha256 m' ≡ marshal_binary sha256 m
  unfolding marshal_binary
  marshal-SameContent s =
      ap
        (λ (x : AgentMessage).
          (x, elim (validate_message sha256 x) [ some e ↦ err e | none ↦ ok (flatten (wire x)) ]))
        (seal-SameContent sha256 s)

  pub written-IsFrameOf :
      (m m' : AgentMessage) (b : Bytes)
      → SameContent m m'
      → (write_message sha256 write m').1 ≡ some b
      → IsFrameOf b m
  unfolding write_message
  written-IsFrameOf m m' b s h = ap (λ r. octets_of r.1) (sym (marshal-SameContent s)) ∙ h
