-- ===== src/Acknowledging.antt =====
-- The way of an acknowledgement through the program: `handleIncomingMessages` of session.go queues
-- it, and `handleOutgoingMessages` takes it off the channel and writes it to the socket.
use ssmlib.Common.{
  ℕ, ◌<◌, ◌^◌, ◌≡◌, ◌≢◌, sym, ap, ◌∙◌, subst, ◌⊎◌, inl, inr, Bytes, List, [], ◌∷◌, Option, some,
  length, All, In, ◌==◌, ◌&&◌, not, Bool-cases, if_rule, arith,
}
use mathlib.Core.Option.{some-injective}
use ssmlib.Messages.AgentMessageFlag
use ssmlib.Errors.{Error}
use ssmlib.Messages.Types.{acknowledge}
use ssmlib.Messages.Message.{AgentMessage, empty_message}
use ssmlib.Messages.Create.{Result}
use ssmlib.Messages.Codec.{seal, done, unmarshal_binary}
use ssmlib.Messages.RoundTrip.{IsSendable, unmarshal-marshal}
use ssmlib.Session.Incoming.{Env, Incoming, go_on, run}
use ssmlib.Session.Incoming as Incoming
use ssmlib.Session.Incoming.Settled.{Settled, Acks}
use ssmlib.Session.Incoming.Promises.{IsOctets, acknowledged_kept}
use ssmlib.Session.Outgoing.{Outgoing, Event, stamp, octets_of}
use ssmlib.Session.Outgoing.History.{accepted, numbered, numbered_lt}
use ssmlib.Session.Outgoing.Window.{stamp_rest}
use ssmlib.Session.Outgoing.Reach.{Reach}
use ssmlib.Session.Outgoing.Frames.{controls, IsFrameOf}
use ssmlib.Session.Outgoing.Frames.Genuine.{frames_genuine}

numbered-In : (j : ℕ) (ms : List AgentMessage) {m : AgentMessage} → numbered j ms ≡ some m → In m ms
numbered-In j [] h = cc
numbered-In j (x ∷ ms) {m} h = elim (Bool-cases (length ms == j)) [
  | inl hit ↦ let same : x ≡ m = cc (rw hit at h) in inl same
  | inr miss ↦ inr (numbered-In j ms (rw miss at h))
]

-- The queued acknowledgements are settled.
Acks-In :
    (Q : ℕ → Type 0) (m : AgentMessage) (ms : List AgentMessage)
    → Acks Q ms
    → In m ms
    → Q m.sequence_number
Acks-In Q m [] a i = absurd i
Acks-In Q m (x ∷ ms) a (inl e) = subst (λ (y : AgentMessage). Q y.sequence_number) e a.0
Acks-In Q m (x ∷ ms) a (inr i) = Acks-In Q m ms a.1 i

-- The messages can be marshalled and read back.
abbrev pub CanBeSent : AgentMessage → Type 0
CanBeSent m = (nanos : ℕ) × IsSendable m nanos

-- A number and flags of the Go types keep a message such.
numbered-IsSendable :
    (m : AgentMessage) (nanos j flags : ℕ)
    → j < 2 ^ 64
    → flags < 2 ^ 64
    → IsSendable m nanos
    → IsSendable (record m { sequence_number = j; flags = flags }) nanos
numbered-IsSendable m nanos j flags small few v = record {
  go_types = record {
    header_length_u32 = v.header_length_u32;
    schema_version_u32 = v.schema_version_u32;
    sequence_number_i64 = small;
    flags_u64 = few;
    message_id_array = v.message_id_array;
    payload_type_u32 = v.payload_type_u32;
    payload_length_u32 = v.payload_length_u32;
  };
  full_header = v.full_header;
  schema = v.schema;
  plain_type = v.plain_type;
  type_min = v.type_min;
  type_max = v.type_max;
  dated = v.dated;
  after_1970 = v.after_1970;
  payload_fits = v.payload_fits;
}

stamp-CanBeSent : (j : ℕ) (m : AgentMessage) → j < 2 ^ 63 → CanBeSent m → CanBeSent (stamp j m)
unfolding stamp
stamp-CanBeSent j m small (nanos, v) = (
  nanos,
  if_rule (λ x. IsSendable x nanos) (j == 0 && not (m.flags == AgentMessageFlag.fin))
      (λ _. numbered-IsSendable m nanos j AgentMessageFlag.syn (omega arith) (omega arith) v)
      (λ _. numbered-IsSendable m nanos j m.flags (omega arith) v.flags_u64 v),
)

module _ (env : Env) (length-sha256 : (s : Bytes) → length (env.sha256 s) ≡ 32)
    (write : Bytes → Option Error) where
  -- What the peer reads in the data of a message.
  read-IsFrameOf :
      (b : Bytes) (m r : AgentMessage)
      → CanBeSent m
      → IsFrameOf env.sha256 write b m
      → unmarshal_binary env.sha256 empty_message b ≡ (r, done)
      → (r.message_type ≡ m.message_type) × (r.sequence_number ≡ m.sequence_number)
  unfolding seal
  read-IsFrameOf b m r (nanos, v) f e =
      let (written, made, read) =
        unmarshal-marshal env.sha256 length-sha256 m empty_message nanos v in
      let same : written ≡ b = some-injective _ _ (ap (λ q. octets_of q.1) (sym made) ∙ f) in
      let fields =
        ap (λ q. q.0) (sym e ∙ ap (unmarshal_binary env.sha256 empty_message) (sym same) ∙ read) in
      (
        ap (λ (x : AgentMessage). x.message_type) fields,
        ap (λ (x : AgentMessage). x.sequence_number) fields,
      )

  -- While both loops go on, an acknowledgement that stands on the socket, as the peer reads it, is
  -- of a number that is negative, or was delivered, or is held. (The control messages that
  -- the writer took are acknowledgements of the reader or of another type, and the
  -- messages can be marshalled.)
  pub acknowledgements_genuine :
      (frames : List (Result Bytes)) (inc : Incoming) {es : List Event} {out : Outgoing} (b : Bytes)
      (r : AgentMessage)
      → All IsOctets frames
      → run env frames Incoming.start ≡ (inc, go_on)
      → Reach env.sha256 write es out
      → length (accepted es) < 2 ^ 63
      → ((m : AgentMessage)
          → In m (controls es)
          → CanBeSent m × (In m inc.control ⊎ (m.message_type ≢ acknowledge)))
      → ((m : AgentMessage) → In m (accepted es) → CanBeSent m × (m.message_type ≢ acknowledge))
      → In b out.written
      → unmarshal_binary env.sha256 empty_message b ≡ (r, done)
      → r.message_type ≡ acknowledge
      → Settled inc r.sequence_number
  acknowledgements_genuine frames inc {es} {out} b r octets e reach small cs ds i read ack =
      elim (frames_genuine env.sha256 write b reach small i) [
        | inl (m, taken, f) ↦
            let (type, number) = read-IsFrameOf b m r (cs m taken).0 f read in
            elim (cs m taken).1 [
              | inl queued ↦ subst (Settled inc) (sym number) (
                  Acks-In (Settled inc) m inc.control (acknowledged_kept env frames inc octets e)
                    queued)
              | inr other ↦ absurd (other (sym type ∙ ack))
            ]
        | inr (j, m, n, f) ↦
            let (sendable, other) = ds m (numbered-In j (accepted es) n) in
            let (type, number) =
              read-IsFrameOf b (stamp j m) r
                (stamp-CanBeSent j m (omega (arith, small, numbered_lt j (accepted es) n)) sendable)
                f read in
            absurd (other (sym (stamp_rest j m).1 ∙ (sym type ∙ ack)))
      ]
