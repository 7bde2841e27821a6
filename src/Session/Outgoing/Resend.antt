-- ===== src/Session/Outgoing/Resend.antt =====
-- The resend ticker of `handleOutgoingMessages` in session.go.
use ssmlib.Common.{
  ℕ, ◌+◌, ◌≡◌, refl, ◌∙◌, Bytes, List, [], ◌∷◌, Option, none, some, length, ltb, ◌==◌, ==_iff,
  if◌then◌else◌, if_rule, Bool-cases, Option-cases, inl, inr,
}
use ssmlib.Common.Table.{lookup, lookup-insert, length-insert_present}
use ssmlib.Errors.{Error, ack_timeout}
use ssmlib.Messages.Message.{AgentMessage}
use ssmlib.Messages.Codec.{seal, marshal_binary}
use ssmlib.Session.Verdict.{Verdict, stop}
use ssmlib.Session.Outgoing.{
  Unacknowledged, Outgoing, resend_interval_duration, resend_timeout_duration, write_message,
  resend_one, resend,
}

-- A message that was marshalled differs in its digest and its length field alone.
pub record SameContent (m m' : AgentMessage) : Type 0 where
  pub same_header : m'.header_length ≡ m.header_length
  pub same_schema : m'.schema_version ≡ m.schema_version
  pub same_date : m'.created_date ≡ m.created_date
  pub same_type : m'.message_type ≡ m.message_type
  pub same_sequence : m'.sequence_number ≡ m.sequence_number
  pub same_flags : m'.flags ≡ m.flags
  pub same_id : m'.message_id ≡ m.message_id
  pub same_payload_type : m'.payload_type ≡ m.payload_type
  pub same_payload : m'.payload ≡ m.payload

-- Marshalling sets these two fields anew.
pub seal-SameContent :
    (sha256 : Bytes → Bytes) {m m' : AgentMessage}
    → SameContent m m'
    → seal sha256 m' ≡ seal sha256 m
unfolding seal
seal-SameContent sha256 s = cc (
  s.same_header, s.same_schema, s.same_date, s.same_type, s.same_sequence, s.same_flags, s.same_id,
  s.same_payload_type, s.same_payload,
)

pub SameContent-refl : (m : AgentMessage) → SameContent m m
SameContent-refl m = record {
  same_header = refl;
  same_schema = refl;
  same_date = refl;
  same_type = refl;
  same_sequence = refl;
  same_flags = refl;
  same_id = refl;
  same_payload_type = refl;
  same_payload = refl;
}

pub SameContent-trans : {a b c : AgentMessage} → SameContent a b → SameContent b c → SameContent a c
SameContent-trans s t = record {
  same_header = t.same_header ∙ s.same_header;
  same_schema = t.same_schema ∙ s.same_schema;
  same_date = t.same_date ∙ s.same_date;
  same_type = t.same_type ∙ s.same_type;
  same_sequence = t.same_sequence ∙ s.same_sequence;
  same_flags = t.same_flags ∙ s.same_flags;
  same_id = t.same_id ∙ s.same_id;
  same_payload_type = t.same_payload_type ∙ s.same_payload_type;
  same_payload = t.same_payload ∙ s.same_payload;
}

-- An entry after a tick: the same message, first sent at the same time.
pub record SameEntry (u u' : Unacknowledged) : Type 0 where
  pub content : SameContent u.message u'.message
  pub same_first : u'.first_send_time ≡ u.first_send_time

-- Every entry is kept, the number of entries and the next number too.
pub record Keeps (st st' : Outgoing) : Type 0 where
  pub entries :
      (k : ℕ) (u : Unacknowledged)
      → lookup k st.unacknowledged_messages ≡ some u
      → (u' : Unacknowledged) × (lookup k st'.unacknowledged_messages ≡ some u') × SameEntry u u'
  pub nothing_new :
      (k : ℕ)
      → lookup k st.unacknowledged_messages ≡ none
      → lookup k st'.unacknowledged_messages ≡ none
  pub as_many : length st'.unacknowledged_messages ≡ length st.unacknowledged_messages
  pub same_next : st'.next_outgoing_sequence_number ≡ st.next_outgoing_sequence_number

SameEntry-refl : (u : Unacknowledged) → SameEntry u u
SameEntry-refl u = record { content = SameContent-refl u.message; same_first = refl }

Keeps-refl : (st : Outgoing) → Keeps st st
Keeps-refl st = record {
  entries = λ k u e. (u, e, SameEntry-refl u);
  nothing_new = λ k e. e;
  as_many = refl;
  same_next = refl;
}

Keeps-trans : {a b c : Outgoing} → Keeps a b → Keeps b c → Keeps a c
Keeps-trans f g = record {
  entries = λ k u e.
      let (u', e', s) = f.entries k u e in
      let (u'', e'', t) = g.entries k u' e' in
      (
        u'',
        e'',
        record {
          content = SameContent-trans s.content t.content;
          same_first = t.same_first ∙ s.same_first;
        },
      );
  nothing_new = λ k e. g.nothing_new k (f.nothing_new k e);
  as_many = g.as_many ∙ f.as_many;
  same_next = g.same_next ∙ f.same_next;
}

module _ (sha256 : Bytes → Bytes) (write : Bytes → Option Error) where
  pub write-SameContent : (m : AgentMessage) → SameContent m (write_message sha256 write m).0
  unfolding write_message marshal_binary seal
  write-SameContent m = record {
    same_header = refl;
    same_schema = refl;
    same_date = refl;
    same_type = refl;
    same_sequence = refl;
    same_flags = refl;
    same_id = refl;
    same_payload_type = refl;
    same_payload = refl;
  }

  resend_one-Keeps :
      (now k : ℕ) (u : Unacknowledged) (st : Outgoing)
      → lookup k st.unacknowledged_messages ≡ some u
      → Keeps st (resend_one sha256 write now k u st)
  unfolding resend_one
  resend_one-Keeps now k u st e = record {
    entries = λ j w e'. elim (Bool-cases (k == j)) [
      | inl hit ↦
          let same : u ≡ w = cc (e, e', (==_iff k j).0 hit) in
          (
            record u { message = (write_message sha256 write u.message).0; last_send_time = now },
            lookup-insert k j _ st.unacknowledged_messages ∙ rw hit,
            rw (← same) (record { content = write-SameContent u.message; same_first = refl }),
          )
      | inr miss ↦
          (w, lookup-insert k j _ st.unacknowledged_messages ∙ rw miss e', SameEntry-refl w)
    ];
    nothing_new = λ j e'. elim (Bool-cases (k == j)) [
      | inl hit ↦ cc (e, e', (==_iff k j).0 hit)
      | inr miss ↦ lookup-insert k j _ st.unacknowledged_messages ∙ rw miss e'
    ];
    as_many = length-insert_present k _ st.unacknowledged_messages e;
    same_next = refl;
  }

  -- One round of the loop over the map, when nothing has timed out.
  abbrev pub resend_round : ℕ → ℕ → Unacknowledged → Outgoing → Outgoing
  resend_round now k u st =
      if ltb (u.last_send_time + resend_interval_duration) now
      then resend_one sha256 write now k u st
      else st

  pub resend_round-Keeps :
      (now k : ℕ) (u : Unacknowledged) (st : Outgoing)
      → lookup k st.unacknowledged_messages ≡ some u
      → Keeps st (resend_round now k u st)
  resend_round-Keeps now k u st e =
      if_rule (Keeps st) (ltb (u.last_send_time + resend_interval_duration) now)
        (λ _. resend_one-Keeps now k u st e) (λ _. Keeps-refl st)

  pub resend-none :
      (now k : ℕ) (ks : List ℕ) (st : Outgoing)
      → lookup k st.unacknowledged_messages ≡ none
      → resend sha256 write now (k ∷ ks) st ≡ resend sha256 write now ks st
  unfolding resend
  resend-none now k ks st e = rw (e, resend)

  pub resend-some :
      (now k : ℕ) (ks : List ℕ) (st : Outgoing) (u : Unacknowledged)
      → lookup k st.unacknowledged_messages ≡ some u
      → resend sha256 write now (k ∷ ks) st ≡ (
          if ltb (u.first_send_time + resend_timeout_duration) now
          then (st, stop ack_timeout)
          else resend sha256 write now ks (resend_round now k u st))
  unfolding resend
  resend-some now k ks st u e = rw (e, resend)

  -- Whatever the tick does, it forgets no message and changes no content.
  pub resend-Keeps :
      (now : ℕ) (ks : List ℕ) (st : Outgoing) → Keeps st (resend sha256 write now ks st).0
  resend-Keeps now [] st = unfold resend in Keeps-refl st
  resend-Keeps now (k ∷ ks) st = elim (Option-cases (lookup k st.unacknowledged_messages)) [
    | inl e ↦ rw (resend-none now k ks st e) (resend-Keeps now ks st)
    | inr (u, e) ↦ rw (resend-some now k ks st u e) (
        if_rule (λ (r : Outgoing × Verdict). Keeps st r.0)
          (ltb (u.first_send_time + resend_timeout_duration) now) (λ _. Keeps-refl st)
          (λ _.
            Keeps-trans {b = resend_round now k u st} (resend_round-Keeps now k u st e)
              (resend-Keeps now ks (resend_round now k u st))))
  ]
