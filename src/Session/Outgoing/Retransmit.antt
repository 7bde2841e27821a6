-- ===== src/Session/Outgoing/Retransmit.antt =====
-- What the resend ticker of session.go writes.
use ssmlib.Common.{
  ℕ, ◌+◌, ◌≡◌, ◌↔◌, refl, sym, ap, ◌∙◌, Bytes, false, List, [], ◌∷◌, ◌++◌, append_assoc, append-nil,
  Option, none, some, In, In-append_left, In-append_right, In-append_cases, ltb, ltb→lt, lt→ltb,
  ◌==◌, ==_iff, if◌then◌else◌, Bool-cases, Option-cases, inl, inr,
}
use ssmlib.Common.Table.{lookup, lookup-insert}
use ssmlib.Errors.{Error}
use ssmlib.Messages.Codec.{marshal_binary}
use ssmlib.Session.Verdict.{go_on}
use ssmlib.Session.Outgoing.{
  Unacknowledged, Outgoing, resend_interval_duration, resend_timeout_duration, octets_of,
  with_written, write_message, resend_one, resend,
}
use ssmlib.Session.Outgoing.Resend.{resend_round, resend-none, resend-some}
use ssmlib.Session.Outgoing.Ticker.{IsDue}

-- A range over a map gives no key twice.
abbrev pub NoTwice : List ℕ → Type 0
NoTwice [] = Unit
NoTwice (k ∷ ks) = (In k ks → ⊥) × NoTwice ks

abbrev frames_of : Option Bytes → List Bytes
frames_of none = []
frames_of (some b) = b ∷ []

with_written-frames_of :
    (o : Option Bytes) (bs : List Bytes) → with_written o bs ≡ bs ++ frames_of o
with_written-frames_of none bs = sym (append-nil bs)
with_written-frames_of (some b) bs = refl

frames_of_iff : (o : Option Bytes) (b : Bytes) → In b (frames_of o) ↔ (o ≡ some b)
frames_of_iff none b = (λ i. absurd i, λ e. cc)
frames_of_iff (some c) b =
    (λ i. elim i [ inl e ↦ ap some e | inr none_left ↦ absurd none_left ], λ e. inl (cc e))

module _ (sha256 : Bytes → Bytes) (write : Bytes → Option Error) where
  -- The key `k` has an entry that is due, and whose message is marshalled as `b`.
  abbrev pub Resends : ℕ → List (ℕ × Unacknowledged) → ℕ → Bytes → Type 0
  Resends now table k b =
      (u : Unacknowledged) × (lookup k table ≡ some u)
      × IsDue now u
      × (octets_of (marshal_binary sha256 u.message).1 ≡ some b)

  -- The frame of an entry, if it is due, and the frames of some keys of a table.
  abbrev due_frame : ℕ → Option Unacknowledged → List Bytes
  due_frame now none = []
  due_frame now (some u) =
      if ltb (u.last_send_time + resend_interval_duration) now
      then frames_of (octets_of (marshal_binary sha256 u.message).1)
      else []

  abbrev due_frames : ℕ → List (ℕ × Unacknowledged) → List ℕ → List Bytes
  due_frames now table [] = []
  due_frames now table (k ∷ ks) = due_frame now (lookup k table) ++ due_frames now table ks

  round_writes :
      (now k : ℕ) (u : Unacknowledged) (st : Outgoing)
      → (resend_round sha256 write now k u st).written ≡ st.written ++ due_frame now (some u)
  unfolding resend_one write_message
  round_writes now k u st =
      elim (Bool-cases (ltb (u.last_send_time + resend_interval_duration) now)) [
        | inl due ↦ rw due (with_written-frames_of _ st.written)
        | inr not_due ↦ rw not_due (sym (append-nil st.written))
      ]

  round_other :
      (now j k : ℕ) (w : Unacknowledged) (st : Outgoing)
      → (j == k) ≡ false
      → lookup k (resend_round sha256 write now j w st).unacknowledged_messages
        ≡ lookup k st.unacknowledged_messages
  unfolding resend_one
  round_other now j k w st miss =
      elim (Bool-cases (ltb (w.last_send_time + resend_interval_duration) now)) [
        | inl due ↦ rw due (lookup-insert j k _ st.unacknowledged_messages ∙ rw miss)
        | inr not_due ↦ rw not_due refl
      ]

  -- A round changes the frames of no other key.
  round_due_frames :
      (now j : ℕ) (w : Unacknowledged) (st : Outgoing) (ks : List ℕ)
      → (In j ks → ⊥)
      → due_frames now (resend_round sha256 write now j w st).unacknowledged_messages ks
        ≡ due_frames now st.unacknowledged_messages ks
  round_due_frames now j w st [] out = refl
  round_due_frames now j w st (k ∷ ks) out = elim (Bool-cases (j == k)) [
    | inl hit ↦ absurd (out (inl (sym ((==_iff j k).0 hit))))
    | inr miss ↦
        rw (round_other now j k w st miss, round_due_frames now j w st ks (λ i. out (inr i))) refl
  ]

  resend_writes :
      (now : ℕ) (ks : List ℕ) (st : Outgoing)
      → NoTwice ks
      → (resend sha256 write now ks st).1 ≡ go_on
      → (resend sha256 write now ks st).0.written
        ≡ st.written ++ due_frames now st.unacknowledged_messages ks
  resend_writes now [] st t h = unfold resend in sym (append-nil st.written)
  resend_writes now (k ∷ ks) st t h = elim (Option-cases (lookup k st.unacknowledged_messages)) [
    | inl e ↦
        rw (resend-none sha256 write now k ks st e, e)
          (resend_writes now ks st t.1 (rw (resend-none sha256 write now k ks st e) at h))
    | inr (u, e) ↦ elim (Bool-cases (ltb (u.first_send_time + resend_timeout_duration) now)) [
      | inl late ↦ cc (rw (resend-some sha256 write now k ks st u e, late) at h)
      | inr fresh ↦
          rw (resend-some sha256 write now k ks st u e, fresh, e)
            (resend_writes now ks (resend_round sha256 write now k u st) t.1
                (rw (resend-some sha256 write now k ks st u e, fresh) at h)
              ∙ ap (◌++◌ (resend_round sha256 write now k u st).written)
                  (round_due_frames now k u st ks t.0)
              ∙ ap (λ bs. bs ++ due_frames now st.unacknowledged_messages ks)
                  (round_writes now k u st)
              ∙ append_assoc st.written (due_frame now (some u))
                  (due_frames now st.unacknowledged_messages ks))
    ]
  ]

  due_frame_iff :
      (now k : ℕ) (table : List (ℕ × Unacknowledged)) (b : Bytes)
      → In b (due_frame now (lookup k table)) ↔ Resends now table k b
  due_frame_iff now k table b = elim (Option-cases (lookup k table)) [
    | inl e ↦ (λ i. absurd (rw e at i), λ (u, e', due, m). cc (e, e'))
    | inr (u, e) ↦ (from u e, into u e)
  ]
    where
      from :
          (u : Unacknowledged)
          → lookup k table ≡ some u
          → In b (due_frame now (lookup k table))
          → Resends now table k b
      from u e i = elim (Bool-cases (ltb (u.last_send_time + 1_000_000_000) now)) [
        | inl due ↦ (
          u,
          e,
          ltb→lt (u.last_send_time + 1_000_000_000) now due,
          (frames_of_iff (octets_of (marshal_binary sha256 u.message).1) b).0 (rw (e, due) at i),
        )
        | inr not_due ↦ absurd (rw (e, not_due) at i)
      ]

      into :
          (u : Unacknowledged)
          → lookup k table ≡ some u
          → Resends now table k b
          → In b (due_frame now (lookup k table))
      into u e (w, e', due, m) =
          rw (e', lt→ltb (w.last_send_time + 1_000_000_000) now due)
            ((frames_of_iff (octets_of (marshal_binary sha256 w.message).1) b).1 m)

  due_frames_iff :
      (now : ℕ) (table : List (ℕ × Unacknowledged)) (ks : List ℕ) (b : Bytes)
      → In b (due_frames now table ks) ↔ ((k : ℕ) × In k ks × Resends now table k b)
  due_frames_iff now table [] b = (λ i. absurd i, λ (k, i, r). absurd i)
  due_frames_iff now table (j ∷ ks) b = (
    λ i. elim (In-append_cases b (due_frame now (lookup j table)) (due_frames now table ks) i) [
      | inl here ↦ (j, inl refl, (due_frame_iff now j table b).0 here)
      | inr later ↦ let (k, i', r) = (due_frames_iff now table ks b).0 later in (k, inr i', r)
    ],
    λ (k, i, r). elim i [
      | inl same ↦
          In-append_left b (due_frame now (lookup j table)) (due_frames now table ks)
            ((due_frame_iff now j table b).1 (rw (← same) at r))
      | inr i' ↦
          In-append_right b (due_frame now (lookup j table)) (due_frames now table ks)
            ((due_frames_iff now table ks b).1 (k, i', r))
    ],
  )

  -- When a tick whose range gives no key twice does not give up, the frames that it adds to what
  -- was written before are those of the entries of its keys that were last sent more than
  -- a second ago, as marshalled: every one of them that can be marshalled, and nothing else.
  pub resend_writes_due :
      (now : ℕ) (ks : List ℕ) (st : Outgoing)
      → NoTwice ks
      → (resend sha256 write now ks st).1 ≡ go_on
      → (again : List Bytes) × ((resend sha256 write now ks st).0.written ≡ st.written ++ again)
        × ((b : Bytes)
            → In b again ↔ ((k : ℕ) × In k ks × Resends now st.unacknowledged_messages k b))
  resend_writes_due now ks st t h = (
    due_frames now st.unacknowledged_messages ks,
    resend_writes now ks st t h,
    due_frames_iff now st.unacknowledged_messages ks,
  )
