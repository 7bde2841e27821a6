-- ===== src/Messages/Stages.antt =====
-- The stages of `UnmarshalBinary` of messages/message.go, on any bytes at all.
use ssmlib.Common.{
  ◌||◌, sym, ap, subst, ltb→lt, if_skip, ltb_false→le, Option, some, ◌≢◌, le→ltb_false, lt→ltb,
  false, ℕ, ◌+◌, ◌^◌, ◌≤◌, ◌<◌, ◌≡◌, refl, Bytes, length, slice, ltb, ◌==◌, if◌then◌else◌,
  Bool-cases, inl, inr, none, arith,
}
use ssmlib.Common.Words.{u32}
use ssmlib.Errors.{Error, Reason, invalid_agent_message}
use ssmlib.Messages.Wire.{big_endian}
use ssmlib.Messages.Message.{AgentMessage}
use ssmlib.Messages.Codec.{
  Outcome, done, failed, panicked, outcome, validate_message, read_basic_header, read_payload,
  read_payload_type, unmarshal_binary,
}

-- What the header says: its length, and the length of the payload.
abbrev pub header_of : Bytes → ℕ
header_of s = big_endian (slice s 0 4)

abbrev pub payload_of : Bytes → ℕ
payload_of s = big_endian (slice s (header_of s) (header_of s + 4))

-- The verdict of the validation is no panic, and `done` means that it found nothing.
outcome-ne-panicked : (e : Option Error) → outcome e ≢ panicked
outcome-ne-panicked none h = cc
outcome-ne-panicked (some e) h = cc

outcome_done : (e : Option Error) → outcome e ≡ done → e ≡ none
outcome_done none h = refl
outcome_done (some e) h = cc

-- The message when its payload is about to be read.
abbrev pub head : AgentMessage → Bytes → AgentMessage
head m s =
    let b = read_basic_header (record m { header_length = header_of s }) s in
    if header_of s == 116
    then record b { payload_type = big_endian (slice s 112 (header_of s)) }
    else b

pub head_header : (m : AgentMessage) (s : Bytes) → (head m s).header_length ≡ header_of s
unfolding read_basic_header
head_header m s = elim (Bool-cases (header_of s == 116)) [
  | inl full ↦ rw full
  | inr short ↦ rw short
]

pub head_sequence :
    (m : AgentMessage) (s : Bytes) → (head m s).sequence_number ≡ big_endian (slice s 48 56)
unfolding read_basic_header
head_sequence m s = elim (Bool-cases (header_of s == 116)) [
  | inl full ↦ rw full
  | inr short ↦ rw short
]

read_header :
    (m : AgentMessage) (s : Bytes) → (read_basic_header m s).header_length ≡ m.header_length
unfolding read_basic_header
read_header m s = refl

in_range : (h : ℕ) → (ltb 116 h || ltb h 112) ≡ false → (112 ≤ h) × (h ≤ 116)
in_range h e = ground arith

not_failed :
    (o : Outcome)
    → ((e : Error) → o ≢ failed e)
    → {m r : AgentMessage} {e : Error} → ◌≢◌ {A = AgentMessage × Outcome} (m, failed e) (r, o)
not_failed o fine {e = e} p = fine e (ap (λ q. q.1) (sym p))

module _ (sha256 : Bytes → Bytes) where
  -- With the header and the payload length in reach, the wrapped sum decides.
  abbrev pub tail : AgentMessage → Bytes → ℕ → AgentMessage × Outcome
  tail m s n =
      let total_required = u32 (m.header_length + 4 + n) in
      let m' = record m { payload_length = n } in
      let m'' = record m' { payload = slice s (m.header_length + 4) total_required } in
      if ltb (length s) total_required
      then (m', failed (invalid_agent_message Reason.short_payload))
      else if ltb total_required (m.header_length + 4)
      then (m', panicked)
      else (m'', outcome (validate_message sha256 m''))

  pub read_payload-tail :
      (m : AgentMessage) (s : Bytes) (n : ℕ)
      → m.header_length ≤ 116
      → m.header_length + 4 ≤ length s
      → big_endian (slice s m.header_length (m.header_length + 4)) ≡ n
      → read_payload sha256 m s ≡ tail m s n
  unfolding read_payload
  read_payload-tail m s n h long e =
      let u : u32 (m.header_length + 4) ≡ m.header_length + 4 = omega arith in
      rw (u, le→ltb_false (length s) (m.header_length + 4) long, e)

  pub tail_panics :
      (m : AgentMessage) (s : Bytes) (n : ℕ)
      → m.header_length ≤ 116
      → m.header_length + 4 ≤ length s
      → n < 2 ^ 32
      → 2 ^ 32 ≤ m.header_length + 4 + n
      → (tail m s n).1 ≡ panicked
  tail_panics m s n h long small wrap = rw (
    le→ltb_false (length s) (u32 (m.header_length + 4 + n)) (omega arith),
    lt→ltb (u32 (m.header_length + 4 + n)) (m.header_length + 4) (omega arith),
  )

  pub tail_done :
      (m r : AgentMessage) (s : Bytes) (n : ℕ)
      → m.header_length ≤ 116
      → n < 2 ^ 32
      → tail m s n ≡ (r, done)
      → (m.header_length + 4 + n ≤ length s)
        × (r ≡ record m {
          payload_length = n;
          payload = slice s (m.header_length + 4) (m.header_length + 4 + n);
        })
        × (validate_message sha256 r ≡ none)
  tail_done m r s n h small e =
      let t = u32 (m.header_length + 4 + n) in
      let (enough, e₁) = if_skip (ltb (length s) t) e (λ p. cc) in
      let (ordered, e₂) = if_skip (ltb t (m.header_length + 4)) e₁ (λ p. cc) in
      let fits : t ≡ m.header_length + 4 + n =
        omega (arith, ltb_false→le t (m.header_length + 4) ordered) in
      let same = ap (λ p. p.0) e₂ in
      (
        omega (arith, ltb_false→le (length s) t enough),
        sym (
            subst
              (λ z. record m { payload_length = n; payload = slice s (m.header_length + 4) z } ≡ r)
              fits same),
        outcome_done (validate_message sha256 r)
            (subst (λ q. outcome (validate_message sha256 q) ≡ done) same (ap (λ p. p.1) e₂)),
      )

  -- A panic can only come from a sum that wraps.
  pub tail_wraps :
      (m : AgentMessage) (s : Bytes) (n : ℕ)
      → m.header_length ≤ 116
      → n < 2 ^ 32
      → (tail m s n).1 ≡ panicked
      → 2 ^ 32 ≤ m.header_length + 4 + n
  tail_wraps m s n h small e = elim (Bool-cases (ltb t (m.header_length + 4))) [
    | inl wrapped ↦ omega (arith, ltb→lt t (m.header_length + 4) wrapped)
    | inr ordered ↦ absurd (impossible ordered)
  ]
    where
      t : ℕ
      t = u32 (m.header_length + 4 + n)

      impossible : ltb t (m.header_length + 4) ≡ false → ⊥
      impossible ordered = elim (Bool-cases (ltb (length s) t)) [
        | inl short ↦ cc (rw short at e)
        | inr enough ↦ outcome-ne-panicked _ (rw (enough, ordered) at e)
      ]

  pub unmarshal-read_payload :
      (m : AgentMessage) (s : Bytes)
      → 112 ≤ header_of s
      → header_of s ≤ 116
      → header_of s + 4 ≤ length s
      → unmarshal_binary sha256 m s ≡ read_payload sha256 (head m s) s
  unfolding unmarshal_binary read_payload_type read_basic_header
  unmarshal-read_payload m s lo hi long =
      rw
        (
          le→ltb_false (length s) 4 (omega arith),
          le→ltb_false 116 (header_of s) hi,
          le→ltb_false (header_of s) 112 lo,
          le→ltb_false (length s) 112 (omega arith),
        )
        (elim (Bool-cases (header_of s == 116)) [
          | inl full ↦ rw (full, le→ltb_false (length s) (header_of s) (omega arith)) refl
          | inr short ↦ rw short refl
        ])

  read_payload_reaches :
      (m r : AgentMessage) (s : Bytes) (o : Outcome)
      → read_payload sha256 m s ≡ (r, o)
      → ((e : Error) → o ≢ failed e)
      → m.header_length ≤ 116
      → m.header_length + 4 ≤ length s
  unfolding read_payload
  read_payload_reaches m r s o e fine h =
      let (enough, _) =
        if_skip (ltb (length s) (u32 (m.header_length + 4))) e (not_failed o fine) in
      omega (arith, ltb_false→le (length s) (u32 (m.header_length + 4)) enough)

  read_payload_type_reaches :
      (m r : AgentMessage) (s : Bytes) (o : Outcome)
      → read_payload_type sha256 m s ≡ (r, o)
      → ((e : Error) → o ≢ failed e)
      → m.header_length ≤ 116
      → m.header_length + 4 ≤ length s
  unfolding read_payload_type
  read_payload_type_reaches m r s o e fine h = elim (Bool-cases (m.header_length == 116)) [
    | inl full ↦
        let (_, e₁) = if_skip (ltb (length s) m.header_length) (rw full at e) (not_failed o fine) in
        read_payload_reaches _ r s o e₁ fine h
    | inr short ↦ read_payload_reaches m r s o (rw short at e) fine h
  ]

  -- Data that is read to the payload has a header length in range and reaches to its end.
  pub unmarshal_reaches :
      (m r : AgentMessage) (s : Bytes) (o : Outcome)
      → unmarshal_binary sha256 m s ≡ (r, o)
      → ((e : Error) → o ≢ failed e)
      → (112 ≤ header_of s) × (header_of s ≤ 116) × (header_of s + 4 ≤ length s)
  unfolding unmarshal_binary
  unmarshal_reaches m r s o e fine =
      let (_, e₁) = if_skip (ltb (length s) 4) e (not_failed o fine) in
      let (range, e₂) =
        if_skip (ltb 116 (header_of s) || ltb (header_of s) 112) e₁ (not_failed o fine) in
      let (_, e₃) = if_skip (ltb (length s) 112) e₂ (not_failed o fine) in
      let (lo, hi) = in_range (header_of s) range in
      (
        lo,
        hi,
        rw (read_header (record m { header_length = header_of s }) s) at
            (read_payload_type_reaches _ r s o e₃ fine (rw read_header hi)),
      )
