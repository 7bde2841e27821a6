-- ===== src/Messages/Malformed.antt =====
-- `UnmarshalBinary` of messages/message.go on any bytes that a peer may send.
use ssmlib.Common.{
  ℕ, zero, suc, ◌+◌, ◌-◌, ◌^◌, ◌≤◌, ◌<◌, ◌≡◌, refl, sym, ap, ◌∙◌, ◌↔◌, Bytes, [], ◌∷◌, length, take,
  drop, slice, All, none, arith,
}
use ssmlib.Messages.Wire.{big_endian}
use ssmlib.Messages.Message.{AgentMessage}
use ssmlib.Messages.Codec.{done, panicked, validate_message, unmarshal_binary}
use ssmlib.Messages.Stages.{
  header_of, payload_of, tail, head, head_header, head_sequence, tail_panics, tail_done, tail_wraps,
  read_payload-tail, unmarshal-read_payload, unmarshal_reaches,
}

abbrev pub IsByte : ℕ → Type 0
IsByte b = b < 256

-- Four bytes make a uint32.
pub word-lt : (s : Bytes) → All IsByte s → big_endian (take 4 s) < 2 ^ 32
unfolding big_endian
word-lt [] h = omega arith
word-lt (a ∷ []) h = omega arith
word-lt (a ∷ b ∷ []) h = omega arith
word-lt (a ∷ b ∷ c ∷ []) h = omega arith
word-lt (a ∷ b ∷ c ∷ d ∷ s) h = omega arith

-- Eight bytes make a uint64.
pub double_word-lt : (s : Bytes) → All IsByte s → big_endian (take 8 s) < 2 ^ 64
unfolding big_endian
double_word-lt [] h = omega arith
double_word-lt (a ∷ []) h = omega arith
double_word-lt (a ∷ b ∷ []) h = omega arith
double_word-lt (a ∷ b ∷ c ∷ []) h = omega arith
double_word-lt (a ∷ b ∷ c ∷ d ∷ []) h = omega arith
double_word-lt (a ∷ b ∷ c ∷ d ∷ e ∷ []) h = omega arith
double_word-lt (a ∷ b ∷ c ∷ d ∷ e ∷ f ∷ []) h = omega arith
double_word-lt (a ∷ b ∷ c ∷ d ∷ e ∷ f ∷ g ∷ []) h = omega arith
double_word-lt (a ∷ b ∷ c ∷ d ∷ e ∷ f ∷ g ∷ i ∷ s) h = omega arith

pub All-drop : (n : ℕ) (s : Bytes) → All IsByte s → All IsByte (drop n s)
All-drop zero s h = h
All-drop (suc n) [] h = h
All-drop (suc n) (a ∷ s) h = All-drop n s h.1

payload_of-lt : (s : Bytes) → All IsByte s → payload_of s < 2 ^ 32
payload_of-lt s h =
    let four : header_of s + 4 - header_of s ≡ 4 = omega arith in
    rw four (word-lt (drop (header_of s) s) (All-drop (header_of s) s h))

module _ (sha256 : Bytes → Bytes) where
  unmarshal-tail :
      (m : AgentMessage) (s : Bytes)
      → 112 ≤ header_of s
      → header_of s ≤ 116
      → header_of s + 4 ≤ length s
      → unmarshal_binary sha256 m s ≡ tail sha256 (head m s) s (payload_of s)
  unmarshal-tail m s lo hi long =
      let e = head_header m s in
      unmarshal-read_payload sha256 m s lo hi long
      ∙ read_payload-tail sha256 (head m s) s (payload_of s) (rw e hi) (rw e long) (rw e refl)

  -- On bytes, `UnmarshalBinary` panics exactly when the header length is 112 to 116, the data
  -- reaches to the end of the payload length, and the uint32 sum of the header length, 4 and the
  -- payload length wraps.
  pub unmarshal_panics_iff :
      (m : AgentMessage) (s : Bytes)
      → All IsByte s
      → ((unmarshal_binary sha256 m s).1 ≡ panicked) ↔ (
          (112 ≤ header_of s)
          × (header_of s ≤ 116)
          × (header_of s + 4 ≤ length s)
          × (2 ^ 32 ≤ header_of s + 4 + payload_of s))
  unmarshal_panics_iff m s bytes = (
    λ p.
        let (lo, hi, long) = unmarshal_reaches sha256 m _ s _ refl (λ e q. cc) in
        let e = head_header m s in
        let wraps =
          tail_wraps sha256 (head m s) s (payload_of s) (rw e hi) (payload_of-lt s bytes)
            (ap (λ q. q.1) (sym (unmarshal-tail m s lo hi long)) ∙ p) in
        (lo, hi, long, rw e at wraps),
    λ (lo, hi, long, wrap).
        let e = head_header m s in
        ap (λ q. q.1) (unmarshal-tail m s lo hi long)
        ∙ tail_panics sha256 (head m s) s (payload_of s) (rw e hi) (rw e long)
            (payload_of-lt s bytes) (rw e wrap),
  )

  -- A message that is accepted, of any type, was all there: the header length is 112 to 116, the
  -- payload is the bytes behind the header and the data does not end before them, the length field
  -- is the payload's, and the message passes `ValidateMessage`.
  pub unmarshal_sound :
      (m r : AgentMessage) (s : Bytes)
      → All IsByte s
      → unmarshal_binary sha256 m s ≡ (r, done)
      → (112 ≤ header_of s)
        × (header_of s ≤ 116)
        × (header_of s + 4 + payload_of s ≤ length s)
        × (r.payload ≡ slice s (header_of s + 4) (header_of s + 4 + payload_of s))
        × (r.payload_length ≡ payload_of s)
        × (validate_message sha256 r ≡ none)
  unmarshal_sound m r s bytes e =
      let (lo, hi, long) = unmarshal_reaches sha256 m r s done e (λ x q. cc) in
      let h = head_header m s in
      let (fits, same, valid) =
        tail_done sha256 (head m s) r s (payload_of s) (rw h hi) (payload_of-lt s bytes)
          (sym (unmarshal-tail m s lo hi long) ∙ e) in
      (
        lo,
        hi,
        rw h at fits,
        ap (λ q. q.payload) same ∙ rw h refl,
        ap (λ q. q.payload_length) same,
        valid,
      )

  -- The sequence number that is read fits an int64.
  pub unmarshal_int64 :
      (m r : AgentMessage) (s : Bytes)
      → All IsByte s
      → unmarshal_binary sha256 m s ≡ (r, done)
      → r.sequence_number < 2 ^ 64
  unmarshal_int64 m r s bytes e =
      let (lo, hi, long) = unmarshal_reaches sha256 m r s done e (λ x q. cc) in
      let h = head_header m s in
      let (fits, same, valid) =
        tail_done sha256 (head m s) r s (payload_of s) (rw h hi) (payload_of-lt s bytes)
          (sym (unmarshal-tail m s lo hi long) ∙ e) in
      rw (ap (λ q. q.sequence_number) same, head_sequence m s)
        (double_word-lt (drop 48 s) (All-drop 48 s bytes))
