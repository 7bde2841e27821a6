-- ===== src/Messages/RoundTrip.antt =====
-- `UnmarshalBinary` reads back what `MarshalBinary` of messages/message.go writes.
use ssmlib.Common.{
  subst, le→ltb_false, ◌≢◌, ℕ, ◌+◌, ◌*◌, ◌/◌, ◌^◌, ◌≤◌, ◌<◌, ◌≡◌, sym, ap, ◌∙◌, Bytes, [], ◌∷◌,
  none, length, length-drop, length-take, take_prefix, drop_prefix, take-append-drop, take_all,
  take, drop, slice, All, arith,
}
use ssmlib.Common.Words.{u32}
use ssmlib.Messages.Wire.{
  unix_nano, big_endian, big_endian-be32, big_endian-be64, parse_time-unix_milli,
}
use ssmlib.Messages.Text.{IsPlain, bytes_eq_refl, parse-convert_message_type}
use ssmlib.Messages.Message.{AgentMessage, HasGoTypes}
use ssmlib.Messages.Create.{ok}
use ssmlib.Messages.Codec.{
  format_uuid_bytes, done, validate_message, read_basic_header, read_payload, read_payload_type,
  unmarshal_binary, seal, marshal_binary,
}
use ssmlib.Messages.Layout.{
  octets, slice-header_length, slice-message_type, slice-schema_version, slice-created_date,
  slice-sequence_number, slice-flags, slice-message_id, slice-payload_digest, slice-payload_type,
  slice-payload_length, length-octets, slice-payload,
}

-- What `MarshalBinary` needs for its output to be read back as the same message.
pub record IsSendable (m : AgentMessage) (nanos : ℕ) : Type 0 where
  pub go_types : HasGoTypes m
  pub open go_types use *
  pub full_header : m.header_length ≡ 116
  pub schema : 1 ≤ m.schema_version
  pub plain_type : All IsPlain m.message_type
  pub type_min : 10 ≤ length m.message_type
  pub type_max : length m.message_type ≤ 32
  pub dated : m.created_date ≡ unix_nano nanos
  pub after_1970 : nanos < 2 ^ 63
  pub payload_fits : length m.payload + 120 < 2 ^ 32

long-ne-nil : (t : Bytes) → 10 ≤ length t → t ≢ []
long-ne-nil [] h e = omega arith
long-ne-nil (a ∷ t) h e = cc

-- The halves of an id change places twice.
format_uuid_bytes_twice :
    (id : Bytes) → length id ≡ 16 → format_uuid_bytes (format_uuid_bytes id) ≡ id
unfolding format_uuid_bytes
format_uuid_bytes_twice id h =
    rw
      (
        drop_prefix 8 (drop 8 id) (take 8 id) (omega (arith, length-drop 8 id)),
        take_prefix 8 (drop 8 id) (take 8 id) (omega (arith, length-drop 8 id)),
      )
      (take-append-drop 8 id)

module _ (sha256 : Bytes → Bytes) (length-sha256 : (s : Bytes) → length (sha256 s) ≡ 32) where
  -- What arrives of a message that was sent: the date to the millisecond.
  abbrev pub received : AgentMessage → ℕ → AgentMessage
  received m nanos = record (seal sha256 m) { created_date = unix_nano (nanos / 1000000 * 1000000) }

  sealed_valid :
      (m : AgentMessage) (nanos : ℕ)
      → IsSendable m nanos
      → (k : ℕ)
      → validate_message sha256 (record (seal sha256 m) { created_date = unix_nano k }) ≡ none
  unfolding validate_message seal
  sealed_valid m nanos v k =
      ground
        (arith, v.payload_fits, v.type_min, v.message_id_array, bytes_eq_refl (sha256 m.payload))

  abbrev fits :
      (m : AgentMessage) (nanos : ℕ) → IsSendable m nanos → length (take 32 (sha256 m.payload)) ≡ 32
  fits m nanos v = omega (arith, length-take 32 (sha256 m.payload), length-sha256 m.payload)

  read_basic_header-octets :
      (m m₀ : AgentMessage) (nanos : ℕ)
      → IsSendable m nanos
      → read_basic_header (record m₀ { header_length = 116 }) (octets (seal sha256 m))
        ≡ record (received m nanos) {
          header_length = 116;
          payload_type = m₀.payload_type;
          payload_length = m₀.payload_length;
          payload = m₀.payload;
        }
  unfolding read_basic_header seal
  read_basic_header-octets m m₀ nanos v =
      let s = seal sha256 m in
      let id = v.message_id_array in
      let digest = fits m nanos v in
      cc (
        slice-message_type s id digest,
        parse-convert_message_type m.message_type v.plain_type
            (long-ne-nil m.message_type v.type_min) v.type_max,
        slice-schema_version s id digest,
        big_endian-be32 m.schema_version v.schema_version_u32,
        slice-created_date s id digest,
        v.dated,
        parse_time-unix_milli nanos v.after_1970,
        slice-sequence_number s id digest,
        big_endian-be64 m.sequence_number v.sequence_number_i64,
        slice-flags s id digest,
        big_endian-be64 m.flags v.flags_u64,
        slice-message_id s id digest,
        format_uuid_bytes_twice m.message_id id,
        slice-payload_digest s id digest,
        take_all 32 (sha256 m.payload) (length-sha256 m.payload),
      )

  -- A payload of `k` bytes behind a full header is taken as it stands.
  read_payload_full :
      (n : AgentMessage) (s p : Bytes) (k : ℕ)
      → let n' = record n { header_length = 116; payload_length = k; payload = p } in
        length s ≡ 120 + k
        → k + 120 < 2 ^ 32
        → big_endian (slice s 116 120) ≡ k
        → slice s 120 (120 + k) ≡ p
        → validate_message sha256 n' ≡ none
        → read_payload sha256 (record n { header_length = 116 }) s ≡ (n', done)
  unfolding read_payload
  read_payload_full n s p k long small count taken valid =
      let e : u32 (120 + k) ≡ 120 + k = omega arith in
      let enough = le→ltb_false (length s) 120 (omega arith) in
      let all = le→ltb_false (length s) (120 + k) (omega arith) in
      let ordered = le→ltb_false (120 + k) 120 (omega arith) in
      rw (enough, count, e, all, ordered, taken, valid)

  seal_valid :
      (m : AgentMessage) (nanos : ℕ)
      → IsSendable m nanos
      → validate_message sha256 (seal sha256 m) ≡ none
  unfolding validate_message seal
  seal_valid m nanos v = ground (
    arith,
    v.dated,
    v.payload_fits,
    v.type_min,
    v.message_id_array,
    bytes_eq_refl (sha256 m.payload),
  )

  marshal_octets :
      (m : AgentMessage) (nanos : ℕ)
      → IsSendable m nanos
      → marshal_binary sha256 m ≡ (seal sha256 m, ok (octets (seal sha256 m)))
  unfolding marshal_binary
  marshal_octets m nanos v = rw (seal_valid m nanos v, marshal_binary)

  -- The payload behind the header of a sealed message.
  read_payload-octets :
      (m n : AgentMessage) (nanos : ℕ)
      → IsSendable m nanos
      → record n { header_length = 116; payload_length = length m.payload; payload = m.payload }
        ≡ received m nanos
      → read_payload sha256 (record n { header_length = 116 }) (octets (seal sha256 m))
        ≡ (received m nanos, done)
  unfolding seal
  read_payload-octets m n nanos v same =
      let s = seal sha256 m in
      let id = v.message_id_array in
      let digest = fits m nanos v in
      let u : u32 (length m.payload) ≡ length m.payload = omega arith in
      read_payload_full n (octets s) m.payload (length m.payload) (length-octets s id digest)
        v.payload_fits
        (ap big_endian (slice-payload_length s id digest)
          ∙ rw u (big_endian-be32 (length m.payload) (omega arith)))
        (slice-payload s id digest)
        (subst (λ r. validate_message sha256 r ≡ none) (sym same)
          (sealed_valid m nanos v (nanos / 1000000 * 1000000)))
      ∙ ap (λ r. (r, done)) same

  unmarshal_octets :
      (m m₀ : AgentMessage) (nanos : ℕ)
      → IsSendable m nanos
      → unmarshal_binary sha256 m₀ (octets (seal sha256 m)) ≡ (received m nanos, done)
  unfolding unmarshal_binary read_payload_type seal
  unmarshal_octets m m₀ nanos v =
      let s = seal sha256 m in
      let id = v.message_id_array in
      let digest = fits m nanos v in
      let long = length-octets s id digest in
      let enough = le→ltb_false (length (octets s)) 4 (omega arith) in
      let basic = le→ltb_false (length (octets s)) 112 (omega arith) in
      let full = le→ltb_false (length (octets s)) 116 (omega arith) in
      let head : big_endian (slice (octets s) 0 4) ≡ 116 =
        ap big_endian (slice-header_length s id digest)
        ∙ rw v.full_header (big_endian-be32 116 (omega arith)) in
      let kind : big_endian (slice (octets s) 112 116) ≡ m.payload_type =
        ap big_endian (slice-payload_type s id digest)
        ∙ big_endian-be32 m.payload_type v.payload_type_u32 in
      rw (enough, head, basic, read_basic_header-octets m m₀ nanos v, full, kind)
        (read_payload-octets m
          (record (received m nanos) { payload_length = m₀.payload_length; payload = m₀.payload })
          nanos v (same m nanos v))
    where
      same :
          (m : AgentMessage) (nanos : ℕ)
          → IsSendable m nanos
          → record (received m nanos) {
            header_length = 116;
            payload_length = length m.payload;
            payload = m.payload;
          }
            ≡ received m nanos
      same m nanos v =
          let u : u32 (length m.payload) ≡ length m.payload = omega arith in cc (u, v.full_header)

  -- A message that meets `IsSendable` is marshalled without an error, and `UnmarshalBinary` reads
  -- the output, into any message, as the sealed message with its date cut to the millisecond.
  pub unmarshal-marshal :
      (m m₀ : AgentMessage) (nanos : ℕ)
      → IsSendable m nanos
      → (written : Bytes) × (marshal_binary sha256 m ≡ (seal sha256 m, ok written))
        × (unmarshal_binary sha256 m₀ written ≡ (
          record (seal sha256 m) { created_date = unix_nano (nanos / 1000000 * 1000000) },
          done,
        ))
  unmarshal-marshal m m₀ nanos v =
      (octets (seal sha256 m), marshal_octets m nanos v, unmarshal_octets m m₀ nanos v)
