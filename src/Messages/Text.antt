-- ===== src/Messages/Text.antt =====
-- Byte strings as messages/message.go uses them: comparison, and the 32 byte label on the wire.
use ssmlib.Common.{
  ℕ, zero, suc, ◌-◌, ◌≤◌, ◌≡◌, refl, ◌↔◌, Bool, true, false, ◌&&◌, ◌||◌, Bytes, [], ◌∷◌, ◌++◌,
  reverse, length, take, replicate, All, All-append, Bool-cases, inl, inr, sym, take_all,
  append-nil, reverse-append, reverse-reverse, ◌∙◌, ap, ◌≢◌, length-take, length-append,
  length-replicate, leb, ◌==◌, if◌then◌else◌, arith,
}
use mathlib.Core.List.{reverse-cons}
use ssmlib.Messages.Types.{MessageType}

-- `bytes.Equal`, and `==` on strings.
unfoldable pub bytes_eq : Bytes → Bytes → Bool
bytes_eq [] [] = true
bytes_eq [] (b ∷ t) = false
bytes_eq (a ∷ s) [] = false
bytes_eq (a ∷ s) (b ∷ t) = a == b && bytes_eq s t

pub bytes_eq_iff : (s t : Bytes) → (bytes_eq s t ≡ true) ↔ (s ≡ t)
unfolding bytes_eq
bytes_eq_iff [] [] = (λ h. refl, λ h. refl)
bytes_eq_iff [] (b ∷ t) = (λ h. cc, λ h. cc)
bytes_eq_iff (a ∷ s) [] = (λ h. cc, λ h. cc)
bytes_eq_iff (a ∷ s) (b ∷ t) =
    (λ h. ground (arith, (bytes_eq_iff s t).0), λ h. ground (arith, (bytes_eq_iff s t).1))

pub bytes_eq_refl : (s : Bytes) → bytes_eq s s ≡ true
unfolding bytes_eq
bytes_eq_refl [] = refl
bytes_eq_refl (a ∷ s) = ground (arith, bytes_eq_refl s)

-- `unicode.IsSpace` on the UTF-8 of a code point of one, two and three bytes.
abbrev is_space : ℕ → Bool
is_space a = a == 0x20 || (leb 0x09 a && leb a 0x0d)

abbrev is_space_two : ℕ → ℕ → Bool
is_space_two a b = a == 0xc2 && (b == 0x85 || b == 0xa0)

abbrev is_space_three : ℕ → ℕ → ℕ → Bool
is_space_three a b c =
    (a == 0xe1 && b == 0x9a && c == 0x80)
    || (a == 0xe2
        && b == 0x80
        && ((leb 0x80 c && leb c 0x8a) || c == 0xa8 || c == 0xa9 || c == 0xaf))
    || (a == 0xe2 && b == 0x81 && c == 0x9f)
    || (a == 0xe3 && b == 0x80 && c == 0x80)

-- How many bytes the white space has that stands first; 0 where none does.
first_width : Bytes → ℕ
first_width [] = 0
first_width (a ∷ []) = if is_space a then 1 else 0
first_width (a ∷ b ∷ []) = if is_space a then 1 else if is_space_two a b then 2 else 0
first_width (a ∷ b ∷ c ∷ s) =
    if is_space a then 1 else if is_space_two a b then 2 else if is_space_three a b c then 3 else 0

-- The same at the end of a text, whose bytes are given last first.
last_width : Bytes → ℕ
last_width [] = 0
last_width (a ∷ []) = if is_space a then 1 else 0
last_width (b ∷ a ∷ []) = if is_space b then 1 else if is_space_two a b then 2 else 0
last_width (c ∷ b ∷ a ∷ s) =
    if is_space c then 1 else if is_space_two b c then 2 else if is_space_three a b c then 3 else 0

nul_width : Bytes → ℕ
nul_width [] = 0
nul_width (a ∷ s) = if a == 0 then 1 else 0

-- Drops what `width` finds at the front, as often as it finds something; `n` bytes of the last
-- find are still to be dropped.
skip : (Bytes → ℕ) → ℕ → Bytes → Bytes
skip width n [] = []
skip width (suc n) (a ∷ s) = skip width n s
skip width zero (a ∷ s) = elim (width (a ∷ s)) [ zero ↦ a ∷ s | suc n ↦ skip width n s ]

-- `bytes.TrimSpace`.
trim_space : Bytes → Bytes
unfolding skip first_width last_width
trim_space s = reverse (skip last_width 0 (reverse (skip first_width 0 s)))

-- `bytes.TrimRight(s, "\x00")`.
trim_right_nul : Bytes → Bytes
unfolding skip nul_width
trim_right_nul s = reverse (skip nul_width 0 (reverse s))

unfoldable pub parse_message_type : Bytes → MessageType
unfolding trim_space trim_right_nul
parse_message_type s = trim_space (trim_right_nul s)

unfoldable pub convert_message_type : MessageType → Bytes
convert_message_type t =
    take 32 (if leb 32 (length t) then t else t ++ replicate (32 - length t) 0x20)

pub length-convert_message_type : (t : MessageType) → length (convert_message_type t) ≡ 32
unfolding convert_message_type
length-convert_message_type t = ground (
  arith,
  length-take 32 t,
  length-take 32 (t ++ replicate (32 - length t) 0x20),
  length-append t (replicate (32 - length t) 0x20),
  length-replicate {A = ℕ} (32 - length t) 0x20,
)

-- A printed ASCII character other than the space.
abbrev pub IsPlain : ℕ → Type 0
IsPlain c = (0x21 ≤ c) × (c ≤ 0x7e)

skip_none : (width : Bytes → ℕ) (s : Bytes) → width s ≡ 0 → skip width 0 s ≡ s
unfolding skip
skip_none width [] h = refl
skip_none width (a ∷ s) h = rw (h, skip)

first_width_head : (a : ℕ) (s : Bytes) → IsPlain a → first_width (a ∷ s) ≡ 0
unfolding first_width
first_width_head a [] h = ground arith
first_width_head a (b ∷ []) h = ground arith
first_width_head a (b ∷ c ∷ s) h = ground arith

last_width_plain : (s : Bytes) → All IsPlain s → last_width s ≡ 0
unfolding last_width
last_width_plain [] h = refl
last_width_plain (a ∷ []) h = ground arith
last_width_plain (a ∷ b ∷ []) h = ground arith
last_width_plain (a ∷ b ∷ c ∷ s) h = ground arith

last_width_space : (s : Bytes) → last_width (0x20 ∷ s) ≡ 1
unfolding last_width
last_width_space [] = refl
last_width_space (a ∷ []) = refl
last_width_space (a ∷ b ∷ s) = refl

skip_spaces : (k : ℕ) (s : Bytes) → skip last_width 0 (replicate k 0x20 ++ s) ≡ skip last_width 0 s
unfolding skip
skip_spaces zero s = refl
skip_spaces (suc k) s = rw (last_width_space (replicate k 0x20 ++ s), skip) (skip_spaces k s)

reverse-replicate : (k a : ℕ) → reverse (replicate k a) ≡ replicate k a
reverse-replicate zero a = refl
reverse-replicate (suc k) a =
    reverse-cons a (replicate k a) ∙ rw (reverse-replicate k a) (replicate_snoc k a)
  where
    replicate_snoc : (k a : ℕ) → replicate k a ++ (a ∷ []) ≡ a ∷ replicate k a
    replicate_snoc zero a = refl
    replicate_snoc (suc k) a = ap (◌∷◌ a) (replicate_snoc k a)

All-reverse : (P : ℕ → Type 0) (s : Bytes) → All P s → All P (reverse s)
All-reverse P [] h = tt
All-reverse P (a ∷ s) h =
    rw (reverse-cons a s) (All-append P (reverse s) (a ∷ []) (All-reverse P s h.1) (h.0, tt))

abbrev IsNotNul : ℕ → Type 0
IsNotNul c = c ≢ 0

trim_right_nul_none : (s : Bytes) → All IsNotNul s → trim_right_nul s ≡ s
unfolding trim_right_nul
trim_right_nul_none s h =
    rw (skip_none nul_width (reverse s) (width (reverse s) (All-reverse IsNotNul s h)))
      (reverse-reverse s)
  where
    width : (r : Bytes) → All IsNotNul r → nul_width r ≡ 0
    width [] h = refl
    width (a ∷ r) h = ground arith

-- Padding on the right is trimmed away from a plain text.
trim_space_padded :
    (t : Bytes) (k : ℕ) → t ≢ [] → All IsPlain t → trim_space (t ++ replicate k 0x20) ≡ t
unfolding trim_space
trim_space_padded t k e h =
    rw
      (
        skip_none first_width _ (front t e h),
        reverse-append t (replicate k 0x20),
        reverse-replicate k 0x20,
        skip_spaces k (reverse t),
        skip_none last_width _ (last_width_plain (reverse t) (All-reverse IsPlain t h)),
      )
      (reverse-reverse t)
  where
    front : (t : Bytes) → t ≢ [] → All IsPlain t → first_width (t ++ replicate k 0x20) ≡ 0
    front [] e h = absurd (e refl)
    front (a ∷ t) e h = first_width_head a (t ++ replicate k 0x20) h.0

-- A short label is padded to 32 bytes.
convert_short :
    (t : MessageType) → length t ≤ 32 → convert_message_type t ≡ t ++ replicate (32 - length t) 0x20
unfolding convert_message_type
convert_short t short = elim (Bool-cases (leb 32 (length t))) [
  | inl full ↦
      let e : length t ≡ 32 = ground arith in rw (full, e) (take_all 32 t e ∙ sym (append-nil t))
  | inr room ↦ rw room (take_all 32 (t ++ replicate (32 - length t) 0x20) (padded t short))
]
  where
    padded : (t : MessageType) → length t ≤ 32 → length (t ++ replicate (32 - length t) 0x20) ≡ 32
    padded t short = omega (
      arith,
      length-append t (replicate (32 - length t) 0x20),
      length-replicate {A = ℕ} (32 - length t) 0x20,
    )

-- A label of at most 32 plain characters is read back from its padded form.
pub parse-convert_message_type :
    (t : MessageType)
    → All IsPlain t
    → t ≢ []
    → length t ≤ 32
    → parse_message_type (convert_message_type t) ≡ t
unfolding parse_message_type
parse-convert_message_type t h e short =
    rw (convert_short t short, trim_right_nul_none _ (not_nul t h))
      (trim_space_padded t (32 - length t) e h)
  where
    plain-ne-nul : (s : Bytes) → All IsPlain s → All IsNotNul s
    plain-ne-nul [] h = tt
    plain-ne-nul (a ∷ s) h = ((λ p. omega arith), plain-ne-nul s h.1)

    spaces : (k : ℕ) → All IsNotNul (replicate k 0x20)
    spaces zero = tt
    spaces (suc k) = ((λ p. omega arith), spaces k)

    not_nul : (s : Bytes) → All IsPlain s → All IsNotNul (s ++ replicate (32 - length t) 0x20)
    not_nul s h =
        All-append IsNotNul s (replicate (32 - length t) 0x20) (plain-ne-nul s h)
          (spaces (32 - length t))
