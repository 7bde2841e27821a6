-- ===== src/Handler/Terminal/Updates.antt =====
-- Which messages the terminal loop of handler/stream.go hands to the session.
use ssmlib.Common.{
  ℕ, ◌+◌, ◌≡◌, ◌≢◌, refl, sym, ap, ◌∙◌, Bytes, Bool, true, false, not, ◌||◌, ◌&&◌, List, [], ◌∷◌,
  ◌++◌, append-nil, append_assoc, length, length-append, Option, ◌==◌, ==_iff, ==_refl,
  if◌then◌else◌, Bool-cases, inl, inr, subst,
}
use ssmlib.Errors.{Error}
use ssmlib.Messages.PayloadType
use ssmlib.Messages.AgentMessageFlag
use ssmlib.Messages.Types.{input_stream_data}
use ssmlib.Messages.Wire.{Time}
use ssmlib.Messages.Message.{AgentMessage, empty_message}
use ssmlib.Messages.Create.{Result, ok, err, new_agent_message, new_size_message}
use ssmlib.Handler.Copy.{set_terminal_size}
use ssmlib.Handler.Terminal.{Terminal, start, with_message, on_tick, update_terminal_size}

-- The last of some sizes, or the one before them.
abbrev pub last_of : ℕ × ℕ → List (ℕ × ℕ) → ℕ × ℕ
last_of size [] = size
last_of size (next ∷ sizes) = last_of next sizes

-- No size equals the one before it.
abbrev pub NoRepeat : ℕ × ℕ → List (ℕ × ℕ) → Type 0
NoRepeat size [] = Unit
NoRepeat size (next ∷ sizes) = (next ≢ size) × NoRepeat next sizes

abbrev same_size : ℕ × ℕ → ℕ × ℕ → Bool
same_size (w, h) (w', h') = w == w' && h == h'

-- The sizes that differ from the one before them.
abbrev pub changes : ℕ × ℕ → List (ℕ × ℕ) → List (ℕ × ℕ)
changes size [] = []
changes size (next ∷ sizes) =
    let rest = changes next sizes in if same_size size next then rest else next ∷ rest

-- The message that tells a size, when `json.Marshal` makes `payload` of it.
abbrev pub size_message : Time → Bytes → Bytes → AgentMessage
size_message t id payload = record empty_message {
  header_length = 116;
  schema_version = 1;
  created_date = t;
  message_id = id;
  message_type = input_stream_data;
  flags = AgentMessageFlag.plain;
  payload_type = PayloadType.size;
  payload = payload;
}

same_size-equal : (a b : ℕ × ℕ) → same_size a b ≡ true → a ≡ b
same_size-equal (w, h) (w', h') e = elim (Bool-cases (w == w')) [
  | inl hit ↦ rw ((==_iff w w').0 hit, (==_iff h h').0 (rw hit at e)) refl
  | inr miss ↦ cc (rw miss at e)
]

same_size-differ : (a b : ℕ × ℕ) → same_size a b ≡ false → b ≢ a
same_size-differ (w, h) (w', h') e same =
    cc (rw (ap (λ (p : ℕ × ℕ). p.0) same, ap (λ (p : ℕ × ℕ). p.1) same, ==_refl w, ==_refl h) at e)

changes-NoRepeat : (size : ℕ × ℕ) (ticks : List (ℕ × ℕ)) → NoRepeat size (changes size ticks)
changes-NoRepeat size [] = tt
changes-NoRepeat size (next ∷ ticks) = elim (Bool-cases (same_size size next)) [
  | inl same ↦ rw (same, same_size-equal size next same) (changes-NoRepeat next ticks)
  | inr differs ↦ rw differs (same_size-differ size next differs, changes-NoRepeat next ticks)
]

last_of-changes :
    (size : ℕ × ℕ) (ticks : List (ℕ × ℕ)) → last_of size (changes size ticks) ≡ last_of size ticks
last_of-changes size [] = refl
last_of-changes size (next ∷ ticks) = elim (Bool-cases (same_size size next)) [
  | inl same ↦ rw (same, same_size-equal size next same) (last_of-changes next ticks)
  | inr differs ↦ rw differs (last_of-changes next ticks)
]

test_same : (a b : Bool) → (not a || not b) ≡ not (a && b)
test_same true b = refl
test_same false b = refl

module _ (marshal : ℕ × ℕ → Result Bytes) (write : AgentMessage → Option Error) (now : ℕ → Time)
    (new_uuid : ℕ → Bytes) where
  abbrev pub told_by : ℕ → Result Bytes → List AgentMessage
  told_by n (ok payload) = size_message (now n) (new_uuid n) payload ∷ []
  told_by n (err e) = []

  -- The messages that tell some sizes, one for each that can be marshalled; the first size has the
  -- number `n`.
  abbrev pub messages_from : ℕ → List (ℕ × ℕ) → List AgentMessage
  messages_from n [] = []
  messages_from n (size ∷ sizes) = told_by n (marshal size) ++ messages_from (n + 1) sizes

  -- What a call of `SetTerminalSize` hands over.
  call_writes :
      (n w h : ℕ) (ms : List AgentMessage)
      → with_message (set_terminal_size marshal write (now n) (new_uuid n) w h).0 ms
        ≡ ms ++ told_by n (marshal (w, h))
  unfolding set_terminal_size new_size_message new_agent_message
  call_writes n w h ms = answer (marshal (w, h)) refl
    where
      answer :
          (r : Result Bytes)
          → marshal (w, h) ≡ r
          → with_message (set_terminal_size marshal write (now n) (new_uuid n) w h).0 ms
            ≡ ms ++ told_by n (marshal (w, h))
      answer (ok payload) e = rw (e, set_terminal_size, new_size_message) refl
      answer (err x) e = rw (e, set_terminal_size, new_size_message) (sym (append-nil ms))

  -- The variables of the loop after a tick, and what it adds.
  tick_writes :
      (w h : ℕ) (st : Terminal)
      → let st' = on_tick marshal write now new_uuid (w, h) st in
        let same = same_size (st.last_width, st.last_height) (w, h) in
        (◌≡◌ {A = ℕ × ℕ} (st'.last_width, st'.last_height) (w, h))
        × (st'.updates ≡ (if same then st.updates else st.updates ++ ((w, h) ∷ [])))
        × (st'.written ≡ (
            if same
            then st.written
            else st.written ++ told_by (length st.updates) (marshal (w, h))))
  unfolding on_tick
  tick_writes w h st = elim (Bool-cases (same_size (st.last_width, st.last_height) (w, h))) [
    | inl same ↦
        rw (test_same (st.last_width == w) (st.last_height == h), same)
          (same_size-equal (st.last_width, st.last_height) (w, h) same, refl, refl)
    | inr differs ↦
        rw (test_same (st.last_width == w) (st.last_height == h), differs)
          (refl, refl, call_writes (length st.updates) w h st.written)
  ]

  -- What the ticks add.
  Adds : Terminal → Terminal → List (ℕ × ℕ) → Type 0
  Adds st st' sizes =
      (st'.updates ≡ st.updates ++ sizes)
      × (st'.written ≡ st.written ++ messages_from (length st.updates) sizes)

  Adds-same :
      (st st' st'' : Terminal) (sizes : List (ℕ × ℕ))
      → st'.updates ≡ st.updates
      → st'.written ≡ st.written
      → Adds st' st'' sizes
      → Adds st st'' sizes
  unfolding Adds
  Adds-same st st' st'' sizes u m h = (h.0 ∙ rw u refl, h.1 ∙ rw (u, m) refl)

  Adds-call :
      (st st' st'' : Terminal) (size : ℕ × ℕ) (sizes : List (ℕ × ℕ))
      → st'.updates ≡ st.updates ++ (size ∷ [])
      → st'.written ≡ st.written ++ told_by (length st.updates) (marshal size)
      → Adds st' st'' sizes
      → Adds st st'' (size ∷ sizes)
  unfolding Adds
  Adds-call st st' st'' size sizes u m h = (
    h.0 ∙ rw u (append_assoc st.updates (size ∷ []) sizes),
    h.1
        ∙ rw (u, m, length-append st.updates (size ∷ []))
            (append_assoc st.written (told_by (length st.updates) (marshal size))
              (messages_from (length st.updates + 1) sizes)),
  )

  update-Adds :
      (ticks : List (ℕ × ℕ)) (st : Terminal)
      → Adds st
          (update_terminal_size marshal write now new_uuid ticks st)
          (changes (st.last_width, st.last_height) ticks)
  unfolding update_terminal_size Adds
  update-Adds [] st = (sym (append-nil st.updates), sym (append-nil st.written))
  update-Adds ((w, h) ∷ ticks) st =
      let st' = on_tick marshal write now new_uuid (w, h) st in
      let st'' = update_terminal_size marshal write now new_uuid ticks st' in
      let (v, u, m) = tick_writes w h st in
      let rest : Adds st' st'' (changes (w, h) ticks) =
        subst (λ (size : ℕ × ℕ). Adds st' st'' (changes size ticks)) v (update-Adds ticks st') in
      elim (Bool-cases (same_size (st.last_width, st.last_height) (w, h))) [
        | inl same ↦
            rw same
              (Adds-same st st' st'' (changes (w, h) ticks) (rw same at u) (rw same at m) rest)
        | inr differs ↦ rw differs (
            Adds-call st st' st'' (w, h) (changes (w, h) ticks) (rw differs at u) (rw differs at m)
              rest)
      ]

  -- After any ticks, the loop has called `SetTerminalSize` with the sizes that differ from the size
  -- before them, 0 by 0 before the first, and these calls have handed to the session's `Write`, in
  -- this order, the message of each of these sizes that `json.Marshal` accepts, with what it made
  -- of the size as the payload. No call has the size of the call before it, and the last has the
  -- size of the last tick.
  pub terminal_size_synced :
      (ticks : List (ℕ × ℕ))
      → let st = update_terminal_size marshal write now new_uuid ticks start in
        (st.updates ≡ changes (0, 0) ticks)
        × (st.written ≡ messages_from 0 (changes (0, 0) ticks))
        × (last_of (0, 0) st.updates ≡ last_of (0, 0) ticks)
        × NoRepeat (0, 0) st.updates
  unfolding Adds
  terminal_size_synced ticks =
      let (u, m) = update-Adds ticks start in
      (
        u,
        m,
        ap (last_of (0, 0)) u ∙ last_of-changes (0, 0) ticks,
        subst (NoRepeat (0, 0)) (sym u) (changes-NoRepeat (0, 0) ticks),
      )
