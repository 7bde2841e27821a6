-- ===== src/Session/Outgoing/History.antt =====
-- What the events of `handleOutgoingMessages` in session.go have brought, and the window of
-- unacknowledged messages as it is to be after them.
use ssmlib.Common.{
  ℕ, ◌≤◌, ◌<◌, ◌≡◌, ◌⊎◌, List, [], ◌∷◌, Option, none, some, length, ◌==◌, ==_iff, if◌then◌else◌,
  Bool-cases, inl, inr, arith,
}
use ssmlib.Common.Table.{lookup}
use ssmlib.Messages.Message.{AgentMessage}
use ssmlib.Session.Outgoing.{
  Unacknowledged, Outgoing, Event, ack_received, control_message, outgoing_message, write_throttle,
  resend_ticker, ctx_done,
}

-- The messages that were accepted, the last one first.
abbrev pub accepted : List Event → List AgentMessage
accepted [] = []
accepted (outgoing_message msg first last ∷ es) = msg ∷ accepted es
accepted (ack_received n ∷ es) = accepted es
accepted (control_message msg ∷ es) = accepted es
accepted (write_throttle ∷ es) = accepted es
accepted (resend_ticker now ks ∷ es) = accepted es
accepted (ctx_done cause ∷ es) = accepted es

-- The message that was accepted when `j` messages had been.
abbrev pub numbered : ℕ → List AgentMessage → Option AgentMessage
numbered j [] = none
numbered j (m ∷ ms) = if length ms == j then some m else numbered j ms

-- An acknowledgement of `j` came after the message `j` had been accepted.
abbrev pub IsAcknowledged : ℕ → List Event → Type 0
IsAcknowledged j [] = ⊥
IsAcknowledged j (ack_received n ∷ es) =
    ((n ≡ j) × (j < length (accepted es))) ⊎ IsAcknowledged j es
IsAcknowledged j (outgoing_message msg first last ∷ es) = IsAcknowledged j es
IsAcknowledged j (control_message msg ∷ es) = IsAcknowledged j es
IsAcknowledged j (write_throttle ∷ es) = IsAcknowledged j es
IsAcknowledged j (resend_ticker now ks ∷ es) = IsAcknowledged j es
IsAcknowledged j (ctx_done cause ∷ es) = IsAcknowledged j es

-- The table holds the message under its number.
abbrev pub IsHeld : ℕ → AgentMessage → Outgoing → Type 0
IsHeld j m st =
    (u : Unacknowledged) × (lookup j st.unacknowledged_messages ≡ some u)
    × (u.message.payload ≡ m.payload)
    × (u.message.message_type ≡ m.message_type)
    × (u.message.message_id ≡ m.message_id)

pub record Window (es : List Event) (st : Outgoing) : Type 0 where
  -- the next number is the count of the accepted messages
  pub counts : st.next_outgoing_sequence_number ≡ length (accepted es)
  -- at most `maxInflightMessages` messages are unacknowledged
  pub bounded : length st.unacknowledged_messages ≤ 10
  -- an entry stands under the number that its message carries
  pub entries :
      (k : ℕ) (u : Unacknowledged)
      → lookup k st.unacknowledged_messages ≡ some u
      → (k < length (accepted es)) × (u.message.sequence_number ≡ k)
  -- a message that no acknowledgement answered is still there
  pub retained :
      (j : ℕ) (m : AgentMessage)
      → numbered j (accepted es) ≡ some m
      → IsAcknowledged j es ⊎ IsHeld j m st

pub numbered_lt :
    (j : ℕ) (ms : List AgentMessage) {m : AgentMessage} → numbered j ms ≡ some m → j < length ms
numbered_lt j [] h = cc
numbered_lt j (m' ∷ ms) h = elim (Bool-cases (length ms == j)) [
  | inl hit ↦ let same = (==_iff (length ms) j).0 hit in omega arith
  | inr miss ↦ let rest = numbered_lt j ms (rw miss at h) in omega arith
]
