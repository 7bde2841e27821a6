-- ===== src/Sending.antt =====
-- The way of the reader's data through the program: `CopyReaderToSessionWriter` of handler/misc.go,
-- `Write`, the channel, and `handleOutgoingMessages` of session.go, which numbers the messages.
use mathlib.Core.List.{map, flatten}
use ssmlib.Common.{
  ℕ, ◌<◌, ◌^◌, ◌≡◌, ◌⊎◌, refl, sym, ap, ◌∙◌, Bytes, List, [], ◌∷◌, ◌++◌, append_assoc, Option, some,
  length, length-append, PrefixOf, ◌==◌, ==_iff, Bool-cases, inl, inr, arith,
}
use ssmlib.Errors.{Error}
use ssmlib.Messages.Wire.{Time}
use ssmlib.Messages.Message.{AgentMessage}
use ssmlib.Session.Client.{Channels}
use ssmlib.Session.Client.Fifo as Fifo
use ssmlib.Session.Outgoing.{Outgoing, Event}
use ssmlib.Session.Outgoing.History.{accepted, numbered, IsAcknowledged, IsHeld}
use ssmlib.Session.Outgoing.Reach.{Reach, reached-Window}
use ssmlib.Handler.Copy.{Context, Copied, ReadResult, nothing, copy_reader_to_session_writer}
use ssmlib.Handler.Copy.Input.{input, sent, copy_input_in_order}

abbrev pub oldest_first : List AgentMessage → List AgentMessage
oldest_first [] = []
oldest_first (m ∷ ms) = oldest_first ms ++ (m ∷ [])

length-oldest_first : (ms : List AgentMessage) → length (oldest_first ms) ≡ length ms
length-oldest_first [] = refl
length-oldest_first (m ∷ ms) =
    omega (arith, length-append (oldest_first ms) (m ∷ []), length-oldest_first ms)

-- The message `j` among those that were accepted, the oldest first.
abbrev pub At : ℕ → AgentMessage → List AgentMessage → Type 0
At j m ms =
    (front : List AgentMessage) × (back : List AgentMessage) × (ms ≡ front ++ (m ∷ back))
    × (length front ≡ j)

numbered-At :
    (j : ℕ) (m : AgentMessage) (ms : List AgentMessage)
    → numbered j ms ≡ some m
    → At j m (oldest_first ms)
numbered-At j m [] h = cc
numbered-At j m (x ∷ ms) h = elim (Bool-cases (length ms == j)) [
  | inl hit ↦
      let same : x ≡ m = cc (rw hit at h) in
      (
        oldest_first ms,
        [],
        ap (λ y. oldest_first ms ++ (y ∷ [])) same,
        length-oldest_first ms ∙ (==_iff (length ms) j).0 hit,
      )
  | inr miss ↦
      let (front, back, e, place) = numbered-At j m ms (rw miss at h) in
      (
        front,
        back ++ (x ∷ []),
        ap (λ l. l ++ (x ∷ [])) e ∙ append_assoc front (m ∷ back) (x ∷ []),
        place,
      )
]

-- The bytes that messages carry.
abbrev pub bytes_of : List AgentMessage → Bytes
bytes_of [] = []
bytes_of (m ∷ ms) = m.payload ++ bytes_of ms

bytes_of-++ :
    (front back : List AgentMessage) → bytes_of (front ++ back) ≡ bytes_of front ++ bytes_of back
bytes_of-++ [] back = refl
bytes_of-++ (m ∷ front) back =
    ap (λ l. m.payload ++ l) (bytes_of-++ front back)
    ∙ sym (append_assoc m.payload (bytes_of front) (bytes_of back))

bytes_of-flatten :
    (ms : List AgentMessage) → flatten (map (λ (x : AgentMessage). x.payload) ms) ≡ bytes_of ms
unfolding flatten
bytes_of-flatten [] = refl
bytes_of-flatten (m ∷ ms) = ap (λ l. m.payload ++ l) (bytes_of-flatten ms)

-- The bytes of a message stand behind those before it.
placed :
    (front back rest all : List AgentMessage) (m : AgentMessage) (tail bytes : Bytes)
    → (front ++ (m ∷ back)) ++ rest ≡ all
    → bytes_of all ++ tail ≡ bytes
    → PrefixOf (bytes_of front ++ m.payload) bytes
placed front back rest all m tail bytes e h =
    let b = bytes_of (back ++ rest) in
    let ahead = bytes_of front ++ m.payload in
    (
      b ++ tail,
      sym (append_assoc ahead b tail)
          ∙ ap (λ l. l ++ tail) (append_assoc (bytes_of front) m.payload b)
          ∙ ap (λ l. l ++ tail) (sym (bytes_of-++ front (m ∷ (back ++ rest))))
          ∙ ap (λ l. bytes_of l ++ tail) (sym (append_assoc front (m ∷ back) rest) ∙ e)
          ∙ h,
    )

sent-bytes_of : (st : Copied AgentMessage) → sent st ≡ bytes_of st.handed
unfolding sent
sent-bytes_of st = bytes_of-flatten st.handed

module _ (ctx : Context) (accept : AgentMessage → Option Error) (now : ℕ → Time)
    (new_uuid : ℕ → Bytes) (sha256 : Bytes → Bytes) (write : Bytes → Option Error) where
  -- Where `Write` accepted messages of the copy loop alone, in order, the message with the number
  -- `j` carries the bytes of the reader that follow those of the `j` messages before it, and until
  -- an acknowledgement of its number comes it is held, to be sent again.
  pub sent_in_order :
      (reads : List ReadResult) (c : Channels) (es : List Event) (st : Outgoing) (j : ℕ)
      (m : AgentMessage)
      → PrefixOf c.accepted
          (copy_reader_to_session_writer ctx accept now new_uuid reads nothing).0.handed
      → Fifo.Reach c
      → c.taken ≡ oldest_first (accepted es)
      → Reach sha256 write es st
      → length (accepted es) < 2 ^ 63
      → numbered j (accepted es) ≡ some m
      → ((front : List AgentMessage) × (back : List AgentMessage) × (c.taken ≡ front ++ (m ∷ back))
          × (length front ≡ j)
          × PrefixOf (bytes_of front ++ m.payload) (input reads))
        × (IsAcknowledged j es ⊎ IsHeld j m st)
  sent_in_order reads c es st j m (rest, handed) channels taken r small n =
      let (front, back, e, place) = numbered-At j m (accepted es) n in
      let (tail, begins) = copy_input_in_order ctx accept now new_uuid reads in
      let all = copy_reader_to_session_writer ctx accept now new_uuid reads nothing in
      let order : (front ++ (m ∷ back)) ++ (c.outgoing_messages ++ rest) ≡ all.0.handed =
        sym (append_assoc (front ++ (m ∷ back)) c.outgoing_messages rest)
        ∙ ap (λ l. (l ++ c.outgoing_messages) ++ rest) (sym (taken ∙ e))
        ∙ ap (λ l. l ++ rest) (Fifo.reached-IsFifo channels).written_in_order
        ∙ handed in
      let at_place =
        placed front back (c.outgoing_messages ++ rest) all.0.handed m tail (input reads) order
          (ap (λ l. l ++ tail) (sym (sent-bytes_of all.0)) ∙ begins) in
      (
        (front, back, taken ∙ e, place, at_place),
        (reached-Window sha256 write r small).retained j m n,
      )
