-- ===== src/Receiving.antt =====
-- The way of the agent's data through the program: the frames that `handleIncomingMessages` of
-- session.go reads, the channel that it delivers to, `Read`, and `CopySessionReaderToWriter` of
-- handler/misc.go, which hands the payloads to the writer.
pub mod Payloads
pub use Payloads.*
use mathlib.Core.List.{map}
use ssmlib.Common.{
  ℕ, zero, suc, ◌+◌, ◌-◌, ◌≤◌, ◌<◌, ◌^◌, ◌≡◌, refl, sym, ap, ◌∙◌, Bytes, List, [], ◌∷◌, ◌++◌,
  append-nil, append_assoc, Option, none, length, All, In, PrefixOf, ◌==◌, if◌then◌else◌,
  Bool-cases, inl, inr, arith,
}
use ssmlib.Common.Words.{u64}
use ssmlib.Errors.{Error}
use ssmlib.Messages.PayloadType
use ssmlib.Messages.Types.{output_stream_data}
use ssmlib.Messages.Message.{AgentMessage, empty_message}
use ssmlib.Messages.Create.{Result, ok, err}
use ssmlib.Messages.Codec.{done, unmarshal_binary}
use ssmlib.Session.Incoming.{Env, Incoming, Verdict, go_on, start, run}
use ssmlib.Session.Incoming.Order.{Consecutive}
use ssmlib.Session.Incoming.Settled.{HasSeq}
use ssmlib.Session.Incoming.Promises.{
  Arrived, IsOctets, delivered_in_order, acknowledged_prefix_delivered,
}
use ssmlib.Session.Incoming.Arrival.Delivered.{IsArrived, arrived_delivered}
use ssmlib.Session.Client.{Channels}
use ssmlib.Session.Client.Fifo.{Reach, reached-IsFifo}
use ssmlib.Handler.Copy.{Context, nothing, copy_session_reader_to_writer}
use ssmlib.Handler.Copy.Output.{payloads, copy_output_in_order, copy_output_all}

-- The data messages among the frames are the stream's, in any order, repeated or missing.
abbrev pub IsFrom : Env → Numbered → List (Result Bytes) → Type 0
IsFrom env stream frames =
    (s : Bytes) (msg : AgentMessage)
    → In (ok s) frames
    → unmarshal_binary env.sha256 empty_message s ≡ (msg, done)
    → msg.message_type ≡ output_stream_data
    → HasContent stream msg

Arrived-HasContent :
    (env : Env) (stream : Numbered) (frames : List (Result Bytes)) (ms : List AgentMessage)
    → IsFrom env stream frames
    → All (Arrived env frames) ms
    → All (HasContent stream) ms
Arrived-HasContent env stream frames [] f a = tt
Arrived-HasContent env stream frames (m ∷ ms) f ((s, i, e, t), a) =
    (f s m i e t, Arrived-HasContent env stream frames ms f a)

module _ (env : Env) (ctx : Context) (write : Bytes → Option Error) (stream : Numbered) where
  -- What was delivered, as payloads.
  delivered_payloads :
      (frames : List (Result Bytes))
      → IsFrom env stream frames
      → let ms = (run env frames start).0.delivered in
        payloads (map ok ms) ≡ outputs stream 0 (length ms)
  delivered_payloads frames f =
      let ms = (run env frames start).0.delivered in
      let (c, a, _) = delivered_in_order env frames in
      payloads-outputs stream 0 ms c (Arrived-HasContent env stream frames ms f a)

  delivered_outputs :
      (frames : List (Result Bytes)) (ms : List AgentMessage)
      → IsFrom env stream frames
      → ms ≡ (run env frames start).0.delivered
      → payloads (map ok ms) ≡ outputs stream 0 (length ms)
  delivered_outputs frames ms f same =
      ap (λ l. payloads (map ok l)) same
      ∙ delivered_payloads frames f
      ∙ ap (λ (l : List AgentMessage). outputs stream 0 (length l)) (sym same)

  -- What `Read` returned, as payloads.
  returned_payloads :
      (c : Channels) (failures : List Error)
      → Reach c
      → payloads (map ok c.returned ++ map err failures)
          ++ payloads (map ok c.incoming_data_messages)
        ≡ payloads (map ok c.delivered)
  returned_payloads c failures r =
      ap (λ l. l ++ payloads (map ok c.incoming_data_messages)) (payloads-map c.returned failures)
      ∙ sym (payloads-append c.returned c.incoming_data_messages)
      ∙ ap (λ ms. payloads (map ok ms)) (reached-IsFifo r).read_in_order

  -- The agent numbers its data; frames carry it in any order, repeated or missing. However the
  -- session, its channels and the copy loop go on or end, the writer is handed the output payloads
  -- of the numbers 0, 1, 2, … in this order, each once, up to some point that was delivered.
  pub written_in_order :
      (frames : List (Result Bytes)) (c : Channels) (failures : List Error)
      → IsFrom env stream frames
      → Reach c
      → c.delivered ≡ (run env frames start).0.delivered
      → let reads = map ok c.returned ++ map err failures in
        PrefixOf
          (copy_session_reader_to_writer ctx write reads nothing).0.handed
          (outputs stream 0 (length c.delivered))
  written_in_order frames c failures f r same =
      let reads = map ok c.returned ++ map err failures in
      PrefixOf-trans (copy_session_reader_to_writer ctx write reads nothing).0.handed
        (payloads reads) (outputs stream 0 (length c.delivered))
        (copy_output_in_order ctx write reads)
        (
          payloads (map ok c.incoming_data_messages),
          returned_payloads c failures r ∙ delivered_outputs frames c.delivered f same,
        )

  -- Where `n` messages were delivered, all of them were read, and the loop waits.
  delivered_written :
      (frames : List (Result Bytes)) (st : Incoming) (c : Channels) (n : ℕ)
      → IsFrom env stream frames
      → run env frames start ≡ (st, go_on)
      → n ≤ length st.delivered
      → Reach c
      → c.delivered ≡ st.delivered
      → c.incoming_data_messages ≡ []
      → (copy_session_reader_to_writer ctx write (map ok c.returned) nothing).1 ≡ none
      → PrefixOf
          (outputs stream 0 n)
          (copy_session_reader_to_writer ctx write (map ok c.returned) nothing).0.handed
  delivered_written frames st c n f e many r same empty waits =
      let all_read : c.returned ≡ c.delivered =
        sym (append-nil c.returned)
        ∙ ap (λ l. c.returned ++ l) (sym empty)
        ∙ (reached-IsFifo r).read_in_order in
      let from_frames : c.delivered ≡ (run env frames start).0.delivered =
        same ∙ ap (λ (x : Incoming × Verdict). x.0.delivered) (sym e) in
      let handed =
        copy_output_all ctx write (map ok c.returned) waits
        ∙ ap (λ ms. payloads (map ok ms)) all_read
        ∙ delivered_outputs frames c.delivered f from_frames in
      let enough : n ≤ length c.delivered = rw same many in
      let (rest, begins) = outputs_prefix stream n (length c.delivered) enough in
      (rest, begins ∙ sym handed)

  -- If all sequence numbers below `n` were acknowledged while the session goes on, and everything
  -- delivered was read and the copy loop waits for more, then the writer was handed the output
  -- payloads of all of these numbers, in order. (`n` is an int64.)
  pub acknowledged_written :
      (frames : List (Result Bytes)) (st : Incoming) (c : Channels) (n : ℕ)
      → IsFrom env stream frames
      → All IsOctets frames
      → run env frames start ≡ (st, go_on)
      → n ≤ 2 ^ 63
      → ((q : ℕ) → q < n → HasSeq q st.control)
      → Reach c
      → c.delivered ≡ st.delivered
      → c.incoming_data_messages ≡ []
      → (copy_session_reader_to_writer ctx write (map ok c.returned) nothing).1 ≡ none
      → PrefixOf
          (outputs stream 0 n)
          (copy_session_reader_to_writer ctx write (map ok c.returned) nothing).0.handed
  acknowledged_written frames st c n f octets e small acked r same empty waits =
      delivered_written frames st c n f e
        (acknowledged_prefix_delivered env frames st n octets e small acked) r same empty waits

  -- While the session goes on and at most 50 frames came in, whatever their order and however often
  -- they repeat: if a data message with each of the numbers below `n` was among them, and everything
  -- delivered was read and the copy loop waits for more, then the writer was handed the output
  -- payloads of all of these numbers, in order. (`n` is an int64.)
  pub arrived_written :
      (frames : List (Result Bytes)) (st : Incoming) (c : Channels) (n : ℕ)
      → IsFrom env stream frames
      → All IsOctets frames
      → length frames ≤ 50
      → run env frames start ≡ (st, go_on)
      → n ≤ 2 ^ 63
      → ((q : ℕ) → q < n → IsArrived env frames q)
      → Reach c
      → c.delivered ≡ st.delivered
      → c.incoming_data_messages ≡ []
      → (copy_session_reader_to_writer ctx write (map ok c.returned) nothing).1 ≡ none
      → PrefixOf
          (outputs stream 0 n)
          (copy_session_reader_to_writer ctx write (map ok c.returned) nothing).0.handed
  arrived_written frames st c n f octets few e small arrived r same empty waits =
      delivered_written frames st c n f e
        (arrived_delivered env frames st n octets few e small arrived) r same empty waits
