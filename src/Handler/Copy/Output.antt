-- ===== src/Handler/Copy/Output.antt =====
-- What `CopySessionReaderToWriter` of handler/misc.go hands to the writer.
use ssmlib.Common.{
  suc, ◌≡◌, refl, sym, ◌∙◌, Bytes, List, [], ◌∷◌, ◌++◌, append_assoc, append-nil, Option, none,
  some, PrefixOf, ◌==◌, if◌then◌else◌, if_rule, Bool-cases, inl, inr,
}
use ssmlib.Errors.{Error, write_data}
use ssmlib.Messages.PayloadType
use ssmlib.Messages.Message.{AgentMessage}
use ssmlib.Messages.Create.{Result, ok, err}
use ssmlib.Handler.Copy.{
  Context, Copied, nothing, consult, hand, write_payload, copy_session_reader_to_writer,
}

-- The payloads of the output messages before the first failed read.
abbrev pub payloads : List (Result AgentMessage) → List Bytes
payloads [] = []
payloads (err e ∷ reads) = []
payloads (ok msg ∷ reads) =
    if msg.payload_type == PayloadType.output then msg.payload ∷ payloads reads else payloads reads

module _ (ctx : Context) (write : Bytes → Option Error) where
  -- A round leaves what was handed, or adds the payload; it adds it where nothing failed.
  data Round (payload : Bytes) (st : Copied Bytes) : Copied Bytes × Option Error → Type 0 where
    gave_up : {e : Error} → Round payload st (consult st, some e)
    failed_after : {e : Error} → Round payload st (consult (hand payload st), some e)
    went_on : Round payload st (consult (hand payload st), none)

  write_payload-Round :
      (payload : Bytes) (st : Copied Bytes) → Round payload st (write_payload ctx write payload st)
  unfolding write_payload
  write_payload-Round payload st =
      if_rule (Round payload st) (ctx.is_done st.consulted) (λ _. gave_up)
        (λ _.
          if_rule (Round payload st) (ctx.is_done (suc st.consulted)) (λ _. failed_after)
            (λ _. answered (write payload)))
    where
      answered :
          (r : Option Error)
          → Round payload st (elim r [
            | none ↦ (consult (hand payload st), none)
            | some e ↦ (consult (hand payload st), some (write_data e))
          ])
      answered none = went_on
      answered (some e) = failed_after

  -- `Copies all st r`: what `r` has handed beyond `st` begins `all`, and is all of it where the
  -- loop still waits.
  record Copies (all : List Bytes) (st : Copied Bytes) (r : Copied Bytes × Option Error)
      : Type 0 where
    prefix : PrefixOf r.0.handed (st.handed ++ all)
    whole : r.1 ≡ none → r.0.handed ≡ st.handed ++ all

  copy-Copies :
      (reads : List (Result AgentMessage)) (st : Copied Bytes)
      → Copies (payloads reads) st (copy_session_reader_to_writer ctx write reads st)
  unfolding copy_session_reader_to_writer
  copy-Copies [] st = record { prefix = ([], refl); whole = λ _. sym (append-nil st.handed) }
  copy-Copies (err e ∷ reads) st = record { prefix = ([], refl); whole = λ h. cc }
  copy-Copies (ok msg ∷ reads) st = elim (Bool-cases (msg.payload_type == PayloadType.output)) [
    | inr other ↦ rw (other, copy_session_reader_to_writer) (copy-Copies reads st)
    | inl output ↦
        rw (output, copy_session_reader_to_writer)
          (after (write_payload-Round msg.payload st) (copy-Copies reads _))
  ]
    where
      after :
          {r : Copied Bytes × Option Error}
          → Round msg.payload st r
          → Copies (payloads reads) r.0 (copy_session_reader_to_writer ctx write reads r.0)
          → Copies (msg.payload ∷ payloads reads) st (elim r.1 [
            | some e ↦ (r.0, some e)
            | none ↦ copy_session_reader_to_writer ctx write reads r.0
          ])
      after gave_up c = record { prefix = (msg.payload ∷ payloads reads, refl); whole = λ h. cc }
      after failed_after c = record {
        prefix = (payloads reads, append_assoc st.handed (msg.payload ∷ []) (payloads reads));
        whole = λ h. cc;
      }
      after went_on c = record {
        prefix =
            (c.prefix.0, c.prefix.1 ∙ append_assoc st.handed (msg.payload ∷ []) (payloads reads));
        whole = λ h. c.whole h ∙ append_assoc st.handed (msg.payload ∷ []) (payloads reads);
      }

  -- Whatever is read, and whenever the context is done, the writer is handed the payloads of the
  -- output messages before the first failed read in their order, with none left out or repeated,
  -- up to some point.
  pub copy_output_in_order :
      (reads : List (Result AgentMessage))
      → PrefixOf (copy_session_reader_to_writer ctx write reads nothing).0.handed (payloads reads)
  copy_output_in_order reads = (copy-Copies reads nothing).prefix

  -- While the loop waits for the next message, the writer was handed all of them.
  pub copy_output_all :
      (reads : List (Result AgentMessage))
      → (copy_session_reader_to_writer ctx write reads nothing).1 ≡ none
      → (copy_session_reader_to_writer ctx write reads nothing).0.handed ≡ payloads reads
  copy_output_all reads h = (copy-Copies reads nothing).whole h
