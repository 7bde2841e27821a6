-- ===== src/Handler/Copy/Input.antt =====
-- What `CopyReaderToSessionWriter` of handler/misc.go sends to the session.
use ssmlib.Common.{
  ℕ, suc, ◌≡◌, refl, sym, ap, ◌∙◌, Bytes, false, List, [], ◌∷◌, ◌++◌, append_assoc, append-nil,
  Option, none, some, length, PrefixOf, ltb, lt→ltb, if_rule, Option-cases, inl, inr, arith,
}
use mathlib.Core.List.{map, flatten}
use mathlib.Core.Option
use ssmlib.Errors.{Error, write_session_message, read_data}
use ssmlib.Messages.Wire.{Time}
use ssmlib.Messages.Message.{AgentMessage}
use ssmlib.Messages.Create.{new_stream_message}
use ssmlib.Handler.Copy.{
  Context, Copied, ReadResult, nothing, consult, write_chunk, copy_reader_to_session_writer,
}

-- The bytes up to the first read that gives an error, those of this read too.
abbrev pub input : List ReadResult → Bytes
input [] = []
input (r ∷ reads) = r.content ++ elim r.read_error [ some e ↦ [] | none ↦ input reads ]

-- The error that the loop returns for it.
abbrev pub first_error : List ReadResult → Option Error
first_error [] = none
first_error (r ∷ reads) = elim r.read_error [
  | some e ↦ some (read_data e)
  | none ↦ first_error reads
]

-- The bytes that were sent.
unfoldable pub sent : Copied AgentMessage → Bytes
unfolding flatten
sent st = flatten (map (λ (m : AgentMessage). m.payload) st.handed)

payloads_snoc :
    (ms : List AgentMessage) (m : AgentMessage)
    → flatten (map (λ (x : AgentMessage). x.payload) (ms ++ (m ∷ [])))
      ≡ flatten (map (λ (x : AgentMessage). x.payload) ms) ++ m.payload
unfolding flatten
payloads_snoc [] m = append-nil m.payload
payloads_snoc (x ∷ ms) m =
    ap (◌++◌ x.payload) (payloads_snoc ms m)
    ∙ sym (append_assoc x.payload (flatten (map (λ (y : AgentMessage). y.payload) ms)) m.payload)

module _ (ctx : Context) (write : AgentMessage → Option Error) (now : ℕ → Time)
    (new_uuid : ℕ → Bytes) where
  -- An empty chunk sends nothing, which is the same bytes.
  write_chunk-sent :
      (content : Bytes) (st : Copied AgentMessage)
      → sent (write_chunk ctx write now new_uuid content st).0 ≡ sent st ++ content
  unfolding write_chunk sent flatten new_stream_message
  write_chunk-sent [] st = sym (append-nil (sent st))
  write_chunk-sent (b ∷ content) st = rw (lt→ltb 0 (length (b ∷ content)) (omega arith)) (
      payloads_snoc st.handed
        (new_stream_message (now (length st.handed)) (new_uuid (length st.handed)) (b ∷ content)))

  -- The bytes of a chunk stand between what was sent and the rest of the input.
  chunk_between :
      (content tail : Bytes) (st : Copied AgentMessage)
      → sent (write_chunk ctx write now new_uuid content st).0 ++ tail
        ≡ sent st ++ (content ++ tail)
  chunk_between content tail st =
      ap (λ s. s ++ tail) (write_chunk-sent content st) ∙ append_assoc (sent st) content tail

  -- What was sent begins with what was sent before and continues the input.
  copy-PrefixOf :
      (reads : List ReadResult) (st : Copied AgentMessage)
      → PrefixOf
          (sent (copy_reader_to_session_writer ctx write now new_uuid reads st).0)
          (sent st ++ input reads)
  unfolding copy_reader_to_session_writer sent
  copy-PrefixOf [] st =
      if_rule (λ (r : Copied AgentMessage × Option Error). PrefixOf (sent r.0) (sent st ++ []))
        (ctx.is_done st.consulted) (λ _. ([], refl))
        (λ _.
          if_rule (λ (r : Copied AgentMessage × Option Error). PrefixOf (sent r.0) (sent st ++ []))
            (ctx.is_done (suc st.consulted)) (λ _. ([], refl)) (λ _. ([], refl)))
  copy-PrefixOf (r ∷ reads) st =
      if_rule
        (λ (q : Copied AgentMessage × Option Error).
          PrefixOf (sent q.0) (sent st ++ input (r ∷ reads)))
        (ctx.is_done st.consulted) (λ _. (input (r ∷ reads), refl))
        (λ _.
          if_rule
            (λ (q : Copied AgentMessage × Option Error).
              PrefixOf (sent q.0) (sent st ++ input (r ∷ reads)))
            (ctx.is_done (suc st.consulted)) (λ _. (input (r ∷ reads), refl))
            (λ _.
              after (write_chunk ctx write now new_uuid r.content (consult (consult st))).1
                r.read_error (copy-PrefixOf reads _)))
    where
      st' : Copied AgentMessage
      st' = (write_chunk ctx write now new_uuid r.content (consult (consult st))).0

      after :
          (failure read_error : Option Error)
          → PrefixOf
              (sent (copy_reader_to_session_writer ctx write now new_uuid reads st').0)
              (sent st' ++ input reads)
          → let tail : Bytes = elim read_error [ some e ↦ [] | none ↦ input reads ] in
            let q : Copied AgentMessage × Option Error = elim failure [
              | some e ↦ (st', some e)
              | none ↦ elim read_error [
                | some e ↦ (st', some (read_data e))
                | none ↦ copy_reader_to_session_writer ctx write now new_uuid reads st'
              ]
            ] in
            PrefixOf (sent q.0) (sent st ++ (r.content ++ tail))
      after (some e) (some x) c = ([], chunk_between r.content [] (consult (consult st)))
      after (some e) none c =
          (input reads, chunk_between r.content (input reads) (consult (consult st)))
      after none (some e) c = ([], chunk_between r.content [] (consult (consult st)))
      after none none c = (c.0, c.1 ∙ chunk_between r.content (input reads) (consult (consult st)))

  -- Whatever the reader gives, whenever the context is done and whatever the session's `Write`
  -- answers, the bytes sent to the session are the bytes read, in order, up to some point, and
  -- none behind the first error of the reader.
  pub copy_input_in_order :
      (reads : List ReadResult)
      → PrefixOf
          (sent (copy_reader_to_session_writer ctx write now new_uuid reads nothing).0)
          (input reads)
  unfolding sent flatten
  copy_input_in_order reads = copy-PrefixOf reads nothing

  write_chunk_accepted :
      (content : Bytes) (st : Copied AgentMessage)
      → ((m : AgentMessage) → write m ≡ none)
      → (write_chunk ctx write now new_uuid content st).1 ≡ none
  unfolding write_chunk new_stream_message
  write_chunk_accepted content st accepts =
      if_rule (λ (q : Copied AgentMessage × Option Error). q.1 ≡ none) (ltb 0 (length content))
        (λ _. ap (Option.map write_session_message) (accepts _)) (λ _. refl)

  copy-all :
      (reads : List ReadResult) (st : Copied AgentMessage)
      → ((n : ℕ) → ctx.is_done n ≡ false)
      → ((m : AgentMessage) → write m ≡ none)
      → let r = copy_reader_to_session_writer ctx write now new_uuid reads st in
        (sent r.0 ≡ sent st ++ input reads) × (r.1 ≡ first_error reads)
  unfolding copy_reader_to_session_writer sent
  copy-all [] st never accepts =
      rw (never st.consulted, never (suc st.consulted)) (sym (append-nil (sent st)), refl)
  copy-all (r ∷ reads) st never accepts =
      let st' = (write_chunk ctx write now new_uuid r.content (consult (consult st))).0 in
      let rest = copy-all reads st' never accepts in
      elim (Option-cases r.read_error) [
        | inl e ↦
            rw
              (
                never st.consulted,
                never (suc st.consulted),
                write_chunk_accepted r.content (consult (consult st)) accepts,
                e,
              )
              (rest.0 ∙ chunk_between r.content (input reads) (consult (consult st)), rest.1)
        | inr (x, e) ↦
            rw
              (
                never st.consulted,
                never (suc st.consulted),
                write_chunk_accepted r.content (consult (consult st)) accepts,
                e,
              )
              (
                sym (append-nil (sent st')) ∙ chunk_between r.content [] (consult (consult st)),
                refl,
              )
      ]

  -- While the context is never done and the session accepts every message, all of the bytes up to
  -- the first error of the reader are sent, those that came with it too, and the loop returns that
  -- error, or waits if there is none.
  pub copy_input_all :
      (reads : List ReadResult)
      → ((n : ℕ) → ctx.is_done n ≡ false)
      → ((m : AgentMessage) → write m ≡ none)
      → let r = copy_reader_to_session_writer ctx write now new_uuid reads nothing in
        (sent r.0 ≡ input reads) × (r.1 ≡ first_error reads)
  unfolding sent flatten
  copy_input_all reads never accepts = copy-all reads nothing never accepts
