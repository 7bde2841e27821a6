-- ===== src/Session/Client/Fifo.antt =====
-- The channels of a `Session` of session.go keep the order and their bounds.
use ssmlib.Common.{
  ℕ, ◌≤◌, ◌≡◌, ◌⊎◌, refl, sym, ap, ◌∙◌, Bytes, List, [], ◌∷◌, ◌++◌, append_assoc, Option, some,
  length, length-append, ltb, ltb→lt, Bool-cases, Option-cases, inl, inr, arith,
}
use ssmlib.Errors.{Error}
use ssmlib.Messages.Wire.{Time}
use ssmlib.Messages.Message.{AgentMessage}
use ssmlib.Messages.Create.{Result, new_terminate_session_message}
use ssmlib.Session.Client.{
  Channels, init, Branch, channel, ctx_done, errctx_done, send, read, write, stop, put_incoming,
  put_control, take_outgoing, take_control, put_ack, take_ack,
}

-- The calls of clients and of the loops that do not block, in any order.
pub data Reach : Channels → Type 0 where
  made : Reach init
  read_call :
      {c c' : Channels} (b : Branch) {r : Result AgentMessage}
      → Reach c
      → read b c ≡ some (c', r)
      → Reach c'
  write_call :
      {c c' : Channels} (m : AgentMessage) (b : Branch) {r : Option Error}
      → Reach c
      → write m b c ≡ some (c', r)
      → Reach c'
  stop_call : {c : Channels} (now : Time) (id : Bytes) → Reach c → Reach (stop now id c)
  put_incoming_call :
      {c c' : Channels} (m : AgentMessage) → Reach c → put_incoming m c ≡ some c' → Reach c'
  put_control_call :
      {c c' : Channels} (m : AgentMessage) → Reach c → put_control m c ≡ some c' → Reach c'
  take_outgoing_call : {c c' : Channels} → Reach c → take_outgoing c ≡ some c' → Reach c'
  take_control_call : {c c' : Channels} → Reach c → take_control c ≡ some c' → Reach c'
  put_ack_call : {c c' : Channels} (n : ℕ) → Reach c → put_ack n c ≡ some c' → Reach c'
  take_ack_call : {c c' : Channels} {n : ℕ} → Reach c → take_ack c ≡ some (n, c') → Reach c'

pub record IsFifo (c : Channels) : Type 0 where
  pub control_bounded : length c.outgoing_control_messages ≤ 20
  pub outgoing_bounded : length c.outgoing_messages ≤ 20
  pub ack_bounded : length c.ack_received ≤ 20
  pub incoming_bounded : length c.incoming_data_messages ≤ 20
  pub written_in_order : c.taken ++ c.outgoing_messages ≡ c.accepted
  pub read_in_order : c.returned ++ c.incoming_data_messages ≡ c.delivered

module _ {A : Type 0} where
  -- What a send leaves.
  send_result :
      (a : A) (queue queue' : List A)
      → send a queue ≡ some queue'
      → (queue' ≡ queue ++ (a ∷ [])) × (length queue' ≤ 20)
  unfolding send
  send_result a queue queue' h = elim (Bool-cases (ltb (length queue) 20)) [
    | inl room ↦
        let same : queue ++ (a ∷ []) ≡ queue' = cc (rw room at h) in
        (
          sym same,
          rw (← same) (omega (arith, length-append queue (a ∷ []), ltb→lt (length queue) 20 room)),
        )
    | inr full ↦ cc (rw full at h)
  ]

  receive-cases : (queue : List A) → (queue ≡ []) ⊎ ((a : A) × (rest : List A) × (queue ≡ a ∷ rest))
  receive-cases [] = inl refl
  receive-cases (a ∷ rest) = inr (a, rest, refl)

  -- What came out and what is in, around a receive and a send.
  move_out :
      (out : List A) (a : A) (rest all : List A)
      → out ++ (a ∷ rest) ≡ all
      → (out ++ (a ∷ [])) ++ rest ≡ all
  move_out out a rest all h = append_assoc out (a ∷ []) rest ∙ h

  move_in :
      (out queue queue' all : List A) (a : A)
      → queue' ≡ queue ++ (a ∷ [])
      → out ++ queue ≡ all
      → out ++ queue' ≡ all ++ (a ∷ [])
  move_in out queue queue' all a e h =
      ap (◌++◌ out) e ∙ (sym (append_assoc out queue (a ∷ [])) ∙ ap (λ l. l ++ (a ∷ [])) h)

read-IsFifo :
    (b : Branch) (c c' : Channels) (r : Result AgentMessage)
    → IsFifo c
    → read b c ≡ some (c', r)
    → IsFifo c'
unfolding read
read-IsFifo channel c c' r v h = elim (receive-cases c.incoming_data_messages) [
  | inl e ↦ ground (arith, e)
  | inr (m, rest, e) ↦
      ground
        (arith, e, move_out c.returned m rest c.delivered (rw (← e) v.read_in_order), ap length e)
]
read-IsFifo (ctx_done e) c c' r v h = ground arith
read-IsFifo (errctx_done e) c c' r v h = ground arith

write-IsFifo :
    (m : AgentMessage) (b : Branch) (c c' : Channels) (r : Option Error)
    → IsFifo c
    → write m b c ≡ some (c', r)
    → IsFifo c'
unfolding write
write-IsFifo m channel c c' r v h = elim (Option-cases (send m c.outgoing_messages)) [
  | inl e ↦ ground (arith, e)
  | inr (queue, e) ↦
      let (tail, bound) = send_result m c.outgoing_messages queue e in
      ground
        (arith, e, move_in c.taken c.outgoing_messages queue c.accepted m tail v.written_in_order)
]
write-IsFifo m (ctx_done e) c c' r v h = ground arith
write-IsFifo m (errctx_done e) c c' r v h = ground arith

stop-IsFifo : (now : Time) (id : Bytes) (c : Channels) → IsFifo c → IsFifo (stop now id c)
unfolding stop
stop-IsFifo now id c v =
    elim (Option-cases (send (new_terminate_session_message now id) c.outgoing_control_messages)) [
      | inl e ↦ rw (e, stop) v
      | inr (queue, e) ↦
          let (tail, bound) = send_result _ c.outgoing_control_messages queue e in
          rw (e, stop)
            (record {
              control_bounded = bound;
              outgoing_bounded = v.outgoing_bounded;
              ack_bounded = v.ack_bounded;
              incoming_bounded = v.incoming_bounded;
              written_in_order = v.written_in_order;
              read_in_order = v.read_in_order;
            })
    ]

put_incoming-IsFifo :
    (m : AgentMessage) (c c' : Channels) → IsFifo c → put_incoming m c ≡ some c' → IsFifo c'
unfolding put_incoming
put_incoming-IsFifo m c c' v h = elim (Option-cases (send m c.incoming_data_messages)) [
  | inl e ↦ ground (arith, e)
  | inr (queue, e) ↦
      let (tail, bound) = send_result m c.incoming_data_messages queue e in
      ground (
        arith,
        e,
        move_in c.returned c.incoming_data_messages queue c.delivered m tail v.read_in_order,
      )
]

put_control-IsFifo :
    (m : AgentMessage) (c c' : Channels) → IsFifo c → put_control m c ≡ some c' → IsFifo c'
unfolding put_control
put_control-IsFifo m c c' v h = elim (Option-cases (send m c.outgoing_control_messages)) [
  | inl e ↦ ground (arith, e)
  | inr (queue, e) ↦
      let (tail, bound) = send_result m c.outgoing_control_messages queue e in ground (arith, e)
]

take_outgoing-IsFifo : (c c' : Channels) → IsFifo c → take_outgoing c ≡ some c' → IsFifo c'
unfolding take_outgoing
take_outgoing-IsFifo c c' v h = elim (receive-cases c.outgoing_messages) [
  | inl e ↦ ground (arith, e)
  | inr (m, rest, e) ↦
      ground
        (arith, e, move_out c.taken m rest c.accepted (rw (← e) v.written_in_order), ap length e)
]

take_control-IsFifo : (c c' : Channels) → IsFifo c → take_control c ≡ some c' → IsFifo c'
unfolding take_control
take_control-IsFifo c c' v h = elim (receive-cases c.outgoing_control_messages) [
  | inl e ↦ ground (arith, e)
  | inr (m, rest, e) ↦ ground (arith, e, ap length e)
]

put_ack-IsFifo : (n : ℕ) (c c' : Channels) → IsFifo c → put_ack n c ≡ some c' → IsFifo c'
unfolding put_ack
put_ack-IsFifo n c c' v h = elim (Option-cases (send n c.ack_received)) [
  | inl e ↦ ground (arith, e)
  | inr (queue, e) ↦ let (tail, bound) = send_result n c.ack_received queue e in ground (arith, e)
]

take_ack-IsFifo : (n : ℕ) (c c' : Channels) → IsFifo c → take_ack c ≡ some (n, c') → IsFifo c'
unfolding take_ack
take_ack-IsFifo n c c' v h = elim (receive-cases c.ack_received) [
  | inl e ↦ ground (arith, e)
  | inr (m, rest, e) ↦ ground (arith, e, ap length e)
]

-- Whatever is called in whatever order.
pub reached-IsFifo : {c : Channels} → Reach c → IsFifo c
reached-IsFifo made = record {
  control_bounded = omega arith;
  outgoing_bounded = omega arith;
  ack_bounded = omega arith;
  incoming_bounded = omega arith;
  written_in_order = refl;
  read_in_order = refl;
}
reached-IsFifo (read_call {c} {c'} b {r} h e) = read-IsFifo b c c' r (reached-IsFifo h) e
reached-IsFifo (write_call {c} {c'} m b {r} h e) = write-IsFifo m b c c' r (reached-IsFifo h) e
reached-IsFifo (stop_call {c} now id h) = stop-IsFifo now id c (reached-IsFifo h)
reached-IsFifo (put_incoming_call {c} {c'} m h e) = put_incoming-IsFifo m c c' (reached-IsFifo h) e
reached-IsFifo (put_control_call {c} {c'} m h e) = put_control-IsFifo m c c' (reached-IsFifo h) e
reached-IsFifo (take_outgoing_call {c} {c'} h e) = take_outgoing-IsFifo c c' (reached-IsFifo h) e
reached-IsFifo (take_control_call {c} {c'} h e) = take_control-IsFifo c c' (reached-IsFifo h) e
reached-IsFifo (put_ack_call {c} {c'} n h e) = put_ack-IsFifo n c c' (reached-IsFifo h) e
reached-IsFifo (take_ack_call {c} {c'} {n} h e) = take_ack-IsFifo n c c' (reached-IsFifo h) e
