-- ===== src/Handler/Handshake/Protocol.antt =====
-- What a handshake of handler/handshake.go has exchanged when it succeeds, and when it does.
use ssmlib.Common.{
  ℕ, ◌≡◌, ◌≢◌, refl, ap, sym, ◌∙◌, Bytes, List, [], ◌∷◌, ◌++◌, Option, none, some, All, ◌==◌,
  ==_iff, ==_refl, Bool-cases, ◌↔◌, ◌⊎◌, inl, inr, Option-cases,
}
use ssmlib.Errors.{Error}
use ssmlib.Messages.PayloadType
use ssmlib.Messages.Types.{HandshakeRequestPayload}
use ssmlib.Messages.Message.{AgentMessage}
use ssmlib.Messages.Create.{Result, ok, err, Result-cases, new_handshake_response}
use ssmlib.Handler.Handshake.{
  Peer, Call, client_version, wait_for, await_completion, respond, perform_handshake,
}

-- A message of another payload type, which a loop skips.
abbrev pub IsSkipped : ℕ → Result AgentMessage → Type 0
IsSkipped t (ok msg) = msg.payload_type ≢ t
IsSkipped t (err e) = ⊥

-- The first message of a payload type, behind what a loop skips and before what it leaves.
pub record FirstOf (t : ℕ) (reads : List (Result AgentMessage)) (msg : AgentMessage)
    (left : List (Result AgentMessage)) : Type 0 where
  pub skipped : List (Result AgentMessage)
  pub all_skipped : All (IsSkipped t) skipped
  pub is_type : msg.payload_type ≡ t
  pub splits : reads ≡ skipped ++ (ok msg ∷ left)

wait_for-FirstOf :
    (t : ℕ) (reads : List (Result AgentMessage)) (msg : AgentMessage)
    (left : List (Result AgentMessage))
    → wait_for t reads ≡ some (ok msg, left)
    → FirstOf t reads msg left
unfolding wait_for
wait_for-FirstOf t [] msg left h = cc
wait_for-FirstOf t (err e ∷ reads) msg left h = cc
wait_for-FirstOf t (ok m ∷ reads) msg left h = elim (Bool-cases (m.payload_type == t)) [
  | inl hit ↦
      let same : m ≡ msg = cc (rw hit at h) in
      let same_left : reads ≡ left = cc (rw hit at h) in
      record {
        skipped = [];
        all_skipped = tt;
        is_type =
            ap (λ (x : AgentMessage). x.payload_type) (sym same) ∙ (==_iff m.payload_type t).0 hit;
        splits = cc;
      }
  | inr miss ↦
      let later = wait_for-FirstOf t reads msg left (rw miss at h) in
      record {
        skipped = ok m ∷ later.skipped;
        all_skipped = (λ e. cc ((==_iff m.payload_type t).1 e, miss), later.all_skipped);
        is_type = later.is_type;
        splits = ap (◌∷◌ (ok m)) later.splits;
      }
]

FirstOf-wait_for :
    (t : ℕ) (skipped : List (Result AgentMessage)) (msg : AgentMessage)
    (left : List (Result AgentMessage))
    → All (IsSkipped t) skipped
    → msg.payload_type ≡ t
    → wait_for t (skipped ++ (ok msg ∷ left)) ≡ some (ok msg, left)
unfolding wait_for
FirstOf-wait_for t [] msg left a e = rw (e, ==_refl t)
FirstOf-wait_for t (err x ∷ skipped) msg left a e = absurd a.0
FirstOf-wait_for t (ok m ∷ skipped) msg left a e = elim (Bool-cases (m.payload_type == t)) [
  | inl hit ↦ absurd (a.0 ((==_iff m.payload_type t).0 hit))
  | inr miss ↦ rw miss (FirstOf-wait_for t skipped msg left a.1 e)
]

FirstOf-found :
    {t : ℕ} {reads : List (Result AgentMessage)} {msg : AgentMessage}
    {left : List (Result AgentMessage)}
    → FirstOf t reads msg left
    → wait_for t reads ≡ some (ok msg, left)
FirstOf-found {t} {reads} {msg} {left} f =
    ap (wait_for t) f.splits ∙ FirstOf-wait_for t f.skipped msg left f.all_skipped f.is_type

-- How a loop can end.
Wait-cases :
    (r : Option (Result AgentMessage × List (Result AgentMessage)))
    → (r ≡ none)
      ⊎ (((e : Error) × (left : List (Result AgentMessage)) × (r ≡ some (err e, left)))
          ⊎ ((msg : AgentMessage) × (left : List (Result AgentMessage)) × (r
                ≡ some (ok msg, left))))
Wait-cases none = inl refl
Wait-cases (some (err e, left)) = inr (inl (e, left, refl))
Wait-cases (some (ok msg, left)) = inr (inr (msg, left, refl))

abbrev pub succeeded : Bytes → List AgentMessage → List (Result AgentMessage) → Call
succeeded v sent left = record { returned = some (ok v); written = sent; left = left }

await_sound :
    (version v : Bytes) (ws sent : List AgentMessage) (reads left : List (Result AgentMessage))
    → await_completion version ws reads ≡ succeeded v sent left
    → (version ≡ v)
      × (ws ≡ sent)
      × ((msg : AgentMessage) × FirstOf PayloadType.handshake_complete reads msg left)
unfolding await_completion
await_sound version v ws sent reads left h =
    elim (Wait-cases (wait_for PayloadType.handshake_complete reads)) [
      | inl e ↦ cc (ap (λ (c : Call). c.returned) (rw (e, await_completion) at h))
      | inr (inl (x, l, e)) ↦ cc (ap (λ (c : Call). c.returned) (rw (e, await_completion) at h))
      | inr (inr (msg, l, e)) ↦
          let h' : succeeded version ws l ≡ succeeded v sent left = rw (e, await_completion) at h in
          let same_left : l ≡ left = ap (λ (c : Call). c.left) h' in
          (
            cc (ap (λ (c : Call). c.returned) h'),
            ap (λ (c : Call). c.written) h',
            (
              msg,
              wait_for-FirstOf PayloadType.handshake_complete reads msg left (e ∙ rw same_left),
            ),
          )
    ]

-- What is exchanged in a handshake that succeeds.
pub record Exchange (peer : Peer) (reads : List (Result AgentMessage)) (v : Bytes)
    (sent : List AgentMessage) (left : List (Result AgentMessage)) : Type 0 where
  pub request_message : AgentMessage
  pub request : HandshakeRequestPayload
  pub resp : AgentMessage
  pub completion : AgentMessage
  pub between : List (Result AgentMessage)
  pub asked : FirstOf PayloadType.handshake_request reads request_message between
  pub understood : peer.unmarshal request_message.payload ≡ ok request
  pub answered :
      new_handshake_response peer.marshal peer.now peer.new_uuid client_version
        request.requested_client_actions
      ≡ ok resp
  pub accepted : peer.write resp ≡ none
  pub completed : FirstOf PayloadType.handshake_complete between completion left
  pub version : request.agent_version ≡ v
  pub wrote : resp ∷ [] ≡ sent

respond_sound :
    (peer : Peer) (request : HandshakeRequestPayload) (reads left : List (Result AgentMessage))
    (v : Bytes) (sent : List AgentMessage)
    → respond peer request reads ≡ succeeded v sent left
    → (resp : AgentMessage) × (new_handshake_response peer.marshal peer.now peer.new_uuid
          client_version request.requested_client_actions
        ≡ ok resp)
      × (peer.write resp ≡ none)
      × (await_completion request.agent_version (resp ∷ []) reads ≡ succeeded v sent left)
unfolding respond
respond_sound peer request reads left v sent h =
    elim (Result-cases (
      new_handshake_response peer.marshal peer.now peer.new_uuid client_version
        request.requested_client_actions)) [
          | inr (x, e) ↦ cc (ap (λ (c : Call). c.returned) (rw (e, respond) at h))
          | inl (resp, e) ↦ elim (Option-cases (peer.write resp)) [
            | inr (x, w) ↦ cc (ap (λ (c : Call). c.returned) (rw (e, w, respond) at h))
            | inl w ↦ (resp, e, w, rw (e, w, respond) at h)
          ]
        ]

handshake_sound :
    (peer : Peer) (reads left : List (Result AgentMessage)) (v : Bytes) (sent : List AgentMessage)
    → perform_handshake peer reads ≡ succeeded v sent left
    → Exchange peer reads v sent left
unfolding perform_handshake
handshake_sound peer reads left v sent h =
    elim (Wait-cases (wait_for PayloadType.handshake_request reads)) [
      | inl e ↦ cc (ap (λ (c : Call). c.returned) (rw (e, perform_handshake) at h))
      | inr (inl (x, l, e)) ↦ cc (ap (λ (c : Call). c.returned) (rw (e, perform_handshake) at h))
      | inr (inr (msg, l, e)) ↦ elim (Result-cases (peer.unmarshal msg.payload)) [
        | inr (x, u) ↦ cc (ap (λ (c : Call). c.returned) (rw (e, u, perform_handshake) at h))
        | inl (request, u) ↦
            let (resp, answered, accepted, h') =
              respond_sound peer request l left v sent (rw (e, u, perform_handshake) at h) in
            let (version, wrote, (completion, completed)) =
              await_sound request.agent_version v (resp ∷ []) sent l left h' in
            record {
              request_message = msg;
              request = request;
              resp = resp;
              completion = completion;
              between = l;
              asked = wait_for-FirstOf PayloadType.handshake_request reads msg l e;
              understood = u;
              answered = answered;
              accepted = accepted;
              completed = completed;
              version = version;
              wrote = wrote;
            }
      ]
    ]

handshake_complete :
    (peer : Peer) (reads left : List (Result AgentMessage)) (v : Bytes) (sent : List AgentMessage)
    → Exchange peer reads v sent left
    → perform_handshake peer reads ≡ succeeded v sent left
unfolding perform_handshake respond await_completion
handshake_complete peer reads left v sent x = rw (
  FirstOf-found x.asked,
  x.understood,
  x.answered,
  x.accepted,
  FirstOf-found x.completed,
  x.version,
  x.wrote,
  perform_handshake,
  respond,
  await_completion,
)

-- A handshake returns the version `v`, having written `sent` and leaving `left` unread, exactly
-- when the first handshake request among what was read carries a request of that version, the one
-- message written is the response to it and is accepted, and `left` is what follows the first
-- completion message behind the request; all that was read before it has other payload types, and
-- no read failed.
pub handshake_succeeds_iff :
    (peer : Peer) (reads left : List (Result AgentMessage)) (v : Bytes) (sent : List AgentMessage)
    → (perform_handshake peer reads ≡ succeeded v sent left) ↔ Exchange peer reads v sent left
handshake_succeeds_iff peer reads left v sent =
    (handshake_sound peer reads left v sent, handshake_complete peer reads left v sent)
