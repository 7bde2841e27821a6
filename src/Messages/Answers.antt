-- ===== src/Messages/Answers.antt =====
-- `NewHandshakeResponse` of messages/message.go: what it answers to the requested actions.
use ssmlib.Common.{◌≡◌, refl, Bytes, List, [], ◌∷◌, ◌++◌, All, ◌↔◌, if_rule, Bool-cases, inl, inr}
use mathlib.Core.List.{map, flat_map}
use mathlib.Core.Path.{ap₂}
use ssmlib.Messages.Types.{RequestedClientAction, ProcessedClientAction, session_type}
use ssmlib.Messages.Text.{bytes_eq, bytes_eq_iff}
use ssmlib.Messages.Create.{handshake_payload, process_action, process_errors}

process_action-action_type :
    (a : RequestedClientAction) → (process_action a).action_type ≡ a.action_type
unfolding process_action
process_action-action_type a =
    if_rule (λ (p : ProcessedClientAction). p.action_type ≡ a.action_type)
      (bytes_eq a.action_type session_type) (λ _. refl) (λ _. refl)

response_answers_each :
    (version : Bytes) (actions : List RequestedClientAction)
    → map
        (λ (p : ProcessedClientAction). p.action_type)
        (handshake_payload version actions).processed_client_actions
      ≡ map (λ (a : RequestedClientAction). a.action_type) actions
unfolding handshake_payload
response_answers_each version [] = refl
response_answers_each version (a ∷ actions) =
    ap₂ ◌∷◌ (process_action-action_type a) (response_answers_each version actions)

errors_one :
    (a : RequestedClientAction) (rest : List Bytes)
    → ((process_errors a ++ rest) ≡ []) ↔ ((a.action_type ≡ session_type) × (rest ≡ []))
unfolding process_errors
errors_one a rest = elim (Bool-cases (bytes_eq a.action_type session_type)) [
  | inl same ↦ (
    λ h. ((bytes_eq_iff a.action_type session_type).0 same, rw (same, process_errors) at h),
    λ (_, e). rw (same, process_errors) e,
  )
  | inr other ↦ (
    λ h. cc (rw (other, process_errors) at h),
    λ (e, _). cc ((bytes_eq_iff a.action_type session_type).1 e, other),
  )
]

response_errors_iff :
    (version : Bytes) (actions : List RequestedClientAction)
    → ((handshake_payload version actions).errors ≡ [])
      ↔ All (λ (a : RequestedClientAction). a.action_type ≡ session_type) actions
unfolding handshake_payload flat_map
response_errors_iff version [] = (λ _. tt, λ _. refl)
response_errors_iff version (a ∷ actions) =
    let later = response_errors_iff version actions in
    let first = errors_one a (flat_map process_errors actions) in
    (λ h. let (e, rest) = first.0 h in (e, later.0 rest), λ (e, all). first.1 (e, later.1 all))

-- The handshake response has an entry for each requested action, in order and with its type, and
-- it lists no error exactly when every requested action is of the session type.
pub response_answers :
    (version : Bytes) (actions : List RequestedClientAction)
    → let response = handshake_payload version actions in
      (map (λ (p : ProcessedClientAction). p.action_type) response.processed_client_actions
        ≡ map (λ (a : RequestedClientAction). a.action_type) actions)
      × ((response.errors ≡ [])
          ↔ All (λ (a : RequestedClientAction). a.action_type ≡ session_type) actions)
response_answers version actions =
    (response_answers_each version actions, response_errors_iff version actions)
