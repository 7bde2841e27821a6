-- ===== src/Handler/MuxPortForward/Starting.antt =====
-- Which agents `Start` of handler/muxPortForward.go accepts.
use ssmlib.Common.{
  ◌≡◌, ◌↔◌, refl, ap, sym, ◌∙◌, Bytes, Bool, true, false, not, List, [], ◌∷◌, Option, none, some,
  if◌then◌else◌, Bool-cases, Option-cases, inl, inr,
}
use ssmlib.Common.Int.{ℤ, pos}
use ssmlib.Errors.{Error, remote_version_not_supported, create_smux_client_failed}
use ssmlib.Messages.Message.{AgentMessage}
use ssmlib.Messages.Create.{Result, ok}
use ssmlib.Version.{split, atoi, supports_version}
use ssmlib.Version.Order.{Reads, LexLe, supports_version_iff}
use ssmlib.Handler.Handshake.{Peer, Call, perform_handshake}
use ssmlib.Handler.Handshake.Protocol.{Exchange, handshake_succeeds_iff}
use ssmlib.Handler.MuxPortForward.{
  mux_supported, smux_keep_alive_supported, Startup, failed, started, start,
}

mux_supported-Reads : Reads (split mux_supported) (pos 3 ∷ pos 0 ∷ pos 196 ∷ pos 0 ∷ [])
unfolding split atoi
mux_supported-Reads =
    Reads.cons refl (Reads.cons refl (Reads.cons refl (Reads.cons refl Reads.nil)))

keep_alive-Reads : Reads (split smux_keep_alive_supported) (pos 3 ∷ pos 1 ∷ pos 1511 ∷ pos 0 ∷ [])
unfolding split atoi
keep_alive-Reads = Reads.cons refl (Reads.cons refl (Reads.cons refl (Reads.cons refl Reads.nil)))

-- What follows the tests of the two versions.
abbrev decide : (Bool → Option Error) → Bool → Bool → Startup
decide smux_client a b =
    if not a
    then failed remote_version_not_supported
    else elim (smux_client b) [ some e ↦ failed (create_smux_client_failed e) | none ↦ started b ]

decided :
    (smux_client : Bool → Option Error) (a b disabled : Bool) {P Q : Type 0}
    → (a ≡ true) ↔ P
    → (b ≡ true) ↔ Q
    → (decide smux_client a b ≡ started disabled)
      ↔ (P × (smux_client disabled ≡ none) × ((disabled ≡ true) ↔ Q))
decided smux_client false b disabled p q = (λ h. cc, λ (x, _, _). cc (p.1 x))
decided smux_client true b disabled {P} {Q} p q = elim (Option-cases (smux_client b)) [
  | inr (e, m) ↦ rw m (λ h. cc, λ (x, fine, i). refuse e m fine (same i))
  | inl m ↦ rw m (
    λ h. let e : b ≡ disabled = cc in (p.0 refl, rw (← e) m, rw (← e) q),
    λ (x, fine, i). ap started (same i),
  )
]
  where
    same : ((disabled ≡ true) ↔ Q) → b ≡ disabled
    same i = elim (Bool-cases b) [
      | inl t ↦ t ∙ sym (i.1 (q.0 t))
      | inr f ↦ elim (Bool-cases disabled) [ inl d ↦ cc (q.1 (i.0 d)) | inr d ↦ f ∙ sym d ]
    ]

    refuse :
        (e : Error)
        → smux_client b ≡ some e
        → smux_client disabled ≡ none
        → b ≡ disabled
        → failed (create_smux_client_failed e) ≡ started disabled
    refuse e m fine d = cc

-- After a handshake with an agent whose version is the integers `ys`, `Start` comes to its first
-- goroutine, with the keep-alive disabled or not, exactly when the version is at least 3.0.196.0,
-- `smux.Client` succeeds with this setting, and the setting says whether the version is at least
-- 3.1.1511.0.
pub mux_starts_iff :
    (peer : Peer) (smux_client : Bool → Option Error) (reads left : List (Result AgentMessage))
    (version : Bytes) (sent : List AgentMessage) (ys : List ℤ) (disabled : Bool)
    → Exchange peer reads version sent left
    → Reads (split version) ys
    → (start peer smux_client reads ≡ started disabled) ↔ (
        LexLe (pos 3 ∷ pos 0 ∷ pos 196 ∷ pos 0 ∷ []) ys
        × (smux_client disabled ≡ none)
        × ((disabled ≡ true) ↔ LexLe (pos 3 ∷ pos 1 ∷ pos 1511 ∷ pos 0 ∷ []) ys))
unfolding start
mux_starts_iff peer smux_client reads left version sent ys disabled x r =
    let answer : (perform_handshake peer reads).returned ≡ some (ok version) =
      ap (λ (c : Call). c.returned) ((handshake_succeeds_iff peer reads left version sent).1 x) in
    let supports = supports_version_iff mux_supported version _ ys mux_supported-Reads r in
    let disables = supports_version_iff smux_keep_alive_supported version _ ys keep_alive-Reads r in
    rw (answer, start)
      (decided smux_client (supports_version mux_supported version)
        (supports_version smux_keep_alive_supported version) disabled supports disables)
