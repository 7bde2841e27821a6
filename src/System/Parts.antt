-- ===== src/System/Parts.antt =====
-- The session and its handler, each seen by itself: a life of the two is a life of each of them.
use ssmlib.Common.{
  ◌≡◌, refl, sym, ap, ◌∙◌, subst, ◌⊎◌, inl, inr, ◌||◌, false, List, [], ◌∷◌, some, Option-cases,
  if_some, if_none, map-eq-some,
}
use mathlib.Core.Option
use ssmlib.Group.{Errgroup}
use ssmlib.Session.Life as SessionLife
use ssmlib.Session.Life.Sound as SessionSound
use ssmlib.Handler.Life as HandlerLife
use ssmlib.Handler.Life.Shutdown as HandlerShutdown
use ssmlib.System.{
  System, Event, session_event, handler_event, handler_wait_returns, begin, stop_handler,
  after_session, on_session, is_call, is_wait, step,
}

module _ (eg : Errgroup) where
  pub after_session-session :
      (e : SessionLife.Event) (sys : System eg.Group) (s : SessionLife.Life eg.Group)
      → (after_session eg e sys s).session ≡ s
  after_session-session SessionLife.stop_called sys s = refl
  after_session-session SessionLife.cleanup_returns sys s = refl
  after_session-session SessionLife.watcher_returns sys s = refl
  after_session-session (SessionLife.outgoing_returns e) sys s = refl
  after_session-session (SessionLife.incoming_returns e) sys s = refl
  after_session-session (SessionLife.handler_start_returns r) sys s = refl
  after_session-session SessionLife.failing_returns sys s = refl
  after_session-session (SessionLife.handler_wait_returns r) sys s = refl

  pub after_session-handler :
      (e : SessionLife.Event) (sys : System eg.Group) (s : SessionLife.Life eg.Group)
      → ((after_session eg e sys s).handler ≡ sys.handler)
        ⊎ ((after_session eg e sys s).handler ≡ stop_handler eg sys.handler)
  after_session-handler SessionLife.stop_called sys s = inl refl
  after_session-handler SessionLife.cleanup_returns sys s = inr refl
  after_session-handler SessionLife.watcher_returns sys s = inl refl
  after_session-handler (SessionLife.outgoing_returns e) sys s = inl refl
  after_session-handler (SessionLife.incoming_returns e) sys s = inl refl
  after_session-handler (SessionLife.handler_start_returns r) sys s = inl refl
  after_session-handler SessionLife.failing_returns sys s = inl refl
  after_session-handler (SessionLife.handler_wait_returns r) sys s = inl refl

  module _ (kind : HandlerLife.Kind) where
    -- The lives of the two; the last event stands first.
    pub data Run : List Event → System eg.Group → Type 0 where
      idle : Run [] (begin eg)
      next :
          {es : List Event} {sys sys' : System eg.Group}
          → (e : Event) → Run es sys
          → step eg kind sys e ≡ some sys'
          → Run (e ∷ es) sys'

    -- What an event does to each part: one event of the session or none, and one of the handler
    -- or none.
    pub record IsSplit (sys sys' : System eg.Group) : Type 0 where
      pub session_moves :
          (sys'.session ≡ sys.session)
          ⊎ ((e : SessionLife.Event) × (SessionLife.step eg sys.session e ≡ some sys'.session))
      pub handler_moves :
          (sys'.handler ≡ sys.handler)
          ⊎ ((e : HandlerLife.Event) × (HandlerLife.step eg kind sys.handler e ≡ some sys'.handler))

    on_session-IsSplit :
        (e : SessionLife.Event) (sys sys' : System eg.Group)
        → on_session eg e sys ≡ some sys'
        → IsSplit sys sys'
    unfolding HandlerLife.step
    on_session-IsSplit e sys sys' h =
        let (s, moved, same) =
          map-eq-some (after_session eg e sys) (SessionLife.step eg sys.session e) h in
        record {
          session_moves = inr (
            e,
            moved
                ∙ ap some (
                    sym (after_session-session e sys s)
                    ∙ ap (λ (x : System eg.Group). x.session) same),
          );
          handler_moves = elim (after_session-handler e sys s) [
            | inl k ↦ inl (sym (ap (λ (x : System eg.Group). x.handler) same) ∙ k)
            | inr k ↦ inr (
              HandlerLife.stop_called,
              ap some (sym k ∙ ap (λ (x : System eg.Group). x.handler) same),
            )
          ];
        }

    handler-IsSplit :
        (e : HandlerLife.Event) (sys sys' : System eg.Group)
        → Option.map (λ h. record sys { handler = h }) (HandlerLife.step eg kind sys.handler e)
          ≡ some sys'
        → IsSplit sys sys'
    handler-IsSplit e sys sys' h =
        let (l, moved, same) = map-eq-some _ (HandlerLife.step eg kind sys.handler e) h in
        record {
          session_moves = inl (sym (ap (λ (x : System eg.Group). x.session) same));
          handler_moves = inr (e, moved ∙ ap some (ap (λ (x : System eg.Group). x.handler) same));
        }

    pub session_step :
        (e : SessionLife.Event) (sys sys' : System eg.Group)
        → step eg kind sys (session_event e) ≡ some sys'
        → (is_wait e ≡ false) × (on_session eg e sys ≡ some sys')
    unfolding step
    session_step e sys sys' h = if_none (is_wait e) h

    pub step-IsSplit :
        (sys sys' : System eg.Group) (e : Event) → step eg kind sys e ≡ some sys' → IsSplit sys sys'
    unfolding step
    step-IsSplit sys sys' (session_event e) h =
        on_session-IsSplit e sys sys' (session_step e sys sys' h).1
    step-IsSplit sys sys' (handler_event e) h =
        handler-IsSplit e sys sys' (if_some (is_call eg e || sys.running) h).1
    step-IsSplit sys sys' handler_wait_returns h =
        elim (Option-cases (HandlerLife.wait eg kind sys.handler)) [
          | inl w ↦ cc (rw (w, step) at h)
          | inr (r, w) ↦
              on_session-IsSplit (SessionLife.handler_wait_returns r) sys sys' (rw (w, step) at h)
        ]

    -- A life of the two is a life of the session and one of the handler.
    pub session_life :
        {es : List Event} {sys : System eg.Group}
        → Run es sys
        → (ss : List SessionLife.Event) × SessionSound.Run eg ss sys.session
    session_life idle = ([], SessionSound.idle)
    session_life (next {sys} {sys'} e r h) =
        let (ss, life) = session_life r in
        elim (step-IsSplit sys sys' e h).session_moves [
          | inl same ↦ (ss, subst (SessionSound.Run eg ss) (sym same) life)
          | inr (x, moved) ↦ (x ∷ ss, SessionSound.next x life moved)
        ]

    pub handler_life :
        {es : List Event} {sys : System eg.Group}
        → Run es sys
        → (hs : List HandlerLife.Event) × HandlerShutdown.Run eg kind hs sys.handler
    handler_life idle = ([], HandlerShutdown.idle)
    handler_life (next {sys} {sys'} e r h) =
        let (hs, life) = handler_life r in
        elim (step-IsSplit sys sys' e h).handler_moves [
          | inl same ↦ (hs, subst (HandlerShutdown.Run eg kind hs) (sym same) life)
          | inr (x, moved) ↦ (x ∷ hs, HandlerShutdown.next x life moved)
        ]
