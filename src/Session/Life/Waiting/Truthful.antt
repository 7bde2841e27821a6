-- ===== src/Session/Life/Waiting/Truthful.antt =====
-- What the return of a `Wait` of session.go tells its caller.
use ssmlib.Common.{
  ◌≡◌, refl, sym, ap, ◌∙◌, subst, ◌⊎◌, inl, inr, true, false, ◌&&◌, List, [], ◌∷◌, Option, none,
  some, Option-cases, if_some, and_split, map-eq-some, arith,
}
use mathlib.Core.Option.{some-injective}
use ssmlib.Errors.{Error}
use ssmlib.Group.{Errgroup}
use ssmlib.Session.Life as Life
use ssmlib.Session.Life.{Event, is_done, without_stop, all_returned, wait}
use ssmlib.Session.Life.Sound.{IsSound, begin-IsSound, step-IsSound}
use ssmlib.Session.Life.Waiting.{
  joining, returned, Waiting, WaitEvent, life_event, ctx_ends, sees_ctx, sees_errctx, group_returns,
  is_selecting, is_joining, begin_wait, wait_step,
}

module _ (eg : Errgroup) where
  -- The session has failed first with `x`, and all goroutines but the handler's have returned.
  pub record HasEnded (l : Life.Life eg.Group) (x : Error) : Type 0 where
    pub failed_with : eg.first l.group ≡ some x
    pub cleaned_up : l.cleanup ≡ false
    pub watched : l.watcher ≡ false
    pub writer_ended : l.outgoing ≡ false
    pub reader_ended : l.incoming ≡ false

  step-HasEnded :
      (l l' : Life.Life eg.Group) (x : Error) (e : Event)
      → HasEnded l x
      → Life.step eg l e ≡ some l'
      → HasEnded l' x
  unfolding Life.step Life.clean_up
  step-HasEnded l l' x Life.stop_called v h = ground arith
  step-HasEnded l l' x Life.cleanup_returns v h = ground (arith, eg.first-finish none l.group)
  step-HasEnded l l' x Life.watcher_returns v h = ground arith
  step-HasEnded l l' x (Life.outgoing_returns e) v h = ground arith
  step-HasEnded l l' x (Life.incoming_returns e) v h = ground arith
  step-HasEnded l l' x (Life.handler_start_returns r) v h = ground arith
  step-HasEnded l l' x Life.failing_returns v h = grind (arith, eg.first-finish)
  step-HasEnded l l' x (Life.handler_wait_returns r) v h = ground (arith, eg.first-finish r l.group)

  all_returned-flags :
      (l : Life.Life eg.Group) (x : Error)
      → eg.first l.group ≡ some x
      → all_returned eg l ≡ true
      → HasEnded l x
  unfolding all_returned
  all_returned-flags l x f a = ground arith

  wait-HasEnded :
      (l : Life.Life eg.Group) (r : Option Error)
      → wait eg l ≡ some r
      → (x : Error) × (r ≡ without_stop x) × HasEnded l x
  unfolding wait
  wait-HasEnded l r h = elim (Option-cases (eg.first l.group)) [
    | inl f ↦ cc (rw (f, wait) at h)
    | inr (x, f) ↦
        let (a, same) = if_some (all_returned eg l) (rw (f, wait) at h) in
        (x, some-injective _ _ (sym same), all_returned-flags l x f a)
  ]

  wait_blocked :
      (l : Life.Life eg.Group) (r : Option Error)
      → all_returned eg l ≡ false
      → wait eg l ≡ some r
      → ⊥
  unfolding wait
  wait_blocked l r a h = elim (Option-cases (eg.first l.group)) [
    | inl f ↦ cc (rw (f, wait) at h)
    | inr (x, f) ↦ let (b, same) = if_some (all_returned eg l) (rw (f, wait) at h) in cc
  ]

  module _ (ctx_err : Error) where
    -- What can happen around the call; the last event stands first.
    pub data WaitRun : List WaitEvent → Waiting eg.Group → Type 0 where
      made : WaitRun [] (begin_wait eg ctx_err)
      next :
          {es : List WaitEvent} {w w' : Waiting eg.Group}
          → (e : WaitEvent) → WaitRun es w
          → wait_step eg ctx_err w e ≡ some w'
          → WaitRun (e ∷ es) w'

    -- What the caller is told.
    abbrev pub Told : Waiting eg.Group → Option Error → Type 0
    Told w r =
        ((r ≡ some ctx_err) × (w.ctx_done ≡ true))
        ⊎ ((x : Error) × (r ≡ without_stop x) × HasEnded w.life x)

    record IsTruthful (w : Waiting eg.Group) : Type 0 where
      sound : IsSound eg w.life
      told : (r : Option Error) → w.call ≡ returned r → Told w r

    step-IsTruthful :
        (w w' : Waiting eg.Group) (e : WaitEvent)
        → IsTruthful w
        → wait_step eg ctx_err w e ≡ some w'
        → IsTruthful w'
    unfolding wait_step
    step-IsTruthful w w' (life_event e) v h =
        let (l, moved, same) = map-eq-some (λ l. record w { life = l }) (Life.step eg w.life e) h in
        subst IsTruthful same (record {
          sound = step-IsSound eg w.life l e v.sound moved;
          told = λ r c. elim (v.told r c) [
            | inl by_ctx ↦ inl by_ctx
            | inr (x, t, ended) ↦ inr (x, t, step-HasEnded w.life l x e ended moved)
          ];
        })
    step-IsTruthful w w' ctx_ends v h = subst IsTruthful (some-injective _ _ h) (record {
      sound = v.sound;
      told =
          λ r c. elim (v.told r c) [ inl (e, done) ↦ inl (e, refl) | inr by_group ↦ inr by_group ];
    })
    step-IsTruthful w w' sees_ctx v h =
        let (ready, same) = if_some (is_selecting w.call && w.ctx_done) h in
        let (selects, done) = and_split (is_selecting w.call) w.ctx_done ready in
        subst IsTruthful (some-injective _ _ same)
          (record { sound = v.sound; told = λ r c. let e : r ≡ some ctx_err = cc in inl (e, done) })
    step-IsTruthful w w' sees_errctx v h =
        let (ready, same) = if_some (is_selecting w.call && is_done eg w.life) h in
        subst IsTruthful (some-injective _ _ same) (record { sound = v.sound; told = λ r c. cc })
    step-IsTruthful w w' group_returns v h =
        let (ready, moved) = if_some (is_joining w.call) h in
        let (r, answer, same) =
          map-eq-some (λ r. record w { call = returned r }) (wait eg w.life) moved in
        let (x, t, ended) = wait-HasEnded w.life r answer in
        subst IsTruthful same
          (record { sound = v.sound; told = λ r' c. let e : r' ≡ r = cc in inr (x, e ∙ t, ended) })

    Run-IsTruthful : {es : List WaitEvent} {w : Waiting eg.Group} → WaitRun es w → IsTruthful w
    Run-IsTruthful made = record { sound = begin-IsSound eg; told = λ r c. cc }
    Run-IsTruthful (next {w} {w'} e r h) = step-IsTruthful w w' e (Run-IsTruthful r) h

    -- A call of `Wait` that has returned, whatever goes on before and after, has returned the error
    -- of its context, which was done; or the first error of the session, nil for a requested stop,
    -- and then the socket is closed, the handler was stopped, and the goroutine that waits for
    -- `Stop` and both loops have returned.
    pub wait_tells :
        {es : List WaitEvent} {w : Waiting eg.Group} (r : Option Error)
        → WaitRun es w
        → w.call ≡ returned r
        → ((r ≡ some ctx_err) × (w.ctx_done ≡ true))
          ⊎ ((x : Error) × (r ≡ without_stop x)
              × HasEnded w.life x
              × (w.life.socket_closed ≡ true)
              × (w.life.handler_stopped ≡ true))
    wait_tells r run c =
        let v = Run-IsTruthful run in
        elim (v.told r c) [
          | inl by_ctx ↦ inl by_ctx
          | inr (x, t, ended) ↦
              let after = v.sound.closed_after ended.cleaned_up in
              inr (x, t, ended, after.1, after.2)
        ]

    -- A call that has seen the end of the session's context no longer looks at its own: while
    -- a goroutine of the session has not returned, no event makes it return.
    pub joined_wait_blocks :
        (w w' : Waiting eg.Group) (e : WaitEvent)
        → w.call ≡ joining
        → all_returned eg w.life ≡ false
        → wait_step eg ctx_err w e ≡ some w'
        → w'.call ≡ joining
    unfolding wait_step
    joined_wait_blocks w w' (life_event e) c a h =
        let (l, moved, same) = map-eq-some (λ l. record w { life = l }) (Life.step eg w.life e) h in
        sym (ap (λ (x : Waiting eg.Group). x.call) same) ∙ c
    joined_wait_blocks w w' ctx_ends c a h =
        sym (ap (λ (x : Waiting eg.Group). x.call) (some-injective _ _ h)) ∙ c
    joined_wait_blocks w w' sees_ctx c a h = cc
    joined_wait_blocks w w' sees_errctx c a h = cc
    joined_wait_blocks w w' group_returns c a h =
        let (ready, moved) = if_some (is_joining w.call) h in
        let (r, answer, same) =
          map-eq-some (λ r. record w { call = returned r }) (wait eg w.life) moved in
        absurd (wait_blocked w.life r a answer)
