-- ===== src/Session/Life/Waiting.antt =====
-- A call of `Wait` of session.go with a context of its own, while the session lives.
pub mod Truthful
use ssmlib.Common.{
  ◌≡◌, ◌≢◌, refl, sym, ap, ◌∙◌, ◌⊎◌, inl, inr, Bool, true, false, ◌&&◌, List, [], ◌∷◌, Option, none,
  some, Option-cases, if◌then◌else◌, if_some, map-eq-some, arith,
}
use mathlib.Core.Option
use ssmlib.Errors.{Error}
use ssmlib.Group.{Errgroup, is_some}
use ssmlib.Session.Life as Life
use ssmlib.Session.Life.{Event, is_done, without_stop, all_returned, wait}

-- Where the call is: in its `select`, in `errgrp.Wait`, or at its end.
pub data WaitCall : Type 0 where
  selecting joining : WaitCall
  returned : Option Error → WaitCall

pub record Waiting (G : Type 0) : Type 0 where
  pub life : Life.Life G
  pub call : WaitCall
  pub ctx_done : Bool

pub data WaitEvent : Type 0 where
  life_event : Event → WaitEvent
  ctx_ends sees_ctx sees_errctx group_returns : WaitEvent

abbrev pub is_selecting : WaitCall → Bool
is_selecting selecting = true
is_selecting joining = false
is_selecting (returned r) = false

abbrev pub is_joining : WaitCall → Bool
is_joining selecting = false
is_joining joining = true
is_joining (returned r) = false

module _ (eg : Errgroup) (ctx_err : Error) where
  open eg use {Group, first}

  abbrev pub begin_wait : Waiting Group
  begin_wait = record { life = Life.begin eg; call = selecting; ctx_done = false }

  -- `none` where the event cannot happen.
  unfoldable pub wait_step : Waiting Group → WaitEvent → Option (Waiting Group)
  wait_step w (life_event e) = Option.map (λ l. record w { life = l }) (Life.step eg w.life e)
  wait_step w ctx_ends = some (record w { ctx_done = true })
  wait_step w sees_ctx =
      if is_selecting w.call && w.ctx_done
      then some (record w { call = returned (some ctx_err) })
      else none
  wait_step w sees_errctx =
      if is_selecting w.call && is_done eg w.life then some (record w { call = joining }) else none
  wait_step w group_returns =
      if is_joining w.call
      then Option.map (λ r. record w { call = returned r }) (wait eg w.life)
      else none
