-- ===== src/Examples/Waiting.antt =====
-- A `Wait` of a session that loses its socket.
use ssmlib.Common.{◌≡◌, ◌⊎◌, refl, true, false, List, [], ◌∷◌, Option, none, some}
use ssmlib.Errors.{Error, external}
use ssmlib.Session.Life as Life
use ssmlib.Session.Life.{without_stop}
use ssmlib.Session.Life.Waiting.{
  returned, Waiting, WaitEvent, life_event, ctx_ends, sees_errctx, group_returns, wait_step,
}
use ssmlib.Session.Life.Waiting.Truthful.{HasEnded, WaitRun, made, next, wait_tells}
use ssmlib.Examples.Life.{first_error, lost}

abbrev deadline : Error
deadline = external 9

abbrev events : List WaitEvent
events =
    group_returns
    ∷ life_event (Life.handler_wait_returns (some (external 3)))
    ∷ life_event Life.watcher_returns
    ∷ life_event Life.cleanup_returns
    ∷ ctx_ends
    ∷ life_event (Life.outgoing_returns (external 5))
    ∷ sees_errctx
    ∷ life_event (Life.incoming_returns lost)
    ∷ life_event (Life.handler_start_returns none)
    ∷ []

-- The call after these.
abbrev told : Waiting (Option Error)
told = record {
  life = record {
    group = some lost;
    stopped = true;
    socket_closed = true;
    handler_stopped = true;
    cleanup = false;
    watcher = false;
    outgoing = false;
    incoming = false;
    handler = Life.ended;
  };
  call = returned (some lost);
  ctx_done = true;
}

told-WaitRun : WaitRun first_error deadline events told
unfolding wait_step Life.step Life.clean_up Life.wait Life.all_returned
told-WaitRun =
    next _
      (next _
        (next _
          (next _ (next _ (next _ (next _ (next _ (next _ made refl) refl) refl) refl) refl) refl)
          refl)
        refl)
      refl

wait_tells_example :
    ((some lost ≡ some deadline) × (told.ctx_done ≡ true))
    ⊎ ((x : Error) × (some lost ≡ without_stop x)
        × HasEnded first_error told.life x
        × (told.life.socket_closed ≡ true)
        × (told.life.handler_stopped ≡ true))
wait_tells_example = wait_tells first_error deadline (some lost) told-WaitRun refl
