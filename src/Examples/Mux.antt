-- ===== src/Examples/Mux.antt =====
-- The start of a `MuxPortForward` and calls of its `Dial`, on concrete input.
use ssmlib.Common.{
  ◌+◌, ◌≡◌, ◌≢◌, ◌↔◌, ◌⊎◌, refl, codes, Bool, true, false, List, [], ◌∷◌, Option, none, some,
}
use ssmlib.Common.Int.{pos}
use ssmlib.Errors.{Error, external, failed_dial}
use ssmlib.Messages.Create.{ok, err}
use ssmlib.Version.{split, atoi}
use ssmlib.Version.Order.{Reads, LexLe}
use ssmlib.Handler.MuxPortForward.{
  awaiting, returned, listening, holding, ended, opened, Dial, DialEvent, ctx_ends, errctx_ends,
  helper_listens, helper_sees_ctx, helper_hands_over, request_served, server_responds, call,
  started, start, step,
}
use ssmlib.Handler.MuxPortForward.Starting.{mux_starts_iff}
use ssmlib.Handler.MuxPortForward.Dialling.{Run, made, next}
use ssmlib.Handler.MuxPortForward.Lost.{helper_left_behind, early_answer_hangs}
use ssmlib.Handler.MuxPortForward.Answering.{
  times_opened, in_response, in_server, in_closed, streams_kept,
}
use ssmlib.Examples.Handlers.{peer, exchanged, response, exchanged-Exchange}

version-Reads : Reads (split (codes "3.1.0.0")) (pos 3 ∷ pos 1 ∷ pos 0 ∷ pos 0 ∷ [])
unfolding split atoi
version-Reads = Reads.cons refl (Reads.cons refl (Reads.cons refl (Reads.cons refl Reads.nil)))

abbrev smux_client : Bool → Option Error
smux_client disabled = none

mux_starts_iff_example : (start peer smux_client exchanged ≡ started false) ↔ (
    LexLe (pos 3 ∷ pos 0 ∷ pos 196 ∷ pos 0 ∷ []) (pos 3 ∷ pos 1 ∷ pos 0 ∷ pos 0 ∷ [])
    × (smux_client false ≡ none)
    × ((false ≡ true)
        ↔ LexLe (pos 3 ∷ pos 1 ∷ pos 1511 ∷ pos 0 ∷ []) (pos 3 ∷ pos 1 ∷ pos 0 ∷ pos 0 ∷ [])))
mux_starts_iff_example =
    mux_starts_iff peer smux_client exchanged [] (codes "3.1.0.0") (response ∷ []) _ false
      exchanged-Exchange version-Reads

abbrev pub deadline : Error
deadline = external 1

abbrev pub shutdown : Error
shutdown = external 2

-- A call whose context ended after its stream was opened.
abbrev late : Dial
late = record call {
  caller = awaiting;
  helper = listening;
  server = opened (ok 7);
  ctx_done = true;
}

abbrev late_events : List DialEvent
late_events = ctx_ends ∷ helper_listens ∷ request_served (ok 7) ∷ []

late-Run : Run deadline shutdown late_events late
unfolding step
late-Run = next ctx_ends (next helper_listens (next (request_served (ok 7)) made refl) refl) refl

-- That call after its return.
abbrev given_up : Dial
given_up = record late { caller = returned (err (failed_dial deadline)); helper = ended }

given_up-Run : Run deadline shutdown (helper_hands_over ∷ helper_sees_ctx ∷ late_events) given_up
unfolding step
given_up-Run = next helper_hands_over (next helper_sees_ctx late-Run refl) refl

streams_kept_example :
    (times_opened 7 (helper_hands_over ∷ helper_sees_ctx ∷ late_events)
      ≡ in_response 7 (err (failed_dial deadline)) + (in_server 7 (opened (ok 7)) + in_closed 7 []))
    × ((in_server 7 (opened (ok 7)) ≡ 0)
        ⊎ ((d' : Dial) × (step deadline shutdown given_up server_responds ≡ some d')
            × (in_closed 7 d'.closed ≡ in_server 7 (opened (ok 7)) + in_closed 7 [])))
streams_kept_example =
    streams_kept deadline shutdown 7 (err (failed_dial deadline)) given_up-Run refl

-- A call that returned before its request was handed over.
abbrev abandoned : Dial
abandoned = record call { caller = returned (err deadline); helper = listening; ctx_done = true }

helper_left_behind_example :
    (returned (err deadline) ≡ returned (err deadline)) × (holding (err deadline) ≢ ended)
unfolding step
helper_left_behind_example =
    helper_left_behind deadline shutdown abandoned
      (record abandoned { helper = holding (err deadline) }) helper_sees_ctx (err deadline) refl
      (λ e. cc) refl

early_answer_hangs_example :
    (d : Dial) × Run deadline shutdown
      (helper_listens ∷ server_responds ∷ request_served (ok 7) ∷ [])
      d
    × (d.caller ≡ awaiting)
    × ((e : DialEvent) → (e ≡ ctx_ends) ⊎ ((e ≡ errctx_ends) ⊎ (step deadline shutdown d e ≡ none)))
early_answer_hangs_example = early_answer_hangs deadline shutdown (ok 7)
