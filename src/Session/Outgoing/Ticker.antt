-- ===== src/Session/Outgoing/Ticker.antt =====
-- When the resend ticker of session.go gives up.
use ssmlib.Common.{
  ℕ, ◌+◌, ◌<◌, ◌≡◌, ◌↔◌, refl, ap, Bytes, false, List, [], ◌∷◌, Option, none, some, In, ltb,
  ltb_false→le, ltb→lt, if_rule, Bool-cases, Option-cases, inl, inr, arith,
}
use ssmlib.Common.Table.{lookup}
use ssmlib.Errors.{Error, ack_timeout}
use ssmlib.Session.Verdict.{Verdict, go_on, stop}
use ssmlib.Session.Outgoing.{Unacknowledged, Outgoing, resend_timeout_duration, resend}
use ssmlib.Session.Outgoing.Resend.{resend_round, resend_round-Keeps, resend-none, resend-some}

-- The entry was first sent more than a minute ago, and was last sent more than a second ago.
abbrev pub TimedOut : ℕ → Unacknowledged → Type 0
TimedOut now u = u.first_send_time + 60_000_000_000 < now

abbrev pub IsDue : ℕ → Unacknowledged → Type 0
IsDue now u = u.last_send_time + 1_000_000_000 < now

-- One of the keys has an entry that timed out.
abbrev pub SomeTimedOut : ℕ → List ℕ → Outgoing → Type 0
SomeTimedOut now ks st =
    (k : ℕ) × (u : Unacknowledged) × In k ks
    × (lookup k st.unacknowledged_messages ≡ some u)
    × TimedOut now u

module _ (sha256 : Bytes → Bytes) (write : Bytes → Option Error) where
  -- A round leaves what has timed out among the other keys.
  later_timed_out :
      (now j : ℕ) (ks : List ℕ) (st : Outgoing) (w : Unacknowledged)
      → lookup j st.unacknowledged_messages ≡ some w
      → SomeTimedOut now ks st
      → SomeTimedOut now ks (resend_round sha256 write now j w st)
  later_timed_out now j ks st w e' (k, u, i, e, t) =
      let (u', found, same) = (resend_round-Keeps sha256 write now j w st e').entries k u e in
      (k, u', i, found, omega (arith, same.same_first))

  earlier-TimedOut :
      (now j : ℕ) (ks : List ℕ) (st : Outgoing) (w : Unacknowledged)
      → lookup j st.unacknowledged_messages ≡ some w
      → (k : ℕ) (u : Unacknowledged) → In k ks
      → lookup k (resend_round sha256 write now j w st).unacknowledged_messages ≡ some u
      → TimedOut now u
      → SomeTimedOut now (j ∷ ks) st
  earlier-TimedOut now j ks st w e' k u i e t =
      let kept = resend_round-Keeps sha256 write now j w st e' in
      elim (Option-cases (lookup k st.unacknowledged_messages)) [
        | inl missing ↦ cc (kept.nothing_new k missing, e)
        | inr (v, found) ↦
            let (u', e'', same) = kept.entries k v found in
            let equal : u' ≡ u = cc (e'', e) in
            (
              k,
              v,
              inr i,
              found,
              omega
                  (arith, same.same_first, ap (λ (x : Unacknowledged). x.first_send_time) equal, t),
            )
      ]

  resend_gives_up :
      (now : ℕ) (ks : List ℕ) (st : Outgoing)
      → SomeTimedOut now ks st
      → (resend sha256 write now ks st).1 ≡ stop ack_timeout
  resend_gives_up now [] st (k, u, i, e, t) = absurd i
  resend_gives_up now (j ∷ ks) st (k, u, i, e, t) =
      elim (Option-cases (lookup j st.unacknowledged_messages)) [
        | inl missing ↦
            rw (resend-none sha256 write now j ks st missing)
              (resend_gives_up now ks st (k, u, tail missing i, e, t))
        | inr (w, e') ↦ rw (resend-some sha256 write now j ks st w e') (
            if_rule (λ (r : Outgoing × Verdict). r.1 ≡ stop ack_timeout)
              (ltb (w.first_send_time + resend_timeout_duration) now) (λ _. refl)
              (λ fresh.
                resend_gives_up now ks (resend_round sha256 write now j w st)
                  (later_timed_out now j ks st w e' (k, u, rest w e' fresh i, e, t))))
      ]
    where
      tail : lookup j st.unacknowledged_messages ≡ none → In k (j ∷ ks) → In k ks
      tail missing (inl same) = cc (missing, e, same)
      tail missing (inr i') = i'

      rest :
          (w : Unacknowledged)
          → lookup j st.unacknowledged_messages ≡ some w
          → ltb (w.first_send_time + resend_timeout_duration) now ≡ false
          → In k (j ∷ ks)
          → In k ks
      rest w e' fresh (inl same) =
          let equal : w ≡ u = cc (e', e, same) in
          absurd (
            omega (
              arith,
              ltb_false→le (w.first_send_time + resend_timeout_duration) now fresh,
              ap (λ (x : Unacknowledged). x.first_send_time) equal,
              t,
            ))
      rest w e' fresh (inr i') = i'

  resend_timed_out :
      (now : ℕ) (ks : List ℕ) (st : Outgoing)
      → (resend sha256 write now ks st).1 ≡ stop ack_timeout
      → SomeTimedOut now ks st
  resend_timed_out now [] st h = absurd (not_stopped (unfold resend in h))
    where
      not_stopped : go_on ≡ stop ack_timeout → ⊥
      not_stopped p = cc
  resend_timed_out now (j ∷ ks) st h = elim (Option-cases (lookup j st.unacknowledged_messages)) [
    | inl missing ↦
        let (k, u, i, e, t) =
          resend_timed_out now ks st (rw (resend-none sha256 write now j ks st missing) at h) in
        (k, u, inr i, e, t)
    | inr (w, e') ↦ elim (Bool-cases (ltb (w.first_send_time + resend_timeout_duration) now)) [
      | inl late ↦
          (j, w, inl refl, e', ltb→lt (w.first_send_time + resend_timeout_duration) now late)
      | inr fresh ↦
          let (k, u, i, e, t) =
            resend_timed_out now ks (resend_round sha256 write now j w st)
              (rw (resend-some sha256 write now j ks st w e', fresh) at h) in
          earlier-TimedOut now j ks st w e' k u i e t
    ]
  ]

  -- For any keys that the tick ranges over, it stops the writer with the timeout error exactly when
  -- one of the keys has an entry that was first sent more than a minute ago.
  pub resend_timeout_iff :
      (now : ℕ) (ks : List ℕ) (st : Outgoing)
      → ((resend sha256 write now ks st).1 ≡ stop ack_timeout) ↔ SomeTimedOut now ks st
  resend_timeout_iff now ks st = (resend_timed_out now ks st, resend_gives_up now ks st)
