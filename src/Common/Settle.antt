-- ===== src/Common/Settle.antt =====
-- Systems that come to rest: events that happen by themselves, each of which lowers a measure.
use Prim.Native.Nat.{ℕ, zero, suc, ◌≤◌}
use mathlib.Core.Path.{◌≡◌}
use mathlib.Core.Logic.{◌⊎◌, inl, inr}
use mathlib.Core.Bool.{Bool, true}
use mathlib.Core.Option.{Option, some}
use native.Mathlib.Omega.{arith}

module _ {S E : Type 0} (step : S → E → Option S) (prompt : S → E → Bool) where
  -- Prompt events that follow one another.
  pub data PromptRun (s : S) : S → Type 0 where
    here : PromptRun s s
    then_event :
        {t u : S} → (e : E) → PromptRun s t → prompt t e ≡ true → step t e ≡ some u → PromptRun s u

  -- A prompt event that can happen.
  abbrev pub Progress : S → Type 0
  Progress s = (e : E) × (s' : S) × (prompt s e ≡ true) × (step s e ≡ some s')

  pub prepend :
      {s t u : S} (e : E) → prompt s e ≡ true → step s e ≡ some t → PromptRun t u → PromptRun s u
  prepend {s} e p h here = then_event e here p h
  prepend {s} e p h (then_event e' r p' h') = then_event e' (prepend e p h r) p' h'

  module _ (measure : S → ℕ) (I : S → Type 0)
      (keeps : (s s' : S) (e : E) → I s → step s e ≡ some s' → I s')
      (falls : (s s' : S) (e : E)
        → prompt s e ≡ true
        → step s e ≡ some s'
        → suc (measure s') ≡ measure s)
      (progress : (s : S) → I s → (measure s ≡ 0) ⊎ Progress s) where
    -- From a state with the invariant, prompt events lead to one where the measure is zero.
    pub settle :
        (n : ℕ) (s : S)
        → measure s ≤ n
        → I s
        → (last : S) × PromptRun s last × (measure last ≡ 0) × I last
    settle zero s few v = (s, here, omega arith, v)
    settle (suc n) s few v = elim (progress s v) [
      | inl none_left ↦ (s, here, none_left, v)
      | inr (e, s', p, h) ↦
          let (last, run, done, kept) =
            settle n s' (omega (arith, falls s s' e p h)) (keeps s s' e v h) in
          (last, prepend e p h run, done, kept)
    ]
