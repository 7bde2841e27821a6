-- ===== src/Common/Tests.antt =====
-- Boolean tests on the native numbers, the conditional, and splits that keep their equation.
use Prim.Native.Nat.{ℕ, ◌≤◌, ◌<◌, compare, Ordering}
use mathlib.Core.Path.{◌≡◌, refl, ap}
use mathlib.Core.Logic.{◌↔◌, ◌⊎◌, inl, inr, ◌≢◌}
use mathlib.Core.Bool.{Bool, true, false, ◌&&◌, ◌||◌}
use mathlib.Core.Option
use mathlib.Core.Option.{Option, none, some}
use native.Mathlib.Omega.{arith}

abbrev pub ltb : ℕ → ℕ → Bool
ltb a b = elim (compare a b) [ Ordering.lt ↦ true | _ ↦ false ]

abbrev pub leb : ℕ → ℕ → Bool
leb a b = elim (compare a b) [ Ordering.gt ↦ false | _ ↦ true ]

infix 50 ◌==◌
abbrev pub ◌==◌ : ℕ → ℕ → Bool
a == b = elim (compare a b) [ Ordering.eq ↦ true | _ ↦ false ]

infix 1 if◌then◌else◌
abbrev pub if◌then◌else◌ {ℓ} : {A : Type ℓ} → Bool → A → A → A
if true then x else y = x
if false then x else y = y

pub ltb→lt : (a b : ℕ) → ltb a b ≡ true → a < b
ltb→lt a b h = ground arith

pub lt→ltb : (a b : ℕ) → a < b → ltb a b ≡ true
lt→ltb a b h = ground arith

pub le→ltb_false : (a b : ℕ) → b ≤ a → ltb a b ≡ false
le→ltb_false a b h = ground arith

pub leb→le : (a b : ℕ) → leb a b ≡ true → a ≤ b
leb→le a b h = ground arith

pub le→leb : (a b : ℕ) → a ≤ b → leb a b ≡ true
le→leb a b h = ground arith

pub ==_iff : (a b : ℕ) → ((a == b) ≡ true) ↔ (a ≡ b)
==_iff a b = ground arith

pub ==_refl : (a : ℕ) → (a == a) ≡ true
==_refl a = ground arith

pub ==_comm : (a b : ℕ) → (a == b) ≡ (b == a)
==_comm a b = ground arith

pub Bool-cases : (b : Bool) → (b ≡ true) ⊎ (b ≡ false)
Bool-cases true = inl refl
Bool-cases false = inr refl

pub Option-cases {ℓ} : {A : Type ℓ} (o : Option A) → (o ≡ none) ⊎ ((a : A) × (o ≡ some a))
Option-cases none = inl refl
Option-cases (some a) = inr (a, refl)

-- A branch that cannot have given the result was not taken.
pub if_skip {ℓ} :
    {A : Type ℓ} (b : Bool) {x y r : A} → (if b then x else y) ≡ r → x ≢ r → (b ≡ false) × (y ≡ r)
if_skip true h ne = absurd (ne h)
if_skip false h ne = (refl, h)

pub ltb_false→le : (a b : ℕ) → ltb a b ≡ false → b ≤ a
ltb_false→le a b h = ground arith

-- A property of a conditional, by its branches.
pub if_rule {ℓ κ} :
    {A : Type ℓ} (P : A → Type κ) (b : Bool) {x y : A}
    → (b ≡ true → P x)
    → (b ≡ false → P y)
    → P (if b then x else y)
if_rule P true h k = h refl
if_rule P false h k = k refl

pub and_split : (a b : Bool) → (a && b) ≡ true → (a ≡ true) × (b ≡ true)
and_split a b h = ground arith

pub and_true : (a b : Bool) → a ≡ true → b ≡ true → (a && b) ≡ true
and_true a b h k = ground arith

pub or_true : (a b : Bool) → b ≡ true → (a || b) ≡ true
or_true a b h = ground arith

-- A step that is guarded, or that is taken out of an option.
module _ {ℓ} {A : Type ℓ} where
  pub if_some :
      (b : Bool) {o : Option A} {a : A}
      → (if b then o else none) ≡ some a
      → (b ≡ true) × (o ≡ some a)
  if_some true h = (refl, h)
  if_some false h = cc

  pub if_taken : (b : Bool) {o : Option A} → b ≡ true → (if b then o else none) ≡ o
  if_taken true h = refl
  if_taken false h = cc

  pub if_none :
      (b : Bool) {o : Option A} {a : A}
      → (if b then none else o) ≡ some a
      → (b ≡ false) × (o ≡ some a)
  if_none true h = cc
  if_none false h = (refl, h)

  module _ {κ} {B : Type κ} (f : A → B) where
    pub map-eq-some :
        (o : Option A) {b : B} → Option.map f o ≡ some b → (a : A) × (o ≡ some a) × (f a ≡ b)
    map-eq-some none h = cc
    map-eq-some (some a) h = (a, refl, cc)

    pub map_taken :
        (b : Bool) (o : Option A) (a : A)
        → b ≡ true
        → o ≡ some a
        → (if b then Option.map f o else none) ≡ some (f a)
    map_taken true o a h e = ap (Option.map f) e
    map_taken false o a h e = cc
