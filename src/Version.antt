-- ===== src/Version.antt =====
-- The package version, version/version.go, with `strings.Split` and `strconv.Atoi`.
pub mod Order
use ssmlib.Common.{
  ℕ, zero, suc, ◌+◌, ◌-◌, ◌*◌, ◌^◌, Bytes, Bool, true, false, not, ◌||◌, List, [], ◌∷◌, Option,
  none, some, length, ltb, ◌==◌, if◌then◌else◌,
}
use ssmlib.Common.Int.{ℤ, pos, negsuc, ltb_ℤ}

abbrev first_part : ℕ → List Bytes → List Bytes
first_part c [] = (c ∷ []) ∷ []
first_part c (p ∷ ps) = (c ∷ p) ∷ ps

-- `strings.Split(s, ".")`: at least one part.
unfoldable pub split : Bytes → List Bytes
split [] = [] ∷ []
split (c ∷ s) = let rest = split s in if c == b'.' then [] ∷ rest else first_part c rest

-- The value of decimal digits behind `n`.
unfoldable pub digits : Bytes → ℕ → Option ℕ
digits [] n = some n
digits (c ∷ s) n =
    let rest = digits s (n * 10 + (c - b'0')) in if ltb c b'0' || ltb b'9' c then none else rest

abbrev number : Bytes → Option ℕ
number [] = none
number (c ∷ s) = digits (c ∷ s) 0

-- An int has 64 bits; what does not fit is an error.
abbrev positive : Option ℕ → Option ℤ
positive none = none
positive (some n) = if ltb n (2 ^ 63) then some (pos n) else none

abbrev negative : Option ℕ → Option ℤ
negative none = none
negative (some zero) = some (pos 0)
negative (some (suc n)) = if ltb n (2 ^ 63) then some (negsuc n) else none

-- `strconv.Atoi`: an optional sign and at least one digit.
unfoldable pub atoi : Bytes → Option ℤ
unfolding digits
atoi [] = none
atoi (c ∷ s) =
    if c == b'-'
    then negative (number s)
    else if c == b'+'
    then positive (number s)
    else positive (number (c ∷ s))

-- The loop over the components, which the caller has found to be equally many.
unfoldable pub compare_components : List Bytes → List Bytes → Bool
compare_components [] agents = true
compare_components (t ∷ ts) [] = false
compare_components (t ∷ ts) (a ∷ as') = elim (atoi t) [
  | none ↦ false
  | some this ↦ elim (atoi a) [
    | none ↦ false
    | some agent ↦
        if ltb_ℤ this agent
        then true
        else if ltb_ℤ agent this
        then false
        else compare_components ts as'
  ]
]

unfoldable pub supports_version : Bytes → Bytes → Bool
supports_version v agent_version =
    if not (length (split v) == length (split agent_version))
    then false
    else compare_components (split v) (split agent_version)
