-- ===== src/Common/Table.antt =====
-- A Go map with integer keys, as an association list with one entry for a key.
use Prim.Native.Nat.{ℕ, ◌+◌, ◌≤◌, ◌<◌}
use mathlib.Core.Path.{◌≡◌, refl, sym, subst, subst₂}
use mathlib.Core.Logic.{inl, inr}
use mathlib.Core.Option.{Option, none, some}
use mathlib.Core.List.{List, [], ◌∷◌}
use native.Mathlib.Omega.{arith}
use ssmlib.Common.Tests.{Bool-cases, ==_iff, ◌==◌, if◌then◌else◌}
use ssmlib.Common.Lists.{length}

module _ {ℓ} {V : Type ℓ} where
  -- `m[k]`, with the Boolean of the two-value form in the `Option`.
  unfoldable pub lookup : ℕ → List (ℕ × V) → Option V
  lookup k [] = none
  lookup k ((j, v) ∷ m) = if j == k then some v else lookup k m

  -- `m[k] = v`.
  unfoldable pub insert : ℕ → V → List (ℕ × V) → List (ℕ × V)
  insert k v [] = (k, v) ∷ []
  insert k v ((j, w) ∷ m) = let rest = insert k v m in if j == k then (j, v) ∷ m else (j, w) ∷ rest

  -- `delete(m, k)`.
  unfoldable pub delete : ℕ → List (ℕ × V) → List (ℕ × V)
  delete k [] = []
  delete k ((j, w) ∷ m) = let rest = delete k m in if j == k then rest else (j, w) ∷ rest

  pub lookup-insert :
      (key other : ℕ) (new : V) (table : List (ℕ × V))
      → lookup other (insert key new table)
        ≡ (if key == other then some new else lookup other table)
  unfolding insert lookup
  lookup-insert key other new [] = refl
  lookup-insert key other new ((_, _) ∷ table) = ground (arith, lookup-insert key other new table)

  pub lookup-delete :
      (k j : ℕ) (m : List (ℕ × V)) → lookup j (delete k m) ≡ (if k == j then none else lookup j m)
  unfolding lookup delete
  lookup-delete k j [] = ground arith
  lookup-delete k j ((i, w) ∷ m) = ground (arith, lookup-delete k j m)

  pub length-insert-le : (k : ℕ) (v : V) (m : List (ℕ × V)) → length (insert k v m) ≤ length m + 1
  unfolding insert
  length-insert-le k v [] = omega arith
  length-insert-le k v ((i, w) ∷ m) = ground (arith, length-insert-le k v m)

  pub length-delete-le : (k : ℕ) (m : List (ℕ × V)) → length (delete k m) ≤ length m
  unfolding delete
  length-delete-le k [] = omega arith
  length-delete-le k ((i, w) ∷ m) = ground (arith, length-delete-le k m)

  -- Deleting a key that is there leaves a shorter table.
  pub length-delete-lt :
      (k : ℕ) (m : List (ℕ × V)) {v : V} → lookup k m ≡ some v → length (delete k m) < length m
  unfolding delete lookup
  length-delete-lt k [] h = cc
  length-delete-lt k ((i, w) ∷ m) {v} h =
      ground (arith, length-delete-le k m, length-delete-lt k m {v = v})

  -- A replaced key leaves the number of entries.
  pub length-insert_present :
      (k : ℕ) (v : V) (m : List (ℕ × V)) {w : V}
      → lookup k m ≡ some w
      → length (insert k v m) ≡ length m
  unfolding insert lookup
  length-insert_present k v [] h = cc
  length-insert_present k v ((i, u) ∷ m) {w} h = ground (arith, length-insert_present k v m {w = w})

-- What holds of every entry.
module _ {V : Type 0} (P : ℕ → V → Type 0) where
  abbrev pub Entries : List (ℕ × V) → Type 0
  Entries [] = Unit
  Entries ((k, v) ∷ m) = P k v × Entries m

  pub Entries-lookup : (k : ℕ) (m : List (ℕ × V)) {v : V} → Entries m → lookup k m ≡ some v → P k v
  unfolding lookup
  Entries-lookup k [] h e = cc
  Entries-lookup k ((j, w) ∷ m) {v} h e = elim (Bool-cases (j == k)) [
    | inl hit ↦ let same : w ≡ v = cc (rw hit at e) in subst₂ P ((==_iff j k).0 hit) same h.0
    | inr miss ↦ Entries-lookup k m h.1 (rw miss at e)
  ]

  pub Entries-insert :
      (k : ℕ) (v : V) (m : List (ℕ × V)) → P k v → Entries m → Entries (insert k v m)
  unfolding insert
  Entries-insert k v [] p h = (p, tt)
  Entries-insert k v ((j, w) ∷ m) p h = elim (Bool-cases (j == k)) [
    | inl hit ↦ rw hit (subst (λ i. P i v) (sym ((==_iff j k).0 hit)) p, h.1)
    | inr miss ↦ rw miss (h.0, Entries-insert k v m p h.1)
  ]

  pub Entries-delete : (k : ℕ) (m : List (ℕ × V)) → Entries m → Entries (delete k m)
  unfolding delete
  Entries-delete k [] h = tt
  Entries-delete k ((j, w) ∷ m) h = elim (Bool-cases (j == k)) [
    | inl hit ↦ rw hit (Entries-delete k m h.1)
    | inr miss ↦ rw miss (h.0, Entries-delete k m h.1)
  ]
