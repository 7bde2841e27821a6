-- ===== src/Version/Order.antt =====
-- `SupportsVersion` of version/version.go is the lexicographic order of the components.
use ssmlib.Common.{
  suc, subst, ◌≡◌, refl, sym, ap, ◌∙◌, ◌↔◌, ◌⊎◌, inl, inr, Bytes, Bool, true, false, List, [], ◌∷◌,
  ◌++◌, none, some, length, ◌==◌, ==_refl, ==_iff, Bool-cases, Option-cases, if◌then◌else◌, arith,
}
use ssmlib.Common.Int.{
  ℤ, ◌<ℤ◌, pos_part, neg_part, ltb_ℤ, ltb_ℤ→lt, lt→ltb_ℤ, ltb_ℤ_antisym, ltb_ℤ_irrefl,
}
use mathlib.Core.Path.{ap₂}
use ssmlib.Version.{split, atoi, compare_components, supports_version}

-- `Reads ts xs`: the components are the decimal integers `xs`.
pub data Reads : List Bytes → List ℤ → Type 0 where
  nil : Reads [] []
  cons :
      {t : Bytes} {ts : List Bytes} {x : ℤ} {xs : List ℤ}
      → atoi t ≡ some x
      → Reads ts xs
      → Reads (t ∷ ts) (x ∷ xs)

-- The lexicographic order on lists of one length.
pub data LexLe : List ℤ → List ℤ → Type 0 where
  nil : LexLe [] []
  less : {x y : ℤ} {xs ys : List ℤ} → x <ℤ y → length xs ≡ length ys → LexLe (x ∷ xs) (y ∷ ys)
  same : {x y : ℤ} {xs ys : List ℤ} → x ≡ y → LexLe xs ys → LexLe (x ∷ xs) (y ∷ ys)

Reads-length : {ts : List Bytes} {xs : List ℤ} → Reads ts xs → length ts ≡ length xs
Reads-length nil = refl
Reads-length (cons e r) = ap suc (Reads-length r)

LexLe-length : {xs ys : List ℤ} → LexLe xs ys → length xs ≡ length ys
LexLe-length nil = refl
LexLe-length (less h e) = ap suc e
LexLe-length (same e l) = ap suc (LexLe-length l)

compare_step :
    (t a : Bytes) (ts as' : List Bytes) (x y : ℤ)
    → atoi t ≡ some x
    → atoi a ≡ some y
    → compare_components (t ∷ ts) (a ∷ as')
      ≡ (if ltb_ℤ x y then true else if ltb_ℤ y x then false else compare_components ts as')
unfolding compare_components
compare_step t a ts as' x y e e' = rw (e, e', compare_components)

-- What a round that answers `true` has seen.
round_true :
    (x y : ℤ) (rest : Bool)
    → (if ltb_ℤ x y then true else if ltb_ℤ y x then false else rest) ≡ true
    → (x <ℤ y) ⊎ ((x ≡ y) × (rest ≡ true))
round_true x y rest h = elim (Bool-cases (ltb_ℤ x y)) [
  | inl lt ↦ inl (ltb_ℤ→lt x y lt)
  | inr ge ↦ elim (Bool-cases (ltb_ℤ y x)) [
    | inl gt ↦ cc (rw (ge, gt) at h)
    | inr le ↦ inr (ltb_ℤ_antisym x y ge le, rw (ge, le) at h)
  ]
]

compare_sound :
    {ts as' : List Bytes} {xs ys : List ℤ}
    → Reads ts xs
    → Reads as' ys
    → length xs ≡ length ys
    → compare_components ts as' ≡ true
    → LexLe xs ys
compare_sound nil nil l h = nil
compare_sound nil (cons e s) l h = absurd (omega arith)
compare_sound (cons e r) nil l h = absurd (omega arith)
compare_sound (cons {x = x} e r) (cons {x = y} e' s) l h =
    elim (round_true x y _ (sym (compare_step _ _ _ _ x y e e') ∙ h)) [
      | inl lt ↦ less lt (omega arith)
      | inr (eq, rest) ↦ same eq (compare_sound r s (omega arith) rest)
    ]

compare_complete :
    {ts as' : List Bytes} {xs ys : List ℤ}
    → Reads ts xs
    → Reads as' ys
    → LexLe xs ys
    → compare_components ts as' ≡ true
compare_complete nil nil nil = unfold compare_components in refl
compare_complete nil (cons e s) l = elim l [ ]
compare_complete (cons e r) nil l = elim l [ ]
compare_complete (cons {x = x} e r) (cons {x = y} e' s) (less h l) =
    compare_step _ _ _ _ x y e e' ∙ rw (lt→ltb_ℤ x y h)
compare_complete (cons {x = x} e r) (cons {x = y} e' s) (same h l) =
    compare_step _ _ _ _ x y e e' ∙ rw (h, ltb_ℤ_irrefl y) (compare_complete r s l)

supports_version-compare :
    (v agent : Bytes)
    → length (split v) ≡ length (split agent)
    → supports_version v agent ≡ compare_components (split v) (split agent)
unfolding supports_version
supports_version-compare v agent e = rw (e, ==_refl (length (split agent)))

supports_version-length :
    (v agent : Bytes) → supports_version v agent ≡ true → length (split v) ≡ length (split agent)
unfolding supports_version
supports_version-length v agent h = elim (Bool-cases (length (split v) == length (split agent))) [
  | inl e ↦ (==_iff (length (split v)) (length (split agent))).0 e
  | inr e ↦ cc (rw e at h)
]

-- Where every component of two versions is a decimal integer, the flag supports the agent's version
-- exactly when it is lexicographically at most that version and has as many components.
pub supports_version_iff :
    (v agent : Bytes) (xs ys : List ℤ)
    → Reads (split v) xs
    → Reads (split agent) ys
    → (supports_version v agent ≡ true) ↔ LexLe xs ys
supports_version_iff v agent xs ys r s = (
  λ h.
      let e = supports_version-length v agent h in
      compare_sound r s (sym (Reads-length r) ∙ e ∙ Reads-length s)
        (sym (supports_version-compare v agent e) ∙ h),
  λ l.
      supports_version-compare v agent (Reads-length r ∙ LexLe-length l ∙ sym (Reads-length s))
      ∙ compare_complete r s l,
)

ℤ-cases : (x y : ℤ) → (x <ℤ y) ⊎ ((y <ℤ x) ⊎ (x ≡ y))
ℤ-cases x y = elim (Bool-cases (ltb_ℤ x y)) [
  | inl lt ↦ inl (ltb_ℤ→lt x y lt)
  | inr ge ↦ elim (Bool-cases (ltb_ℤ y x)) [
    | inl gt ↦ inr (inl (ltb_ℤ→lt y x gt))
    | inr le ↦ inr (inr (ltb_ℤ_antisym x y ge le))
  ]
]

LexLe-total : (xs ys : List ℤ) → length xs ≡ length ys → LexLe xs ys ⊎ LexLe ys xs
LexLe-total [] [] l = inl nil
LexLe-total [] (y ∷ ys) l = absurd (omega arith)
LexLe-total (x ∷ xs) [] l = absurd (omega arith)
LexLe-total (x ∷ xs) (y ∷ ys) l = elim (ℤ-cases x y) [
  | inl lt ↦ inl (less lt (omega arith))
  | inr (inl gt) ↦ inr (less gt (omega arith))
  | inr (inr e) ↦ elim (LexLe-total xs ys (omega arith)) [
    | inl le ↦ inl (same e le)
    | inr ge ↦ inr (same (sym e) ge)
  ]
]

LexLe-antisym : {xs ys : List ℤ} → LexLe xs ys → LexLe ys xs → xs ≡ ys
LexLe-antisym nil nil = refl
LexLe-antisym (less h l) (less k m) = absurd (omega arith)
LexLe-antisym (less h l) (same e m) = absurd (irrefl h e)
  where
    irrefl : {x y : ℤ} → x <ℤ y → y ≡ x → ⊥
    irrefl {x} {y} h e = omega (arith, ap pos_part e, ap neg_part e)
LexLe-antisym (same e l) (less k m) = absurd (irrefl k e)
  where
    irrefl : {x y : ℤ} → x <ℤ y → y ≡ x → ⊥
    irrefl {x} {y} h e = omega (arith, ap pos_part e, ap neg_part e)
LexLe-antisym (same e l) (same f m) = ap₂ ◌∷◌ e (LexLe-antisym l m)

supports_version_total :
    (v w : Bytes) (xs ys : List ℤ)
    → Reads (split v) xs
    → Reads (split w) ys
    → length xs ≡ length ys
    → (supports_version v w ≡ true) ⊎ (supports_version w v ≡ true)
supports_version_total v w xs ys r s l = elim (LexLe-total xs ys l) [
  | inl le ↦ inl ((supports_version_iff v w xs ys r s).1 le)
  | inr ge ↦ inr ((supports_version_iff w v ys xs s r).1 ge)
]

supports_version_antisym :
    (v w : Bytes) (xs ys : List ℤ)
    → Reads (split v) xs
    → Reads (split w) ys
    → supports_version v w ≡ true
    → supports_version w v ≡ true
    → xs ≡ ys
supports_version_antisym v w xs ys r s h k =
    LexLe-antisym ((supports_version_iff v w xs ys r s).0 h)
      ((supports_version_iff w v ys xs s r).0 k)

LexLe-refl : (xs : List ℤ) → LexLe xs xs
LexLe-refl [] = nil
LexLe-refl (x ∷ xs) = same refl (LexLe-refl xs)

-- Of two versions of as many decimal integers one supports the other, and they support one another
-- exactly when they are the same numbers.
pub supports_version_order :
    (v w : Bytes) (xs ys : List ℤ)
    → Reads (split v) xs
    → Reads (split w) ys
    → length xs ≡ length ys
    → ((supports_version v w ≡ true) ⊎ (supports_version w v ≡ true))
      × (((supports_version v w ≡ true) × (supports_version w v ≡ true)) ↔ (xs ≡ ys))
supports_version_order v w xs ys r s l = (
  supports_version_total v w xs ys r s l,
  (
    λ (h, k). supports_version_antisym v w xs ys r s h k,
    λ e. (
      (supports_version_iff v w xs ys r s).1 (subst (LexLe xs) e (LexLe-refl xs)),
      (supports_version_iff w v ys xs s r).1 (subst (λ zs. LexLe zs xs) e (LexLe-refl xs)),
    ),
  ),
)

compare_unread :
    (t a : Bytes) (back back' : List Bytes)
    → (atoi t ≡ none) ⊎ (atoi a ≡ none)
    → compare_components (t ∷ back) (a ∷ back') ≡ false
unfolding compare_components
compare_unread t a back back' (inl e) = rw (e, compare_components)
compare_unread t a back back' (inr e) = elim (Option-cases (atoi t)) [
  | inl n ↦ rw (n, compare_components)
  | inr (x, some_x) ↦ rw (some_x, e, compare_components)
]

compare_malformed :
    (front front' : List Bytes) (xs : List ℤ) (t a : Bytes) (back back' : List Bytes)
    → Reads front xs
    → Reads front' xs
    → (atoi t ≡ none) ⊎ (atoi a ≡ none)
    → compare_components (front ++ (t ∷ back)) (front' ++ (a ∷ back')) ≡ false
compare_malformed front front' xs t a back back' nil nil h = compare_unread t a back back' h
compare_malformed (t' ∷ front) [] (x ∷ xs) t a back back' (cons e r) s h = elim s [ ]
compare_malformed (t' ∷ front) (a' ∷ front') (x ∷ xs) t a back back' (cons e r) (cons e' s) h =
    compare_step t' a' _ _ x x e e'
    ∙ rw (ltb_ℤ_irrefl x) (compare_malformed front front' xs t a back back' r s h)

-- Where the components before are the same numbers, a component that is no decimal integer, on
-- either side, makes the versions not comparable.
pub supports_version_malformed :
    (v agent : Bytes) (front front' : List Bytes) (xs : List ℤ) (t a : Bytes)
    (back back' : List Bytes)
    → split v ≡ front ++ (t ∷ back)
    → split agent ≡ front' ++ (a ∷ back')
    → Reads front xs
    → Reads front' xs
    → (atoi t ≡ none) ⊎ (atoi a ≡ none)
    → supports_version v agent ≡ false
unfolding supports_version
supports_version_malformed v agent front front' xs t a back back' e e' r s h =
    elim (Bool-cases (length (split v) == length (split agent))) [
      | inl equal ↦ rw (equal, e, e') (compare_malformed front front' xs t a back back' r s h)
      | inr differ ↦ rw differ
    ]
