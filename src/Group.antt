-- ===== src/Group.antt =====
-- golang.org/x/sync/errgroup as an interface, with what its documentation says: the context of a
-- group is done once a function that was passed to `Go` has returned an error, and its cause, which
-- `Wait` returns too, is the first such error.
use ssmlib.Common.{◌≡◌, Bool, true, false, Option, none, some}
use ssmlib.Errors.{Error}

-- The first error of two.
abbrev pub or_else : Option Error → Option Error → Option Error
or_else none later = later
or_else (some e) later = some e

abbrev pub is_some : Option Error → Bool
is_some none = false
is_some (some e) = true

pub record Errgroup : Type 1 where
  pub Group : Type 0
  pub fresh : Group
  -- a function returns an error or nil
  pub finish : Option Error → Group → Group
  pub first : Group → Option Error
  pub first-fresh : first fresh ≡ none
  pub first-finish : (r : Option Error) (g : Group) → first (finish r g) ≡ or_else (first g) r
