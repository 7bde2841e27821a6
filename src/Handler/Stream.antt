-- ===== src/Handler/Stream.antt =====
-- `getTerminalSize` of handler/stream.go with the default size of handler/termsize.go: which size
-- the loop of Terminal asks for at each tick. Its life is that of Life.
use ssmlib.Common.{ℕ, zero, suc, List, [], ◌∷◌, ◌++◌, Option, none, some}

abbrev pub default_terminal_width : ℕ
default_terminal_width = 80

abbrev pub default_terminal_height : ℕ
default_terminal_height = 24

-- The width and the height at each tick, counted from 0, failed or not.
abbrev pub TerminalSize : Type 0
TerminalSize = ℕ → ℕ × ℕ

abbrev pub default_terminal_size_func : TerminalSize
default_terminal_size_func tick = (default_terminal_width, default_terminal_height)

-- The field `TerminalSize`, and the `Fd` of the field `Writer` if it has one.
pub record Stream : Type 0 where
  pub terminal_size : Option TerminalSize
  pub writer_fd : Option ℕ

-- `get_size` is `term.GetSize`.
unfoldable pub get_terminal_size : (ℕ → TerminalSize) → Stream → TerminalSize
get_terminal_size get_size s = elim s.terminal_size [
  | some size ↦ size
  | none ↦ elim s.writer_fd [ none ↦ default_terminal_size_func | some fd ↦ get_size fd ]
]

-- What the first ticks of the loop find.
abbrev pub sizes : TerminalSize → ℕ → List (ℕ × ℕ)
sizes size zero = []
sizes size (suc n) = sizes size n ++ (size n ∷ [])
