-- ===== src/Shell/Sessions.antt =====
-- Sequences of bytes typed into kernel/shell.c from its start on.
use blue_star_os.Base.{ℕ, Option, none, some, List, [], ◌∷◌, arith}
use blue_star_os.Shell.{Shell, shell_init, shell_print}
use blue_star_os.Shell.Input.{shell_process_char}
use blue_star_os.Shell.Invariant.{IsRow, IsShell, Holds, shell_process_char-IsShell}

-- One byte after the other.
pub type_all : List ℕ → Shell → Option Shell
type_all [] s = some s
type_all (c ∷ cs) s = elim (shell_process_char c s) [ none ↦ none | some s' ↦ type_all cs s' ]

shell_init-IsShell : (s : Shell) → ((r : ℕ) → IsRow (s.history r)) → IsShell (shell_init s)
unfolding shell_init shell_print
shell_init-IsShell s rows = record {
  in_line = omega arith;
  few = omega arith;
  in_ring = omega arith;
  in_list = omega arith;
  state = omega arith;
  rows = rows;
}

Holds-after :
    (o : Option Shell) (k : Shell → Option Shell)
    → Holds IsShell o
    → ((s' : Shell) → IsShell s' → Holds IsShell (k s'))
    → Holds IsShell (elim o as (λ x. Option Shell) [ none ↦ none | some s' ↦ k s' ])
Holds-after none k h f = tt
Holds-after (some s') k h f = f s' h

type_all-IsShell : (keys : List ℕ) (s : Shell) → IsShell s → Holds IsShell (type_all keys s)
unfolding type_all
type_all-IsShell [] s w = w
type_all-IsShell (c ∷ cs) s w =
    Holds-after (shell_process_char c s) (type_all cs) (shell_process_char-IsShell c s w)
      λ s' w'. type_all-IsShell cs s' w'

-- Whatever bytes are typed into the shell after its start, over rows of the history that hold
-- strings: where no command overruns an array, the cursor is inside the line, the counts and the
-- position inside the history, the escape state is 0, 1 or 2, and every row holds a string with
-- its null byte.
pub session-IsShell :
    (keys : List ℕ) (s : Shell)
    → ((r : ℕ) → IsRow (s.history r))
    → Holds IsShell (type_all keys (shell_init s))
session-IsShell keys s rows = type_all-IsShell keys (shell_init s) (shell_init-IsShell s rows)
