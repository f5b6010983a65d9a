-- ===== src/Shell/Examples.antt =====
-- The shell of kernel/shell.c on small inputs: tests, and the theorems on them.
use blue_star_os.Base.{
  ℕ, Bool, true, false, ◌≡◌, refl, none, some, List, [], ◌∷◌, get_or, arith, ◌==◌, if◌then◌else◌,
  utf8,
}
use blue_star_os.Shell.{Shell, shell_init}
use blue_star_os.Shell.Texts.{IsText, no_null-IsText}
use blue_star_os.Shell.Format.{
  word, text, shell_printf, repeat, shell_strcmp, fits, printf_from, convert, shell_directive,
  read_flags, read_width, shell_format_number, shell_utoa, shell_utoa_hex, padded, digits_onto,
  hex_digits_from,
}
use blue_star_os.Shell.History.{
  shell_save_to_history, shell_show_history_up, shell_show_history_down,
}
use blue_star_os.Shell.Lines.{arguments, commands, find_command, shell_execute_command}
use blue_star_os.Shell.Arguments.{
  split_words, until_blank, from_blank, drop_blanks, arguments-split_words,
}
use blue_star_os.Shell.Input.{line_of}
use blue_star_os.Shell.Invariant.{IsRow, IsShell, Holds}
use blue_star_os.Shell.Ring.{commands_of, remember, nth_newest, commands_of-save}
use blue_star_os.Shell.Recall.{Shows, show_up-Shows, show_down-Shows}
use blue_star_os.Shell.Sessions.{type_all, session-IsShell}
use blue_star_os.Shell.Overrun.{unknown_overrun}

-- Two commands kept, the cursor in the list at the newest.
abbrev two_kept : Shell
two_kept = record {
  input_buffer = λ x. 0;
  buffer_pos = 0;
  history = λ r. if r == 0 then utf8 "ls" else if r == 1 then utf8 "info" else [];
  history_count = 2;
  history_index = 1;
  history_pos = 2;
  escape_state = 0;
  printed = [];
}

rows-IsRow : (r : ℕ) → IsRow (two_kept.history r)
rows-IsRow r = pick (r == 0) (r == 1)
  where
    ls-IsRow : IsRow (utf8 "ls")
    ls-IsRow = record { fits = omega arith; is_text = no_null-IsText (utf8 "ls") refl }

    info-IsRow : IsRow (utf8 "info")
    info-IsRow = record { fits = omega arith; is_text = no_null-IsText (utf8 "info") refl }

    none-IsRow : IsRow []
    none-IsRow = record { fits = omega arith; is_text = tt }

    pick : (a b : Bool) → IsRow (if a then utf8 "ls" else if b then utf8 "info" else [])
    pick true b = ls-IsRow
    pick false true = info-IsRow
    pick false false = none-IsRow

two_kept-IsShell : IsShell two_kept
two_kept-IsShell = record {
  in_line = omega arith;
  few = omega arith;
  in_ring = omega arith;
  in_list = omega arith;
  state = omega arith;
  rows = rows-IsRow;
}

number_printed :
    shell_printf (utf8 " %3u: %s|%04x") (word 7 ∷ text (utf8 "ls") ∷ word 0xAB ∷ [])
    ≡ some (utf8 "   7: ls|00ab")
unfolding shell_printf fits printf_from convert shell_directive read_flags read_width
    shell_format_number shell_utoa shell_utoa_hex padded digits_onto hex_digits_from
number_printed = refl

session-IsShell_example :
    Holds IsShell (type_all (b'l' ∷ b's' ∷ 10 ∷ 27 ∷ b'[' ∷ b'A' ∷ []) (shell_init two_kept))
session-IsShell_example =
    session-IsShell (b'l' ∷ b's' ∷ 10 ∷ 27 ∷ b'[' ∷ b'A' ∷ []) two_kept rows-IsRow

commands_of-save_example :
    commands_of (shell_save_to_history (utf8 "cls") two_kept)
    ≡ remember (utf8 "cls") (commands_of two_kept)
commands_of-save_example = commands_of-save (utf8 "cls") two_kept two_kept-IsShell

show_up-Shows_example : Shows (shell_show_history_up two_kept) (nth_newest two_kept 1) 0
show_up-Shows_example = show_up-Shows two_kept two_kept-IsShell (omega arith)

show_down-Shows_example : Shows (shell_show_history_down two_kept) (line_of two_kept) 2
show_down-Shows_example = show_down-Shows two_kept two_kept-IsShell (omega arith)

abbrev echo_line : List ℕ
echo_line = utf8 "echo a  b "

echo_line-IsText : IsText echo_line
echo_line-IsText = no_null-IsText echo_line refl

arguments-split_words_example : arguments echo_line ≡ split_words 15 echo_line
arguments-split_words_example = arguments-split_words echo_line echo_line-IsText (omega arith)

words_of_echo : split_words 15 echo_line ≡ utf8 "echo" ∷ utf8 "a" ∷ utf8 "b" ∷ []
unfolding split_words until_blank from_blank drop_blanks
words_of_echo = refl

abbrev long_name : List ℕ
long_name = repeat 240 b'z'

long_name_alone : get_or (split_words 15 long_name) 0 [] ≡ long_name
unfolding split_words until_blank
long_name_alone = refl

long_name_known : get_or (arguments long_name) 0 [] ≡ long_name
long_name_known =
    rw (arguments-split_words long_name (no_null-IsText long_name refl) (omega arith))
      long_name_alone

long_name_unknown : find_command long_name commands ≡ none
unfolding find_command shell_strcmp
long_name_unknown = refl

unknown_overrun_example : shell_execute_command long_name two_kept ≡ none
unknown_overrun_example =
    unknown_overrun long_name two_kept (rw long_name_known long_name_unknown)
      (rw long_name_known (omega arith))
