-- ===== src/Shell/Overrun.antt =====
-- The message of kernel/shell.c on an unknown command, whose text does not fit the array.
use blue_star_os.Base.{
  ℕ, suc, ◌≤◌, ◌≡◌, refl, false, none, some, List, [], ◌∷◌, ◌++◌, length, length-append, get_or, ap,
  ◌∙◌, arith, ltb, utf8,
}
use blue_star_os.Shell.{Shell}
use blue_star_os.Shell.Format.{
  text, shell_printf, fits, printf_from, convert, shell_directive, padded, read_flags, read_width,
}
use blue_star_os.Shell.Lines.{arguments, commands, find_command, shell_execute_command}

-- Once the array is full the rest of the format is left.
format_from_full :
    (n c : ℕ) (cs out : List ℕ) → 255 ≤ length out → printf_from (suc n) (c ∷ cs) [] out ≡ some out
unfolding printf_from
format_from_full n c cs out h =
    let full : ltb (length out) 255 ≡ false = ground arith in rw full refl

fits_not : (out : List ℕ) → 256 ≤ length out → fits (some out) ≡ none
unfolding fits
fits_not out h = let over : ltb (length out) 256 ≡ false = ground arith in rw over refl

padded_none : (name : List ℕ) → padded name false 0 ≡ name
unfolding padded
padded_none name = let wide : ltb (length name) 0 ≡ false = ground arith in rw wide refl

printf_overrun :
    (name : List ℕ)
    → 238 ≤ length name
    → shell_printf (utf8 "命令未找到: '%s'\n") (text name ∷ []) ≡ none
unfolding shell_printf printf_from convert shell_directive read_flags read_width
printf_overrun name long =
    let out = utf8 "命令未找到: '" ++ padded name false 0 in
    let size : 256 ≤ length out =
      rw (padded_none name) (omega (arith, length-append (utf8 "命令未找到: '") name)) in
    ap fits (format_from_full 3 b'\'' (10 ∷ []) out (omega (arith, size))) ∙ fits_not out size

-- For a command that is not in the table and whose name has 238 bytes or more,
-- shell_execute_command writes behind the array of shell_printf.
pub unknown_overrun :
    (line : List ℕ) (s : Shell)
    → find_command (get_or (arguments line) 0 []) commands ≡ none
    → 238 ≤ length (get_or (arguments line) 0 [])
    → shell_execute_command line s ≡ none
unfolding shell_execute_command
unknown_overrun line s unknown long =
    rw (shell_execute_command, unknown, printf_overrun (get_or (arguments line) 0 []) long) refl
