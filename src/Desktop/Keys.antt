-- ===== src/Desktop/Keys.antt =====
-- `on_keyboard_pressed` and `clear_input_buffer` of kernel/kmain.c: the line that is typed.
use blue_star_os.Base.{
  ℕ, ◌+◌, ◌-◌, Option, none, some, List, ◌==◌, ltb, ◌||◌, if◌then◌else◌, store, fill, text_in, utf8,
}
use blue_star_os.Graphics.{draw_rect}
use blue_star_os.Text.{Fonts}
use blue_star_os.Shell.Format.{same_text}
use blue_star_os.Desktop.{Terminal, Desk}
use blue_star_os.Desktop.Console.{draw_on, real_x, real_y, term_putc, term_puts}

abbrev pub max_command_len : ℕ
max_command_len = 256

abbrev pub clear_input_buffer : Desk → Desk
clear_input_buffer d = record d {
  input_buffer = fill d.input_buffer 0 0 max_command_len;
  input_index = 0;
}

abbrev pub with_term : Option Terminal → Desk → Option Desk
with_term none d = none
with_term (some t) d = some (record d { term = t })

-- Two prints in a row.
abbrev pub and_puts : Fonts → List ℕ → Option Terminal → Option Terminal
and_puts fonts str none = none
and_puts fonts str (some t) = term_puts fonts str t

-- What the line, which `strcmp` takes up to its null byte, is answered with. The test for equal
-- strings is the one of the shell, which agrees with `strcmp`.
unfoldable pub answer : Fonts → List ℕ → Terminal → Option Terminal
answer fonts line t =
    if same_text line (utf8 "version")
    then term_puts fonts (utf8 "NovaVector MWOS V1.0.0\n(C) NovaVector Studio 保留所有权利\n") t
    else if same_text line (utf8 "/kill McLDY")
    then term_puts fonts (utf8 "McLDY was slain by _Undefiend404\n") t
    else elim (and_puts fonts line (term_puts fonts (utf8 "Unknown command: ") t)) [
      | none ↦ none
      | some t' ↦ some (term_putc fonts 10 t')
    ]

-- The enter key.
unfoldable pub press_enter : Fonts → Desk → Option Desk
press_enter fonts d =
    let t = term_putc fonts 10 d.term in
    let answered =
      if ltb 0 d.input_index
      then answer fonts (text_in max_command_len d.input_buffer 0) t
      else some t in
    with_term (and_puts fonts (utf8 "Root@MWOS: /# ") answered) (clear_input_buffer d)

unfoldable pub rub_out : Terminal → Terminal
rub_out t =
    let back = record t { cursor_x = t.cursor_x - 8 } in
    if ltb 8 t.cursor_x
    then draw_on (draw_rect (real_x back) (real_y back) 8 16 t.bg_color) back
    else t

unfoldable pub backspace : Desk → Desk
backspace d =
    let index = d.input_index - 1 in
    if ltb 0 d.input_index
    then record d {
      term = rub_out d.term;
      input_buffer = store d.input_buffer index 0;
      input_index = index;
    }
    else d

unfoldable pub press_char : Fonts → ℕ → Desk → Desk
press_char fonts c d =
    let index = d.input_index + 1 in
    if ltb d.input_index (max_command_len - 1)
    then record d {
      term = term_putc fonts c d.term;
      input_buffer = store (store d.input_buffer d.input_index c) index 0;
      input_index = index;
    }
    else d

unfoldable pub on_keyboard_pressed : Fonts → ℕ → Desk → Option Desk
on_keyboard_pressed fonts final_char d =
    if final_char == 0
    then some d
    else if (final_char == 10) || (final_char == 13)
    then press_enter fonts d
    else if final_char == 8
    then some (backspace d)
    else some (press_char fonts final_char d)
