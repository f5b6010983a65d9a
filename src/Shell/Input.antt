-- ===== src/Shell/Input.antt =====
-- `shell_process_char` of kernel/shell.c: one byte from the keyboard.
use blue_star_os.Base.{
  ℕ, ◌+◌, ◌-◌, Option, none, some, List, [], ◌∷◌, ◌==◌, ltb, leb, ◌&&◌, ◌||◌, if◌then◌else◌, store,
  text_in, utf8,
}
use blue_star_os.Shell.{Shell, max_cmd_len, shell_print, shell_print_prompt}
use blue_star_os.Shell.History.{
  shell_save_to_history, shell_show_history_up, shell_show_history_down,
}
use blue_star_os.Shell.Lines.{shell_execute_command}

-- The line as a string, which is saved and carried out.
abbrev pub entered : Shell → Shell
entered s =
    shell_print (utf8 "\n") (record s { input_buffer = store s.input_buffer s.buffer_pos 0 })

abbrev pub line_of : Shell → List ℕ
line_of s = text_in max_cmd_len (store s.input_buffer s.buffer_pos 0) 0

abbrev pub next_line : List ℕ → Shell → Shell
next_line shown s = record (shell_print_prompt (shell_print shown s)) {
  buffer_pos = 0;
  history_index = s.history_count;
}

-- The enter key; none where a command writes behind an array.
unfoldable pub enter : Shell → Option Shell
enter s =
    let s1 = shell_save_to_history (line_of s) (entered s) in
    if ltb 0 s.buffer_pos
    then elim (shell_execute_command (line_of s) s1) [
      | none ↦ none
      | some shown ↦ some (next_line shown s1)
    ]
    else some (shell_print_prompt s)

unfoldable pub type_char : ℕ → Shell → Shell
type_char c s =
    if ltb s.buffer_pos (max_cmd_len - 1) && leb 32 c && leb c 126
    then shell_print (c ∷ []) (record s {
      input_buffer = store s.input_buffer s.buffer_pos c;
      buffer_pos = s.buffer_pos + 1;
    })
    else s

unfoldable pub erase : Shell → Shell
erase s =
    if ltb 0 s.buffer_pos
    then shell_print (8 ∷ b' ' ∷ 8 ∷ []) (record s { buffer_pos = s.buffer_pos - 1 })
    else s

abbrev pub escape : ℕ → Shell → Shell
escape state s = record s { escape_state = state }

-- The byte behind the escape, and the one behind the bracket.
unfoldable pub arrow : ℕ → Shell → Shell
arrow c s = escape 0 (
    if c == b'A'
    then shell_show_history_up s
    else if c == b'B'
    then shell_show_history_down s
    else s)

unfoldable pub shell_process_char : ℕ → Shell → Option Shell
shell_process_char c s =
    if s.escape_state == 1
    then some (if c == b'[' then escape 2 s else escape 0 s)
    else if s.escape_state == 2
    then some (arrow c s)
    else if c == 0x1B
    then some (escape 1 s)
    else if (c == 10) || (c == 13)
    then enter s
    else if c == 8
    then some (erase s)
    else some (type_char c s)
