-- ===== src/Shell/History.antt =====
-- The history of kernel/shell.c: a ring of ten rows.
use blue_star_os.Base.{
  ℕ, ◌+◌, ◌-◌, ◌%◌, List, [], ◌∷◌, length, ◌==◌, ltb, ◌&&◌, if◌then◌else◌, u32, sub32, store,
  text_in, write_text, utf8,
}
use blue_star_os.Shell.{Shell, max_cmd_len, max_history, shell_print}
use blue_star_os.Shell.Format.{same_text}

-- The row of the newest command, and the one that `history_index` stands at.
abbrev pub newest : Shell → ℕ
newest s = u32 (s.history_pos + max_history - 1) % max_history

abbrev pub row_at : Shell → ℕ → ℕ
row_at s index =
    sub32 (u32 (s.history_pos + max_history)) (sub32 s.history_count index) % max_history

unfoldable pub shell_save_to_history : List ℕ → Shell → Shell
shell_save_to_history cmd s =
    let at = s.history_pos in
    let count = if ltb s.history_count max_history then s.history_count + 1 else s.history_count in
    if length cmd == 0
    then s
    else if ltb 0 s.history_count && same_text cmd (s.history (newest s))
    then s
    else record s {
      history = λ r. if r == at then cmd else s.history r;
      history_pos = u32 (at + 1) % max_history;
      history_count = count;
      history_index = count;
    }

abbrev pub shell_clear_line : Shell → Shell
shell_clear_line s = shell_print (0x1B ∷ utf8 "[K") s

-- The line up to the cursor is printed with a null byte behind it, which is taken back.
unfoldable pub shell_refresh_line : Shell → Shell
shell_refresh_line s =
    let s1 = shell_print (utf8 "MWOS> ") (shell_print (13 ∷ []) (shell_clear_line s)) in
    if ltb 0 s.buffer_pos
    then shell_print (text_in max_cmd_len (store s.input_buffer s.buffer_pos 0) 0) s1
    else s1

-- `strcpy(g_shell.input_buffer, hist_cmd); g_shell.buffer_pos = strlen(hist_cmd);`.
abbrev pub recall : ℕ → Shell → Shell
recall row s = record s {
  input_buffer = write_text (s.history row) s.input_buffer 0;
  buffer_pos = length (s.history row);
}

abbrev pub end_line : Shell → Shell
end_line s = record s { input_buffer = store s.input_buffer s.buffer_pos 0 }

unfoldable pub shell_show_history_up : Shell → Shell
shell_show_history_up s =
    let s1 = if s.history_index == s.history_count then end_line s else s in
    let index = s.history_index - 1 in
    if s.history_count == 0
    then s
    else if ltb 0 s.history_index
    then shell_refresh_line (recall (row_at s index) (record s1 { history_index = index }))
    else s1

unfoldable pub shell_show_history_down : Shell → Shell
shell_show_history_down s =
    let index = u32 (s.history_index + 1) in
    let s1 = record s { history_index = index } in
    if s.history_count == 0
    then s
    else if ltb s.history_index s.history_count
    then shell_refresh_line
        (if index == s.history_count then end_line s1 else recall (row_at s index) s1)
    else s
