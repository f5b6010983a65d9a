-- ===== src/Shell.antt =====
-- kernel/shell.c: the line editor with its history, and the commands.
--
-- A string that a pointer names is the list of its bytes; the input line, which is changed in place,
-- is an array. What is printed, on the serial port and through `g_term_output`, is kept in order.
pub mod Texts
pub mod Format
pub mod Lines
pub mod History
pub mod Arguments
pub mod Input
pub mod Invariant
pub mod Ring
pub mod Recall
pub mod Sessions
pub mod Overrun
mod Examples
use blue_star_os.Base.{ℕ, zero, suc, ◌+◌, List, [], ◌∷◌, ◌++◌, Bytes, utf8, ltb}

abbrev pub max_cmd_len : ℕ
max_cmd_len = 256

abbrev pub max_args : ℕ
max_args = 16

abbrev pub max_history : ℕ
max_history = 10

-- `shell_state_t`, with what has been printed. A row of the history is the string in it.
pub record Shell : Type 0 where
  pub input_buffer : Bytes
  pub buffer_pos : ℕ
  pub history : ℕ → List ℕ
  pub history_count : ℕ
  pub history_index : ℕ
  pub history_pos : ℕ
  pub escape_state : ℕ
  pub printed : List ℕ

unfoldable pub shell_print : List ℕ → Shell → Shell
shell_print str s = record s { printed = s.printed ++ str }

abbrev pub shell_print_prompt : Shell → Shell
shell_print_prompt s = shell_print (utf8 "\nMWOS> ") s

unfoldable pub shell_init : Shell → Shell
shell_init s =
    let s = record s {
      buffer_pos = 0;
      history_count = 0;
      history_index = 0;
      history_pos = 0;
      escape_state = 0;
    } in
    let s = shell_print (utf8 "\n") s in
    let s = shell_print (utf8 "========================================\n") s in
    let s = shell_print (utf8 "      MWOS Shell v1.0      \n") s in
    let s = shell_print (utf8 "========================================\n") s in
    let s = shell_print (utf8 "输入 'help' 查看可用命令\n") s in
    let s = shell_print (utf8 "支持上下键浏览历史记录 (^[[A / ^[[B)\n") s in shell_print_prompt s
