-- ===== src/Shell/Lines.antt =====
-- `shell_execute_command` of kernel/shell.c and the commands, each as the text that it prints: none
-- of them changes the shell's state.
use Prim.Native.String.{String}
use blue_star_os.Base.{
  ℕ, zero, suc, ◌+◌, ◌%◌, Option, none, some, List, [], ◌∷◌, ◌++◌, map, length, get_or, ◌==◌, ltb,
  ◌||◌, not, if◌then◌else◌, u32, sub32, Bytes, store, text_in, write_text, utf8,
}
use blue_star_os.Shell.{Shell, max_cmd_len, max_args, max_history}
use blue_star_os.Shell.Format.{same_text, word, text, shell_printf, shell_strtoul}

abbrev Print : Type 0
Print = Option (List ℕ)

infixr 6 ◌then◌
abbrev ◌then◌ : Print → Print → Print
none then b = none
(some s) then none = none
(some s) then (some t) = some (s ++ t)

abbrev say : String → Print
say s = some (utf8 s)

-- The first place from `at` on that is not a blank, `n` places at most.
abbrev pub skip_spaces : ℕ → Bytes → ℕ → ℕ
skip_spaces zero line at = at
skip_spaces (suc n) line at =
    let rest = skip_spaces n line (at + 1) in if line at == b' ' then rest else at

-- The split of a line in place: the places of the arguments so far are `argv`. A round for every
-- byte of the array is enough.
unfoldable pub split_from : ℕ → Bytes → ℕ → List ℕ → Bytes × List ℕ
split_from zero line at argv = (line, argv)
split_from (suc n) line at argv =
    let ended = store line at 0 in
    let next = skip_spaces n ended (at + 1) in
    let after_blank =
      split_from n ended next (if ended next == 0 then argv else argv ++ (next ∷ [])) in
    let after_byte = split_from n line (at + 1) argv in
    if (line at == 0) || not (ltb (length argv) max_args)
    then (line, argv)
    else if line at == b' '
    then after_blank
    else after_byte

-- The arguments of a command line, cut in a copy of it.
unfoldable pub arguments : List ℕ → List (List ℕ)
arguments cmd_line =
    let (line, argv) = split_from max_cmd_len (write_text cmd_line (λ x. 0) 0) 0 (0 ∷ []) in
    map (text_in max_cmd_len line) argv

pub data Command : Type 0 where
  help clear echo info hexdump reboot shutdown history list_dir : Command

-- `command_t`, with a handler's name for its address.
pub record Entry : Type 0 where
  pub name : String
  pub description : String
  pub handler : Command

abbrev pub table_entry : String → String → Command → Entry
table_entry name description handler = record {
  name = name;
  description = description;
  handler = handler;
}

abbrev pub commands : List Entry
commands =
    table_entry "help" "显示帮助信息" help
    ∷ table_entry "?" "显示帮助信息" help
    ∷ table_entry "clear" "清屏" clear
    ∷ table_entry "cls" "清屏" clear
    ∷ table_entry "echo" "回显参数" echo
    ∷ table_entry "info" "系统信息" info
    ∷ table_entry "hexdump" "内存查看: hexdump <addr> <len>" hexdump
    ∷ table_entry "reboot" "重启系统" reboot
    ∷ table_entry "shutdown" "关机" shutdown
    ∷ table_entry "history" "显示命令历史" history
    ∷ table_entry "ls" "列出目录" list_dir
    ∷ []

help_lines : List Entry → Print
help_lines [] = some []
help_lines (e ∷ es) =
    shell_printf (utf8 "  %-12s - %s\n") (text (utf8 e.name) ∷ text (utf8 e.description) ∷ [])
    then help_lines es

cmd_help : Print
cmd_help =
    shell_printf (utf8 "可用命令:\n") []
    then shell_printf (utf8 "%s\n") (text (utf8 "===========") ∷ [])
    then help_lines commands

cmd_clear : Print
cmd_clear = some (0x1B ∷ utf8 "[2J" ++ (0x1B ∷ utf8 "[H"))

-- The arguments behind the first, with a blank between two.
cmd_echo : List (List ℕ) → Print
cmd_echo [] = say "\n"
cmd_echo (a ∷ []) = some (a ++ utf8 "\n")
cmd_echo (a ∷ b ∷ argv) = some (a ++ utf8 " ") then cmd_echo (b ∷ argv)

cmd_info : Shell → Print
cmd_info s =
    shell_printf (utf8 "%s\n") (text (utf8 "===== 系统信息 =====") ∷ [])
    then shell_printf (utf8 "内核版本: %s\n") (text (utf8 "MWOS v1.0") ∷ [])
    then shell_printf (utf8 "命令数量: %u\n") (word (length commands) ∷ [])
    then shell_printf (utf8 "历史记录: %u/%u\n") (word s.history_count ∷ word max_history ∷ [])
    then shell_printf (utf8 "%s\n") (text (utf8 "===================") ∷ [])

-- The rows of the history from the oldest on, `n` of them, the first numbered `i + 1`.
history_lines : ℕ → ℕ → Shell → Print
history_lines zero i s = some []
history_lines (suc n) i s =
    let row = u32 (sub32 (u32 (s.history_pos + max_history)) s.history_count + i) % max_history in
    shell_printf (utf8 " %3u: %s\n") (word (i + 1) ∷ text (s.history row) ∷ [])
    then history_lines n (i + 1) s

cmd_history : Shell → Print
cmd_history s =
    if s.history_count == 0
    then say "历史记录为空\n"
    else (shell_printf (utf8 "命令历史记录（最近%u条）:\n") (word s.history_count ∷ [])
        then shell_printf (utf8 "%s\n") (text (utf8 "===================") ∷ [])
        then history_lines s.history_count 0 s)

cmd_hexdump : List (List ℕ) → Print
cmd_hexdump argv =
    let len = (shell_strtoul (get_or argv 2 []) 0).0 in
    let shown = if ltb 256 len then 256 else len in
    if ltb (length argv) 3
    then say "用法: hexdump <地址> <长度>\n"
    then say "示例: hexdump 0x1000 64\n"
    else (shell_printf (utf8 "内存查看 @ %s, 长度: %u\n") (text (get_or argv 1 []) ∷ word shown ∷ [])
        then say "（注意：内存读取功能需要实现）\n")

pub run : Command → List (List ℕ) → Shell → Print
run help argv s = cmd_help
run clear argv s = cmd_clear
run echo [] s = cmd_echo []
run echo (name ∷ argv) s = cmd_echo argv
run info argv s = cmd_info s
run hexdump argv s = cmd_hexdump argv
run reboot argv s = say "正在重启系统...\n" then say "（重启功能需要实现）\n"
run shutdown argv s = say "正在关机...\n" then say "（关机功能需要实现）\n"
run history argv s = cmd_history s
run list_dir argv s = shell_printf (utf8 "不支持的功能/Unsupported function") []

-- The first entry of the table with the name.
unfoldable pub find_command : List ℕ → List Entry → Option Command
find_command name [] = none
find_command name (e ∷ es) =
    let rest = find_command name es in if same_text name (utf8 e.name) then some e.handler else rest

-- What `shell_execute_command` prints before the next prompt.
unfoldable pub shell_execute_command : List ℕ → Shell → Print
shell_execute_command cmd_line s =
    let argv = arguments cmd_line in
    elim (find_command (get_or argv 0 []) commands) [
      | some command ↦ run command argv s
      | none ↦
          shell_printf (utf8 "命令未找到: '%s'\n") (text (get_or argv 0 []) ∷ [])
          then say "输入 'help' 查看可用命令\n"
    ]
