-- ===== src/Desktop/Console.antt =====
-- The terminal window of kernel/kmain.c: `draw_terminal_window`, `term_putc` and `term_puts`.
use blue_star_os.Base.{
  ℕ, zero, suc, ◌+◌, ◌/◌, ◌^◌, Option, none, some, List, [], ◌∷◌, length, utf8, ◌==◌, ltb,
  if◌then◌else◌, u32, sub32,
}
use blue_star_os.Graphics.{Screen, draw_rect}
use blue_star_os.Text.{Fonts, put_char, print_string}
use blue_star_os.Desktop.{Terminal}

abbrev pub draw_on : (Screen → Screen) → Terminal → Terminal
draw_on f t = record t { screen = f t.screen }

draw_terminal_window : Fonts → Terminal → Option Terminal
draw_terminal_window fonts t =
    let bar = draw_rect t.x t.y t.w 28 0x224488 t.screen in
    let (titled, returns) =
      print_string fonts (utf8 "MWOS System Terminal v1.0") (u32 (t.x + 10)) (u32 (t.y + 6))
        0xFFFFFF bar in
    if returns
    then some
        (record t { screen = draw_rect t.x (u32 (t.y + 28)) t.w (sub32 t.h 28) t.bg_color titled })
    else none

-- Where a character is drawn.
abbrev pub real_x : Terminal → ℕ
real_x t = u32 (t.x + t.cursor_x)

abbrev pub real_y : Terminal → ℕ
real_y t = u32 (t.y + 28 + t.cursor_y)

abbrev pub line_feed : Terminal → Terminal
line_feed t = record t { cursor_x = 8; cursor_y = u32 (t.cursor_y + 18) }

abbrev pub move_cursor : ℕ → Terminal → Terminal
move_cursor pixels t = record t { cursor_x = u32 (t.cursor_x + pixels) }

-- The next line, where the cursor is at the right edge.
unfoldable pub wrap_line : Terminal → Terminal
wrap_line t = if ltb t.w (u32 (t.cursor_x + 16)) then line_feed t else t

-- An empty window, where the cursor is below the last line.
unfoldable pub scroll : Terminal → Terminal
scroll t =
    if ltb (sub32 t.h 30) (u32 (t.cursor_y + 18))
    then record (draw_on (draw_rect t.x (u32 (t.y + 28)) t.w (sub32 t.h 28) t.bg_color) t) {
      cursor_y = 8;
    }
    else t

unfoldable pub term_putc : Fonts → ℕ → Terminal → Terminal
term_putc fonts c t =
    let drawn = draw_on (put_char fonts c (real_x t) (real_y t) t.text_color) t in
    scroll (
      if c == 10
      then line_feed t
      else if c == 13
      then record t { cursor_x = 8 }
      else wrap_line (move_cursor 8 drawn))

-- The first character of a string and the string behind it; none where the null byte stands inside
-- a sequence of three bytes, since the code then goes on behind it.
unfoldable pub put_first : Fonts → ℕ → List ℕ → Terminal → Option (Terminal × List ℕ)
put_first fonts c cs t =
    if c == 10
    then some (line_feed t, cs)
    else if c == 13
    then some (record t { cursor_x = 8 }, cs)
    else if ltb c 0x80
    then some (move_cursor 8 (draw_on (put_char fonts c (real_x t) (real_y t) t.text_color) t), cs)
    else if c / 2 ^ 5 == 7
    then elim cs [
      | [] ↦ none
      | a ∷ cs' ↦ elim cs' [
        | [] ↦ none
        | b ∷ rest ↦
            let (s, returns) =
              print_string fonts (c ∷ a ∷ b ∷ []) (real_x t) (real_y t) t.text_color t.screen in
            if returns then some (move_cursor 16 (record t { screen = s }), rest) else none
      ]
    ]
    else some (t, cs)

-- `term_puts`: as many rounds as the string is long are enough.
unfoldable pub puts_from : ℕ → Fonts → List ℕ → Terminal → Option Terminal
puts_from n fonts [] t = some t
puts_from zero fonts (c ∷ cs) t = none
puts_from (suc n) fonts (c ∷ cs) t = elim (put_first fonts c cs t) [
  | none ↦ none
  | some (t', rest) ↦ puts_from n fonts rest (scroll (wrap_line t'))
]

abbrev pub term_puts : Fonts → List ℕ → Terminal → Option Terminal
term_puts fonts str t = puts_from (length str) fonts str t
