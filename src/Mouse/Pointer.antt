-- ===== src/Mouse/Pointer.antt =====
-- The pointer of kernel/drivers/ps2_mouse.c: its shape, and the pixels below it.
mod Saves
mod Traces
pub mod Restore
use Prim.Native.String.{String}
use blue_star_os.Base.{
  ℕ, zero, suc, ◌+◌, ◌-◌, ◌*◌, ◌^◌, Bool, true, false, List, [], ◌∷◌, get_or, utf8, ◌==◌, ltb, leb,
  ◌||◌, if◌then◌else◌, u32, store,
}
use blue_star_os.Graphics.{Screen, pitch_pixels, plot, put_pixel}
use blue_star_os.Mouse.{Mouse, cursor_w, cursor_h}

mouse_cursor : List String
mouse_cursor =
    "X               " ∷ "XX              " ∷ "X.X             " ∷ "X..X            "
    ∷ "X...X           " ∷ "X....X          " ∷ "X.....X         " ∷ "X......X        "
    ∷ "X.......X       " ∷ "X........X      " ∷ "X.........X     " ∷ "X..........X    "
    ∷ "X...........X   " ∷ "X............X  " ∷ "X.......XXXXXX  " ∷ "X..X....X       "
    ∷ "X.X X....X      " ∷ "XX  X....X      " ∷ "X    X....X     " ∷ "     X....X     "
    ∷ "      X....X    " ∷ "      X..XX     " ∷ "       XX       " ∷ "                " ∷ []

shape : ℕ → ℕ → ℕ
shape row col = get_or (utf8 (get_or mouse_cursor row "")) col 0

-- A pixel of the shape: a black edge, a white inside, or nothing.
draw_dot : ℕ → ℕ → ℕ → Screen → Screen
draw_dot dot x y s =
    if dot == b'X'
    then put_pixel x y 0x00000000 s
    else if dot == b'.'
    then put_pixel x y 0x00FFFFFF s
    else s

draw_dots : ℕ → ℕ → ℕ → ℕ → ℕ → Screen → Screen
draw_dots zero col row x y s = s
draw_dots (suc n) col row x y s =
    draw_dots n (col + 1) row x y (draw_dot (shape row col) (u32 (x + col)) (u32 (y + row)) s)

pub draw_lines : ℕ → ℕ → ℕ → ℕ → Screen → Screen
draw_lines zero row x y s = s
draw_lines (suc n) row x y s = draw_lines n (row + 1) x y (draw_dots cursor_w 0 row x y s)

pub draw_mouse_cursor : ℕ → ℕ → Screen → Screen
draw_mouse_cursor x y s = draw_lines cursor_h 0 x y s

-- The index of a pixel below the pointer.
abbrev pub below_at : ℕ → ℕ → ℕ → ℕ → ℕ → ℕ
below_at p x y i j = u32 ((y + i) * p + (x + j))

-- `n` pixels of the row `i` from the column `j` on into the buffer, and the rows from `i` on.
save_row : ℕ → ℕ → ℕ → ℕ → ℕ → Screen → (ℕ → ℕ) → ℕ → ℕ
save_row zero j i x y s back = back
save_row (suc n) j i x y s back =
    save_row n (j + 1) i x y s
      (store back (i * cursor_w + j) (s.pixels (below_at (pitch_pixels s) x y i j)))

pub save_rows : ℕ → ℕ → ℕ → ℕ → ℕ → Screen → (ℕ → ℕ) → ℕ → ℕ
save_rows zero i w x y s back = back
save_rows (suc n) i w x y s back = save_rows n (i + 1) w x y s (save_row w 0 i x y s back)

-- A side of the pointer, cut at the edge of the screen. A negative length moves nothing, as 0 does.
abbrev pub cut_side : ℕ → ℕ → ℕ → ℕ
cut_side size at limit = if ltb limit (u32 (at + size)) then limit - at else size

pub save_mouse_background : ℕ → ℕ → Screen → Mouse → Mouse
save_mouse_background x y s m =
    let w = cut_side cursor_w x s.width in
    let h = cut_side cursor_h y s.height in
    record m {
      back_buffer = save_rows h 0 w x y s m.back_buffer;
      last_back_x = x;
      last_back_y = y;
      last_back_w = w;
      last_back_h = h;
    }

-- The same, out of the buffer.
restore_row : ℕ → ℕ → ℕ → ℕ → ℕ → (ℕ → ℕ) → Screen → Screen
restore_row zero j i x y back s = s
restore_row (suc n) j i x y back s =
    restore_row n (j + 1) i x y back
      (plot ((y + i) * pitch_pixels s + (x + j)) (back (i * cursor_w + j)) s)

restore_rows : ℕ → ℕ → ℕ → ℕ → ℕ → (ℕ → ℕ) → Screen → Screen
restore_rows zero i w x y back s = s
restore_rows (suc n) i w x y back s =
    restore_rows n (i + 1) w x y back (restore_row w 0 i x y back s)

pub restore_mouse_background : Mouse → Screen → Screen
restore_mouse_background m s =
    if (m.last_back_w == 0) || (m.last_back_h == 0)
    then s
    else restore_rows m.last_back_h 0 m.last_back_w m.last_back_x m.last_back_y m.back_buffer s
