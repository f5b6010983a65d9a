-- ===== src/Graphics.antt =====
-- kernel/graphics.c: pixels and rectangles on the frame buffer.
pub mod Visible
pub mod Bounds
mod Examples
use blue_star_os.Base.{
  ℕ, zero, suc, ◌+◌, ◌-◌, ◌*◌, ◌/◌, ◌%◌, ◌^◌, Bool, true, false, ◌==◌, ltb, leb, ◌&&◌, ◌||◌, not,
  if◌then◌else◌, u32, ◌>>>◌, Bytes, store,
}

-- The frame buffer that `g_framebuffer` describes: whether there is one, its measures, and the pixels
-- by their index from `framebuffer_addr` on.
pub record Screen : Type 0 where
  pub present : Bool
  pub width : ℕ
  pub height : ℕ
  pub pitch : ℕ
  pub pixels : ℕ → ℕ

abbrev pub pitch_pixels : Screen → ℕ
pitch_pixels s = s.pitch >>> 2

-- `fb[index] = color`, with a 32-bit index.
abbrev pub plot : ℕ → ℕ → Screen → Screen
plot index color s = record s { pixels = store s.pixels (u32 index) color }

unfoldable pub put_pixel : ℕ → ℕ → ℕ → Screen → Screen
put_pixel x y color s =
    if not s.present || leb s.width x || leb s.height y
    then s
    else plot (y * pitch_pixels s + x) color s

-- `n` pixels from an index on.
fill_pixels : ℕ → ℕ → ℕ → Screen → Screen
fill_pixels zero index color s = s
fill_pixels (suc n) index color s = fill_pixels n (index + 1) color (plot index color s)

pub clear_screen : ℕ → Screen → Screen
clear_screen color s =
    if not s.present then s else fill_pixels (u32 (pitch_pixels s * s.height)) 0 color s

-- The rows from `y` on, `n` of them, each of `width` pixels from `x` on.
fill_rows : ℕ → ℕ → ℕ → ℕ → ℕ → Screen → Screen
fill_rows zero y x width color s = s
fill_rows (suc n) y x width color s =
    fill_rows n (y + 1) x width color (fill_pixels width (u32 (y * pitch_pixels s) + x) color s)

-- The end of a range that is cut at the edge of the screen.
abbrev cut : ℕ → ℕ → ℕ
cut end limit = if ltb limit end then limit else end

pub draw_rect : ℕ → ℕ → ℕ → ℕ → ℕ → Screen → Screen
draw_rect x y width height color s =
    let end_x = cut (u32 (x + width)) s.width in
    let end_y = cut (u32 (y + height)) s.height in
    if not s.present || leb s.width x || leb s.height y
    then s
    else fill_rows (end_y - y) y x (end_x - x) color s
