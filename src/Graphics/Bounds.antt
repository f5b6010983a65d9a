-- ===== src/Graphics/Bounds.antt =====
-- `put_pixel` and `draw_rect` of kernel/graphics.c draw on the screen only.
use blue_star_os.Base.{ℕ, zero, suc, ◌+◌, ◌-◌, ◌*◌, ◌≤◌, ◌<◌, ◌≡◌, refl, arith, leb, ◌||◌, not, u32}
use blue_star_os.Graphics.{
  Screen, pitch_pixels, plot, put_pixel, fill_pixels, fill_rows, cut, draw_rect,
}
use blue_star_os.Graphics.Visible.{
  IsScreen, Within, Within-refl, Within-trans, Within-if, IsScreen-Within, plot-Within,
}

-- A pixel at any position.
pub put_pixel-Within : (x y color : ℕ) (s : Screen) → IsScreen s → Within s (put_pixel x y color s)
unfolding put_pixel
put_pixel-Within x y color s w =
    Within-if (not s.present || leb s.width x || leb s.height y) _ _ _ (λ e. Within-refl s)
      λ e.
        plot-Within x y (y * pitch_pixels s + x) color s w (ground (arith, e)) (ground (arith, e))
          refl

fill_pixels-Within :
    (n x y index color : ℕ) (s : Screen)
    → IsScreen s
    → x + n ≤ s.width
    → y < s.height
    → u32 index ≡ u32 (y * pitch_pixels s + x)
    → Within s (fill_pixels n index color s)
unfolding fill_pixels
fill_pixels-Within zero x y index color s w fits below e = Within-refl s
fill_pixels-Within (suc n) x y index color s w fits below e =
    let first = plot-Within x y index color s w (omega arith) below e in
    Within-trans s (plot index color s) _ first (
      fill_pixels-Within n (x + 1) y (index + 1) color (plot index color s)
        (IsScreen-Within s (plot index color s) first w) (omega arith) below (omega (arith, e)))

fill_rows-Within :
    (n x y width color : ℕ) (s : Screen)
    → IsScreen s
    → x + width ≤ s.width
    → y + n ≤ s.height
    → Within s (fill_rows n y x width color s)
unfolding fill_rows
fill_rows-Within zero x y width color s w fits below = Within-refl s
fill_rows-Within (suc n) x y width color s w fits below =
    let index = u32 (y * pitch_pixels s) + x in
    let first = fill_pixels-Within width x y index color s w fits (omega arith) (omega arith) in
    let next = fill_pixels width index color s in
    Within-trans s next _ first (
      fill_rows-Within n x (y + 1) width color next (IsScreen-Within s next first w)
        (rw first.width fits) (rw first.height (omega arith)))

-- On a frame buffer whose rows fit its pitch and whose pixels have 32-bit indices, a rectangle at
-- any position and of any size, even where its ends wrap around 32 bits, changes no pixel outside
-- the visible screen.
pub draw_rect-Within :
    (x y width height color : ℕ) (s : Screen)
    → IsScreen s
    → Within s (draw_rect x y width height color s)
unfolding draw_rect
draw_rect-Within x y width height color s w =
    Within-if (not s.present || leb s.width x || leb s.height y) _ _ _ (λ e. Within-refl s)
      λ e.
        fill_rows-Within (cut (u32 (y + height)) s.height - y) x y
          (cut (u32 (x + width)) s.width - x) color s w (ground (arith, e)) (ground (arith, e))
