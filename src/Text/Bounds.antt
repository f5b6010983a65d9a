-- ===== src/Text/Bounds.antt =====
-- The characters of kernel/text.c are drawn on the screen only.
use blue_star_os.Base.{
  ℕ, zero, suc, ◌+◌, ◌-◌, ◌*◌, ◌/◌, ◌%◌, ◌^◌, ◌≤◌, ◌<◌, ◌≡◌, ap, sym, ◌∙◌, Option, none, some,
  arith, ◌==◌, ltb, ◌||◌, not, if◌then◌else◌, u32,
}
use blue_star_os.Graphics.{Screen, pitch_pixels, plot, put_pixel}
use blue_star_os.Graphics.Visible.{
  IsScreen, Within, Within-refl, Within-trans, Within-if, IsScreen-Within, plot-Within,
}
use blue_star_os.Graphics.Bounds.{put_pixel-Within}
use blue_star_os.Text.{
  Fonts, draw_bits, draw_rows, put_char, find_chinese_glyph, box_columns, box_rows, draw_wide_rows,
  put_chinese_char,
}

-- A step that keeps to the screen, and the rest of the drawing.
Within-then :
    (s t u : Screen)
    → IsScreen s
    → Within s t
    → (IsScreen t → t.width ≡ s.width → t.height ≡ s.height → Within t u)
    → Within s u
Within-then s t u w first rest =
    Within-trans s t u first (rest (IsScreen-Within s t first w) first.width first.height)

draw_bits-Within :
    (n i : ℕ) (bit : ℕ → ℕ) (bits index color x y : ℕ) (s : Screen)
    → IsScreen s
    → x + (i + n) ≤ s.width
    → y < s.height
    → u32 index ≡ u32 (y * pitch_pixels s + x)
    → Within s (draw_bits n i bit bits index color s)
unfolding draw_bits
draw_bits-Within zero i bit bits index color x y s w fits below e = Within-refl s
draw_bits-Within (suc n) i bit bits index color x y s w fits below e =
    let first =
      Within-if (bits / 2 ^ bit i % 2 == 1) s (plot (index + i) color s) s
        (λ h. plot-Within (x + i) y (index + i) color s w (omega arith) below (omega (arith, e)))
        (λ h. Within-refl s) in
    let next = if bits / 2 ^ bit i % 2 == 1 then plot (index + i) color s else s in
    let same_pitch : pitch_pixels next ≡ pitch_pixels s = ap (λ p. p / 2 ^ 2) first.pitch in
    Within-then s next _ w first λ w' e1 e2.
      draw_bits-Within n (i + 1) bit bits index color x y next w' (omega (arith, e1))
        (omega (arith, e2)) (e ∙ ap (λ p. u32 (y * p + x)) (sym same_pitch))

draw_rows-Within :
    (n row : ℕ) (glyph : ℕ → ℕ) (x y color : ℕ) (s : Screen)
    → IsScreen s
    → x + 8 ≤ s.width
    → y + (row + n) ≤ s.height
    → s.height < 2 ^ 32
    → Within s (draw_rows n row glyph x y color s)
unfolding draw_rows
draw_rows-Within zero row glyph x y color s w fits below small = Within-refl s
draw_rows-Within (suc n) row glyph x y color s w fits below small =
    let index = u32 (u32 (y + row) * pitch_pixels s + x) in
    let at : u32 (y + row) ≡ y + row = omega arith in
    let next = draw_bits 8 0 (λ i. i) (glyph row) index color s in
    Within-then s next _ w
      (draw_bits-Within 8 0 (λ i. i) (glyph row) index color x (y + row) s w fits (omega arith)
        (omega arith ∙ ap (λ r. u32 (r * pitch_pixels s + x)) at))
      λ w' e1 e2.
        draw_rows-Within n (row + 1) glyph x y color next w' (omega (arith, e1)) (omega (arith, e2))
          (omega (arith, e2))

-- A character at a position whose sums with the size of a character stay below 2 ^ 32.
pub put_char-Within :
    (fonts : Fonts) (c x y color : ℕ) (s : Screen)
    → IsScreen s
    → s.height < 2 ^ 32
    → x + 8 < 2 ^ 32
    → y + 16 < 2 ^ 32
    → Within s (put_char fonts c x y color s)
unfolding put_char
put_char-Within fonts c x y color s w small hx hy =
    let refused = not s.present || ltb s.width (u32 (x + 8)) || ltb s.height (u32 (y + 16)) in
    Within-if refused _ _ _ (λ e. Within-refl s)
      λ e. draw_rows-Within 16 0 _ x y color s w (ground (arith, e)) (ground (arith, e)) small

box_columns-Within :
    (n i x y color : ℕ) (s : Screen) → IsScreen s → Within s (box_columns n i x y color s)
unfolding box_columns
box_columns-Within zero i x y color s w = Within-refl s
box_columns-Within (suc n) i x y color s w =
    let t = put_pixel (u32 (x + i)) y color s in
    let first = put_pixel-Within (u32 (x + i)) y color s w in
    let u = put_pixel (u32 (x + i)) (u32 (y + 16 - 1)) color t in
    let second =
      put_pixel-Within (u32 (x + i)) (u32 (y + 16 - 1)) color t (IsScreen-Within s t first w) in
    Within-then s u _ w (Within-trans s t u first second)
      λ w' e1 e2. box_columns-Within n (i + 1) x y color u w'

box_rows-Within :
    (n i x y color : ℕ) (s : Screen) → IsScreen s → Within s (box_rows n i x y color s)
unfolding box_rows
box_rows-Within zero i x y color s w = Within-refl s
box_rows-Within (suc n) i x y color s w =
    let t = put_pixel x (u32 (y + i)) color s in
    let first = put_pixel-Within x (u32 (y + i)) color s w in
    let u = put_pixel (u32 (x + 16 - 1)) (u32 (y + i)) color t in
    let second =
      put_pixel-Within (u32 (x + 16 - 1)) (u32 (y + i)) color t (IsScreen-Within s t first w) in
    Within-then s u _ w (Within-trans s t u first second)
      λ w' e1 e2. box_rows-Within n (i + 1) x y color u w'

draw_wide_rows-Within :
    (n row : ℕ) (bitmap : ℕ → ℕ) (x y color : ℕ) (s : Screen)
    → IsScreen s
    → x + 16 ≤ s.width
    → y + (row + n) ≤ s.height
    → s.height < 2 ^ 32
    → Within s (draw_wide_rows n row bitmap x y color s)
unfolding draw_wide_rows
draw_wide_rows-Within zero row bitmap x y color s w fits below small = Within-refl s
draw_wide_rows-Within (suc n) row bitmap x y color s w fits below small =
    let index = u32 (u32 (y + row) * pitch_pixels s + x) in
    let at : u32 (y + row) ≡ y + row = omega arith in
    let here : u32 index ≡ u32 ((y + row) * pitch_pixels s + x) =
      omega arith ∙ ap (λ r. u32 (r * pitch_pixels s + x)) at in
    let bit = λ (i : ℕ). 7 - i in
    let t = draw_bits 8 0 bit (bitmap (row * 2)) index color s in
    let left =
      draw_bits-Within 8 0 bit (bitmap (row * 2)) index color x (y + row) s w (omega arith)
        (omega arith) here in
    let same_pitch : pitch_pixels t ≡ pitch_pixels s = ap (λ p. p / 2 ^ 2) left.pitch in
    let there : u32 (index + 8) ≡ u32 ((y + row) * pitch_pixels t + (x + 8)) =
      omega (arith, here) ∙ ap (λ p. u32 ((y + row) * p + (x + 8))) (sym same_pitch) in
    let u = draw_bits 8 0 bit (bitmap (row * 2 + 1)) (index + 8) color t in
    let right =
      draw_bits-Within 8 0 bit (bitmap (row * 2 + 1)) (index + 8) color (x + 8) (y + row) t
        (IsScreen-Within s t left w) (omega (arith, left.width)) (omega (arith, left.height))
        there in
    Within-then s u _ w (Within-trans s t u left right) λ w' e1 e2.
      draw_wide_rows-Within n (row + 1) bitmap x y color u w' (omega (arith, e1))
        (omega (arith, e2)) (omega (arith, e2))

-- A Chinese character, from the table or as a box, under the same condition.
pub put_chinese_char-Within :
    (fonts : Fonts) (unicode x y color : ℕ) (s : Screen)
    → IsScreen s
    → s.height < 2 ^ 32
    → x + 16 < 2 ^ 32
    → y + 16 < 2 ^ 32
    → Within s (put_chinese_char fonts unicode x y color s)
unfolding put_chinese_char
put_chinese_char-Within fonts unicode x y color s w small hx hy =
    let refused = not s.present || ltb s.width (u32 (x + 16)) || ltb s.height (u32 (y + 16)) in
    Within-if refused _ _ _ (λ e. Within-refl s)
      λ e.
        glyph_or_box (find_chinese_glyph unicode fonts.chinese) (ground (arith, e))
          (ground (arith, e))
  where
    glyph_or_box :
        (g : Option (ℕ → ℕ))
        → x + 16 ≤ s.width
        → y + 16 ≤ s.height
        → Within s (elim g as (λ g'. Screen) [
          | none ↦ box_rows 16 0 x y color (box_columns 16 0 x y color s)
          | some bitmap ↦ draw_wide_rows 16 0 bitmap x y color s
        ])
    glyph_or_box none fits below =
        Within-then s (box_columns 16 0 x y color s) _ w (box_columns-Within 16 0 x y color s w)
          λ w' e1 e2. box_rows-Within 16 0 x y color (box_columns 16 0 x y color s) w'
    glyph_or_box (some bitmap) fits below =
        draw_wide_rows-Within 16 0 bitmap x y color s w fits below small
