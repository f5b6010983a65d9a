-- ===== src/Text.antt =====
-- kernel/text.c: characters on the frame buffer, and strings in UTF-8.
--
-- The two tables of glyphs are a parameter, `Fonts`: the code reads 16 rows of a glyph from them.
pub mod Decode
pub mod Bounds
pub mod Strings
mod Examples
use blue_star_os.Base.{
  ℕ, zero, suc, ◌+◌, ◌-◌, ◌*◌, ◌/◌, ◌%◌, ◌^◌, Bool, true, false, Option, none, some, List, [], ◌∷◌,
  length, ◌==◌, ltb, leb, ◌&&◌, ◌||◌, not, if◌then◌else◌, u16, u32, low_bits, ◌>>>◌,
}
use blue_star_os.Graphics.{Screen, pitch_pixels, plot, put_pixel}

abbrev pub font_w : ℕ
font_w = 8

abbrev pub font_h : ℕ
font_h = 16

abbrev pub chinese_font_w : ℕ
chinese_font_w = 16

abbrev pub chinese_font_h : ℕ
chinese_font_h = 16

-- `chinese_glyph_t`.
pub record Glyph : Type 0 where
  pub unicode : ℕ
  pub bitmap : ℕ → ℕ

-- `font16x8_basic` by character less 32 and row, and `chinese_font_basic`.
pub record Fonts : Type 0 where
  pub basic : ℕ → ℕ → ℕ
  pub chinese : List Glyph

-- The pixels of a byte from bit `i` on, `n` of them; `bit` says which bit belongs to a column.
draw_bits : ℕ → ℕ → (ℕ → ℕ) → ℕ → ℕ → ℕ → Screen → Screen
draw_bits zero i bit bits index color s = s
draw_bits (suc n) i bit bits index color s =
    draw_bits n (i + 1) bit bits index color
      (if bits / 2 ^ bit i % 2 == 1 then plot (index + i) color s else s)

-- The rows of a character from `row` on, `n` of them.
draw_rows : ℕ → ℕ → (ℕ → ℕ) → ℕ → ℕ → ℕ → Screen → Screen
draw_rows zero row glyph x y color s = s
draw_rows (suc n) row glyph x y color s =
    let index = u32 (u32 (y + row) * pitch_pixels s + x) in
    draw_rows n (row + 1) glyph x y color (draw_bits font_w 0 (λ i. i) (glyph row) index color s)

-- A character outside 32 to 126 is shown as a question mark.
pub put_char : Fonts → ℕ → ℕ → ℕ → ℕ → Screen → Screen
put_char fonts c x y color s =
    let shown : ℕ = if ltb c 32 || ltb 126 c then b'?' else c in
    if not s.present || ltb s.width (u32 (x + font_w)) || ltb s.height (u32 (y + font_h))
    then s
    else draw_rows font_h 0 (fonts.basic (shown - 32)) x y color s

pub find_chinese_glyph : ℕ → List Glyph → Option (ℕ → ℕ)
find_chinese_glyph unicode [] = none
find_chinese_glyph unicode (g ∷ gs) =
    let rest = find_chinese_glyph unicode gs in if g.unicode == unicode then some g.bitmap else rest

-- The upper and lower edge of the box, then the left and right one.
box_columns : ℕ → ℕ → ℕ → ℕ → ℕ → Screen → Screen
box_columns zero i x y color s = s
box_columns (suc n) i x y color s = box_columns n (i + 1) x y color (
    put_pixel (u32 (x + i)) (u32 (y + chinese_font_h - 1)) color
      (put_pixel (u32 (x + i)) y color s))

box_rows : ℕ → ℕ → ℕ → ℕ → ℕ → Screen → Screen
box_rows zero i x y color s = s
box_rows (suc n) i x y color s = box_rows n (i + 1) x y color (
    put_pixel (u32 (x + chinese_font_w - 1)) (u32 (y + i)) color
      (put_pixel x (u32 (y + i)) color s))

-- The rows of a glyph of two bytes each, the highest bit on the left.
draw_wide_rows : ℕ → ℕ → (ℕ → ℕ) → ℕ → ℕ → ℕ → Screen → Screen
draw_wide_rows zero row bitmap x y color s = s
draw_wide_rows (suc n) row bitmap x y color s =
    let index = u32 (u32 (y + row) * pitch_pixels s + x) in
    draw_wide_rows n (row + 1) bitmap x y color (
      draw_bits 8 0 (λ i. 7 - i) (bitmap (row * 2 + 1)) (index + 8) color
        (draw_bits 8 0 (λ i. 7 - i) (bitmap (row * 2)) index color s))

pub put_chinese_char : Fonts → ℕ → ℕ → ℕ → ℕ → Screen → Screen
put_chinese_char fonts unicode x y color s =
    if not s.present
      || ltb s.width (u32 (x + chinese_font_w))
      || ltb s.height (u32 (y + chinese_font_h))
    then s
    else elim (find_chinese_glyph unicode fonts.chinese) [
      | none ↦ box_rows chinese_font_h 0 x y color (box_columns chinese_font_w 0 x y color s)
      | some bitmap ↦ draw_wide_rows chinese_font_h 0 bitmap x y color s
    ]

-- The code point at the start of a string, and the string behind it; none where the null byte
-- stands inside the sequence, since the code then goes on behind it. Disjoint bits are added.
unfoldable pub utf8_to_unicode : ℕ → List ℕ → Option (ℕ × List ℕ)
utf8_to_unicode c cs =
    if ltb c 0x80
    then some (c, cs)
    else if c / 2 ^ 5 == 6
    then elim cs [ [] ↦ none | a ∷ cs' ↦ some (low_bits c 5 * 2 ^ 6 + low_bits a 6, cs') ]
    else if c / 2 ^ 4 == 14
    then elim cs [
      | [] ↦ none
      | a ∷ cs' ↦ elim cs' [
        | [] ↦ none
        | b ∷ cs'' ↦ some (low_bits c 4 * 2 ^ 12 + low_bits a 6 * 2 ^ 6 + low_bits b 6, cs'')
      ]
    ]
    else some (0x3F, cs)

-- A character of a string at the pen, and where the pen stands then.
unfoldable pub draw_code : Fonts → ℕ → ℕ → ℕ → ℕ → Screen → Screen × ℕ
draw_code fonts unicode x y color s =
    if ltb unicode 128
    then (put_char fonts unicode x y color s, u32 (x + font_w))
    else (put_chinese_char fonts unicode x y color s, u32 (x + chinese_font_w))

-- The pen behind a character: at the start of the next line where the screen ends. `shown` is whether
-- there is a frame buffer.
unfoldable pub wrap : ℕ → ℕ → ℕ → Screen → ℕ × ℕ
wrap start x y s =
    if s.present && ltb s.width (u32 (x + chinese_font_w))
    then (start, u32 (y + chinese_font_h + 2))
    else (x, y)

-- A string at the pen; as many rounds as it is long are enough. The result is what has been drawn,
-- and whether the code returns: it does not where a sequence contains the null byte, since it then
-- goes on behind the string.
unfoldable pub print_from : ℕ → Fonts → List ℕ → ℕ → ℕ → ℕ → ℕ → Screen → Screen × Bool
print_from n fonts [] start x y color s = (s, true)
print_from zero fonts (c ∷ cs) start x y color s = (s, false)
print_from (suc n) fonts (c ∷ cs) start x y color s =
    if c == 0 then (s, true) else elim (utf8_to_unicode c cs) [
      | none ↦ (s, false)
      | some (unicode, rest) ↦
          let (s', x') = draw_code fonts unicode x y color s in
          let (x'', y'') = wrap start x' y s' in print_from n fonts rest start x'' y'' color s'
    ]

unfoldable pub print_string : Fonts → List ℕ → ℕ → ℕ → ℕ → Screen → Screen × Bool
print_string fonts str x y color s = print_from (length str) fonts str x x y color s
