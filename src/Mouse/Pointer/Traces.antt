-- ===== src/Mouse/Pointer/Traces.antt =====
-- Where `draw_mouse_cursor` of kernel/drivers/ps2_mouse.c leaves traces: in the saved pixels only.
use blue_star_os.Base.{
  ℕ, zero, suc, ◌+◌, ◌*◌, ◌/◌, ◌^◌, ◌≤◌, ◌<◌, ◌≡◌, refl, ap, ◌∙◌, ◌⊎◌, inl, inr, Bool, true, false,
  arith, ◌==◌, leb, ◌||◌, not, if◌then◌else◌, Bool-cases, u32, store, store_ne,
}
use blue_star_os.Graphics.{Screen, pitch_pixels, plot, put_pixel}
use blue_star_os.Mouse.Pointer.{shape, draw_dot, draw_dots, draw_lines, below_at, cut_side}

-- A screen `s`, and a pointer at a position of it.
module _ (s : Screen) (x y : ℕ) where
  abbrev pub side_w : ℕ
  side_w = cut_side 16 x s.width

  abbrev pub side_h : ℕ
  side_h = cut_side 24 y s.height

  -- A pixel that was saved, in the row `i` at the column `j` or behind it.
  pub record IsLeft (i j k : ℕ) : Type 0 where
    pub row : ℕ
    pub column : ℕ
    pub behind : (i < row) ⊎ ((i ≡ row) × (j ≤ column))
    pub in_height : row < side_h
    pub in_width : column < side_w
    pub is_there : k ≡ below_at (pitch_pixels s) x y row column

  -- A screen of the same measures that differs in such pixels only.
  pub record Differs (i j : ℕ) (t : Screen) : Type 0 where
    pub present : t.present ≡ s.present
    pub width : t.width ≡ s.width
    pub height : t.height ≡ s.height
    pub pitch : t.pitch ≡ s.pitch
    pub pixels : (k : ℕ) → (t.pixels k ≡ s.pixels k) ⊎ IsLeft i j k

  Differs-if :
      (i j : ℕ) (b : Bool) (t u : Screen)
      → (b ≡ true → Differs i j t)
      → (b ≡ false → Differs i j u)
      → Differs i j (if b then t else u)
  Differs-if i j true t u f g = f refl
  Differs-if i j false t u f g = g refl

  -- A write to a saved pixel.
  plot-Differs :
      (row column index color : ℕ) (t : Screen)
      → Differs 0 0 t
      → row < side_h
      → column < side_w
      → u32 index ≡ below_at (pitch_pixels s) x y row column
      → Differs 0 0 (plot index color t)
  plot-Differs row column index color t d in_h in_w e = record {
    present = d.present;
    width = d.width;
    height = d.height;
    pitch = d.pitch;
    pixels = λ k. hit k (Bool-cases (k == u32 index));
  }
    where
      hit :
          (k : ℕ)
          → ((k == u32 index) ≡ true) ⊎ ((k == u32 index) ≡ false)
          → (store t.pixels (u32 index) color k ≡ s.pixels k) ⊎ IsLeft 0 0 k
      hit k (inl same) = inr record {
        row = row;
        column = column;
        behind = lead row;
        in_height = in_h;
        in_width = in_w;
        is_there = ground (arith, same, e);
      }
        where
          lead : (r : ℕ) → (0 < r) ⊎ ((0 ≡ r) × (0 ≤ column))
          lead zero = inr (refl, omega arith)
          lead (suc r) = inl (omega arith)
      hit k (inr other) = elim (d.pixels k) [
        | inl old ↦ inl (store_ne t.pixels (u32 index) color k (ground (arith, other)) ∙ old)
        | inr left ↦ inr left
      ]

  put_pixel-Differs :
      (row column color : ℕ) (t : Screen)
      → x + 16 < 2 ^ 32
      → y + 24 < 2 ^ 32
      → row < 24
      → column < 16
      → Differs 0 0 t
      → Differs 0 0 (put_pixel (u32 (x + column)) (u32 (y + row)) color t)
  unfolding put_pixel
  put_pixel-Differs row column color t hx hy in_h in_w d =
      Differs-if 0 0
        (not t.present || leb t.width (u32 (x + column)) || leb t.height (u32 (y + row))) _ _
        (λ e. d)
        λ e.
          let at_x : u32 (x + column) ≡ x + column = omega arith in
          let at_y : u32 (y + row) ≡ y + row = omega arith in
          plot-Differs row column _ color t d (ground (arith, e, d.height))
            (ground (arith, e, d.width))
            (rw (at_x, at_y) (ap (λ p. u32 ((y + row) * (p / 2 ^ 2) + (x + column))) d.pitch))

  draw_dot-Differs :
      (row column dot : ℕ) (t : Screen)
      → x + 16 < 2 ^ 32
      → y + 24 < 2 ^ 32
      → row < 24
      → column < 16
      → Differs 0 0 t
      → Differs 0 0 (draw_dot dot (u32 (x + column)) (u32 (y + row)) t)
  unfolding draw_dot
  draw_dot-Differs row column dot t hx hy in_h in_w d =
      Differs-if 0 0 (dot == b'X') _ _
        (λ e. put_pixel-Differs row column 0x00000000 t hx hy in_h in_w d)
        λ e.
          Differs-if 0 0 (dot == b'.') _ _
            (λ f. put_pixel-Differs row column 0x00FFFFFF t hx hy in_h in_w d) (λ f. d)

  draw_dots-Differs :
      (n column row : ℕ) (t : Screen)
      → x + 16 < 2 ^ 32
      → y + 24 < 2 ^ 32
      → row < 24
      → column + n ≤ 16
      → Differs 0 0 t
      → Differs 0 0 (draw_dots n column row x y t)
  unfolding draw_dots
  draw_dots-Differs zero column row t hx hy in_h fits d = d
  draw_dots-Differs (suc n) column row t hx hy in_h fits d =
      draw_dots-Differs n (column + 1) row _ hx hy in_h (omega arith)
        (draw_dot-Differs row column (shape row column) t hx hy in_h (omega arith) d)

  pub draw_lines-Differs :
      (n row : ℕ) (t : Screen)
      → x + 16 < 2 ^ 32
      → y + 24 < 2 ^ 32
      → row + n ≤ 24
      → Differs 0 0 t
      → Differs 0 0 (draw_lines n row x y t)
  unfolding draw_lines
  draw_lines-Differs zero row t hx hy fits d = d
  draw_lines-Differs (suc n) row t hx hy fits d =
      draw_lines-Differs n (row + 1) _ hx hy (omega arith)
        (draw_dots-Differs 16 0 row t hx hy (omega arith) (omega arith) d)
