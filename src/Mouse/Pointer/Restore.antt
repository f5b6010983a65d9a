-- ===== src/Mouse/Pointer/Restore.antt =====
-- The pointer of kernel/drivers/ps2_mouse.c leaves no trace: what is drawn over the saved pixels is
-- taken back.
use blue_star_os.Base.{
  ℕ, zero, suc, ◌+◌, ◌*◌, ◌/◌, ◌%◌, ◌^◌, ◌<◌, ◌≡◌, refl, ap, sym, ◌∙◌, ◌⊎◌, inl, inr, true, false,
  arith, ◌==◌, ltb, leb, ◌&&◌, Bool-cases, u32, store, store_at, store_ne,
}
use mathlib.Core.Path.{subst}
use native.Mathlib.Decide.{ℕ_discrete}
use blue_star_os.Graphics.{Screen, pitch_pixels, plot}
use blue_star_os.Mouse.{Mouse}
use blue_star_os.Mouse.Pointer.{
  draw_lines, draw_mouse_cursor, below_at, save_rows, save_mouse_background, restore_row,
  restore_rows, restore_mouse_background,
}
use blue_star_os.Mouse.Pointer.Saves.{save_rows_lem}
use blue_star_os.Mouse.Pointer.Traces.{side_w, side_h, IsLeft, Differs, draw_lines-Differs}

-- A screen `s`, and a pointer at a position of it.
module _ (s : Screen) (x y : ℕ) where
  -- Writing back the saved pixel of a row and a column.
  plot-mends :
      (i j color : ℕ) (t : Screen)
      → color ≡ s.pixels (below_at (pitch_pixels s) x y i j)
      → Differs s x y i j t
      → Differs s x y i (j + 1) (plot ((y + i) * pitch_pixels t + (x + j)) color t)
  plot-mends i j color t saved d = record {
    present = d.present;
    width = d.width;
    height = d.height;
    pitch = d.pitch;
    pixels = λ k. hit k (Bool-cases (k == u32 ((y + i) * pitch_pixels t + (x + j))));
  }
    where
      same_place : u32 ((y + i) * pitch_pixels t + (x + j)) ≡ below_at (pitch_pixels s) x y i j
      same_place = ap (λ p. u32 ((y + i) * (p / 2 ^ 2) + (x + j))) d.pitch

      hit :
          (k : ℕ)
          → ((k == u32 ((y + i) * pitch_pixels t + (x + j))) ≡ true)
            ⊎ ((k == u32 ((y + i) * pitch_pixels t + (x + j))) ≡ false)
          → (store t.pixels (u32 ((y + i) * pitch_pixels t + (x + j))) color k ≡ s.pixels k)
            ⊎ IsLeft s x y i (j + 1) k
      hit k (inl same) =
          let here : k ≡ u32 ((y + i) * pitch_pixels t + (x + j)) = ground (arith, same) in
          inl (rw here (store_at t.pixels _ color ∙ saved ∙ ap s.pixels (sym same_place)))
      hit k (inr other) = elim (d.pixels k) [
        | inl old ↦ inl (store_ne t.pixels _ color k (ground (arith, other)) ∙ old)
        | inr left ↦ inr (later left)
      ]
        where
          here_too :
              (left : IsLeft s x y i j k)
              → i ≡ left.row
              → j ≡ left.column
              → k ≡ u32 ((y + i) * pitch_pixels t + (x + j))
          here_too left ei ej =
              left.is_there
              ∙ ap (λ r. below_at (pitch_pixels s) x y r left.column) (sym ei)
              ∙ ap (λ c. below_at (pitch_pixels s) x y i c) (sym ej)
              ∙ sym same_place

          later : IsLeft s x y i j k → IsLeft s x y i (j + 1) k
          later left = record {
            row = left.row;
            column = left.column;
            in_height = left.in_height;
            in_width = left.in_width;
            is_there = left.is_there;
            behind = elim left.behind [
              | inl below ↦ inl below
              | inr beside ↦ elim (ℕ_discrete j left.column) [
                | yes e ↦ absurd (ground (arith, other, here_too left beside.0 e))
                | no ne ↦ inr (beside.0, omega (arith, beside.1, ne))
              ]
            ];
          }

  IsLeft-row_end : (i k : ℕ) → IsLeft s x y i (side_w s x y) k → IsLeft s x y (i + 1) 0 k
  IsLeft-row_end i k left = record {
    row = left.row;
    column = left.column;
    in_height = left.in_height;
    in_width = left.in_width;
    is_there = left.is_there;
    behind = elim left.behind [
      | inl below ↦ elim (ℕ_discrete (i + 1) left.row) [
        | yes e ↦ inr (e, omega arith)
        | no ne ↦ inl (omega (arith, below, ne))
      ]
      | inr beside ↦ absurd (omega (arith, beside.1, left.in_width))
    ];
  }

  -- The buffer that was saved.
  Saved : (ℕ → ℕ) → Type 0
  Saved back =
      (i j : ℕ)
      → i < (side_h s x y)
      → j < (side_w s x y)
      → back (i * 16 + j) ≡ s.pixels (below_at (pitch_pixels s) x y i j)

  restore_row-Differs :
      (n i j : ℕ) (back : ℕ → ℕ) (t : Screen)
      → Saved back
      → i < (side_h s x y)
      → j + n ≡ (side_w s x y)
      → Differs s x y i j t
      → Differs s x y i (side_w s x y) (restore_row n j i x y back t)
  unfolding restore_row Saved
  restore_row-Differs zero i j back t saved in_h e d =
      subst (λ c. Differs s x y i c t) (omega (arith, e)) d
  restore_row-Differs (suc n) i j back t saved in_h e d =
      restore_row-Differs n i (j + 1) back _ saved in_h (omega (arith, e))
        (plot-mends i j (back (i * 16 + j)) t (saved i j in_h (omega (arith, e))) d)

  restore_rows-Differs :
      (n i : ℕ) (back : ℕ → ℕ) (t : Screen)
      → Saved back
      → i + n ≡ (side_h s x y)
      → Differs s x y i 0 t
      → Differs s x y (side_h s x y) 0 (restore_rows n i (side_w s x y) x y back t)
  unfolding restore_rows
  restore_rows-Differs zero i back t saved e d =
      subst (λ r. Differs s x y r 0 t) (omega (arith, e)) d
  restore_rows-Differs (suc n) i back t saved e d =
      let row =
        restore_row-Differs (side_w s x y) i 0 back t saved (omega (arith, e)) (omega arith) d in
      restore_rows-Differs n (i + 1) back _ saved (omega (arith, e)) record {
        present = row.present;
        width = row.width;
        height = row.height;
        pitch = row.pitch;
        pixels = λ k. elim (row.pixels k) [
          | inl old ↦ inl old
          | inr left ↦ inr (IsLeft-row_end i k left)
        ];
      }

  nothing_left : (t : Screen) → Differs s x y (side_h s x y) 0 t → (k : ℕ) → t.pixels k ≡ s.pixels k
  nothing_left t d k = elim (d.pixels k) [
    | inl old ↦ old
    | inr left ↦ elim left.behind [
      | inl below ↦ absurd (omega (arith, below, left.in_height))
      | inr beside ↦ absurd (omega (arith, beside.0, left.in_height))
    ]
  ]

  save_rows-Saved : (old : ℕ → ℕ) → Saved (save_rows (side_h s x y) 0 (side_w s x y) x y s old)
  unfolding Saved
  save_rows-Saved old i j in_h in_w =
      let row : (i * 16 + j) / 16 ≡ i = ground arith in
      let column : (i * 16 + j) % 16 ≡ j = ground arith in
      let saved : (leb 0 i && ltb i (0 + (side_h s x y)) && ltb j (side_w s x y)) ≡ true =
        ground arith in
      save_rows_lem (side_h s x y) 0 (side_w s x y) x y s old (i * 16 + j) (ground arith)
      ∙ rw (row, column, saved) refl

  -- Restored.
  pub restore-draw_save :
      (m : Mouse)
      → x < s.width
      → y < s.height
      → x + 16 < 2 ^ 32
      → y + 24 < 2 ^ 32
      → (k : ℕ)
      → (restore_mouse_background (save_mouse_background x y s m) (draw_mouse_cursor x y s)).pixels
          k
        ≡ s.pixels k
  unfolding restore_mouse_background save_mouse_background draw_mouse_cursor
  restore-draw_save m in_w in_h hx hy k =
      let some_w : ((side_w s x y) == 0) ≡ false = ground arith in
      let some_h : ((side_h s x y) == 0) ≡ false = ground arith in
      let start : Differs s x y 0 0 s = record {
        present = refl;
        width = refl;
        height = refl;
        pitch = refl;
        pixels = λ k. inl refl;
      } in
      let drawn = draw_lines-Differs s x y 24 0 s hx hy (omega arith) start in
      let back = save_rows (side_h s x y) 0 (side_w s x y) x y s m.back_buffer in
      let mended =
        restore_rows-Differs (side_h s x y) 0 back (draw_lines 24 0 x y s)
          (save_rows-Saved m.back_buffer) (omega arith) drawn in
      rw (some_w, some_h) (nothing_left _ mended k)
