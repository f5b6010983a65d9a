-- ===== src/Mouse/Pointer/Saves.antt =====
-- What `save_mouse_background` of kernel/drivers/ps2_mouse.c stores.
use blue_star_os.Base.{
  ℕ, zero, suc, ◌+◌, ◌-◌, ◌*◌, ◌/◌, ◌%◌, ◌≤◌, ◌≡◌, ◌∙◌, arith, ltb, leb, ◌&&◌, if◌then◌else◌, store,
}
use blue_star_os.Graphics.{Screen, pitch_pixels}
use blue_star_os.Mouse.Pointer.{below_at, save_row, save_rows}

save_row_lem :
    (n j i x y : ℕ) (s : Screen) (back : ℕ → ℕ) (q : ℕ)
    → save_row n j i x y s back q ≡ (
        if leb (i * 16 + j) q && ltb q (i * 16 + j + n)
        then s.pixels (below_at (pitch_pixels s) x y i (q - i * 16))
        else back q)
unfolding save_row store
save_row_lem zero j i x y s back q = ground arith
save_row_lem (suc n) j i x y s back q = ground (
  arith,
  save_row_lem n (j + 1) i x y s
      (store back (i * 16 + j) (s.pixels (below_at (pitch_pixels s) x y i j))) q,
)

-- A row more, of values `f` by row and column.
one_more :
    (f : ℕ → ℕ → ℕ) (n i w q r b : ℕ)
    → w ≤ 16
    → r ≡ (if leb (i * 16 + 0) q && ltb q (i * 16 + 0 + w) then f i (q - i * 16) else b)
    → (if leb (i + 1) (q / 16) && ltb (q / 16) (i + 1 + n) && ltb (q % 16) w
        then f (q / 16) (q % 16)
        else r)
      ≡ (if leb i (q / 16) && ltb (q / 16) (i + suc n) && ltb (q % 16) w
          then f (q / 16) (q % 16)
          else b)
one_more f n i w q r b narrow e = ground arith

pub save_rows_lem :
    (n i w x y : ℕ) (s : Screen) (back : ℕ → ℕ) (q : ℕ)
    → w ≤ 16
    → save_rows n i w x y s back q ≡ (
        if leb i (q / 16) && ltb (q / 16) (i + n) && ltb (q % 16) w
        then s.pixels (below_at (pitch_pixels s) x y (q / 16) (q % 16))
        else back q)
unfolding save_rows
save_rows_lem zero i w x y s back q narrow = ground arith
save_rows_lem (suc n) i w x y s back q narrow =
    save_rows_lem n (i + 1) w x y s (save_row w 0 i x y s back) q narrow
    ∙ one_more (λ a b. s.pixels (below_at (pitch_pixels s) x y a b)) n i w q _ (back q) narrow
        (save_row_lem w 0 i x y s back q)
