-- ===== src/Graphics/Visible.antt =====
-- The pixels that can be seen, and writes to no others.
use blue_star_os.Base.{
  ℕ, suc, ◌+◌, ◌*◌, ◌/◌, ◌^◌, ◌≤◌, ◌<◌, ◌≡◌, refl, sym, ap, ◌∙◌, Bool, true, false, if◌then◌else◌,
  arith, u32, store_ne,
}
use native.Mathlib.Nat.{mul-le-mul_right}
use blue_star_os.Graphics.{Screen, pitch_pixels, plot}

-- The index of a pixel of the screen: a row and a column.
pub record IsVisible (s : Screen) (index : ℕ) : Type 0 where
  pub row : ℕ
  pub column : ℕ
  pub in_height : row < s.height
  pub in_width : column < s.width
  pub is_there : index ≡ row * pitch_pixels s + column

-- A row of the screen fits a row of memory, and all rows have 32-bit indices.
pub record IsScreen (s : Screen) : Type 0 where
  pub wide : s.width ≤ pitch_pixels s
  pub small : s.height * pitch_pixels s < 2 ^ 32

-- The same frame buffer, with no pixel changed that cannot be seen.
pub record Within (s s' : Screen) : Type 0 where
  pub present : s'.present ≡ s.present
  pub width : s'.width ≡ s.width
  pub height : s'.height ≡ s.height
  pub pitch : s'.pitch ≡ s.pitch
  pub hidden : (i : ℕ) → ¬ IsVisible s i → s'.pixels i ≡ s.pixels i

pub Within-refl : (s : Screen) → Within s s
Within-refl s = record {
  present = refl;
  width = refl;
  height = refl;
  pitch = refl;
  hidden = λ i h. refl;
}

row_before : (y h p x : ℕ) → y < h → x < p → y * p + x < h * p
row_before y h p x before in_row = omega (arith, mul-le-mul_right p before, clauses y p)
  where
    clauses : (y p : ℕ) → suc y * p ≡ y * p + p
    clauses y p = grind arith

-- A write to a pixel of the screen keeps to what is visible.
pub plot-Within :
    (x y index color : ℕ) (s : Screen)
    → IsScreen s
    → x < s.width
    → y < s.height
    → u32 index ≡ u32 (y * pitch_pixels s + x)
    → Within s (plot index color s)
plot-Within x y index color s w in_width in_height e =
    let below =
      row_before y s.height (pitch_pixels s) x in_height (omega (arith, in_width, w.wide)) in
    record {
      present = refl;
      width = refl;
      height = refl;
      pitch = refl;
      hidden = λ i unseen. store_ne s.pixels (u32 index) color i λ same. unseen record {
        row = y;
        column = x;
        in_height = in_height;
        in_width = in_width;
        is_there = omega (arith, same, e, below, w.small);
      };
    }

-- The measures stay, so what can be seen stays.
pub IsScreen-Within : (s s' : Screen) → Within s s' → IsScreen s → IsScreen s'
IsScreen-Within s s' w i = record {
  wide = rw (w.width, w.pitch) i.wide;
  small = rw (w.height, w.pitch) i.small;
}

IsVisible-Within : (s s' : Screen) (i : ℕ) → Within s s' → IsVisible s' i → IsVisible s i
IsVisible-Within s s' i w v = record {
  row = v.row;
  column = v.column;
  in_height = rw (sym w.height) v.in_height;
  in_width = rw (sym w.width) v.in_width;
  is_there = v.is_there ∙ ap (λ p. v.row * (p / 2 ^ 2) + v.column) w.pitch;
}

pub Within-trans : (s t u : Screen) → Within s t → Within t u → Within s u
Within-trans s t u a b = record {
  present = b.present ∙ a.present;
  width = b.width ∙ a.width;
  height = b.height ∙ a.height;
  pitch = b.pitch ∙ a.pitch;
  hidden = λ i h. b.hidden i (λ v. h (IsVisible-Within s t i a v)) ∙ a.hidden i h;
}

pub Within-if :
    (b : Bool) (s t u : Screen)
    → (b ≡ true → Within s t)
    → (b ≡ false → Within s u)
    → Within s (if b then t else u)
Within-if true s t u f g = f refl
Within-if false s t u f g = g refl
