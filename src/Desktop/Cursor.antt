-- ===== src/Desktop/Cursor.antt =====
-- The cursor of the terminal of kernel/kmain.c stays inside its window, and what the terminal draws
-- stays on the screen.
use blue_star_os.Base.{
  ℕ, ◌+◌, ◌%◌, ◌^◌, ◌≤◌, ◌<◌, ◌≡◌, refl, ◌∙◌, ◌⊎◌, inl, inr, Bool-cases, arith, ◌==◌, ltb, u32,
  sub32,
}
use blue_star_os.Graphics.{Screen, draw_rect}
use blue_star_os.Graphics.Visible.{IsScreen, Within, Within-refl, Within-trans, IsScreen-Within}
use blue_star_os.Graphics.Bounds.{draw_rect-Within}
use blue_star_os.Text.{Fonts, put_char}
use blue_star_os.Text.Bounds.{put_char-Within}
use blue_star_os.Desktop.{Terminal}
use blue_star_os.Desktop.Console.{
  draw_on, real_x, real_y, line_feed, move_cursor, wrap_line, scroll, term_putc,
}

-- A window with room for a character, and measures that leave 32 bits to the sums.
pub record IsWindow (t : Terminal) : Type 0 where
  pub wide : 24 ≤ t.w
  pub high : 56 ≤ t.h
  pub small : t.x + t.w < 2 ^ 31
  pub low : t.y + t.h < 2 ^ 31
  pub on_screen : IsScreen t.screen
  pub screen_small : t.screen.height < 2 ^ 32

-- The cursor stands where a character of either width fits, above the lower edge.
pub record IsTerminal (t : Terminal) : Type 0 where
  pub window : IsWindow t
  pub left : 8 ≤ t.cursor_x
  pub grid : t.cursor_x % 8 ≡ 0
  pub right : t.cursor_x + 16 ≤ t.w
  pub top : 8 ≤ t.cursor_y
  pub bottom : t.cursor_y + 48 ≤ t.h

-- One step of the terminal: the window stays where it is, and only pixels of the screen change.
pub record Step (t t' : Terminal) : Type 0 where
  pub same_w : t'.w ≡ t.w
  pub same_h : t'.h ≡ t.h
  pub same_x : t'.x ≡ t.x
  pub same_y : t'.y ≡ t.y
  pub within : Within t.screen t'.screen

pub Step-refl : (t : Terminal) → Step t t
Step-refl t = record {
  same_w = refl;
  same_h = refl;
  same_x = refl;
  same_y = refl;
  within = Within-refl t.screen;
}

pub Step-trans : (t u v : Terminal) → Step t u → Step u v → Step t v
Step-trans t u v a b = record {
  same_w = b.same_w ∙ a.same_w;
  same_h = b.same_h ∙ a.same_h;
  same_x = b.same_x ∙ a.same_x;
  same_y = b.same_y ∙ a.same_y;
  within = Within-trans t.screen u.screen v.screen a.within b.within;
}

pub IsWindow-Step : (t u : Terminal) → Step t u → IsWindow t → IsWindow u
IsWindow-Step t u s w = record {
  wide = omega (arith, s.same_w, w.wide);
  high = omega (arith, s.same_h, w.high);
  small = omega (arith, s.same_x, s.same_w, w.small);
  low = omega (arith, s.same_y, s.same_h, w.low);
  on_screen = IsScreen-Within t.screen u.screen s.within w.on_screen;
  screen_small = omega (arith, s.within.height, w.screen_small);
}

-- Before the checks at the end of a step: the cursor is too far right or too low, but not both.
pub record IsNear (t : Terminal) : Type 0 where
  pub window : IsWindow t
  pub left : 8 ≤ t.cursor_x
  pub grid : t.cursor_x % 8 ≡ 0
  pub right : t.cursor_x ≤ t.w
  pub top : 8 ≤ t.cursor_y
  pub bottom : t.cursor_y + 30 ≤ t.h
  pub room : (t.cursor_x + 16 ≤ t.w) ⊎ (t.cursor_y + 48 ≤ t.h)

scroll-IsTerminal :
    (t : Terminal) → IsNear t → t.cursor_x + 16 ≤ t.w → Step t (scroll t) × IsTerminal (scroll t)
unfolding scroll
scroll-IsTerminal t n fits = elim (Bool-cases (ltb (sub32 t.h 30) (u32 (t.cursor_y + 18)))) [
  | inl e ↦
      let drawn =
        draw_rect-Within t.x (u32 (t.y + 28)) t.w (sub32 t.h 28) t.bg_color t.screen
          n.window.on_screen in
      let step : Step t
          (record (draw_on (draw_rect t.x (u32 (t.y + 28)) t.w (sub32 t.h 28) t.bg_color) t) {
            cursor_y = 8;
          }) =
        record { same_w = refl; same_h = refl; same_x = refl; same_y = refl; within = drawn } in
      rw e (
        step,
        record {
          window = IsWindow-Step t _ step n.window;
          left = n.left;
          grid = n.grid;
          right = fits;
          top = omega arith;
          bottom = omega (arith, n.window.high);
        },
      )
  | inr e ↦ rw e (
    Step-refl t,
    record {
      window = n.window;
      left = n.left;
      grid = n.grid;
      right = fits;
      top = n.top;
      bottom = ground (arith, e, n.window.low, n.bottom, n.window.high);
    },
  )
]

pub line_feed-Step : (t : Terminal) → Step t (line_feed t)
line_feed-Step t = record {
  same_w = refl;
  same_h = refl;
  same_x = refl;
  same_y = refl;
  within = Within-refl t.screen;
}

pub line_feed-IsNear :
    (t : Terminal) → IsWindow t → 8 ≤ t.cursor_y → t.cursor_y + 48 ≤ t.h → IsNear (line_feed t)
line_feed-IsNear t w top low = record {
  window = IsWindow-Step t (line_feed t) (line_feed-Step t) w;
  left = omega arith;
  grid = omega arith;
  right = omega (arith, w.wide);
  top = omega (arith, w.low);
  bottom = omega (arith, w.low);
  room = inl (omega (arith, w.wide));
}

-- Both checks.
pub settle :
    (t : Terminal) → IsNear t → Step t (scroll (wrap_line t)) × IsTerminal (scroll (wrap_line t))
unfolding wrap_line
settle t n = elim (Bool-cases (ltb t.w (u32 (t.cursor_x + 16)))) [
  | inl e ↦
      let low : t.cursor_y + 48 ≤ t.h = ground (arith, e, n.room, n.right, n.window.small) in
      let (step, there) =
        scroll-IsTerminal (line_feed t) (line_feed-IsNear t n.window n.top low)
          (omega (arith, n.window.wide)) in
      rw e (Step-trans t (line_feed t) _ (line_feed-Step t) step, there)
  | inr e ↦ rw e (scroll-IsTerminal t n (ground (arith, e, n.right, n.window.small)))
]

-- A character drawn at the cursor, and the cursor `pixels` further.
pub drawn_at :
    (pixels : ℕ) (s : Screen) (t : Terminal)
    → IsTerminal t
    → pixels ≤ 16
    → pixels % 8 ≡ 0
    → Within t.screen s
    → Step t (move_cursor pixels (record t { screen = s }))
      × IsNear (move_cursor pixels (record t { screen = s }))
drawn_at pixels s t i h aligned within =
    let step : Step t (move_cursor pixels (record t { screen = s })) = record {
      same_w = refl;
      same_h = refl;
      same_x = refl;
      same_y = refl;
      within = within;
    } in
    let new_x : u32 (t.cursor_x + pixels) ≡ t.cursor_x + pixels =
      omega (arith, i.right, i.window.small) in
    (
      step,
      record {
        window = IsWindow-Step t _ step i.window;
        left = omega (arith, new_x, i.left);
        grid = omega (arith, new_x, i.grid, aligned);
        right = omega (arith, new_x, i.right);
        top = i.top;
        bottom = omega (arith, i.bottom);
        room = inr i.bottom;
      },
    )

pub put_char-Within_at :
    (fonts : Fonts) (c : ℕ) (t : Terminal)
    → IsTerminal t
    → Within t.screen (put_char fonts c (real_x t) (real_y t) t.text_color t.screen)
put_char-Within_at fonts c t i =
    put_char-Within fonts c (real_x t) (real_y t) t.text_color t.screen i.window.on_screen
      i.window.screen_small (omega (arith, i.right, i.window.small))
      (omega (arith, i.bottom, i.window.low))

pub near : (t : Terminal) → IsTerminal t → IsNear t
near t i = record {
  window = i.window;
  left = i.left;
  grid = i.grid;
  right = omega (arith, i.right);
  top = i.top;
  bottom = omega (arith, i.bottom);
  room = inl i.right;
}

abbrev pub returned : Terminal → Terminal
returned t = record t { cursor_x = 8 }

pub returned-Step : (t : Terminal) → Step t (returned t)
returned-Step t = record {
  same_w = refl;
  same_h = refl;
  same_x = refl;
  same_y = refl;
  within = Within-refl t.screen;
}

pub returned-IsTerminal : (t : Terminal) → IsTerminal t → IsTerminal (returned t)
returned-IsTerminal t i = record {
  window = IsWindow-Step t (returned t) (returned-Step t) i.window;
  left = omega arith;
  grid = omega arith;
  right = omega (arith, i.window.wide);
  top = i.top;
  bottom = i.bottom;
}

-- One character.
pub term_putc-IsTerminal :
    (fonts : Fonts) (c : ℕ) (t : Terminal)
    → IsTerminal t
    → Step t (term_putc fonts c t) × IsTerminal (term_putc fonts c t)
unfolding term_putc
term_putc-IsTerminal fonts c t i = elim (Bool-cases (c == 10)) [
  | inl e ↦
      let (step, there) =
        scroll-IsTerminal (line_feed t) (line_feed-IsNear t i.window i.top i.bottom)
          (omega (arith, i.window.wide)) in
      rw e (Step-trans t (line_feed t) _ (line_feed-Step t) step, there)
  | inr e ↦ elim (Bool-cases (c == 13)) [
    | inl f ↦
        let (step, there) =
          scroll-IsTerminal _ (near _ (returned-IsTerminal t i)) (omega (arith, i.window.wide)) in
        rw (e, f) (Step-trans t (returned t) _ (returned-Step t) step, there)
    | inr f ↦
        let (first, close) = drawn_at 8 _ t i (omega arith) refl (put_char-Within_at fonts c t i) in
        let (step, there) = settle _ close in rw (e, f) (Step-trans t _ _ first step, there)
  ]
]
