-- ===== src/Desktop/Pointer.antt =====
-- `on_mouse_update` of kernel/kmain.c: the pointer of the mouse.
pub mod Picture
use blue_star_os.Base.{ℕ, ◌+◌, ◌-◌, ◌^◌, Bool, ◌==◌, leb, not, if◌then◌else◌, u32, sub32}
use blue_star_os.Graphics.{Screen}
use blue_star_os.Mouse.{Mouse, Move}
use blue_star_os.Mouse.Pointer.{draw_mouse_cursor, save_mouse_background, restore_mouse_background}

-- The mouse, the frame buffer, and the positions, which are 32-bit words; `old_mouse_x` is -1 while
-- no pointer has been drawn.
pub record Pointer : Type 0 where
  pub mouse : Mouse
  pub screen : Screen
  pub mouse_x : ℕ
  pub mouse_y : ℕ
  pub old_mouse_x : ℕ
  pub old_mouse_y : ℕ

abbrev pub never : ℕ
never = 2 ^ 32 - 1

-- A coordinate as a signed word, kept between 0 and the limit.
abbrev pub clamp : ℕ → ℕ → ℕ
clamp limit v =
    let v1 = if leb (2 ^ 31) v then 0 else v in
    if leb (u32 (limit + 2 ^ 31)) (u32 (v1 + 2 ^ 31)) then sub32 limit 1 else v1

-- The frame buffer with the old pointer wiped out.
abbrev pub wiped : Pointer → Screen
wiped p = if p.old_mouse_x == never then p.screen else restore_mouse_background p.mouse p.screen

unfoldable pub on_mouse_update : Move → Pointer → Pointer
on_mouse_update move p =
    let s = wiped p in
    let x = clamp s.width (u32 (p.mouse_x + move.x_rel)) in
    let y = clamp s.height (sub32 p.mouse_y move.y_rel) in
    record {
      mouse = save_mouse_background x y s p.mouse;
      screen = draw_mouse_cursor x y s;
      mouse_x = x;
      mouse_y = y;
      old_mouse_x = x;
      old_mouse_y = y;
    }
