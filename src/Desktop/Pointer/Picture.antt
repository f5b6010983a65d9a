-- ===== src/Desktop/Pointer/Picture.antt =====
-- The pointer of kernel/kmain.c moves as the mouse does, inside the screen, and leaves the picture
-- below it as it is.
use blue_star_os.Base.{
  ℕ, ◌+◌, ◌-◌, ◌^◌, ◌<◌, ◌≡◌, ap, ◌∙◌, Bool, true, false, arith, ◌==◌, ltb, if◌then◌else◌, u32,
  sub32,
}
use blue_star_os.Graphics.{Screen}
use blue_star_os.Mouse.{Move, has, extended}
use blue_star_os.Mouse.Packets.{move_of}
use blue_star_os.Mouse.Pointer.{draw_mouse_cursor, save_mouse_background, restore_mouse_background}
use blue_star_os.Mouse.Pointer.Restore.{restore-draw_save}
use blue_star_os.Desktop.Pointer.{Pointer, never, clamp, wiped, on_mouse_update}

-- A screen of a size that a signed word holds, with room for the pointer behind its edge.
pub record IsSized (s : Screen) : Type 0 where
  pub some_width : 0 < s.width
  pub some_height : 0 < s.height
  pub width_small : s.width < 2 ^ 30
  pub height_small : s.height < 2 ^ 30

clamp-lt : (limit v : ℕ) → 0 < limit → limit < 2 ^ 30 → v < 2 ^ 32 → clamp limit v < limit
clamp-lt limit v h k small = ground arith

-- The picture without the pointer.
abbrev pub picture : Pointer → ℕ → ℕ
picture p = (wiped p).pixels

-- On a screen whose sides are above 0 and below 2 ^ 30, a move of the mouse leaves the picture
-- without the pointer as it is, in every pixel of the frame buffer.
pub picture-on_mouse_update :
    (move : Move) (p : Pointer) (k : ℕ)
    → IsSized (wiped p)
    → picture (on_mouse_update move p) k ≡ picture p k
unfolding on_mouse_update
picture-on_mouse_update move p k sized =
    let s = wiped p in
    let x = clamp s.width (u32 (p.mouse_x + move.x_rel)) in
    let y = clamp s.height (sub32 p.mouse_y move.y_rel) in
    let in_w : x < s.width =
      clamp-lt s.width (u32 (p.mouse_x + move.x_rel)) sized.some_width sized.width_small
        (omega arith) in
    let in_h : y < s.height =
      clamp-lt s.height (sub32 p.mouse_y move.y_rel) sized.some_height sized.height_small
        (omega arith) in
    let drawn : (x == never) ≡ false = ground (arith, in_w, sized.width_small) in
    ap
      (λ b.
        (if b
            then draw_mouse_cursor x y s
            else restore_mouse_background (save_mouse_background x y s p.mouse)
                (draw_mouse_cursor x y s)).pixels
          k)
      drawn
    ∙ restore-draw_save s x y p.mouse in_w in_h (omega (arith, in_w, sized.width_small))
        (omega (arith, in_h, sized.height_small)) k

-- A displacement of the packet: `flag` is its sign.
abbrev pub moved_by : Bool → ℕ → ℕ → ℕ → ℕ
moved_by negative byte at limit =
    if negative then at - (256 - byte) else if ltb (at + byte) limit then at + byte else limit - 1

-- On such a screen with the pointer inside it, a packet of three bytes moves the pointer by its
-- displacements, to the right and up, as whole numbers from -256 to 255, and to the edge where it
-- would leave the screen.
pub on_mouse_update-moved_by :
    (flags dx dy : ℕ) (p : Pointer)
    → IsSized (wiped p)
    → p.mouse_x < (wiped p).width
    → p.mouse_y < (wiped p).height
    → dx < 256
    → dy < 256
    → ((on_mouse_update (move_of flags dx dy) p).mouse_x
        ≡ moved_by (has flags 4) dx p.mouse_x (wiped p).width)
      × ((on_mouse_update (move_of flags dx dy) p).mouse_y ≡ (
          if has flags 5
          then (if ltb (p.mouse_y + (256 - dy)) (wiped p).height
              then p.mouse_y + (256 - dy)
              else (wiped p).height - 1)
          else p.mouse_y - dy))
unfolding on_mouse_update
on_mouse_update-moved_by flags dx dy p sized in_w in_h hx hy = (
  right (has flags 4) (wiped p).width p.mouse_x dx sized.width_small in_w hx,
  down (has flags 5) (wiped p).height p.mouse_y dy sized.height_small in_h hy,
)
  where
    right :
        (b : Bool) (limit at byte : ℕ)
        → limit < 2 ^ 30
        → at < limit
        → byte < 256
        → clamp limit (u32 (at + extended b byte)) ≡ moved_by b byte at limit
    right true limit at byte small inside h = ground arith
    right false limit at byte small inside h = ground arith

    down :
        (b : Bool) (limit at byte : ℕ)
        → limit < 2 ^ 30
        → at < limit
        → byte < 256
        → clamp limit (sub32 at (extended b byte)) ≡ (
            if b
            then (if ltb (at + (256 - byte)) limit then at + (256 - byte) else limit - 1)
            else at - byte)
    down true limit at byte small inside h = ground arith
    down false limit at byte small inside h = ground arith
