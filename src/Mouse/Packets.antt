-- ===== src/Mouse/Packets.antt =====
-- The three bytes of a packet of the mouse, in kernel/drivers/ps2_mouse.c.
use blue_star_os.Base.{◌+◌, ◌*◌, ◌/◌, ◌%◌, ◌^◌, ◌<◌, ◌⊎◌, ℕ, ◌≡◌, refl, none, some, store, arith}
use blue_star_os.Mouse.{Mouse, Move, button, has, extended, mouse_byte}

-- The move that three bytes stand for.
abbrev pub move_of : ℕ → ℕ → ℕ → Move
move_of flags dx dy = record {
  x_rel = extended (has flags 4) dx;
  y_rel = extended (has flags 5) dy;
  left = button flags 0;
  middle = button flags 2;
  right = button flags 1;
}

-- The whole number that a 32-bit word stands for is `value - 256` or `value`.
abbrev pub Displaced : ℕ → ℕ → ℕ → Type 0
Displaced word sign byte =
    ((sign ≡ 1) × (word + 256 ≡ 2 ^ 32 + byte)) ⊎ ((sign ≡ 0) × (word ≡ byte))

move_of-Displaced :
    (flags d k : ℕ) → d < 256 → Displaced (extended (has flags k) d) (flags / 2 ^ k % 2) d
move_of-Displaced flags d k small = ground arith

-- From the start of a packet, three bytes give no move, no move, and then a move, and the next
-- packet starts. Its displacements are the second and the third byte, less 256 where bit 4 and bit
-- 5 of the first byte are set, as 32-bit words; its buttons are bits 0, 1 and 2 of the first byte,
-- in their places, and are kept in the state.
pub mouse_byte-Move :
    (flags dx dy : ℕ) (s : Mouse)
    → s.mouse_cycle ≡ 0
    → dx < 256
    → dy < 256
    → (let s1 = (mouse_byte flags s).0 in
        let s2 = (mouse_byte dx s1).0 in
        let s3 = (mouse_byte dy s2).0 in
        ((mouse_byte flags s).1 ≡ none)
        × ((mouse_byte dx s1).1 ≡ none)
        × (s3.mouse_cycle ≡ 0)
        × (move : Move) × ((mouse_byte dy s2).1 ≡ some move)
        × Displaced move.x_rel (flags / 16 % 2) dx
        × Displaced move.y_rel (flags / 32 % 2) dy
        × (move.left ≡ flags % 2)
        × (move.right ≡ flags / 2 % 2 * 2)
        × (move.middle ≡ flags / 4 % 2 * 4)
        × (s3.left_button ≡ move.left)
        × (s3.right_button ≡ move.right)
        × (s3.middle_button ≡ move.middle))
unfolding mouse_byte store
mouse_byte-Move flags dx dy s start hx hy = rw start (
  refl,
  refl,
  refl,
  move_of flags dx dy,
  refl,
  move_of-Displaced flags dx 4 hx,
  move_of-Displaced flags dy 5 hy,
  omega arith,
  omega arith,
  omega arith,
  refl,
  refl,
  refl,
)
