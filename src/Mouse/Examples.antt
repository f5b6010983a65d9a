-- ===== src/Mouse/Examples.antt =====
-- kernel/drivers/ps2_mouse.c on one packet and one position.
use blue_star_os.Base.{◌≡◌, refl, store, none, some, arith}
use blue_star_os.Mouse.{Mouse, Move, mouse_byte}
use blue_star_os.Mouse.Packets.{move_of, Displaced, mouse_byte-Move}

abbrev still : Mouse
still = record {
  mouse_cycle = 0;
  mouse_packet = λ i. 0;
  left_button = 0;
  right_button = 0;
  middle_button = 0;
  back_buffer = λ i. 0;
  last_back_x = 0;
  last_back_y = 0;
  last_back_w = 0;
  last_back_h = 0;
}

-- A move of two to the left and one up, with the left button.
packet : (mouse_byte 1 (mouse_byte 0xFE (mouse_byte 0x19 still).0).0).1 ≡ some (move_of 0x19 0xFE 1)
unfolding mouse_byte store
packet = refl

mouse_byte-Move_example :
    ((mouse_byte 0x19 still).1 ≡ none)
    × ((mouse_byte 0xFE (mouse_byte 0x19 still).0).1 ≡ none)
    × ((mouse_byte 1 (mouse_byte 0xFE (mouse_byte 0x19 still).0).0).0.mouse_cycle ≡ 0)
    × (move : Move) × ((mouse_byte 1 (mouse_byte 0xFE (mouse_byte 0x19 still).0).0).1 ≡ some move)
    × Displaced move.x_rel 1 0xFE
    × Displaced move.y_rel 0 1
    × (move.left ≡ 1)
    × (move.right ≡ 0)
    × (move.middle ≡ 0)
    × ((mouse_byte 1 (mouse_byte 0xFE (mouse_byte 0x19 still).0).0).0.left_button ≡ move.left)
    × ((mouse_byte 1 (mouse_byte 0xFE (mouse_byte 0x19 still).0).0).0.right_button ≡ move.right)
    × ((mouse_byte 1 (mouse_byte 0xFE (mouse_byte 0x19 still).0).0).0.middle_button ≡ move.middle)
mouse_byte-Move_example = mouse_byte-Move 0x19 0xFE 1 still refl (omega arith) (omega arith)
