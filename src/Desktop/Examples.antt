-- ===== src/Desktop/Examples.antt =====
-- The terminal of kernel/kmain.c on a screen of 800 by 600 pixels.
use blue_star_os.Base.{◌≡◌, refl, true, [], arith}
use blue_star_os.Graphics.{Screen}
use blue_star_os.Text.{Fonts}
use blue_star_os.Desktop.{g_term, Desk}
use blue_star_os.Desktop.Keys.{on_keyboard_pressed}
use blue_star_os.Mouse.{Mouse}
use blue_star_os.Mouse.Packets.{move_of}
use blue_star_os.Desktop.Pointer.{Pointer, never, wiped, on_mouse_update}
use blue_star_os.Desktop.Pointer.Picture.{
  IsSized, picture, picture-on_mouse_update, on_mouse_update-moved_by,
}
use blue_star_os.Desktop.Session.{IsDesk, Handled, on_keyboard_pressed-Handled}

abbrev screen : Screen
screen = record { present = true; width = 800; height = 600; pitch = 3200; pixels = λ i. 0 }

abbrev no_fonts : Fonts
no_fonts = record { basic = λ c row. 0xFF; chinese = [] }

abbrev desk : Desk
desk = record { term = g_term screen; input_buffer = λ x. 0; input_index = 0 }

desk-IsDesk : IsDesk desk
desk-IsDesk = record {
  in_line = omega arith;
  ended = refl;
  inside = record {
    window = record {
      wide = omega arith;
      high = omega arith;
      small = omega arith;
      low = omega arith;
      on_screen = record { wide = omega arith; small = omega arith };
      screen_small = omega arith;
    };
    left = omega arith;
    grid = refl;
    right = omega arith;
    top = omega arith;
    bottom = omega arith;
  };
}

on_keyboard_pressed-Handled_example : Handled desk (on_keyboard_pressed no_fonts b'a' desk)
on_keyboard_pressed-Handled_example = on_keyboard_pressed-Handled no_fonts b'a' desk desk-IsDesk

abbrev resting_mouse : Mouse
resting_mouse = record {
  mouse_cycle = 0;
  mouse_packet = λ i. 0;
  left_button = 0;
  right_button = 0;
  middle_button = 0;
  back_buffer = λ i. 0;
  last_back_x = 0;
  last_back_y = 0;
  last_back_w = 0;
  last_back_h = 0;
}

-- No pointer has been drawn.
abbrev pointer : Pointer
pointer = record {
  mouse = resting_mouse;
  screen = screen;
  mouse_x = 10;
  mouse_y = 10;
  old_mouse_x = never;
  old_mouse_y = never;
}

pointer-IsSized : IsSized (wiped pointer)
pointer-IsSized = record {
  some_width = omega arith;
  some_height = omega arith;
  width_small = omega arith;
  height_small = omega arith;
}

picture-on_mouse_update_example :
    picture (on_mouse_update (move_of 0x19 0xFE 1) pointer) 5 ≡ picture pointer 5
picture-on_mouse_update_example =
    picture-on_mouse_update (move_of 0x19 0xFE 1) pointer 5 pointer-IsSized

on_mouse_update-moved_by_example :
    ((on_mouse_update (move_of 0x19 0xFE 1) pointer).mouse_x ≡ 8)
    × ((on_mouse_update (move_of 0x19 0xFE 1) pointer).mouse_y ≡ 9)
on_mouse_update-moved_by_example =
    on_mouse_update-moved_by 0x19 0xFE 1 pointer pointer-IsSized (omega arith) (omega arith)
      (omega arith) (omega arith)
