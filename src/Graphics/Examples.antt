-- ===== src/Graphics/Examples.antt =====
-- kernel/graphics.c on a small screen.
use blue_star_os.Base.{true, arith}
use blue_star_os.Graphics.{Screen, draw_rect}
use blue_star_os.Graphics.Visible.{IsScreen, Within}
use blue_star_os.Graphics.Bounds.{draw_rect-Within}

abbrev small_screen : Screen
small_screen = record { present = true; width = 10; height = 5; pitch = 64; pixels = λ i. 0 }

small_screen-IsScreen : IsScreen small_screen
small_screen-IsScreen = record { wide = omega arith; small = omega arith }

draw_rect-Within_example : Within small_screen (draw_rect 8 3 100 100 7 small_screen)
draw_rect-Within_example = draw_rect-Within 8 3 100 100 7 small_screen small_screen-IsScreen
