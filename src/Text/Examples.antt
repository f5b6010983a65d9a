-- ===== src/Text/Examples.antt =====
-- kernel/text.c on a small screen: the theorems on short strings.
use blue_star_os.Base.{ℕ, ◌≡◌, true, some, List, [], ◌∷◌, ◌++◌, utf8_of, arith}
use blue_star_os.Graphics.{Screen}
use blue_star_os.Graphics.Visible.{IsScreen}
use blue_star_os.Text.{Fonts, print_string}
use blue_star_os.Text.Decode.{decode, decode-utf8_of}
use blue_star_os.Text.Strings.{Drawn, print_string-Within}

abbrev small_screen : Screen
small_screen = record { present = true; width = 40; height = 40; pitch = 256; pixels = λ i. 0 }

small_screen-IsScreen : IsScreen small_screen
small_screen-IsScreen = record { wide = omega arith; small = omega arith }

abbrev full_fonts : Fonts
full_fonts = record { basic = λ c row. 0xFF; chinese = [] }

-- "a" and the first character of the table of Chinese glyphs, less its last byte.
abbrev cut_text : List ℕ
cut_text = b'a' ∷ 0xE4 ∷ 0xBD ∷ []

print_string-Within_example :
    Drawn small_screen (print_string full_fonts cut_text 4 4 1 small_screen)
print_string-Within_example =
    print_string-Within full_fonts cut_text 4 4 1 small_screen small_screen-IsScreen (omega arith)
      (omega arith) (omega arith)

decode-utf8_of_example : decode (utf8_of 0x4F60 ++ b'a' ∷ []) ≡ some (0x4F60, b'a' ∷ [])
decode-utf8_of_example = decode-utf8_of 0x4F60 (b'a' ∷ []) (omega arith)
