-- ===== src/Keyboard/Examples.antt =====
-- kernel/drivers/keyboard.c on single keys: tests, and the theorem on one.
use blue_star_os.Base.{◌≡◌, refl, true, false, none, some, get_or, arith, ◌==◌, if◌then◌else◌}
use blue_star_os.Keyboard.{Keyboard, kbd_us_lower, is_alpha, xor, key_char, keyboard_byte}
use blue_star_os.Keyboard.Letters.{shifted, key_char-shifted}

abbrev shift_held : Keyboard
shift_held = record { shift_pressed = true; caps_lock = false }

key_char-shifted_example : key_char 0x1E shift_held ≡ (
    let c = get_or kbd_us_lower 0x1E 0 in
    if c == 0
    then none
    else some (if (if is_alpha c then xor true false else true) then shifted c else c))
key_char-shifted_example = key_char-shifted 0x1E shift_held (omega arith)

shift_a : keyboard_byte 0x1E shift_held ≡ (shift_held, some (0x1E, b'A'))
unfolding keyboard_byte key_char is_alpha
shift_a = refl
