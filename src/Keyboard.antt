-- ===== src/Keyboard.antt =====
-- kernel/drivers/keyboard.c: scan codes as characters.
pub mod Letters
mod Examples
use blue_star_os.Base.{
  ℕ, ◌+◌, ◌/◌, ◌%◌, ◌^◌, Bool, true, false, Option, none, some, List, [], ◌∷◌, get_or, bit_and,
  ◌==◌, leb, ltb, ◌&&◌, ◌||◌, not, if◌then◌else◌, low_bits,
}
use blue_star_os.Io.{Ports}

-- `shift_pressed` and `caps_lock`.
pub record Keyboard : Type 0 where
  pub shift_pressed : Bool
  pub caps_lock : Bool

abbrev pub scan_lshift : ℕ
scan_lshift = 0x2A

abbrev pub scan_rshift : ℕ
scan_rshift = 0x36

abbrev pub scan_caps : ℕ
scan_caps = 0x3A

-- The characters without shift; the entries that are not written are 0.
abbrev pub kbd_us_lower : List ℕ
kbd_us_lower =
    0 ∷ 27 ∷ b'1' ∷ b'2' ∷ b'3' ∷ b'4' ∷ b'5' ∷ b'6' ∷ b'7' ∷ b'8' ∷ b'9' ∷ b'0' ∷ b'-' ∷ b'=' ∷ 8
    ∷ 9 ∷ b'q' ∷ b'w' ∷ b'e' ∷ b'r' ∷ b't' ∷ b'y' ∷ b'u' ∷ b'i' ∷ b'o' ∷ b'p' ∷ b'[' ∷ b']' ∷ 10 ∷ 0
    ∷ b'a' ∷ b's' ∷ b'd' ∷ b'f' ∷ b'g' ∷ b'h' ∷ b'j' ∷ b'k' ∷ b'l' ∷ b';' ∷ b'\'' ∷ b'`' ∷ 0 ∷ b'\\'
    ∷ b'z' ∷ b'x' ∷ b'c' ∷ b'v' ∷ b'b' ∷ b'n' ∷ b'm' ∷ b',' ∷ b'.' ∷ b'/' ∷ 0 ∷ b'*' ∷ 0 ∷ b' ' ∷ 0
    ∷ []

-- The characters with shift.
abbrev pub kbd_us_upper : List ℕ
kbd_us_upper =
    0 ∷ 27 ∷ b'!' ∷ b'@' ∷ b'#' ∷ b'$' ∷ b'%' ∷ b'^' ∷ b'&' ∷ b'*' ∷ b'(' ∷ b')' ∷ b'_' ∷ b'+' ∷ 8
    ∷ 9 ∷ b'Q' ∷ b'W' ∷ b'E' ∷ b'R' ∷ b'T' ∷ b'Y' ∷ b'U' ∷ b'I' ∷ b'O' ∷ b'P' ∷ b'{' ∷ b'}' ∷ 10 ∷ 0
    ∷ b'A' ∷ b'S' ∷ b'D' ∷ b'F' ∷ b'G' ∷ b'H' ∷ b'J' ∷ b'K' ∷ b'L' ∷ b':' ∷ b'"' ∷ b'~' ∷ 0 ∷ b'|'
    ∷ b'Z' ∷ b'X' ∷ b'C' ∷ b'V' ∷ b'B' ∷ b'N' ∷ b'M' ∷ b'<' ∷ b'>' ∷ b'?' ∷ 0 ∷ b'*' ∷ 0 ∷ b' ' ∷ 0
    ∷ []

pub is_alpha : ℕ → Bool
is_alpha c = leb b'a' c && leb c b'z'

abbrev pub xor : Bool → Bool → Bool
xor true b = not b
xor false b = b

-- The character of a key that is pressed; none for a key without one.
pub key_char : ℕ → Keyboard → Option ℕ
key_char scancode k =
    let base = get_or kbd_us_lower scancode 0 in
    let other = get_or kbd_us_upper scancode 0 in
    let upper : Bool = if is_alpha base then xor k.shift_pressed k.caps_lock else k.shift_pressed in
    if base == 0 then none else some (if upper then other else base)

-- A byte of the keyboard: the new state, and the scan code and character that are handed to
-- `on_keyboard_pressed`, if any.
pub keyboard_byte : ℕ → Keyboard → Keyboard × Option (ℕ × ℕ)
keyboard_byte scancode k =
    let released = low_bits scancode 7 in
    if leb 0x80 scancode
    then if (released == scan_lshift) || (released == scan_rshift)
      then (record k { shift_pressed = false }, none)
      else (k, none)
    else if (scancode == scan_lshift) || (scancode == scan_rshift)
    then (record k { shift_pressed = true }, none)
    else if scancode == scan_caps
    then (record k { caps_lock = not k.caps_lock }, none)
    else (k, elim (key_char scancode k) [ none ↦ none | some c ↦ some (scancode, c) ])

module _ {M : Type 0} ⦃ports : Ports M⦄ where
  -- `keyboard_callback`: the interrupt of a key.
  pub keyboard_callback : Keyboard → M → Keyboard × Option (ℕ × ℕ) × M
  keyboard_callback k m =
      let (scancode, m) = ports.inb 0x60 m in
      let (k, event) = keyboard_byte scancode k in (k, event, m)

  -- `keyboard_init`, less the entry of the handler in its table.
  keyboard_init : M → M
  keyboard_init m = let (mask, m) = ports.inb 0x21 m in ports.outb 0x21 (bit_and mask 0xFD) m
