-- ===== src/Keyboard/Letters.antt =====
-- The tables of kernel/drivers/keyboard.c against the layout of a US keyboard.
use blue_star_os.Base.{
  ℕ, ◌-◌, ◌<◌, ◌≡◌, refl, Bool, true, none, some, List, [], ◌∷◌, get_or, ◌==◌, if◌then◌else◌, utf8,
  all_below, all_below_at, ==_iff,
}
use blue_star_os.Keyboard.{Keyboard, kbd_us_lower, kbd_us_upper, is_alpha, xor, key_char}

-- The two characters of the keys that are no letters.
abbrev plain_keys : List ℕ
plain_keys = utf8 "`1234567890-=[]\\;',./"

abbrev shifted_keys : List ℕ
shifted_keys = utf8 "~!@#$%^&*()_+{}|:\"<>?"

partner : ℕ → List ℕ → List ℕ → ℕ
partner c [] ds = c
partner c (p ∷ ps) [] = c
partner c (p ∷ ps) (d ∷ ds) = let rest = partner c ps ds in if c == p then d else rest

-- The character of a key with shift, from the one without.
pub shifted : ℕ → ℕ
shifted c = if is_alpha c then c - 32 else partner c plain_keys shifted_keys

abbrev agrees : ℕ → Bool
agrees i = get_or kbd_us_upper i 0 == shifted (get_or kbd_us_lower i 0)

tables_agree : all_below 128 agrees ≡ true
unfolding all_below shifted partner is_alpha
tables_agree = refl

-- Every scan code below 128 of a key with a character gives that character, or its partner on the
-- US layout: a letter where one of shift and caps lock holds and not both, another character where
-- shift holds.
pub key_char-shifted :
    (scancode : ℕ) (k : Keyboard)
    → scancode < 128
    → key_char scancode k ≡ (
        let c = get_or kbd_us_lower scancode 0 in
        if c == 0
        then none
        else some (
            if (if is_alpha c then xor k.shift_pressed k.caps_lock else k.shift_pressed)
            then shifted c
            else c))
unfolding key_char
key_char-shifted scancode k h =
    let same : get_or kbd_us_upper scancode 0 ≡ shifted (get_or kbd_us_lower scancode 0) =
      (==_iff (get_or kbd_us_upper scancode 0) (shifted (get_or kbd_us_lower scancode 0))).0
        (all_below_at 128 agrees scancode tables_agree h) in
    rw same refl
