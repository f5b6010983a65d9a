-- ===== src/Shell/Format.antt =====
-- Numbers and formatted text of kernel/shell.c: `shell_utoa`, `shell_utoa_hex`, `shell_strtoul` and
-- `shell_printf`.
use blue_star_os.Base.{
  ℕ, zero, suc, ◌+◌, ◌-◌, ◌*◌, ◌/◌, ◌%◌, ◌^◌, Bool, true, false, Option, none, some, List, [], ◌∷◌,
  ◌++◌, length, ◌==◌, ltb, leb, ◌&&◌, ◌||◌, not, if◌then◌else◌, u32, low_bits, ◌>>>◌, ℤ, pos,
  difference,
}

-- `shell_strcmp`.
unfoldable pub shell_strcmp : List ℕ → List ℕ → ℤ
shell_strcmp [] [] = pos 0
shell_strcmp [] (d ∷ ds) = difference 0 d
shell_strcmp (c ∷ cs) [] = difference c 0
shell_strcmp (c ∷ cs) (d ∷ ds) =
    let rest = shell_strcmp cs ds in if c == d then rest else difference c d

abbrev pub is_zero : ℤ → Bool
is_zero (pos n) = n == 0
is_zero n = false

abbrev pub same_text : List ℕ → List ℕ → Bool
same_text a b = is_zero (shell_strcmp a b)

abbrev digit_letter : ℕ → ℕ
digit_letter d = if ltb d 10 then d + b'0' else d - 10 + b'a'

-- The digits from the last one on, put in front of each other: what the loop writes and then turns.
unfoldable pub digits_onto : ℕ → ℕ → ℕ → List ℕ → List ℕ
digits_onto zero value base acc = acc
digits_onto (suc n) value base acc =
    let rest = digits_onto n (value / base) base (digit_letter (value % base) ∷ acc) in
    if value == 0 then acc else rest

-- `shell_utoa`: a word has 32 digits at most.
unfoldable pub shell_utoa : ℕ → ℕ → List ℕ
shell_utoa value base = if value == 0 then b'0' ∷ [] else digits_onto 32 value base []

abbrev hex_digit : Bool → ℕ → ℕ
hex_digit uppercase d =
    if ltb d 10 then d + b'0' else if uppercase then d - 10 + b'A' else d - 10 + b'a'

-- The digits below bit 4 * (i + 1), less zeros at the front.
unfoldable pub hex_digits_from : ℕ → ℕ → Bool → List ℕ → List ℕ
hex_digits_from zero value uppercase out = out
hex_digits_from (suc i) value uppercase out =
    let digit = low_bits (value >>> (4 * i)) 4 in
    let later = hex_digits_from i value uppercase (out ++ (hex_digit uppercase digit ∷ [])) in
    let skipped = hex_digits_from i value uppercase out in
    if not (digit == 0) || not (length out == 0) then later else skipped

unfoldable pub shell_utoa_hex : ℕ → Bool → List ℕ
shell_utoa_hex value uppercase =
    if value == 0 then b'0' ∷ [] else hex_digits_from 8 value uppercase []

-- The blanks and tabs at the front left out.
skip_white : List ℕ → List ℕ
skip_white [] = []
skip_white (c ∷ cs) = let rest = skip_white cs in if (c == b' ') || (c == 9) then rest else c ∷ cs

-- The base that a prefix selects, and the text behind the prefix. The second byte of a prefix "0x"
-- is stepped over with the first.
pick_base : List ℕ → ℕ × List ℕ
pick_base [] = (10, [])
pick_base (c ∷ []) = if c == b'0' then (8, []) else (10, c ∷ [])
pick_base (c ∷ x ∷ cs) =
    if c == b'0'
    then if (x == b'x') || (x == b'X') then (16, cs) else (8, x ∷ cs)
    else (10, c ∷ x ∷ cs)

digit_value : ℕ → Option ℕ
digit_value c =
    if leb b'0' c && leb c b'9'
    then some (c - b'0')
    else if leb b'a' c && leb c b'f'
    then some (c - b'a' + 10)
    else if leb b'A' c && leb c b'F'
    then some (c - b'A' + 10)
    else none

below : ℕ → Option ℕ → Bool
below base none = false
below base (some d) = ltb d base

or_zero : Option ℕ → ℕ
or_zero none = 0
or_zero (some d) = d

-- The value, and the text that is left.
strtoul_digits : ℕ → ℕ → List ℕ → ℕ × List ℕ
strtoul_digits base result [] = (result, [])
strtoul_digits base result (c ∷ cs) =
    let digit = digit_value c in
    let rest = strtoul_digits base (u32 (result * base + or_zero digit)) cs in
    if below base digit then rest else (result, c ∷ cs)

-- `shell_strtoul`, with what `endptr` is set to.
pub shell_strtoul : List ℕ → ℕ → ℕ × List ℕ
shell_strtoul str base =
    let str = skip_white str in
    let (picked, behind) = pick_base str in
    if base == 0 then strtoul_digits picked 0 behind else strtoul_digits base 0 str

abbrev pub repeat : ℕ → ℕ → List ℕ
repeat zero c = []
repeat (suc n) c = c ∷ repeat n c

-- `shell_format_number`.
unfoldable pub shell_format_number : List ℕ → Bool → ℕ → Bool → Bool → List ℕ
shell_format_number num left_align width zero_pad negative =
    let sign : List ℕ = if negative then b'-' ∷ [] else [] in
    let len = length num + length sign in
    let pad_char : ℕ = if zero_pad then b'0' else b' ' in
    if ltb len width
    then if left_align
      then sign ++ num ++ repeat (width - len) b' '
      else repeat (width - len) pad_char ++ sign ++ num
    else sign ++ num

-- `%s`: padded to the width.
unfoldable pub padded : List ℕ → Bool → ℕ → List ℕ
padded str left_align width =
    if ltb (length str) width
    then if left_align
      then str ++ repeat (width - length str) b' '
      else repeat (width - length str) b' ' ++ str
    else str

-- An argument: a word, or a string.
pub data Arg : Type 0 where
  word : ℕ → Arg
  text : List ℕ → Arg

-- The flags in front of a directive: left alignment, zero padding, and the text behind them.
unfoldable pub read_flags : List ℕ → Bool → Bool → Bool × Bool × List ℕ
read_flags [] left zero_pad = (left, zero_pad, [])
read_flags (c ∷ cs) left zero_pad =
    let minus = read_flags cs true zero_pad in
    let nought = read_flags cs left true in
    if c == b'-' then minus else if c == b'0' then nought else (left, zero_pad, c ∷ cs)

unfoldable pub read_width : List ℕ → ℕ → ℕ × List ℕ
read_width [] width = (width, [])
read_width (c ∷ cs) width =
    let rest = read_width cs (width * 10 + (c - b'0')) in
    if leb b'0' c && leb c b'9' then rest else (width, c ∷ cs)

-- What the directive `c` writes, with the arguments that are left; none where an argument of
-- another type, or none at all, would be read.
unfoldable pub shell_directive : ℕ → Bool → Bool → ℕ → List Arg → Option (List ℕ × List Arg)
shell_directive c left zero_pad width (word value ∷ args) =
    let negative = leb (2 ^ 31) value in
    let magnitude = if negative then 2 ^ 32 - value else value in
    if c == b'd'
    then some (shell_format_number (shell_utoa magnitude 10) left width zero_pad negative, args)
    else if c == b'u'
    then some (shell_format_number (shell_utoa value 10) left width zero_pad false, args)
    else if (c == b'x') || (c == b'X')
    then some
        (shell_format_number (shell_utoa_hex value (c == b'X')) left width zero_pad false, args)
    else if c == b'c'
    then some ((value % 2 ^ 8) ∷ [], args)
    else if c == b's'
    then none
    else if c == b'%'
    then some (b'%' ∷ [], word value ∷ args)
    else some (b'%' ∷ c ∷ [], word value ∷ args)
shell_directive c left zero_pad width (text str ∷ args) =
    if c == b's'
    then some (padded str left width, args)
    else if (c == b'd') || (c == b'u') || (c == b'x') || (c == b'X') || (c == b'c')
    then none
    else if c == b'%'
    then some (b'%' ∷ [], text str ∷ args)
    else some (b'%' ∷ c ∷ [], text str ∷ args)
shell_directive c left zero_pad width [] =
    if (c == b'd') || (c == b'u') || (c == b'x') || (c == b'X') || (c == b'c') || (c == b's')
    then none
    else if c == b'%'
    then some (b'%' ∷ [], [])
    else some (b'%' ∷ c ∷ [], [])

-- A directive behind its percent sign: the text behind it, the arguments that are left, and the
-- text so far. None where the format ends before the letter, since the code then reads on behind it.
unfoldable pub convert : List ℕ → List Arg → List ℕ → Option (List ℕ × List Arg × List ℕ)
convert cs args out =
    let (left, zero_pad, behind) = read_flags cs false false in
    let (width, rest) = read_width behind 0 in
    elim rest [
      | [] ↦ none
      | c ∷ rest' ↦ elim (shell_directive c left zero_pad width args) [
        | none ↦ none
        | some (piece, args') ↦ some (rest', args', out ++ piece)
      ]
    ]

-- The text so far is `out`. The fuel is above the length of the format.
unfoldable pub printf_from : ℕ → List ℕ → List Arg → List ℕ → Option (List ℕ)
printf_from zero fmt args out = none
printf_from (suc n) [] args out = some out
printf_from (suc n) (c ∷ cs) args out =
    if ltb (length out) 255
    then elim (if c == b'%' then convert cs args out else some (cs, args, out ++ (c ∷ []))) [
      | none ↦ none
      | some (cs', args', out') ↦ printf_from n cs' args' out'
    ]
    else some out

-- The text must fit the array of 256 bytes with its null byte.
unfoldable pub fits : Option (List ℕ) → Option (List ℕ)
fits none = none
fits (some out) = if ltb (length out) 256 then some out else none

-- What `shell_printf` prints; none where the code writes behind its array or reads behind its
-- arguments or its format.
unfoldable pub shell_printf : List ℕ → List Arg → Option (List ℕ)
shell_printf fmt args = fits (printf_from (suc (length fmt)) fmt args [])
