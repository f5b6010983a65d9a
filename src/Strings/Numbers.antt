-- ===== src/Strings/Numbers.antt =====
-- Numbers as text, of kernel/string.c: `utoa`, `itoa`, `atoi` and their wide variants, which convert
-- through 32 bits. An `int` is its 32-bit word, negative from 2 ^ 31 on; where the source overflows
-- one, the word wraps around. A loop without a count takes fuel, and gives `none` where that runs out
-- (a base below 2) or where the base is 0.
pub mod Digits
pub mod Format
use blue_star_os.Base.{
  ℕ, zero, suc, ◌+◌, ◌-◌, ◌*◌, ◌/◌, ◌%◌, ◌^◌, Bool, true, false, ◌&&◌, ◌||◌, not, Option, none,
  some, ltb, leb, ◌==◌, if◌then◌else◌, u8, u32, Bytes, store,
}

-- `reverse_string`: swaps the bytes at the two ends while they have not met.
reverse_from : ℕ → Bytes → ℕ → ℕ → Bytes
reverse_from zero m start end = m
reverse_from (suc rounds) m start end =
    let swapped = store (store m start (m end)) end (m start) in
    if ltb start end then reverse_from rounds swapped (start + 1) (end - 1) else m

pub reverse_string : Bytes → ℕ → ℕ → Bytes
reverse_string m str length = reverse_from length m str (str + length - 1)

-- The character of a remainder, which is negative where the value is.
pub digit_char : Bool → ℕ → ℕ
digit_char negative rem =
    if negative
    then u8 (b'0' + 256 - rem % 256)
    else if ltb 9 rem
    then u8 (rem - 10 + b'a')
    else u8 (rem + b'0')

-- The digits of a magnitude, the lowest one first, from `ptr` on; memory and where `ptr` ends.
pub put_digits : ℕ → Bool → Bytes → ℕ → ℕ → ℕ → Option (Bytes × ℕ)
put_digits zero negative m ptr value base = if value == 0 then some (m, ptr) else none
put_digits (suc fuel) negative m ptr value base =
    let put = store m ptr (digit_char negative (value % base)) in
    let rest = put_digits fuel negative put (ptr + 1) (value / base) base in
    if value == 0 then some (m, ptr) else if base == 0 then none else rest

pub utoa : ℕ → Bytes → ℕ → ℕ → ℕ → Option Bytes
utoa fuel m value str base =
    let digits = put_digits fuel false m str value base in
    if value == 0 then some (store (store m str b'0') (str + 1) 0) else elim digits [
      | none ↦ none
      | some (put, ptr) ↦ some (reverse_string (store put ptr 0) str (ptr - str))
    ]

-- The smallest `int` has no negative, and stays as it is under the minus sign: its digits come out
-- negative.
pub itoa : ℕ → Bytes → ℕ → ℕ → ℕ → Option Bytes
itoa fuel m value str base =
    let below_zero = leb (2 ^ 31) value in
    let negative = below_zero && (base == 10) in
    let magnitude = if below_zero then 2 ^ 32 - value else value in
    let stays_negative = below_zero && (not (base == 10) || (value == 2 ^ 31)) in
    let digits = put_digits fuel stays_negative m str magnitude base in
    if value == 0 then some (store (store m str b'0') (str + 1) 0) else elim digits [
      | none ↦ none
      | some (put, ptr) ↦
          let signed = if negative then store put ptr b'-' else put in
          let last = if negative then ptr + 1 else ptr in
          some (reverse_string (store signed last 0) str (last - str))
    ]

lltoa : ℕ → Bytes → ℕ → ℕ → ℕ → Option Bytes
lltoa fuel m value str base = itoa fuel m (u32 value) str base

ulltoa : ℕ → Bytes → ℕ → ℕ → ℕ → Option Bytes
ulltoa fuel m value str base = utoa fuel m (u32 value) str base

pub skip_blanks : ℕ → Bytes → ℕ → Option ℕ
skip_blanks zero m str = none
skip_blanks (suc fuel) m str =
    let rest = skip_blanks fuel m (str + 1) in
    if (m str == 32) || (m str == 9) || (m str == 10) then rest else some str

-- The loop over the digits.
pub read_digits : ℕ → Bytes → ℕ → ℕ → Option ℕ
read_digits zero m str result = none
read_digits (suc fuel) m str result =
    let rest = read_digits fuel m (str + 1) (u32 (result * 10 + (m str - b'0'))) in
    if leb b'0' (m str) && leb (m str) b'9' then rest else some result

pub atoi : ℕ → Bytes → ℕ → Option ℕ
atoi fuel m str = elim (skip_blanks fuel m str) [
  | none ↦ none
  | some p ↦
      let digits = read_digits fuel m p 0 in
      let after_sign = read_digits fuel m (p + 1) 0 in
      if m p == b'-'
      then elim after_sign [ none ↦ none | some result ↦ some (u32 (2 ^ 32 - result)) ]
      else if m p == b'+'
      then after_sign
      else digits
]

-- The sign is extended to 64 bits.
atoll : ℕ → Bytes → ℕ → Option ℕ
atoll fuel m str = elim (atoi fuel m str) [
  | none ↦ none
  | some r ↦ some (if leb (2 ^ 31) r then r + (2 ^ 64 - 2 ^ 32) else r)
]

-- `long` has 64 bits, too.
atol : ℕ → Bytes → ℕ → Option ℕ
atol = atoll
