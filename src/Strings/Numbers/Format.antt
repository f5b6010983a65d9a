-- ===== src/Strings/Numbers/Format.antt =====
-- `sprintf` of kernel/string.c. The arguments are a list of 64-bit values, of which an `int` is the
-- low word; the local array is a place in memory, `buffer`. `none`: fuel or arguments run out.
use blue_star_os.Base.{
  ℕ, zero, suc, ◌||◌, ◌+◌, ◌-◌, Option, none, some, ◌==◌, if◌then◌else◌, u8, u32, Bytes, store,
  List, [], ◌∷◌,
}
use blue_star_os.Strings.Numbers.{itoa, utoa}

-- `while (*b) *p++ = *b++`: memory and where `p` stands.
put_text : ℕ → Bytes → ℕ → ℕ → Option (Bytes × ℕ)
put_text zero m p b = none
put_text (suc fuel) m p b =
    let rest = put_text fuel (store m p (m b)) (p + 1) (b + 1) in
    if m b == 0 then some (m, p) else rest

-- A number converted into the local array, and copied from there.
put_number : ℕ → Option Bytes → ℕ → ℕ → Option (Bytes × ℕ)
put_number fuel converted p buffer = elim converted [
  | none ↦ none
  | some m ↦ put_text fuel m p buffer
]

with_rest : List ℕ → Option (Bytes × ℕ) → Option (Bytes × ℕ × List ℕ)
with_rest args written = elim written [ none ↦ none | some (m, p) ↦ some (m, p, args) ]

-- A conversion that takes an argument.
conversion : ℕ → Bytes → ℕ → ℕ → ℕ → List ℕ → Option (Bytes × ℕ × List ℕ)
conversion fuel m p buffer c [] = none
conversion fuel m p buffer c (value ∷ args) = with_rest args (
    if c == b'd'
    then put_number fuel (itoa fuel m (u32 value) buffer 10) p buffer
    else if c == b'u'
    then put_number fuel (utoa fuel m (u32 value) buffer 10) p buffer
    else if c == b'x'
    then put_number fuel (utoa fuel m (u32 value) buffer 16) p buffer
    else if c == b's'
    then put_text fuel m p value
    else some (store m p (u8 value), p + 1))

-- The `switch` at the character that `f` points to.
directive : ℕ → Bytes → ℕ → ℕ → ℕ → List ℕ → Option (Bytes × ℕ × List ℕ)
directive fuel m p f buffer args =
    let c = m f in
    let percent = store m p b'%' in
    if (c == b'd') || (c == b'u') || (c == b'x') || (c == b's') || (c == b'c')
    then conversion fuel m p buffer c args
    else if c == b'%'
    then some (percent, p + 1, args)
    else some (store percent (p + 1) (percent f), p + 2, args)

-- A `%` at the end of the format makes the loop go on behind its null byte.
format_from : ℕ → Bytes → ℕ → ℕ → ℕ → List ℕ → Option (Bytes × ℕ)
format_from zero m p f buffer args = none
format_from (suc fuel) m p f buffer args =
    let plain = format_from fuel (store m p (m f)) (p + 1) (f + 1) buffer args in
    let converted : Option (Bytes × ℕ) = elim (directive fuel m p (f + 1) buffer args) [
      | none ↦ none
      | some (m', p', rest) ↦ format_from fuel m' p' (f + 2) buffer rest
    ] in
    if m f == 0 then some (store m p 0, p) else if m f == b'%' then converted else plain

-- Memory, and the number of characters written.
sprintf : ℕ → Bytes → ℕ → ℕ → ℕ → List ℕ → Option (Bytes × ℕ)
sprintf fuel m str format buffer args = elim (format_from fuel m str format buffer args) [
  | none ↦ none
  | some (m', p) ↦ some (m', p - str)
]
