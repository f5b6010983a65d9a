-- ===== src/Strings.antt =====
-- kernel/string.c: blocks of memory and null-terminated strings. Memory is a function from addresses
-- to bytes, a pointer is an address, and a null pointer that is returned is `none`. A loop with a
-- count recurs on it; a loop up to a null byte takes fuel, and gives `none` where that runs out.
pub mod Blocks
pub mod Ends
pub mod Copies
pub mod Order
pub mod Numbers
mod Examples
use blue_star_os.Base.{
  ℕ, zero, suc, ◌+◌, ◌-◌, ◌^◌, Bool, true, false, ◌&&◌, ◌||◌, not, Option, none, some, ◌==◌,
  if◌then◌else◌, u8, ltb, sub64, Bytes, store, fill, ℤ, pos, negsuc, difference,
}

pub memset : Bytes → ℕ → ℕ → ℕ → Bytes
memset m p ch zero = m
memset m p ch (suc count) = memset (store m p (u8 ch)) (p + 1) ch count

-- The bytes are copied one after the other, from the first one on.
pub memcpy : Bytes → ℕ → ℕ → ℕ → Bytes
memcpy m d s zero = m
memcpy m d s (suc count) = memcpy (store m d (m s)) (d + 1) (s + 1) count

pub memcmp : Bytes → ℕ → ℕ → ℕ → ℤ
memcmp m p1 p2 zero = pos 0
memcmp m p1 p2 (suc count) =
    let rest = memcmp m (p1 + 1) (p2 + 1) count in
    if not (m p1 == m p2) then difference (m p1) (m p2) else rest

-- The loop of `strlen`, `len` bytes on.
strlen_from : ℕ → Bytes → ℕ → ℕ → Option ℕ
strlen_from zero m str len = none
strlen_from (suc fuel) m str len =
    let rest = strlen_from fuel m str (len + 1) in if m (str + len) == 0 then some len else rest

pub strlen : ℕ → Bytes → ℕ → Option ℕ
strlen fuel m str = strlen_from fuel m str 0

pub strcpy : ℕ → Bytes → ℕ → ℕ → Option Bytes
strcpy zero m d s = none
strcpy (suc fuel) m d s =
    let copied = store m d (m s) in
    let rest = strcpy fuel copied (d + 1) (s + 1) in if m s == 0 then some copied else rest

-- The first loop of `strncpy`: memory, where `d` stands, and what `n` holds. At the end of the count
-- `n--` has taken `n` from 0 to the largest value of its type.
pub copy_counted : Bytes → ℕ → ℕ → ℕ → Bytes × ℕ × ℕ
copy_counted m d s zero = (m, d, 2 ^ 64 - 1)
copy_counted m d s (suc n) =
    let copied = store m d (m s) in
    let rest = copy_counted copied (d + 1) (s + 1) n in
    if m s == 0 then (copied, d + 1, n) else rest

-- The second loop writes `n` null bytes; the pointer wraps around at the end of memory.
unfoldable pub pad : Bytes → ℕ → ℕ → Bytes
pad m d n x = if ltb x (2 ^ 64) && ltb (sub64 x d) n then 0 else m x

pub strncpy : Bytes → ℕ → ℕ → ℕ → Bytes
strncpy m dest src n = let (copied, d, left) = copy_counted m dest src n in pad copied d left

-- Where the string at `d` ends.
pub end_of : ℕ → Bytes → ℕ → Option ℕ
end_of zero m d = none
end_of (suc fuel) m d = let rest = end_of fuel m (d + 1) in if m d == 0 then some d else rest

pub strcat : ℕ → Bytes → ℕ → ℕ → Option Bytes
strcat fuel m dest src = elim (end_of fuel m dest) [ none ↦ none | some d ↦ strcpy fuel m d src ]

-- A null byte is written behind the last byte copied, also where that is the null of `src`.
strncat : ℕ → Bytes → ℕ → ℕ → ℕ → Option Bytes
strncat fuel m dest src n = elim (end_of fuel m dest) [
  | none ↦ none
  | some end ↦ let (copied, d, left) = copy_counted m end src n in some (store copied d 0)
]

pub strcmp : ℕ → Bytes → ℕ → ℕ → Option ℤ
strcmp zero m str1 str2 = none
strcmp (suc fuel) m str1 str2 =
    let rest = strcmp fuel m (str1 + 1) (str2 + 1) in
    if not (m str1 == 0) && (m str1 == m str2) then rest else some (difference (m str1) (m str2))

-- The loop that uses up the count returns 0.
pub strncmp : Bytes → ℕ → ℕ → ℕ → ℤ
strncmp m str1 str2 zero = pos 0
strncmp m str1 str2 (suc n) =
    let rest = strncmp m (str1 + 1) (str2 + 1) n in
    if not (m str1 == 0) && (m str1 == m str2) then rest else difference (m str1) (m str2)

-- The outer `none` is the lack of fuel.
pub strchr : ℕ → Bytes → ℕ → ℕ → Option (Option ℕ)
strchr zero m str ch = none
strchr (suc fuel) m str ch =
    let rest = strchr fuel m (str + 1) ch in
    if m str == 0 then some none else if m str == u8 ch then some (some str) else rest

-- The loop of `strrchr`, with the last place found.
last_from : ℕ → Bytes → ℕ → ℕ → Option ℕ → Option (Option ℕ)
last_from zero m str ch last = none
last_from (suc fuel) m str ch last =
    let rest = last_from fuel m (str + 1) ch (if m str == u8 ch then some str else last) in
    if m str == 0 then some last else rest

strrchr : ℕ → Bytes → ℕ → ℕ → Option (Option ℕ)
strrchr fuel m str ch = last_from fuel m str ch none
