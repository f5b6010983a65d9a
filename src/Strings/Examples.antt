-- ===== src/Strings/Examples.antt =====
-- The functions of kernel/string.c on two short strings in memory: the theorems there.
use blue_star_os.Base.{
  ℕ, ◌^◌, ◌≤◌, ◌<◌, ◌≡◌, ◌≢◌, ◌⊎◌, ◌↔◌, ℤ, pos, refl, inr, some, arith, Bytes, store, List, [], ◌∷◌,
}
use blue_star_os.Strings.{strcpy, strncpy, strcmp}
use blue_star_os.Strings.Ends.{IsString, ends, next}
use blue_star_os.Strings.Copies.{strcpy-IsString, strncpy_short, strncpy_overrun}
use blue_star_os.Strings.Order.{strcmp_iff}
use blue_star_os.Strings.Numbers.{utoa, atoi}
use blue_star_os.Strings.Numbers.Digits.{atoi-utoa}

-- `ab` at 100 and `ac` at 200.
abbrev memory : Bytes
memory = store (store (store (store (λ _. 0) 100 b'a') 101 b'b') 200 b'a') 201 b'c'

abbrev ab : List ℕ
ab = b'a' ∷ b'b' ∷ []

abbrev ac : List ℕ
ac = b'a' ∷ b'c' ∷ []

ab-IsString : IsString memory 100 ab
unfolding store
ab-IsString = next (omega arith) (next (omega arith) (ends refl))

ac-IsString : IsString memory 200 ac
unfolding store
ac-IsString = next (omega arith) (next (omega arith) (ends refl))

strncpy_overrun_example :
    (strncpy memory 300 100 2 301 ≡ memory 101)
    × ((x : ℕ) → x < 2 ^ 64 → x ≢ 301 → strncpy memory 300 100 2 x ≡ 0)
strncpy_overrun_example =
    strncpy_overrun 1 300 100 memory ab ab-IsString (omega arith) (omega arith) (inr (omega arith))

strncpy_short_example :
    IsString (strncpy memory 300 100 5) 300 ab
    × ((x : ℕ) → 302 ≤ x → x < 305 → strncpy memory 300 100 5 x ≡ 0)
    × ((x : ℕ) → (x < 300) ⊎ (305 ≤ x) → strncpy memory 300 100 5 x ≡ memory x)
strncpy_short_example =
    strncpy_short 5 300 100 memory ab ab-IsString (omega arith) (omega arith) (inr (omega arith))

atoi-utoa_example :
    (m' : Bytes) × (utoa 32 memory 4096 300 10 ≡ some m') × (atoi 35 m' 300 ≡ some 4096)
atoi-utoa_example = atoi-utoa 35 memory 4096 300 (omega arith) (omega arith)

strcpy-IsString_example :
    (m' : Bytes) × (strcpy 3 memory 300 100 ≡ some m')
    × IsString m' 300 ab
    × IsString m' 100 ab
    × ((x : ℕ) → (x < 300) ⊎ (302 < x) → m' x ≡ memory x)
strcpy-IsString_example =
    strcpy-IsString 3 300 100 memory ab ab-IsString (omega arith) (inr (omega arith))

strcmp_iff_example : (r : ℤ) × (strcmp 3 memory 100 200 ≡ some r) × ((r ≡ pos 0) ↔ (ab ≡ ac))
strcmp_iff_example = strcmp_iff 3 100 200 memory ab ac ab-IsString ac-IsString (omega arith)
