-- ===== src/Strings/Numbers/Digits.antt =====
-- The digits that `utoa` of kernel/string.c writes, and that `atoi` reads them back.
use blue_star_os.Base.{
  ℕ, zero, suc, ◌+◌, ◌-◌, ◌*◌, ◌/◌, ◌%◌, ◌^◌, ◌≤◌, ◌<◌, ◌≡◌, refl, sym, ap, ◌∙◌, ◌≢◌, ◌⊎◌, inl, inr,
  true, false, ◌&&◌, ◌||◌, some, arith, ltb, leb, ◌==◌, if◌then◌else◌, u32, Bytes, store, store_at,
  store_ne,
}
use native.Mathlib.Decide.{ℕ_discrete, dec_lt}
use blue_star_os.Strings.Numbers.{
  reverse_from, reverse_string, digit_char, put_digits, utoa, skip_blanks, read_digits, atoi,
}

-- A number without its last `k` decimal digits.
pub shifted : ℕ → ℕ → ℕ
shifted v zero = v
shifted v (suc k) = shifted v k / 10

shifted_first : (v k : ℕ) → shifted (v / 10) k ≡ shifted v (suc k)
unfolding shifted
shifted_first v zero = refl
shifted_first v (suc k) = ap (λ x. x / 10) (shifted_first v k)

-- The bytes from `start` to `end`, in the reverse order.
reverse_from_lem :
    (rounds start end x : ℕ) (m : Bytes)
    → end < start + 2 * rounds
    → reverse_from rounds m start end x
      ≡ (if leb start x && leb x end then m (start + end - x) else m x)
unfolding reverse_from store
reverse_from_lem zero start end x m enough = ground arith
reverse_from_lem (suc rounds) start end x m enough = elim (dec_lt start end) [
  | yes more ↦
      let go : ltb start end ≡ true = ground arith in
      let rest =
        reverse_from_lem rounds (start + 1) (end - 1) x
          (store (store m start (m end)) end (m start)) (omega arith) in
      rw go (ground (arith, rest))
  | no met ↦ let stop : ltb start end ≡ false = ground arith in rw stop (ground arith)
]

reverse_in :
    (m : Bytes) (str n i : ℕ) → i < n → reverse_string m str n (str + i) ≡ m (str + (n - 1 - i))
unfolding reverse_string
reverse_in m str n i h =
    let inside : (leb str (str + i) && leb (str + i) (str + n - 1)) ≡ true = ground arith in
    reverse_from_lem n str (str + n - 1) (str + i) m (omega arith) ∙ rw inside (ap m (omega arith))

reverse_out :
    (m : Bytes) (str n x : ℕ) → 1 ≤ n → (x < str) ⊎ (str + n ≤ x) → reverse_string m str n x ≡ m x
unfolding reverse_string
reverse_out m str n x some_byte h =
    let outside : (leb str x && leb x (str + n - 1)) ≡ false = ground arith in
    reverse_from_lem n str (str + n - 1) x m (omega arith) ∙ rw outside refl

-- What the loop over the digits has written: from `ptr` on, the `n` decimal digits of the value,
-- the lowest first.
record Digits (m : Bytes) (ptr value n : ℕ) (m' : Bytes) : Type 0 where
  digits : (k : ℕ) → k < n → m' (ptr + k) ≡ shifted value k % 10 + b'0'
  nothing_left : shifted value n ≡ 0
  some_left : value ≢ 0 → 1 ≤ n
  outside : (x : ℕ) → (x < ptr) ⊎ (ptr + n ≤ x) → m' x ≡ m x

later_bytes :
    (m m' : Bytes) (ptr value n : ℕ)
    → Digits (store m ptr (digit_char false (value % 10))) (ptr + 1) (value / 10) n m'
    → (k : ℕ) → k < suc n
    → m' (ptr + k) ≡ shifted value k % 10 + b'0'
unfolding digit_char shifted store
later_bytes m m' ptr value n d zero h =
    ap m' (omega arith) ∙ d.outside ptr (inl (omega arith)) ∙ ground arith
later_bytes m m' ptr value n d (suc k) h =
    ap m' (omega arith) ∙ d.digits k (omega arith) ∙ ap (λ v. v % 10 + b'0') (shifted_first value k)

put_digits-Digits :
    (fuel : ℕ) (m : Bytes) (ptr value : ℕ)
    → value < 2 ^ fuel
    → (n : ℕ) × (m' : Bytes) × (put_digits fuel false m ptr value 10 ≡ some (m', ptr + n))
      × (n ≤ fuel)
      × Digits m ptr value n m'
unfolding put_digits digit_char shifted store
put_digits-Digits zero m ptr value small =
    let done : (value == 0) ≡ true = ground arith in
    (
      0,
      m,
      rw done (ap (λ (p : ℕ). some (m, p)) (omega arith)),
      omega arith,
      record {
        digits = λ k h. absurd (omega arith);
        nothing_left = omega arith;
        some_left = λ ne. absurd (omega arith);
        outside = λ x h. refl;
      },
    )
put_digits-Digits (suc fuel) m ptr value small = elim (ℕ_discrete value 0) [
  | yes none_left ↦
      let done : (value == 0) ≡ true = ground arith in
      (
        0,
        m,
        rw done (ap (λ (p : ℕ). some (m, p)) (omega arith)),
        omega arith,
        record {
          digits = λ k h. absurd (omega arith);
          nothing_left = none_left;
          some_left = λ ne. absurd (ne none_left);
          outside = λ x h. refl;
        },
      )
  | no more ↦
      let go : (value == 0) ≡ false = ground arith in
      let put = store m ptr (digit_char false (value % 10)) in
      let (n, m', rest, bound, d) =
        put_digits-Digits fuel put (ptr + 1) (value / 10) (omega arith) in
      (
        suc n,
        m',
        rw go (rest ∙ ap (λ (p : ℕ). some (m', p)) (omega arith)),
        omega arith,
        record {
          digits = later_bytes m m' ptr value n d;
          nothing_left = sym (shifted_first value n) ∙ d.nothing_left;
          some_left = λ ne. omega arith;
          outside = λ x h. d.outside x (ground arith) ∙ ground arith;
        },
      )
]

-- A value below 2 ^ 32 in memory as its `n` decimal digits, the highest first, and a null byte.
pub record IsNumber (m : Bytes) (str value n : ℕ) : Type 0 where
  pub written : (i : ℕ) → i < n → m (str + i) ≡ shifted value (n - 1 - i) % 10 + b'0'
  pub whole : shifted value n ≡ 0
  pub not_empty : 1 ≤ n
  pub ended : m (str + n) ≡ 0

zero_written :
    (m : Bytes) (str value : ℕ)
    → value ≡ 0
    → (i : ℕ) → i < 1
    → store (store m str b'0') (str + 1) 0 (str + i) ≡ shifted value (1 - 1 - i) % 10 + b'0'
unfolding shifted store
zero_written m str value z zero h = ground arith
zero_written m str value z (suc i) h = absurd (omega arith)

-- With fuel for the value, `utoa` in base 10 succeeds, the number stands at `str`, and no byte
-- outside it changes.
utoa-IsNumber :
    (fuel : ℕ) (m : Bytes) (value str : ℕ)
    → value < 2 ^ fuel
    → (n : ℕ) × (m' : Bytes) × (utoa fuel m value str 10 ≡ some m')
      × IsNumber m' str value n
      × (n ≤ fuel + 1)
      × ((x : ℕ) → (x < str) ⊎ (str + n < x) → m' x ≡ m x)
unfolding utoa shifted
utoa-IsNumber fuel m value str small = elim (ℕ_discrete value 0) [
  | yes zero_value ↦
      let done : (value == 0) ≡ true = ground arith in
      (
        1,
        store (store m str b'0') (str + 1) 0,
        rw done refl,
        record {
          written = zero_written m str value zero_value;
          whole = omega arith;
          not_empty = omega arith;
          ended = store_at (store m str b'0') (str + 1) 0;
        },
        omega arith,
        λ x h.
            store_ne (store m str b'0') (str + 1) 0 x (ground arith)
            ∙ store_ne m str b'0' x (ground arith),
      )
  | no more ↦
      let go : (value == 0) ≡ false = ground arith in
      let (n, put, e, bound, d) = put_digits-Digits fuel m str value small in
      let full = store put (str + n) 0 in
      let length : str + n - str ≡ n = omega arith in
      let some_digit = d.some_left more in
      (
        n,
        reverse_string full str n,
        rw (go, e, length) refl,
        record {
          written = λ i h.
              reverse_in full str n i h
              ∙ store_ne put (str + n) 0 (str + (n - 1 - i)) (omega arith)
              ∙ d.digits (n - 1 - i) (omega arith);
          whole = d.nothing_left;
          not_empty = some_digit;
          ended =
              reverse_out full str n (str + n) some_digit (inr (omega arith))
              ∙ store_at put (str + n) 0;
        },
        omega arith,
        λ x h.
            reverse_out full str n x some_digit (ground arith)
            ∙ store_ne put (str + n) 0 x (ground arith)
            ∙ d.outside x (ground arith),
      )
]

shifted-le : (v k : ℕ) → shifted v k ≤ v
unfolding shifted
shifted-le v zero = omega arith
shifted-le v (suc k) = omega (arith, shifted-le v k)

-- The loop of `atoi` from digit `n - j` on, with `j` digits to go.
read_digits-IsNumber :
    (j fuel : ℕ) (m : Bytes) (str value n : ℕ)
    → IsNumber m str value n
    → value < 2 ^ 32
    → j ≤ n
    → j < fuel
    → read_digits fuel m (str + (n - j)) (shifted value j) ≡ some value
unfolding read_digits shifted
read_digits-IsNumber j zero m str value n number small inside enough = absurd (omega arith)
read_digits-IsNumber zero (suc fuel) m str value n number small inside enough =
    let byte : m (str + (n - 0)) ≡ 0 = ap m (omega arith) ∙ number.ended in
    let stop : (leb b'0' (m (str + (n - 0))) && leb (m (str + (n - 0))) b'9') ≡ false =
      ground arith in
    rw stop refl
read_digits-IsNumber (suc j) (suc fuel) m str value n number small inside enough =
    let byte : m (str + (n - suc j)) ≡ shifted value j % 10 + b'0' =
      number.written (n - suc j) (omega arith)
      ∙ ap (λ k. shifted value k % 10 + b'0') {x = n - 1 - (n - suc j)} (omega arith) in
    let go : (leb b'0' (m (str + (n - suc j))) && leb (m (str + (n - suc j))) b'9') ≡ true =
      ground arith in
    let place : str + (n - suc j) + 1 ≡ str + (n - j) = omega arith in
    let sum : u32 (shifted value j / 10 * 10 + (m (str + (n - suc j)) - b'0')) ≡ shifted value j =
      omega (arith, shifted-le value j) in
    rw (go, sum, place)
      (read_digits-IsNumber j fuel m str value n number small (omega arith) (omega arith))

skip_blanks-IsNumber :
    (fuel : ℕ) (m : Bytes) (str value n : ℕ)
    → IsNumber m str value n
    → 0 < fuel
    → (skip_blanks fuel m str ≡ some str) × (b'0' ≤ m str)
unfolding skip_blanks
skip_blanks-IsNumber zero m str value n number some_fuel = absurd (omega arith)
skip_blanks-IsNumber (suc fuel) m str value n number some_fuel =
    let first : m str ≡ shifted value (n - 1 - 0) % 10 + b'0' =
      ap m (omega arith) ∙ number.written 0 (omega (arith, number.not_empty)) in
    let dark : ((m str == 32) || (m str == 9) || (m str == 10)) ≡ false = ground arith in
    (rw dark refl, omega arith)

-- With fuel above the digits `atoi` reads back a number below 2 ^ 32.
atoi-IsNumber :
    (fuel : ℕ) (m : Bytes) (str value n : ℕ)
    → IsNumber m str value n
    → value < 2 ^ 32
    → n < fuel
    → atoi fuel m str ≡ some value
unfolding atoi
atoi-IsNumber fuel m str value n number small enough =
    let (blanks, digit) = skip_blanks-IsNumber fuel m str value n number (omega arith) in
    let no_minus : (m str == b'-') ≡ false = ground arith in
    let no_plus : (m str == b'+') ≡ false = ground arith in
    let start : str + (n - n) ≡ str = omega arith in
    let read = read_digits-IsNumber n fuel m str value n number small (omega arith) enough in
    rw (blanks, no_minus, no_plus, atoi) (rw (start, number.whole) at read)

-- What utoa writes in base 10 for a 32-bit word atoi reads back as the same word: 32 rounds are
-- enough to write it, and 35 to read it.
pub atoi-utoa :
    (fuel : ℕ) (m : Bytes) (value str : ℕ)
    → value < 2 ^ 32
    → 35 ≤ fuel
    → (m' : Bytes) × (utoa 32 m value str 10 ≡ some m') × (atoi fuel m' str ≡ some value)
atoi-utoa fuel m value str small enough =
    let (n, m', done, number, bound, _) = utoa-IsNumber 32 m value str small in
    (m', done, atoi-IsNumber fuel m' str value n number small (omega arith))
