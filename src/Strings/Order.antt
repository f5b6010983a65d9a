-- ===== src/Strings/Order.antt =====
-- `strcmp` and `strncmp` of kernel/string.c.
use blue_star_os.Base.{
  ℕ, zero, suc, ◌+◌, ◌<◌, ◌≡◌, refl, sym, ap, ◌∙◌, ◌↔◌, true, false, ◌&&◌, not, some, arith, ◌==◌,
  if◌then◌else◌, Bytes, List, [], ◌∷◌, length, ℤ, pos, difference, difference_zero, take,
}
use native.Mathlib.Decide.{ℕ_discrete}
use blue_star_os.Strings.{strcmp, strncmp}
use blue_star_os.Strings.Ends.{IsString, ends, next}

-- The difference of the first bytes at which two strings differ, their null bytes included; 0 for
-- equal strings.
pub order : List ℕ → List ℕ → ℤ
order [] [] = pos 0
order [] (d ∷ ds) = difference 0 d
order (c ∷ cs) [] = difference c 0
order (c ∷ cs) (d ∷ ds) = if c == d then order cs ds else difference c d

-- With fuel above the length of the first string, `strcmp` returns the order of the two strings.
strcmp-order :
    (fuel p q : ℕ) (m : Bytes) (cs ds : List ℕ)
    → IsString m p cs
    → IsString m q ds
    → length cs < fuel
    → strcmp fuel m p q ≡ some (order cs ds)
unfolding strcmp order
strcmp-order zero p q m cs ds a b enough = absurd (omega arith)
strcmp-order (suc fuel) p q m [] [] (ends e) (ends e') enough =
    let stop : (not (m p == 0) && (m p == m q)) ≡ false = ground arith in rw (stop, e, e') refl
strcmp-order (suc fuel) p q m [] (d ∷ ds) (ends e) (next ne str) enough =
    let stop : (not (m p == 0) && (m p == m q)) ≡ false = ground arith in rw (stop, e) refl
strcmp-order (suc fuel) p q m (c ∷ cs) [] (next ne str) (ends e) enough =
    let stop : (not (m p == 0) && (m p == m q)) ≡ false = ground arith in rw (stop, e) refl
strcmp-order (suc fuel) p q m (c ∷ cs) (d ∷ ds) (next ne str) (next ne' str') enough =
    elim (ℕ_discrete (m p) (m q)) [
      | yes same ↦
          let on : (not (m p == 0) && (m p == m q)) ≡ true = ground arith in
          let equal : (m p == m q) ≡ true = ground arith in
          rw (on, equal) (strcmp-order fuel (p + 1) (q + 1) m cs ds str str' (omega arith))
      | no differ ↦
          let off : (not (m p == 0) && (m p == m q)) ≡ false = ground arith in
          let unequal : (m p == m q) ≡ false = ground arith in rw (off, unequal) refl
    ]

-- `strncmp` returns the order of the first `n` bytes of the two strings.
pub strncmp-order :
    (n p q : ℕ) (m : Bytes) (cs ds : List ℕ)
    → IsString m p cs
    → IsString m q ds
    → strncmp m p q n ≡ order (take n cs) (take n ds)
unfolding strncmp order
strncmp-order zero p q m cs ds a b = refl
strncmp-order (suc n) p q m [] [] (ends e) (ends e') =
    let stop : (not (m p == 0) && (m p == m q)) ≡ false = ground arith in rw (stop, e, e') refl
strncmp-order (suc n) p q m [] (d ∷ ds) (ends e) (next ne str) =
    let stop : (not (m p == 0) && (m p == m q)) ≡ false = ground arith in rw (stop, e) refl
strncmp-order (suc n) p q m (c ∷ cs) [] (next ne str) (ends e) =
    let stop : (not (m p == 0) && (m p == m q)) ≡ false = ground arith in rw (stop, e) refl
strncmp-order (suc n) p q m (c ∷ cs) (d ∷ ds) (next ne str) (next ne' str') =
    elim (ℕ_discrete (m p) (m q)) [
      | yes same ↦
          let on : (not (m p == 0) && (m p == m q)) ≡ true = ground arith in
          let equal : (m p == m q) ≡ true = ground arith in
          rw (on, equal) (strncmp-order n (p + 1) (q + 1) m cs ds str str')
      | no differ ↦
          let off : (not (m p == 0) && (m p == m q)) ≡ false = ground arith in
          let unequal : (m p == m q) ≡ false = ground arith in rw (off, unequal) refl
    ]

order_same : (cs : List ℕ) → order cs cs ≡ pos 0
unfolding order
order_same [] = refl
order_same (c ∷ cs) = let equal : (c == c) ≡ true = ground arith in rw equal (order_same cs)

order_zero :
    {m : Bytes} {p q : ℕ} {cs ds : List ℕ}
    → IsString m p cs
    → IsString m q ds
    → order cs ds ≡ pos 0
    → cs ≡ ds
unfolding order
order_zero (ends e) (ends e') z = refl
order_zero {m} {q = q} (ends e) (next ne str) z = absurd (ne (sym (difference_zero 0 (m q) z)))
order_zero {m} {p} (next ne str) (ends e) z = absurd (ne (difference_zero (m p) 0 z))
order_zero {m} {p} {q} (next {cs = cs} ne str) (next {cs = ds} ne' str') z =
    elim (ℕ_discrete (m p) (m q)) [
      | yes same ↦
          let equal : (m p == m q) ≡ true = ground arith in
          ap (λ c. c ∷ cs) same ∙ ap (λ rest. m q ∷ rest) (order_zero str str' (rw equal at z))
      | no differ ↦
          let unequal : (m p == m q) ≡ false = ground arith in
          absurd (differ (difference_zero (m p) (m q) (rw unequal at z)))
    ]

-- With fuel above the length of the first string, strcmp of two strings returns, and returns 0
-- exactly where they are equal.
pub strcmp_iff :
    (fuel p q : ℕ) (m : Bytes) (cs ds : List ℕ)
    → IsString m p cs
    → IsString m q ds
    → length cs < fuel
    → (r : ℤ) × (strcmp fuel m p q ≡ some r) × ((r ≡ pos 0) ↔ (cs ≡ ds))
strcmp_iff fuel p q m cs ds a b enough = (
  order cs ds,
  strcmp-order fuel p q m cs ds a b enough,
  (order_zero a b, λ e. ap (order cs) (sym e) ∙ order_same cs),
)
