-- ===== src/Text/Decode.antt =====
-- The strings of kernel/text.c as the code points that they stand for.
use blue_star_os.Base.{
  ℕ, ◌+◌, ◌*◌, ◌/◌, ◌%◌, ◌^◌, ◌≤◌, ◌<◌, ◌≡◌, refl, ap, ◌∙◌, true, false, Option, none, some, List,
  [], ◌∷◌, ◌++◌, arith, ◌==◌, ltb, Bool-cases, inl, inr, utf8_of,
}
use blue_star_os.Text.{utf8_to_unicode}

abbrev pub decode : List ℕ → Option (ℕ × List ℕ)
decode [] = none
decode (c ∷ cs) = utf8_to_unicode c cs

two_bytes :
    (a b : ℕ) (rest : List ℕ)
    → 0xC0 ≤ a
    → a < 0xE0
    → utf8_to_unicode a (b ∷ rest) ≡ some (a % 2 ^ 5 * 2 ^ 6 + b % 2 ^ 6, rest)
unfolding utf8_to_unicode
two_bytes a b rest low high =
    let wide : ltb a 0x80 ≡ false = ground arith in
    let head : (a / 2 ^ 5 == 6) ≡ true = ground arith in rw (wide, head) refl

three_bytes :
    (a b d : ℕ) (rest : List ℕ)
    → 0xE0 ≤ a
    → a < 0xF0
    → utf8_to_unicode a (b ∷ d ∷ rest)
      ≡ some (a % 2 ^ 4 * 2 ^ 12 + b % 2 ^ 6 * 2 ^ 6 + d % 2 ^ 6, rest)
unfolding utf8_to_unicode
three_bytes a b d rest low high =
    let wide : ltb a 0x80 ≡ false = ground arith in
    let wider : (a / 2 ^ 5 == 6) ≡ false = ground arith in
    let head : (a / 2 ^ 4 == 14) ≡ true = ground arith in rw (wide, wider, head) refl

-- A code point below 2 ^ 16 that is encoded in UTF-8 and decoded by utf8_to_unicode is the same
-- code point, and the text behind it is left.
pub decode-utf8_of :
    (c : ℕ) (rest : List ℕ) → c < 2 ^ 16 → decode (utf8_of c ++ rest) ≡ some (c, rest)
unfolding utf8_to_unicode
decode-utf8_of c rest small = elim (Bool-cases (ltb c 0x80)) [
  | inl one ↦ rw (one, one) refl
  | inr more ↦ elim (Bool-cases (ltb c 0x800)) [
    | inl two ↦
        rw (more, two)
          (two_bytes (0xC0 + c / 2 ^ 6) (0x80 + c % 2 ^ 6) rest (omega arith) (ground arith)
            ∙ ap (λ d. some (d, rest)) (ground arith))
    | inr three ↦
        rw (more, three)
          (three_bytes (0xE0 + c / 2 ^ 12) (0x80 + c / 2 ^ 6 % 2 ^ 6) (0x80 + c % 2 ^ 6) rest
              (omega arith) (omega arith)
            ∙ ap (λ d. some (d, rest)) (omega arith))
  ]
]
