-- ===== src/Shell/Texts.antt =====
-- Strings in the arrays of kernel/shell.c.
use blue_star_os.Base.{
  ℕ, zero, suc, ◌+◌, ◌≤◌, ◌<◌, ◌≡◌, ◌≢◌, refl, ap, ◌∙◌, inl, inr, Bool, true, false, List, [], ◌∷◌,
  length, arith, ◌==◌, Bool-cases, Bytes, store, store_at, store_ne, text_in, write_text, ◌&&◌, not,
}

-- A string holds no null byte.
abbrev pub IsText : List ℕ → Type 0
IsText [] = Unit
IsText (c ∷ cs) = (c ≢ 0) × IsText cs

pub text_in-IsText : (n : ℕ) (m : Bytes) (at : ℕ) → IsText (text_in n m at)
unfolding text_in
text_in-IsText zero m at = tt
text_in-IsText (suc n) m at = elim (Bool-cases (m at == 0)) [
  | inl e ↦ rw e tt
  | inr e ↦ rw e (ground arith, text_in-IsText n m (at + 1))
]

pub text_in-short : (n : ℕ) (m : Bytes) (at k : ℕ) → m (at + k) ≡ 0 → length (text_in n m at) ≤ k
unfolding text_in
text_in-short zero m at k h = omega arith
text_in-short (suc n) m at zero h = ground arith
text_in-short (suc n) m at (suc k) h =
    let later = text_in-short n m (at + 1) k (ap m (omega arith) ∙ h) in
    elim (Bool-cases (m at == 0)) [
      | inl e ↦ rw e (omega arith)
      | inr e ↦ rw e (omega (arith, later))
    ]

pub write_text_below : (cs : List ℕ) (m : Bytes) (at x : ℕ) → x < at → write_text cs m at x ≡ m x
unfolding write_text
write_text_below [] m at x h = store_ne m at 0 x (omega arith)
write_text_below (c ∷ cs) m at x h =
    write_text_below cs (store m at c) (at + 1) x (omega arith) ∙ store_ne m at c x (omega arith)

-- What is written is read back.
pub text_in-write_text :
    (n : ℕ) (cs : List ℕ) (m : Bytes) (at : ℕ)
    → IsText cs
    → length cs < n
    → text_in n (write_text cs m at) at ≡ cs
unfolding text_in write_text
text_in-write_text zero cs m at t h = absurd (omega arith)
text_in-write_text (suc n) [] m at t h = rw (store_at m at 0) refl
text_in-write_text (suc n) (c ∷ cs) m at t h =
    let here : write_text cs (store m at c) (at + 1) at ≡ c =
      write_text_below cs (store m at c) (at + 1) at (omega arith) ∙ store_at m at c in
    let present : (c == 0) ≡ false = ground (arith, t.0) in
    let later = text_in-write_text n cs (store m at c) (at + 1) t.1 (omega arith) in
    rw (here, present, later) refl

abbrev pub no_null : List ℕ → Bool
no_null [] = true
no_null (c ∷ cs) = not (c == 0) && no_null cs

pub no_null-IsText : (cs : List ℕ) → no_null cs ≡ true → IsText cs
no_null-IsText [] h = tt
no_null-IsText (c ∷ cs) h = (ground arith, no_null-IsText cs (ground arith))
