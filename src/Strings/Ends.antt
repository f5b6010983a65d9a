-- ===== src/Strings/Ends.antt =====
-- Strings in memory, and what `strlen`, `strchr` and `strrchr` of kernel/string.c find in them.
use blue_star_os.Base.{
  ℕ, zero, suc, ◌+◌, ◌<◌, ◌≡◌, refl, ap, ◌∙◌, ◌≢◌, inl, inr, true, false, Option, none, some, arith,
  ◌==◌, if◌then◌else◌, u8, Bool-cases, Option-cases, Bytes, List, [], ◌∷◌, length,
}
use mathlib.Core.Path.{subst}
use blue_star_os.Strings.{strlen, strlen_from, strchr, end_of}

-- The bytes at `p` are those of the list, none of them null, and a null byte.
pub data IsString (m : Bytes) : ℕ → List ℕ → Type 0 where
  ends : {p : ℕ} → m p ≡ 0 → IsString m p []
  next : {p : ℕ} {cs : List ℕ} → m p ≢ 0 → IsString m (p + 1) cs → IsString m p (m p ∷ cs)

-- The index of a byte in a list.
unfoldable pub index : ℕ → List ℕ → Option ℕ
index c [] = none
index c (x ∷ xs) =
    if x == c then some 0 else elim (index c xs) [ none ↦ none | some i ↦ some (i + 1) ]

pub moved : {m : Bytes} {p q : ℕ} {cs : List ℕ} → p ≡ q → IsString m p cs → IsString m q cs
moved {m} {cs = cs} e str = subst (λ a. IsString m a cs) e str

strlen_from_lem :
    (fuel len p : ℕ) (m : Bytes) (cs : List ℕ)
    → IsString m (p + len) cs
    → length cs < fuel
    → strlen_from fuel m p len ≡ some (len + length cs)
unfolding strlen_from
strlen_from_lem zero len p m cs str enough = absurd (omega arith)
strlen_from_lem (suc fuel) len p m [] (ends e) enough =
    let stop : (m (p + len) == 0) ≡ true = ground arith in rw stop (ap some (omega arith))
strlen_from_lem (suc fuel) len p m (c ∷ cs) (next ne str) enough =
    let on : (m (p + len) == 0) ≡ false = ground arith in
    rw on (
      strlen_from_lem fuel (len + 1) p m cs (moved (omega arith) str) (omega arith)
      ∙ ap some (omega arith))

-- With fuel above the length, `strlen` returns the length of the string at the pointer.
pub strlen-length :
    (fuel p : ℕ) (m : Bytes) (cs : List ℕ)
    → IsString m p cs
    → length cs < fuel
    → strlen fuel m p ≡ some (length cs)
unfolding strlen
strlen-length fuel p m cs str enough =
    strlen_from_lem fuel 0 p m cs (moved (omega arith) str) enough ∙ ap some (omega arith)

-- With enough fuel the walk to the end of the string stops at its null byte.
pub end_of-length :
    (fuel p : ℕ) (m : Bytes) (cs : List ℕ)
    → IsString m p cs
    → length cs < fuel
    → end_of fuel m p ≡ some (p + length cs)
unfolding end_of
end_of-length zero p m cs str enough = absurd (omega arith)
end_of-length (suc fuel) p m [] (ends e) enough =
    let stop : (m p == 0) ≡ true = ground arith in rw stop (ap some (omega arith))
end_of-length (suc fuel) p m (c ∷ cs) (next ne str) enough =
    let on : (m p == 0) ≡ false = ground arith in
    rw on (end_of-length fuel (p + 1) m cs str (omega arith) ∙ ap some (omega arith))

-- The address of an index from `p` on.
abbrev at : ℕ → Option ℕ → Option ℕ
at p none = none
at p (some i) = some (p + i)

-- With fuel above the length, `strchr` finds the first place of the byte in the string, or returns
-- null where the string has none; so it never finds the null byte at the string's end.
pub strchr-index :
    (fuel p ch : ℕ) (m : Bytes) (cs : List ℕ)
    → IsString m p cs
    → length cs < fuel
    → strchr fuel m p ch ≡ some (at p (index (u8 ch) cs))
unfolding strchr index
strchr-index zero p ch m cs str enough = absurd (omega arith)
strchr-index (suc fuel) p ch m [] (ends e) enough =
    let stop : (m p == 0) ≡ true = ground arith in rw stop refl
strchr-index (suc fuel) p ch m (c ∷ cs) (next ne str) enough =
    let on : (m p == 0) ≡ false = ground arith in
    let rest = strchr-index fuel (p + 1) ch m cs str (omega arith) in
    elim (Bool-cases (m p == u8 ch)) [
      | inl here ↦ rw (on, here) (ap (λ a. some (some a)) (omega arith))
      | inr not_here ↦ elim (Option-cases (index (u8 ch) cs)) [
        | inl e ↦ rw (on, not_here, rest, e) refl
        | inr (i, e) ↦ rw (on, not_here, rest, e) (ap (λ a. some (some a)) (omega arith))
      ]
    ]
