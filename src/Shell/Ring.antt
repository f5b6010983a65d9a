-- ===== src/Shell/Ring.antt =====
-- The history of kernel/shell.c as a list of the last ten commands, the newest first.
use blue_star_os.Base.{
  ℕ, zero, suc, ◌+◌, ◌-◌, ◌%◌, ◌≤◌, ◌<◌, ◌≡◌, refl, ap, sym, ◌∙◌, inl, inr, Bool, true, false, List,
  [], ◌∷◌, length, take, arith, ◌==◌, ltb, ◌&&◌, ◌||◌, if◌then◌else◌, Bool-cases, u32,
}
use blue_star_os.Shell.{Shell}
use blue_star_os.Shell.Format.{same_text}
use blue_star_os.Shell.History.{newest, shell_save_to_history}
use blue_star_os.Shell.Invariant.{IsShell}

-- The row that holds the command with `k` newer ones.
abbrev pub nth_newest : Shell → ℕ → List ℕ
nth_newest s k = s.history ((s.history_pos + 9 - k) % 10)

abbrev from_newest : ℕ → ℕ → Shell → List (List ℕ)
from_newest zero k s = []
from_newest (suc n) k s = nth_newest s k ∷ from_newest n (k + 1) s

abbrev pub commands_of : Shell → List (List ℕ)
commands_of s = from_newest s.history_count 0 s

-- Whether a command is the newest one.
abbrev is_newest : List ℕ → List (List ℕ) → Bool
is_newest cmd [] = false
is_newest cmd (c ∷ cs) = same_text cmd c

-- A command is put in front, and ten are kept; an empty one, or the newest again, is not.
abbrev pub remember : List ℕ → List (List ℕ) → List (List ℕ)
remember cmd cs = if (length cmd == 0) || is_newest cmd cs then cs else take 10 (cmd ∷ cs)

abbrev saved : List ℕ → Shell → Shell
saved cmd s =
    let count = if ltb s.history_count 10 then s.history_count + 1 else s.history_count in
    record s {
      history = λ r. if r == s.history_pos then cmd else s.history r;
      history_pos = u32 (s.history_pos + 1) % 10;
      history_count = count;
      history_index = count;
    }

nth_newest-saved_first :
    (cmd : List ℕ) (s : Shell) → s.history_pos < 10 → nth_newest (saved cmd s) 0 ≡ cmd
nth_newest-saved_first cmd s h =
    let e : ((u32 (s.history_pos + 1) % 10 + 9 - 0) % 10 == s.history_pos) ≡ true = ground arith in
    rw e refl

nth_newest-saved :
    (cmd : List ℕ) (s : Shell) (k : ℕ)
    → s.history_pos < 10
    → k < 9
    → nth_newest (saved cmd s) (k + 1) ≡ nth_newest s k
nth_newest-saved cmd s k h small =
    let other : ((u32 (s.history_pos + 1) % 10 + 9 - (k + 1)) % 10 == s.history_pos) ≡ false =
      ground arith in
    rw other (ap s.history (omega arith))

from_newest-saved :
    (n k : ℕ) (cmd : List ℕ) (s : Shell)
    → s.history_pos < 10
    → n + k ≤ 9
    → from_newest n (k + 1) (saved cmd s) ≡ from_newest n k s
from_newest-saved zero k cmd s h small = refl
from_newest-saved (suc n) k cmd s h small =
    rw (nth_newest-saved cmd s k h (omega arith), from_newest-saved n (k + 1) cmd s h (omega arith))
      refl

take-from_newest : (n m k : ℕ) (s : Shell) → n ≤ m → take n (from_newest m k s) ≡ from_newest n k s
take-from_newest zero m k s h = refl
take-from_newest (suc n) zero k s h = absurd (omega arith)
take-from_newest (suc n) (suc m) k s h = rw (take-from_newest n m (k + 1) s (omega arith)) refl

take-from_newest_all :
    (n m k : ℕ) (s : Shell) → m ≤ n → take n (from_newest m k s) ≡ from_newest m k s
take-from_newest_all zero zero k s h = refl
take-from_newest_all (suc n) zero k s h = refl
take-from_newest_all zero (suc m) k s h = absurd (omega arith)
take-from_newest_all (suc n) (suc m) k s h =
    rw (take-from_newest_all n m (k + 1) s (omega arith)) refl

-- With the count of the commands kept, after a command more than `n`.
from_newest-count :
    (c n : ℕ) (cmd : List ℕ) (s : Shell)
    → s.history_pos < 10
    → c ≡ suc n
    → n ≤ 9
    → from_newest c 0 (saved cmd s) ≡ cmd ∷ from_newest n 0 s
from_newest-count c n cmd s h e small =
    rw (e, nth_newest-saved_first cmd s h, from_newest-saved n 0 cmd s h (omega arith)) refl

commands_of-saved :
    (cmd : List ℕ) (s : Shell)
    → IsShell s
    → commands_of (saved cmd s) ≡ take 10 (cmd ∷ commands_of s)
commands_of-saved cmd s w = elim (Bool-cases (ltb s.history_count 10)) [
  | inl e ↦
      from_newest-count _ s.history_count cmd s w.in_ring (ground (arith, e)) (ground (arith, e))
      ∙ ap (λ l. cmd ∷ l) (sym (take-from_newest_all 9 s.history_count 0 s (ground (arith, e))))
  | inr e ↦
      from_newest-count _ 9 cmd s w.in_ring (ground (arith, e, w.few)) (omega arith)
      ∙ ap (λ l. cmd ∷ l) (sym (take-from_newest 9 s.history_count 0 s (ground (arith, e))))
]

is_newest-commands_of :
    (cmd : List ℕ) (s : Shell)
    → s.history_pos < 10
    → (ltb 0 s.history_count && same_text cmd (s.history (newest s)))
      ≡ is_newest cmd (commands_of s)
is_newest-commands_of cmd s h = newest_or_none s.history_count
  where
    newest_or_none :
        (n : ℕ)
        → (ltb 0 n && same_text cmd (s.history (newest s))) ≡ is_newest cmd (from_newest n 0 s)
    newest_or_none zero = refl
    newest_or_none (suc n) =
        let some_kept : ltb 0 (suc n) ≡ true = ground arith in
        let row : newest s ≡ (s.history_pos + 9 - 0) % 10 = omega arith in rw (some_kept, row) refl

-- Where the indices are inside their arrays, saving a command does to the list of the kept
-- commands, the newest first, what putting it in front of a list of at most ten does; an empty
-- command, or the newest again, is not put there.
pub commands_of-save :
    (cmd : List ℕ) (s : Shell)
    → IsShell s
    → commands_of (shell_save_to_history cmd s) ≡ remember cmd (commands_of s)
unfolding shell_save_to_history
commands_of-save cmd s w =
    choose (length cmd == 0) (ltb 0 s.history_count && same_text cmd (s.history (newest s)))
      (is_newest cmd (commands_of s)) (is_newest-commands_of cmd s w.in_ring)
  where
    choose :
        (a b c : Bool)
        → b ≡ c
        → commands_of (if a then s else if b then s else saved cmd s)
          ≡ (if a || c then commands_of s else take 10 (cmd ∷ commands_of s))
    choose true b c e = refl
    choose false true c e = rw (sym e) refl
    choose false false c e = rw (sym e) (commands_of-saved cmd s w)
