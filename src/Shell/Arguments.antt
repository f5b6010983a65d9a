-- ===== src/Shell/Arguments.antt =====
-- The arguments that `shell_execute_command` of kernel/shell.c cuts out of a line.
use blue_star_os.Base.{
  ℕ, zero, suc, ◌+◌, ◌≤◌, ◌<◌, ◌≡◌, ◌≢◌, refl, ap, ◌∙◌, inl, inr, true, false, List, [], ◌∷◌, ◌++◌,
  map, length, length-append, arith, ◌==◌, ltb, ◌||◌, not, if◌then◌else◌, Bool-cases, Bytes, store,
  store_at, store_ne, text_in, write_text,
}
use blue_star_os.Shell.Texts.{IsText, write_text_below}
use blue_star_os.Shell.Lines.{skip_spaces, split_from, arguments}

unfoldable pub until_blank : List ℕ → List ℕ
until_blank [] = []
until_blank (c ∷ cs) = let rest = until_blank cs in if c == b' ' then [] else c ∷ rest

unfoldable pub from_blank : List ℕ → List ℕ
from_blank [] = []
from_blank (c ∷ cs) = let rest = from_blank cs in if c == b' ' then c ∷ cs else rest

unfoldable pub drop_blanks : List ℕ → List ℕ
drop_blanks [] = []
drop_blanks (c ∷ cs) = let rest = drop_blanks cs in if c == b' ' then rest else c ∷ cs

-- A line at its blanks: the text up to the first blank, which may be empty, and then at most `k`
-- more arguments, the last of which is all the rest.
unfoldable pub split_words : ℕ → List ℕ → List (List ℕ)
split_words zero cs = cs ∷ []
split_words (suc k) cs =
    until_blank cs
    ∷ elim (drop_blanks (from_blank cs)) [ [] ↦ [] | d ∷ ds ↦ split_words k (d ∷ ds) ]

-- A string in memory.
abbrev Reads : Bytes → ℕ → List ℕ → Type 0
Reads m p [] = m p ≡ 0
Reads m p (c ∷ cs) = (m p ≡ c) × (c ≢ 0) × Reads m (p + 1) cs

Reads-frame :
    (m m' : Bytes) (p : ℕ) (cs : List ℕ)
    → ((x : ℕ) → p ≤ x → m' x ≡ m x)
    → Reads m p cs
    → Reads m' p cs
Reads-frame m m' p [] same r = same p (omega arith) ∙ r
Reads-frame m m' p (c ∷ cs) same r =
    (same p (omega arith) ∙ r.0, r.1, Reads-frame m m' (p + 1) cs (λ x h. same x (omega arith)) r.2)

Reads-write_text : (cs : List ℕ) (m : Bytes) (p : ℕ) → IsText cs → Reads (write_text cs m p) p cs
unfolding write_text
Reads-write_text [] m p t = store_at m p 0
Reads-write_text (c ∷ cs) m p t = (
  write_text_below cs (store m p c) (p + 1) p (omega arith) ∙ store_at m p c,
  t.0,
  Reads-write_text cs (store m p c) (p + 1) t.1,
)

text_in-Reads :
    (n : ℕ) (m : Bytes) (p : ℕ) (cs : List ℕ) → Reads m p cs → length cs < n → text_in n m p ≡ cs
unfolding text_in
text_in-Reads zero m p cs r h = absurd (omega arith)
text_in-Reads (suc n) m p [] r h = rw r refl
text_in-Reads (suc n) m p (c ∷ cs) r h =
    let present : (c == 0) ≡ false = ground (arith, r.1) in
    rw (r.0, present, text_in-Reads n m (p + 1) cs r.2 (omega arith)) refl

-- The strings at a list of places.
abbrev Args : Bytes → List ℕ → List (List ℕ) → Type 0
Args m [] [] = Unit
Args m [] (w ∷ ws) = ⊥
Args m (p ∷ ps) [] = ⊥
Args m (p ∷ ps) (w ∷ ws) = Reads m p w × (length w < 256) × Args m ps ws

map-text_in :
    (m : Bytes) (ps : List ℕ) (ws : List (List ℕ)) → Args m ps ws → map (text_in 256 m) ps ≡ ws
map-text_in m [] [] a = refl
map-text_in m [] (w ∷ ws) a = absurd a
map-text_in m (p ∷ ps) [] a = absurd a
map-text_in m (p ∷ ps) (w ∷ ws) a =
    rw (text_in-Reads 256 m p w a.0 a.1, map-text_in m ps ws a.2) refl

-- The place behind the blanks.
skip_spaces-Reads :
    (n : ℕ) (m : Bytes) (p : ℕ) (cs : List ℕ)
    → Reads m p cs
    → length cs < n
    → (p ≤ skip_spaces n m p) × Reads m (skip_spaces n m p) (drop_blanks cs)
unfolding drop_blanks
skip_spaces-Reads zero m p cs r h = absurd (omega arith)
skip_spaces-Reads (suc n) m p [] r h =
    let stop : (m p == b' ') ≡ false = ground (arith, r) in rw stop (omega arith, r)
skip_spaces-Reads (suc n) m p (c ∷ cs) r h =
    let later = skip_spaces-Reads n m (p + 1) cs r.2 (omega arith) in
    elim (Bool-cases (c == b' ')) [
      | inl e ↦ rw (r.0, e) (omega (arith, later.0), later.1)
      | inr e ↦ rw (r.0, e) (omega arith, r)
    ]

-- What the split does from a place on, with the arguments `argv` so far: it finds the rest of the
-- argument there and the arguments behind it, and changes nothing before it.
record IsCut (result : Bytes × List ℕ) (line : Bytes) (at : ℕ) (argv : List ℕ)
    (words : List (List ℕ)) : Type 0 where
  found : List ℕ
  all : result.1 ≡ argv ++ found
  kept : (x : ℕ) → x < at → result.0 x ≡ line x
  args : Args result.0 (at ∷ found) words

append_nil : (xs : List ℕ) → xs ≡ xs ++ []
append_nil [] = refl
append_nil (x ∷ xs) = ap (λ ys. x ∷ ys) (append_nil xs)

append_one : (xs ys : List ℕ) (y : ℕ) → (xs ++ (y ∷ [])) ++ ys ≡ xs ++ (y ∷ ys)
append_one [] ys y = refl
append_one (x ∷ xs) ys y = ap (λ zs. x ∷ zs) (append_one xs ys y)

length-until_blank : (cs : List ℕ) → length (until_blank cs) ≤ length cs
unfolding until_blank
length-until_blank [] = omega arith
length-until_blank (c ∷ cs) = ground (arith, length-until_blank cs)

length-drop_blanks : (cs : List ℕ) → length (drop_blanks cs) ≤ length cs
unfolding drop_blanks
length-drop_blanks [] = omega arith
length-drop_blanks (c ∷ cs) = ground (arith, length-drop_blanks cs)

IsCut-here :
    (line : Bytes) (at : ℕ) (argv w : List ℕ)
    → Reads line at w
    → length w < 256
    → IsCut (line, argv) line at argv (w ∷ [])
IsCut-here line at argv w r small = record {
  found = [];
  all = append_nil argv;
  kept = λ x h. refl;
  args = (r, small, tt);
}

IsCut-grown :
    (result : Bytes × List ℕ) (line : Bytes) (at c : ℕ) (argv w : List ℕ) (ws : List (List ℕ))
    → line at ≡ c
    → c ≢ 0
    → suc (length w) < 256
    → IsCut result line (at + 1) argv (w ∷ ws)
    → IsCut result line at argv ((c ∷ w) ∷ ws)
IsCut-grown result line at c argv w ws e ne small cut = record {
  found = cut.found;
  all = cut.all;
  kept = λ x h. cut.kept x (omega arith);
  args = ((cut.kept at (omega arith) ∙ e, ne, cut.args.0), small, cut.args.2);
}

-- The split from any place of any line, with `n` rounds.
abbrev Splits : ℕ → Type 0
Splits n =
    (line : Bytes) (at : ℕ) (argv : List ℕ) (cs : List ℕ) (k : ℕ)
    → Reads line at cs
    → length cs < n
    → length cs < 256
    → length argv + k ≡ 16
    → IsCut (split_from n line at argv) line at argv (split_words k cs)

-- At a blank, the rest of the line behind the blanks.
IsCut-blank :
    (n : ℕ) (line : Bytes) (at to : ℕ) (argv : List ℕ) (ds : List ℕ) (k : ℕ)
    → Splits n
    → Reads (store line at 0) to ds
    → at < to
    → length ds < n
    → length ds < 256
    → length argv + suc k ≡ 16
    → IsCut
        (split_from n
          (store line at 0)
          to
          (if store line at 0 to == 0 then argv else argv ++ (to ∷ [])))
        line
        at
        argv
        ([] ∷ elim ds [ [] ↦ [] | d ∷ ds' ↦ split_words k (d ∷ ds') ])
unfolding split_words until_blank from_blank drop_blanks
IsCut-blank n line at to argv [] k splits r on h small room =
    let cut = splits (store line at 0) to argv [] (suc k) r h small room in
    let ended = cut.kept at on ∙ store_at line at 0 in
    let none_there : (store line at 0 to == 0) ≡ true = ground (arith, r) in
    rw none_there record {
      found = cut.found;
      all = cut.all;
      kept = λ x l. cut.kept x (omega arith) ∙ store_ne line at 0 x (omega arith);
      args = (ended, omega arith, cut.args.2);
    }
IsCut-blank n line at to argv (d ∷ ds) k splits r on h small room =
    let argv' = argv ++ (to ∷ []) in
    let cut =
      splits (store line at 0) to argv' (d ∷ ds) k r h small
        (omega (arith, length-append argv (to ∷ []))) in
    let ended = cut.kept at on ∙ store_at line at 0 in
    let one_there : (store line at 0 to == 0) ≡ false = ground (arith, r.0, r.1) in
    rw one_there record {
      found = to ∷ cut.found;
      all = cut.all ∙ append_one argv cut.found to;
      kept = λ x l. cut.kept x (omega arith) ∙ store_ne line at 0 x (omega arith);
      args = (ended, omega arith, cut.args);
    }

split_from-IsCut : (n : ℕ) → Splits n
unfolding split_from split_words until_blank from_blank drop_blanks
split_from-IsCut zero line at argv cs k r h small room = absurd (omega arith)
split_from-IsCut (suc n) line at argv cs zero r h small room =
    let stop : ((line at == 0) || not (ltb (length argv) 16)) ≡ true = ground arith in
    rw stop (IsCut-here line at argv cs r small)
split_from-IsCut (suc n) line at argv [] (suc k) r h small room =
    let stop : ((line at == 0) || not (ltb (length argv) 16)) ≡ true = ground (arith, r) in
    rw stop (IsCut-here line at argv [] r small)
split_from-IsCut (suc n) line at argv (c ∷ cs) (suc k) r h small room =
    let on : ((c == 0) || not (ltb (length argv) 16)) ≡ false = ground (arith, r.1) in
    elim (Bool-cases (c == b' ')) [
      | inl e ↦
          let behind =
            Reads-frame line (store line at 0) (at + 1) cs
              (λ x l. store_ne line at 0 x (omega arith)) r.2 in
          let (past, there) =
            skip_spaces-Reads n (store line at 0) (at + 1) cs behind (omega arith) in
          let short = length-drop_blanks cs in
          rw (r.0, on, e, e)
            (IsCut-blank n line at (skip_spaces n (store line at 0) (at + 1)) argv (drop_blanks cs)
              k (split_from-IsCut n) there (omega (arith, past)) (omega (arith, short))
              (omega (arith, short)) room)
      | inr e ↦
          rw (r.0, on, e)
            (IsCut-grown _ line at c argv (until_blank cs) _ r.0 r.1
              (omega (arith, length-until_blank cs))
              (split_from-IsCut n line (at + 1) argv cs (suc k) r.2 (omega arith) (omega arith)
                room))
    ]

-- For a line of fewer than 256 bytes, none of them null, the arguments that are cut in place are
-- the words of the line: the text up to the first blank, which may be empty, and up to fifteen
-- more, of which the fifteenth is the whole rest of the line.
pub arguments-split_words :
    (line : List ℕ) → IsText line → length line < 256 → arguments line ≡ split_words 15 line
unfolding arguments
arguments-split_words line t small =
    let cut =
      split_from-IsCut 256 (write_text line (λ x. 0) 0) 0 (0 ∷ []) line 15
        (Reads-write_text line (λ x. 0) 0 t) small small refl in
    rw cut.all (
      map-text_in (split_from 256 (write_text line (λ x. 0) 0) 0 (0 ∷ [])).0 (0 ∷ cut.found)
        (split_words 15 line) cut.args)
