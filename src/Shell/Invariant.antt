-- ===== src/Shell/Invariant.antt =====
-- The bounds that the state of kernel/shell.c keeps whatever is typed.
use blue_star_os.Base.{
  ℕ, ◌+◌, ◌-◌, ◌≤◌, ◌<◌, ◌≡◌, refl, ap, ◌∙◌, Bool, true, false, Option, none, some, List, length,
  arith, ◌==◌, ltb, leb, ◌&&◌, ◌||◌, if◌then◌else◌, u32, Bytes, store, store_at,
}
use blue_star_os.Shell.{Shell, shell_print}
use blue_star_os.Shell.Texts.{IsText, text_in-IsText, text_in-short}
use blue_star_os.Shell.Format.{same_text}
use blue_star_os.Shell.History.{
  newest, row_at, shell_save_to_history, shell_refresh_line, recall, end_line,
  shell_show_history_up, shell_show_history_down,
}
use blue_star_os.Shell.Input.{
  line_of, entered, next_line, enter, type_char, erase, escape, arrow, shell_process_char,
}

-- A row of the history holds a string with its null byte.
pub record IsRow (cs : List ℕ) : Type 0 where
  pub fits : length cs < 256
  pub is_text : IsText cs

-- Every index stands inside its array, and the rows hold strings.
pub record IsShell (s : Shell) : Type 0 where
  pub in_line : s.buffer_pos < 256
  pub few : s.history_count ≤ 10
  pub in_ring : s.history_pos < 10
  pub in_list : s.history_index ≤ s.history_count
  pub state : s.escape_state ≤ 2
  pub rows : (r : ℕ) → IsRow (s.history r)

print-IsShell : (t : List ℕ) (s : Shell) → IsShell s → IsShell (shell_print t s)
unfolding shell_print
print-IsShell t s w = record {
  in_line = w.in_line;
  few = w.few;
  in_ring = w.in_ring;
  in_list = w.in_list;
  state = w.state;
  rows = w.rows;
}

line_of-IsRow : (s : Shell) → s.buffer_pos < 256 → IsRow (line_of s)
line_of-IsRow s h = record {
  fits = omega (
    arith,
    text_in-short 256 (store s.input_buffer s.buffer_pos 0) 0 s.buffer_pos (
        ap (store s.input_buffer s.buffer_pos 0) (omega arith)
        ∙ store_at s.input_buffer s.buffer_pos 0),
  );
  is_text = text_in-IsText 256 (store s.input_buffer s.buffer_pos 0) 0;
}

if-holds :
    {A : Type 0} (P : A → Type 0) (b : Bool) (x y : A)
    → (b ≡ true → P x)
    → (b ≡ false → P y)
    → P (if b then x else y)
if-holds P true x y h k = h refl
if-holds P false x y h k = k refl

save-IsShell :
    (cmd : List ℕ) (s : Shell) → IsRow cmd → IsShell s → IsShell (shell_save_to_history cmd s)
unfolding shell_save_to_history
save-IsShell cmd s r w =
    if-holds IsShell (length cmd == 0) _ _ (λ e. w)
      λ e.
        if-holds IsShell (ltb 0 s.history_count && same_text cmd (s.history (newest s))) _ _
          (λ d. w)
          λ d. record {
            in_line = w.in_line;
            few = ground (arith, w.few);
            in_ring = omega arith;
            in_list = omega arith;
            state = w.state;
            rows = λ q. if-holds IsRow (q == s.history_pos) _ _ (λ f. r) (λ f. w.rows q);
          }

refresh-IsShell : (s : Shell) → IsShell s → IsShell (shell_refresh_line s)
unfolding shell_refresh_line
refresh-IsShell s w =
    let shown = print-IsShell _ _ (print-IsShell _ _ (print-IsShell _ s w)) in
    if-holds IsShell (ltb 0 s.buffer_pos) _ _ (λ e. print-IsShell _ _ shown) (λ e. shown)

recall-IsShell : (row : ℕ) (s : Shell) → IsShell s → IsShell (recall row s)
recall-IsShell row s w = record {
  in_line = (w.rows row).fits;
  few = w.few;
  in_ring = w.in_ring;
  in_list = w.in_list;
  state = w.state;
  rows = w.rows;
}

end_line-IsShell : (s : Shell) → IsShell s → IsShell (end_line s)
end_line-IsShell s w = record {
  in_line = w.in_line;
  few = w.few;
  in_ring = w.in_ring;
  in_list = w.in_list;
  state = w.state;
  rows = w.rows;
}

at_index-IsShell :
    (i : ℕ) (s : Shell) → i ≤ s.history_count → IsShell s → IsShell (record s { history_index = i })
at_index-IsShell i s h w = record {
  in_line = w.in_line;
  few = w.few;
  in_ring = w.in_ring;
  in_list = h;
  state = w.state;
  rows = w.rows;
}

escape-IsShell : (i : ℕ) (s : Shell) → i ≤ 2 → IsShell s → IsShell (escape i s)
escape-IsShell i s h w = record {
  in_line = w.in_line;
  few = w.few;
  in_ring = w.in_ring;
  in_list = w.in_list;
  state = h;
  rows = w.rows;
}

at_byte-IsShell :
    (p : ℕ) (m : Bytes) (s : Shell)
    → p < 256
    → IsShell s
    → IsShell (record s { input_buffer = m; buffer_pos = p })
at_byte-IsShell p m s h w = record {
  in_line = h;
  few = w.few;
  in_ring = w.in_ring;
  in_list = w.in_list;
  state = w.state;
  rows = w.rows;
}

up-IsShell : (s : Shell) → IsShell s → IsShell (shell_show_history_up s)
unfolding shell_show_history_up
up-IsShell s w =
    let ended =
      if-holds IsShell (s.history_index == s.history_count) (end_line s) s
        (λ e. end_line-IsShell s w) (λ e. w) in
    let index = s.history_index - 1 in
    let stepped =
      if-holds (λ t. IsShell (record t { history_index = index }))
        (s.history_index == s.history_count) (end_line s) s
        (λ e. at_index-IsShell index (end_line s) (omega (arith, w.in_list)) (end_line-IsShell s w))
        (λ e. at_index-IsShell index s (omega (arith, w.in_list)) w) in
    if-holds IsShell (s.history_count == 0) _ _ (λ e. w)
      λ e.
        if-holds IsShell (ltb 0 s.history_index) _ _
          (λ d. refresh-IsShell _ (recall-IsShell (row_at s index) _ stepped)) (λ d. ended)

down-IsShell : (s : Shell) → IsShell s → IsShell (shell_show_history_down s)
unfolding shell_show_history_down
down-IsShell s w =
    if-holds IsShell (s.history_count == 0) _ _ (λ e. w)
      λ e.
        if-holds IsShell (ltb s.history_index s.history_count) _ _
          (λ d.
            let w1 = at_index-IsShell (u32 (s.history_index + 1)) s (ground (arith, w.in_list)) w in
            refresh-IsShell _ (
              if-holds IsShell (u32 (s.history_index + 1) == s.history_count) _ _
                (λ f. end_line-IsShell _ w1)
                (λ f.
                  at_byte-IsShell _ _ _ (w.rows (row_at s (u32 (s.history_index + 1)))).fits w1)))
          (λ d. w)

-- Holds of the result of a byte where there is one.
abbrev pub Holds : (Shell → Type 0) → Option Shell → Type 0
Holds P none = Unit
Holds P (some s) = P s

next_line-IsShell : (shown : List ℕ) (s : Shell) → IsShell s → IsShell (next_line shown s)
unfolding shell_print
next_line-IsShell shown s w = record {
  in_line = omega arith;
  few = w.few;
  in_ring = w.in_ring;
  in_list = omega arith;
  state = w.state;
  rows = w.rows;
}

told-IsShell :
    (o : Option (List ℕ)) (s : Shell)
    → IsShell s
    → Holds IsShell
        (elim o as (λ x. Option Shell) [ none ↦ none | some shown ↦ some (next_line shown s) ])
told-IsShell none s w = tt
told-IsShell (some shown) s w = next_line-IsShell shown s w

enter-IsShell : (s : Shell) → IsShell s → Holds IsShell (enter s)
unfolding enter
enter-IsShell s w =
    let entered_well = print-IsShell _ _ (end_line-IsShell s w) in
    let saved = save-IsShell (line_of s) (entered s) (line_of-IsRow s w.in_line) entered_well in
    if-holds (Holds IsShell) (ltb 0 s.buffer_pos) _ _ (λ e. told-IsShell _ _ saved)
      (λ e. print-IsShell _ s w)

arrow-IsShell : (c : ℕ) (s : Shell) → IsShell s → IsShell (arrow c s)
unfolding arrow
arrow-IsShell c s w = escape-IsShell 0 _ (omega arith) (
    if-holds IsShell (c == b'A') _ _ (λ e. up-IsShell s w)
      λ e. if-holds IsShell (c == b'B') _ _ (λ d. down-IsShell s w) (λ d. w))

type_char-IsShell : (c : ℕ) (s : Shell) → IsShell s → IsShell (type_char c s)
unfolding type_char
type_char-IsShell c s w =
    if-holds IsShell (ltb s.buffer_pos 255 && leb 32 c && leb c 126) _ _
      (λ e. print-IsShell _ _ (at_byte-IsShell (s.buffer_pos + 1) _ s (ground arith) w)) (λ e. w)

erase-IsShell : (s : Shell) → IsShell s → IsShell (erase s)
unfolding erase
erase-IsShell s w =
    if-holds IsShell (ltb 0 s.buffer_pos) _ _
      (λ e.
        print-IsShell _ _
          (at_byte-IsShell (s.buffer_pos - 1) s.input_buffer s (omega (arith, w.in_line)) w))
      (λ e. w)

pub shell_process_char-IsShell :
    (c : ℕ) (s : Shell) → IsShell s → Holds IsShell (shell_process_char c s)
unfolding shell_process_char
shell_process_char-IsShell c s w =
    if-holds (Holds IsShell) (s.escape_state == 1) _ _
      (λ e.
        if-holds IsShell (c == b'[') _ _ (λ d. escape-IsShell 2 s (omega arith) w)
          (λ d. escape-IsShell 0 s (omega arith) w))
      λ e1.
        if-holds (Holds IsShell) (s.escape_state == 2) _ _ (λ e. arrow-IsShell c s w)
          λ e2.
            if-holds (Holds IsShell) (c == 0x1B) _ _ (λ e. escape-IsShell 1 s (omega arith) w)
              λ e3.
                if-holds (Holds IsShell) ((c == 10) || (c == 13)) _ _ (λ e. enter-IsShell s w)
                  λ e4.
                    if-holds (Holds IsShell) (c == 8) _ _ (λ e. erase-IsShell s w)
                      (λ e. type_char-IsShell c s w)
