-- ===== src/Shell/Recall.antt =====
-- The arrow keys of kernel/shell.c: the line that they bring back.
use blue_star_os.Base.{
  ℕ, ◌+◌, ◌-◌, ◌%◌, ◌<◌, ◌≡◌, refl, fun_ext, ap, ◌∙◌, inl, inr, true, false, List, [], ◌∷◌, length,
  arith, ◌==◌, ltb, if◌then◌else◌, Bool-cases, u32, Bytes, store, store_at, write_text,
}
use blue_star_os.Shell.{Shell, shell_print}
use blue_star_os.Shell.Texts.{text_in-write_text}
use blue_star_os.Shell.History.{
  row_at, shell_refresh_line, recall, end_line, shell_show_history_up, shell_show_history_down,
}
use blue_star_os.Shell.Input.{line_of}
use blue_star_os.Shell.Invariant.{IsRow, IsShell}
use blue_star_os.Shell.Ring.{nth_newest}

write_text_end : (cs : List ℕ) (m : Bytes) (at : ℕ) → write_text cs m at (at + length cs) ≡ 0
unfolding write_text
write_text_end [] m at = ap (store m at 0) (omega arith) ∙ store_at m at 0
write_text_end (c ∷ cs) m at =
    ap (write_text cs (store m at c) (at + 1)) (omega arith)
    ∙ write_text_end cs (store m at c) (at + 1)

store_same : (m : Bytes) (a : ℕ) → m a ≡ 0 → store m a 0 ≡ m
unfolding store
store_same m a h = fun_ext λ x. ground (arith, h)

line_of-recall :
    (row : ℕ) (s : Shell) → IsRow (s.history row) → line_of (recall row s) ≡ s.history row
line_of-recall row s r =
    let line = write_text (s.history row) s.input_buffer 0 in
    let ended : line (length (s.history row)) ≡ 0 =
      ap line (omega arith) ∙ write_text_end (s.history row) s.input_buffer 0 in
    rw (store_same line (length (s.history row)) ended)
      (text_in-write_text 256 (s.history row) s.input_buffer 0 r.is_text r.fits)

-- The refresh only prints, so what does not depend on what is printed stays.
refresh_keeps :
    {A : Type 0} (f : Shell → A)
    → ((t : List ℕ) (s : Shell) → f (record s { printed = t }) ≡ f s)
    → (s : Shell) → f (shell_refresh_line s) ≡ f s
unfolding shell_refresh_line shell_print
refresh_keeps f same s = elim (Bool-cases (ltb 0 s.buffer_pos)) [
  | inl e ↦ rw e (same _ s)
  | inr e ↦ rw e (same _ s)
]

-- What an arrow key leaves: the line, and the place in the history.
pub record Shows (s : Shell) (shown : List ℕ) (at : ℕ) : Type 0 where
  pub line : line_of s ≡ shown
  pub index : s.history_index ≡ at

Shows-recall :
    (row index : ℕ) (shown : List ℕ) (s : Shell)
    → IsRow (s.history row)
    → s.history row ≡ shown
    → s.history_index ≡ index
    → Shows (shell_refresh_line (recall row s)) shown index
Shows-recall row index shown s r e at = record {
  line = refresh_keeps line_of (λ t s. refl) (recall row s) ∙ line_of-recall row s r ∙ e;
  index = refresh_keeps (λ s. s.history_index) (λ t s. refl) (recall row s) ∙ at;
}

Shows-end_line :
    (index : ℕ) (s : Shell)
    → s.history_index ≡ index
    → Shows (shell_refresh_line (end_line s)) (line_of s) index
Shows-end_line index s at =
    let ended = store s.input_buffer s.buffer_pos 0 in
    record {
      line =
          refresh_keeps line_of (λ t s. refl) (end_line s)
          ∙ rw (store_same ended s.buffer_pos (store_at s.input_buffer s.buffer_pos 0)) refl;
      index = refresh_keeps (λ s. s.history_index) (λ t s. refl) (end_line s) ∙ at;
    }

-- Where the invariant holds and history_index is above 0, the up key brings back as the line the
-- command that many places older, and history_index falls by one.
pub show_up-Shows :
    (s : Shell)
    → IsShell s
    → 0 < s.history_index
    → Shows
        (shell_show_history_up s)
        (nth_newest s (s.history_count - s.history_index))
        (s.history_index - 1)
unfolding shell_show_history_up
show_up-Shows s w h =
    let kept : (s.history_count == 0) ≡ false = ground (arith, w.in_list) in
    let older : ltb 0 s.history_index ≡ true = ground arith in
    let index = s.history_index - 1 in
    let row : row_at s index ≡ (s.history_pos + 9 - (s.history_count - s.history_index)) % 10 =
      omega (arith, w.in_ring, w.in_list, w.few) in
    let shown = ap s.history row in
    let holds = w.rows (row_at s index) in
    elim (Bool-cases (s.history_index == s.history_count)) [
      | inl e ↦
          rw (kept, older, e)
            (Shows-recall (row_at s index) index _ (record (end_line s) { history_index = index })
              holds shown refl)
      | inr e ↦
          rw (kept, older, e)
            (Shows-recall (row_at s index) index _ (record s { history_index = index }) holds shown
              refl)
    ]

-- Where the invariant holds and history_index is below the count, the down key raises
-- history_index by one; the next newer command becomes the line, or, at the newest command, the
-- line stays as it is.
pub show_down-Shows :
    (s : Shell)
    → IsShell s
    → s.history_index < s.history_count
    → Shows
        (shell_show_history_down s)
        (if s.history_index + 1 == s.history_count
          then line_of s
          else nth_newest s (s.history_count - s.history_index - 2))
        (s.history_index + 1)
unfolding shell_show_history_down
show_down-Shows s w h =
    let kept : (s.history_count == 0) ≡ false = ground arith in
    let newer : ltb s.history_index s.history_count ≡ true = ground arith in
    let index : u32 (s.history_index + 1) ≡ s.history_index + 1 = omega (arith, w.few) in
    let next = s.history_index + 1 in
    elim (Bool-cases (next == s.history_count)) [
      | inl e ↦
          rw (kept, newer, index, e) (Shows-end_line next (record s { history_index = next }) refl)
      | inr e ↦
          let row : row_at s next
              ≡ (s.history_pos + 9 - (s.history_count - s.history_index - 2)) % 10 =
            ground (arith, w.in_ring, w.few, e) in
          rw (kept, newer, index, e)
            (Shows-recall (row_at s next) next _ (record s { history_index = next })
              (w.rows (row_at s next)) (ap s.history row) refl)
    ]
