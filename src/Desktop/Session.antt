-- ===== src/Desktop/Session.antt =====
-- Keys typed into the terminal of kernel/kmain.c: bounds that every key keeps.
use blue_star_os.Base.{
  ℕ, zero, suc, ◌+◌, ◌-◌, ◌/◌, ◌^◌, ◌<◌, ◌≡◌, refl, inl, inr, Bool, true, false, Option, none, some,
  List, [], ◌∷◌, length, arith, ◌==◌, ltb, ◌||◌, if◌then◌else◌, Bool-cases, store, store_at, utf8,
  fill_in,
}
use blue_star_os.Graphics.{Screen, draw_rect}
use blue_star_os.Graphics.Bounds.{draw_rect-Within}
use blue_star_os.Text.{Fonts, print_string}
use blue_star_os.Text.Strings.{Drawn, print_string-Within}
use blue_star_os.Shell.Format.{same_text}
use blue_star_os.Desktop.{Terminal, Desk}
use blue_star_os.Desktop.Console.{
  draw_on, real_x, real_y, move_cursor, wrap_line, scroll, term_putc, put_first, puts_from,
}
use blue_star_os.Desktop.Cursor.{
  IsTerminal, Step, Step-refl, Step-trans, IsWindow-Step, IsNear, settle, drawn_at, line_feed-Step,
  line_feed-IsNear, near, put_char-Within_at, returned, returned-Step, returned-IsTerminal,
  term_putc-IsTerminal,
}
use blue_star_os.Desktop.Keys.{
  clear_input_buffer, with_term, and_puts, answer, press_enter, rub_out, backspace, press_char,
  on_keyboard_pressed,
}

-- The terminal after a step, where there is one.
abbrev Stepped : Terminal → Option Terminal → Type 0
Stepped t none = Unit
Stepped t (some u) = Step t u × IsTerminal u

Stepped-after : (t u : Terminal) (o : Option Terminal) → Step t u → Stepped u o → Stepped t o
Stepped-after t u none step h = tt
Stepped-after t u (some v) step (next, i) = (Step-trans t u v step next, i)

abbrev First : Terminal → Option (Terminal × List ℕ) → Type 0
First t none = Unit
First t (some (u, rest)) = Step t u × IsNear u

if-holds :
    {A : Type 0} (P : A → Type 0) (b : Bool) (x y : A)
    → (b ≡ true → P x)
    → (b ≡ false → P y)
    → P (if b then x else y)
if-holds P true x y h k = h refl
if-holds P false x y h k = k refl

print_wide :
    (t : Terminal) (r : Screen × Bool) (rest : List ℕ)
    → IsTerminal t
    → Drawn t.screen r
    → First t (if r.1 then some (move_cursor 16 (record t { screen = r.0 }), rest) else none)
print_wide t (s, returns) rest i d =
    if-holds (First t) returns _ _ (λ e. drawn_at 16 s t i (omega arith) refl d) (λ e. tt)

three_bytes :
    (fonts : Fonts) (c : ℕ) (cs : List ℕ) (t : Terminal)
    → IsTerminal t
    → First t (elim cs as (λ x. Option (Terminal × List ℕ)) [
      | [] ↦ none
      | a ∷ cs' ↦ elim cs' as (λ x. Option (Terminal × List ℕ)) [
        | [] ↦ none
        | b ∷ rest ↦
            let (s, returns) =
              print_string fonts (c ∷ a ∷ b ∷ []) (real_x t) (real_y t) t.text_color t.screen in
            if returns then some (move_cursor 16 (record t { screen = s }), rest) else none
      ]
    ])
three_bytes fonts c [] t i = tt
three_bytes fonts c (a ∷ []) t i = tt
three_bytes fonts c (a ∷ b ∷ rest) t i = print_wide t _ rest i (
    print_string-Within fonts (c ∷ a ∷ b ∷ []) (real_x t) (real_y t) t.text_color t.screen
      i.window.on_screen i.window.screen_small (omega (arith, i.right, i.window.small))
      (omega (arith, i.bottom, i.window.low)))

put_first-First :
    (fonts : Fonts) (c : ℕ) (cs : List ℕ) (t : Terminal)
    → IsTerminal t
    → First t (put_first fonts c cs t)
unfolding put_first
put_first-First fonts c cs t i =
    if-holds (First t) (c == 10) _ _
      (λ e. (line_feed-Step t, line_feed-IsNear t i.window i.top i.bottom))
      λ e.
        if-holds (First t) (c == 13) _ _
          (λ f. (returned-Step t, near (returned t) (returned-IsTerminal t i)))
          λ f.
            if-holds (First t) (ltb c 0x80) _ _
              (λ g. drawn_at 8 _ t i (omega arith) refl (put_char-Within_at fonts c t i))
              λ g.
                if-holds (First t) (c / 2 ^ 5 == 7) _ _ (λ h. three_bytes fonts c cs t i)
                  (λ h. (Step-refl t, near t i))

puts_from-Stepped :
    (n : ℕ) (fonts : Fonts) (str : List ℕ) (t : Terminal)
    → IsTerminal t
    → Stepped t (puts_from n fonts str t)
unfolding puts_from
puts_from-Stepped zero fonts [] t i = (Step-refl t, i)
puts_from-Stepped (suc n) fonts [] t i = (Step-refl t, i)
puts_from-Stepped zero fonts (c ∷ cs) t i = tt
puts_from-Stepped (suc n) fonts (c ∷ cs) t i =
    behind (put_first fonts c cs t) (put_first-First fonts c cs t i)
      λ rest u j. puts_from-Stepped n fonts rest u j
  where
    behind :
        (o : Option (Terminal × List ℕ))
        → First t o
        → ((rest : List ℕ) (u : Terminal) → IsTerminal u → Stepped u (puts_from n fonts rest u))
        → Stepped t (elim o as (λ x. Option Terminal) [
          | none ↦ none
          | some (u, rest) ↦ puts_from n fonts rest (scroll (wrap_line u))
        ])
    behind none f later = tt
    behind (some (u, rest)) (step, close) later =
        let (settled, there) = settle u close in
        Stepped-after t _ _ (Step-trans t u _ step settled)
          (later rest (scroll (wrap_line u)) there)

and_puts-Stepped :
    (fonts : Fonts) (str : List ℕ) (t : Terminal) (o : Option Terminal)
    → Stepped t o
    → Stepped t (and_puts fonts str o)
and_puts-Stepped fonts str t none h = tt
and_puts-Stepped fonts str t (some u) (step, i) =
    Stepped-after t u _ step (puts_from-Stepped (length str) fonts str u i)

and_feed-Stepped :
    (fonts : Fonts) (t : Terminal) (o : Option Terminal)
    → Stepped t o
    → Stepped t
        (elim o as (λ x. Option Terminal) [ none ↦ none | some u ↦ some (term_putc fonts 10 u) ])
and_feed-Stepped fonts t none h = tt
and_feed-Stepped fonts t (some u) (step, i) =
    Stepped-after t u (some (term_putc fonts 10 u)) step (term_putc-IsTerminal fonts 10 u i)

answer-Stepped :
    (fonts : Fonts) (line : List ℕ) (t : Terminal) → IsTerminal t → Stepped t (answer fonts line t)
unfolding answer
answer-Stepped fonts line t i =
    if-holds (Stepped t) (same_text line (utf8 "version")) _ _
      (λ e. puts_from-Stepped _ fonts _ t i)
      λ e.
        if-holds (Stepped t) (same_text line (utf8 "/kill McLDY")) _ _
          (λ e. puts_from-Stepped _ fonts _ t i)
          λ e.
            and_feed-Stepped fonts t _
              (and_puts-Stepped fonts line t _ (puts_from-Stepped _ fonts _ t i))

-- The line ends inside its array, and the cursor stands inside the window.
pub record IsDesk (d : Desk) : Type 0 where
  pub in_line : d.input_index < 256
  pub ended : d.input_buffer d.input_index ≡ 0
  pub inside : IsTerminal d.term

-- A key that is handled: the bounds hold again, the window stays, and only pixels of the screen
-- change.
abbrev pub Handled : Desk → Option Desk → Type 0
Handled d none = Unit
Handled d (some d') = IsDesk d' × Step d.term d'.term

with_term-Handled :
    (d : Desk) (o : Option Terminal)
    → Stepped d.term o
    → Handled d (with_term o (clear_input_buffer d))
with_term-Handled d none h = tt
with_term-Handled d (some t) (step, i) = (
  record {
    in_line = omega arith;
    ended = fill_in d.input_buffer 0 0 256 0 (omega arith) (omega arith);
    inside = i;
  },
  step,
)

press_enter-Handled : (fonts : Fonts) (d : Desk) → IsDesk d → Handled d (press_enter fonts d)
unfolding press_enter
press_enter-Handled fonts d k =
    let (fed, there) = term_putc-IsTerminal fonts 10 d.term k.inside in
    with_term-Handled d _ (
      and_puts-Stepped fonts (utf8 "Root@MWOS: /# ") d.term _ (
        if-holds (Stepped d.term) (ltb 0 d.input_index) _ _
          (λ e.
            Stepped-after d.term _ _ fed (answer-Stepped fonts _ (term_putc fonts 10 d.term) there))
          (λ e. (fed, there))))

rub_out-IsTerminal : (t : Terminal) → IsTerminal t → Step t (rub_out t) × IsTerminal (rub_out t)
unfolding rub_out
rub_out-IsTerminal t i =
    let back = record t { cursor_x = t.cursor_x - 8 } in
    let drawn =
      draw_rect-Within (real_x back) (real_y back) 8 16 t.bg_color t.screen i.window.on_screen in
    let wiped : Step t (draw_on (draw_rect (real_x back) (real_y back) 8 16 t.bg_color) back) =
      record { same_w = refl; same_h = refl; same_x = refl; same_y = refl; within = drawn } in
    elim (Bool-cases (ltb 8 t.cursor_x)) [
      | inl e ↦ rw e (
        wiped,
        record {
          window = IsWindow-Step t _ wiped i.window;
          left = ground (arith, e, i.left, i.grid);
          grid = ground (arith, e, i.left, i.grid);
          right = omega (arith, i.right);
          top = i.top;
          bottom = i.bottom;
        },
      )
      | inr e ↦ rw e (Step-refl t, i)
    ]

backspace-Handled : (d : Desk) → IsDesk d → IsDesk (backspace d) × Step d.term (backspace d).term
unfolding backspace
backspace-Handled d k =
    let (step, there) = rub_out-IsTerminal d.term k.inside in
    elim (Bool-cases (ltb 0 d.input_index)) [
      | inl e ↦ rw e (
        record {
          in_line = omega (arith, k.in_line);
          ended = store_at d.input_buffer (d.input_index - 1) 0;
          inside = there;
        },
        step,
      )
      | inr e ↦ rw e (k, Step-refl d.term)
    ]

press_char-Handled :
    (fonts : Fonts) (c : ℕ) (d : Desk)
    → IsDesk d
    → IsDesk (press_char fonts c d) × Step d.term (press_char fonts c d).term
unfolding press_char
press_char-Handled fonts c d k =
    let (step, there) = term_putc-IsTerminal fonts c d.term k.inside in
    elim (Bool-cases (ltb d.input_index 255)) [
      | inl e ↦ rw e (
        record {
          in_line = ground (arith, e);
          ended = store_at (store d.input_buffer d.input_index c) (d.input_index + 1) 0;
          inside = there;
        },
        step,
      )
      | inr e ↦ rw e (k, Step-refl d.term)
    ]

-- Where the cursor of the terminal stands inside its window and the typed line inside its array
-- with a null byte behind it, any key that is handled without reading behind a string leaves both
-- so, keeps the window in its place, and changes no pixel outside the visible screen.
pub on_keyboard_pressed-Handled :
    (fonts : Fonts) (c : ℕ) (d : Desk) → IsDesk d → Handled d (on_keyboard_pressed fonts c d)
unfolding on_keyboard_pressed
on_keyboard_pressed-Handled fonts c d k =
    if-holds (Handled d) (c == 0) _ _ (λ e. (k, Step-refl d.term))
      λ e.
        if-holds (Handled d) ((c == 10) || (c == 13)) _ _ (λ f. press_enter-Handled fonts d k)
          λ f.
            if-holds (Handled d) (c == 8) _ _ (λ g. backspace-Handled d k)
              (λ g. press_char-Handled fonts c d k)
