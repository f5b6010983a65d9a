-- ===== src/Text/Strings.antt =====
-- The strings of kernel/text.c are drawn on the screen only.
use blue_star_os.Base.{
  ℕ, zero, suc, ◌+◌, ◌*◌, ◌^◌, ◌≤◌, ◌<◌, inl, inr, Bool, false, ◌==◌, Option, none, some, List, [],
  ◌∷◌, length, arith, ltb, ◌&&◌, Bool-cases, u32,
}
use blue_star_os.Graphics.{Screen}
use blue_star_os.Graphics.Visible.{IsScreen, Within, Within-refl, Within-trans, IsScreen-Within}
use blue_star_os.Text.{Fonts, utf8_to_unicode, draw_code, wrap, print_from, print_string}
use blue_star_os.Text.Bounds.{put_char-Within, put_chinese_char-Within}

abbrev pub Drawn : Screen → Screen × Bool → Type 0
Drawn s r = Within s r.0

-- A character leaves the pen at most 16 pixels further right.
draw_code-Within :
    (fonts : Fonts) (unicode x y color : ℕ) (s : Screen)
    → IsScreen s
    → s.height < 2 ^ 32
    → x + 16 < 2 ^ 32
    → y + 16 < 2 ^ 32
    → Within s (draw_code fonts unicode x y color s).0
      × ((draw_code fonts unicode x y color s).1 ≤ x + 16)
unfolding draw_code
draw_code-Within fonts unicode x y color s w small hx hy = elim (Bool-cases (ltb unicode 128)) [
  | inl e ↦ rw e (put_char-Within fonts unicode x y color s w small (omega arith) hy, omega arith)
  | inr e ↦ rw e (put_chinese_char-Within fonts unicode x y color s w small hx hy, omega arith)
]

wrap_le :
    (start x y limit : ℕ) (s : Screen)
    → start ≤ limit
    → x ≤ limit
    → y + 18 < 2 ^ 32
    → ((wrap start x y s).0 ≤ limit) × ((wrap start x y s).1 ≤ y + 18)
unfolding wrap
wrap_le start x y limit s hs hx hy = elim (Bool-cases (s.present && ltb s.width (u32 (x + 16)))) [
  | inl e ↦ rw e (hs, omega arith)
  | inr e ↦ rw e (hx, omega arith)
]

-- `limit` is a bound of the pen's column, which moves by 16 in a round.
print_from-Within :
    (n : ℕ) (fonts : Fonts) (str : List ℕ) (start x y color limit : ℕ) (s : Screen)
    → IsScreen s
    → s.height < 2 ^ 32
    → start ≤ limit
    → x ≤ limit
    → limit + 16 * n + 16 < 2 ^ 32
    → y + 18 * n + 18 < 2 ^ 32
    → Drawn s (print_from n fonts str start x y color s)
unfolding print_from
print_from-Within zero fonts [] start x y color limit s w small hs hx lx ly = Within-refl s
print_from-Within (suc n) fonts [] start x y color limit s w small hs hx lx ly = Within-refl s
print_from-Within zero fonts (c ∷ cs) start x y color limit s w small hs hx lx ly = Within-refl s
print_from-Within (suc n) fonts (c ∷ cs) start x y color limit s w small hs hx lx ly =
    elim (Bool-cases (c == 0)) [
      | inl e ↦ rw e (Within-refl s)
      | inr e ↦ rw e (
          one (utf8_to_unicode c cs)
            (λ unicode.
              draw_code-Within fonts unicode x y color s w small (omega arith) (omega arith))
            (λ rest x' y' t w' hx' hy' small'.
              print_from-Within n fonts rest start x' y' color (limit + 16) t w' small'
                (omega arith) hx' (omega arith) (omega arith)))
    ]
  where
    one :
        (o : Option (ℕ × List ℕ))
        → ((unicode : ℕ)
            → Within s (draw_code fonts unicode x y color s).0
              × ((draw_code fonts unicode x y color s).1 ≤ x + 16))
        → ((rest : List ℕ) (x' y' : ℕ) (t : Screen)
            → IsScreen t
            → x' ≤ limit + 16
            → y' ≤ y + 18
            → t.height < 2 ^ 32
            → Drawn t (print_from n fonts rest start x' y' color t))
        → Drawn s (elim o as (λ o'. Screen × Bool) [
          | none ↦ (s, false)
          | some (unicode, rest) ↦
              let (s', x') = draw_code fonts unicode x y color s in
              let (x'', y'') = wrap start x' y s' in print_from n fonts rest start x'' y'' color s'
        ])
    one none drawn later = Within-refl s
    one (some (unicode, rest)) drawn later =
        let (first, moved) = drawn unicode in
        let (s', x') = draw_code fonts unicode x y color s in
        let (ux, uy) =
          wrap_le start x' y (limit + 16) s' (omega arith) (omega (arith, moved)) (omega arith) in
        Within-trans s s' _ first (
          later rest (wrap start x' y s').0 (wrap start x' y s').1 s' (IsScreen-Within s s' first w)
            ux uy (rw first.height small))

-- On a frame buffer whose rows fit its pitch and whose pixels have 32-bit indices, a string at a
-- position from which the pen has room in 32 bits: what is drawn until it returns, or until a
-- character whose UTF-8 sequence contains the null byte, changes no pixel outside the visible
-- screen, whatever the bytes and the tables of glyphs are.
pub print_string-Within :
    (fonts : Fonts) (str : List ℕ) (x y color : ℕ) (s : Screen)
    → IsScreen s
    → s.height < 2 ^ 32
    → x + 16 * length str + 16 < 2 ^ 32
    → y + 18 * length str + 18 < 2 ^ 32
    → Drawn s (print_string fonts str x y color s)
unfolding print_string
print_string-Within fonts str x y color s w small hx hy =
    print_from-Within (length str) fonts str x x y color x s w small (omega arith) (omega arith) hx
      hy
