-- ===== src/Fat32/Names/Format.antt =====
-- The 8.3 names of kernel/drivers/fs/fat32.c, printed and converted.
use blue_star_os.Base.{
  ℕ, zero, suc, ◌≤◌, ◌≡◌, refl, ap, ◌≢◌, false, arith, ◌==◌, List, [], ◌∷◌, ◌++◌, map, length, drop,
  length-append,
}
use mathlib.Core.List.{append-nil, map-append}
use blue_star_os.Fat32.Names.{
  space, dot, toupper, before_dot, after_dot, name_field, name_to_83, until_space, dotted,
  format_83_name,
}

-- No character of the list is `c`.
abbrev Without : ℕ → List ℕ → Type 0
Without c [] = Unit
Without c (x ∷ xs) = (x ≢ c) × Without c xs

toupper_ne_space : (c : ℕ) → c ≢ space → (toupper c == space) ≡ false
unfolding toupper
toupper_ne_space c ne = ground arith

length-name_field : (n : ℕ) (cs : List ℕ) → length (name_field n cs) ≡ n
unfolding name_field
length-name_field zero cs = refl
length-name_field (suc n) [] = omega (arith, length-name_field n [])
length-name_field (suc n) (c ∷ cs) = omega (arith, length-name_field n cs)

until_space-name_field :
    (n : ℕ) (cs rest : List ℕ)
    → length cs ≤ n
    → Without space cs
    → until_space n (name_field n cs ++ rest) ≡ map toupper cs
unfolding name_field until_space
until_space-name_field zero [] rest h w = refl
until_space-name_field zero (c ∷ cs) rest h w = absurd (omega arith)
until_space-name_field (suc n) [] rest h w = refl
until_space-name_field (suc n) (c ∷ cs) rest h w =
    rw (toupper_ne_space c w.0)
      (ap (◌∷◌ (toupper c)) (until_space-name_field n cs rest (omega arith) w.1))

drop-name_field : (n : ℕ) (cs rest : List ℕ) → drop n (name_field n cs ++ rest) ≡ rest
unfolding name_field
drop-name_field zero cs rest = refl
drop-name_field (suc n) [] rest = drop-name_field n [] rest
drop-name_field (suc n) (c ∷ cs) rest = drop-name_field n cs rest

before_dot-append : (cs ext : List ℕ) → Without dot cs → before_dot (cs ++ dot ∷ ext) ≡ cs
unfolding before_dot
before_dot-append [] ext w = refl
before_dot-append (c ∷ cs) ext w = ground (arith, before_dot-append cs ext)

after_dot-append : (cs ext : List ℕ) → Without dot cs → after_dot (cs ++ dot ∷ ext) ≡ ext
unfolding after_dot
after_dot-append [] ext w = refl
after_dot-append (c ∷ cs) ext w = ground (arith, after_dot-append cs ext)

before_dot-none : (cs : List ℕ) → Without dot cs → before_dot cs ≡ cs
unfolding before_dot
before_dot-none [] w = refl
before_dot-none (c ∷ cs) w = ground (arith, before_dot-none cs)

after_dot-none : (cs : List ℕ) → Without dot cs → after_dot cs ≡ []
unfolding after_dot
after_dot-none [] w = refl
after_dot-none (c ∷ cs) w = ground (arith, after_dot-none cs)

dotted-name_field :
    (e : ℕ) (es : List ℕ)
    → length (e ∷ es) ≤ 3
    → Without space (e ∷ es)
    → dotted (name_field 3 (e ∷ es)) ≡ dot ∷ map toupper (e ∷ es)
unfolding dotted
dotted-name_field e es short w =
    let field = until_space-name_field 3 (e ∷ es) [] short w in
    let whole = (rw append-nil at field) in
    unfold name_field in rw (toupper_ne_space e w.0) (ap (◌∷◌ dot) (unfold name_field in whole))

-- A converted name is eleven characters long, whatever the name.
pub length-name_to_83 : (name : List ℕ) → length (name_to_83 name) ≡ 11
unfolding name_to_83
length-name_to_83 name = omega (
  arith,
  length-append (name_field 8 (before_dot name)) (name_field 3 (after_dot name)),
  length-name_field 8 (before_dot name),
  length-name_field 3 (after_dot name),
)

-- A name of at most eight characters, none of them a dot or a space, with an extension of one to
-- three characters, none a space: converted to the 8.3 form and printed again it is the name in
-- upper case.
pub format_83_name-name_to_83 :
    (name ext : List ℕ)
    → length name ≤ 8
    → Without dot name
    → Without space name
    → 1 ≤ length ext
    → length ext ≤ 3
    → Without space ext
    → format_83_name (name_to_83 (name ++ dot ∷ ext)) ≡ map toupper (name ++ dot ∷ ext)
unfolding format_83_name name_to_83
format_83_name-name_to_83 name [] short nd ns some_ext short_ext es = absurd (omega arith)
format_83_name-name_to_83 name (e ∷ es) short nd ns some_ext short_ext ext_ns =
    rw (before_dot-append name (e ∷ es) nd, after_dot-append name (e ∷ es) nd)
      (rw
        (
          until_space-name_field 8 name (name_field 3 (e ∷ es)) short ns,
          drop-name_field 8 name (name_field 3 (e ∷ es)),
          dotted-name_field e es short_ext ext_ns,
          map-append,
        )
        (unfold toupper in refl))

-- The same for a name with no extension.
format_83_name-plain :
    (name : List ℕ)
    → length name ≤ 8
    → Without dot name
    → Without space name
    → format_83_name (name_to_83 name) ≡ map toupper name
unfolding format_83_name name_to_83
format_83_name-plain name short nd ns =
    rw
      (
        before_dot-none name nd,
        after_dot-none name nd,
        until_space-name_field 8 name (name_field 3 []) short ns,
        drop-name_field 8 name (name_field 3 []),
      )
      (unfold dotted name_field in append-nil (map toupper name))
