-- ===== src/Fat32/Names.antt =====
-- The 8.3 names of kernel/drivers/fs/fat32.c. A C string is the list of its bytes before the null.
pub mod Format
use blue_star_os.Base.{
  ℕ, zero, suc, ◌+◌, ◌-◌, Bool, true, false, ◌&&◌, ◌||◌, not, ltb, leb, ◌==◌, if◌then◌else◌, List,
  [], ◌∷◌, ◌++◌, length, take, drop, Bytes,
}

abbrev pub space : ℕ
space = 0x20

abbrev pub dot : ℕ
dot = 0x2E

unfoldable pub toupper : ℕ → ℕ
toupper c = if leb b'a' c && leb c b'z' then c - (b'a' - b'A') else c

-- What stands before the first dot, and behind it.
pub before_dot : List ℕ → List ℕ
before_dot [] = []
before_dot (c ∷ cs) = if c == dot then [] else c ∷ before_dot cs

pub after_dot : List ℕ → List ℕ
after_dot [] = []
after_dot (c ∷ cs) = if c == dot then cs else after_dot cs

-- At most `n` characters in upper case, spaces behind them up to `n`.
pub name_field : ℕ → List ℕ → List ℕ
name_field zero cs = []
name_field (suc n) [] = space ∷ name_field n []
name_field (suc n) (c ∷ cs) = toupper c ∷ name_field n cs

pub name_to_83 : List ℕ → List ℕ
name_to_83 name = name_field 8 (before_dot name) ++ name_field 3 (after_dot name)

-- At most `n` characters, up to the first space.
pub until_space : ℕ → List ℕ → List ℕ
until_space zero cs = []
until_space (suc n) [] = []
until_space (suc n) (c ∷ cs) = if c == space then [] else c ∷ until_space n cs

pub dotted : List ℕ → List ℕ
dotted [] = []
dotted (c ∷ cs) = if c == space then [] else dot ∷ until_space 3 (c ∷ cs)

pub format_83_name : List ℕ → List ℕ
format_83_name name83 = until_space 8 name83 ++ dotted (drop 8 name83)

contains : List ℕ → ℕ → Bool
contains [] c = false
contains (x ∷ xs) c = (x == c) || contains xs c

-- The characters of `<>:"/\|?*`.
abbrev illegal_chars : List ℕ
illegal_chars = 0x3C ∷ 0x3E ∷ 0x3A ∷ 0x22 ∷ 0x2F ∷ 0x5C ∷ 0x7C ∷ 0x3F ∷ 0x2A ∷ []

all_legal : List ℕ → Bool
all_legal [] = true
all_legal (c ∷ cs) = not (contains illegal_chars c) && all_legal cs

is_valid_filename : List ℕ → Bool
is_valid_filename name =
    if (length name == 0) || ltb 12 (length name) then false else all_legal name
