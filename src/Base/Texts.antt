-- ===== src/Base/Texts.antt =====
-- The bytes of a string literal, and of a string in a character array.
use Prim.Native.Nat.{ℕ, zero, suc, ◌+◌, ◌/◌, ◌%◌, ◌^◌}
use Prim.Native.String.{String}
use Prim.Native.Char.{code}
use mathlib.Core.List.{List, [], ◌∷◌, ◌++◌}
use blue_star_os.Base.Tests.{ltb, ◌==◌, if◌then◌else◌}
use blue_star_os.Base.Buffers.{Bytes, store}

-- The bytes of a character in UTF-8, below 2 ^ 16.
abbrev pub utf8_of : ℕ → List ℕ
utf8_of c =
    if ltb c 0x80
    then c ∷ []
    else if ltb c 0x800
    then (0xC0 + c / 2 ^ 6) ∷ (0x80 + c % 2 ^ 6) ∷ []
    else (0xE0 + c / 2 ^ 12) ∷ (0x80 + c / 2 ^ 6 % 2 ^ 6) ∷ (0x80 + c % 2 ^ 6) ∷ []

abbrev pub utf8 : String → List ℕ
utf8 String.[] = []
utf8 (String.◌∷◌ c s) = utf8_of (code c) ++ utf8 s

-- The bytes from `at` on up to a null byte, among `n` at most.
unfoldable pub text_in : ℕ → Bytes → ℕ → List ℕ
text_in zero m at = []
text_in (suc n) m at = let rest = text_in n m (at + 1) in if m at == 0 then [] else m at ∷ rest

-- A string with its null byte, written at `at`.
unfoldable pub write_text : List ℕ → Bytes → ℕ → Bytes
write_text [] m at = store m at 0
write_text (c ∷ cs) m at = write_text cs (store m at c) (at + 1)
