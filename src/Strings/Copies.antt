-- ===== src/Strings/Copies.antt =====
-- `strcpy`, `strncpy` and `strcat` of kernel/string.c.
use blue_star_os.Base.{
  ℕ, zero, suc, ◌+◌, ◌-◌, ◌^◌, ◌≤◌, ◌<◌, ◌≡◌, ◌≢◌, refl, sym, ap, ◌∙◌, ◌⊎◌, inl, true, false, some,
  arith, ◌==◌, Bytes, store, blit, blit_in, blit_out, fill, fill_in, fill_out, List, [], ◌∷◌,
  length, ◌++◌,
}
use mathlib.Core.Path.{subst}
use native.Mathlib.Decide.{ℕ_discrete}
use blue_star_os.Strings.{memcpy, strcpy, copy_counted, pad, strncpy, strcat}
use blue_star_os.Strings.Blocks.{memcpy-blit}
use blue_star_os.Strings.Ends.{IsString, ends, next, moved, end_of-length}

-- A string that is somewhere else, byte for byte, is a string there.
IsString-copied :
    {m m' : Bytes} {s d : ℕ} {cs : List ℕ}
    → IsString m s cs
    → ((i : ℕ) → i ≤ length cs → m' (d + i) ≡ m (s + i))
    → IsString m' d cs
IsString-copied {m} {m'} {s} {d} (ends e) same =
    ends (ap m' (omega arith) ∙ same 0 (omega arith) ∙ ap m (omega arith) ∙ e)
IsString-copied {m} {m'} {s} {d} (next {cs = cs} ne str) same =
    let head : m' d ≡ m s = ap m' (omega arith) ∙ same 0 (omega arith) ∙ ap m (omega arith) in
    subst (λ c. IsString m' d (c ∷ cs)) head
      (next (λ z. ne (sym head ∙ z))
        (IsString-copied str
          λ i h. ap m' (omega arith) ∙ same (i + 1) (omega arith) ∙ ap m (omega arith)))

IsString-end : {m : Bytes} {s : ℕ} {cs : List ℕ} → IsString m s cs → m (s + length cs) ≡ 0
IsString-end {m} (ends e) = ap m (omega arith) ∙ e
IsString-end {m} (next ne str) = ap m (omega arith) ∙ IsString-end str

-- The string and what is written at `d`, `n` bytes, do not overlap.
abbrev Apart : ℕ → ℕ → ℕ → ℕ → Type 0
Apart d n s len = (d + n ≤ s) ⊎ (s + len < d)

-- One byte copied: the rest of the string is as it was.
rest-IsString :
    (m : Bytes) (d n s : ℕ) (cs : List ℕ)
    → IsString m (s + 1) cs
    → Apart d (suc n) s (suc (length cs))
    → IsString (store m d (m s)) (s + 1) cs
unfolding store
rest-IsString m d n s cs str apart = IsString-copied str λ i h. ground arith

strcpy-memcpy :
    (fuel d s : ℕ) (m : Bytes) (cs : List ℕ)
    → IsString m s cs
    → length cs < fuel
    → Apart d (length cs + 1) s (length cs)
    → strcpy fuel m d s ≡ some (memcpy m d s (suc (length cs)))
unfolding strcpy memcpy
strcpy-memcpy zero d s m cs str enough apart = absurd (omega arith)
strcpy-memcpy (suc fuel) d s m [] (ends e) enough apart =
    let stop : (m s == 0) ≡ true = ground arith in rw stop refl
strcpy-memcpy (suc fuel) d s m (c ∷ cs) (next ne str) enough apart =
    let on : (m s == 0) ≡ false = ground arith in
    rw on (
      strcpy-memcpy fuel (d + 1) (s + 1) (store m d (m s)) cs
        (rest-IsString m d (length cs + 1) s cs str (ground arith)) (omega arith) (ground arith))

-- A string followed by another, where its null byte stood, is one string.
IsString-joined :
    {m m' : Bytes} {d : ℕ} {ds cs : List ℕ}
    → IsString m d ds
    → IsString m' (d + length ds) cs
    → ((x : ℕ) → (x < d + length ds) ⊎ (d + length ds + length cs < x) → m' x ≡ m x)
    → IsString m' d (ds ++ cs)
IsString-joined (ends e) here same = moved (omega arith) here
IsString-joined {m} {m'} {d} {cs = cs} (next {cs = es} ne str) here same =
    let head : m' d ≡ m d = same d (inl (omega arith)) in
    subst (λ c. IsString m' d (c ∷ (es ++ cs))) head
      (next (λ z. ne (sym head ∙ z))
        (IsString-joined str (moved (omega arith) here) λ x out. same x (ground arith)))

-- With fuel above the length and room that does not overlap the string, strcpy returns: both
-- places hold the string, and no byte outside the copy and its null byte changes.
pub strcpy-IsString :
    (fuel d s : ℕ) (m : Bytes) (cs : List ℕ)
    → IsString m s cs
    → length cs < fuel
    → (d + length cs < s) ⊎ (s + length cs < d)
    → (m' : Bytes) × (strcpy fuel m d s ≡ some m')
      × IsString m' d cs
      × IsString m' s cs
      × ((x : ℕ) → (x < d) ⊎ (d + length cs < x) → m' x ≡ m x)
strcpy-IsString fuel d s m cs str enough apart =
    let n = suc (length cs) in
    let copied : (x : ℕ) → memcpy m d s n x ≡ blit m d m s n x =
      λ x. memcpy-blit n d s x m (ground arith) in
    let outside : (x : ℕ) → (x < d) ⊎ (d + length cs < x) → memcpy m d s n x ≡ m x =
      λ x out. copied x ∙ blit_out m d m s n x (ground arith) in
    (
      memcpy m d s n,
      strcpy-memcpy fuel d s m cs str enough (ground arith),
      IsString-copied str (λ i h. copied (d + i) ∙ blit_in m d m s n i (omega arith)),
      IsString-copied str (λ i h. outside (s + i) (ground arith)),
      outside,
    )

strcat_lem :
    (fuel d s : ℕ) (m : Bytes) (ds : List ℕ)
    → IsString m d ds
    → length ds < fuel
    → strcat fuel m d s ≡ strcpy fuel m (d + length ds) s
unfolding strcat
strcat_lem fuel d s m ds front enough = rw (end_of-length fuel d m ds front enough, strcat) refl

-- `strcat` with fuel above both lengths, where the string at `s` lies clear of the string at `d`
-- and of the room behind it: the two strings stand at `d` one behind the other, and no byte outside
-- the room and its null byte changes.
pub strcat-IsString :
    (fuel d s : ℕ) (m : Bytes) (ds cs : List ℕ)
    → IsString m d ds
    → IsString m s cs
    → length ds < fuel
    → length cs < fuel
    → (d + length ds + length cs < s) ⊎ (s + length cs < d)
    → (m' : Bytes) × (strcat fuel m d s ≡ some m')
      × IsString m' d (ds ++ cs)
      × ((x : ℕ) → (x < d + length ds) ⊎ (d + length ds + length cs < x) → m' x ≡ m x)
strcat-IsString fuel d s m ds cs front back enough enough' apart =
    let (m', done, here, there, same) =
      strcpy-IsString fuel (d + length ds) s m cs back enough' (ground arith) in
    (m', strcat_lem fuel d s m ds front enough ∙ done, IsString-joined front here same, same)

same_place :
    {m : Bytes} {a b a' b' : ℕ} → a ≡ a' → b ≡ b' → ◌≡◌ {A = Bytes × ℕ × ℕ} (m, a, b) (m, a', b')
same_place {m} {a} {b' = b'} p q = ap (λ (k : ℕ). (m, a, k)) q ∙ ap (λ (k : ℕ). (m, k, b')) p

-- The first loop of `strncpy` where the string ends before the count does.
copy_counted_short :
    (n d s : ℕ) (m : Bytes) (cs : List ℕ)
    → IsString m s cs
    → length cs < n
    → Apart d n s (length cs)
    → copy_counted m d s n
      ≡ (memcpy m d s (suc (length cs)), d + suc (length cs), n - suc (length cs))
unfolding copy_counted memcpy
copy_counted_short zero d s m cs str short apart = absurd (omega arith)
copy_counted_short (suc n) d s m [] (ends e) short apart =
    let stop : (m s == 0) ≡ true = ground arith in rw stop (same_place (omega arith) (omega arith))
copy_counted_short (suc n) d s m (c ∷ cs) (next ne str) short apart =
    let on : (m s == 0) ≡ false = ground arith in
    rw on (
      copy_counted_short n (d + 1) (s + 1) (store m d (m s)) cs (rest-IsString m d n s cs str apart)
        (omega arith) (ground arith)
      ∙ same_place (omega arith) (omega arith))

-- And where it does not: as many bytes as the count says, and `n` at the largest value.
copy_counted_long :
    (n d s : ℕ) (m : Bytes) (cs : List ℕ)
    → IsString m s cs
    → n ≤ length cs
    → Apart d n s (length cs)
    → copy_counted m d s n ≡ (memcpy m d s n, d + n, 2 ^ 64 - 1)
unfolding copy_counted memcpy
copy_counted_long zero d s m cs str long apart = same_place (omega arith) refl
copy_counted_long (suc n) d s m [] (ends e) long apart = absurd (omega arith)
copy_counted_long (suc n) d s m (c ∷ cs) (next ne str) long apart =
    let on : (m s == 0) ≡ false = ground arith in
    rw on (
      copy_counted_long n (d + 1) (s + 1) (store m d (m s)) cs (rest-IsString m d n s cs str apart)
        (omega arith) (ground arith)
      ∙ same_place (omega arith) refl)

pad-fill : (m : Bytes) (d n x : ℕ) → d + n ≤ 2 ^ 64 → pad m d n x ≡ fill m d 0 n x
unfolding pad fill
pad-fill m d n x room = ground arith

-- For a string shorter than n, clear of the n bytes of the target, which end inside the address
-- space, strncpy leaves there the string and null bytes behind it, and no other byte changes.
pub strncpy_short :
    (n d s : ℕ) (m : Bytes) (cs : List ℕ)
    → IsString m s cs
    → length cs < n
    → d + n ≤ 2 ^ 64
    → (d + n ≤ s) ⊎ (s + length cs < d)
    → IsString (strncpy m d s n) d cs
      × ((x : ℕ) → d + length cs ≤ x → x < d + n → strncpy m d s n x ≡ 0)
      × ((x : ℕ) → (x < d) ⊎ (d + n ≤ x) → strncpy m d s n x ≡ m x)
unfolding strncpy
strncpy_short n d s m cs str short room apart =
    let k = suc (length cs) in
    let loop = copy_counted_short n d s m cs str short apart in
    let copied : (x : ℕ) → memcpy m d s k x ≡ blit m d m s k x =
      λ x. memcpy-blit k d s x m (ground arith) in
    let padded = fill (memcpy m d s k) (d + k) 0 (n - k) in
    let inside : (i : ℕ) → i ≤ length cs → padded (d + i) ≡ m (s + i) = λ i h.
      fill_out (memcpy m d s k) (d + k) 0 (n - k) (d + i) (inl (omega arith))
      ∙ copied (d + i)
      ∙ blit_in m d m s k i (omega arith) in
    let same : (x : ℕ) → pad (memcpy m d s k) (d + k) (n - k) x ≡ padded x =
      λ x. pad-fill (memcpy m d s k) (d + k) (n - k) x (omega arith) in
    rw loop (
      IsString-copied str (λ i h. same (d + i) ∙ inside i h),
      λ x lo hi. same x ∙ elim (ℕ_discrete x (d + length cs)) [
        | yes here ↦ ap padded here ∙ inside (length cs) (omega arith) ∙ IsString-end str
        | no later ↦ fill_in (memcpy m d s k) (d + k) 0 (n - k) x (omega arith) (omega arith)
      ],
      λ x out.
          same x
          ∙ fill_out (memcpy m d s k) (d + k) 0 (n - k) x (ground arith)
          ∙ copied x
          ∙ blit_out m d m s k x (ground arith),
    )

-- For a string of more than n bytes, clear of the n + 1 bytes of the target, strncpy with the
-- count n + 1 leaves the last of the bytes that it copies, and makes every other byte of the
-- 64-bit address space null.
pub strncpy_overrun :
    (n d s : ℕ) (m : Bytes) (cs : List ℕ)
    → IsString m s cs
    → n < length cs
    → d + suc n ≤ 2 ^ 64
    → (d + suc n ≤ s) ⊎ (s + length cs < d)
    → (strncpy m d s (suc n) (d + n) ≡ m (s + n))
      × ((x : ℕ) → x < 2 ^ 64 → x ≢ d + n → strncpy m d s (suc n) x ≡ 0)
unfolding strncpy pad
strncpy_overrun n d s m cs str long room apart =
    let loop = copy_counted_long (suc n) d s m cs str (omega arith) (ground arith) in
    let last : memcpy m d s (suc n) (d + n) ≡ m (s + n) =
      memcpy-blit (suc n) d s (d + n) m (ground arith) ∙ blit_in m d m s (suc n) n (omega arith) in
    rw loop (ground (arith, last), λ x small other. ground arith)
