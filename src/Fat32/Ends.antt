-- ===== src/Fat32/Ends.antt =====
-- Commands of kernel/drivers/fs/fat32.c that return, on any drive, and keep the geometry.
use blue_star_os.Base.{ℕ, ◌+◌, ◌≡◌, refl, ◌∙◌, Bool, true, false, if◌then◌else◌, u32, Bytes}
use blue_star_os.Fat32.{Driver, Fs, Run, ok, Cmd, and_then, read_sector}

-- No condition on the result.
abbrev pub Any : {A : Type 0} → A → Type 0
Any a = Unit {0}

module _ {D : Type 0} where
  -- The command returns, with a result of which `Q` holds, and the geometry is as before.
  abbrev pub Ends : {A : Type 0} → (A → Type 0) → Fs D → Run D A → Type 0
  Ends {A} Q s r = (a : A) × (t : Fs D) × (r ≡ ok a t) × (t.fs_info ≡ s.fs_info) × Q a

  pub Ends-ok : {A : Type 0} {Q : A → Type 0} (s : Fs D) (a : A) → Q a → Ends Q s (ok a s)
  Ends-ok s a q = (a, s, refl, refl, q)

  pub Ends-and_then :
      {A B : Type 0} {Q : A → Type 0} {R : B → Type 0} (s : Fs D) {m : Run D A} (k : A → Cmd D B)
      → Ends Q s m
      → ((a : A) (t : Fs D) → t.fs_info ≡ s.fs_info → Q a → Ends R t (k a t))
      → Ends R s (and_then m k)
  Ends-and_then s k (a, t, e, same, q) next =
      let (b, u, f, same', r) = next a t same q in (b, u, rw e f, same' ∙ same, r)

  pub Ends-if :
      {A : Type 0} {Q : A → Type 0} (s : Fs D) (b : Bool) (f g : Cmd D A)
      → (b ≡ true → Ends Q s (f s))
      → (b ≡ false → Ends Q s (g s))
      → Ends Q s ((if b then f else g) s)
  Ends-if s true f g p q = p refl
  Ends-if s false f g p q = q refl

module _ {D : Type 0} ⦃ide : Driver D⦄ where
  pub read_sector-Ends :
      (n : ℕ) (buf : Bytes) (s : Fs D) → Ends (Any {A = Bool × Bytes}) s (read_sector n buf s)
  unfolding read_sector
  read_sector-Ends n buf s =
      let (done, out, drive) = ide.read_sectors (u32 (s.partition_start + n)) buf s.drive in
      ((done, out), record s { drive = drive }, refl, refl, tt)
