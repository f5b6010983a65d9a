-- ===== src/Fat32/Transfer/Progress.antt =====
-- `fat32_read` of kernel/drivers/fs/fat32.c returns on any drive.
use blue_star_os.Base.{
  ℕ, zero, suc, ◌+◌, ◌-◌, ◌%◌, ◌≤◌, ◌<◌, ◌≡◌, refl, sym, Bool, false, ◌&&◌, ◌||◌, not, Option, none,
  some, arith, ltb, leb, ◌==◌, Bytes,
}
use Prim.Native.String.{String}
use mathlib.Core.Path.{subst}
use native.Mathlib.Nat.{mod-lt}
use blue_star_os.Fat32.{Driver, Info, Fs, Cmd, pure, Handle}
use blue_star_os.Fat32.Ends.{Ends, Any, Ends-ok, Ends-and_then, Ends-if, read_sector-Ends}
use blue_star_os.Fat32.Table.Ends.{read_fat_entry-Ends}
use blue_star_os.Fat32.File.{bytes_per_cluster}
use blue_star_os.Fat32.Transfer.{
  Round, next_to_read, load_sector, read_round, read_loop, fat32_read, smaller,
}

-- A volume whose sectors and clusters hold bytes.
abbrev pub HoldsBytes : Info → Type 0
HoldsBytes i = (0 < bytes_per_cluster i) × (0 < i.bytes_per_sector)

-- A round that goes on has moved a byte.
abbrev Moves : ℕ → Round → Type 0
Moves k (Round.stop result dest handle) = Unit
Moves k (Round.next done dest handle) = k < done

abbrev pub cleared : {D : Type 0} → Fs D → String → Fs D
cleared s message = record s { error_msg = message }

module _ {D : Type 0} ⦃ide : Driver D⦄ where
  next_to_read-Ends :
      (offset : ℕ) (h : Handle) (s : Fs D)
      → Ends (Any {A = Bool × Handle}) s (next_to_read offset h s)
  unfolding next_to_read
  next_to_read-Ends offset h s =
      Ends-if s ((offset == 0) && ltb 0 h.position) _ _
        (λ _.
          Ends-and_then s _ (read_fat_entry-Ends h.current_cluster s) λ c t same q. Ends-ok t _ tt)
        (λ _. Ends-ok s _ tt)

  load_sector-Ends :
      (sector : ℕ) (h : Handle) (s : Fs D)
      → Ends (Any {A = Bool × Handle}) s (load_sector sector h s)
  unfolding load_sector
  load_sector-Ends sector h s =
      Ends-if s (sector == h.buffer_sector) _ _ (λ _. Ends-ok s _ tt)
        λ _. Ends-and_then s _ (read_sector-Ends sector h.buffer s) λ r t same q. Ends-ok t _ tt

  read_round-Ends :
      (size k : ℕ) (dest : Bytes) (h : Handle) (s : Fs D)
      → HoldsBytes s.fs_info
      → k < size
      → Ends (Moves k) s (read_round size k dest h s)
  unfolding read_round
  read_round-Ends size k dest h s (per_cluster, per_sector) more =
      let divides : ((bytes_per_cluster s.fs_info == 0) || (s.fs_info.bytes_per_sector == 0))
          ≡ false =
        ground arith in
      let offset = h.position % bytes_per_cluster s.fs_info in
      let in_sector = mod-lt offset per_sector in
      let per = s.fs_info.bytes_per_sector in
      let moved : k < k + smaller (per - offset % per) (size - k) = ground arith in
      rw divides (
        Ends-and_then s _ (next_to_read-Ends offset h s) λ (ended, g) t same q.
          Ends-if t ended _ _ (λ _. Ends-ok t _ tt)
            λ _. Ends-and_then t _ (load_sector-Ends _ g t) λ (loaded, g') u same' q'.
              Ends-if u (not loaded) _ _
                (λ _. (_, record u { error_msg = "Failed to read sector" }, refl, refl, tt))
                (λ _. Ends-ok u _ moved))

  after_round :
      (fuel size k : ℕ) (r : Round) (t : Fs D)
      → Moves k r
      → ((done : ℕ) (out : Bytes) (g : Handle)
          → k < done
          → Ends (Any {A = Bool × Bytes × Handle}) t (read_loop fuel size done out g t))
      → Ends (Any {A = Bool × Bytes × Handle}) t (
          (elim r as (λ x. Cmd D (Bool × Bytes × Handle)) [
            | Round.stop result out g ↦ pure (result, out, g)
            | Round.next done out g ↦ read_loop fuel size done out g
          ])
            t)
  after_round fuel size k (Round.stop result out g) t moves rest = Ends-ok t _ tt
  after_round fuel size k (Round.next done out g) t moves rest = rest done out g moves

  read_loop-Ends :
      (fuel size k : ℕ) (dest : Bytes) (h : Handle) (s : Fs D)
      → HoldsBytes s.fs_info
      → size ≤ k + fuel
      → Ends (Any {A = Bool × Bytes × Handle}) s (read_loop fuel size k dest h s)
  unfolding read_loop
  read_loop-Ends zero size k dest h s holds enough =
      let done : ltb k size ≡ false = ground arith in rw done (Ends-ok s _ tt)
  read_loop-Ends (suc fuel) size k dest h s holds enough =
      Ends-if s (not (ltb k size)) _ _ (λ _. Ends-ok s _ tt)
        λ more.
          Ends-and_then s _ (read_round-Ends size k dest h s holds (ground arith)) λ r t same moves.
            after_round fuel size k r t moves λ done out g less.
              read_loop-Ends fuel size done out g t (subst HoldsBytes (sym same) holds)
                (omega arith)

  -- A read of a volume whose sectors and clusters hold bytes returns, on any drive, failing ones
  -- too, and keeps the geometry: as many rounds as bytes are wanted are enough, and no division is
  -- by zero.
  pub fat32_read-returns :
      (h : Option Handle) (buffer : Option Bytes) (size : ℕ) (s : Fs D)
      → HoldsBytes s.fs_info
      → Ends (Any {A = Bool × Option Bytes × Option Handle}) s (fat32_read h buffer size s)
  unfolding fat32_read
  fat32_read-returns none buffer size s holds = (_, cleared s "Invalid parameters", refl, refl, tt)
  fat32_read-returns (some h) none size s holds =
      (_, cleared s "Invalid parameters", refl, refl, tt)
  fat32_read-returns (some h) (some dest) size s holds =
      Ends-if (cleared s "") (not s.fs_mounted || not h.is_open) _ _
        (λ _. (_, cleared s "Invalid parameters", refl, refl, tt))
        λ _.
          Ends-if (cleared s "") h.is_directory _ _
            (λ _. (_, cleared s "Cannot read from directory", refl, refl, tt))
            λ _.
              Ends-if (cleared s "") (leb h.file_size h.position) _ _
                (λ _. Ends-ok (cleared s "") _ tt)
                λ _.
                  Ends-and_then (cleared s "") _
                    (read_loop-Ends _ _ 0 dest h (cleared s "") holds (omega arith))
                    λ r t same q. Ends-ok t _ tt
