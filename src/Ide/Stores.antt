-- ===== src/Ide/Stores.antt =====
-- The words of the sectors that `ide_write_sectors` of kernel/drivers/ide.c gives to a controller
-- that works.
use blue_star_os.Base.{
  ℕ, zero, suc, ◌+◌, ◌-◌, ◌*◌, ◌<◌, ◌≡◌, refl, fun_ext, ap, ◌∙◌, Bool, true, false, arith, ◌==◌,
  ltb, leb, ◌&&◌, if◌then◌else◌, Bytes, load16,
}
use blue_star_os.Io.{Ports, io_wait}
use blue_star_os.Ide.{ide_data, write_words, write_sectors_from, ide_wait_drq}
use blue_star_os.Ide.Controller.{
  Ata, idle, taking, at_phase, after_taken, same_drive, put_word, IsAta,
}
use blue_star_os.Ide.Waits.{ide_wait_drq-ready}

abbrev Sectors : Type 0
Sectors = Bool → ℕ → ℕ → ℕ

-- The sectors with `k` words from the index `i` on taken from offset `at` of a buffer.
abbrev put_words : ℕ → ℕ → ℕ → Bool → ℕ → Bytes → Sectors → Sectors
put_words k i at u l buffer sectors u' l' j =
    if same_drive u u' && (l' == l) && leb i j && ltb j (i + k)
    then load16 buffer (at + 2 * (j - i))
    else sectors u' l' j

-- The same for `left` whole sectors.
abbrev pub put_sectors : ℕ → ℕ → ℕ → Bool → Bytes → Sectors → Sectors
put_sectors left l at u buffer sectors u' l' j =
    if same_drive u u' && leb l l' && ltb l' (l + left) && ltb j 256
    then load16 buffer (at + 512 * (l' - l) + 2 * j)
    else sectors u' l' j

put_words_none :
    (i at : ℕ) (u : Bool) (l : ℕ) (buffer : Bytes) (sectors : Sectors)
    → sectors ≡ put_words 0 i at u l buffer sectors
put_words_none i at u l buffer sectors = fun_ext λ u'. fun_ext λ l'. fun_ext λ j. ground arith

put_words_next :
    (k i at : ℕ) (u : Bool) (l : ℕ) (buffer : Bytes) (sectors : Sectors)
    → put_words k (i + 1) (at + 2) u l buffer (put_word u l i (load16 buffer at) sectors)
      ≡ put_words (suc k) i at u l buffer sectors
put_words_next k i at u l buffer sectors = fun_ext λ u'. fun_ext λ l'. fun_ext λ j. ground arith

put_sectors_none :
    (l at : ℕ) (u : Bool) (buffer : Bytes) (sectors : Sectors)
    → sectors ≡ put_sectors 0 l at u buffer sectors
put_sectors_none l at u buffer sectors = fun_ext λ u'. fun_ext λ l'. fun_ext λ j. ground arith

put_sectors_next :
    (left l at : ℕ) (u : Bool) (buffer : Bytes) (sectors : Sectors)
    → put_sectors left (l + 1) (at + 512) u buffer (put_words 256 0 at u l buffer sectors)
      ≡ put_sectors (suc left) l at u buffer sectors
put_sectors_next left l at u buffer sectors = fun_ext λ u'. fun_ext λ l'. fun_ext λ j. ground arith

abbrev with_disk : Sectors → Ata → Ata
with_disk sectors a = record a { sectors = sectors }

module _ {M : Type 0} ⦃ports : Ports M⦄ {delay : ℕ} (ata : IsAta ports delay) where
  -- Before the word `i`, of which `k` are left in the sector.
  abbrev before_taken : ℕ → ℕ → Bool → ℕ → ℕ → Ata → Ata
  before_taken zero i u l n a = after_taken delay u l n 255 a
  before_taken (suc k) i u l n a = at_phase 0 (taking u l (suc n) i) a

  taken_next :
      (k i : ℕ) (u : Bool) (l n : ℕ) (a : Ata)
      → suc k + i ≡ 256
      → after_taken delay u l n i a ≡ before_taken k (i + 1) u l n a
  taken_next zero i u l n a h = ap (λ j. after_taken delay u l n j a) (omega arith)
  taken_next (suc k) i u l zero a h = let e : (i == 255) ≡ false = ground arith in rw e refl
  taken_next (suc k) i u l (suc n) a h = let e : (i == 255) ≡ false = ground arith in rw e refl

  write_words-taken :
      (k i at : ℕ) (buffer : Bytes) (m : M) (a : Ata) (u : Bool) (l n : ℕ)
      → k + i ≡ 256
      → ata.view m ≡ before_taken k i u l n a
      → ata.view (write_words k at buffer m)
        ≡ after_taken delay u l n 255 (with_disk (put_words k i at u l buffer a.sectors) a)
  unfolding write_words
  write_words-taken zero i at buffer m a u l n h v =
      v
      ∙ ap (λ d. after_taken delay u l n 255 (with_disk d a))
          (put_words_none i at u l buffer a.sectors)
  write_words-taken (suc k) i at buffer m a u l n h v =
      let a1 = with_disk (put_word u l i (load16 buffer at) a.sectors) a in
      let m1 = ports.outw ide_data (load16 buffer at) m in
      write_words-taken k (i + 1) (at + 2) buffer m1 a1 u l n (omega arith)
        (ata.after_word_taken (load16 buffer at) m a u l n i v ∙ taken_next k i u l n a1 h)
      ∙ ap (λ d. after_taken delay u l n 255 (with_disk d a))
          (put_words_next k i at u l buffer a.sectors)

  abbrev before_sector : ℕ → Bool → ℕ → Ata → Ata
  before_sector zero u l a = at_phase delay idle a
  before_sector (suc left) u l a = at_phase delay (taking u l (suc left) 0) a

  sector_next :
      (left : ℕ) (u : Bool) (l : ℕ) (a : Ata)
      → after_taken delay u l left 255 a ≡ before_sector left u (l + 1) a
  sector_next zero u l a = refl
  sector_next (suc left) u l a = refl

  pub write_sectors_from-taken :
      (left l at : ℕ) (buffer : Bytes) (m : M) (a : Ata) (u : Bool)
      → delay < 100000
      → ata.view m ≡ before_sector left u l a
      → ((write_sectors_from left at buffer m).0 ≡ true)
        × (ata.view (write_sectors_from left at buffer m).1
            ≡ at_phase delay idle (with_disk (put_sectors left l at u buffer a.sectors) a))
  unfolding write_sectors_from io_wait
  write_sectors_from-taken zero l at buffer m a u d v = (
    refl,
    v ∙ ap (λ s. at_phase delay idle (with_disk s a)) (put_sectors_none l at u buffer a.sectors),
  )
  write_sectors_from-taken (suc left) l at buffer m a u d v =
      let (asked, there) = ide_wait_drq-ready ata delay (taking u l (suc left) 0) a m tt v d in
      let m1 = (ide_wait_drq m).1 in
      let a1 = with_disk (put_words 256 0 at u l buffer a.sectors) a in
      let seen = write_words-taken 256 0 at buffer m1 a u l left refl there in
      let (done, rests) =
        write_sectors_from-taken left (l + 1) (at + 512) buffer
          (io_wait (write_words 256 at buffer m1)) a1 u d
          (ata.pause _ ∙ seen ∙ sector_next left u l a1) in
      rw asked (
        done,
        rests
            ∙ ap (λ s. at_phase delay idle (with_disk s a))
                (put_sectors_next left l at u buffer a.sectors),
      )
