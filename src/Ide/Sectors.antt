-- ===== src/Ide/Sectors.antt =====
-- The words of the sectors that kernel/drivers/ide.c moves, on a controller that works.
use blue_star_os.Base.{
  ℕ, zero, suc, ◌+◌, ◌-◌, ◌*◌, ◌/◌, ◌%◌, ◌^◌, ◌<◌, ◌≡◌, refl, fun_ext, ap, ◌∙◌, Bool, true, false,
  arith, ◌==◌, ltb, leb, ◌&&◌, if◌then◌else◌, Bytes, store16,
}
use blue_star_os.Io.{Ports, io_wait}
use blue_star_os.Ide.{ide_data, read_words, read_sectors_from, ide_wait_drq}
use blue_star_os.Ide.Controller.{Ata, sending, at_phase, resting, after_sent, IsAta}
use blue_star_os.Ide.Waits.{ide_wait_drq-ready}

-- A byte of a sector, whose words are little-endian.
abbrev pub byte_of_word : (ℕ → ℕ) → ℕ → ℕ
byte_of_word words x = if x % 2 == 0 then words (x / 2) % 2 ^ 8 else words (x / 2) / 2 ^ 8 % 2 ^ 8

-- A buffer with `k` words from the index `i` on stored from offset `at` on.
abbrev pub with_words : ℕ → ℕ → ℕ → (ℕ → ℕ) → Bytes → Bytes
with_words k i at words buffer x =
    if leb at x && ltb x (at + 2 * k) then byte_of_word words (2 * i + (x - at)) else buffer x

with_words_none :
    (i at : ℕ) (words : ℕ → ℕ) (buffer : Bytes) (x : ℕ)
    → buffer x ≡ with_words 0 i at words buffer x
with_words_none i at words buffer x = ground arith

with_words_next :
    (k i at : ℕ) (words : ℕ → ℕ) (buffer : Bytes) (x : ℕ)
    → with_words k (i + 1) (at + 2) words (store16 buffer at (words i)) x
      ≡ with_words (suc k) i at words buffer x
unfolding store16
with_words_next k i at words buffer x = ground arith

-- A buffer with `left` sectors from the address `l` on stored from offset `at` on.
abbrev pub with_sectors : ℕ → ℕ → ℕ → (ℕ → ℕ → ℕ) → Bytes → Bytes
with_sectors left l at sectors buffer x =
    if leb at x && ltb x (at + 512 * left)
    then byte_of_word (sectors (l + (x - at) / 512)) ((x - at) % 512)
    else buffer x

with_sectors_none :
    (l at : ℕ) (sectors : ℕ → ℕ → ℕ) (buffer : Bytes) (x : ℕ)
    → buffer x ≡ with_sectors 0 l at sectors buffer x
with_sectors_none l at sectors buffer x = ground arith

with_sectors_next :
    (left l at : ℕ) (sectors : ℕ → ℕ → ℕ) (buffer : Bytes) (x : ℕ)
    → with_sectors left (l + 1) (at + 512) sectors (with_words 256 0 at (sectors l) buffer) x
      ≡ with_sectors (suc left) l at sectors buffer x
with_sectors_next left l at sectors buffer x = ground arith

module _ {M : Type 0} ⦃ports : Ports M⦄ {delay : ℕ} (ata : IsAta ports delay) where
  -- Before the word `i`, of which `k` are left in the sector.
  abbrev before_sent : ℕ → ℕ → Bool → ℕ → ℕ → Ata → Ata
  before_sent zero i u l n a = after_sent delay u l n 255 a
  before_sent (suc k) i u l n a = at_phase 0 (sending u l (suc n) i) a

  sent_next :
      (k i : ℕ) (u : Bool) (l n : ℕ) (a : Ata)
      → suc k + i ≡ 256
      → after_sent delay u l n i a ≡ before_sent k (i + 1) u l n a
  sent_next zero i u l n a h = ap (λ j. after_sent delay u l n j a) (omega arith)
  sent_next (suc k) i u l zero a h = let e : (i == 255) ≡ false = ground arith in rw e refl
  sent_next (suc k) i u l (suc n) a h = let e : (i == 255) ≡ false = ground arith in rw e refl

  -- What the words from `i` on do to a buffer.
  read_words-sent :
      (k i at : ℕ) (buffer : Bytes) (m : M) (a : Ata) (u : Bool) (l n : ℕ)
      → k + i ≡ 256
      → ata.view m ≡ before_sent k i u l n a
      → (ata.view (read_words k at buffer m).1 ≡ after_sent delay u l n 255 a)
        × ((x : ℕ) → (read_words k at buffer m).0 x ≡ with_words k i at (a.sectors u l) buffer x)
  unfolding read_words
  read_words-sent zero i at buffer m a u l n h v = (v, with_words_none i at (a.sectors u l) buffer)
  read_words-sent (suc k) i at buffer m a u l n h v =
      let (seen, filled) =
        read_words-sent k (i + 1) (at + 2) (store16 buffer at (ports.inw ide_data m).0)
          (ports.inw ide_data m).1 a u l n (omega arith)
          (ata.after_word_sent m a u l n i v ∙ sent_next k i u l n a h) in
      (
        seen,
        λ x.
            filled x
            ∙ rw (ata.word_sent m a u l n i v) (with_words_next k i at (a.sectors u l) buffer x),
      )

  abbrev before_sector : ℕ → Bool → ℕ → Ata → Ata
  before_sector zero u l a = resting a
  before_sector (suc left) u l a = at_phase delay (sending u l (suc left) 0) a

  sector_next :
      (left : ℕ) (u : Bool) (l : ℕ) (a : Ata)
      → after_sent delay u l left 255 a ≡ before_sector left u (l + 1) a
  sector_next zero u l a = refl
  sector_next (suc left) u l a = refl

  pub read_sectors_from-sent :
      (left l at : ℕ) (buffer : Bytes) (m : M) (a : Ata) (u : Bool)
      → delay < 100000
      → ata.view m ≡ before_sector left u l a
      → ((read_sectors_from left at buffer m).0 ≡ true)
        × ((x : ℕ)
            → (read_sectors_from left at buffer m).1 x
              ≡ with_sectors left l at (a.sectors u) buffer x)
        × (ata.view (read_sectors_from left at buffer m).2 ≡ resting a)
  unfolding read_sectors_from io_wait
  read_sectors_from-sent zero l at buffer m a u d v =
      (refl, with_sectors_none l at (a.sectors u) buffer, v)
  read_sectors_from-sent (suc left) l at buffer m a u d v =
      let (asked, there) = ide_wait_drq-ready ata delay (sending u l (suc left) 0) a m tt v d in
      let m1 = (ide_wait_drq m).1 in
      let (seen, filled) = read_words-sent 256 0 at buffer m1 a u l left refl there in
      let (done, bytes, rests) =
        read_sectors_from-sent left (l + 1) (at + 512) (read_words 256 at buffer m1).0
          (io_wait (read_words 256 at buffer m1).1) a u d
          (ata.pause _ ∙ seen ∙ sector_next left u l a) in
      rw asked (
        done,
        λ x. bytes x ∙ rw (fun_ext filled) (with_sectors_next left l at (a.sectors u) buffer x),
        rests,
      )
