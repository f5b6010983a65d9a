-- ===== src/Fat32/Transfer/Sector.antt =====
-- What `fat32_read` of kernel/drivers/fs/fat32.c delivers from one sector.
use blue_star_os.Base.{
  ℕ, zero, suc, ◌+◌, ◌-◌, ◌*◌, ◌/◌, ◌%◌, ◌^◌, ◌≤◌, ◌<◌, ◌≡◌, refl, ap, ◌∙◌, ◌≢◌, ◌⊎◌, inl, inr,
  Bool, true, false, ◌&&◌, ◌||◌, not, some, arith, ltb, leb, ◌==◌, if◌then◌else◌, u32, Bytes, blit,
  blit_in, blit_out,
}
use native.Mathlib.Decide.{ℕ_discrete}
use blue_star_os.Fat32.{Driver, Fs, ok, Cmd, Handle}
use blue_star_os.Fat32.Disk.{IsDisk, byte_of, read_sector-bytes}
use blue_star_os.Fat32.Table.{cluster_to_sector}
use blue_star_os.Fat32.File.{bytes_per_cluster}
use blue_star_os.Fat32.Transfer.{
  Round, next_to_read, load_sector, read_round, read_loop, fat32_read, smaller, finish_sector,
}
use blue_star_os.Fat32.Transfer.Progress.{HoldsBytes, cleared}

-- The sector of the position of a handle, and the offset there.
abbrev pub sector_at : {D : Type 0} → Fs D → Handle → ℕ
sector_at s h = u32 (
    s.partition_start
    + s.fs_info.data_start_sector
    + (h.current_cluster - 2) * s.fs_info.sectors_per_cluster
    + h.position % bytes_per_cluster s.fs_info / s.fs_info.bytes_per_sector)

cluster_to_sector-sector_at :
    {D : Type 0} (s : Fs D) (h : Handle)
    → 2 ≤ h.current_cluster
    → h.current_cluster ≤ 200000
    → u32 (
        cluster_to_sector h.current_cluster s
        + h.position % bytes_per_cluster s.fs_info / s.fs_info.bytes_per_sector)
      ≡ sector_at s h
unfolding cluster_to_sector
cluster_to_sector-sector_at s h low high =
    let inside : (ltb h.current_cluster 2 || ltb 200000 h.current_cluster) ≡ false =
      ground (arith, low, high) in
    rw inside (
      sums s.partition_start s.fs_info.data_start_sector
        ((h.current_cluster - 2) * s.fs_info.sectors_per_cluster)
        (h.position % bytes_per_cluster s.fs_info / s.fs_info.bytes_per_sector))
  where
    sums : (a b c d : ℕ) → u32 (u32 (a + u32 (b + u32 c)) + d) ≡ u32 (a + b + c + d)
    sums a b c d = omega arith

abbrev pub offset_at : {D : Type 0} → Fs D → Handle → ℕ
offset_at s h = h.position % bytes_per_cluster s.fs_info % s.fs_info.bytes_per_sector

-- A file that is open for a read of `size` bytes inside the file and inside one sector, in the
-- cluster that the handle is at. `buffered`: what the buffer holds, if it is that sector.
pub record InSector {D : Type 0} ⦃ide : Driver D⦄ (disk : IsDisk ide) (s : Fs D) (h : Handle)
    (size : ℕ) : Type 0 where
  pub ready : disk.IsReady s.drive
  pub cluster_low : 2 ≤ h.current_cluster
  pub cluster_high : h.current_cluster ≤ 200000
  pub mounted : s.fs_mounted ≡ true
  pub opened : h.is_open ≡ true
  pub is_file : h.is_directory ≡ false
  pub holds : HoldsBytes s.fs_info
  pub sector_size : s.fs_info.bytes_per_sector ≤ 512
  pub some_bytes : 0 < size
  pub in_file : h.position + size ≤ h.file_size
  pub word : h.file_size < 2 ^ 32
  pub in_sector : offset_at s h + size ≤ s.fs_info.bytes_per_sector
  pub in_cluster : (h.position % bytes_per_cluster s.fs_info ≢ 0) ⊎ (h.position ≡ 0)
  pub buffered :
      (sector_at s h ≢ h.buffer_sector)
      ⊎ ((x : ℕ) → x < 512 → h.buffer x ≡ byte_of disk s (sector_at s h) x)

finish_sector_position : (e : Bool) (h : Handle) → (finish_sector e h).position ≡ h.position
finish_sector_position true h = refl
finish_sector_position false h = refl

-- Three tests that do not hold, one after the other.
past_guards :
    {D A : Type 0} (s : Fs D) {b c d : Bool} (e f g k : Cmd D A)
    → b ≡ false
    → c ≡ false
    → d ≡ false
    → (if b then e else if c then f else if d then g else k) s ≡ k s
past_guards s e f g k p q r = rw (p, q, r) refl

module _ {D : Type 0} ⦃ide : Driver D⦄ (disk : IsDisk ide) where
  load_sector-bytes :
      (n : ℕ) (h : Handle) (s : Fs D)
      → (n ≢ h.buffer_sector) ⊎ ((x : ℕ) → x < 512 → h.buffer x ≡ byte_of disk s n x)
      → disk.IsReady s.drive
      → (b : Bytes) × (k : ℕ) × (d : D) × (load_sector n h s
          ≡ ok (true, record h { buffer = b; buffer_sector = k }) (record s { drive = d }))
        × ((x : ℕ) → x < 512 → b x ≡ byte_of disk s n x)
        × disk.IsReady d
        × ((l x : ℕ) → disk.sector d l x ≡ disk.sector s.drive l x)
  unfolding load_sector
  load_sector-bytes n h s buffered ready = elim (ℕ_discrete n h.buffer_sector) [
    | yes same ↦
        let hit : (n == h.buffer_sector) ≡ true = ground arith in
        (
          h.buffer,
          h.buffer_sector,
          s.drive,
          rw hit refl,
          elim buffered [ inl other ↦ absurd (other same) | inr bytes ↦ bytes ],
          ready,
          λ l x. refl,
        )
    | no other ↦
        let miss : (n == h.buffer_sector) ≡ false = ground arith in
        let (out, d, e, bytes, later, same) = read_sector-bytes disk n h.buffer s ready in
        (out, n, d, rw (miss, e) refl, bytes, later, same)
  ]

  read_round-bytes :
      (size : ℕ) (dest : Bytes) (h : Handle) (s : Fs D)
      → InSector disk s h size
      → (out : Bytes) × (g : Handle) × (d : D) × (read_round size 0 dest h s
          ≡ ok (Round.next size out g) (record s { drive = d }))
        × ((i : ℕ) → i < size → out i ≡ byte_of disk s (sector_at s h) (offset_at s h + i))
        × ((x : ℕ) → size ≤ x → out x ≡ dest x)
        × (g.position ≡ h.position + size)
        × disk.IsReady d
        × ((l x : ℕ) → disk.sector d l x ≡ disk.sector s.drive l x)
  unfolding read_round next_to_read
  read_round-bytes size dest h s r =
      let per = s.fs_info.bytes_per_sector in
      let divides : ((bytes_per_cluster s.fs_info == 0) || (s.fs_info.bytes_per_sector == 0))
          ≡ false =
        ground (arith, r.holds) in
      let stays : ((h.position % bytes_per_cluster s.fs_info == 0) && ltb 0 h.position) ≡ false =
        ground (arith, r.in_cluster) in
      let (b, k, d, loaded, bytes, later, same) =
        load_sector-bytes (sector_at s h) h s r.buffered r.ready in
      let place_of = cluster_to_sector-sector_at s h r.cluster_low r.cluster_high in
      let all : smaller (per - offset_at s h) (size - 0) ≡ size = ground (arith, r.in_sector) in
      let start : 0 + size ≡ size = omega arith in
      let place : u32 (h.position + size) ≡ h.position + size = omega (arith, r.in_file, r.word) in
      (
        blit dest 0 b (offset_at s h) size,
        finish_sector (offset_at s h + size == per)
            (record h { buffer = b; buffer_sector = k; position = u32 (h.position + size) }),
        d,
        rw (divides, stays, place_of, loaded, all, start) refl,
        λ i less.
            ap (blit dest 0 b (offset_at s h) size) (omega arith)
            ∙ blit_in dest 0 b (offset_at s h) size i less
            ∙ bytes (offset_at s h + i) (omega (arith, r.in_sector, r.sector_size)),
        λ x more. blit_out dest 0 b (offset_at s h) size x (inr (omega arith)),
        finish_sector_position (offset_at s h + size == per) _ ∙ place,
        later,
        same,
      )

  read_loop_end :
      (fuel size : ℕ) (out : Bytes) (g : Handle) (s : Fs D)
      → read_loop fuel size size out g s ≡ ok (ltb 0 size, out, g) s
  unfolding read_loop
  read_loop_end zero size out g s = let end : ltb size size ≡ false = ground arith in rw end refl
  read_loop_end (suc fuel) size out g s =
      let end : not (ltb size size) ≡ true = ground arith in rw end refl

  read_loop-bytes :
      (size : ℕ) (dest out : Bytes) (h g : Handle) (s t : Fs D)
      → 0 < size
      → read_round size 0 dest h s ≡ ok (Round.next size out g) t
      → read_loop size size 0 dest h s ≡ ok (true, out, g) t
  unfolding read_loop
  read_loop-bytes zero dest out h g s t more round = absurd (omega arith)
  read_loop-bytes (suc n) dest out h g s t more round =
      let go : not (ltb 0 (suc n)) ≡ false = ground arith in
      let some_bytes : ltb 0 (suc n) ≡ true = ground arith in
      rw (go, round) (read_loop_end n (suc n) out g t ∙ rw some_bytes refl)

  -- On a drive that can be read, a read inside the file and inside one sector of a mounted volume,
  -- of a handle whose buffer holds another sector or what is on the disk: it succeeds; the bytes
  -- delivered are those, from the offset of the position on, of the sector whose number is the
  -- start of the partition, plus data_start_sector, plus sectors_per_cluster for each cluster from
  -- 2 up to current_cluster, plus the sector of the position inside the cluster, counted from the
  -- start of the partition again; the rest of the buffer of the caller stays, the position moves
  -- by the size, no variable but error_msg changes, and the drive stays ready with the same
  -- sectors.
  pub fat32_read-bytes :
      (size : ℕ) (dest : Bytes) (h : Handle) (s : Fs D)
      → InSector disk s h size
      → (out : Bytes) × (g : Handle) × (d : D) × (fat32_read (some h) (some dest) size s
          ≡ ok (true, some out, some g) (record (cleared s "") { drive = d }))
        × ((i : ℕ) → i < size → out i ≡ byte_of disk s (sector_at s h) (offset_at s h + i))
        × ((x : ℕ) → size ≤ x → out x ≡ dest x)
        × (g.position ≡ h.position + size)
        × disk.IsReady d
        × ((l x : ℕ) → disk.sector d l x ≡ disk.sector s.drive l x)
  unfolding fat32_read cluster_to_sector
  fat32_read-bytes size dest h s r =
      let set : InSector disk (cleared s "") h size = record {
        ready = r.ready;
        cluster_low = r.cluster_low;
        cluster_high = r.cluster_high;
        mounted = r.mounted;
        opened = r.opened;
        is_file = r.is_file;
        holds = r.holds;
        sector_size = r.sector_size;
        some_bytes = r.some_bytes;
        in_file = r.in_file;
        word = r.word;
        in_sector = r.in_sector;
        in_cluster = r.in_cluster;
        buffered = r.buffered;
      } in
      let (out, g, d, round, bytes, rest, moved, later, same) =
        read_round-bytes size dest h (cleared s "") set in
      let loop = read_loop-bytes size dest out h g (cleared s "") _ r.some_bytes round in
      let usable : (not s.fs_mounted || not h.is_open) ≡ false =
        ground (arith, r.mounted, r.opened) in
      let more : leb h.file_size h.position ≡ false = ground (arith, r.some_bytes, r.in_file) in
      let whole : ltb h.file_size (u32 (h.position + size)) ≡ false =
        ground (arith, r.in_file, r.word) in
      (
        out,
        g,
        d,
        past_guards (cleared s "") _ _ _ _ usable r.is_file more ∙ rw (whole, loop) refl,
        bytes,
        rest,
        moved,
        later,
        same,
      )
