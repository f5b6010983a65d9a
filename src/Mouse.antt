-- ===== src/Mouse.antt =====
-- kernel/drivers/ps2_mouse.c: the packets of the mouse, and its pointer on the frame buffer.
pub mod Pointer
pub mod Packets
mod Examples
use Prim.Native.String.{String}
use blue_star_os.Base.{
  ℕ, zero, suc, ◌+◌, ◌-◌, ◌*◌, ◌/◌, ◌%◌, ◌^◌, Bool, true, false, Option, none, some, List, [], ◌∷◌,
  get_or, utf8, ◌==◌, ltb, leb, ◌&&◌, ◌||◌, not, if◌then◌else◌, u8, u32, low_bits, ◌>>>◌, bit_or,
  Bytes, store,
}
use blue_star_os.Io.{Ports}

abbrev pub mouse_data_port : ℕ
mouse_data_port = 0x60

abbrev pub mouse_status_reg : ℕ
mouse_status_reg = 0x64

abbrev pub mouse_command_reg : ℕ
mouse_command_reg = 0x64

abbrev pub cursor_w : ℕ
cursor_w = 16

abbrev pub cursor_h : ℕ
cursor_h = 24

-- The static variables: the packet so far, the buttons, and the pixels below the pointer with where
-- they are from.
pub record Mouse : Type 0 where
  pub mouse_cycle : ℕ
  pub mouse_packet : ℕ → ℕ
  pub left_button : ℕ
  pub right_button : ℕ
  pub middle_button : ℕ
  pub back_buffer : ℕ → ℕ
  pub last_back_x : ℕ
  pub last_back_y : ℕ
  pub last_back_w : ℕ
  pub last_back_h : ℕ

-- What `on_mouse_update` is called with: two displacements as 32-bit words, and the buttons.
pub record Move : Type 0 where
  pub x_rel : ℕ
  pub y_rel : ℕ
  pub left : ℕ
  pub middle : ℕ
  pub right : ℕ

-- A bit of a byte as the code keeps it, and as a test.
abbrev pub button : ℕ → ℕ → ℕ
button x k = low_bits (x >>> k) 1 * 2 ^ k

abbrev pub has : ℕ → ℕ → Bool
has x k = low_bits (x >>> k) 1 == 1

-- A displacement with the sign extended: `| 0xFFFFFF00` on a byte.
abbrev pub extended : Bool → ℕ → ℕ
extended negative byte = if negative then byte + 0xFFFFFF00 else byte

-- A byte of a packet; the third one ends it. Bits 4 and 5 of the first are the signs.
unfoldable pub mouse_byte : ℕ → Mouse → Mouse × Option Move
mouse_byte byte s =
    let packet = store s.mouse_packet s.mouse_cycle byte in
    let cycle = u8 (s.mouse_cycle + 1) in
    let flags = packet 0 in
    let done = record s {
      mouse_cycle = 0;
      mouse_packet = packet;
      left_button = button flags 0;
      right_button = button flags 1;
      middle_button = button flags 2;
    } in
    let move : Move = record {
      x_rel = extended (has flags 4) (packet 1);
      y_rel = extended (has flags 5) (packet 2);
      left = button flags 0;
      middle = button flags 2;
      right = button flags 1;
    } in
    if cycle == 3
    then (done, some move)
    else (record s { mouse_cycle = cycle; mouse_packet = packet }, none)

module _ {M : Type 0} ⦃ports : Ports M⦄ where
  -- `n` readings of the status at most, up to one on which the wait ends.
  wait_within : ℕ → (ℕ → Bool) → M → M
  wait_within zero ready m = m
  wait_within (suc n) ready m =
      let (status, m1) = ports.inb mouse_status_reg m in
      let rest = wait_within n ready m1 in if ready status then m1 else rest

  -- `mouse_wait(0)` and `mouse_wait(1)`.
  wait_to_read : M → M
  wait_to_read m = wait_within 100000 (λ status. has status 0) m

  wait_to_write : M → M
  wait_to_write m = wait_within 100000 (λ status. not (has status 1)) m

  mouse_write : ℕ → M → M
  mouse_write byte m =
      ports.outb mouse_data_port byte
        (wait_to_write (ports.outb mouse_command_reg 0xD4 (wait_to_write m)))

  mouse_read : M → ℕ × M
  mouse_read m = ports.inb mouse_data_port (wait_to_read m)

  -- A byte for the mouse, and its answer, which is not looked at.
  told : ℕ → M → M
  told byte m = (mouse_read (mouse_write byte m)).1

  -- `mouse_init`, less the entry of the handler in its table.
  mouse_init : M → M
  mouse_init m =
      let m = ports.outb mouse_command_reg 0xA8 (wait_to_write m) in
      let m = ports.outb mouse_command_reg 0x20 (wait_to_write m) in
      let (config, m) = ports.inb mouse_data_port (wait_to_read m) in
      let m = ports.outb mouse_command_reg 0x60 (wait_to_write m) in
      let m = ports.outb mouse_data_port (bit_or config 2) (wait_to_write m) in
      let m = told 0xF4 (told 100 (told 0xF3 (told 0xF6 m))) in
      ports.outb 0xA1 0xEF (ports.outb 0x21 0xF9 m)

  -- `mouse_handler`: the interrupt of the mouse, with the call of `on_mouse_update` if there is one.
  pub mouse_handler : Mouse → M → Mouse × Option Move × M
  mouse_handler s m =
      let (status, m1) = ports.inb mouse_status_reg m in
      let (byte, m2) = ports.inb mouse_data_port m1 in
      let (s', move) = mouse_byte byte s in
      if not (has status 0) || not (has status 5) then (s, none, m1) else (s', move, m2)
