-- ===== src/Interrupts.antt =====
-- kernel/idt.c and kernel/gdt.c: the tables of interrupt gates and of segments, and the dispatch of an
-- interrupt.
pub mod Gates
mod Examples
use blue_star_os.Base.{
  ℕ, zero, suc, ◌+◌, ◌*◌, Bool, Option, none, some, ◌==◌, ltb, leb, ◌&&◌, if◌then◌else◌, low_bits,
  ◌>>>◌, bit_or, bit_and,
}
use blue_star_os.Io.{Ports}

pub record IdtEntry : Type 0 where
  pub isr_low : ℕ
  pub kernel_cs : ℕ
  pub ist : ℕ
  pub attributes : ℕ
  pub isr_mid : ℕ
  pub isr_high : ℕ
  pub reserved : ℕ

-- An entry of a table replaced.
abbrev pub with_entry {ℓ} : {A : Type ℓ} → ℕ → A → (ℕ → A) → ℕ → A
with_entry at entry table i = if i == at then entry else table i

-- A gate to an address.
abbrev pub gate : ℕ → ℕ → IdtEntry
gate isr flags = record {
  isr_low = low_bits isr 16;
  kernel_cs = 0x08;
  ist = 0;
  attributes = flags;
  isr_mid = low_bits (isr >>> 16) 16;
  isr_high = low_bits (isr >>> 32) 32;
  reserved = 0;
}

idt_set_gate : ℕ → ℕ → ℕ → (ℕ → IdtEntry) → ℕ → IdtEntry
idt_set_gate vector isr flags idt = with_entry vector (gate isr flags) idt

-- The gates of `n` vectors from `i` on.
set_gates : ℕ → ℕ → (ℕ → ℕ) → (ℕ → IdtEntry) → ℕ → IdtEntry
set_gates zero i stubs idt = idt
set_gates (suc n) i stubs idt = set_gates n (i + 1) stubs (idt_set_gate i (stubs i) 0x8E idt)

-- `idt_init`, less the load of the register: a gate for each vector.
pub idt_init : (ℕ → ℕ) → (ℕ → IdtEntry) → ℕ → IdtEntry
idt_init isr_stub_table idt = set_gates 256 0 isr_stub_table idt

pub record GdtEntry : Type 0 where
  pub limit_low : ℕ
  pub base_low : ℕ
  pub base_middle : ℕ
  pub access : ℕ
  pub granularity : ℕ
  pub base_high : ℕ

pub gdt_set_gate : ℕ → ℕ → ℕ → ℕ → ℕ → (ℕ → GdtEntry) → ℕ → GdtEntry
gdt_set_gate num base limit access gran gdt =
    with_entry num
      (record {
        base_low = low_bits base 16;
        base_middle = low_bits (base >>> 16) 8;
        base_high = low_bits (base >>> 24) 8;
        limit_low = low_bits limit 16;
        granularity = low_bits (limit >>> 16) 4 + low_bits (gran >>> 4) 4 * 16;
        access = access;
      })
      gdt

-- `gdt_init`, less the load of the registers.
pub gdt_init : (ℕ → GdtEntry) → ℕ → GdtEntry
gdt_init gdt =
    gdt_set_gate 2 0 0xFFFFFFFF 0x92 0x00
      (gdt_set_gate 1 0 0xFFFFFFFF 0x9A 0xA0 (gdt_set_gate 0 0 0 0 0 gdt))

module _ {M : Type 0} ⦃ports : Ports M⦄ where
  send_eoi : ℕ → M → M
  send_eoi int_no m =
      if leb 32 int_no && leb int_no 47
      then ports.outb 0x20 0x20 (if leb 40 int_no then ports.outb 0xA0 0x20 m else m)
      else m

  -- `idt_handler`: the handler of the vector, if there is one, and the end of the interrupt. An
  -- exception without a handler stops the machine, after a dump that is left out.
  pub idt_handler : (ℕ → Option (M → M)) → ℕ → M → Option M
  idt_handler interrupt_handlers int_no m = elim (interrupt_handlers int_no) [
    | some handler ↦ some (send_eoi int_no (handler m))
    | none ↦ if ltb int_no 32 then none else some (send_eoi int_no m)
  ]
