-- ===== src/Interrupts/Examples.antt =====
-- The table of gates of kernel/idt.c for stubs that stand 16 bytes apart.
use blue_star_os.Base.{ℕ, ◌+◌, ◌*◌, ◌/◌, ◌≡◌, ◌≢◌, arith}
use blue_star_os.Interrupts.{IdtEntry, GdtEntry, gate, idt_init, gdt_set_gate}
use blue_star_os.Interrupts.Gates.{isr_of, idt_init-isr_of, base_of, limit_of, gdt_set_gate-base_of}

abbrev stubs : ℕ → ℕ
stubs i = 0xFFFF800000101230 + i * 16

abbrev empty_table : ℕ → IdtEntry
empty_table v = gate 0 0

idt_init-isr_of_example :
    (isr_of (idt_init stubs empty_table 44) ≡ 0xFFFF8000001014F0)
    × ((idt_init stubs empty_table 44).kernel_cs ≡ 0x08)
    × ((idt_init stubs empty_table 44).attributes ≡ 0x8E)
    × ((idt_init stubs empty_table 44).reserved ≡ 0)
idt_init-isr_of_example = idt_init-isr_of stubs empty_table 44 (omega arith) (omega arith)

abbrev no_segments : ℕ → GdtEntry
no_segments i = record {
  limit_low = 0;
  base_low = 0;
  base_middle = 0;
  access = 0;
  granularity = 0;
  base_high = 0;
}

gdt_set_gate-base_of_example :
    (base_of (gdt_set_gate 1 0x12345678 0xFFFFFFFF 0x9A 0xA0 no_segments 1) ≡ 0x12345678)
    × (limit_of (gdt_set_gate 1 0x12345678 0xFFFFFFFF 0x9A 0xA0 no_segments 1) ≡ 0xFFFFF)
    × ((gdt_set_gate 1 0x12345678 0xFFFFFFFF 0x9A 0xA0 no_segments 1).granularity / 16 ≡ 10)
    × ((gdt_set_gate 1 0x12345678 0xFFFFFFFF 0x9A 0xA0 no_segments 1).access ≡ 0x9A)
    × ((other : ℕ)
        → other ≢ 1
        → gdt_set_gate 1 0x12345678 0xFFFFFFFF 0x9A 0xA0 no_segments other ≡ no_segments other)
gdt_set_gate-base_of_example =
    gdt_set_gate-base_of 1 0x12345678 0xFFFFFFFF 0x9A 0xA0 no_segments (omega arith) (omega arith)
