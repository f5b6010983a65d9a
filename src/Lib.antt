-- ===== src/Lib.antt =====
-- BlueStarOS: a small x86-64 kernel that boots from EFI. This library models its memory management, its
-- string library, its file system and disk driver, its shell, and the keyboard, the mouse, the graphics
-- and the terminal window.
--
-- The parts, and the files that model them:
--
-- * Pmm is kernel/pmm.c, the allocator of physical 4 KiB pages: a bitmap, a count of free pages, and
--   the initialisation from the memory map of the firmware. The static variables are the record
--   `State`; `pmm_init`, `pmm_alloc_page`, `pmm_alloc_zpage`, `pmm_alloc_blocks`, `pmm_free_page` and
--   `pmm_free_blocks` have the names of the source, and each of their loops is a function. Below Pmm:
--   Bits (bits of bytes), Count (the count of free pages, and when a state is well formed), Search (the
--   search for a page), Page (one page), Release (freeing), Runs and Blocks (several pages in a row),
--   Map, Init and Guard (initialisation), Examples.
-- * Heap is kernel/memory.c, the kernel's heap: memory with a header in front of each block. Below it:
--   Blocks, Examples.
-- * Strings is kernel/string.c, on bytes of memory: blocks and strings, with Blocks, Ends, Copies and
--   Order below it, and Strings/Numbers for numbers as text, with Numbers/Digits and Numbers/Format
--   (`sprintf`). The abstract view of a string in memory is the list of its bytes.
-- * Fat32 is kernel/drivers/fs/fat32.c, over the driver of kernel/drivers/ide.c. The driver is the
--   interface `Driver`: two calls on a type of drives that the client does not know. The static
--   variables are the record `Fs`; a function of the source is a command on it, which returns, faults
--   (a division by zero, or a loop of strncpy that runs through memory) or uses up its fuel. The
--   operations are in Names (8.3 names), Table (entries and chains of clusters), Directory, Volume
--   (mounting, label, checks), File (opening), Transfer (reading and writing), Position (seeking,
--   truncating, closing), Tree (creating, removing, renaming, copying) and Lookup. Disk states what
--   reading a drive relies on; the theorems that need it take it as a parameter, and Ide/Drive fills it
--   with the driver of kernel/drivers/ide.c. Below these: Names/Format, Table/Ends, Volume/Mount,
--   Transfer/Progress, Transfer/Sector, Transfer/Places; Ends is about commands that return on any
--   drive, Guards about the checks at the start of the public functions, and Examples has a volume.
-- * Io is kernel/io.c, the port instructions: an interface `Ports` to a machine. Ide is
--   kernel/drivers/ide.c, the disk driver over it. Below it: Controller, which states the protocol of
--   the ATA standard that the driver relies on, as an abstract state with named laws; Waits, Sectors and
--   Stores, the loops of the driver on such a controller; Disk, its two calls; Drive, the
--   driver as the file system uses it; Errors; Examples.
-- * Shell is kernel/shell.c. The static variables are the record `Shell`, with what has been printed.
--   Below it: Format (numbers and `shell_printf`), Lines (the split of a line and the commands), History
--   (the ring of rows and the arrow keys) and Input (`shell_process_char`) are the code; Texts,
--   Arguments, Invariant, Ring, Recall, Sessions and Overrun are about it.
-- * Graphics is kernel/graphics.c and Text is kernel/text.c, on a frame buffer `Screen`. Visible says
--   which pixels can be seen, and Graphics/Bounds, Text/Bounds and Text/Strings that no others are
--   drawn; Text/Decode reads UTF-8. Keyboard is kernel/drivers/keyboard.c, and Keyboard/Letters compares
--   its tables with the layout.
-- * Mouse is kernel/drivers/ps2_mouse.c: the packets and the interrupt, and Mouse/Pointer, the pointer
--   and the pixels below it. Mouse/Packets and Mouse/Pointer/Restore are about them.
-- * Interrupts is kernel/idt.c and kernel/gdt.c: the gates, the descriptors and the dispatch of an
--   interrupt. Interrupts/Gates is about the entries.
-- * Desktop is kernel/kmain.c. Console draws in its terminal window and Keys is `on_keyboard_pressed`;
--   Cursor and Session are about them. Desktop/Pointer is `on_mouse_update`, with Picture about it, and
--   Partition is `detect_fat32_partition` over the interface `Driver` of Fat32, with Found about it.
-- * Base holds what they share: words of 8, 16, 32 and 64 bits with their wrap-around, bytes of memory,
--   little-endian fields, lists, and tests.
--
-- Numbers are natural numbers, with the wrap-around of the source's type written out where the source
-- can wrap. Memory and buffers are functions from addresses to bytes.
--
-- Fuel: the loops of the allocator are counted, so none is needed. In the file system a loop along the
-- links of a chain takes fuel, since the links may form a cycle on a broken disk. Reading and writing take as many rounds
-- as bytes are asked for, and each round moves a byte at least.
--
-- A loop of the string library up to a null byte takes fuel too: one more than the length of the string
-- is enough. 32 rounds write any 32-bit number.
--
-- The waits of the disk driver count down from 100000 in the source, so that number is their fuel. The
-- loops along a string of the shell and of the text console run through a list, or through the 256
-- bytes of their array.
--
-- Not modelled: printing on the serial port; fat32_print_info, which only prints; the directory entry's
-- fields that the code never reads; the order of initialisation and the tests of the file system in
-- kernel/kmain.c; the timer, the controller of the interrupts, the page tables, the boot
-- loader. The tables of glyphs of kernel/text.c are a parameter.
--
-- An out parameter that the source leaves uninitialised is an argument of the model (`stack`).
mod Base
pub mod Pmm
pub mod Heap
pub mod Strings
pub mod Fat32
pub mod Io
pub mod Ide
pub mod Shell
pub mod Graphics
pub mod Text
pub mod Keyboard
pub mod Mouse
pub mod Interrupts
pub mod Desktop
