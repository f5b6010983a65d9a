-- ===== src/Desktop.antt =====
-- kernel/kmain.c: the terminal window, the keys typed into it, the mouse pointer, and the search for
-- a partition.
pub mod Console
pub mod Keys
pub mod Partition
pub mod Pointer
pub mod Cursor
pub mod Session
mod Examples
use blue_star_os.Base.{ℕ, ◌+◌, ◌-◌, Bool, Option, Bytes}
use blue_star_os.Graphics.{Screen}

-- `terminal_t`, with the frame buffer behind it.
pub record Terminal : Type 0 where
  pub screen : Screen
  pub x : ℕ
  pub y : ℕ
  pub w : ℕ
  pub h : ℕ
  pub cursor_x : ℕ
  pub cursor_y : ℕ
  pub bg_color : ℕ
  pub text_color : ℕ

-- `g_term` at the start.
abbrev pub g_term : Screen → Terminal
g_term screen = record {
  screen = screen;
  x = 80;
  y = 80;
  w = 600;
  h = 400;
  cursor_x = 8;
  cursor_y = 8;
  bg_color = 0x000000;
  text_color = 0x00FF00;
}

-- The terminal with `g_input_buffer` and `g_input_index`.
pub record Desk : Type 0 where
  pub term : Terminal
  pub input_buffer : Bytes
  pub input_index : ℕ
