-- ===== src/Settings.antt =====
-- The settings screen: native/src/dashboard/settings.rs. This file has the screen's data; the
-- children have the codecs of the state files, the reducer and their properties. `u8`, `u16` and
-- `u32` values are numbers, coordinates (`i32`) are integers, and each message is a constructor.
pub mod Codec
pub mod Reducer
pub mod Store
mod Examples
use retrodeck.Prelude.{ℕ, ◌+◌, Bool, ◌&&◌, List, Option, none, some}
use retrodeck.Prelude.Int.{ℤ, pos, ◌+ℤ◌, ltb_ℤ, leb_ℤ}

abbrev pub volume_default : ℕ
volume_default = 42

abbrev pub volume_step : ℕ
volume_step = 5

pub data Target : Type 0 where
  close volume_down volume_up brightness_down brightness_up terminal keymap wifi : Target

pub data Direction : Type 0 where
  previous next : Direction

pub data Cue : Type 0 where
  back previous next confirm : Cue

pub data Action : Type 0 where
  close terminal wifi : Action
  volume brightness : ℕ → Action
  keymap : List ℕ → Action

pub record Effect : Type 0 where
  pub action : Action
  pub cue : Option Cue

pub record Rect : Type 0 where
  pub x : ℤ
  pub y : ℤ
  pub w : ℕ
  pub h : ℕ

unfoldable pub contains : Rect → ℤ → ℤ → Bool
contains r x y = leb_ℤ r.x x && ltb_ℤ x (r.x +ℤ pos r.w) && leb_ℤ r.y y && ltb_ℤ y (r.y +ℤ pos r.h)

pub record Layout : Type 0 where
  pub close : Rect
  pub wifi : Rect
  pub volume_down : Rect
  pub volume_up : Rect
  pub brightness_down : Rect
  pub brightness_up : Rect
  pub terminal : Rect
  pub keymap : Rect

rect : ℕ → ℕ → ℕ → ℕ → Rect
rect x y w h = record { x = pos x; y = pos y; w = w; h = h }

pub default_layout : Layout
unfolding rect
default_layout = record {
  close = rect 1212 12 56 56;
  wifi = rect 926 20 262 108;
  volume_down = rect 108 208 104 104;
  volume_up = rect 228 208 104 104;
  brightness_down = rect 438 208 104 104;
  brightness_up = rect 558 208 104 104;
  terminal = rect 792 208 112 104;
  keymap = rect 1036 208 112 104;
}

pub record State : Type 0 where
  pub is_open : Bool
  pub selected : Target
  pub pressed : Option Target
  pub volume : ℕ
  pub last_audible_volume : ℕ
  pub brightness : ℕ
  pub keymap : List ℕ
  pub status : List ℕ
