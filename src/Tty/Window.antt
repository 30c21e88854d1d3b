-- ===== src/Tty/Window.antt =====
-- The virtual window and its coordinates: `uv_tty_update_virtual_window`, `uv_tty_make_real_coord` and
-- the region of `uv_tty_clear`, of src/detail/windows/output_tty.cpp. The numbers that the console
-- reports are sizes and positions, below 2^15.
pub mod Bounds
use lua_node.Base.{
  ℕ, ◌+◌, ◌-◌, ◌*◌, ◌%◌, ◌^◌, Bool, true, false, not, ◌&&◌, leb, ◌==◌, if◌then◌else◌,
}
use lua_node.Base.Int.{ℤ, pos, negsuc, ◌+ℤ◌, ◌-ℤ◌, ltb_ℤ, pos_part, neg_part}

-- COORD
pub record Coord : Type 0 where
  pub x : ℕ
  pub y : ℕ

-- CONSOLE_SCREEN_BUFFER_INFO
pub record ScreenInfo : Type 0 where
  pub size_x : ℕ
  pub size_y : ℕ
  pub cursor_x : ℕ
  pub cursor_y : ℕ
  pub window_top : ℕ
  pub window_bottom : ℕ
  pub attributes : ℕ

-- The static variables `uv_tty_virtual_*`.
pub record Window : Type 0 where
  pub offset : ℤ
  pub height : ℤ
  pub width : ℤ

pub initial_window : Window
initial_window = record { offset = negsuc 0; height = negsuc 0; width = negsuc 0 }

abbrev is_unset : ℤ → Bool
is_unset z = leb (pos_part z + 1) (neg_part z) && leb (neg_part z) (pos_part z + 1)

-- The offset row that is kept, before it is held inside of the buffer.
follow_cursor : ScreenInfo → ℤ → ℤ → ℤ
follow_cursor info offset height =
    let lowest = pos info.cursor_y -ℤ height +ℤ pos 1 in
    if is_unset offset then pos info.cursor_y else if ltb_ℤ offset lowest then lowest else offset

hold_inside : ScreenInfo → ℤ → ℤ → ℤ
hold_inside info height offset =
    let o =
      if ltb_ℤ (pos info.size_y) (offset +ℤ height) then pos info.size_y -ℤ height else offset in
    if ltb_ℤ o (pos 0) then pos 0 else o

unfoldable pub update_virtual_window : ScreenInfo → Window → Window
unfolding follow_cursor hold_inside
update_virtual_window info w =
    let height = pos info.window_bottom -ℤ pos info.window_top +ℤ pos 1 in
    record {
      offset = hold_inside info height (follow_cursor info w.offset height);
      height = height;
      width = pos info.size_x;
    }

-- `first` and `count` are the bounds of a clipped coordinate.
clip : ℤ → ℤ → ℤ → ℤ
clip first count z =
    if ltb_ℤ z first
    then first
    else if not (ltb_ℤ z (first +ℤ count))
    then first +ℤ count -ℤ pos 1
    else z

-- (unsigned short) z
to_short : ℤ → ℕ
to_short (pos n) = n % 2 ^ 16
to_short (negsuc n) = (2 ^ 16 - 1) - n % 2 ^ 16

unfoldable pub make_real_coord : ScreenInfo → ℤ → Bool → ℤ → Bool → Window → Coord × Window
unfolding clip to_short
make_real_coord info x x_relative y y_relative w0 =
    let w = update_virtual_window info w0 in
    let y1 = if y_relative then pos info.cursor_y +ℤ y else w.offset +ℤ y in
    let y2 = clip w.offset w.height y1 in
    let x1 = if x_relative then pos info.cursor_x +ℤ x else x in
    let x2 = clip (pos 0) w.width x1 in (record { x = to_short x2; y = to_short y2 }, w)

-- The two corners that `uv_tty_clear` asks for: a column or row, and whether it is relative.
unfoldable pub clear_corners : ScreenInfo → ℕ → Bool → Window → Coord × Coord × Window
clear_corners info dir entire_screen w0 =
    let x1 = pos 0 in
    let x1r = dir == 0 in
    let x2 = if dir == 1 then pos 0 else pos 0xffff in
    let x2r = dir == 1 in
    let y1 = if entire_screen then x1 else pos 0 in
    let y1r = if entire_screen then x1r else true in
    let y2 = if entire_screen then x2 else pos 0 in
    let y2r = if entire_screen then x2r else true in
    let (start, w1) = make_real_coord info x1 x1r y1 y1r w0 in
    let (end, w2) = make_real_coord info x2 x2r y2 y2r w1 in (start, end, w2)

-- The number of cells between two corners, a DWORD.
unfoldable pub clear_count : ScreenInfo → Coord → Coord → ℕ
clear_count info start end =
    (2 ^ 32 + (end.y * info.size_x + end.x) - (start.y * info.size_x + start.x) + 1) % 2 ^ 32
