-- ===== src/Tty/Window/Bounds.antt =====
-- The window stays inside of the buffer, and coordinates inside of the window.
use lua_node.Base.{
  ℕ, ◌+◌, ◌-◌, ◌^◌, ◌≤◌, ◌<◌, ◌≡◌, refl, sym, ap, subst, Bool, arith, if◌then◌else◌,
}
use lua_node.Base.Int.{ℤ, pos, negsuc, ◌+ℤ◌, ◌-ℤ◌, ◌≤ℤ◌, ◌<ℤ◌, pos_part, neg_part, int_laws}
use lua_node.Tty.Window.{
  ScreenInfo, Window, follow_cursor, hold_inside, update_virtual_window, clip, to_short,
  make_real_coord,
}

-- What the console reports of a buffer that has a window and a cursor in it.
pub record IsSane (info : ScreenInfo) : Type 0 where
  pub wide : info.cursor_x < info.size_x
  pub tall : info.cursor_y < info.size_y
  pub window : info.window_top ≤ info.window_bottom
  pub shown : info.window_bottom < info.size_y
  pub narrow : info.size_x < 2 ^ 15
  pub short : info.size_y < 2 ^ 15

pub record IsInside (info : ScreenInfo) (w : Window) : Type 0 where
  pub starts : pos 0 ≤ℤ w.offset
  pub ends : w.offset +ℤ w.height ≤ℤ pos info.size_y
  pub high : w.height ≡ pos (info.window_bottom - info.window_top + 1)
  pub across : w.width ≡ pos info.size_x

hold_inside_bounds :
    (info : ScreenInfo) (h : ℕ) (o : ℤ)
    → h ≤ info.size_y
    → (pos 0 ≤ℤ hold_inside info (pos h) o)
      × (hold_inside info (pos h) o +ℤ pos h ≤ℤ pos info.size_y)
unfolding hold_inside ◌+ℤ◌ ◌-ℤ◌
hold_inside_bounds info h o k = ground arith

clip_bounds : (a n z : ℤ) → pos 0 <ℤ n → (a ≤ℤ clip a n z) × (clip a n z <ℤ a +ℤ n)
unfolding clip ◌+ℤ◌ ◌-ℤ◌
clip_bounds a n z h = ground arith

window_height :
    (info : ScreenInfo)
    → info.window_top ≤ info.window_bottom
    → pos info.window_bottom -ℤ pos info.window_top +ℤ pos 1
      ≡ pos (info.window_bottom - info.window_top + 1)
unfolding ◌+ℤ◌ ◌-ℤ◌
window_height info h = ground arith

-- Whatever the offset was, the recomputed window lies inside of the buffer and has the size of
-- the visible part.
pub update_virtual_window-IsInside :
    (info : ScreenInfo) (w : Window) → IsSane info → IsInside info (update_virtual_window info w)
unfolding update_virtual_window
update_virtual_window-IsInside info w s =
    let h : ℕ = info.window_bottom - info.window_top + 1 in
    let o = follow_cursor info w.offset (pos h) in
    let e = window_height info s.window in
    let (a, b) = hold_inside_bounds info h o (omega (arith, s.window, s.shown)) in
    rw e (record { starts = a; ends = b; high = refl; across = refl })

short_bounds :
    (z : ℤ) (n : ℕ)
    → pos 0 ≤ℤ z
    → z <ℤ pos n
    → n < 2 ^ 15
    → (to_short z < n) × (pos (to_short z) ≡ z)
unfolding to_short
short_bounds (pos k) n a b h = ground arith
short_bounds (negsuc k) n a b h = absurd (omega arith)

-- Where the console reports a buffer of fewer than 2^15 columns and rows that has its window and its cursor
-- inside: every coordinate that the program computes from that report, from any request and any state of the
-- virtual window, lies in the buffer and in the rows of the window.
pub make_real_coord_bounds :
    (info : ScreenInfo) (x : ℤ) (xr : Bool) (y : ℤ) (yr : Bool) (w : Window)
    → IsSane info
    → let r = make_real_coord info x xr y yr w in
      (r.0.x < info.size_x)
      × (r.0.y < info.size_y)
      × (r.1.offset ≤ℤ pos r.0.y)
      × (pos r.0.y <ℤ r.1.offset +ℤ r.1.height)
unfolding make_real_coord
make_real_coord_bounds info x xr y yr w0 s =
    let w = update_virtual_window info w0 in
    let i = update_virtual_window-IsInside info w0 s in
    let y1 = if yr then pos info.cursor_y +ℤ y else w.offset +ℤ y in
    let x1 = if xr then pos info.cursor_x +ℤ x else x in
    let (ya, yb) = clip_bounds w.offset w.height y1 (rw i.high (omega arith)) in
    let (xa, xb) = clip_bounds (pos 0) w.width x1 (rw i.across (omega (arith, s.wide))) in
    let (xs, xe) =
      short_bounds (clip (pos 0) w.width x1) info.size_x xa
        (omega (int_laws, xb, ap neg_part i.across, ap pos_part i.across)) s.narrow in
    let (ys, ye) =
      short_bounds (clip w.offset w.height y1) info.size_y (omega (int_laws, i.starts, ya))
        (omega (int_laws, i.ends, yb)) s.short in
    (
      xs,
      ys,
      subst (λ z. w.offset ≤ℤ z) (sym ye) ya,
      subst (λ z. z <ℤ w.offset +ℤ w.height) (sym ye) yb,
    )
