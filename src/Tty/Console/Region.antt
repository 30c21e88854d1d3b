-- ===== src/Tty/Console/Region.antt =====
-- What `uv_tty_clear` erases.
use lua_node.Base.{ℕ, ◌<◌, Bool, true, ◌==◌, if◌then◌else◌}
use lua_node.Base.Int.{pos}
use lua_node.Tty.Window.{ScreenInfo, Window, clear_corners}
use lua_node.Tty.Window.Bounds.{IsSane, make_real_coord_bounds}

pub clear_corners_start :
    (info : ScreenInfo) (dir : ℕ) (entire_screen : Bool) (w : Window)
    → IsSane info
    → let p = (clear_corners info dir entire_screen w).0 in
      (p.x < info.size_x) × (p.y < info.size_y)
unfolding clear_corners
clear_corners_start info dir entire w s =
    let b =
      make_real_coord_bounds info (pos 0) (dir == 0) (if entire then pos 0 else pos 0)
        (if entire then dir == 0 else true) w s in
    (b.0, b.1)
