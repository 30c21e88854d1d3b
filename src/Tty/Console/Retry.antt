-- ===== src/Tty/Console/Retry.antt =====
-- The retry loops end: on a console that is not being resized, each after one round.
use lua_node.Base.{
  ℕ, suc, ◌<◌, ◌≡◌, ◌≢◌, refl, Bool, true, Option, none, some, arith, ◌==◌, Bool-cases, inl, inr,
}
use lua_node.Base.Int.{ℤ}
use lua_node.Tty.Window.{Coord, ScreenInfo, make_real_coord}
use lua_node.Tty.Window.Bounds.{IsSane, make_real_coord_bounds}
use lua_node.Tty.Console.Region.{clear_corners_start}
use lua_node.Tty.Device.{Reply, ok, fail, Console, Stream, invalid_parameter}
use lua_node.Tty.Console.{
  fill, clear_loop, fill_attributes, retrying, window_to_top, move_loop, reset_loop,
}

abbrev InBuffer : ScreenInfo → Coord → Type 0
InBuffer info p = (p.x < info.size_x) × (p.y < info.size_y)

-- A console that keeps its size: it reports on itself, and does not refuse as a bad parameter a coordinate
-- in the buffer that it has just reported.
pub record IsCalm (con : Console) : Type 0 where
  pub informs :
      (c : con.State)
      → (info : ScreenInfo) × (c' : con.State) × (con.get_info c ≡ (ok info, c')) × IsSane info
  pub places :
      (c c' : con.State) (info : ScreenInfo) (p : Coord)
      → con.get_info c ≡ (ok info, c')
      → p.x < info.size_x
      → p.y < info.size_y
      → (con.set_cursor_position p c').0 ≢ fail invalid_parameter
  pub fills_text :
      (c c' : con.State) (info : ScreenInfo) (p : Coord) (character count : ℕ)
      → con.get_info c ≡ (ok info, c')
      → p.x < info.size_x
      → p.y < info.size_y
      → (con.fill_output_character character count p c').0 ≢ fail invalid_parameter
  pub fills_attributes :
      (c c' d : con.State) (info : ScreenInfo) (p : Coord) (character attributes count written : ℕ)
      → con.get_info c ≡ (ok info, c')
      → p.x < info.size_x
      → p.y < info.size_y
      → con.fill_output_character character count p c' ≡ (ok written, d)
      → (con.fill_output_attribute attributes written p d).0 ≢ fail invalid_parameter

-- An operation that comes to its end.
abbrev pub Returns : {S : Type 0} → Option (S × Bool) → Type 0
Returns none = ⊥
Returns (some r) = Unit {0}

abbrev pub Good : {S : Type 0} → (S → Option (S × Bool)) → Type 0
Good m = (s : _) → Returns (m s)

module _ (con : Console) (calm : IsCalm con) (tries : ℕ) where
  pub move_loop-Returns :
      (x : ℤ) (xr : Bool) (y : ℤ) (yr : Bool) (s : Stream con.State)
      → Returns (move_loop con (suc tries) x xr y yr s)
  unfolding move_loop
  move_loop-Returns x xr y yr s =
      let (info, c', e, sane) = calm.informs s.console in
      let b = make_real_coord_bounds info x xr y yr s.window sane in
      let p = (make_real_coord info x xr y yr s.window).0 in
      rw (e, move_loop) (ground (arith, calm.places s.console c' info p e b.0 b.1))

  fill-ne_invalid :
      (c c' : con.State) (info : ScreenInfo) (p : Coord) (attributes count : ℕ)
      → con.get_info c ≡ (ok info, c')
      → p.x < info.size_x
      → p.y < info.size_y
      → (fill con attributes count p c').0 ≢ fail invalid_parameter
  unfolding fill
  fill-ne_invalid c c' info p attributes count e hx hy =
      go (con.fill_output_character 32 count p c') refl
    where
      go :
          (r : Reply ℕ × con.State)
          → con.fill_output_character 32 count p c' ≡ r
          → (fill_attributes con attributes p r).0 ≢ fail invalid_parameter
      go (fail k, d) f q = calm.fills_text c c' info p 32 count e hx hy (rw f (ground arith))
      go (ok written, d) f q =
          calm.fills_attributes c c' d info p 32 attributes count written e hx hy f (ground arith)

  retrying-Returns :
      (again next : Stream con.State → Option (Stream con.State × Bool))
      → Good next
      → (r : Reply (Unit {0}) × con.State) (s : Stream con.State) → r.0 ≢ fail invalid_parameter
      → Returns (retrying con again next r s)
  retrying-Returns again next g (ok u, c) s h = g (record s { console = c })
  retrying-Returns again next g (fail e, c) s h = elim (Bool-cases (e == invalid_parameter)) [
    | inl q ↦ absurd (h (ground arith))
    | inr q ↦ rw q tt
  ]

  pub clear_loop-Returns :
      (dir : ℕ) (entire_screen : Bool) → Good (clear_loop con (suc tries) dir entire_screen)
  unfolding clear_loop
  clear_loop-Returns dir entire s =
      let (info, c', e, sane) = calm.informs s.console in
      let b = clear_corners_start info dir entire s.window sane in
      rw (e, clear_loop)
        (retrying-Returns (clear_loop con tries dir entire) (λ u. some (u, true)) (λ u. tt) _ _
          (fill-ne_invalid s.console c' info _ _ _ e b.0 b.1))

  pub reset_loop-Returns : Good (reset_loop con (suc tries))
  unfolding reset_loop
  reset_loop-Returns s =
      let (info, c', e, sane) = calm.informs s.console in
      rw (e, reset_loop)
        (retrying-Returns (reset_loop con tries) (window_to_top con info) (λ u. tt) _ _
          (fill-ne_invalid s.console c' info _ _ _ e (omega (arith, sane.wide))
            (omega (arith, sane.tall))))
