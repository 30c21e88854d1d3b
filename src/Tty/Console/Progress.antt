-- ===== src/Tty/Console/Progress.antt =====
-- On a console that is not being resized a message is carried out to its end.
use lua_node.Base.{
  ℕ, suc, ◌+◌, ◌≡◌, refl, Bool, true, false, ◌&&◌, ◌>>=◌, Option, none, some, List, [], ◌∷◌, ◌==◌,
  if◌then◌else◌,
}
use lua_node.Base.Int.{ℤ, pos}
use lua_node.Tty.Ansi.{
  Command, nothing, reset, save_state, restore_state, move_caret, clear, set_style,
}
use lua_node.Tty.Ansi.{Parser}
use lua_node.Tty.Ansi.Safety.{IsValid}
use lua_node.Tty.Message.{Action, write_text, call}
use lua_node.Tty.Message.Safety.{process_message-IsValid}
use lua_node.Tty.Style.{is_empty, read_style, apply_style}
use lua_node.Tty.Window.{ScreenInfo}
use lua_node.Tty.Device.{Reply, ok, fail, Console, Stream}
use lua_node.Tty.Console.{
  tty_write_text, tty_set_style, uv_tty_clear, uv_tty_save_state, checked, and_then, with_info,
  then_done, without_intensity, reset_attributes, uv_tty_move_caret, restore_attributes,
  uv_tty_restore_state, reset_loop, tty_reset, command_step, perform, perform_all, write,
}
use lua_node.Tty.Console.Retry.{
  IsCalm, Returns, Good, move_loop-Returns, clear_loop-Returns, reset_loop-Returns,
}

module _ (con : Console) (calm : IsCalm con) (tries : ℕ) where
  if-Returns :
      (b : Bool) (x y : Option (Stream con.State × Bool))
      → Returns x
      → Returns y
      → Returns (if b then x else y)
  if-Returns true x y hx hy = hx
  if-Returns false x y hx hy = hy

  checked-Returns :
      (m : Stream con.State → Option (Stream con.State × Bool)) → Good m → Good (checked con m)
  checked-Returns m g s = if-Returns (s.error == 0) (m s) (some (s, false)) (g s) tt

  and_then-Returns :
      (r : Reply (Unit {0}) × con.State)
      (next : Stream con.State → Option (Stream con.State × Bool)) (s : Stream con.State)
      → Good next
      → Returns (and_then con r next s)
  and_then-Returns (ok u, c) next s g = g (record s { console = c })
  and_then-Returns (fail e, c) next s g = tt

  with_info-Returns :
      (f : ScreenInfo → Stream con.State → Option (Stream con.State × Bool)) (s : Stream con.State)
      → ((info : ScreenInfo) → Good (f info))
      → Returns (with_info con f s)
  with_info-Returns f s g = let (info, c', e, sane) = calm.informs s.console in rw e (g info _)

  restore_attributes-Returns : (wanted : Bool) → Good (restore_attributes con wanted)
  unfolding restore_attributes
  restore_attributes-Returns wanted s =
      if-Returns (wanted && s.has_attributes) _ (some (s, true))
        (with_info-Returns
          (λ info t.
            then_done con
              (con.set_text_attribute (without_intensity info.attributes + s.saved_attributes)
                t.console)
              t)
          s (λ info t. and_then-Returns _ (λ u. some (u, true)) t (λ u. tt)))
        tt

  bind-Returns :
      (m : Option (Stream con.State × Bool))
      (f : Stream con.State × Bool → Option (Stream con.State × Bool))
      → Returns m
      → ((r : Stream con.State × Bool) → Returns (f r))
      → Returns (m >>= f)
  bind-Returns none f h g = h
  bind-Returns (some r) f h g = g r

  move_caret-Returns :
      (x : ℤ) (xr : Bool) (y : ℤ) (yr : Bool) → Good (uv_tty_move_caret con (suc tries) x xr y yr)
  unfolding uv_tty_move_caret
  move_caret-Returns x xr y yr = checked-Returns _ (move_loop-Returns con calm tries x xr y yr)

  after_move : Bool → Stream con.State × Bool → Option (Stream con.State × Bool)
  after_move wanted (t, done) = if done then restore_attributes con wanted t else some (t, false)

  after_move-Returns : (wanted : Bool) (r : Stream con.State × Bool) → Returns (after_move wanted r)
  unfolding after_move
  after_move-Returns wanted (t, true) = restore_attributes-Returns wanted t
  after_move-Returns wanted (t, false) = tt

  restore_state-Returns : (wanted : Bool) → Good (uv_tty_restore_state con (suc tries) wanted)
  unfolding uv_tty_restore_state after_move
  restore_state-Returns wanted = checked-Returns _ λ s.
      if-Returns s.has_position
        (uv_tty_move_caret con (suc tries) (pos s.saved_x) false s.saved_y false s
          >>= after_move wanted)
        (restore_attributes con wanted s)
        (bind-Returns (uv_tty_move_caret con (suc tries) (pos s.saved_x) false s.saved_y false s)
          (after_move wanted) (move_caret-Returns (pos s.saved_x) false s.saved_y false s)
          (after_move-Returns wanted))
        (restore_attributes-Returns wanted s)

  reset-Returns : Good (tty_reset con (suc tries))
  unfolding tty_reset
  reset-Returns = checked-Returns _ λ s.
      and_then-Returns (con.set_text_attribute (reset_attributes con) s.console) _ s λ t.
        and_then-Returns (con.set_cursor_position (record { x = 0; y = 0 }) t.console)
          (reset_loop con (suc tries)) t (reset_loop-Returns con calm tries)

  set_style-Returns : (args : List ℕ) → Good (tty_set_style con args)
  unfolding tty_set_style
  set_style-Returns args s = if-Returns (is_empty (read_style args)) (some (s, true)) _ tt (
      with_info-Returns
        (λ info t.
          then_done con
            (con.set_text_attribute (apply_style (read_style args) info.attributes) t.console) t)
        s (λ info t. and_then-Returns _ (λ u. some (u, true)) t (λ u. tt)))

  save_state-Returns : (attributes : Bool) → Good (uv_tty_save_state con attributes)
  unfolding uv_tty_save_state
  save_state-Returns attributes = checked-Returns _ λ s. with_info-Returns _ s (λ info t. tt)

  command_step-Returns : (c : Command) → Good (command_step con (suc tries) c)
  unfolding command_step
  command_step-Returns nothing s = tt
  command_step-Returns reset s = reset-Returns s
  command_step-Returns (save_state attributes) s = save_state-Returns attributes s
  command_step-Returns (restore_state attributes) s = restore_state-Returns attributes s
  command_step-Returns (move_caret x xr y yr) s = move_caret-Returns x xr y yr s
  command_step-Returns (clear dir entire) s =
      unfold uv_tty_clear in checked-Returns _ (clear_loop-Returns con calm tries dir entire) s
  command_step-Returns (set_style args) s = set_style-Returns args s

  perform-Returns : (a : Action) → Good (perform con (suc tries) a)
  unfolding perform
  perform-Returns (write_text units) s =
      unfold tty_write_text in
      checked-Returns (λ u. then_done con (con.write_console units u.console) u)
        (λ u.
          and_then-Returns (con.write_console units u.console) (λ v. some (v, true)) u (λ v. tt))
        s
  perform-Returns (call c) s = command_step-Returns c s

  Returns-some :
      (o : Option (Stream con.State × Bool))
      → Returns o
      → (r : Stream con.State × Bool) × (o ≡ some r)
  Returns-some none h = absurd h
  Returns-some (some r) h = (r, refl)

  perform_all-Returns :
      (actions : List Action) (s : Stream con.State)
      → (t : Stream con.State) × (perform_all con (suc tries) actions s ≡ some t)
  unfolding perform_all
  perform_all-Returns [] s = (s, refl)
  perform_all-Returns (a ∷ rest) s =
      let ((u, b), e) = Returns-some (perform con (suc tries) a s) (perform-Returns a s) in
      let (t, f) = perform_all-Returns rest u in (t, rw e f)

  -- On a console that keeps its size, every message, from every valid parser state, is carried out to
  -- its end with at most one attempt for each call: no retry loop goes round again.
  pub write-Returns :
      (p : Parser) (message : List ℕ) (s : Stream con.State)
      → IsValid p
      → (r : Parser × Stream con.State × Bool) × (write con (suc tries) p message s ≡ some r)
  unfolding write
  write-Returns p message s v =
      let ((p', actions), e, v', w) = process_message-IsValid p message v in
      let (t, f) = perform_all-Returns actions (record s { error = 0 }) in
      ((p', t, t.error == 0), rw (e, f))
