-- ===== src/Tty/Console.antt =====
-- The operations of `OutputTtyStream` that call the console (src/detail/windows/output_tty.cpp).
-- The console itself is a parameter.
pub mod Latch
pub mod Region
pub mod Retry
pub mod Progress
mod Tests
use lua_node.Base.{
  ℕ, zero, suc, ◌+◌, ◌-◌, ◌*◌, ◌/◌, ◌%◌, ◌^◌, Bool, true, false, not, ◌&&◌, Option, none, some,
  List, [], ◌∷◌, leb, ◌==◌, if◌then◌else◌, ◌>>=◌,
}
use lua_node.Base.Int.{ℤ, pos, ◌-ℤ◌}
use lua_node.Lua.{integer, Outcome, returns, raises}
use lua_node.Tty.Ansi.{
  Parser, Command, nothing, reset, save_state, restore_state, move_caret, clear, set_style,
}
use lua_node.Tty.Message.{Action, write_text, call, process_message}
use lua_node.Tty.Device.{Reply, ok, fail, Console, Stream, invalid_parameter}
use lua_node.Tty.Window.{
  Coord, ScreenInfo, update_virtual_window, make_real_coord, clear_corners, clear_count,
}
use lua_node.Tty.Style.{or_bit, and_not_bit, bit_is_set, is_empty, read_style, apply_style}

-- `& (FOREGROUND_INTENSITY | BACKGROUND_INTENSITY)`, and its complement.
abbrev intensity_of : ℕ → ℕ
intensity_of a = a / 8 % 2 * 8 + a / 128 % 2 * 128

abbrev without_intensity : ℕ → ℕ
without_intensity a = and_not_bit 8 (and_not_bit 128 a)

module _ (con : Console) where
  open con use {State}

  -- A step's new stream, and whether it returned 0. `none`: the call is still being tried again.
  abbrev pub Step : Type 0
  Step = Stream con.State → Option (Stream con.State × Bool)

  abbrev failing : ℕ → Step
  failing e s = some (record s { error = e }, false)

  -- `if (*error != ERROR_SUCCESS) return -1;`
  abbrev checked : Step → Step
  checked m s = if s.error == 0 then m s else some (s, false)

  abbrev on_info : Reply ScreenInfo × con.State → (ScreenInfo → Step) → Step
  on_info (ok info, c) f s = f info (record s { console = c })
  on_info (fail e, c) f s = failing e (record s { console = c })

  abbrev with_info : (ScreenInfo → Step) → Step
  with_info f s = on_info (con.get_info s.console) f s

  abbrev and_then : Reply (Unit {0}) × con.State → Step → Step
  and_then (ok u, c) next s = next (record s { console = c })
  and_then (fail e, c) next s = failing e (record s { console = c })

  abbrev then_done : Reply (Unit {0}) × con.State → Step
  then_done r = and_then r (λ s. some (s, true))

  -- tty_WriteTextW
  tty_write_text : List ℕ → Step
  tty_write_text units = checked λ s. then_done (con.write_console units s.console) s

  -- It is the one operation that does not look at the error first.
  tty_set_style : List ℕ → Step
  tty_set_style args s =
      if is_empty (read_style args)
      then some (s, true)
      else with_info
          (λ info t.
            then_done
              (con.set_text_attribute (apply_style (read_style args) info.attributes) t.console) t)
          s

  abbrev without_count : Reply ℕ × con.State → Reply (Unit {0}) × con.State
  without_count (ok n, c) = (ok tt, c)
  without_count (fail e, c) = (fail e, c)

  abbrev fill_attributes : ℕ → Coord → Reply ℕ × con.State → Reply (Unit {0}) × con.State
  fill_attributes attributes start (ok written, c) =
      without_count (con.fill_output_attribute attributes written start c)
  fill_attributes attributes start (fail e, c) = (fail e, c)

  -- The two fills; the second covers what the first has written. `fail` is GetLastError().
  fill : ℕ → ℕ → Coord → con.State → Reply (Unit {0}) × con.State
  fill attributes count start c =
      fill_attributes attributes start (con.fill_output_character 32 count start c)

  -- `goto retry` on ERROR_INVALID_PARAMETER, at most `tries` times.
  abbrev retrying : Step → Step → Reply (Unit {0}) × con.State → Step
  retrying again next (ok u, c) s = next (record s { console = c })
  retrying again next (fail e, c) s =
      let s' = record s { console = c } in if e == invalid_parameter then again s' else failing e s'

  pub clear_loop : ℕ → ℕ → Bool → Step
  unfolding fill
  clear_loop zero dir entire_screen s = none
  clear_loop (suc tries) dir entire_screen s =
      with_info
        (λ info t.
          let (start, end, w) = clear_corners info dir entire_screen t.window in
          let t' = record t { window = w } in
          retrying (clear_loop tries dir entire_screen) (λ u. some (u, true))
            (fill info.attributes (clear_count info start end) start t'.console) t')
        s

  uv_tty_clear : ℕ → ℕ → Bool → Step
  unfolding clear_loop
  uv_tty_clear tries dir entire_screen = checked (clear_loop tries dir entire_screen)

  uv_tty_save_state : Bool → Step
  uv_tty_save_state save_attributes = checked (
      with_info (λ info s.
        let w = update_virtual_window info s.window in
        let t = record s {
          window = w;
          saved_x = info.cursor_x;
          saved_y = pos info.cursor_y -ℤ w.offset;
          has_position = true;
        } in
        some (
          if save_attributes
              then record t {
                saved_attributes = intensity_of info.attributes;
                has_attributes = true;
              }
              else t,
          true,
        )))

  -- Where the console gives no information the error is kept, and the variable as it was.
  abbrev info_or_uninitialized :
      Reply ScreenInfo × con.State → Stream con.State → ScreenInfo × Stream con.State
  info_or_uninitialized (ok info, c) s = (info, record s { console = c })
  info_or_uninitialized (fail e, c) s = (con.uninitialized, record s { console = c; error = e })

  pub move_loop : ℕ → ℤ → Bool → ℤ → Bool → Step
  move_loop zero x x_relative y y_relative s = none
  move_loop (suc tries) x x_relative y y_relative s =
      let (info, t) = info_or_uninitialized (con.get_info s.console) s in
      let (target, w) = make_real_coord info x x_relative y y_relative t.window in
      retrying (move_loop tries x x_relative y y_relative) (λ u. some (u, true))
        (con.set_cursor_position target t.console) (record t { window = w })

  uv_tty_move_caret : ℕ → ℤ → Bool → ℤ → Bool → Step
  unfolding move_loop
  uv_tty_move_caret tries x x_relative y y_relative =
      checked (move_loop tries x x_relative y y_relative)

  restore_attributes : Bool → Step
  restore_attributes wanted s =
      if wanted && s.has_attributes
      then with_info
          (λ info t.
            then_done
              (con.set_text_attribute (without_intensity info.attributes + s.saved_attributes)
                t.console)
              t)
          s
      else some (s, true)

  uv_tty_restore_state : ℕ → Bool → Step
  uv_tty_restore_state tries wanted = checked λ s.
      if s.has_position
      then (uv_tty_move_caret tries (pos s.saved_x) false s.saved_y false s >>= λ (t, done).
          if done then restore_attributes wanted t else some (t, false))
      else restore_attributes wanted s

  -- FOREGROUND_RED | FOREGROUND_GREEN | FOREGROUND_RED, as it is written.
  reset_attributes : ℕ
  reset_attributes = or_bit 4 (or_bit 2 4)

  abbrev origin : Coord
  origin = record { x = 0; y = 0 }

  -- The virtual window moves up to the top.
  abbrev window_to_top : ScreenInfo → Step
  window_to_top info s =
      some (
        record s { window = update_virtual_window info (record s.window { offset = pos 0 }) },
        true,
      )

  pub reset_loop : ℕ → Step
  unfolding fill reset_attributes
  reset_loop zero s = none
  reset_loop (suc tries) s =
      with_info
        (λ info t.
          retrying (reset_loop tries) (window_to_top info)
            (fill reset_attributes (info.size_x * info.size_y) origin t.console) t)
        s

  tty_reset : ℕ → Step
  unfolding reset_loop
  tty_reset tries = checked λ s.
      and_then (con.set_text_attribute reset_attributes s.console)
        (λ t. and_then (con.set_cursor_position origin t.console) (reset_loop tries) t) s

  pub command_step : ℕ → Command → Step
  command_step tries nothing s = some (s, true)
  command_step tries reset s = tty_reset tries s
  command_step tries (save_state attributes) s = uv_tty_save_state attributes s
  command_step tries (restore_state attributes) s = uv_tty_restore_state tries attributes s
  command_step tries (move_caret x xr y yr) s = uv_tty_move_caret tries x xr y yr s
  command_step tries (clear dir entire_screen) s = uv_tty_clear tries dir entire_screen s
  command_step tries (set_style args) s = tty_set_style args s

  pub perform : ℕ → Action → Step
  perform tries (write_text units) s = tty_write_text units s
  perform tries (call c) s = command_step tries c s

  -- The loop goes on whatever a call returns.
  pub perform_all : ℕ → List Action → Stream con.State → Option (Stream con.State)
  perform_all tries [] s = some s
  perform_all tries (a ∷ rest) s = perform tries a s >>= λ (t, done). perform_all tries rest t

  -- ProcessMessage with its calls carried out; the flag tells whether it returns 0.
  pub write : ℕ → Parser → List ℕ → Stream con.State → Option (Parser × Stream con.State × Bool)
  write tries p message s = process_message p message >>= λ (p', actions).
      perform_all tries actions (record s { error = 0 }) >>= λ t. some (p', t, t.error == 0)

  -- GetWindowSize: the columns and then the rows; the static window is brought up to date.
  window_size : Reply ScreenInfo × con.State → Stream con.State → Outcome × Stream con.State
  window_size (ok info, c) s = (
    returns (integer info.size_x ∷ integer info.size_y ∷ []),
    record s { console = c; window = update_virtual_window info s.window },
  )
  window_size (fail e, c) s = (raises, record s { console = c })

  pub get_window_size : Stream con.State → Outcome × Stream con.State
  unfolding window_size
  get_window_size s = window_size (con.get_info s.console) s
