-- ===== src/Tty/Console/Tests.antt =====
-- A console of 80 columns and 25 rows that keeps its attribute word, the styles and the window, on
-- concrete inputs.
use lua_node.Base.{ap, ℕ, ◌≡◌, ◌<◌, ◌≢◌, refl, ◌++◌, some, List, [], ◌∷◌, arith, true, false, Bool}
use lua_node.Base.Int.{pos, neg, negsuc, ◌≤ℤ◌, ◌<ℤ◌, ◌+ℤ◌}
use lua_node.Tty.Ansi.{Parser, new_parser, move_caret, save_state, clear, reset, set_style}
use lua_node.Tty.Ansi.Safety.{IsValid}
use lua_node.Tty.Message.{Action, write_text, call}
use lua_node.Tty.Window.{ScreenInfo, initial_window, make_real_coord}
use lua_node.Tty.Window.Bounds.{IsSane, make_real_coord_bounds}
use lua_node.Tty.Style.{Style, read_style, apply_style}
use lua_node.Tty.Style.Fields.{Fields, color_or, bright_or, apply_style-Fields}
use lua_node.Tty.Style.Compose.{apply_style-append}
use lua_node.Tty.Device.{Reply, Console, ok, fail, Stream}
use lua_node.Tty.Console.{perform_all, write}
use lua_node.Tty.Console.Latch.{FailsWithCode, IsLatched, perform_all-failed}
use lua_node.Tty.Console.Retry.{IsCalm}
use lua_node.Tty.Console.Progress.{write-Returns}

abbrev screen : ScreenInfo
screen = record {
  size_x = 80;
  size_y = 25;
  cursor_x = 3;
  cursor_y = 24;
  window_top = 5;
  window_bottom = 24;
  attributes = 7;
}

screen-IsSane : IsSane screen
screen-IsSane = ground arith

abbrev steady : Console
steady = record {
  State = List ℕ;
  get_info = λ c. (ok screen, c);
  set_text_attribute = λ word c. (ok tt, word ∷ c);
  set_cursor_position = λ p c. (ok tt, c);
  fill_output_character = λ character count p c. (ok count, c);
  fill_output_attribute = λ word count p c. (ok count, c);
  write_console = λ units c. (ok tt, c);
  uninitialized = screen;
}

ok≢fail : {A : Type 0} (a : A) (e : ℕ) → ok a ≢ fail e
ok≢fail a e p = ground (arith, p)

steady-IsCalm : IsCalm steady
steady-IsCalm = record {
  informs = λ c. (screen, c, refl, screen-IsSane);
  places = λ c c' info p e h k. ok≢fail tt 87;
  fills_text = λ c c' info p character count e h k. ok≢fail count 87;
  fills_attributes = λ c c' d info p character word count written e h k f. ok≢fail written 87;
}

make_real_coord_bounds_example :
    let r = make_real_coord screen (pos 200) true (negsuc 40) true initial_window in
    (r.0.x < 80)
    × (r.0.y < 25)
    × (r.1.offset ≤ℤ pos r.0.y)
    × (pos r.0.y <ℤ r.1.offset +ℤ r.1.height)
make_real_coord_bounds_example =
    make_real_coord_bounds screen (pos 200) true (negsuc 40) true initial_window screen-IsSane

-- Bold red on a blue ground.
abbrev bold_red : Style
bold_red = record {
  fg_color = some 1;
  bg_color = some 4;
  fg_bright = some true;
  bg_bright = some false;
}

apply_style-Fields_example :
    Fields
      (apply_style bold_red 7)
      (color_or (some 1) 7)
      (color_or (some 4) 0)
      (bright_or (some true) 0)
      (bright_or (some false) 0)
      0
apply_style-Fields_example = apply_style-Fields bold_red 7

apply_style-append_example :
    apply_style (read_style ((1 ∷ 31 ∷ []) ++ (44 ∷ []))) 7
    ≡ apply_style (read_style (44 ∷ [])) (apply_style (read_style (1 ∷ 31 ∷ [])) 7)
apply_style-append_example = apply_style-append 1 (31 ∷ []) 44 [] 7

abbrev stream : Stream (List ℕ)
stream = record {
  saved_x = 0;
  saved_y = pos 0;
  saved_attributes = 0;
  has_position = false;
  has_attributes = false;
  window = initial_window;
  error = 0;
  console = [];
}

abbrev broken : Stream (List ℕ)
broken = record stream { error = 6 }

abbrev calls : List Action
calls =
    write_text (65 ∷ [])
    ∷ call (save_state true)
    ∷ call (set_style (31 ∷ []))
    ∷ call (clear 0 true)
    ∷ call (move_caret (pos 0) true (neg 1) true)
    ∷ call reset
    ∷ []

ok-eq-fail :
    {A B : Type 0} {P : Type 0} (a : A) (e : ℕ) (b c : B)
    → ◌≡◌ {A = Reply A × B} (ok a, b) (fail e, c)
    → P
ok-eq-fail a e b c p = absurd (ok≢fail a e (ap (λ r. r.0) p))

steady-FailsWithCode : FailsWithCode steady
steady-FailsWithCode = record {
  informs = λ c c' e p. ok-eq-fail screen e c c' p;
  colors = λ word c c' e p. ok-eq-fail tt e (word ∷ c) c' p;
}

perform_all-failed_example :
    (t : Stream (List ℕ)) × (perform_all steady 3 calls broken ≡ some t)
    × (perform_all steady 3 (call (set_style (31 ∷ [])) ∷ []) broken ≡ some t)
    × IsLatched broken t
perform_all-failed_example =
    perform_all-failed steady 3 steady-FailsWithCode calls broken (λ e. absurd (omega (arith, e)))

abbrev fresh : Parser
fresh = new_parser 0 (0 ∷ 0 ∷ 0 ∷ 0 ∷ [])

fresh-IsValid : IsValid fresh
fresh-IsValid = ground arith

-- `ESC [ 2 J A`
write-Returns_example :
    (r : Parser × Stream (List ℕ) × Bool) × (write steady 1 fresh
        (27 ∷ 91 ∷ 50 ∷ 74 ∷ 65 ∷ [])
        stream
      ≡ some r)
write-Returns_example =
    write-Returns steady steady-IsCalm 0 fresh (27 ∷ 91 ∷ 50 ∷ 74 ∷ 65 ∷ []) stream fresh-IsValid
