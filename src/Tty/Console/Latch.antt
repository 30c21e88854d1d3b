-- ===== src/Tty/Console/Latch.antt =====
-- After an error: the comment at the head of `ProcessMessage` says that i/o stops and parsing goes on.
use lua_node.Base.{
  ℕ, ◌≡◌, ◌≢◌, ◌∙◌, refl, ap, Bool, true, false, some, List, [], ◌∷◌, arith, if_cases, Option,
}
use lua_node.Tty.Ansi.{nothing, reset, save_state, restore_state, move_caret, clear, set_style}
use lua_node.Tty.Message.{Action, write_text, call}
use lua_node.Tty.Window.{ScreenInfo}
use lua_node.Tty.Style.{is_empty, read_style, apply_style}
use lua_node.Tty.Device.{Reply, ok, fail, Console, Stream}
use lua_node.Tty.Console.{
  perform, perform_all, command_step, tty_write_text, tty_reset, tty_set_style, uv_tty_save_state,
  uv_tty_restore_state, uv_tty_move_caret, uv_tty_clear, on_info, then_done,
}

-- The changes of style among the actions.
abbrev pub style_changes : List Action → List Action
style_changes [] = []
style_changes (call (set_style args) ∷ rest) = call (set_style args) ∷ style_changes rest
style_changes (_ ∷ rest) = style_changes rest

-- A call of the console that fails does so with an error code that is not 0: for the two calls that a change of
-- style makes.
pub record FailsWithCode (con : Console) : Type 0 where
  pub informs : (c c' : con.State) (e : ℕ) → con.get_info c ≡ (fail e, c') → e ≢ 0
  pub colors :
      (word : ℕ) (c c' : con.State) (e : ℕ) → con.set_text_attribute word c ≡ (fail e, c') → e ≢ 0

-- There still is an error, and nothing but the console and the error has changed.
pub record IsLatched {State : Type 0} (s t : Stream State) : Type 0 where
  pub still : t.error ≢ 0
  pub window : t.window ≡ s.window
  pub saved_x : t.saved_x ≡ s.saved_x
  pub saved_y : t.saved_y ≡ s.saved_y
  pub saved_attributes : t.saved_attributes ≡ s.saved_attributes
  pub has_position : t.has_position ≡ s.has_position
  pub has_attributes : t.has_attributes ≡ s.has_attributes

changed-IsLatched :
    {State : Type 0} (s : Stream State) (c : State) (e : ℕ)
    → e ≢ 0
    → IsLatched s (record s { console = c; error = e })
changed-IsLatched s c e h = record {
  still = h;
  window = refl;
  saved_x = refl;
  saved_y = refl;
  saved_attributes = refl;
  has_position = refl;
  has_attributes = refl;
}

IsLatched-refl : {State : Type 0} (s : Stream State) → s.error ≢ 0 → IsLatched s s
IsLatched-refl s h = changed-IsLatched s s.console s.error h

IsLatched-trans :
    {State : Type 0} (s t u : Stream State) → IsLatched s t → IsLatched t u → IsLatched s u
IsLatched-trans s t u a b = record {
  still = b.still;
  window = b.window ∙ a.window;
  saved_x = b.saved_x ∙ a.saved_x;
  saved_y = b.saved_y ∙ a.saved_y;
  saved_attributes = b.saved_attributes ∙ a.saved_attributes;
  has_position = b.has_position ∙ a.has_position;
  has_attributes = b.has_attributes ∙ a.has_attributes;
}

module _ (con : Console) (tries : ℕ) where
  -- Every action but a change of style does nothing.
  abbrev DoesNothing : Action → Stream con.State → Type 0
  DoesNothing a s = (b : Bool) × (perform con tries a s ≡ some (s, b))

  abbrev Latches : Stream con.State → Option (Stream con.State × Bool) → Type 0
  Latches s r = (t : Stream con.State) × (b : Bool) × (r ≡ some (t, b)) × IsLatched s t

  module _ (codes : FailsWithCode con) where
    colored :
        (word : ℕ) (s : Stream con.State) (r : Reply (Unit {0}) × con.State)
        → s.error ≢ 0
        → con.set_text_attribute word s.console ≡ r
        → Latches s (then_done con r s)
    colored word s (ok u, c) h e =
        (record s { console = c }, true, refl, changed-IsLatched s c s.error h)
    colored word s (fail x, c) h e =
        let n = codes.colors word s.console c x e in
        let t = record s { console = c; error = x } in (t, false, refl, changed-IsLatched s c x n)

    informed :
        (args : List ℕ) (s : Stream con.State) (r : Reply ScreenInfo × con.State)
        → s.error ≢ 0
        → con.get_info s.console ≡ r
        → Latches s (
            on_info con r
              (λ info t.
                then_done con
                  (con.set_text_attribute (apply_style (read_style args) info.attributes) t.console)
                  t)
              s)
    informed args s (ok info, c) h e =
        let word = apply_style (read_style args) info.attributes in
        let u = record s { console = c } in
        let (t, b, d, l) = colored word u (con.set_text_attribute word c) h refl in
        (t, b, d, IsLatched-trans s u t (changed-IsLatched s c s.error h) l)
    informed args s (fail x, c) h e =
        let t = record s { console = c; error = x } in
        (t, false, refl, changed-IsLatched s c x (codes.informs s.console c x e))

    style-Latches :
        (args : List ℕ) (s : Stream con.State) → s.error ≢ 0 → Latches s (tty_set_style con args s)
    unfolding tty_set_style
    style-Latches args s h =
        if_cases (Latches s) (is_empty (read_style args)) _ _
          (λ e. (s, true, refl, IsLatched-refl s h))
          (λ e. informed args s (con.get_info s.console) h refl)

    -- What the rest of the actions does from `s`.
    abbrev Follows : List Action → Stream con.State → Type 0
    Follows actions s =
        (t : Stream con.State) × (perform_all con tries actions s ≡ some t)
        × (perform_all con tries (style_changes actions) s ≡ some t)
        × IsLatched s t

    skipped :
        (a : Action) (rest : List Action) (s : Stream con.State)
        → style_changes (a ∷ rest) ≡ style_changes rest
        → DoesNothing a s
        → Follows rest s
        → Follows (a ∷ rest) s
    unfolding perform_all
    skipped a rest s q (b, e) (t, p, f, l) =
        (t, rw e p, ap (λ x. perform_all con tries x s) q ∙ f, l)

    -- Once the error is set, the rest of a message does what its changes of style alone do, and does it to the
    -- end: no other call reaches the console. There still is an error at the end, and the window and the saved
    -- position and attributes are as they were. A call of the console that fails gives a code that is not 0.
    pub perform_all-failed :
        (actions : List Action) (s : Stream con.State) → s.error ≢ 0 → Follows actions s
    unfolding perform command_step tty_write_text tty_reset uv_tty_save_state uv_tty_restore_state
        uv_tty_move_caret uv_tty_clear perform_all
    perform_all-failed [] s h = (s, refl, refl, IsLatched-refl s h)
    perform_all-failed (write_text units ∷ rest) s h =
        skipped (write_text units) rest s refl (false, ground arith) (perform_all-failed rest s h)
    perform_all-failed (call nothing ∷ rest) s h =
        skipped (call nothing) rest s refl (true, refl) (perform_all-failed rest s h)
    perform_all-failed (call reset ∷ rest) s h =
        skipped (call reset) rest s refl (false, ground arith) (perform_all-failed rest s h)
    perform_all-failed (call (save_state attributes) ∷ rest) s h =
        skipped (call (save_state attributes)) rest s refl (false, ground arith)
          (perform_all-failed rest s h)
    perform_all-failed (call (restore_state attributes) ∷ rest) s h =
        skipped (call (restore_state attributes)) rest s refl (false, ground arith)
          (perform_all-failed rest s h)
    perform_all-failed (call (move_caret x xr y yr) ∷ rest) s h =
        skipped (call (move_caret x xr y yr)) rest s refl (false, ground arith)
          (perform_all-failed rest s h)
    perform_all-failed (call (clear dir entire) ∷ rest) s h =
        skipped (call (clear dir entire)) rest s refl (false, ground arith)
          (perform_all-failed rest s h)
    perform_all-failed (call (set_style args) ∷ rest) s h =
        let (t, b, e, l) = style-Latches args s h in
        let (u, p, f, m) = perform_all-failed rest t l.still in
        (u, rw e p, rw e f, IsLatched-trans s t u l m)
