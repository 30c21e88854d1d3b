-- ===== src/Timer/Repeat.antt =====
-- How a repeating timer stops by what its callback returns.
use lua_node.Base.{◌∙◌, ◌≡◌, ◌≢◌, refl, true, Option, some, List, [], ◌∷◌, ap}
use lua_node.Lua.{top_of, Value, nil, self, boolean, integer, string, message, other}
use lua_node.Timer.{
  Timer, requests, Script, on_timeout, remove_at, run_callback, WaitError, no_error, aborted,
  other_error, fires, turn,
}

-- What a callback returned last, when it is a value and not the timer, takes the timer's place: the end of
-- the next wait calls no callback, whatever it would do, starts no wait, and leaves the timer as it is but
-- for a cancellation.
lost_callback :
    (v : Value) (error : WaitError) (script : Option Script) (t : Timer)
    → v ≢ self
    → let u = (on_timeout v error script t).0 in
      (u.waits ≡ t.waits) × (u.after ≡ t.after) × (u.repeats ≡ t.repeats)
unfolding on_timeout
lost_callback self error script t n = absurd (n refl)
lost_callback nil aborted script t n = (refl, refl, refl)
lost_callback nil no_error script t n = (refl, refl, refl)
lost_callback nil other_error script t n = (refl, refl, refl)
lost_callback (boolean b) aborted script t n = (refl, refl, refl)
lost_callback (boolean b) no_error script t n = (refl, refl, refl)
lost_callback (boolean b) other_error script t n = (refl, refl, refl)
lost_callback (integer b) aborted script t n = (refl, refl, refl)
lost_callback (integer b) no_error script t n = (refl, refl, refl)
lost_callback (integer b) other_error script t n = (refl, refl, refl)
lost_callback (string x) aborted script t n = (refl, refl, refl)
lost_callback (string x) no_error script t n = (refl, refl, refl)
lost_callback (string x) other_error script t n = (refl, refl, refl)
lost_callback (message b) aborted script t n = (refl, refl, refl)
lost_callback (message b) no_error script t n = (refl, refl, refl)
lost_callback (message b) other_error script t n = (refl, refl, refl)
lost_callback (other b) aborted script t n = (refl, refl, refl)
lost_callback (other b) no_error script t n = (refl, refl, refl)
lost_callback (other b) other_error script t n = (refl, refl, refl)

fires_first :
    (v : Value) (error : WaitError) (script : Option Script) (rest : List Value) (t : Timer)
    → t.waits ≡ v ∷ rest
    → turn (fires 0 error script) t ≡ (on_timeout v error script (record t { waits = rest })).0
unfolding turn remove_at
fires_first v error script rest t w = rw w refl

run_callback_idle :
    (script : Script) (rest : List Value) (t : Timer)
    → t.repeats ≡ true
    → script.calls ≡ []
    → (run_callback script (record t { waits = rest })).waits ≡ top_of self script.results ∷ rest
unfolding run_callback requests
run_callback_idle script rest t r c = rw (c, r) refl

-- A repeating timer whose callback calls no method of the timer and returns a last value that is not the
-- timer: the wait that follows the call ends without a call of the callback and without a new wait,
-- whatever its result and the callback are then, so that the timer is left with its other waits alone.
repeating_stops :
    (script : Script) (then_script : Option Script) (error : WaitError) (rest : List Value)
    (t : Timer)
    → t.repeats ≡ true
    → t.waits ≡ self ∷ rest
    → script.calls ≡ []
    → top_of self script.results ≢ self
    → let u = turn (fires 0 no_error (some script)) t in
      (u.waits ≡ top_of self script.results ∷ rest)
      × ((turn (fires 0 error then_script) u).waits ≡ rest)
unfolding on_timeout
repeating_stops script then_script error rest t r w c n =
    let u = turn (fires 0 no_error (some script)) t in
    let v = top_of self script.results in
    let e : u.waits ≡ v ∷ rest =
      ap (λ (x : Timer). x.waits) (fires_first self no_error (some script) rest t w)
      ∙ run_callback_idle script rest t r c in
    (
      e,
      ap (λ (x : Timer). x.waits) (fires_first v error then_script rest u e)
          ∙ (lost_callback v error then_script (record u { waits = rest }) n).0,
    )
