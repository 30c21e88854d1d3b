-- ===== src/Timer.antt =====
-- `LuaNode::Timer` (src/luanode_timer.h, src/luanode_timer.cpp). The wait of the deadline timer is
-- Boost.Asio's: the model keeps the list of references whose handlers are due, each with the value
-- that it stands for, and the environment says which one fires.
pub mod Waits
pub mod Repeat
mod Tests
use lua_node.Base.{
  ℕ, zero, suc, ◌+◌, Bool, true, false, Option, none, some, List, [], ◌∷◌, ◌==◌, if◌then◌else◌,
}
use lua_node.Lua.{
  top_of, Value, nil, self, boolean, integer, string, message, other, Outcome, returns, raises,
}

-- `started` tells whether `m_timer` is set. `waits` holds, for each wait in flight, the value of the
-- registry that its handler will fetch; `after` is in milliseconds.
pub record Timer : Type 0 where
  pub started : Bool
  pub repeats : Bool
  pub after : ℕ
  pub waits : List Value
  pub cancels : ℕ

unfoldable pub new_timer : Timer
new_timer = record { started = false; repeats = false; after = 0; waits = []; cancels = 0 }

abbrev wait_on : Value → Timer → Timer
wait_on v t = record t { waits = v ∷ t.waits }

-- `repeat` is the second number; `m_after` and `m_repeats` are set before the check.
unfoldable pub timer_start : Option ℕ → Option ℕ → Timer → Timer × Outcome
timer_start none interval t = (t, raises)
timer_start (some after) none t = (record t { after = after }, raises)
timer_start (some after) (some interval) t =
    let u = record t { after = after; repeats = if interval == 0 then t.repeats else true } in
    if t.started then (u, raises) else (wait_on self (record u { started = true }), returns [])

abbrev cancel : Timer → Timer
cancel t = record t { cancels = t.cancels + 1 }

unfoldable pub timer_stop : Timer → Timer × Outcome
timer_stop t = (if t.started then cancel t else t, returns [])

-- The argument, a number, or absent. Without one a new timer has 0 in the place of the delay and
-- nothing in the place of the interval.
unfoldable pub timer_again : Option ℕ → Timer → Timer × Outcome
unfolding timer_start
timer_again arg t = if t.started then rearm arg t else start_new arg t
  where
    rearm : Option ℕ → Timer → Timer × Outcome
    rearm none u = (wait_on self (if u.repeats then u else cancel u), returns [])
    rearm (some after) u =
        (wait_on self (record (if u.repeats then u else cancel u) { after = after }), returns [])

    start_new : Option ℕ → Timer → Timer × Outcome
    start_new none u = timer_start (some 0) none u
    start_new (some after) u = timer_start (some after) (some 0) u

-- The error of a wait: none, `operation_aborted`, or another.
pub data WaitError : Type 0 where
  no_error aborted other_error : WaitError

pub data Request : Type 0 where
  start : Option ℕ → Option ℕ → Request
  stop : Request
  again : Option ℕ → Request

unfoldable pub request : Request → Timer → Timer × Outcome
unfolding timer_start timer_stop timer_again
request (start after interval) t = timer_start after interval t
request stop t = timer_stop t
request (again arg) t = timer_again arg t

unfoldable pub requests : List Request → Timer → Timer
requests [] t = t
requests (r ∷ rest) t = requests rest (request r t).0

-- What Lua does in the callback: the methods of the timer that it calls, and what it returns.
pub record Script : Type 0 where
  pub calls : List Request
  pub results : List Value

run_callback : Script → Timer → Timer
run_callback script t =
    let u = requests script.calls t in
    if u.repeats then wait_on (top_of self script.results) u else u

-- OnTimeout, for a handler whose reference stands for `target`. The callback is a field of that value:
-- the timer object has the field that Lua gave it, a string or an object without it has none, and of
-- `nil`, a Boolean or a number no field can be read, which raises an error in the event loop.
unfoldable pub on_timeout : Value → WaitError → Option Script → Timer → Timer × Outcome
unfolding run_callback
on_timeout target aborted script t = (t, returns [])
on_timeout self _ none t = (cancel t, returns [])
on_timeout self _ (some script) t = (run_callback script t, returns [])
on_timeout nil _ script t = (t, raises)
on_timeout (boolean _) _ script t = (t, raises)
on_timeout (integer _) _ script t = (t, raises)
on_timeout (string _) _ script t = (cancel t, returns [])
on_timeout (message _) _ script t = (cancel t, returns [])
on_timeout (other _) _ script t = (cancel t, returns [])

remove_at : ℕ → List Value → Option (Value × List Value)
remove_at n [] = none
remove_at zero (v ∷ vs) = some (v, vs)
remove_at (suc n) (v ∷ vs) = elim (remove_at n vs) [ none ↦ none | some r ↦ some (r.0, v ∷ r.1) ]

-- One turn of the event loop: a method call, or the end of one of the waits.
pub data Turn : Type 0 where
  lua_calls : Request → Turn
  fires : ℕ → WaitError → Option Script → Turn

pub turn : Turn → Timer → Timer
turn (lua_calls r) t = (request r t).0
turn (fires n error script) t = elim (remove_at n t.waits) [
  | none ↦ t
  | some r ↦ (on_timeout r.0 error script (record t { waits = r.1 })).0
]

pub turns : List Turn → Timer → Timer
turns [] t = t
turns (x ∷ rest) t = turns rest (turn x t)
