-- ===== src/Timer/Waits.antt =====
-- The one wait of a repeating timer.
use lua_node.Base.{
  ℕ, zero, suc, ◌+◌, ◌≡◌, Bool, true, false, Option, none, some, List, [], ◌∷◌, All, if◌then◌else◌,
}
use lua_node.Lua.{top_of, self}
use lua_node.Timer.{Timer, Request, stop, again, Script, WaitError, aborted, Turn, lua_calls, fires}

-- No `again`, which puts a second wait beside the one of a repeating timer.
abbrev pub IsPlain : Request → Type 0
IsPlain (again arg) = ⊥
IsPlain _ = Unit {0}

-- A callback without a call of `again` that returns nothing, or the timer as its last value.
abbrev pub IsTidy : Option Script → Type 0
IsTidy none = Unit {0}
IsTidy (some script) = All IsPlain script.calls × (top_of self script.results ≡ self)

abbrev pub IsTidyTurn : Turn → Type 0
IsTidyTurn (lua_calls r) = IsPlain r
IsTidyTurn (fires n error script) = IsTidy script

-- What a repeating timer is for its user: it waits, or has stopped; and it was told to cancel its
-- wait so many times.
pub record Life : Type 0 where
  pub waiting : Bool
  pub cancels : ℕ

abbrev pub stops : List Request → ℕ
stops [] = 0
stops (stop ∷ rest) = 1 + stops rest
stops (_ ∷ rest) = stops rest

-- The end of the wait: a cancellation ends the timer, and so does a missing callback; else it goes on.
abbrev pub wait_ends : WaitError → Option Script → Life → Life
wait_ends aborted script l = record l { waiting = false }
wait_ends _ none l = record { waiting = false; cancels = l.cancels + 1 }
wait_ends _ (some script) l = record l { cancels = l.cancels + stops script.calls }

abbrev pub life_turn : Turn → Life → Life
life_turn (lua_calls r) l = record l { cancels = l.cancels + stops (r ∷ []) }
life_turn (fires zero error script) l = if l.waiting then wait_ends error script l else l
life_turn (fires (suc n) error script) l = l

abbrev pub life : List Turn → Life → Life
life [] l = l
life (t ∷ rest) l = life rest (life_turn t l)

-- A timer that lives so.
pub record Lives (l : Life) (t : Timer) : Type 0 where
  pub started : t.started ≡ true
  pub repeats : t.repeats ≡ true
  pub waits : t.waits ≡ (if l.waiting then self ∷ [] else [])
  pub cancels : t.cancels ≡ l.cancels
