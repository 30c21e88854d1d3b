-- ===== src/Input/Thread.antt =====
-- The thread that reads the console: `Run`, `Start`, `Stop`, `Read`, `Pause` and `Close` of `InputTtyStream`
-- (src/detail/windows/input_tty.cpp). A turn is a call of Lua or a step of a thread, with what the console
-- answers.
pub mod Paused
use lua_node.Base.{
  ℕ, zero, suc, ◌+◌, Bool, true, false, Option, none, some, List, [], ◌∷◌, ◌==◌, ◌&&◌, leb,
  if◌then◌else◌, ◌>>=◌,
}

-- Where a thread is in `Run`: before the test of `m_run`, in `ReadConsoleInput`, or at its end.
pub data Phase : Type 0 where
  checking reading ended : Phase

-- `run`, `thread` and `work` are `m_run`, `m_tty_reader_thread` and `m_input_asio_work`. `strays` are the
-- threads that no pointer holds, `joining` tells that `Pause` is in `join`, `wakeups` counts the focus
-- records that were written to the console, and `posted` holds the batches for the event loop, latest first.
pub record InputThread : Type 0 where
  pub run : Bool
  pub thread : Option Phase
  pub strays : List Phase
  pub work : Bool
  pub joining : Bool
  pub wakeups : ℕ
  pub posted : List ℕ

-- `m_run` is what the memory held.
unfoldable pub new_thread : Bool → InputThread
new_thread uninitialized = record {
  run = uninitialized;
  thread = none;
  strays = [];
  work = false;
  joining = false;
  wakeups = 0;
  posted = [];
}

unfoldable pub start : InputThread → InputThread
start s = elim s.thread [
  | none ↦ record s { run = true; thread = some checking; work = true }
  | some phase ↦ s
]

abbrev let_go : Option Phase → List Phase → List Phase
let_go none strays = strays
let_go (some phase) strays = phase ∷ strays

abbrev wake : InputThread → InputThread
wake s = record s { run = false; wakeups = s.wakeups + 1 }

unfoldable pub stop : InputThread → InputThread
stop s =
    if s.run
    then record (wake s) { thread = none; strays = let_go s.thread s.strays; work = false }
    else s

-- Up to `join`. `none`: the null pointer is followed.
unfoldable pub pause : Option Phase → InputThread → Option InputThread
pause none s = none
pause (some phase) s = some (record (wake s) { joining = true })

-- `join` returns when the thread has come to its end.
unfoldable pub joined : InputThread → InputThread
joined s = elim s.thread [
  | none ↦ s
  | some checking ↦ s
  | some reading ↦ s
  | some ended ↦ if s.joining then record s { joining = false; thread = none; work = false } else s
]

-- What `ReadConsoleInput` answers: records, whether the first is a change of focus; or an error, whether it is
-- ERROR_INVALID_HANDLE.
pub data Answer : Type 0 where
  got : ℕ → Bool → Answer
  failed : Bool → Answer

unfoldable pub answered : Answer → InputThread → Phase × InputThread
answered (got count is_focus) s = (
  checking,
  if count == 1 && is_focus
      then s
      else if count == 0
      then s
      else record s { posted = count ∷ s.posted },
)
answered (failed invalid_handle) s =
    (ended, if invalid_handle then record s { work = false } else s)

-- A step of a thread in `Run`.
unfoldable pub run_step : Answer → Phase → InputThread → Phase × InputThread
unfolding answered
run_step answer checking s = (if s.run then reading else ended, s)
run_step answer reading s = answered answer s
run_step answer ended s = (ended, s)

pub data ThreadTurn : Type 0 where
  reads pauses closes joins : ThreadTurn
  thread_steps : Answer → ThreadTurn
  stray_steps : ℕ → Answer → ThreadTurn

-- The step of the stray thread at a place in the list.
unfoldable pub stray_step : ℕ → Answer → List Phase → InputThread → List Phase × InputThread
unfolding run_step
stray_step n answer [] s = ([], s)
stray_step zero answer (p ∷ ps) s = let (q, t) = run_step answer p s in (q ∷ ps, t)
stray_step (suc n) answer (p ∷ ps) s = let (qs, t) = stray_step n answer ps s in (p ∷ qs, t)

-- While `Pause` waits Lua makes no call.
unfoldable pub thread_turn : ThreadTurn → InputThread → Option InputThread
unfolding start stop pause joined run_step stray_step
thread_turn reads s = some (if s.joining then s else start s)
thread_turn pauses s = if s.joining then some s else pause s.thread s
thread_turn closes s = some (if s.joining then s else stop s)
thread_turn joins s = some (joined s)
thread_turn (thread_steps answer) s = elim s.thread [
  | none ↦ some s
  | some phase ↦ let (q, t) = run_step answer phase s in some (record t { thread = some q })
]
thread_turn (stray_steps n answer) s =
    let (ps, t) = stray_step n answer s.strays s in some (record t { strays = ps })

unfoldable pub thread_turns : List ThreadTurn → InputThread → Option InputThread
thread_turns [] s = some s
thread_turns (x ∷ rest) s = thread_turn x s >>= λ t. thread_turns rest t
