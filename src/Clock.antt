-- ===== src/Clock.antt =====
-- The clock of `process.hrtime` (src/luanode_hrtime.cpp): 64-bit counts of nanoseconds, and what Lua does with
-- them. The clocks of the systems are parameters.
pub mod Elapsed
mod Tests
use lua_node.Base.{
  ℕ, ◌+◌, ◌-◌, ◌*◌, ◌/◌, ◌%◌, ◌^◌, Bool, Option, none, some, ltb, if◌then◌else◌, ◌>>=◌,
}
use lua_node.Base.Int.{ℤ, pos, negsuc}

-- What clock_gettime fills in.
pub record Timespec : Type 0 where
  pub tv_sec : ℕ
  pub tv_nsec : ℕ

-- NANOSEC and NANOS_PER_SEC.
abbrev pub nanosec : ℕ
nanosec = 1000000000

-- Get, on Linux.
unfoldable pub get_time : Timespec → ℕ
get_time ts = (ts.tv_sec * nanosec + ts.tv_nsec) % 2 ^ 64

-- Get, on macOS: the count of mach_absolute_time, and the fraction of mach_timebase_info.
unfoldable pub get_mach_time : ℕ → ℕ → ℕ → ℕ
get_mach_time count numer denom = count * numer % 2 ^ 64 / denom

-- A value on the stack of Lua: a userdata of the metatable HRTIME_MT, one of another kind with the number that
-- its first eight bytes make, or something else.
pub data Operand : Type 0 where
  hrtime : ℕ → Operand
  userdata : ℕ → Operand
  plain : Operand

-- luaL_checkudata; `none` raises an error, here and below.
abbrev check_hrtime : Operand → Option ℕ
check_hrtime (hrtime time) = some time
check_hrtime (userdata bytes) = none
check_hrtime plain = none

-- The difference of two uint64_t.
abbrev pub difference : ℕ → ℕ → ℕ
difference t1 t2 = (t1 + (2 ^ 64 - t2)) % 2 ^ 64

unfoldable pub substract : Operand → Operand → Option Operand
substract a b = do t1 ← check_hrtime a; t2 ← check_hrtime b; some (hrtime (difference t1 t2))

unfoldable pub less_than : Operand → Operand → Option Bool
less_than a b = do t1 ← check_hrtime a; t2 ← check_hrtime b; some (ltb t1 t2)

pub data System : Type 0 where
  windows posix : System

-- The conversions of sprintf: %I64u, and PRId64 of a signed number.
abbrev printed : System → ℕ → ℤ
printed windows time = pos time
printed posix time = if ltb time (2 ^ 63) then pos time else negsuc (2 ^ 64 - time - 1)

-- The number that the text of `tostring` shows.
unfoldable pub to_string : System → Operand → Option ℤ
to_string system a = do time ← check_hrtime a; some (printed system time)

-- The numbers of these three are those before they become doubles.
unfoldable pub split : Operand → Option (ℕ × ℕ)
split a = do time ← check_hrtime a; some (time / nanosec, time % nanosec)

unfoldable pub as_microseconds : Operand → Option ℕ
as_microseconds a = do time ← check_hrtime a; some (time / 1000)

unfoldable pub as_milliseconds : Operand → Option ℕ
as_milliseconds a = do time ← check_hrtime a; some (time / 1000000)

-- Get, for Lua: any userdata is taken for an earlier time.
unfoldable pub get : Timespec → Operand → Operand
get now plain = hrtime (get_time now)
get now (hrtime start) = hrtime (difference (get_time now) start)
get now (userdata bytes) = hrtime (difference (get_time now) bytes)
