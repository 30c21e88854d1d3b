-- ===== src/Clock/Elapsed.antt =====
-- The time between two readings of the clock.
use lua_node.Base.{
  ℕ, ◌+◌, ◌-◌, ◌*◌, ◌/◌, ◌%◌, ◌^◌, ◌≤◌, ◌<◌, ◌≡◌, false, some, ltb, if◌then◌else◌, arith, ◌>>=◌, ap,
  ◌∙◌,
}
use lua_node.Base.Int.{pos, negsuc}
use lua_node.Clock.{
  Timespec, nanosec, get_time, hrtime, plain, difference, substract, less_than, posix, windows,
  to_string, split, as_microseconds, as_milliseconds, get,
}

-- The time so many seconds and nanoseconds after another, with the carry.
unfoldable pub advance : Timespec → ℕ × ℕ → Timespec
advance t d =
    if ltb (t.tv_nsec + d.1) nanosec
    then record { tv_sec = t.tv_sec + d.0; tv_nsec = t.tv_nsec + d.1 }
    else record { tv_sec = t.tv_sec + d.0 + 1; tv_nsec = t.tv_nsec + d.1 - nanosec }

abbrev pub nanoseconds_of : Timespec → ℕ
nanoseconds_of t = t.tv_sec * nanosec + t.tv_nsec

difference-wraps : (a b : ℕ) → a ≤ b → b < a + 2 ^ 64 → difference (b % 2 ^ 64) (a % 2 ^ 64) ≡ b - a
difference-wraps a b h k = omega arith

advance-difference :
    (a m b n : ℕ)
    → m < nanosec
    → n < nanosec
    → a * nanosec + m ≤ b * nanosec + n
    → let d = b * nanosec + n - (a * nanosec + m) in
      advance (record { tv_sec = a; tv_nsec = m }) (d / nanosec, d % nanosec)
      ≡ record { tv_sec = b; tv_nsec = n }
unfolding advance
advance-difference a m b n hm hn h = ground arith

-- Take two readings of the clock, at most 2^64 nanoseconds apart: `hrtime` of the second, given what `hrtime`
-- made of the first, splits into the seconds and nanoseconds which lead, with the carry, from the first
-- reading to the second, though the 64 bits may have run over at or between them.
pub split-get :
    (t u : Timespec)
    → t.tv_nsec < nanosec
    → u.tv_nsec < nanosec
    → nanoseconds_of t ≤ nanoseconds_of u
    → nanoseconds_of u < nanoseconds_of t + 2 ^ 64
    → (split (get u (get t plain)) >>= λ d. some (advance t d)) ≡ some u
unfolding split get get_time
split-get t u ht hu h k =
    ap (λ d. some (advance t (d / nanosec, d % nanosec)))
      (difference-wraps (nanoseconds_of t) (nanoseconds_of u) h k)
    ∙ ap some (advance-difference t.tv_sec t.tv_nsec u.tv_sec u.tv_nsec ht hu h)

-- The other way round, the earlier reading less the later one, is shown as a negative number on POSIX, and as
-- one near 2^64 on Windows; it is no less than any time, and splits like the number near 2^64.
backwards :
    (a b : ℕ)
    → a < b
    → b ≤ a + 2 ^ 63
    → b < 2 ^ 64
    → let d = hrtime (difference a b) in
      let n = b - a in
      (substract (hrtime a) (hrtime b) ≡ some d)
      × (to_string posix d ≡ some (negsuc (n - 1)))
      × (to_string windows d ≡ some (pos (2 ^ 64 - n)))
      × (less_than d (hrtime 0) ≡ some false)
      × (split d ≡ some ((2 ^ 64 - n) / nanosec, (2 ^ 64 - n) % nanosec))
unfolding substract to_string less_than split
backwards a b h k l = ground arith

-- The microseconds and the milliseconds are those of the seconds and nanoseconds that `split` gives.
parts-split :
    (time : ℕ)
    → let parts = split (hrtime time) in
      (as_microseconds (hrtime time) ≡ (parts >>= λ d. some (d.0 * 1000000 + d.1 / 1000)))
      × (as_milliseconds (hrtime time) ≡ (parts >>= λ d. some (d.0 * 1000 + d.1 / 1000000)))
unfolding split as_microseconds as_milliseconds
parts-split time = (ap some (omega arith), ap some (omega arith))
