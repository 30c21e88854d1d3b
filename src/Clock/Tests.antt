-- ===== src/Clock/Tests.antt =====
-- The clock on concrete inputs.
use lua_node.Base.{◌≡◌, refl, none, some, ◌>>=◌, arith}
use lua_node.Base.Int.{negsuc}
use lua_node.Clock.{
  Timespec, hrtime, userdata, plain, posix, get, get_time, get_mach_time, split, substract,
  to_string,
}
use lua_node.Clock.Elapsed.{advance, split-get}

abbrev morning : Timespec
morning = record { tv_sec = 18446744072; tv_nsec = 900000000 }

-- The 64 bits run over in the eighth tenth of the second 18446744073.
abbrev noon : Timespec
noon = record { tv_sec = 18446744075; tv_nsec = 250000000 }

split-get_example :
    (split (get noon (get morning plain)) >>= λ d. some (advance morning d)) ≡ some noon
split-get_example = split-get morning noon (omega arith) (omega arith) (omega arith) (omega arith)

elapsed : split (get noon (get morning plain)) ≡ some (2, 350000000)
unfolding split get get_time
elapsed = refl

refused : substract (hrtime 7) (userdata 3) ≡ none
unfolding substract
refused = refl

negative : (substract (hrtime 3) (hrtime 5) >>= to_string posix) ≡ some (negsuc 1)
unfolding substract to_string
negative = refl

apple : get_mach_time 24 125 3 ≡ 1000
unfolding get_mach_time
apple = refl
