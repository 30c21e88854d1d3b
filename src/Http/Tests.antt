-- ===== src/Http/Tests.antt =====
-- A small parser on concrete inputs.
use lua_node.Base.{◌≡◌, true, false, none, some, [], ◌∷◌, arith}
use lua_node.Base.Int.{ℤ, pos, negsuc}
use lua_node.Lua.{nil, boolean, Outcome}
use lua_node.Http.{
  LuaSide, on_message_begin, on_url, Run, finished, gives, Library, HttpParser, message_begin, url,
  parser_execute,
}
use lua_node.Http.Stop.{Stops, Trace, is_silent, parser_execute-Trace}

abbrev end_run : ℤ → Run (Unit {0})
end_run code = finished tt 3 false

abbrev after_begin : ℤ → Run (Unit {0})
after_begin (pos n) = gives (url (47 ∷ [])) end_run
after_begin (negsuc n) = finished tt 1 false

-- It gives two notices, and stops after the first when its callback returns -1.
abbrev two_notices : Library
two_notices = record {
  State = Unit {0};
  init = λ kind. tt;
  execute = λ s bytes. gives message_begin after_begin;
  error_number = λ s. 0;
}

-- The callback for the URL answers `nil`.
abbrev refuses_url : LuaSide
refuses_url log on_message_begin = some (boolean true ∷ [])
refuses_url log (on_url bytes start size) = some (nil ∷ [])
refuses_url log _ = none

abbrev stale : HttpParser (Unit {0})
stale = record { state = tt; got_exception = true; calls = [] }

after_begin-Stops : (code : ℤ) → Stops (after_begin code)
after_begin-Stops (pos n) = (tt, λ code. tt)
after_begin-Stops (negsuc n) = tt

two_notices-Stops : Stops (two_notices.execute tt (71 ∷ 69 ∷ []))
two_notices-Stops = (tt, after_begin-Stops)

parser_execute-Trace_example :
    (q : HttpParser (Unit {0})) × (o : Outcome) × (parser_execute two_notices refuses_url
        (71 ∷ 69 ∷ 84 ∷ [])
        0
        2
        stale
      ≡ some (q, o))
    × Trace refuses_url [] q.calls q.got_exception
    × (is_silent o ≡ q.got_exception)
parser_execute-Trace_example =
    parser_execute-Trace two_notices refuses_url (71 ∷ 69 ∷ 84 ∷ []) 0 2 stale (omega arith)
      two_notices-Stops
