-- ===== src/Net/Handlers/Tests.antt =====
-- A socket on concrete inputs.
use lua_node.Base.{◌≤◌, ◌+◌, refl, true, false, none, some, List, [], ◌∷◌}
use lua_node.Lua.{string, boolean}
use lua_node.Net.Socket.{
  write_op, write_callback, arg_line, Socket, Asio, new_socket, write, read, close,
}
use lua_node.Net.Handlers.{Scripts, Completion, Turn, lua_calls, completes, handle_write, turns}
use lua_node.Net.Handlers.Invariant.{IsValid, turns-IsValid}
use lua_node.Net.Handlers.Closing.{closes, handle_write-closes}
use lua_node.Net.Handlers.Faults.{idle}

-- An operating system that closes and shuts down without an error.
abbrev calm : Asio
calm = record {
  shutdown_result = λ log how. none;
  close_result = λ log. none;
  address_result = λ ip. none;
}

-- Every callback is there and does nothing.
abbrev quiet : Scripts
quiet callback = some idle

-- The callback of a write writes again.
abbrev chatty : Scripts
chatty write_callback =
    some (record { calls = write (string (67 ∷ [])) ∷ []; results = boolean true ∷ [] })
chatty _ = none

abbrev finished : Completion
finished = record { error = none; bytes = []; line = 0 }

abbrev session : List Turn
session =
    lua_calls (write (string (65 ∷ 66 ∷ [])))
    ∷ lua_calls (read arg_line)
    ∷ lua_calls (close true)
    ∷ lua_calls (write (string (68 ∷ [])))
    ∷ completes 1 finished chatty
    ∷ completes 0 finished quiet
    ∷ []

turns-IsValid_example : IsValid (turns calm session new_socket)
turns-IsValid_example = turns-IsValid calm session

-- A write in flight.
abbrev writing : Socket
writing = record {
  close_pending = false;
  write_shutdown_pending = false;
  pending_writes = 1;
  pending_reads = 0;
  input_buffer = [];
  ops = write_op (65 ∷ []) ∷ [];
  refs = 1;
  log = [];
}

abbrev closing : Socket
closing = record writing { close_pending = true; ops = [] }

handle_write-closes_example : closes [] + 1 ≤ closes (handle_write calm none quiet closing).log
handle_write-closes_example = handle_write-closes calm none quiet closing refl refl tt tt
