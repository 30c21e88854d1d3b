-- ===== src/Crypto/Tests.antt =====
-- Runs of the crypto socket, of digests and of ciphers.
use lua_node.Base.{◌<◌, ◌≡◌, refl, true, false, none, some, List, [], ◌∷◌, arith, pick}
use lua_node.Lua.{string, ErrorCode}
use lua_node.Crypto.Socket.{
  Event, Socket, write, read, close, shutdown, arg_nil, arg_number, opt_write, read_callback,
  new_socket, socket_close, socket_read, request,
}
use lua_node.Crypto.Handlers.{
  Scripts, Completion, Turn, lua_calls, completes, runs_elsewhere, turns, turn, complete_op,
  handle_write, close_if_done, shutdown_if_done, tell, call_script, call_error, handle_read_some,
}
use lua_node.Crypto.Handlers.Counts.{IsCounted, turns-IsCounted}
use lua_node.Crypto.Handlers.Closing.{closes, close-turns}
use lua_node.Crypto.Handlers.Held.{read-turns}
use lua_node.Crypto.Handlers.Shutdown.{HasShut, turn-shutdowns}
use lua_node.Crypto.Handlers.Stray.{silent}

abbrev never_fails : List Event → ErrorCode
never_fails log = none

abbrev success : Completion
success = record { error = none; bytes = 104 ∷ 105 ∷ [] }

abbrev failure : Completion
failure = record { error = some 5; bytes = [] }

-- A callback of the reads that reads again.
abbrev reading_on : Scripts
reading_on read_callback = some (read arg_nil ∷ [])
reading_on _ = none

abbrev exchange : List Turn
exchange =
    lua_calls (write (string (1 ∷ 2 ∷ [])))
    ∷ lua_calls (read arg_nil)
    ∷ lua_calls (read arg_number)
    ∷ completes 0 success reading_on
    ∷ lua_calls close
    ∷ completes 1 failure silent
    ∷ []

abbrev writing : Socket
writing =
    turns never_fails (lua_calls (write (string (1 ∷ []))) ∷ lua_calls (read arg_nil) ∷ [])
      (new_socket false)

writing-IsCounted : IsCounted writing
writing-IsCounted =
    turns-IsCounted never_fails false
      (lua_calls (write (string (1 ∷ []))) ∷ lua_calls (read arg_nil) ∷ [])

turns-IsCounted_example : IsCounted (turns never_fails exchange (new_socket true))
turns-IsCounted_example = turns-IsCounted never_fails true exchange

abbrev draining : List Turn
draining = completes 1 success silent ∷ completes 0 failure silent ∷ []

close-turns_example :
    0 < closes (turns never_fails draining (socket_close never_fails writing).0).log
unfolding turns new_socket request pick complete_op handle_write close_if_done shutdown_if_done tell
    call_script call_error handle_read_some
close-turns_example =
    close-turns never_fails draining writing writing-IsCounted (omega arith) refl refl
      (λ which. tt, (λ which. tt, tt)) refl

abbrev after_number : List Turn
after_number = completes 1 success silent ∷ completes 0 failure silent ∷ runs_elsewhere ∷ []

read-turns_example :
    closes (turns never_fails after_number (socket_read arg_number writing).0).log
    ≡ closes writing.log
unfolding turns new_socket request
read-turns_example =
    read-turns never_fails after_number writing writing-IsCounted (omega arith)
      (λ which. tt, (λ which. tt, (tt, tt)))

-- A write is in flight, and a shutdown of the sending side was asked for.
abbrev shutting : Socket
shutting =
    turns never_fails (lua_calls (write (string (1 ∷ []))) ∷ lua_calls (shutdown opt_write) ∷ [])
      (new_socket false)

turn-shutdowns_example : HasShut 1 0 (turn never_fails (completes 0 success silent) shutting)
unfolding turns turn new_socket request pick complete_op handle_write close_if_done shutdown_if_done
    tell call_script
turn-shutdowns_example = turn-shutdowns never_fails (completes 0 success silent) shutting
