-- ===== src/Net/Acceptor/Tests.antt =====
-- An acceptor on concrete inputs.
use lua_node.Base.{pick, ◌≡◌, refl, none, some, List, [], ◌∷◌}
use lua_node.Lua.{other, message, integer, boost_error_to_callback}
use lua_node.Net.Acceptor.{
  called_with_error, new_acceptor, failed, gone, connected, Turn, lua_accepts, completes,
  runs_elsewhere, turns, turn,
}
use lua_node.Net.Acceptor.Balance.{IsBalanced, turns-IsBalanced}

abbrev session : List Turn
session =
    lua_accepts
    ∷ completes 0 (gone 107) 0
    ∷ completes 0 (connected (record { address = 49 ∷ []; port = 8080 })) 2
    ∷ runs_elsewhere none
    ∷ completes 1 (failed 125) 0
    ∷ []

turns-IsBalanced_example : IsBalanced (turns session new_acceptor)
turns-IsBalanced_example = turns-IsBalanced session (tt, (tt, (tt, (refl, (tt, tt)))))

-- With another acceptor left on the stack, that one is told of the error of this one's accept.
wrong_callback :
    (turns
      (lua_accepts ∷ runs_elsewhere (some (other 2)) ∷ completes 0 (failed 24) 0 ∷ [])
      new_acceptor).log
    ≡ called_with_error (other 2) (message 24 ∷ integer 24 ∷ []) ∷ []
unfolding turns turn new_acceptor pick boost_error_to_callback
wrong_callback = refl
