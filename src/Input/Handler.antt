-- ===== src/Input/Handler.antt =====
-- `ReadConsoleHandler` of `InputTtyStream` (src/detail/windows/input_tty.cpp) as a whole: the loop, and the call
-- of Lua with what it has put together; and the batches of records that `Run` posts, each with a handler.
pub mod Batches
mod Tests
use lua_node.Base.{
  ℕ, Bool, ◌&&◌, Option, some, List, [], ◌∷◌, ◌++◌, leb, ltb, length, if◌then◌else◌, ◌>>=◌,
}
use lua_node.Lua.{Value, self, string}
use lua_node.Input.Reader.{InputRecord, InputContext, read_loop}

-- The call of `read_callback`, where the field holds a function: the arguments of each call. `size` is
-- LUAL_BUFFERSIZE: a luaL_Buffer with more bytes than that keeps the first of them on the stack of Lua. It is
-- they, then, that stand at place 1, where the stream is expected; a text has no field `read_callback`.
unfoldable pub deliver : ℕ → Bool → List ℕ → List (List Value)
deliver size is_function bytes =
    if ltb 0 (length bytes)
    then if leb (length bytes) size && is_function then (self ∷ string bytes ∷ []) ∷ [] else []
    else []

-- `to_utf8` is WideCharToMultiByte with CP_UTF8.
module _ (to_utf8 : List ℕ → List ℕ) (size : ℕ) (is_function : Bool) where
  -- ReadConsoleHandler, on fuel.
  unfoldable pub read_console_handler :
      ℕ → InputContext → List InputRecord → Option (List (List Value))
  read_console_handler fuel c rs = do
    r ← read_loop to_utf8 fuel (record { context = c; records = rs; output = [] })
    some (deliver size is_function r.output)

  -- The handlers of several batches. `Run` binds a copy of `m_tty_context` to each of them, so what a handler
  -- leaves in its context is seen by no other.
  unfoldable pub handle_batches :
      ℕ → InputContext → List (List InputRecord) → Option (List (List Value))
  handle_batches fuel c [] = some []
  handle_batches fuel c (rs ∷ rest) = do
    calls ← read_console_handler fuel c rs
    later ← handle_batches fuel c rest
    some (calls ++ later)
