-- ===== src/Lua.antt =====
-- Values that cross between C++ and Lua, and src/luanode.cpp's translation of error codes.
use lua_node.Base.{ℕ, Bool, true, Option, none, some, List, [], ◌∷◌}

-- `self` is the object that a method was called on; the text of an error's message is a matter
-- of its code.
pub data Value : Type 0 where
  nil : Value
  boolean : Bool → Value
  integer : ℕ → Value
  string : List ℕ → Value
  message : ℕ → Value
  self : Value
  other : ℕ → Value

-- boost::system::error_code: `none` is no error.
abbrev pub ErrorCode : Type 0
ErrorCode = Option ℕ

pub data Outcome : Type 0 where
  returns : List Value → Outcome
  raises : Outcome

unfoldable pub boost_error_code_to_lua : ErrorCode → List Value
boost_error_code_to_lua (some e) = nil ∷ message e ∷ integer e ∷ []
boost_error_code_to_lua none = boolean true ∷ []

unfoldable pub boost_error_to_callback : ErrorCode → List Value
boost_error_to_callback (some e) = message e ∷ integer e ∷ []
boost_error_to_callback none = message 0 ∷ integer 0 ∷ []

-- The value on top of the stack, over `bottom`.
abbrev pub top_of : Value → List Value → Value
top_of bottom [] = bottom
top_of bottom (v ∷ vs) = top_of v vs
