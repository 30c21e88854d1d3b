-- ===== src/Program/Environment.antt =====
-- The table `process.env` of `Load` (src/luanode.cpp).
pub mod Lookup
use lua_node.Base.{ℕ, Bool, Option, none, some, List, [], ◌∷◌, ◌==◌, if◌then◌else◌}
use lua_node.Base.Text.{Text, same_text}

-- The bytes before the first `=`, and those behind it; without one the value is empty.
unfoldable pub split_entry : Text → Text × Text
split_entry [] = ([], [])
split_entry (c ∷ cs) =
    let (name, value) = split_entry cs in if c == b'=' then ([], cs) else (c ∷ name, value)

-- lua_settable, in a table with strings as keys.
unfoldable pub set_field : Text → Text → List (Text × Text) → List (Text × Text)
set_field k v [] = (k, v) ∷ []
set_field k v ((j, w) ∷ t) = if same_text j k then (k, v) ∷ t else (j, w) ∷ set_field k v t

unfoldable pub get_field : Text → List (Text × Text) → Option Text
get_field k [] = none
get_field k ((j, w) ∷ t) = if same_text j k then some w else get_field k t

unfoldable pub fill_env : List Text → List (Text × Text) → List (Text × Text)
fill_env [] table = table
fill_env (entry ∷ rest) table =
    let (name, value) = split_entry entry in fill_env rest (set_field name value table)

unfoldable pub process_env : List Text → List (Text × Text)
process_env environ = fill_env environ []
