-- ===== src/Crypto/Digest.antt =====
-- `Hash` and `Hmac` (src/luanode_crypto.cpp), over OpenSSL's digests. A text argument is a string, or a
-- number that Lua has turned into one; `none` is any other value.
pub mod Stream
use lua_node.Base.{ℕ, Option, none, some, List, [], ◌∷◌}
use lua_node.Lua.{Value, string, self, Outcome, returns, raises}
use lua_node.Crypto.Hex.{OutputMode, hex, encode_output}

-- OpenSSL: the digest that a name stands for, with its context ready; and the calls on a context.
pub record Digests (Context : Type 0) : Type 0 where
  pub digest_init : List ℕ → Option Context
  pub hmac_init : List ℕ → List ℕ → Option Context
  pub digest_update : Context → List ℕ → Context
  pub digest_final : Context → List ℕ × Context

-- The argument of `final`: none or nil, one of `encoding_options`, or another value.
pub data EncodingArg : Type 0 where
  default_encoding : EncodingArg
  encoding : OutputMode → EncodingArg
  not_encoding : EncodingArg

-- luaL_checkoption with "hex" as the default.
abbrev pub chosen_encoding : EncodingArg → Option OutputMode
chosen_encoding default_encoding = some hex
chosen_encoding (encoding mode) = some mode
chosen_encoding not_encoding = none

unfoldable pub encoded : EncodingArg → List ℕ → Outcome
encoded arg bytes = elim (chosen_encoding arg) [
  | none ↦ raises
  | some mode ↦ returns (string (encode_output mode bytes) ∷ [])
]

module _ {Context : Type 0} (digests : Digests Context) where
  -- The constructors raise an error without a context.
  unfoldable pub new_hash : Option (List ℕ) → Option Context
  new_hash none = none
  new_hash (some name) = digests.digest_init name

  unfoldable pub hash_update : Option (List ℕ) → Context → Context × Outcome
  hash_update none c = (c, raises)
  hash_update (some bytes) c = (digests.digest_update c bytes, returns (self ∷ []))

  -- The digest is taken from a copy of the context.
  unfoldable pub hash_final : EncodingArg → Context → Context × Outcome
  hash_final arg c = (c, encoded arg (digests.digest_final c).0)

  unfoldable pub new_hmac : Option (List ℕ) → Option (List ℕ) → Option Context
  new_hmac none key = none
  new_hmac (some name) none = none
  new_hmac (some name) (some key) = digests.hmac_init name key

  unfoldable pub hmac_update : Option (List ℕ) → Context → Context × Outcome
  hmac_update none c = (c, raises)
  hmac_update (some bytes) c = (digests.digest_update c bytes, returns (self ∷ []))

  -- The context itself is used up, before the argument is looked at.
  unfoldable pub hmac_final : EncodingArg → Context → Context × Outcome
  hmac_final arg c = let (digest, rest) = digests.digest_final c in (rest, encoded arg digest)
