-- ===== src/Dns/Resolver.antt =====
-- `LuaNode::Dns::Resolver` (src/luanode_dns.cpp). The resolver of Boost.Asio is outside of the model: a lookup
-- in flight is an element of a list, and the environment ends one with any error or endpoints.
pub mod Arrays
pub mod Balance
use lua_node.Base.{
  ℕ, suc, ◌+◌, ◌-◌, Bool, true, false, Option, none, some, List, [], ◌∷◌, ◌++◌, EventLoop, LoopTurn,
  loop_turns, if◌then◌else◌,
}
use lua_node.Base.Text.{Text}
use lua_node.Lua.{Outcome, returns, raises, ErrorCode}

-- boost::asio::ip::address.
pub record Addresses (A : Type 0) : Type 0 where
  pub to_text : A → Text
  pub is_v4 : A → Bool
  pub is_v6 : A → Bool

pub data Family : Type 0 where
  six four unknown : Family

-- The table of an endpoint.
pub record Endpoint : Type 0 where
  pub address : Text
  pub port : ℕ
  pub family : Family

-- What the callback is given; an array is its indices with what stands there.
pub data Argument : Type 0 where
  nil : Argument
  message : ℕ → Argument
  code : ℕ → Argument
  text : Text → Argument
  endpoint : Endpoint → Argument
  endpoints : List (ℕ × Endpoint) → Argument

-- A lookup in flight, with its reference to the callback, here a number.
pub record Lookup : Type 0 where
  pub callback : ℕ
  pub domain : Text
  pub enumerate_all : Bool

pub record Resolver : Type 0 where
  pub refs : ℕ
  pub flying : List Lookup
  pub calls : List (ℕ × List Argument)

unfoldable pub new_resolver : Resolver
new_resolver = record { refs = 0; flying = []; calls = [] }

-- The arguments of Lookup: `none` where one is not of its type.
pub record Request : Type 0 where
  pub domain : Option Text
  pub service : Option Text
  pub callback : Option ℕ
  pub enumerate_all : Bool

abbrev begin : Lookup → Resolver → Resolver
begin l s = record s { refs = s.refs + 1; flying = l ∷ s.flying }

-- Lookup.
unfoldable pub lookup : Request → Resolver → Resolver × Outcome
lookup r s = elim r.domain [
  | none ↦ (s, raises)
  | some domain ↦ elim r.service [
    | none ↦ (s, raises)
    | some service ↦ elim r.callback [
      | none ↦ (s, raises)
      | some callback ↦ (
        begin (record { callback = callback; domain = domain; enumerate_all = r.enumerate_all }) s,
        returns [],
      )
    ]
  ]
]

module _ {A : Type 0} (addresses : Addresses A) (host_not_found : ℕ) where
  unfoldable pub endpoint_to_lua : A × ℕ → Endpoint
  endpoint_to_lua (a, port) = record {
    address = addresses.to_text a;
    port = port;
    family = if addresses.is_v6 a then six else if addresses.is_v4 a then four else unknown;
  }

  -- The loop over the endpoints, from the index after `i` on.
  unfoldable pub array_from : ℕ → List (A × ℕ) → List (ℕ × Endpoint)
  unfolding endpoint_to_lua
  array_from i [] = []
  array_from i (e ∷ rest) = (i + 1, endpoint_to_lua e) ∷ array_from (i + 1) rest

  -- The arguments of the callback.
  unfoldable pub resolved : Lookup → ErrorCode → List (A × ℕ) → List Argument
  unfolding array_from
  resolved l (some e) found = message e ∷ code e ∷ []
  resolved l none [] = message host_not_found ∷ code host_not_found ∷ []
  resolved l none (e ∷ rest) =
      nil
      ∷ (if l.enumerate_all
          then endpoints (array_from 0 (e ∷ rest))
          else endpoint (endpoint_to_lua e))
      ∷ text l.domain
      ∷ []

  -- HandleResolve.
  unfoldable pub handle_resolve : Lookup → ErrorCode × List (A × ℕ) → Resolver → Resolver
  unfolding resolved
  handle_resolve l (error, found) s = record s {
    refs = s.refs - 1;
    calls = s.calls ++ (l.callback, resolved l error found) ∷ [];
  }

  abbrev pub resolving : EventLoop Resolver Lookup Request (ErrorCode × List (A × ℕ))
  resolving = record {
    ops_of = λ s. s.flying;
    with_ops = λ ls s. record s { flying = ls };
    ask = λ r s. (lookup r s).0;
    handle = handle_resolve;
  }
