-- ===== src/Dns/Tests.antt =====
-- A lookup on concrete endpoints.
use lua_node.Base.{
  ℕ, ◌+◌, ◌≡◌, refl, true, false, none, some, List, [], ◌∷◌, asks, ends, loop_turns, pick, LoopTurn,
}
use lua_node.Base.Text.{Text, codes}
use lua_node.Lua.{ErrorCode}
use lua_node.Dns.Resolver.{
  Addresses, Endpoint, Lookup, nil, endpoints, text, resolved, endpoint_to_lua, resolving,
  new_resolver, message, code, lookup, handle_resolve, Request,
}
use lua_node.Dns.Resolver.Arrays.{at, raw_get, resolved-array}

abbrev plain : Addresses Text
plain = record { to_text = λ a. a; is_v4 = λ a. true; is_v6 = λ a. false }

abbrev all_of_them : Lookup
all_of_them = record { callback = 3; domain = codes "localhost"; enumerate_all = true }

resolved-array_example :
    (t : List (ℕ × Endpoint)) × (resolved plain 1 all_of_them none
        ((codes "127.0.0.1", 80) ∷ (codes "127.0.0.2", 80) ∷ [])
      ≡ nil ∷ endpoints t ∷ text (codes "localhost") ∷ [])
    × ((k : ℕ)
        → raw_get t (k + 1) ≡ elim (at ((codes "127.0.0.1", 80) ∷ (codes "127.0.0.2", 80) ∷ []) k) [
          | none ↦ none
          | some x ↦ some (endpoint_to_lua plain 1 x)
        ])
resolved-array_example =
    resolved-array plain 1 all_of_them (codes "127.0.0.1", 80) ((codes "127.0.0.2", 80) ∷ []) refl

abbrev lookups : List (LoopTurn Request (ErrorCode × List (Text × ℕ)))
lookups =
    asks (record {
      domain = some (codes "localhost");
      service = some (codes "http");
      callback = some 3;
      enumerate_all = false;
    })
    ∷ ends 0 (none, [])
    ∷ []

lookup_answered :
    (loop_turns (resolving plain 1) lookups new_resolver).calls ≡ (3, message 1 ∷ code 1 ∷ []) ∷ []
unfolding loop_turns new_resolver lookup pick handle_resolve
lookup_answered = refl
