-- ===== src/Dns/Resolver/Balance.antt =====
-- The references of the lookups in flight.
use lua_node.Base.{
  ℕ, ◌≡◌, refl, List, length, LoopTurn, loop_turns, loop_turns-kept, any_turns, arith,
}
use lua_node.Lua.{ErrorCode}
use lua_node.Dns.Resolver.{
  Addresses, Resolver, new_resolver, Request, lookup, handle_resolve, resolving,
}

module _ {A : Type 0} (addresses : Addresses A) (host_not_found : ℕ) where
  abbrev IsBalanced : Resolver → Type 0
  IsBalanced s = s.refs ≡ length s.flying

  lookup-IsBalanced : (r : Request) (s : Resolver) → IsBalanced s → IsBalanced (lookup r s).0
  unfolding lookup
  lookup-IsBalanced r s h = ground arith

  -- However the calls of Lookup and the ends of the lookups come: each lookup in flight has its one reference
  -- to a callback, and no other reference is held.
  loop_turns-IsBalanced :
      (ts : List (LoopTurn Request (ErrorCode × List (A × ℕ))))
      → let s = loop_turns (resolving addresses host_not_found) ts new_resolver in
        s.refs ≡ length s.flying
  unfolding new_resolver handle_resolve
  loop_turns-IsBalanced ts =
      loop_turns-kept (resolving addresses host_not_found) (λ r. Unit {0}) (λ c. Unit {0})
        IsBalanced (λ r s q h. lookup-IsBalanced r s h)
        (λ l rest c s t q h. omega (arith, h, t.length_left)) ts new_resolver (any_turns ts) refl
