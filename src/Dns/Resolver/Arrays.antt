-- ===== src/Dns/Resolver/Arrays.antt =====
-- What the callback finds in the array of endpoints.
use lua_node.Base.{
  ℕ, zero, suc, ◌+◌, ◌≡◌, refl, Option, none, some, List, [], ◌∷◌, ◌==◌, arith, if◌then◌else◌,
}
use lua_node.Base.{true}
use lua_node.Dns.Resolver.{
  Addresses, Endpoint, Lookup, nil, endpoints, text, resolved, endpoint_to_lua, array_from,
}

abbrev pub at : {A : Type 0} → List A → ℕ → Option A
at [] i = none
at (x ∷ xs) zero = some x
at (x ∷ xs) (suc i) = at xs i

-- lua_rawgeti
abbrev pub raw_get : List (ℕ × Endpoint) → ℕ → Option Endpoint
raw_get [] k = none
raw_get ((i, e) ∷ t) k = if i == k then some e else raw_get t k

module _ {A : Type 0} (addresses : Addresses A) (host_not_found : ℕ) where
  -- The array holds at 1, 2 and so on what the resolver found, in its order, and nothing elsewhere.
  array_from-at :
      (i : ℕ) (found : List (A × ℕ)) (k : ℕ)
      → raw_get (array_from addresses host_not_found i found) (k + i + 1) ≡ elim (at found k) [
        | none ↦ none
        | some e ↦ some (endpoint_to_lua addresses host_not_found e)
      ]
  unfolding array_from
  array_from-at i [] k = refl
  array_from-at i (e ∷ rest) zero = ground arith
  array_from-at i (e ∷ rest) (suc k) = ground (arith, array_from-at (i + 1) rest k)

  -- A lookup of all the endpoints that finds some: the callback is given nil, an array and the domain, and the
  -- array holds at 1, 2 and so on, to its last index, the endpoints in the order in which they were found.
  pub resolved-array :
      (l : Lookup) (e : A × ℕ) (rest : List (A × ℕ))
      → l.enumerate_all ≡ true
      → (t : List (ℕ × Endpoint)) × (resolved addresses host_not_found l none (e ∷ rest)
          ≡ nil ∷ endpoints t ∷ text l.domain ∷ [])
        × ((k : ℕ)
            → raw_get t (k + 1) ≡ elim (at (e ∷ rest) k) [
              | none ↦ none
              | some x ↦ some (endpoint_to_lua addresses host_not_found x)
            ])
  unfolding resolved
  resolved-array l e rest h = (
    array_from addresses host_not_found 0 (e ∷ rest),
    rw h refl,
    λ k. ground (arith, array_from-at 0 (e ∷ rest) k),
  )
