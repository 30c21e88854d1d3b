-- ===== src/Base/Pick.antt =====
-- Taking one element out of a list, at any position, and what that does to a sum over the list.
use Prim.Native.Nat.{ℕ, zero, suc, ◌+◌}
use mathlib.Core.Path.{◌≡◌, refl, ap, subst}
use mathlib.Core.List.{List, [], ◌∷◌}
use mathlib.Core.Option.{Option, none, some}
use native.Mathlib.Omega.{arith}
use lua_node.Base.Lists.{length}

module _ {ℓ} {A : Type ℓ} where
  put_back : A → Option (A × List A) → Option (A × List A)
  put_back a none = none
  put_back a (some (b, bs)) = some (b, a ∷ bs)

  -- The element at a position, and the others.
  unfoldable pub pick : ℕ → List A → Option (A × List A)
  unfolding put_back
  pick n [] = none
  pick zero (a ∷ xs) = some (a, xs)
  pick (suc n) (a ∷ xs) = put_back a (pick n xs)

  abbrev pub total : (A → ℕ) → List A → ℕ
  total w [] = 0
  total w (a ∷ xs) = w a + total w xs

  -- The sum over the list and its length are those of the element and the others.
  abbrev pub IsPicked : (A → ℕ) → List A → A → List A → Type 0
  IsPicked w xs a rest = (total w xs ≡ w a + total w rest) × (length xs ≡ suc (length rest))

  put_back-IsPicked :
      (w : A → ℕ) (b : A) (bs : List A) (r : Option (A × List A)) (a : A) (rest : List A)
      → ((c : A) (cs : List A) → r ≡ some (c, cs) → IsPicked w bs c cs)
      → put_back b r ≡ some (a, rest)
      → IsPicked w (b ∷ bs) a rest
  unfolding put_back
  put_back-IsPicked w b bs none a rest h e = absurd (ground arith)
  put_back-IsPicked w b bs (some (c, cs)) a rest h e =
      subst (λ p. IsPicked w (b ∷ bs) p.0 p.1) (ap (λ o. get o) e) (omega (arith, h c cs refl))
    where
      get : Option (A × List A) → A × List A
      get none = (c, b ∷ cs)
      get (some p) = p

  pub pick-IsPicked :
      (w : A → ℕ) (n : ℕ) (xs : List A) (a : A) (rest : List A)
      → pick n xs ≡ some (a, rest)
      → IsPicked w xs a rest
  unfolding pick
  pick-IsPicked w n [] a rest e = absurd (ground arith)
  pick-IsPicked w zero (b ∷ bs) a rest e =
      subst (λ p. IsPicked w (b ∷ bs) p.0 p.1) (ap (λ o. get o) e) (refl, refl)
    where
      get : Option (A × List A) → A × List A
      get none = (b, bs)
      get (some p) = p
  pick-IsPicked w (suc n) (b ∷ bs) a rest e =
      put_back-IsPicked w b bs (pick n bs) a rest (λ c cs. pick-IsPicked w n bs c cs) e
