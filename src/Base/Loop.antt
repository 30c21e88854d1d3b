-- ===== src/Base/Loop.antt =====
-- An event loop: at any time Lua makes a request, or one of the operations in flight completes.
use Prim.Native.Nat.{ℕ, suc, ◌+◌}
use mathlib.Core.Path.{◌≡◌}
use mathlib.Core.Logic.{inl, inr}
use mathlib.Core.List.{List, [], ◌∷◌}
use mathlib.Core.Option.{none, some}
use lua_node.Base.Lists.{All, Option-cases, length}
use lua_node.Base.Pick.{pick, pick-IsPicked, total}

module _ {State Request : Type 0} (request : Request → State → State) where
  -- One request after the other.
  unfoldable pub requests_of : List Request → State → State
  requests_of [] s = s
  requests_of (r ∷ rest) s = requests_of rest (request r s)

  -- What the requests of the kind `Q` keep, any number of them keeps.
  pub requests_of-kept :
      (Q : Request → Type 0) (P : State → Type 0)
      → ((r : Request) (s : State) → Q r → P s → P (request r s))
      → (rs : List Request) (s : State) → All Q rs
      → P s
      → P (requests_of rs s)
  unfolding requests_of
  requests_of-kept Q P kept [] s q h = h
  requests_of-kept Q P kept (r ∷ rs) s q h =
      requests_of-kept Q P kept rs (request r s) q.1 (kept r s q.0 h)

-- A completion is what the environment reports, with what the callbacks do.
pub data LoopTurn (Request Completion : Type 0) : Type 0 where
  asks : Request → LoopTurn Request Completion
  ends : ℕ → Completion → LoopTurn Request Completion

abbrev pub IsLoopTurn :
    {Request Completion : Type 0}
    → (Request → Type 0)
    → (Completion → Type 0)
    → LoopTurn Request Completion
    → Type 0
IsLoopTurn Q R (asks r) = Q r
IsLoopTurn Q R (ends n c) = R c

pub any_turns :
    {Request Completion : Type 0} (ts : List (LoopTurn Request Completion))
    → All (IsLoopTurn (λ r. Unit {0}) (λ c. Unit {0})) ts
any_turns [] = tt
any_turns (asks r ∷ ts) = (tt, any_turns ts)
any_turns (ends n c ∷ ts) = (tt, any_turns ts)

-- The operation `o` has been taken out of the list, and the others are `rest`.
pub record IsTakenFrom {Op : Type 0} (os : List Op) (o : Op) (rest : List Op) : Type 0 where
  pub total_left : (w : Op → ℕ) → total w os ≡ w o + total w rest
  pub length_left : length os ≡ suc (length rest)

-- A state that holds its operations, and what a request and a handler do to it.
pub record EventLoop (State Op Request Completion : Type 0) : Type 0 where
  pub ops_of : State → List Op
  pub with_ops : List Op → State → State
  pub ask : Request → State → State
  pub handle : Op → Completion → State → State

module _ {State Op Request Completion : Type 0} (loop : EventLoop State Op Request Completion) where
  unfoldable pub loop_turn : LoopTurn Request Completion → State → State
  loop_turn (asks r) s = loop.ask r s
  loop_turn (ends n c) s = elim (pick n (loop.ops_of s)) [
    | none ↦ s
    | some (o, rest) ↦ loop.handle o c (loop.with_ops rest s)
  ]

  unfoldable pub loop_turns : List (LoopTurn Request Completion) → State → State
  unfolding loop_turn
  loop_turns [] s = s
  loop_turns (t ∷ rest) s = loop_turns rest (loop_turn t s)

  module _ (Q : Request → Type 0) (R : Completion → Type 0) (P : State → Type 0)
      (by_request : (r : Request) (s : State) → Q r → P s → P (loop.ask r s))
      (by_handler : (o : Op) (rest : List Op) (c : Completion) (s : State)
        → IsTakenFrom (loop.ops_of s) o rest
        → R c
        → P s
        → P (loop.handle o c (loop.with_ops rest s))) where
    loop_turn-kept :
        (t : LoopTurn Request Completion) (s : State) → IsLoopTurn Q R t → P s → P (loop_turn t s)
    unfolding loop_turn
    loop_turn-kept (asks r) s q h = by_request r s q h
    loop_turn-kept (ends n c) s q h = elim (Option-cases (pick n (loop.ops_of s))) [
      | inl e ↦ rw (e, loop_turn) h
      | inr ((o, rest), e) ↦
          let taken : IsTakenFrom (loop.ops_of s) o rest = record {
            total_left = λ w. (pick-IsPicked w n (loop.ops_of s) o rest e).0;
            length_left = (pick-IsPicked (λ p. 0) n (loop.ops_of s) o rest e).1;
          } in
          rw (e, loop_turn) (by_handler o rest c s taken q h)
    ]

    -- What every turn keeps, any turns keep.
    pub loop_turns-kept :
        (ts : List (LoopTurn Request Completion)) (s : State)
        → All (IsLoopTurn Q R) ts
        → P s
        → P (loop_turns ts s)
    unfolding loop_turns
    loop_turns-kept [] s q h = h
    loop_turns-kept (t ∷ ts) s q h =
        loop_turns-kept ts (loop_turn t s) q.1 (loop_turn-kept t s q.0 h)
