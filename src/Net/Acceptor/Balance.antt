-- ===== src/Net/Acceptor/Balance.antt =====
-- Every accept is answered once, by the callback of the acceptor.
use lua_node.Base.{
  ℕ, zero, suc, ◌+◌, ◌-◌, ◌≡◌, refl, List, [], ◌∷◌, ◌++◌, length, length-append, arith, All,
  All-append, Option, none, some, Option-cases, inl, inr, pick, pick-IsPicked, total,
}
use lua_node.Lua.{Value, self}
use lua_node.Net.Acceptor.{
  Acceptor, new_acceptor, acceptor_accept, accepts, Event, called_with_peer, called_with_error,
  Completion, failed, gone, connected, object_below, handle_accept, Turn, lua_accepts, completes,
  runs_elsewhere, turn, turns,
}

-- The acceptor, and any other value.
abbrev not_own : Value → ℕ
not_own self = 0
not_own _ = 1

abbrev pub IsTold : Event → Type 0
IsTold (called_with_peer v peer) = not_own v ≡ 0
IsTold (called_with_error v args) = not_own v ≡ 0

abbrev pub IsOwnBottom : Option Value → Type 0
IsOwnBottom none = Unit {0}
IsOwnBottom (some v) = not_own v ≡ 0

pub record IsBalanced (a : Acceptor) : Type 0 where
  pub answered : length a.waiting + length a.log ≡ a.asked
  pub held : a.refs ≡ length a.waiting
  pub told : All IsTold a.log
  pub own : total not_own a.waiting ≡ 0
  pub below : IsOwnBottom a.bottom

-- The handlers of other objects leave nothing on the Lua stack.
abbrev pub LeavesNothing : Turn → Type 0
LeavesNothing lua_accepts = Unit {0}
LeavesNothing (completes i c n) = Unit {0}
LeavesNothing (runs_elsewhere left) = left ≡ none

accepts-IsBalanced : (n : ℕ) (a : Acceptor) → IsBalanced a → IsBalanced (accepts n a)
unfolding accepts acceptor_accept
accepts-IsBalanced zero a b = b
accepts-IsBalanced (suc n) a b = accepts-IsBalanced n _ (record {
  answered = omega (arith, b.answered);
  held = omega (arith, b.held);
  told = b.told;
  own = omega (arith, b.own);
  below = b.below;
})

settop-IsBalanced : (a : Acceptor) → IsBalanced a → IsBalanced (record a { bottom = none })
settop-IsBalanced a b = record {
  answered = b.answered;
  held = b.held;
  told = b.told;
  own = b.own;
  below = tt;
}

-- An accept has ended, and its reference is still held.
record HasEnded (target : Value) (a : Acceptor) : Type 0 where
  answered : length a.waiting + 1 + length a.log ≡ a.asked
  held : a.refs ≡ length a.waiting + 1
  told : All IsTold a.log
  own : not_own target + total not_own a.waiting ≡ 0
  below : IsOwnBottom a.bottom

object_below-own :
    (o : Option Value) (target : Value)
    → IsOwnBottom o
    → not_own target ≡ 0
    → not_own (object_below o target) ≡ 0
unfolding object_below
object_below-own none target h k = k
object_below-own (some v) target h k = h

notified-IsBalanced :
    (n : ℕ) (e : Event) (target : Value) (a : Acceptor)
    → HasEnded target a
    → IsTold e
    → IsBalanced (record (accepts n (record a { log = a.log ++ e ∷ []; refs = a.refs - 1 })) {
      bottom = none;
    })
notified-IsBalanced n e target a h q = settop-IsBalanced _ (
    accepts-IsBalanced n _ (record {
      answered = omega (arith, h.answered, length-append a.log (e ∷ []));
      held = omega (arith, h.held);
      told = All-append IsTold a.log (e ∷ []) h.told (q, tt);
      own = omega (arith, h.own);
      below = h.below;
    }))

handle_accept-IsBalanced :
    (target : Value) (c : Completion) (n : ℕ) (a : Acceptor)
    → HasEnded target a
    → IsBalanced (handle_accept target c n a)
unfolding handle_accept acceptor_accept
handle_accept-IsBalanced target (failed e) n a h =
    notified-IsBalanced n _ target a h
      (object_below-own a.bottom target h.below (omega (arith, h.own)))
handle_accept-IsBalanced target (connected peer) n a h =
    notified-IsBalanced n _ target a h
      (object_below-own a.bottom target h.below (omega (arith, h.own)))
handle_accept-IsBalanced target (gone e) n a h =
    let q = object_below-own a.bottom target h.below (omega (arith, h.own)) in
    record {
      answered = omega (arith, h.answered);
      held = omega (arith, h.held);
      told = h.told;
      own = omega (arith, h.own, q);
      below = q;
    }

turn-IsBalanced : (t : Turn) (a : Acceptor) → LeavesNothing t → IsBalanced a → IsBalanced (turn t a)
unfolding turn
turn-IsBalanced lua_accepts a q b = accepts-IsBalanced 1 a b
turn-IsBalanced (runs_elsewhere none) a q b = settop-IsBalanced a b
turn-IsBalanced (runs_elsewhere (some v)) a q b = absurd (ground (arith, q))
turn-IsBalanced (completes i c n) a q b = elim (Option-cases (pick i a.waiting)) [
  | inl e ↦ rw (e, turn) b
  | inr ((v, rest), e) ↦
      let (w, l) = pick-IsPicked not_own i a.waiting v rest e in
      rw (e, turn)
        (handle_accept-IsBalanced v c n _ (record {
          answered = omega (arith, b.answered, l);
          held = omega (arith, b.held, l);
          told = b.told;
          own = omega (arith, b.own, w);
          below = b.below;
        }))
]

turns_from-IsBalanced :
    (ts : List Turn) (a : Acceptor) → All LeavesNothing ts → IsBalanced a → IsBalanced (turns ts a)
unfolding turns
turns_from-IsBalanced [] a q b = b
turns_from-IsBalanced (t ∷ ts) a q b =
    turns_from-IsBalanced ts (turn t a) q.1 (turn-IsBalanced t a q.0 b)

-- After any turns of the event loop, as long as the handlers of other objects leave nothing on the Lua stack:
-- each call of `accept` by Lua has either been answered by one call of a callback or is in flight still
-- (so after a connection that was lost before its peer was known); each callback that was called is that of
-- this acceptor; and each accept in flight has a reference of the registry of its own, which stands for this
-- acceptor, as does what is left on the stack, if anything is.
pub turns-IsBalanced : (ts : List Turn) → All LeavesNothing ts → IsBalanced (turns ts new_acceptor)
unfolding new_acceptor
turns-IsBalanced ts q =
    turns_from-IsBalanced ts new_acceptor q
      (record { answered = refl; held = refl; told = tt; own = refl; below = tt })
