-- ===== src/Crypto/Handlers/Turns.antt =====
-- What every turn of the event loop keeps, any turns keep.
use lua_node.Base.{
  ℕ, suc, ◌+◌, ◌≡◌, List, [], ◌∷◌, inl, inr, Option-cases, length, total, All, pick, pick-IsPicked,
}
use lua_node.Lua.{ErrorCode}
use lua_node.Crypto.Socket.{Op, write_op, read_op, Event, Socket, Request, request}
use lua_node.Crypto.Handlers.{
  Scripts, Completion, complete_op, Turn, lua_calls, completes, runs_elsewhere, turn, turns,
}
use lua_node.Crypto.Handlers.Kept.{AreScripts}

abbrev pub is_write : Op → ℕ
is_write (write_op bytes) = 1
is_write _ = 0

abbrev pub is_read : Op → ℕ
is_read (read_op kind) = 1
is_read _ = 0

abbrev pub writes : List Op → ℕ
writes os = total is_write os

abbrev pub reads : List Op → ℕ
reads os = total is_read os

-- The operation `o` stands somewhere in the list, and the others are `rest`.
pub record IsTaken (os : List Op) (o : Op) (rest : List Op) : Type 0 where
  pub writes_left : writes os ≡ is_write o + writes rest
  pub reads_left : reads os ≡ is_read o + reads rest
  pub length_left : length os ≡ suc (length rest)

-- Lua and the callbacks make only requests of the kind `Q`.
abbrev pub IsTurn : (Request → Type 0) → Turn → Type 0
IsTurn Q (lua_calls r) = Q r
IsTurn Q (completes n c scripts) = AreScripts Q scripts
IsTurn Q runs_elsewhere = Unit {0}

pub record IsKeptByTurns (close_result : List Event → ErrorCode) (Q : Request → Type 0)
    (P : Socket → Type 0) : Type 0 where
  pub by_request : (r : Request) (s : Socket) → Q r → P s → P (request close_result r s).0
  pub by_settop : (s : Socket) → P s → P (record s { stray = 0 })
  pub by_handler :
      (o : Op) (rest : List Op) (c : Completion) (scripts : Scripts) (s : Socket)
      → IsTaken s.ops o rest
      → AreScripts Q scripts
      → P s
      → P (complete_op close_result o c scripts (record s { ops = rest }))

module _ {close_result : List Event → ErrorCode} {Q : Request → Type 0} {P : Socket → Type 0}
    (kept : IsKeptByTurns close_result Q P) where
  turn-kept : (t : Turn) (s : Socket) → IsTurn Q t → P s → P (turn close_result t s)
  unfolding turn
  turn-kept (lua_calls r) s q h = kept.by_request r s q h
  turn-kept runs_elsewhere s q h = kept.by_settop s h
  turn-kept (completes n c scripts) s q h = elim (Option-cases (pick n s.ops)) [
    | inl e ↦ rw (e, turn) h
    | inr ((o, rest), e) ↦
        let (w, l) = pick-IsPicked is_write n s.ops o rest e in
        let (r, _) = pick-IsPicked is_read n s.ops o rest e in
        let taken : IsTaken s.ops o rest = record {
          writes_left = w;
          reads_left = r;
          length_left = l;
        } in
        rw (e, turn) (kept.by_handler o rest c scripts s taken q h)
  ]

  pub turns-kept :
      (ts : List Turn) (s : Socket) → All (IsTurn Q) ts → P s → P (turns close_result ts s)
  unfolding turns
  turns-kept [] s q h = h
  turns-kept (t ∷ ts) s q h = turns-kept ts _ q.1 (turn-kept t s q.0 h)
