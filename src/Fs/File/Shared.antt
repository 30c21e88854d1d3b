-- ===== src/Fs/File/Shared.antt =====
-- Reads that share the array, and the references that they hold.
use lua_node.Base.{
  ℕ, ◌+◌, ◌-◌, ◌*◌, ◌≤◌, ◌≡◌, refl, ap, some, List, [], ◌∷◌, ◌++◌, arith, length, drop, pick,
  requests_of,
}
use lua_node.Lua.{Value}
use lua_node.Fs.File.{
  array_size, File, End, land, read_args, handle_read, Turn, asks, lands, finishes, handles, read,
  turn, turns, request, file_read,
}
use lua_node.Fs.File.Alone.{take_all, take-stored}

module _ (f g : Value) (m p n q : ℕ) where
  -- Two reads, all of whose bytes come one after the other before the handler of the first runs.
  abbrev pub overlap : End → List ℕ → List ℕ → List Turn
  overlap end a b =
      asks (read (some m) (some p) f)
      ∷ asks (read (some n) (some q) g)
      ∷ lands 1 a
      ∷ lands 1 b
      ∷ finishes 1 end
      ∷ handles 0 (some [])
      ∷ []

  -- Two reads of a file that has no others, which Asio fills with as many bytes each, one after the other, before
  -- the handler of the first runs: the callback of the first is given the bytes of the second.
  pub overwritten :
      (end : End) (a b array : List ℕ) (refs : ℕ) (log : List (Value × List Value))
      → length a ≡ length b
      → length b ≤ array_size
      → (turns
          (overlap end a b)
          (record { array = array; reading = []; ended = []; refs = refs; log = log })).log
        ≡ log ++ (f, read_args end b) ∷ []
  unfolding turns turn request file_read land handle_read pick requests_of
  overwritten end a b array refs log e l =
      rw
        (
          take_all (array_size - 0) a (omega (arith, e, l)),
          take_all (array_size - 0) b (omega (arith, l)),
          e,
        )
        (ap (λ bytes. log ++ (f, read_args end bytes) ∷ [])
          (take-stored 0 [] b (a ++ drop (0 + length b) array) refl refl))

-- Each read holds two references until its handler runs.
abbrev IsCounted : File → Type 0
IsCounted s = s.refs ≡ 2 * (length s.reading + length s.ended)
