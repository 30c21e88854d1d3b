-- ===== src/Fs/Tests.antt =====
-- Files on concrete inputs.
use lua_node.Base.{ℕ, ◌≡◌, refl, some, List, [], ◌∷◌, ◌++◌, arith, map, take, pick, requests_of}
use lua_node.Lua.{self, nil, string, integer, other}
use lua_node.Fs.File.{
  File, at_eof, array_size, read_args, land, handle_read, request, file_read, turn, turns, asks,
  lands, finishes, handles, read, Turn,
}
use lua_node.Fs.File.Alone.{joined, read-alone}
use lua_node.Fs.File.Shared.{overlap, overwritten}

abbrev zeros : List ℕ
zeros = 0 ∷ 0 ∷ 0 ∷ 0 ∷ []

abbrev opened : File
opened = record { array = zeros; reading = []; ended = []; refs = 0; log = [] }

read-alone_example :
    (turns
      (asks (read (some 2) (some 100) (other 5)) ∷ map (lands 0) ((1 ∷ 2 ∷ []) ∷ (3 ∷ []) ∷ [])
        ++ finishes 0 at_eof ∷ handles 0 (some []) ∷ [])
      opened).log
    ≡ (other 5, read_args at_eof (take array_size (joined ((1 ∷ 2 ∷ []) ∷ (3 ∷ []) ∷ [])))) ∷ []
read-alone_example =
    read-alone 2 100 (other 5) ((1 ∷ 2 ∷ []) ∷ (3 ∷ []) ∷ []) at_eof opened refl refl

-- Two bytes were asked for.
three_bytes :
    (turns
      (asks (read (some 2) (some 100) (other 5))
        ∷ lands 0 (1 ∷ 2 ∷ 3 ∷ [])
        ∷ finishes 0 at_eof
        ∷ handles 0 (some [])
        ∷ [])
      opened).log
    ≡ (other 5, self ∷ nil ∷ string (1 ∷ 2 ∷ 3 ∷ []) ∷ integer 3 ∷ []) ∷ []
unfolding turns turn request file_read land handle_read pick requests_of array_size
three_bytes = refl

second_bytes :
    (turns (overlap (other 5) (other 6) 2 0 2 64 at_eof (1 ∷ 2 ∷ []) (3 ∷ 4 ∷ [])) opened).log
    ≡ (other 5, self ∷ nil ∷ string (3 ∷ 4 ∷ []) ∷ integer 2 ∷ []) ∷ []
unfolding array_size
second_bytes =
    overwritten (other 5) (other 6) 2 0 2 64 at_eof (1 ∷ 2 ∷ []) (3 ∷ 4 ∷ []) zeros 0 [] refl
      (omega arith)

-- A read whose callback reads again, and a read that is still going on.
abbrev session : List Turn
session =
    asks (read (some 2) (some 0) (other 5))
    ∷ asks (read (some 2) (some 0) (other 6))
    ∷ finishes 1 at_eof
    ∷ handles 0 (some (read (some 1) (some 2) (other 5) ∷ []))
    ∷ []
