-- ===== src/Net/Setup/Population.antt =====
-- How many sockets the program believes to have.
use lua_node.Base.{ℕ, ◌+◌, ◌%◌, ◌^◌, ◌≡◌, refl, ap, ◌∙◌, List, [], ◌∷◌, arith}
use lua_node.Net.Setup.{
  Sockets, SocketKind, tcp4, tcp6, unknown_kind, MakeAnswer, made, system_error, other_exception,
  Life, constructs, accepted, destroyed, live, lives,
}

-- The constructions that fail.
abbrev fails : SocketKind → MakeAnswer → ℕ
fails unknown_kind answer = 1
fails tcp4 made = 0
fails tcp6 made = 0
fails _ _ = 1

abbrev pub failed_in : Life → ℕ
failed_in (constructs kind answer) = fails kind answer
failed_in accepted = 0
failed_in destroyed = 0

abbrev pub failures : List Life → ℕ
failures [] = 0
failures (l ∷ rest) = failed_in l + failures rest

live-count :
    (l : Life) (s : Sockets) (n : ℕ)
    → s.count ≡ (s.alive + n) % 2 ^ 64
    → (live l s).count ≡ ((live l s).alive + (failed_in l + n)) % 2 ^ 64
unfolding live
live-count (constructs unknown_kind answer) s n h = ground arith
live-count (constructs tcp4 made) s n h = ground arith
live-count (constructs tcp4 (system_error e)) s n h = ground arith
live-count (constructs tcp4 other_exception) s n h = ground arith
live-count (constructs tcp6 made) s n h = ground arith
live-count (constructs tcp6 (system_error e)) s n h = ground arith
live-count (constructs tcp6 other_exception) s n h = ground arith
live-count accepted s n h = ground arith
live-count destroyed s n h = ground arith

lives-count_from :
    (ls : List Life) (s : Sockets) (n : ℕ)
    → s.count ≡ (s.alive + n) % 2 ^ 64
    → (lives ls s).count ≡ ((lives ls s).alive + (failures ls + n)) % 2 ^ 64
unfolding lives
lives-count_from [] s n h = ground arith
lives-count_from (l ∷ ls) s n h =
    lives-count_from ls (live l s) (failed_in l + n) (live-count l s n h)
    ∙ ap (λ k. ((lives ls (live l s)).alive + k) % 2 ^ 64) (omega arith)

-- Whatever sockets are made, accepted and destroyed: the count that the program keeps is, modulo 2^64, the
-- number of the sockets there are and of all the constructions that failed, each of which stays counted.
pub lives-count :
    (ls : List Life)
    → let s = lives ls (record { next_id = 0; count = 0; alive = 0 }) in
      s.count ≡ (s.alive + failures ls) % 2 ^ 64
lives-count ls =
    let s = lives ls (record { next_id = 0; count = 0; alive = 0 }) in
    lives-count_from ls (record { next_id = 0; count = 0; alive = 0 }) 0 refl
    ∙ ap (λ k. (s.alive + k) % 2 ^ 64) (omega arith)
