-- ===== src/Fs/File/Alone.antt =====
-- A read that has the array to itself.
use lua_node.Base.{
  ℕ, zero, suc, ◌+◌, ◌-◌, ◌%◌, ◌^◌, ◌≤◌, ◌≡◌, refl, ap, ◌∙◌, subst, some, List, [], ◌∷◌, ◌++◌, map,
  append-nil, arith, length, take, drop, length-append, take-append, pick, requests_of,
}
use lua_node.Lua.{Value}
use lua_node.Fs.File.{
  array_size, File, End, stored, land, read_args, handle_read, asks, lands, finishes, handles, read,
  turn, turns, request, file_read,
}

abbrev pub joined : List (List ℕ) → List ℕ
joined [] = []
joined (piece ∷ rest) = piece ++ joined rest

pub take_all : (n : ℕ) (xs : List ℕ) → length xs ≤ n → take n xs ≡ xs
take_all zero [] h = refl
take_all zero (x ∷ xs) h = absurd (omega (arith, h))
take_all (suc n) [] h = refl
take_all (suc n) (x ∷ xs) h = ap (λ ys. x ∷ ys) (take_all n xs (omega (arith, h)))

take-take : (n : ℕ) (xs ys : List ℕ) → take n (take n xs ++ ys) ≡ take n (xs ++ ys)
take-take zero xs ys = refl
take-take (suc n) [] ys = refl
take-take (suc n) (x ∷ xs) ys = ap (λ zs. x ∷ zs) (take-take n xs ys)

length-take : (n : ℕ) (xs : List ℕ) → length (take n xs) ≤ n
length-take zero xs = omega arith
length-take (suc n) [] = omega arith
length-take (suc n) (x ∷ xs) = omega (arith, length-take n xs)

-- Only what fits after `xs` counts.
take-fitting :
    (n m : ℕ) (xs ys zs : List ℕ)
    → length xs + m ≡ n
    → take n ((xs ++ take m ys) ++ zs) ≡ take n (xs ++ (ys ++ zs))
take-fitting n m [] ys zs h =
    let same : m ≡ n = omega (arith, h) in
    subst (λ k. take k (take m ys ++ zs) ≡ take k (ys ++ zs)) same (take-take m ys zs)
take-fitting zero m (x ∷ xs) ys zs h = refl
take-fitting (suc n) m (x ∷ xs) ys zs h =
    ap (λ ws. x ∷ ws) (take-fitting n m xs ys zs (omega (arith, h)))

-- Bytes stored behind the first ones.
pub take-stored :
    (n : ℕ) (xs bytes array : List ℕ)
    → take n array ≡ xs
    → length xs ≡ n
    → take (n + length bytes) (stored n bytes array) ≡ xs ++ bytes
take-stored n xs bytes array e l =
    let places : n + length bytes ≡ length (xs ++ bytes) =
      omega (arith, l, length-append xs bytes) in
    rw (e, places) (take-append (xs ++ bytes) (drop (length (xs ++ bytes)) array))

alone_from :
    (end : End) (position : ℕ) (callback : Value) (refs : ℕ) (log : List (Value × List Value))
    (pieces : List (List ℕ)) (got : ℕ) (bytes array : List ℕ)
    → take got array ≡ bytes
    → length bytes ≡ got
    → length bytes ≤ array_size
    → let s : File = record {
      array = array;
      reading = record { position = position; callback = callback; got = got } ∷ [];
      ended = [];
      refs = refs;
      log = log;
    } in
      (turns (map (lands 0) pieces ++ finishes 0 end ∷ handles 0 (some []) ∷ []) s).log
      ≡ log ++ (callback, read_args end (take array_size (bytes ++ joined pieces))) ∷ []
unfolding turns turn land handle_read pick requests_of
alone_from end position callback refs log [] got bytes array e l f =
    let whole : take array_size (bytes ++ []) ≡ bytes =
      rw (append-nil bytes) (take_all array_size bytes f) in
    rw (whole, e) refl
alone_from end position callback refs log (piece ∷ pieces) got bytes array e l f =
    let fitting = take (array_size - got) piece in
    let short : length fitting ≤ array_size - got = length-take (array_size - got) piece in
    alone_from end position callback refs log pieces (got + length fitting) (bytes ++ fitting)
      (stored got fitting array) (take-stored got bytes fitting array e l)
      (omega (arith, l, length-append bytes fitting))
      (omega (arith, l, f, short, length-append bytes fitting))
    ∙ ap (λ told. log ++ (callback, read_args end told) ∷ [])
        (take-fitting array_size (array_size - got) bytes piece (joined pieces)
          (omega (arith, l, f)))

-- A read with no other in flight, whose bytes come in any pieces: the callback is given the pieces joined, up to
-- the 8192 bytes that the array has room for, whatever length was asked for, and their number; or the error.
pub read-alone :
    (len position : ℕ) (callback : Value) (pieces : List (List ℕ)) (end : End) (s : File)
    → s.reading ≡ []
    → s.ended ≡ []
    → (turns
        (asks (read (some len) (some position) callback) ∷ map (lands 0) pieces
          ++ finishes 0 end ∷ handles 0 (some []) ∷ [])
        s).log
      ≡ s.log ++ (callback, read_args end (take array_size (joined pieces))) ∷ []
unfolding turns turn request file_read
read-alone len position callback pieces end s h k =
    rw (h, k)
      (alone_from end (position % 2 ^ 32) callback (s.refs + 2) s.log pieces 0 [] s.array refl refl
        (omega arith))
