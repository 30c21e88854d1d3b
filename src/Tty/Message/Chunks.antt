-- ===== src/Tty/Message/Chunks.antt =====
-- A message may come in pieces: `Write` is called once for each, and the parser goes on where it was.
use lua_node.Base.{
  ℕ, ◌+◌, ◌≡◌, refl, sym, ◌∙◌, some, List, [], ◌∷◌, ◌++◌, map, append_assoc, append-nil, map-append,
  arith, ltb, length, Bool-cases, inl, inr, Option-cases,
}
use lua_node.Tty.Ansi.{Parser, Command, Output, silent, text, command}
use lua_node.Tty.Message.{
  Action, write_text, call, process_byte, parse, flush, deliver, deliver_all, process_message,
}

-- What the console receives, with the division into writes left out.
pub data Item : Type 0 where
  unit : ℕ → Item
  done : Command → Item

abbrev pub content : List Action → List Item
content [] = []
content (write_text us ∷ rest) = map unit us ++ content rest
content (call c ∷ rest) = done c ∷ content rest

abbrev pub items : List Output → List Item
items [] = []
items (silent ∷ os) = items os
items (text us ∷ os) = map unit us ++ items os
items (command c ∷ os) = done c ∷ items os

content-append : (xs ys : List Action) → content (xs ++ ys) ≡ content xs ++ content ys
content-append [] ys = refl
content-append (write_text us ∷ xs) ys = simp (content-append xs ys, append_assoc)
content-append (call c ∷ xs) ys = simp (content-append xs ys)

pub items-append : (xs ys : List Output) → items (xs ++ ys) ≡ items xs ++ items ys
items-append [] ys = refl
items-append (silent ∷ xs) ys = items-append xs ys
items-append (text us ∷ xs) ys = simp (items-append xs ys, append_assoc)
items-append (command c ∷ xs) ys = simp (items-append xs ys)

content-flush : (us : List ℕ) → content (flush us) ≡ map unit us
unfolding flush
content-flush [] = refl
content-flush (u ∷ us) = append-nil _

-- Buffering delays text, and neither loses, repeats nor reorders it.
pub content-deliver_all :
    (buffer : List ℕ) (os : List Output)
    → content (deliver_all buffer os) ≡ map unit buffer ++ items os
unfolding deliver_all
content-deliver_all buffer [] = content-flush buffer ∙ sym (append-nil _)
content-deliver_all buffer (silent ∷ os) = content-deliver_all buffer os
content-deliver_all buffer (command c ∷ os) =
    simp (content-append, content-flush, content-deliver_all [] os, append_assoc)
content-deliver_all buffer (text us ∷ os) =
    elim (Bool-cases (ltb 8192 (length buffer + length us))) [
      | inl e ↦ rw (e, deliver) (simp (content-deliver_all us os))
      | inr e ↦
          rw (e, deliver) (simp (content-deliver_all (buffer ++ us) os, map-append, append_assoc))
    ]

pub parse-append :
    (s : Parser) (a b : List ℕ) {s1 s2 : Parser} {x y : List Output}
    → parse s a ≡ some (s1, x)
    → parse s1 b ≡ some (s2, y)
    → parse s (a ++ b) ≡ some (s2, x ++ y)
unfolding parse
parse-append s [] b p q = ground arith
parse-append s (c ∷ a) b {s1} {s2} {x} {y} p q = elim (Option-cases (process_byte s c)) [
  | inl e ↦ absurd (ground arith)
  | inr ((t, o), e) ↦ elim (Option-cases (parse t a)) [
    | inl e' ↦ absurd (ground arith)
    | inr ((t', o'), e') ↦
        ground (arith, parse-append t a b {s1 = t'} {s2 = s2} {x = o'} {y = y}, append_assoc o o' y)
  ]
]

-- Splitting a message in two makes no difference: the same text and calls reach the console in the
-- same order, and the parser ends in the same state, wherever the cut falls, in the middle of a
-- character or of an escape sequence too.
pub process_message-append :
    (s : Parser) (a b : List ℕ) {s1 s2 : Parser} {x y : List Action}
    → process_message s a ≡ some (s1, x)
    → process_message s1 b ≡ some (s2, y)
    → (z : List Action) × (process_message s (a ++ b) ≡ some (s2, z))
      × (content z ≡ content x ++ content y)
unfolding process_message
process_message-append s a b {s1} {s2} {x} {y} p q = elim (Option-cases (parse s a)) [
  | inl e ↦ absurd (ground arith)
  | inr ((t, o), e) ↦ elim (Option-cases (parse t b)) [
    | inl e' ↦ absurd (ground arith)
    | inr ((t', o'), e') ↦ (
      deliver_all [] (o ++ o'),
      ground (arith, parse-append s a b {s1 = t} {s2 = t'} {x = o} {y = o'}),
      ground (
        arith,
        content-deliver_all [] o,
        content-deliver_all [] o',
        content-deliver_all [] (o ++ o'),
        items-append o o',
      ),
    )
  ]
]
