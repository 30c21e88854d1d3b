-- ===== src/Tty/Message/Safety.antt =====
-- `ProcessMessage` on any bytes: it never reaches `abort`, and never overruns its buffers.
use lua_node.Base.{
  ℕ, ◌+◌, ◌≤◌, ◌<◌, ◌≡◌, refl, Bool, Option, none, some, List, [], ◌∷◌, ◌++◌, arith, ltb, ◌==◌,
  length, length-append, All, All-append, Bool-cases, inl, inr,
}
use lua_node.Tty.Utf8.{Decoder, decode_byte}
use lua_node.Tty.Ansi.{Parser, Output, silent, text, command, print, new_parser}
use lua_node.Tty.Ansi.Safety.{
  IsValid, parse_escape-IsValid, print-IsValid, IsQuiet, parse_escape-IsQuiet,
}
use lua_node.Tty.Message.{
  Action, write_text, call, finish, iteration, process_byte, parse, flush, deliver, deliver_all,
  process_message, process_messages,
}

abbrev IsUnit : ℕ → Type 0
IsUnit u = u < 65536

-- Text comes one or two units at a time.
abbrev IsChunk : Output → Type 0
IsChunk (text us) = (0 < length us) × (length us ≤ 2) × All IsUnit us
IsChunk _ = Unit {0}

-- A write to the console has at least one unit, at most what the buffer holds, and 16-bit units.
abbrev pub IsWrite : Action → Type 0
IsWrite (write_text us) = (0 < length us) × (length us ≤ 8192) × All (λ u. u < 65536) us
IsWrite (call c) = Unit {0}

print-IsChunk : (s : Parser) → IsChunk (print s).1
unfolding print
print-IsChunk s = ground arith

finish-IsValid :
    (r : Parser × Option Output)
    → IsValid r.0
    → IsQuiet r.1
    → IsValid (finish r).0 × IsChunk (finish r).1
unfolding finish
finish-IsValid (s, none) v q = (print-IsValid s v, print-IsChunk s)
finish-IsValid (s, some silent) v q = (v, tt)
finish-IsValid (s, some (text us)) v q = absurd q
finish-IsValid (s, some (command c)) v q = (v, tt)

decoded-IsValid : (s : Parser) (d : Decoder) → IsValid s → IsValid (record s { decoder = d })
decoded-IsValid s d v = ground arith

iteration-IsValid :
    (s : Parser) (c : ℕ)
    → IsValid s
    → (r : Parser × Output × Bool) × (iteration s c ≡ some r) × IsValid r.0 × IsChunk r.1
unfolding iteration
iteration-IsValid s c v =
    let (d, b) = decode_byte s.decoder c in
    let s' = record s { decoder = d } in
    let w = decoded-IsValid s d v in
    let (r, e, w') = parse_escape-IsValid s' d.codepoint w in
    let (u, q) = finish-IsValid r w' (parse_escape-IsQuiet s' d.codepoint e) in
    elim (Bool-cases (d.bytes_left == 0)) [
      | inl h ↦ (((finish r).0, (finish r).1, b), rw (h, e), u, q)
      | inr h ↦ ((s', silent, b), rw h, w, tt)
    ]

pub process_byte-IsValid :
    (s : Parser) (c : ℕ)
    → IsValid s
    → (r : Parser × List Output) × (process_byte s c ≡ some r) × IsValid r.0 × All IsChunk r.1
unfolding process_byte
process_byte-IsValid s c v =
    let ((s1, o1, b), e, v1, q) = iteration-IsValid s c v in
    let ((s2, o2, b'), e', v2, q') = iteration-IsValid s1 c v1 in
    elim (Bool-cases b) [
      | inl h ↦ ((s1, o1 ∷ []), rw (e, h), v1, (q, tt))
      | inr h ↦ ((s2, o1 ∷ o2 ∷ []), rw (e, h, e'), v2, (q, (q', tt)))
    ]

pub parse-IsValid :
    (s : Parser) (cs : List ℕ)
    → IsValid s
    → (r : Parser × List Output) × (parse s cs ≡ some r) × IsValid r.0 × All IsChunk r.1
unfolding parse
parse-IsValid s [] v = ((s, []), refl, v, tt)
parse-IsValid s (c ∷ cs) v =
    let ((s1, o1), e, v1, q) = process_byte-IsValid s c v in
    let ((s2, o2), e', v2, q') = parse-IsValid s1 cs v1 in
    ((s2, o1 ++ o2), rw (e, e'), v2, All-append IsChunk o1 o2 q q')

abbrev Fits : List ℕ → Type 0
Fits us = (length us ≤ 8192) × All IsUnit us

flush-IsWrite : (buffer : List ℕ) → Fits buffer → All IsWrite (flush buffer)
unfolding flush
flush-IsWrite [] h = tt
flush-IsWrite (u ∷ us) h = ((omega arith, h.0, h.1), tt)

deliver-IsWrite :
    (buffer : List ℕ) (o : Output)
    → Fits buffer
    → IsChunk o
    → Fits (deliver buffer o).0 × All IsWrite (deliver buffer o).1
unfolding deliver
deliver-IsWrite buffer silent h q = (h, tt)
deliver-IsWrite buffer (command c) h q =
    ((omega arith, tt), All-append IsWrite (flush buffer) _ (flush-IsWrite buffer h) (tt, tt))
deliver-IsWrite buffer (text us) h q = elim (Bool-cases (ltb 8192 (length buffer + length us))) [
  | inl e ↦ rw e ((omega (arith, q.1), q.2), ((ground arith, h.0, h.1), tt))
  | inr e ↦
      rw e ((ground (arith, length-append buffer us), All-append IsUnit buffer us h.1 q.2), tt)
]

deliver_all-IsWrite :
    (buffer : List ℕ) (os : List Output)
    → Fits buffer
    → All IsChunk os
    → All IsWrite (deliver_all buffer os)
unfolding deliver_all
deliver_all-IsWrite buffer [] h q = flush-IsWrite buffer h
deliver_all-IsWrite buffer (o ∷ os) h q =
    let (fits, writes) = deliver-IsWrite buffer o h q.0 in
    All-append IsWrite (deliver buffer o).1 _ writes
      (deliver_all-IsWrite (deliver buffer o).0 os fits q.1)

-- From a valid parser state every message, whatever its bytes, is processed to its end (the
-- `abort` of an inconsistent state is not reached), the state it leaves is valid again (at most four
-- arguments, all of 16 bits), and each write to the console carries between 1 and 8192 units
-- of 16 bits.
pub process_message-IsValid :
    (s : Parser) (message : List ℕ)
    → IsValid s
    → (r : Parser × List Action) × (process_message s message ≡ some r)
      × IsValid r.0
      × All IsWrite r.1
unfolding process_message
process_message-IsValid s message v =
    let ((s', os), e, v', q) = parse-IsValid s message v in
    ((s', deliver_all [] os), rw e, v', deliver_all-IsWrite [] os (omega arith, tt) q)

process_messages_from :
    (s : Parser) (ms : List (List ℕ))
    → IsValid s
    → (r : Parser × List Action) × (process_messages s ms ≡ some r) × IsValid r.0 × All IsWrite r.1
unfolding process_messages
process_messages_from s [] v = ((s, []), refl, v, tt)
process_messages_from s (m ∷ ms) v =
    let ((s1, x), e, v1, w1) = process_message-IsValid s m v in
    let ((s2, y), f, v2, w2) = process_messages_from s1 ms v1 in
    ((s2, x ++ y), rw (e, f), v2, All-append IsWrite x y w1 w2)

-- A stream that was just made, whatever the memory of its counter and its four 16-bit arguments held,
-- processes every list of messages to its end: `abort` is never reached, the state is
-- valid (at most four arguments, all of 16 bits), and each write to the console carries between 1 and
-- 8192 units of 16 bits.
pub process_messages-IsValid :
    (argc : ℕ) (argv : List ℕ) (ms : List (List ℕ))
    → length argv ≡ 4
    → All (λ x. x < 65536) argv
    → (r : Parser × List Action) × (process_messages (new_parser argc argv) ms ≡ some r)
      × IsValid r.0
      × All IsWrite r.1
process_messages-IsValid argc argv ms h k =
    process_messages_from (new_parser argc argv) ms (ground arith)
