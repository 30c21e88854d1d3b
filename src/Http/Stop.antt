-- ===== src/Http/Stop.antt =====
-- What an exception in a callback stops.
use lua_node.Base.{
  not, ◌&&◌, ◌==◌, ℕ, if_cases, ◌≡◌, ◌+◌, ◌≤◌, refl, Bool, true, false, Option, none, some, List,
  [], ◌∷◌, ◌++◌, arith, length, take, drop,
}
use lua_node.Base.Int.{ℤ, pos, negsuc}
use lua_node.Lua.{top_of, Value, self, Outcome, returns}
use lua_node.Http.{
  LuaCall, LuaSide, is_nil, Run, finished, gives, Library, HttpParser, Notice, answer, on_notice,
  run, parser_execute, reply, message_begin, message_complete, url, header_field, header_value,
  body, headers_complete,
}

-- The parser goes no further when a callback returns -1: it gives no other notice in this run. Documented in
-- the comments of http_parser.h, and true of its macros for callbacks.
abbrev pub IsStopped : {S : Type 0} → Run S → Type 0
IsStopped (finished s n upgrade) = Unit
IsStopped (gives n k) = ⊥

abbrev pub Stops : {S : Type 0} → Run S → Type 0
Stops (finished s n upgrade) = Unit
Stops (gives n k) = IsStopped (k (negsuc 0)) × ((code : ℤ) → Stops (k code))

-- From the first calls to the second: each call found a function there, and none of them returned `nil` on
-- top but, where the flag is set, the last.
pub data Trace (lua : LuaSide) : List LuaCall → List LuaCall → Bool → Type 0 where
  quiet : {a : List LuaCall} → Trace lua a a false
  answered :
      {a b : List LuaCall} {x : Bool} (c : LuaCall) (results : List Value)
      → lua a c ≡ some results
      → is_nil (top_of self results) ≡ false
      → Trace lua (a ++ c ∷ []) b x
      → Trace lua a b x
  refused :
      {a : List LuaCall} (c : LuaCall) (results : List Value)
      → lua a c ≡ some results
      → is_nil (top_of self results) ≡ true
      → Trace lua a (a ++ c ∷ []) true

module _ (lua : LuaSide) {S : Type 0} where
  -- What one notice does.
  data Notified (p : HttpParser S) : HttpParser S × ℤ → Type 0 where
    passed : Notified p (p, pos 0)
    went_on :
        (c : LuaCall) (results : List Value) (code : ℤ)
        → lua p.calls c ≡ some results
        → is_nil (top_of self results) ≡ false
        → Notified p (record p { calls = p.calls ++ c ∷ [] }, code)
    stopped :
        (c : LuaCall) (results : List Value)
        → lua p.calls c ≡ some results
        → is_nil (top_of self results) ≡ true
        → Notified p (record p { calls = p.calls ++ c ∷ []; got_exception = true }, negsuc 0)

  answer-Notified :
      (c : LuaCall) (o : Option (List Value)) (p : HttpParser S)
      → lua p.calls c ≡ o
      → Notified p (answer lua c o p)
  unfolding answer
  answer-Notified c none p e = passed
  answer-Notified c (some results) p e =
      if_cases (Notified p) (is_nil (top_of self results)) _ _ (λ n. stopped c results e n)
        (λ n. went_on c results _ e n)

  on_notice-Notified : (n : Notice) (p : HttpParser S) → Notified p (on_notice lua n p)
  unfolding on_notice
  on_notice-Notified message_begin p = answer-Notified _ _ p refl
  on_notice-Notified message_complete p = answer-Notified _ _ p refl
  on_notice-Notified (url []) p = passed
  on_notice-Notified (url (b ∷ bs)) p = answer-Notified _ _ p refl
  on_notice-Notified (header_field []) p = passed
  on_notice-Notified (header_field (b ∷ bs)) p = answer-Notified _ _ p refl
  on_notice-Notified (header_value bs) p = answer-Notified _ _ p refl
  on_notice-Notified (body bs) p = answer-Notified _ _ p refl
  on_notice-Notified (headers_complete h) p = answer-Notified _ _ p refl

  abbrev Traced : HttpParser S → HttpParser S → Type 0
  Traced p q = Trace lua p.calls q.calls q.got_exception

  stopped-run :
      (r : Run S) (p : HttpParser S)
      → IsStopped r
      → ((run lua r p).0.calls ≡ p.calls) × ((run lua r p).0.got_exception ≡ p.got_exception)
  unfolding run
  stopped-run (finished s n upgrade) p h = (refl, refl)
  stopped-run (gives n k) p h = absurd h

  after_notice :
      (k : ℤ → Run S) (p : HttpParser S) (r : HttpParser S × ℤ)
      → Notified p r
      → p.got_exception ≡ false
      → IsStopped (k (negsuc 0))
      → ((code : ℤ) (q : HttpParser S) → q.got_exception ≡ false → Traced q (run lua (k code) q).0)
      → Traced p (run lua (k r.1) r.0).0
  after_notice k p _ passed e h next = next _ p e
  after_notice k p _ (went_on c results code f n) e h next = answered c results f n (next code _ e)
  after_notice k p _ (stopped c results f n) e h next =
      let (a, b) =
        stopped-run (k (negsuc 0)) (record p { calls = p.calls ++ c ∷ []; got_exception = true })
          h in
      rw (a, b) (refused c results f n)

  run-Trace :
      (r : Run S) (p : HttpParser S) → Stops r → p.got_exception ≡ false → Traced p (run lua r p).0
  unfolding run
  run-Trace (finished s n upgrade) p h e = rw e quiet
  run-Trace (gives n k) p h e =
      after_notice k p (on_notice lua n p) (on_notice-Notified n p) e h.0
        (λ code q f. run-Trace (k code) q (h.1 code) f)

abbrev pub is_silent : Outcome → Bool
is_silent (returns []) = true
is_silent _ = false

reply-is_silent :
    (library : Library) (lua : LuaSide) (len : ℕ) (exception : Bool) (n : ℕ) (upgrade : Bool)
    → is_silent (reply library lua len exception n upgrade) ≡ exception
reply-is_silent library lua len true n upgrade = refl
reply-is_silent library lua len false n upgrade =
    if_cases (λ o. is_silent o ≡ false) (not upgrade && not (n == len)) _ _ (λ e. refl) (λ e. refl)

-- `execute` on a part of the buffer, with a parser that goes no further when a callback returns -1: each call
-- of Lua found a function, and none but the last left `nil` on top of the stack. The last did exactly
-- where `m_got_exception` is set at the end, whatever it was before, and then, and only then, the method returns
-- nothing.
pub parser_execute-Trace :
    (library : Library) (lua : LuaSide) (buffer : List ℕ) (offset len : ℕ)
    (p : HttpParser library.State)
    → offset + len ≤ length buffer
    → Stops (library.execute p.state (take len (drop offset buffer)))
    → (q : HttpParser library.State) × (o : Outcome) × (parser_execute library lua buffer offset len
          p
        ≡ some (q, o))
      × Trace lua p.calls q.calls q.got_exception
      × (is_silent o ≡ q.got_exception)
unfolding parser_execute
parser_execute-Trace library lua buffer offset len p h stops =
    let r =
      run lua (library.execute p.state (take len (drop offset buffer)))
        (record p { got_exception = false }) in
    (
      r.0,
      reply library lua len r.0.got_exception r.1 r.2,
      ground arith,
      run-Trace lua _ _ stops refl,
      reply-is_silent library lua len r.0.got_exception r.1 r.2,
    )
