-- ===== src/Http.antt =====
-- `LuaNode::Http::Parser` (src/luanode_http_parser.h, src/luanode_http_parser.cpp): the callbacks between
-- the HTTP parser of deps/http-parser and Lua. The parser itself is a parameter: it reads bytes, gives
-- notices, and sees what the callbacks return.
pub mod Stop
mod Tests
use Prim.Native.String.{String}
use lua_node.Base.{
  ℕ, ◌+◌, Bool, true, false, not, ◌&&◌, Option, none, some, List, [], ◌∷◌, ◌++◌, leb, ◌==◌,
  if◌then◌else◌, length, take, drop,
}
use lua_node.Base.Int.{ℤ, pos, negsuc}
use lua_node.Lua.{
  top_of, Value, nil, self, boolean, integer, string, message, other, Outcome, returns,
}

pub data Method : Type 0 where
  delete get head post put connect options trace copy lock mkcol move propfind proppatch : Method
  unlock report mkactivity checkout merge msearch notify subscribe unsubscribe patch purge : Method
  other_method : Method

-- As they are spelled there.
pub method_to_str : Method → String
method_to_str delete = "DELETE"
method_to_str get = "GET"
method_to_str head = "HEAD"
method_to_str post = "POST"
method_to_str put = "PUT"
method_to_str connect = "CONNECT"
method_to_str options = "OPTIONS"
method_to_str trace = "TRACE"
method_to_str copy = "COPY"
method_to_str lock = "LOCK"
method_to_str mkcol = "MKCOL"
method_to_str move = "MOVE"
method_to_str propfind = "PROPFIND"
method_to_str proppatch = "PROPPATCH"
method_to_str unlock = "UNLOCK"
method_to_str report = "REPORT"
method_to_str mkactivity = "MKACTIVITY"
method_to_str checkout = "CHECKOUT"
method_to_str merge = "MERGE"
method_to_str msearch = "M-SEARCH"
method_to_str notify = "NOTIFY"
method_to_str subscribe = "SUBSCRIBE"
method_to_str unsubscribe = "UNSUSCRIBE"
method_to_str patch = "PATCH"
method_to_str purge = "PURGE"
method_to_str other_method = "UNKNOWN"

-- enum http_parser_type, of the two kinds that Lua can ask for.
pub data ParserType : Type 0 where
  http_request http_response : ParserType

-- What the parser knows at the end of the headers.
pub record Headers : Type 0 where
  pub kind : ParserType
  pub method : Method
  pub status_code : ℕ
  pub http_major : ℕ
  pub http_minor : ℕ
  pub should_keep_alive : Bool
  pub upgrade : Bool

-- A call of one of the functions of `s_settings`.
pub data Notice : Type 0 where
  message_begin message_complete : Notice
  url header_field header_value body : List ℕ → Notice
  headers_complete : Headers → Notice

-- The table that Lua is given at the end of the headers.
pub record Table : Type 0 where
  pub method_name : Option String
  pub status : Option ℕ
  pub version_major : ℕ
  pub version_minor : ℕ
  pub keeps_alive : Bool
  pub upgrades : Bool

-- A call of a field of the Lua object, with its arguments after `self`: none; a string, 0 and its
-- length; or a table.
pub data LuaCall : Type 0 where
  on_message_begin on_message_complete : LuaCall
  on_url on_header_field on_header_value on_body : List ℕ → ℕ → ℕ → LuaCall
  on_headers_complete : Table → LuaCall

-- The Lua side, by the calls so far: `none` where the field is no function, or what the function returns.
abbrev pub LuaSide : Type 0
LuaSide = List LuaCall → LuaCall → Option (List Value)

abbrev pub is_nil : Value → Bool
is_nil nil = true
is_nil _ = false

abbrev to_boolean : Value → Bool
to_boolean nil = false
to_boolean (boolean b) = b
to_boolean _ = true

-- One run of `http_parser_execute`: the parser's new state, the bytes parsed and its flag `upgrade`; or a
-- callback, and what it does with the callback's result.
pub data Run (S : Type 0) : Type 0 where
  finished : S → ℕ → Bool → Run S
  gives : Notice → (ℤ → Run S) → Run S

pub record Library : Type 1 where
  pub State : Type 0
  pub init : ParserType → State
  pub execute : State → List ℕ → Run State
  pub error_number : State → ℕ

pub record HttpParser (S : Type 0) : Type 0 where
  pub state : S
  pub got_exception : Bool
  pub calls : List LuaCall

headers_table : Headers → Table
headers_table h = record {
  method_name = elim h.kind [ http_request ↦ some (method_to_str h.method) | http_response ↦ none ];
  status = elim h.kind [ http_request ↦ none | http_response ↦ some h.status_code ];
  version_major = h.http_major;
  version_minor = h.http_minor;
  keeps_alive = h.should_keep_alive;
  upgrades = h.upgrade;
}

-- What a callback returns to the parser for a value that is not `nil`.
abbrev code_of : LuaCall → Value → ℤ
code_of (on_headers_complete t) v = if to_boolean v then pos 1 else pos 0
code_of _ v = pos 0

module _ (lua : LuaSide) {S : Type 0} where
  -- The body that the callbacks share.
  pub answer : LuaCall → Option (List Value) → HttpParser S → HttpParser S × ℤ
  answer c none p = (p, pos 0)
  answer c (some results) p =
      let q = record p { calls = p.calls ++ c ∷ [] } in
      if is_nil (top_of self results)
      then (record q { got_exception = true }, negsuc 0)
      else (q, code_of c (top_of self results))

  abbrev call : LuaCall → HttpParser S → HttpParser S × ℤ
  call c p = answer c (lua p.calls c) p

  pub on_notice : Notice → HttpParser S → HttpParser S × ℤ
  unfolding answer
  on_notice message_begin p = call on_message_begin p
  on_notice message_complete p = call on_message_complete p
  on_notice (url []) p = (p, pos 0)
  on_notice (url (b ∷ bs)) p = call (on_url (b ∷ bs) 0 (length (b ∷ bs))) p
  on_notice (header_field []) p = (p, pos 0)
  on_notice (header_field (b ∷ bs)) p = call (on_header_field (b ∷ bs) 0 (length (b ∷ bs))) p
  on_notice (header_value bs) p = call (on_header_value bs 0 (length bs)) p
  on_notice (body bs) p = call (on_body bs 0 (length bs)) p
  on_notice (headers_complete h) p = call (on_headers_complete (headers_table h)) p

  pub run : Run S → HttpParser S → HttpParser S × ℕ × Bool
  run (finished s n upgrade) p = (record p { state = s }, n, upgrade)
  run (gives n k) p = run (k (on_notice n p).1) (on_notice n p).0

module _ (library : Library) (lua : LuaSide) where
  -- After the run: `nothing`, an error with the number of bytes parsed, or that number.
  abbrev pub reply : ℕ → Bool → ℕ → Bool → Outcome
  reply len exception nparsed upgrade =
      if exception
      then returns []
      else if not upgrade && not (nparsed == len)
      then returns (nil ∷ message nparsed ∷ [])
      else returns (integer nparsed ∷ [])

  -- Execute. `none`: it reads beyond the end of the string, which it does not guard against.
  pub parser_execute :
      List ℕ → ℕ → ℕ → HttpParser library.State → Option (HttpParser library.State × Outcome)
  parser_execute buffer offset len p =
      let (q, nparsed, upgrade) =
        run lua (library.execute p.state (take len (drop offset buffer)))
          (record p { got_exception = false }) in
      if leb (offset + len) (length buffer)
      then some (q, reply len q.got_exception nparsed upgrade)
      else none

  -- Finish: the name of the parser's error, a text of its own, or `nil`.
  pub parser_finish : HttpParser library.State → HttpParser library.State × Outcome
  parser_finish p =
      let (q, rv, upgrade) =
        run lua (library.execute p.state []) (record p { got_exception = false }) in
      (
        q,
        if not (rv == 0)
            then returns (message (library.error_number q.state) ∷ [])
            else if q.got_exception
            then returns (message 0 ∷ [])
            else returns (nil ∷ []),
      )

  -- The constructor and `Init`; `m_got_exception` is not set before the first run.
  pub new_http_parser : ParserType → Bool → HttpParser library.State
  new_http_parser kind exception = record {
    state = library.init kind;
    got_exception = exception;
    calls = [];
  }

  -- Reinitialize, of one of its two options.
  pub parser_reinitialize :
      ParserType → HttpParser library.State → HttpParser library.State × Outcome
  parser_reinitialize kind p = (record p { state = library.init kind }, returns [])
