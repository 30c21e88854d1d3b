-- ===== src/Crypto/Handlers/Kept.antt =====
-- What every request of a callback keeps, the calls of callbacks keep.
use lua_node.Base.{ℕ, Option, none, some, List, [], ◌∷◌, All, if_cases, ◌==◌}
use lua_node.Lua.{Value, ErrorCode}
use lua_node.Crypto.Socket.{Callback, Event, called, Socket, Request, request, requests, note}
use lua_node.Crypto.Handlers.{Scripts, call_script, call_error, tell, deliver_input, found}

abbrev pub IsScript : (Request → Type 0) → Option (List Request) → Type 0
IsScript Q none = Unit
IsScript Q (some rs) = All Q rs

-- Whichever callbacks there are, they make only such requests.
abbrev pub AreScripts : (Request → Type 0) → Scripts → Type 0
AreScripts Q scripts = (which : Callback) → IsScript Q (scripts which)

-- A property of sockets that the requests of the kind `Q` keep, with what handlers do besides.
pub record IsKept (close_result : List Event → ErrorCode) (Q : Request → Type 0)
    (P : Socket → Type 0) : Type 0 where
  pub by_request : (r : Request) (s : Socket) → Q r → P s → P (request close_result r s).0
  pub by_call :
      (which : Callback) (args : List Value) (s : Socket) → P s → P (note (called which args) s)
  pub by_emptying : (s : Socket) → P s → P (record s { input_buffer = [] })

module _ {close_result : List Event → ErrorCode} {Q : Request → Type 0} {P : Socket → Type 0}
    (kept : IsKept close_result Q P) where
  pub requests-kept :
      (rs : List Request) (s : Socket) → All Q rs → P s → P (requests close_result rs s)
  unfolding requests
  requests-kept [] s q h = h
  requests-kept (r ∷ rs) s q h = requests-kept rs _ q.1 (kept.by_request r s q.0 h)

  call_script-kept :
      (sc : Option (List Request)) (which : Callback) (args : List Value) (s : Socket)
      → IsScript Q sc
      → P s
      → P (call_script close_result sc (called which args) s)
  unfolding call_script
  call_script-kept none which args s q h = h
  call_script-kept (some rs) which args s q h = requests-kept rs _ q (kept.by_call which args s h)

  call_error-kept :
      (sc : Option (List Request)) (which : Callback) (e : ℕ) (s : Socket)
      → IsScript Q sc
      → P s
      → P (call_error close_result sc which e s)
  unfolding call_error
  call_error-kept none which e s q h = h
  call_error-kept (some rs) which e s q h =
      kept.by_emptying _ (requests-kept rs _ q (kept.by_call which _ s h))

  deliver_input-kept :
      (sc : Option (List Request)) (s : Socket)
      → IsScript Q sc
      → P s
      → P (deliver_input close_result sc s)
  unfolding deliver_input
  deliver_input-kept none s q h = h
  deliver_input-kept (some rs) s q h = call_script-kept (some rs) _ _ _ q (kept.by_emptying s h)

  found-IsScript :
      (scripts : Scripts) (which : Callback) (s : Socket)
      → AreScripts Q scripts
      → IsScript Q (found scripts which s)
  found-IsScript scripts which s q =
      if_cases (IsScript Q) (s.stray == 0) _ _ (λ e. q which) (λ e. tt)

  pub deliver_found-kept :
      (scripts : Scripts) (which : Callback) (s : Socket)
      → AreScripts Q scripts
      → P s
      → P (deliver_input close_result (found scripts which s) s)
  deliver_found-kept scripts which s q h =
      deliver_input-kept _ s (found-IsScript scripts which s q) h

  pub tell-kept :
      (error : ErrorCode) (args : List Value) (which : Callback) (scripts : Scripts) (s : Socket)
      → AreScripts Q scripts
      → P s
      → P (tell close_result error args which scripts s)
  unfolding tell
  tell-kept none args which scripts s q h =
      call_script-kept _ _ _ s (found-IsScript scripts which s q) h
  tell-kept (some e) args which scripts s q h =
      call_error-kept _ which e s (found-IsScript scripts which s q) h
