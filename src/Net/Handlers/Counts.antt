-- ===== src/Net/Handlers/Counts.antt =====
-- The counters of a socket against the operations in flight.
use lua_node.Base.{
  ℕ, ◌%◌, ◌^◌, ◌≤◌, ◌<◌, ◌≡◌, true, Option, none, some, List, [], ◌∷◌, arith, length, total,
}
use lua_node.Lua.{Value, string}
use lua_node.Net.Socket.{
  Op, write_op, read_op, posted_read, Event, Socket, Asio, Request, write, read, close, shutdown,
  connect, request, requests, socket_write, note,
}
use lua_node.Net.Handlers.{Script, call_script}

abbrev pub is_write : Op → ℕ
is_write (write_op bytes) = 1
is_write _ = 0

abbrev pub is_read : Op → ℕ
is_read (read_op kind) = 1
is_read (posted_read n) = 1
is_read _ = 0

abbrev pub writes : List Op → ℕ
writes os = total is_write os

abbrev pub reads : List Op → ℕ
reads os = total is_read os

-- While a handler runs.
pub record IsCounted (s : Socket) : Type 0 where
  pub writes_counted : s.pending_writes ≡ writes s.ops
  pub one_write : writes s.ops ≤ 1
  pub reads_counted : s.pending_reads ≡ reads s.ops % 2 ^ 64
  pub refs_held : length s.ops ≤ s.refs

-- A close that was put off has a write to wait for.
abbrev pub CloseWaits : Socket → Type 0
CloseWaits s = s.close_pending ≡ true → 0 < s.pending_writes

noted-IsCounted : (e : Event) (s : Socket) → IsCounted s → IsCounted (note e s)
noted-IsCounted e s h = ground arith

module _ (asio : Asio) where
  write-IsCounted : (v : Value) (s : Socket) → IsCounted s → IsCounted (socket_write v s).0
  unfolding socket_write
  write-IsCounted (string bytes) s h = ground arith
  write-IsCounted _ s h = ground arith

  pub request-IsCounted : (r : Request) (s : Socket) → IsCounted s → IsCounted (request asio r s).0
  unfolding request
  request-IsCounted (write v) s h = write-IsCounted v s h
  request-IsCounted (read arg) s h = ground arith
  request-IsCounted (close b) s h = ground arith
  request-IsCounted (shutdown _) s h = ground arith
  request-IsCounted (connect ip) s h = ground arith

  pub request-CloseWaits :
      (r : Request) (s : Socket) → IsCounted s → CloseWaits s → CloseWaits (request asio r s).0
  unfolding request
  request-CloseWaits (write (string bytes)) s h w = ground arith
  request-CloseWaits (write _) s h w = ground arith
  request-CloseWaits (read arg) s h w = ground arith
  request-CloseWaits (close b) s h w = ground arith
  request-CloseWaits (shutdown _) s h w = ground arith
  request-CloseWaits (connect ip) s h w = ground arith

  pub requests-IsCounted :
      (rs : List Request) (s : Socket) → IsCounted s → IsCounted (requests asio rs s)
  unfolding requests
  requests-IsCounted [] s h = h
  requests-IsCounted (r ∷ rs) s h = requests-IsCounted rs _ (request-IsCounted r s h)

  pub requests-CloseWaits :
      (rs : List Request) (s : Socket)
      → IsCounted s
      → CloseWaits s
      → CloseWaits (requests asio rs s)
  unfolding requests
  requests-CloseWaits [] s h w = w
  requests-CloseWaits (r ∷ rs) s h w =
      requests-CloseWaits rs _ (request-IsCounted r s h) (request-CloseWaits r s h w)

  pub call_script-IsCounted :
      (script : Option Script) (e : Event) (s : Socket)
      → IsCounted s
      → IsCounted (call_script asio script e s)
  unfolding call_script
  call_script-IsCounted none e s h = h
  call_script-IsCounted (some sc) e s h =
      requests-IsCounted sc.calls (note e s) (noted-IsCounted e s h)

  pub call_script-CloseWaits :
      (script : Option Script) (e : Event) (s : Socket)
      → IsCounted s
      → CloseWaits s
      → CloseWaits (call_script asio script e s)
  unfolding call_script
  call_script-CloseWaits none e s h w = w
  call_script-CloseWaits (some sc) e s h w =
      requests-CloseWaits sc.calls (note e s) (noted-IsCounted e s h) w
