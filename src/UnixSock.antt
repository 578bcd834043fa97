-- ===== src/UnixSock.antt =====
-- src/unix_sock.c: opening and closing descriptors. What the system calls answer is an argument; the
-- state is which descriptors are open.
use h.Base.{ℕ, Bool, true, false, leb, ◌==◌, if◌then◌else◌}
use h.Errno.{Errno, Code, ok, minus}

-- A descriptor, or the negation of an error number.
pub data Sock : Type 0 where
  fd : ℕ → Sock
  failed : Errno → Sock

abbrev pub Fds : Type 0
Fds = ℕ → Bool

abbrev pub mark : ℕ → Bool → Fds → Fds
mark s b fds q = if q == s then b else fds q

-- `unix_sock_bind`, with what `socket` and `bind` answer.
unfoldable pub unix_sock_bind : Sock → Code → Fds → Sock × Fds
unix_sock_bind (failed e) bound fds = (failed e, fds)
unix_sock_bind (fd s) (minus e) fds = (failed e, mark s false (mark s true fds))
unix_sock_bind (fd s) ok fds = (fd s, mark s true fds)

-- `unix_sock_tcp_accept`, with what `accept` answers.
unfoldable pub unix_sock_tcp_accept : Sock → Fds → Sock × Fds
unix_sock_tcp_accept (failed e) fds = (failed e, fds)
unix_sock_tcp_accept (fd s) fds = (fd s, mark s true fds)

unfoldable pub unix_sock_close : ℕ → Fds → Fds
unix_sock_close s fds = if leb s 2 then fds else mark s false fds
