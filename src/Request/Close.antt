-- ===== src/Request/Close.antt =====
-- `struct gemini_request`, the calls on it, and `gemini_request_close`.
use geminon.Base.{ℕ, Bool, Option, none, some, List, ◌∷◌}
use geminon.Base.Bytes.{Bytes}
use geminon.Base.Run.{Run, ok, fault, ◌>>=◌}
use geminon.Request.{request_respond}
use geminon.Request.Stream.{request_stream}
use geminon.System.{System}
use geminon.Tls.{Tls}
use geminon.Url.{Url}

-- `fd` is `none` for -1; the pointers are `none` for NULL
pub record Request (Conn Cert : Type 0) : Type 0 where
  pub fd : Option ℕ
  pub ssl : Option Conn
  pub url : Option Url
  pub cert : Option Cert

-- What lasts beyond a request: the system, the sockets that have been closed, and the SSL objects that
-- were freed with a request, each as it was then, the last one first.
pub record World (State Conn : Type 0) : Type 0 where
  pub files : State
  pub hung_up : List ℕ
  pub sessions : List Conn

module _ (t : Tls) (sys : System) (Cert : Type 0) where
  open t use {Conn}
  open sys use {State}

  abbrev pub Req : Type 0
  Req = Request Conn Cert

  abbrev pub Here : Type 0
  Here = World State Conn

  -- `close (fd)`
  abbrev pub hang_up : ℕ → Here → Here
  hang_up fd w = record w { files = sys.close w.files fd; hung_up = fd ∷ w.hung_up }

  -- `if (req->ssl)`
  abbrev pub close_ssl : Option Conn → Here → Here
  close_ssl none w = w
  close_ssl (some c) w = record w { sessions = c ∷ w.sessions }

  -- `if (req->fd >= 0)`
  abbrev pub close_fd : Option ℕ → Here → Here
  close_fd none w = w
  close_fd (some fd) w = hang_up fd w

  -- `gemini_request_close`
  unfoldable pub request_close : Req → Here → Req × Here
  request_close req w =
      (record req { fd = none; ssl = none; url = none }, close_fd req.fd (close_ssl req.ssl w))

  -- a call of `gemini_request_respond` or `gemini_request_write`, on the SSL object of the request
  unfoldable pub on_ssl : (Conn → Run (Option ℕ × Conn)) → Req → Run (Option ℕ × Req)
  on_ssl f req = elim req.ssl [
    | none ↦ fault
    | some c ↦ f c >>= λ x. ok (x.0, record req { ssl = some x.1 })
  ]

  -- `gemini_request_respond` and then `gemini_request_close`
  unfoldable pub dismiss : ℕ → Bytes → Req → Here → Run (Req × Here)
  dismiss status meta req w =
      on_ssl (request_respond t status meta) req >>= λ x. ok (request_close x.1 w)

  -- `gemini_request_stream`, likewise
  unfoldable pub stream : ℕ → Option Bytes → (fd block : ℕ) → Req → Here → Run (Bool × Req × Here)
  stream k buf fd block req w = elim req.ssl [
    | none ↦ fault
    | some c ↦ request_stream t sys k buf fd block w.files c >>= λ x.
        ok (x.0, record req { ssl = some x.2 }, record w { files = x.1 })
  ]
