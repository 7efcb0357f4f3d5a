-- ===== src/Cli/Gurl.antt =====
-- gurl.c: the command line of the client.
pub mod Fetches
pub mod Options
use geminon.Base.{ℕ, zero, suc, Bool, true, false, Option, none, some, List, [], ◌∷◌, ◌==◌}
use geminon.Base.Bytes.{Bytes}
use geminon.Base.Run.{Run, ok, fault, ◌>>=◌}
use geminon.Client.{Dialer, Net, close, client_request}
use geminon.Response.{Response, response_stream, response_close}
use geminon.Setup.{Contexts, client_tls}
use geminon.System.{System}
use geminon.Tls.{Tls}
use geminon.Url.{Url}

-- What `getopt_long` returns with its argument; `other` stands for an option that it does not know.
pub data Opt : Type 0 where
  certificate key : Bytes → Opt
  other : Opt

-- `cert` and `key`, `none` for NULL
pub record Identity : Type 0 where
  pub cert : Option Bytes
  pub key : Option Bytes

-- the switch
unfoldable pub set_option : Opt → Identity → Identity
set_option (certificate file) i = record i { cert = some file }
set_option (key file) i = record i { key = some file }
set_option other i = i

-- the loop over the options
unfoldable pub option_loop : List Opt → Identity → Identity
option_loop [] i = i
option_loop (o ∷ later) i = option_loop later (set_option o i)

-- `(cert && !key) || (!cert && key)`
unfoldable pub unpaired : Option Bytes → Option Bytes → Bool
unpaired none none = false
unpaired none (some k) = true
unpaired (some c) none = true
unpaired (some c) (some k) = false

module _ (x : Contexts) where
  -- behind the options
  unfoldable pub identify : Identity → x.State → Bool × Option x.Ctx × x.State
  identify i s = elim (unpaired i.cert i.key) [
    | true ↦ (false, none, s)
    | false ↦ let (y, s') = client_tls x i.cert i.key s in (y.0 == 0, y.1, s')
  ]

  -- `configure`, for what `getenv` returns: whether it returns 0, and the `ssl` of the client. The
  -- copies that `strdup` makes are as long as their originals.
  unfoldable pub configure :
      (own_cert own_key : Option Bytes) → List Opt → x.State → Bool × Option x.Ctx × x.State
  configure own_cert own_key options s =
      identify (option_loop options (record { cert = own_cert; key = own_key })) s

-- An argument of the command line, and what the client finds in memory when it asks for it: the blocks
-- for the URL and the response, the bytes in its arrays, and a bound on the rounds of the stream.
pub record Errand : Type 0 where
  pub url : Bytes
  pub block : Option Url
  pub memory : Bool
  pub junk : Option ℕ
  pub digits : Bytes
  pub buffer : Option Bytes
  pub reads : ℕ

module _ (t : Tls) (d : Dialer t.Conn) (sys : System) where
  -- an exit code, the net and the system
  abbrev pub Done : Type 0
  Done = ℕ × Net d × sys.State

  -- the descriptor that `gemini_response_close` closes
  abbrev pub hung_up : Option ℕ → Net d → Net d
  hung_up none n = n
  hung_up (some fd) n = close d fd n

  -- behind `gemini_response_stream`; `again` is the next round
  unfoldable pub streamed :
      (Net d → sys.State → Run Done)
      → Response t.Conn
      → Net d
      → Bool × sys.State × t.Conn
      → Run Done
  streamed again res n (false, s, c) = ok (1, n, s)
  streamed again res n (true, s, c) =
      let (res', freed, fd) = response_close (record res { ssl = some c }) in again (hung_up fd n) s

  -- behind `gemini_client_request`, with the stream to the descriptor 1
  unfoldable pub requested :
      (Net d → sys.State → Run Done)
      → Errand
      → sys.State
      → Option (Response t.Conn) × Net d
      → Run Done
  requested again e s (none, n) = ok (1, n, s)
  requested again e s (some res, n) = elim res.ssl [
    | none ↦ fault
    | some c ↦ response_stream t sys e.reads e.buffer 1 8192 s c >>= streamed again res n
  ]

  -- the loop of `main` over the arguments
  unfoldable pub fetch_loop : List Errand → Net d → sys.State → Run Done
  fetch_loop [] n s = ok (0, n, s)
  fetch_loop (e ∷ later) n s =
      client_request d e.block e.memory e.junk e.digits e.url n >>= requested (fetch_loop later) e s

  -- `main`, behind `memset`, for the result of `configure`
  unfoldable pub main : Bool → List Errand → Net d → sys.State → Run Done
  main false errands n s = ok (1, n, s)
  main true errands n s = fetch_loop errands n s
