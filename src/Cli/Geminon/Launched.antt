-- ===== src/Cli/Geminon/Launched.antt =====
-- What the last calls of `configure` come to.
use geminon.Base.{ℕ, zero, suc, ◌≡◌, refl, Bool, true, false, Option, none, some}
use geminon.Base.Bytes.{Bytes}
use geminon.Cli.Cgi.{Processes, Blocks}
use geminon.Cli.Configure.{
  Authorities, plenty, Settings, Started, secured, opened, or_default, start, launch,
}
use geminon.Cli.Geminon.{echo, cgi}
use geminon.Server.Handlers.{Memory, Verifier}
use geminon.Setup.{Sockets, Host, Bound, bind_server, bind_server-Bound, Contexts, tls}
use geminon.System.{System}
use geminon.Tls.{Tls}

module _ (t : Tls) (sys : System) (x : Verifier) (mem : Memory) (a : Authorities x)
    (procs : Processes sys) (blocks : Blocks) (signal : Bool) (k : Sockets) (ssl : Contexts) where
  -- What the last two calls of `configure` come to: a server that listens on a new socket, or a failure.
  abbrev pub Launched :
      Host k
      → Option (Settings t sys x mem)
      → Started t sys x mem a signal plenty (echo t sys x mem) (cgi t sys x mem procs blocks) k ssl
      → Type 0
  Launched h r (none, h', v) = Unit
  Launched h r (some (c, ctx), h', v) = (r ≡ some c) × Bound k (or_default c.port) h (true, h')

  secured-Launched :
      (h h' : Host k) (c : Settings t sys x mem)
      → Bound k (or_default c.port) h (true, h')
      → (y : (ℕ × Option ssl.Ctx) × ssl.State)
      → Launched h (some c) (
          secured t sys x mem a signal plenty
            (echo t sys x mem)
            (cgi t sys x mem procs blocks)
            k
            ssl
            c
            h'
            y)
  unfolding secured
  secured-Launched h h' c is ((zero, ctx), v) = (refl, is)
  secured-Launched h h' c is ((suc n, ctx), v) = tt

  opened-Launched :
      (h : Host k) (cert key : Bytes) (c : Settings t sys x mem) (v : ssl.State) (y : Bool × Host k)
      → Bound k (or_default c.port) h y
      → Launched h (some c) (
          opened t sys x mem a signal plenty
            (echo t sys x mem)
            (cgi t sys x mem procs blocks)
            k
            ssl
            cert
            key
            c
            v
            y)
  unfolding opened
  opened-Launched h cert key c v (false, h') is = tt
  opened-Launched h cert key c v (true, h') is = secured-Launched h h' c is (tls ssl cert key v)

  start-Launched :
      (h : Host k) (cert key : Option Bytes) (c : Settings t sys x mem) (v : ssl.State)
      → Launched h (some c) (
          start t sys x mem a signal plenty
            (echo t sys x mem)
            (cgi t sys x mem procs blocks)
            k
            ssl
            cert
            key
            c
            h
            v)
  unfolding start
  start-Launched h (some cert) (some key) c v =
      opened-Launched h cert key c v (bind_server k (or_default c.port) h)
        (bind_server-Bound k (or_default c.port) h)
  start-Launched h (some cert) none c v = tt
  start-Launched h none key c v = tt

  pub launch-Launched :
      (h : Host k) (v : ssl.State) (r : Option (Settings t sys x mem))
      → Launched h r (
          launch t sys x mem a signal plenty
            (echo t sys x mem)
            (cgi t sys x mem procs blocks)
            k
            ssl
            h
            v
            r)
  unfolding launch
  launch-Launched h v none = tt
  launch-Launched h v (some c) = start-Launched h c.cert c.key c v
