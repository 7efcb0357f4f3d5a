-- ===== src/Cli/Geminon.antt =====
-- geminon.c: the server as a program.
pub mod Exits
pub mod Launched
pub mod Registered
use geminon.Base.{ℕ, ◌+◌, Bool, true, false, Option, none, some, List, [], ◌∷◌, ◌++◌, ◌==◌}
use geminon.Base.Bytes.{Bytes}
use geminon.Base.Run.{Run, ok, ◌>>=◌}
use geminon.Cli.Cgi.{Processes, Blocks, cgi_handler}
use geminon.Cli.Configure.Order.{nobody}
use geminon.Cli.Configure.{Opt, Room, Authorities, Settings, Started, configure}
use geminon.Cli.Handlers.{echo_handler}
use geminon.Init.{Library, init, deinit}
use geminon.Request.Close.{Here}
use geminon.Server.Dispatch.{Fn, Item, own}
use geminon.Server.Handlers.{Memory, Verifier}
use geminon.Server.Serve.{Arrival, serve}
use geminon.Server.Shutdown.{Freed, server_close}
use geminon.Server.{Server}
use geminon.Setup.{Sockets, Host, Contexts}
use geminon.System.{System}
use geminon.Tls.{Tls}

module _ (t : Tls) (sys : System) (x : Verifier) (mem : Memory) where
  abbrev pub echo : Fn t sys x mem
  echo = own (echo_handler t sys x mem)

  abbrev pub cgi : Processes sys → Blocks → Fn t sys x mem
  cgi procs blocks = own (cgi_handler t sys x mem procs blocks)

  module _ (k : Sockets) (ssl : Contexts) (l : Library) where
    -- what the program changes: OpenSSL, its sockets and contexts, its connections and files, and what
    -- `gemini_server_close` has freed
    pub record Process : Type 0 where
      pub library : l.State
      pub host : Host k
      pub contexts : ssl.State
      pub world : Here t sys x.Cert
      pub freed : List (Freed t sys x mem)

    -- an exit code, and how things are then
    abbrev pub Exit : Type 0
    Exit = ℕ × Process

    -- behind `gemini_deinit`
    unfoldable pub cleaned_up : Process → ℕ × l.State → Exit
    cleaned_up p (r, s) = (elim (r == 0) [ true ↦ 0 | false ↦ 5 ], record p { library = s })

    -- behind `gemini_serve`
    unfoldable pub served :
        Server (Item t sys x mem) → Process → Bool × ℕ × Here t sys x.Cert → Run Exit
    served s p (false, n, w) = ok (4, record p { world = w })
    served s p (true, n, w) = server_close t sys x mem s >>= λ es.
        ok (cleaned_up (record p { world = w; freed = es ++ p.freed }) (deinit l p.library))

    module _ (a : Authorities x) (procs : Processes sys) (blocks : Blocks) (signal : Bool)
        (memory : Room) where
      -- behind `configure`; the counters of the server are 0, from `memset`
      unfoldable pub configured :
          List (Arrival t.Conn x.Cert)
          → Bytes
          → Process
          → Started t sys x mem a signal memory echo (cgi procs blocks) k ssl
          → Run Exit
      configured arrivals buf p (none, h, v) = ok (1, record p { host = h; contexts = v })
      configured arrivals buf p (some (c, ctx), h, v) =
          serve t sys x mem c.server 0 0 arrivals buf p.world
          >>= served c.server (record p { host = h; contexts = v })

      -- behind `gemini_init`
      unfoldable pub initialised :
          (own_cert own_key own_port : Option Bytes)
          → List Opt
          → (extra : ℕ) → List (Arrival t.Conn x.Cert)
          → Bytes
          → Process
          → ℕ × l.State
          → Run Exit
      initialised own_cert own_key own_port options extra arrivals buf p (r, s) = elim (r == 0) [
        | false ↦ ok (1, record p { library = s })
        | true ↦
            configure t sys x mem a signal memory echo (cgi procs blocks) k ssl own_cert own_key
              own_port options extra (nobody t sys x mem) p.host p.contexts
            >>= configured arrivals buf (record p { library = s })
      ]

      -- `main`, for an environment, a command line, and the connections that come; `buf` is what the
      -- array of `gemini_serve` holds at first
      unfoldable pub main :
          (own_cert own_key own_port : Option Bytes)
          → List Opt
          → (extra : ℕ) → List (Arrival t.Conn x.Cert)
          → Bytes
          → Process
          → Run Exit
      main own_cert own_key own_port options extra arrivals buf p =
          initialised own_cert own_key own_port options extra arrivals buf p (init l p.library)
