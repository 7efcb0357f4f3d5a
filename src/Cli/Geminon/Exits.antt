-- ===== src/Cli/Geminon/Exits.antt =====
-- What the server's `main` comes to.
use mathlib.Core.List.{append-nil}
use geminon.Base.{
  ℕ, ◌≡◌, refl, ap, subst, ◌∙◌, ◌⊎◌, inl, inr, Bool, true, false, Option, none, some, List, ◌++◌,
  All, length, arith,
}
use geminon.Base.Bytes.{Bytes}
use geminon.Base.Run.{Run, ok}
use geminon.Cli.Cgi.Runs.{Outputs}
use geminon.Cli.Cgi.{Processes, Blocks}
use geminon.Cli.Configure.Options.{IsFit}
use geminon.Cli.Configure.Order.{Prepared, prepare-Prepared}
use geminon.Cli.Configure.{
  Opt, Authorities, plenty, Settings, Started, or_default, launch, configure,
}
use geminon.Cli.Geminon.Launched.{Launched, launch-Launched}
use geminon.Cli.Geminon.Registered.{HasRoot, HasBlocks, handlers-Behave}
use geminon.Cli.Geminon.{echo, cgi, Process, Exit, served, configured, initialised, main}
use geminon.Init.{Library, init}
use geminon.Request.Close.{Here}
use geminon.Server.Handlers.Files.{HasMemory, Readable}
use geminon.Server.Handlers.{Memory, Verifier}
use geminon.Server.Serve.Closes.{closed_fds, Stops}
use geminon.Server.Serve.Served.{SendsBriefly, serve-Closes_brief}
use geminon.Server.Serve.{Arrival, max_request}
use geminon.Server.{Server}
use geminon.Setup.{Sockets, Host, Bound, Contexts}
use geminon.System.{System}
use geminon.Tls.{Tls, IsLawful, WritesWhole, ReadsLawful, Sending}

module _ (t : Tls) (sys : System) (x : Verifier) (mem : Memory) (a : Authorities x)
    (procs : Processes sys) (blocks : Blocks) (signal : Bool) (k : Sockets) (ssl : Contexts) where
  module _ (l : Library) where
    -- An exit code, 1 and no connection has been looked at, or 4 and each of the connections has been
    -- closed once, with the new listening socket still open. Nothing has been freed, and OpenSSL is left
    -- in a given state.
    abbrev pub Exits :
        List (Arrival t.Conn x.Cert)
        → l.State
        → (p : Process t sys x mem k ssl l) → Exit t sys x mem k ssl l
        → Type 0
    Exits arrivals library p (code, p') =
        (p'.freed ≡ p.freed)
        × (p'.library ≡ library)
        × (((code ≡ 1) × (p'.world ≡ p.world))
            ⊎ ((code ≡ 4)
                × (p'.world.hung_up ≡ closed_fds arrivals p.world.hung_up)
                × ((port : ℕ) × Bound k port p.host (true, p'.host))))

    module _ (i : Sending t) (lawful : IsLawful t) (whole : WritesWhole t) (reads : ReadsLawful t)
        (has : HasMemory mem) (readable : Readable t sys x mem)
        (outputs : Outputs t sys x mem procs) (given : HasBlocks blocks) (buf : Bytes)
        (size : length buf ≡ max_request) (arrivals : List (Arrival t.Conn x.Cert))
        (brief : All (SendsBriefly t sys x mem i) arrivals) (options : List Opt)
        (rooted : All HasRoot options) where
      abbrev Ends : Process t sys x mem k ssl l → Run (Exit t sys x mem k ssl l) → Type 0
      Ends p run = (y : Exit t sys x mem k ssl l) × (run ≡ ok y) × Exits arrivals p.library p y

      served-Ends :
          (s : Server _) (p : Process t sys x mem k ssl l) (h : Host k) (v : ssl.State)
          (y : Bool × ℕ × Here t sys x.Cert) (dealt left : List (Arrival t.Conn x.Cert))
          → (port : ℕ) → Bound k port p.host (true, h)
          → arrivals ≡ dealt ++ left
          → y.2.hung_up ≡ closed_fds dealt p.world.hung_up
          → Stops y.0 y.1 0 left
          → Ends p (served t sys x mem k ssl l s (record p { host = h; contexts = v }) y)
      unfolding served
      served-Ends s p h v (true, n, w) dealt left port is all fds stops =
          absurd (omega (arith, stops.0))
      served-Ends s p h v (false, n, w) dealt left port is all fds stops =
          let same : arrivals ≡ dealt = all ∙ ap (λ z. dealt ++ z) stops ∙ append-nil dealt in
          (_, refl, (refl, refl, inr (refl, rw same fds, (port, is))))

      configured-Ends :
          (own_cert own_key own_port : Option Bytes) (extra : ℕ) (p : Process t sys x mem k ssl l)
          (r : Option (Settings t sys x mem))
          → Prepared t sys x mem a signal
              (echo t sys x mem)
              (cgi t sys x mem procs blocks)
              own_cert
              own_key
              own_port
              options
              extra
              r
          → (y : Started t sys x mem a signal plenty
              (echo t sys x mem)
              (cgi t sys x mem procs blocks)
              k
              ssl)
          → Launched t sys x mem a procs blocks signal k ssl p.host r y
          → Ends p (configured t sys x mem k ssl l a procs blocks signal plenty arrivals buf p y)
      unfolding configured
      configured-Ends own_cert own_key own_port extra p r ready (none, h, v) launched =
          (_, refl, (refl, refl, inl (refl, refl)))
      configured-Ends own_cert own_key own_port extra p r ready (some (c, ctx), h, v) (is, bound) =
          let (hs, us, adds, fifo, _, _, _) =
            subst
              (Prepared t sys x mem a signal (echo t sys x mem) (cgi t sys x mem procs blocks)
                own_cert own_key own_port options extra)
              is ready in
          let behave =
            handlers-Behave t sys x mem a procs blocks signal lawful whole has readable outputs
              given options us hs rooted adds in
          let (b, n, w, dealt, left, e, all, fds, stops) =
            serve-Closes_brief t sys x mem i lawful whole reads c.server _ fifo behave 0 0 arrivals
              buf p.world size brief in
          rw e (
            served-Ends c.server p h v (b, n, w) dealt left (or_default c.port) bound all fds stops)

      -- For arguments that fit the types of C, given memory, with SSL objects that behave as documented
      -- and take writes as a whole, with files and programs whose bytes come to an end within a bound,
      -- and for peers that send at most 2047 bytes of text, the server ends, with no fault. Its
      -- exit code is 1, and then no connection has been looked at; or it is 4, when no more connections
      -- come, and then it listens on a new socket, bound to a port, that is still open, and has closed
      -- the socket of each connection exactly once. Nothing has been freed by `gemini_server_close` or cleaned up by
      -- `gemini_deinit`.
      pub main-Exits :
          (own_cert own_key own_port : Option Bytes) (extra : ℕ) (p : Process t sys x mem k ssl l)
          → All IsFit options
          → (y : Exit t sys x mem k ssl l) × (main t sys x mem k ssl l a procs blocks signal plenty
                own_cert own_key own_port options extra arrivals buf p
              ≡ ok y)
            × Exits arrivals (init l p.library).1 p y
      unfolding main initialised init configure
      main-Exits own_cert own_key own_port extra p fits =
          let p₁ = record p { library = (init l p.library).1 } in
          let (r, e, ready) =
            prepare-Prepared t sys x mem a signal (echo t sys x mem) (cgi t sys x mem procs blocks)
              own_cert own_key own_port options extra fits in
          let (y, f, ended) =
            configured-Ends own_cert own_key own_port extra p₁ r ready
              (launch t sys x mem a signal plenty (echo t sys x mem) (cgi t sys x mem procs blocks)
                k ssl p.host p.contexts r)
              (launch-Launched t sys x mem a procs blocks signal k ssl p.host p.contexts r) in
          (y, rw e f, ended)
