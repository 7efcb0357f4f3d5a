-- ===== src/Cli/Configure/Applied.antt =====
-- What an option of the server comes to.
use mathlib.Core.List.{append-nil}
use geminon.Base.{◌≡◌, sym, subst, ◌∙◌, Bool, Option, none, some, List, [], ◌++◌}
use geminon.Base.Run.{Run, ok}
use geminon.Cli.Configure.Expected.{set_cert, set_key, set_port, count, Names, Adds, Refused}
use geminon.Cli.Configure.{Opt, Authorities, Settings}
use geminon.Server.Dispatch.{Item, Fn}
use geminon.Server.Fifo.{IsFifo}
use geminon.Server.Handlers.{Memory, Verifier}
use geminon.System.{System}
use geminon.Tls.{Tls}
use geminon.Url.{Url}

module _ (t : Tls) (sys : System) (x : Verifier) (mem : Memory) where
  module _ (a : Authorities x) (signal : Bool) (echo_handler cgi_handler : Fn t sys x mem) where
    -- What an option leaves of the variables of `configure`.
    abbrev pub Sets : Opt → (c c' : Settings t sys x mem) → Type 0
    Sets o c c' =
        (c'.cert ≡ set_cert o c.cert)
        × (c'.key ≡ set_key o c.key)
        × (c'.port ≡ set_port o c.port)
        × (c'.handlers ≡ count o c.handlers)

    -- What an option comes to on a server with the handlers `hs`: a `return` where the option is
    -- refused, or settings for a server with its handler behind those, and with its URL behind the
    -- others.
    abbrev pub Applied :
        Opt
        → List (Item t sys x mem)
        → Settings t sys x mem
        → Option (Settings t sys x mem)
        → Type 0
    Applied o hs c none = Refused t sys x mem a signal echo_handler cgi_handler o
    Applied o hs c (some c') =
        (more : List (Item t sys x mem)) × (us : List Url) × Adds t sys x mem a signal echo_handler
          cgi_handler o more
        × Names t sys x mem o us
        × IsFifo c'.server (hs ++ more)
        × (c'.vhosts ≡ c.vhosts ++ us)
        × Sets o c c'

    abbrev pub Applies :
        Opt
        → List (Item t sys x mem)
        → Settings t sys x mem
        → Run (Option (Settings t sys x mem))
        → Type 0
    Applies o hs c run = (r : Option (Settings t sys x mem)) × (run ≡ ok r) × Applied o hs c r

    -- settings for a server with a handler more
    pub added :
        (o : Opt) (hs more : List (Item t sys x mem)) (c c' : Settings t sys x mem)
        → Adds t sys x mem a signal echo_handler cgi_handler o more
        → Names t sys x mem o []
        → IsFifo c'.server (hs ++ more)
        → c'.vhosts ≡ c.vhosts
        → Sets o c c'
        → Applied o hs c (some c')
    added o hs more c c' adds names is same sets =
        (more, [], adds, names, is, same ∙ sym (append-nil c.vhosts), sets)

    -- settings for the same server
    pub unchanged :
        (o : Opt) (hs : List (Item t sys x mem)) (c c' : Settings t sys x mem)
        → Adds t sys x mem a signal echo_handler cgi_handler o []
        → Names t sys x mem o []
        → IsFifo c'.server hs
        → c'.vhosts ≡ c.vhosts
        → Sets o c c'
        → Applied o hs c (some c')
    unchanged o hs c c' adds names is =
        added o hs [] c c' adds names (subst (λ z. IsFifo c'.server z) (sym (append-nil hs)) is)
