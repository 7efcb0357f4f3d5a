-- ===== src/Cli/Configure/Loop.antt =====
-- The loop of `configure` over the options of the server.
use mathlib.Core.List.{append_assoc, append-nil}
use geminon.Base.{
  ◌≡◌, refl, sym, ap, subst, ◌∙◌, inl, inr, Bool, Option, none, some, List, [], ◌∷◌, ◌++◌, All,
}
use geminon.Base.Run.{Run, ok}
use geminon.Cli.Configure.Options.{IsFit, apply-Applies}
use geminon.Cli.Configure.Applied.{Sets, Applied}
use geminon.Cli.Configure.Expected.{
  set_cert, set_key, set_port, count, fold, Names, Adds, AddsAll, no_more, one_more, AnyRefused,
}
use geminon.Cli.Configure.{Opt, Authorities, plenty, Settings, next_option, option_loop}
use geminon.Server.Dispatch.{Item, Fn}
use geminon.Server.Fifo.{IsFifo}
use geminon.Server.Handlers.{Memory, Verifier}
use geminon.System.{System}
use geminon.Tls.{Tls}
use geminon.Url.{Url}

module _ (t : Tls) (sys : System) (x : Verifier) (mem : Memory) where
  module _ (a : Authorities x) (signal : Bool) (echo_handler cgi_handler : Fn t sys x mem) where
    -- What all options leave of the variables of `configure`.
    abbrev pub SetsAll : List Opt → (c c' : Settings t sys x mem) → Type 0
    SetsAll options c c' =
        (c'.cert ≡ fold set_cert options c.cert)
        × (c'.key ≡ fold set_key options c.key)
        × (c'.port ≡ fold set_port options c.port)
        × (c'.handlers ≡ fold count options c.handlers)

    -- behind the options, for a server that has had handlers before
    abbrev pub Looped :
        List Opt
        → List (Item t sys x mem)
        → Settings t sys x mem
        → Option (Settings t sys x mem)
        → Type 0
    Looped options front c none = AnyRefused t sys x mem a signal echo_handler cgi_handler options
    Looped options front c (some c') =
        (hs : List (Item t sys x mem)) × (us : List Url) × AddsAll t sys x mem a signal echo_handler
          cgi_handler options hs us
        × IsFifo c'.server (front ++ hs)
        × (c'.vhosts ≡ c.vhosts ++ us)
        × SetsAll options c c'

    abbrev pub Loops :
        List Opt
        → List (Item t sys x mem)
        → Settings t sys x mem
        → Run (Option (Settings t sys x mem))
        → Type 0
    Loops options front c run =
        (r : Option (Settings t sys x mem)) × (run ≡ ok r) × Looped options front c r

    joined :
        (o : Opt) (later : List Opt) (front : List (Item t sys x mem)) (c d : Settings t sys x mem)
        (hs : List (Item t sys x mem)) (us : List Url)
        → Adds t sys x mem a signal echo_handler cgi_handler o hs
        → Names t sys x mem o us
        → d.vhosts ≡ c.vhosts ++ us
        → Sets t sys x mem a signal echo_handler cgi_handler o c d
        → (r : Option (Settings t sys x mem)) → Looped later (front ++ hs) d r
        → Looped (o ∷ later) front c r
    joined o later front c d hs us adds names named (cert, key, port, n) none refused = inr refused
    joined o later front c d hs us adds names named (cert, key, port, n) (some c')
          (more, rest, all, is, behind, (cert', key', port', n')) =
        (
          hs ++ more,
          us ++ rest,
          one_more us adds names all,
          subst (λ z. IsFifo c'.server z) (append_assoc front hs more) is,
          behind ∙ ap (λ z. z ++ rest) named ∙ append_assoc c.vhosts us rest,
          (
            cert' ∙ ap (fold set_cert later) cert,
            key' ∙ ap (fold set_key later) key,
            port' ∙ ap (fold set_port later) port,
            n' ∙ ap (fold count later) n,
          ),
        )

    next_option-Loops :
        (o : Opt) (later : List Opt) (front : List (Item t sys x mem)) (c : Settings t sys x mem)
        → (again : Settings t sys x mem → Run (Option (Settings t sys x mem)))
        → ((hs : List (Item t sys x mem)) (d : Settings t sys x mem)
            → IsFifo d.server hs
            → Loops later hs d (again d))
        → (r : Option (Settings t sys x mem))
        → Applied t sys x mem a signal echo_handler cgi_handler o front c r
        → Loops
            (o ∷ later)
            front
            c
            (next_option t sys x mem a signal plenty echo_handler cgi_handler again r)
    unfolding next_option
    next_option-Loops o later front c again goes none refused = (none, refl, inl refused)
    next_option-Loops o later front c again goes (some d) (hs, us, adds, names, is, named, sets) =
        let (r, e, looped) = goes (front ++ hs) d is in
        (r, e, joined o later front c d hs us adds names named sets r looped)

    pub option_loop-Loops :
        (options : List Opt) (front : List (Item t sys x mem)) (c : Settings t sys x mem)
        → All IsFit options
        → IsFifo c.server front
        → Loops options front c
            (option_loop t sys x mem a signal plenty echo_handler cgi_handler options c)
    unfolding option_loop
    option_loop-Loops [] front c fits is = (
      some c,
      refl,
      (
        [],
        [],
        no_more,
        subst (λ z. IsFifo c.server z) (sym (append-nil front)) is,
        sym (append-nil c.vhosts),
        (refl, refl, refl, refl),
      ),
    )
    option_loop-Loops (o ∷ later) front c (fit, fits) is =
        let (r, e, applied) =
          apply-Applies t sys x mem a signal echo_handler cgi_handler o front c fit is in
        rw e (
          next_option-Loops o later front c
            (option_loop t sys x mem a signal plenty echo_handler cgi_handler later)
            (λ hs d is'. option_loop-Loops later hs d fits is') r applied)
