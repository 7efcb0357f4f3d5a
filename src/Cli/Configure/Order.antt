-- ===== src/Cli/Configure/Order.antt =====
-- The handlers that `configure` registers, in their order.
use mathlib.Core.List.{append-nil}
use geminon.Base.{
  ℕ, zero, suc, ◌<◌, ◌≡◌, refl, sym, ap, subst, ◌∙◌, ◌⊎◌, inl, inr, arith, Bool, true, false,
  Option, none, some, List, [], ◌∷◌, ◌++◌, All,
}
use geminon.Base.Bytes.{Bytes, codes}
use geminon.Base.Run.{Run, ok, ◌>>=◌}
use geminon.Cli.Configure.Loop.{Looped, option_loop-Loops}
use geminon.Cli.Configure.Options.{IsFit}
use geminon.Cli.Configure.Expected.{
  set_cert, set_key, set_port, count, fold, AddsAll, AnyRefused, Lacks,
}
use geminon.Cli.Configure.{
  Opt, Authorities, plenty, Settings, registered, option_loop, complete, add_vhosts, finish,
  prepare, valid_port,
}
use geminon.Server.Dispatch.Guards.{vhosts_item}
use geminon.Server.Dispatch.{Item, Fn, vhosts, hosts}
use geminon.Server.Fifo.{IsFifo, empty, handle_fn-IsFifo}
use geminon.Server.Handlers.{Memory, Verifier}
use geminon.Server.Register.{handle_vhosts}
use geminon.Server.{Server}
use geminon.System.{System}
use geminon.Tls.{Tls}
use geminon.Url.{Url}

module _ (t : Tls) (sys : System) (x : Verifier) (mem : Memory) where
  -- the handler for virtual hosts, if there are any
  abbrev pub gate : List Url → List (Item t sys x mem)
  gate [] = []
  gate (u ∷ us) = vhosts_item t sys x mem (codes "/") (u ∷ us) ∷ []

  abbrev pub nobody : Server (Item t sys x mem)
  nobody = record { heap = []; first = none; last = none }

  module _ (a : Authorities x) (signal : Bool) (echo_handler cgi_handler : Fn t sys x mem) where
    -- A `return`, for a reason, or settings for a server with the handlers of the options, in their
    -- order, and one for the URLs of the options behind all of them.
    abbrev pub Prepared :
        (own_cert own_key own_port : Option Bytes)
        → List Opt
        → (extra : ℕ) → Option (Settings t sys x mem)
        → Type 0
    Prepared own_cert own_key own_port options extra none =
        (valid_port own_port ≡ false)
        ⊎ AnyRefused t sys x mem a signal echo_handler cgi_handler options
        ⊎ Lacks t sys x mem a signal echo_handler cgi_handler own_cert own_key options extra
    Prepared own_cert own_key own_port options extra (some c) =
        (hs : List (Item t sys x mem)) × (us : List Url) × AddsAll t sys x mem a signal echo_handler
          cgi_handler options hs us
        × IsFifo c.server (hs ++ gate us)
        × (c.cert ≡ fold set_cert options own_cert)
        × (c.key ≡ fold set_key options own_key)
        × (c.port ≡ fold set_port options 0)

    module _ (own_cert own_key own_port : Option Bytes) (options : List Opt) (extra : ℕ) where
      abbrev Prepares : Run (Option (Settings t sys x mem)) → Type 0
      Prepares run =
          (r : Option (Settings t sys x mem)) × (run ≡ ok r)
          × Prepared own_cert own_key own_port options extra r

      add_vhosts-Prepares :
          (c : Settings t sys x mem) (hs : List (Item t sys x mem)) (us urls : List Url)
          → urls ≡ us
          → AddsAll t sys x mem a signal echo_handler cgi_handler options hs us
          → IsFifo c.server hs
          → c.cert ≡ fold set_cert options own_cert
          → c.key ≡ fold set_key options own_key
          → c.port ≡ fold set_port options 0
          → Prepares (add_vhosts t sys x mem a signal plenty echo_handler cgi_handler urls c)
      unfolding add_vhosts registered handle_vhosts
      add_vhosts-Prepares c hs us [] same all is cert key port = (
        some c,
        refl,
        (
          hs,
          us,
          all,
          subst (λ z. IsFifo c.server (hs ++ gate z)) same
              (subst (λ z. IsFifo c.server z) (sym (append-nil hs)) is),
          cert,
          key,
          port,
        ),
      )
      add_vhosts-Prepares c hs us (u ∷ later) same all is cert key port =
          let (s, e, after) =
            handle_fn-IsFifo c.server hs none (some (codes "/")) vhosts (hosts (u ∷ later)) is in
          (
            some (record c { server = s }),
            rw e refl,
            (hs, us, all, subst (λ z. IsFifo s (hs ++ gate z)) same after, cert, key, port),
          )

      -- what the tests behind the loop find missing
      complete-Lacks :
          (cert key : Option Bytes) (n m : ℕ)
          → complete t sys x mem a signal plenty echo_handler cgi_handler m cert key n ≡ false
          → (0 < m) ⊎ (cert ≡ none) ⊎ (key ≡ none) ⊎ (n ≡ 0)
      unfolding complete
      complete-Lacks cert key n (suc m) e = inl (omega arith)
      complete-Lacks none key n zero e = inr (inl refl)
      complete-Lacks (some cert) none n zero e = inr (inr (inl refl))
      complete-Lacks (some cert) (some key) zero zero e = inr (inr (inr refl))
      complete-Lacks (some cert) (some key) (suc n) zero e = cc

      complete-Lacks_end :
          (cert key : Option Bytes) (n : ℕ)
          → cert ≡ fold set_cert options own_cert
          → key ≡ fold set_key options own_key
          → n ≡ fold count options 0
          → (0 < extra) ⊎ (cert ≡ none) ⊎ (key ≡ none) ⊎ (n ≡ 0)
          → Lacks t sys x mem a signal echo_handler cgi_handler own_cert own_key options extra
      complete-Lacks_end cert key n same_cert same_key same_n (inl h) = inl h
      complete-Lacks_end cert key n same_cert same_key same_n (inr (inl h)) =
          inr (inl (sym same_cert ∙ h))
      complete-Lacks_end cert key n same_cert same_key same_n (inr (inr (inl h))) =
          inr (inr (inl (sym same_key ∙ h)))
      complete-Lacks_end cert key n same_cert same_key same_n (inr (inr (inr h))) =
          inr (inr (inr (sym same_n ∙ h)))

      finish-Prepares :
          (c : Settings t sys x mem)
          → c.cert ≡ own_cert
          → c.key ≡ own_key
          → c.port ≡ 0
          → c.handlers ≡ 0
          → c.vhosts ≡ []
          → (r : Option (Settings t sys x mem))
          → Looped t sys x mem a signal echo_handler cgi_handler options [] c r
          → Prepares (finish t sys x mem a signal plenty echo_handler cgi_handler extra r)
      unfolding finish
      finish-Prepares c cert key port n named none refused = (none, refl, inr (inl refused))
      finish-Prepares c cert key port n named (some c')
            (hs, us, all, is, behind, (cert', key', port', n')) =
          by_test
            (complete t sys x mem a signal plenty echo_handler cgi_handler extra c'.cert c'.key
              c'.handlers)
            refl
        where
          by_test :
              (b : Bool)
              → complete t sys x mem a signal plenty echo_handler cgi_handler extra c'.cert c'.key
                  c'.handlers
                ≡ b
              → Prepares (elim b [
                | true ↦
                    add_vhosts t sys x mem a signal plenty echo_handler cgi_handler c'.vhosts c'
                | false ↦ ok none
              ])
          by_test true e =
              add_vhosts-Prepares c' hs us c'.vhosts (behind ∙ ap (λ z. z ++ us) named) all is
                (cert' ∙ ap (fold set_cert options) cert) (key' ∙ ap (fold set_key options) key)
                (port' ∙ ap (fold set_port options) port)
          by_test false e = (
            none,
            refl,
            inr (
                inr (
                  complete-Lacks_end c'.cert c'.key c'.handlers
                    (cert' ∙ ap (fold set_cert options) cert) (key' ∙ ap (fold set_key options) key)
                    (n' ∙ ap (fold count options) n)
                    (complete-Lacks c'.cert c'.key c'.handlers extra e))),
          )

      -- Given memory, and for arguments that fit the types of C, `configure` comes to its call of
      -- `gemini_bind` or returns -1 or 1 before, without a fault. If it comes there, the handlers of the
      -- server are those of the options, in the order of the command line, where a handler for a
      -- certificate has the store that every file of its list has been loaded into, and behind all of
      -- them is the one for the URLs of the options -b, in their order, if there are any; the
      -- certificate, the key and the port are the last given. If it returns, GEMINON_PORT is not a
      -- number, an option is refused, there are other arguments, or the certificate, the key or a
      -- handler for content is missing.
      pub prepare-Prepared :
          All IsFit options
          → (r : Option (Settings t sys x mem)) × (prepare t sys x mem a signal plenty echo_handler
                cgi_handler own_cert own_key own_port options extra nobody
              ≡ ok r)
            × Prepared own_cert own_key own_port options extra r
      unfolding prepare
      prepare-Prepared fits = by_port (valid_port own_port) refl
        where
          c : Settings t sys x mem
          c = record {
            port = 0;
            cert = own_cert;
            key = own_key;
            handlers = 0;
            vhosts = [];
            cap = 8;
            server = nobody;
          }

          by_port :
              (b : Bool)
              → valid_port own_port ≡ b
              → Prepares (elim b [
                | false ↦ ok none
                | true ↦
                    option_loop t sys x mem a signal plenty echo_handler cgi_handler options c
                    >>= finish t sys x mem a signal plenty echo_handler cgi_handler extra
              ])
          by_port false e = (none, refl, inl e)
          by_port true e =
              let (r, f, looped) =
                option_loop-Loops t sys x mem a signal echo_handler cgi_handler options [] c fits
                  empty in
              rw f (finish-Prepares c refl refl refl refl refl r looped)
