-- ===== src/Cli/Configure/Options.antt =====
-- The handler that an option of the server registers.
use mathlib.Core.List.{append-nil}
use geminon.Base.{
  ℕ, suc, ◌+◌, ◌^◌, ◌<◌, ◌≤◌, ◌≡◌, refl, sym, ap, subst, ◌∙◌, ◌==◌, Bool, true, false, Option, none,
  some, List, [], ◌∷◌, length, arith,
}
use geminon.Base.Bytes.{Bytes}
use geminon.Base.Run.{ok}
use geminon.Cli.Configure.Applied.{Applied, Applies, added, unchanged}
use geminon.Cli.Configure.Arguments.{
  Digits, port_loop-ends, fields, load_each, load_each-none, load_loop_lem,
}
use geminon.Cli.Configure.Expected.{
  adds_authn, adds_echo, adds_exec, adds_static, adds_host, adds_port, adds_certificate, adds_key,
  adds_other,
}
use geminon.Cli.Configure.{
  Opt, authn_by, echo_at, exec_at, static_at, bind_url, listen_on, tls_certificate, tls_key,
  other_option, split, Authorities, at_prefix, plenty, Settings, registered, guarded, authorise,
  enlarged, hosted, parsed, listened, apply,
}
use geminon.Server.Dispatch.Guards.{authn_item}
use geminon.Server.Dispatch.{Item, Fn, authn, store, files, root, nothing}
use geminon.Server.Fifo.{IsFifo, handle_fn-IsFifo}
use geminon.Server.Handlers.{Memory, Verifier}
use geminon.Server.Register.{handle_fs, handle_authn}
use geminon.System.{System}
use geminon.Tls.{Tls}
use geminon.Url.Bounds.{parse_url-ends}
use geminon.Url.{Url, parse_url}

-- An argument that the loops of `configure` read within an `int` and an `unsigned int`.
abbrev pub IsFit : Opt → Type 0
IsFit (listen_on arg) = length arg ≤ 9
IsFit (bind_url arg) = length arg + 1 < 2 ^ 32
IsFit _ = Unit

module _ (t : Tls) (sys : System) (x : Verifier) (mem : Memory) where
  module _ (a : Authorities x) (signal : Bool) (echo_handler cgi_handler : Fn t sys x mem) where
    guarded-Applies :
        (arg : Bytes) (hs : List (Item t sys x mem)) (c : Settings t sys x mem)
        → IsFifo c.server hs
        → (st : Option x.Store)
        → load_each x a (fields b',' (at_prefix (split b':' arg)).1) a.new ≡ st
        → Applies t sys x mem a signal echo_handler cgi_handler (authn_by arg) hs c (
            guarded t sys x mem a signal plenty echo_handler cgi_handler
              (at_prefix (split b':' arg)).0
              c
              st)
    unfolding guarded registered handle_authn
    guarded-Applies arg hs c is none from = (none, refl, from)
    guarded-Applies arg hs c is (some st) from =
        let prefix = (at_prefix (split b':' arg)).0 in
        let (s, e, after) = handle_fn-IsFifo c.server hs none (some prefix) authn (store st) is in
        let c' = record c { server = s } in
        (
          some c',
          rw e refl,
          added t sys x mem a signal echo_handler cgi_handler (authn_by arg) hs
              (authn_item t sys x mem prefix st ∷ []) c c' (adds_authn st from) refl after refl
              (refl, refl, refl, refl),
        )

    authorise-Applies :
        (arg : Bytes) (hs : List (Item t sys x mem)) (c : Settings t sys x mem)
        → IsFifo c.server hs
        → (st : Option x.Store) → a.new ≡ st
        → Applies t sys x mem a signal echo_handler cgi_handler
            (authn_by arg)
            hs
            c
            (authorise t sys x mem a signal plenty echo_handler cgi_handler arg c st)
    unfolding authorise
    authorise-Applies arg hs c is none from =
        let files = fields b',' (at_prefix (split b':' arg)).1 in
        (none, refl, ap (load_each x a files) from ∙ load_each-none x a files)
    authorise-Applies arg hs c is (some st) from =
        let list = (at_prefix (split b':' arg)).1 in
        rw (load_loop_lem x a (suc (length list)) st list (omega arith)) (
          guarded-Applies arg hs c is (load_each x a (fields b',' list) (some st))
            (ap (load_each x a (fields b',' list)) from))

    hosted-Applied :
        (arg : Bytes) (hs : List (Item t sys x mem)) (c : Settings t sys x mem) (cap : ℕ)
        → IsFifo c.server hs
        → (u : Option Url) → parse_url mem.url arg ≡ ok u
        → Applied t sys x mem a signal echo_handler cgi_handler
            (bind_url arg)
            hs
            c
            (hosted t sys x mem a signal plenty echo_handler cgi_handler (record c { cap = cap }) u)
    unfolding hosted
    hosted-Applied arg hs c cap is none parsed = parsed
    hosted-Applied arg hs c cap is (some u) parsed = (
      [],
      u ∷ [],
      adds_host,
      (u, parsed, refl),
      subst (λ z. IsFifo c.server z) (sym (append-nil hs)) is,
      refl,
      (refl, refl, refl, refl),
    )

    -- With memory, there is room for a URL.
    enlarged_lem :
        (c : Settings t sys x mem)
        → (cap : ℕ) × (enlarged t sys x mem a signal plenty echo_handler cgi_handler c
            ≡ some (record c { cap = cap }))
    unfolding enlarged
    enlarged_lem c = by_test (length c.vhosts == c.cap)
      where
        by_test :
            (b : Bool)
            → (cap : ℕ) × (elim b [ false ↦ some c | true ↦ some (record c { cap = c.cap + 8 }) ]
                ≡ some (record c { cap = cap }))
        by_test false = (c.cap, refl)
        by_test true = (c.cap + 8, refl)

    parsed-Applies :
        (arg : Bytes) (hs : List (Item t sys x mem)) (c : Settings t sys x mem) (cap : ℕ)
        → length arg + 1 < 2 ^ 32
        → IsFifo c.server hs
        → Applies t sys x mem a signal echo_handler cgi_handler (bind_url arg) hs c (
            parsed t sys x mem a signal plenty echo_handler cgi_handler arg
              (some (record c { cap = cap })))
    unfolding parsed
    parsed-Applies arg hs c cap fit is =
        let (u, e) = parse_url-ends mem.url arg fit in
        (_, rw e refl, hosted-Applied arg hs c cap is u e)

    listened-Applied :
        (arg : Bytes) (hs : List (Item t sys x mem)) (c : Settings t sys x mem)
        → IsFifo c.server hs
        → (port : Option ℕ) → Digits 0 arg port
        → Applied t sys x mem a signal echo_handler cgi_handler
            (listen_on arg)
            hs
            c
            (listened t sys x mem a signal plenty echo_handler cgi_handler c port)
    unfolding listened
    listened-Applied arg hs c is none bad = bad
    listened-Applied arg hs c is (some port) (good, same) =
        unchanged t sys x mem a signal echo_handler cgi_handler (listen_on arg) hs c
          (record c { port = port }) adds_port refl is refl (refl, refl, same, refl)

    exec-Applies :
        (arg : Bytes) (hs : List (Item t sys x mem)) (c : Settings t sys x mem)
        → IsFifo c.server hs
        → (b : Bool) → signal ≡ b
        → Applies t sys x mem a signal echo_handler cgi_handler
            (exec_at arg)
            hs
            c
            (apply t sys x mem a b plenty echo_handler cgi_handler (exec_at arg) c)
    unfolding apply
    exec-Applies arg hs c is false failed = (none, refl, failed)
    exec-Applies arg hs c is true set =
        let (prefix, path) = at_prefix (split b':' arg) in
        let (s, e, after) =
          handle_fn-IsFifo c.server hs none (some prefix) cgi_handler (root path) is in
        let c' = record c { handlers = c.handlers + 1; server = s } in
        (
          some c',
          rw e refl,
          added t sys x mem a signal echo_handler cgi_handler (exec_at arg) hs _ c c' adds_exec refl
              after refl (refl, refl, refl, refl),
        )

    pub apply-Applies :
        (o : Opt) (hs : List (Item t sys x mem)) (c : Settings t sys x mem)
        → IsFit o
        → IsFifo c.server hs
        → Applies t sys x mem a signal echo_handler cgi_handler o hs c
            (apply t sys x mem a signal plenty echo_handler cgi_handler o c)
    unfolding apply registered handle_fs
    apply-Applies (authn_by arg) hs c fit is = authorise-Applies arg hs c is a.new refl
    apply-Applies (echo_at arg) hs c fit is =
        let (s, e, after) = handle_fn-IsFifo c.server hs none (some arg) echo_handler nothing is in
        let c' = record c { handlers = c.handlers + 1; server = s } in
        (
          some c',
          rw e refl,
          added t sys x mem a signal echo_handler cgi_handler (echo_at arg) hs _ c c' adds_echo refl
              after refl (refl, refl, refl, refl),
        )
    apply-Applies (exec_at arg) hs c fit is = exec-Applies arg hs c is signal refl
    apply-Applies (static_at arg) hs c fit is =
        let (prefix, path) = at_prefix (split b':' arg) in
        let (s, e, after) = handle_fn-IsFifo c.server hs none (some prefix) files (root path) is in
        let c' = record c { handlers = c.handlers + 1; server = s } in
        (
          some c',
          rw e refl,
          added t sys x mem a signal echo_handler cgi_handler (static_at arg) hs _ c c' adds_static
              refl after refl (refl, refl, refl, refl),
        )
    apply-Applies (bind_url arg) hs c fit is =
        let (cap, e) = enlarged_lem c in rw e (parsed-Applies arg hs c cap fit is)
    apply-Applies (listen_on arg) hs c fit is =
        let (p, e, digits) = port_loop-ends 0 0 arg (omega arith) (ground arith) in
        (_, rw e refl, listened-Applied arg hs c is p digits)
    apply-Applies (tls_certificate arg) hs c fit is =
        let c' = record c { cert = some arg } in
        (
          some c',
          refl,
          unchanged t sys x mem a signal echo_handler cgi_handler (tls_certificate arg) hs c c'
              adds_certificate refl is refl (refl, refl, refl, refl),
        )
    apply-Applies (tls_key arg) hs c fit is =
        let c' = record c { key = some arg } in
        (
          some c',
          refl,
          unchanged t sys x mem a signal echo_handler cgi_handler (tls_key arg) hs c c' adds_key
              refl is refl (refl, refl, refl, refl),
        )
    apply-Applies other_option hs c fit is = (
      some c,
      refl,
      unchanged t sys x mem a signal echo_handler cgi_handler other_option hs c c adds_other refl is
          refl (refl, refl, refl, refl),
    )
