-- ===== src/Cli/Configure.antt =====
-- geminon.c: the options of the server. Copies that `strdup` makes are as long as their originals.
pub mod Applied
pub mod Arguments
pub mod Expected
pub mod Loop
pub mod Options
pub mod Order
use geminon.Base.{
  ℕ, zero, suc, ◌+◌, ◌*◌, ◌-◌, ◌^◌, Bool, true, false, ◌&&◌, Option, none, some, List, [], ◌∷◌,
  ◌++◌, ltb, leb, ◌==◌, if◌then◌else◌, length,
}
use geminon.Base.Bytes.{Bytes, codes}
use geminon.Base.Run.{Run, ok, fault, no_fuel, ◌>>=◌}
use geminon.Server.Dispatch.{Item, Fn, own, root, nothing}
use geminon.Server.Handlers.{Memory, Verifier}
use geminon.Server.Register.{handle_fs, handle_authn, handle_vhosts}
use geminon.Server.{Server, handle_fn}
use geminon.Setup.{Sockets, Host, bind_server, Contexts, tls}
use geminon.System.{System}
use geminon.Tls.{Tls}
use geminon.Url.{Url, parse_url, default_port}

-- What `getopt_long` returns with its argument; `other_option` stands for one that it does not know.
pub data Opt : Type 0 where
  authn_by echo_at exec_at static_at bind_url listen_on tls_certificate tls_key : Bytes → Opt
  other_option : Opt

-- `strchr (s, c)`: the string in front of the first `c`, once that is cut off, and the one behind it,
-- `none` for NULL
unfoldable pub split : ℕ → Bytes → Bytes × Option Bytes
split c [] = ([], none)
split c (b ∷ bs) =
    let later = split c bs in if b == c then ([], some bs) else (b ∷ later.0, later.1)

unfoldable pub is_digit : ℕ → Bool
is_digit b = leb b'0' b && leb b b'9'

-- the test of GEMINON_PORT
unfoldable pub all_digits : Bytes → Bool
all_digits [] = true
all_digits (b ∷ bs) = let rest = all_digits bs in is_digit b && rest

-- what `getenv ("GEMINON_PORT")` returns: it is tested, and its number is not taken
unfoldable pub valid_port : Option Bytes → Bool
valid_port none = true
valid_port (some digits) = all_digits digits

-- `port ? port : GEMINI_DEFAULT_PORT`
unfoldable pub or_default : ℕ → ℕ
or_default zero = default_port
or_default (suc port) = suc port

-- The loop that reads a port, `none` for `return -1`; an `int` that overflows is a fault.
unfoldable pub port_loop : (port : ℕ) → Bytes → Run (Option ℕ)
port_loop port [] = ok (some port)
port_loop port (b ∷ bs) = elim (is_digit b) [
  | false ↦ ok none
  | true ↦ elim (ltb (port * 10 + (b - b'0')) (2 ^ 31)) [
    | false ↦ fault
    | true ↦ port_loop (port * 10 + (b - b'0')) bs
  ]
]

-- What `configure` asks of OpenSSL for a list of authorities; `none` for NULL and for 0.
pub record Authorities (x : Verifier) : Type 0 where
  pub new : Option x.Store
  pub load : x.Store → (file : Bytes) → Option x.Store

module _ (x : Verifier) (a : Authorities x) where
  open a use {load}

  -- a round of the loop over the files; `again` is the next one
  unfoldable pub loaded :
      (x.Store → Bytes → Run (Option x.Store))
      → Option Bytes
      → Option x.Store
      → Run (Option x.Store)
  loaded again later none = ok none
  loaded again none (some st) = ok (some st)
  loaded again (some later) (some st) = again st later

  unfoldable pub load_loop : ℕ → x.Store → (files : Bytes) → Run (Option x.Store)
  load_loop zero st files = no_fuel
  load_loop (suc k) st files =
      let (file, later) = split b',' files in loaded (load_loop k) later (load st file)

-- `PREFIX:REST`, or "/" and the whole argument
unfoldable pub at_prefix : Bytes × Option Bytes → Bytes × Bytes
at_prefix (whole, none) = (codes "/", whole)
at_prefix (prefix, some rest) = (prefix, rest)

-- The memory that `configure` gets: by `calloc` for 8 virtual hosts, by `realloc` for so many, and for
-- the handlers.
pub record Room : Type 0 where
  pub table : Bool
  pub grow : ℕ → Bool
  pub handlers : Bool

-- all that is asked for
abbrev pub plenty : Room
plenty = record { table = true; grow = λ n. true; handlers = true }

module _ (t : Tls) (sys : System) (x : Verifier) (mem : Memory) where
  -- The variables of `configure`, and the handlers of the server.
  pub record Settings : Type 0 where
    pub port : ℕ
    pub cert : Option Bytes
    pub key : Option Bytes
    pub handlers : ℕ
    pub vhosts : List Url
    pub cap : ℕ
    pub server : Server (Item t sys x mem)

  module _ (a : Authorities x) (signal : Bool) (memory : Room)
      (echo_handler cgi_handler : Fn t sys x mem) where
    -- `if (rc != 0)`, behind a registration
    unfoldable pub registered : Settings → Bool × Server (Item t sys x mem) → Option Settings
    registered c (false, s) = none
    registered c (true, s) = some (record c { server = s })

    -- behind the loop over the files of authorities
    unfoldable pub guarded : (prefix : Bytes) → Settings → Option x.Store → Run (Option Settings)
    guarded prefix c none = ok none
    guarded prefix c (some st) =
        handle_authn t sys x mem memory.handlers none (some prefix) st c.server >>= λ r.
        ok (registered c r)

    -- behind `X509_STORE_new`
    unfoldable pub authorise : Bytes → Settings → Option x.Store → Run (Option Settings)
    authorise arg c none = ok none
    authorise arg c (some st) =
        let (prefix, files) = at_prefix (split b':' arg) in
        load_loop x a (suc (length files)) st files >>= guarded prefix c

    -- the room for a URL, which grows by 8; `none` if there is no memory for it
    unfoldable pub enlarged : Settings → Option Settings
    enlarged c = elim (length c.vhosts == c.cap) [
      | false ↦ some c
      | true ↦ elim (memory.grow (c.cap + 8)) [
        | false ↦ none
        | true ↦ some (record c { cap = c.cap + 8 })
      ]
    ]

    -- behind `gemini_parse_url`
    unfoldable pub hosted : Settings → Option Url → Option Settings
    hosted c none = none
    hosted c (some u) = some (record c { vhosts = c.vhosts ++ u ∷ [] })

    -- with room for a URL
    unfoldable pub parsed : Bytes → Option Settings → Run (Option Settings)
    parsed arg none = ok none
    parsed arg (some c) = parse_url mem.url arg >>= λ u. ok (hosted c u)

    -- behind the loop that reads a port
    unfoldable pub listened : Settings → Option ℕ → Option Settings
    listened c none = none
    listened c (some port) = some (record c { port = port })

    -- the switch; `none` for a `return`. The results for -X and -S are not looked at.
    unfoldable pub apply : Opt → Settings → Run (Option Settings)
    apply (authn_by arg) c = authorise arg c a.new
    apply (echo_at arg) c =
        handle_fn memory.handlers none (some arg) echo_handler nothing c.server >>= λ r.
        ok (registered (record c { handlers = c.handlers + 1 }) r)
    apply (exec_at arg) c = elim signal [
      | false ↦ ok none
      | true ↦
          let (prefix, path) = at_prefix (split b':' arg) in
          handle_fn memory.handlers none (some prefix) cgi_handler (root path) c.server >>= λ r.
          ok (some (record c { handlers = c.handlers + 1; server = r.1 }))
    ]
    apply (static_at arg) c =
        let (prefix, path) = at_prefix (split b':' arg) in
        handle_fs t sys x mem memory.handlers none (some prefix) (some path) c.server >>= λ r.
        ok (some (record c { handlers = c.handlers + 1; server = r.1 }))
    apply (bind_url arg) c = parsed arg (enlarged c)
    apply (listen_on arg) c = port_loop 0 arg >>= λ p. ok (listened c p)
    apply (tls_certificate arg) c = ok (some (record c { cert = some arg }))
    apply (tls_key arg) c = ok (some (record c { key = some arg }))
    apply other_option c = ok (some c)

    -- the loop over the options
    unfoldable pub next_option :
        (Settings → Run (Option Settings)) → Option Settings → Run (Option Settings)
    next_option again none = ok none
    next_option again (some c) = again c

    unfoldable pub option_loop : List Opt → Settings → Run (Option Settings)
    option_loop [] c = ok (some c)
    option_loop (o ∷ later) c = apply o c >>= next_option (option_loop later)

    -- the tests behind the loop: no `extra` arguments, a certificate, a key and a handler
    unfoldable pub complete : (extra : ℕ) → Option Bytes → Option Bytes → (handlers : ℕ) → Bool
    complete (suc extra) cert key handlers = false
    complete zero (some cert) (some key) (suc handlers) = true
    complete zero (some cert) (some key) zero = false
    complete zero (some cert) none handlers = false
    complete zero none key handlers = false

    -- the virtual hosts
    unfoldable pub add_vhosts : List Url → Settings → Run (Option Settings)
    add_vhosts [] c = ok (some c)
    add_vhosts (u ∷ us) c =
        handle_vhosts t sys x mem memory.handlers memory.handlers none (some (codes "/")) (u ∷ us)
          c.server
        >>= λ r. ok (registered c r)

    -- behind the loop
    unfoldable pub finish : (extra : ℕ) → Option Settings → Run (Option Settings)
    finish extra none = ok none
    finish extra (some c) = elim (complete extra c.cert c.key c.handlers) [
      | true ↦ add_vhosts c.vhosts c
      | false ↦ ok none
    ]

    -- `configure` up to its call of `gemini_bind`, for the environment; `none` for -1 or 1
    unfoldable pub prepare :
        (own_cert own_key own_port : Option Bytes)
        → List Opt
        → (extra : ℕ) → Server (Item t sys x mem)
        → Run (Option Settings)
    prepare own_cert own_key own_port options extra s =
        let c : Settings = record {
          port = 0;
          cert = own_cert;
          key = own_key;
          handlers = 0;
          vhosts = [];
          cap = 8;
          server = s;
        } in
        elim (memory.table && valid_port own_port) [
          | false ↦ ok none
          | true ↦ option_loop options c >>= finish extra
        ]

    -- the calls of `gemini_bind` and `gemini_tls`
    module _ (k : Sockets) (ssl : Contexts) where
      -- what `configure` comes to: the settings and the `ssl` of the server, `none` for -1 or 1
      abbrev pub Started : Type 0
      Started = Option (Settings × Option ssl.Ctx) × Host k × ssl.State

      -- behind `gemini_tls`
      unfoldable pub secured : Settings → Host k → (ℕ × Option ssl.Ctx) × ssl.State → Started
      secured c h ((zero, ctx), v) = (some (c, ctx), h, v)
      secured c h ((suc n, ctx), v) = (none, h, v)

      -- behind `gemini_bind`
      unfoldable pub opened : (cert key : Bytes) → Settings → ssl.State → Bool × Host k → Started
      opened cert key c v (false, h) = (none, h, v)
      opened cert key c v (true, h) = secured c h (tls ssl cert key v)

      -- with a certificate and a key
      unfoldable pub start : Option Bytes → Option Bytes → Settings → Host k → ssl.State → Started
      start (some cert) (some key) c h v = opened cert key c v (bind_server k (or_default c.port) h)
      start (some cert) none c h v = (none, h, v)
      start none key c h v = (none, h, v)

      unfoldable pub launch : Host k → ssl.State → Option Settings → Started
      launch h v none = (none, h, v)
      launch h v (some c) = start c.cert c.key c h v

      -- `configure`
      unfoldable pub configure :
          (own_cert own_key own_port : Option Bytes)
          → List Opt
          → (extra : ℕ) → Server (Item t sys x mem)
          → Host k
          → ssl.State
          → Run Started
      configure own_cert own_key own_port options extra s h v =
          prepare own_cert own_key own_port options extra s >>= λ c. ok (launch h v c)
