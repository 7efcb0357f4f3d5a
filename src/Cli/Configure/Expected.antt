-- ===== src/Cli/Configure/Expected.antt =====
-- What the options of the server ask for, without the loops of geminon.c: the handlers, the URLs of the
-- virtual hosts, the certificate, the key, the port, and the options that are refused.
use geminon.Base.{ℕ, ◌+◌, ◌<◌, ◌≡◌, ◌⊎◌, Bool, false, Option, none, some, List, [], ◌∷◌, ◌++◌}
use geminon.Base.Bytes.{Bytes}
use geminon.Base.Run.{ok}
use geminon.Cli.Configure.Arguments.{number, fields, load_each}
use geminon.Cli.Configure.{
  Opt, authn_by, echo_at, exec_at, static_at, bind_url, listen_on, tls_certificate, tls_key,
  other_option, split, all_digits, Authorities, at_prefix,
}
use geminon.Server.Dispatch.Guards.{authn_item}
use geminon.Server.Dispatch.{Item, Fn, files, root, nothing}
use geminon.Server.Handlers.{Memory, Verifier}
use geminon.System.{System}
use geminon.Tls.{Tls}
use geminon.Url.{Url, parse_url}

-- the certificate after an option, the key, the port, and the number of handlers for content
abbrev pub set_cert : Opt → Option Bytes → Option Bytes
set_cert (tls_certificate arg) old = some arg
set_cert _ old = old

abbrev pub set_key : Opt → Option Bytes → Option Bytes
set_key (tls_key arg) old = some arg
set_key _ old = old

abbrev pub set_port : Opt → ℕ → ℕ
set_port (listen_on arg) old = number 0 arg
set_port _ old = old

abbrev pub count : Opt → ℕ → ℕ
count (echo_at arg) n = n + 1
count (exec_at arg) n = n + 1
count (static_at arg) n = n + 1
count _ n = n

-- what is left by all options, from the first to the last
abbrev pub fold : {A : Type 0} → (Opt → A → A) → List Opt → A → A
fold f [] z = z
fold f (o ∷ later) z = fold f later (f o z)

module _ (t : Tls) (sys : System) (x : Verifier) (mem : Memory) where
  -- the URL that an option names, if it does
  abbrev pub Names : Opt → List Url → Type 0
  Names (bind_url arg) us = (u : Url) × (parse_url mem.url arg ≡ ok (some u)) × (us ≡ u ∷ [])
  Names _ us = us ≡ []

  module _ (a : Authorities x) (signal : Bool) (echo_handler cgi_handler : Fn t sys x mem) where
    -- the handler that an option registers, if it does; one for authorities has the store that each file
    -- of its list has been loaded into
    pub data Adds : Opt → List (Item t sys x mem) → Type 0 where
      adds_authn :
          {arg : Bytes} (st : x.Store)
          → load_each x a (fields b',' (at_prefix (split b':' arg)).1) a.new ≡ some st
          → Adds (authn_by arg) (authn_item t sys x mem (at_prefix (split b':' arg)).0 st ∷ [])
      adds_echo :
          {arg : Bytes}
          → Adds
              (echo_at arg)
              (record { prefix = some arg; handler = echo_handler; user_data = nothing } ∷ [])
      adds_exec :
          {arg : Bytes}
          → Adds (exec_at arg) (
              record {
                prefix = some (at_prefix (split b':' arg)).0;
                handler = cgi_handler;
                user_data = root (at_prefix (split b':' arg)).1;
              }
              ∷ [])
      adds_static :
          {arg : Bytes}
          → Adds (static_at arg) (
              record {
                prefix = some (at_prefix (split b':' arg)).0;
                handler = files;
                user_data = root (at_prefix (split b':' arg)).1;
              }
              ∷ [])
      adds_host : {arg : Bytes} → Adds (bind_url arg) []
      adds_port : {arg : Bytes} → Adds (listen_on arg) []
      adds_certificate : {arg : Bytes} → Adds (tls_certificate arg) []
      adds_key : {arg : Bytes} → Adds (tls_key arg) []
      adds_other : Adds other_option []

    -- The handlers and the URLs of all options, in the order of the command line.
    pub data AddsAll : List Opt → List (Item t sys x mem) → List Url → Type 0 where
      no_more : AddsAll [] [] []
      one_more :
          {o : Opt} {later : List Opt} {hs more : List (Item t sys x mem)} {rest : List Url}
          → (us : List Url) → Adds o hs
          → Names o us
          → AddsAll later more rest
          → AddsAll (o ∷ later) (hs ++ more) (us ++ rest)

    -- An option that ends `configure`: a file of authorities that does not load, no signal handler, a
    -- string that is not a URL, or a port with a byte that is no digit.
    abbrev pub Refused : Opt → Type 0
    Refused (authn_by arg) = load_each x a (fields b',' (at_prefix (split b':' arg)).1) a.new ≡ none
    Refused (exec_at arg) = signal ≡ false
    Refused (bind_url arg) = parse_url mem.url arg ≡ ok none
    Refused (listen_on arg) = all_digits arg ≡ false
    Refused _ = ⊥

    abbrev pub AnyRefused : List Opt → Type 0
    AnyRefused [] = ⊥
    AnyRefused (o ∷ later) = Refused o ⊎ AnyRefused later

    -- Something is missing behind the options, or there are other arguments.
    abbrev pub Lacks : (own_cert own_key : Option Bytes) → List Opt → (extra : ℕ) → Type 0
    Lacks own_cert own_key options extra =
        (0 < extra)
        ⊎ (fold set_cert options own_cert ≡ none)
        ⊎ (fold set_key options own_key ≡ none)
        ⊎ (fold count options 0 ≡ 0)
