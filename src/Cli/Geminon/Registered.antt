-- ===== src/Cli/Geminon/Registered.antt =====
-- The handlers that the options of the server register, in the walk of `gemini_serve`.
use geminon.Base.{
  ◌+◌, ◌^◌, ◌<◌, ◌≡◌, refl, Bool, true, List, [], ◌∷◌, ◌++◌, All, All-append, length, arith,
}
use geminon.Base.Bytes.{codes, IsText}
use geminon.Cli.Cgi.Runs.{Outputs, HasRoom, cgi-Behaves}
use geminon.Cli.Cgi.{Processes, Blocks}
use geminon.Cli.Configure.Arguments.{part-Fits}
use geminon.Cli.Configure.Expected.{
  Adds, adds_authn, adds_echo, adds_exec, adds_static, adds_host, adds_port, adds_certificate,
  adds_key, adds_other, AddsAll, no_more, one_more,
}
use geminon.Cli.Configure.Order.{gate}
use geminon.Cli.Configure.{
  Opt, authn_by, echo_at, exec_at, static_at, bind_url, listen_on, tls_certificate, tls_key,
  other_option, split, at_prefix, Authorities,
}
use geminon.Cli.Geminon.{echo, cgi}
use geminon.Cli.Handlers.Echo.{echo-Behaves}
use geminon.Fs.Root.Names.{Gives}
use geminon.Server.Dispatch.Guards.{authn-Behaves, vhosts-Behaves}
use geminon.Server.Dispatch.Settled.{Behaves}
use geminon.Server.Dispatch.{Item, nothing}
use geminon.Server.Handlers.Files.{IsShort, HasMemory, Readable, files-Behaves}
use geminon.Server.Handlers.{Memory, Verifier}
use geminon.System.{System}
use geminon.Tls.{Tls, IsLawful, WritesWhole}
use geminon.Url.{Url}

-- An option whose root, if it is one for programs, leaves room for a path within an `int`.
abbrev pub HasRoot : Opt → Type 0
HasRoot (exec_at arg) = IsText arg × (length arg + 2050 < 2 ^ 31)
HasRoot _ = Unit

-- The blocks that `cgi_handler` asks for when it makes a path.
pub record HasBlocks (blocks : Blocks) : Type 0 where
  pub path : Gives blocks.path
  pub fs : blocks.fs ≡ true

module _ (t : Tls) (sys : System) (x : Verifier) (mem : Memory) (a : Authorities x)
    (procs : Processes sys) (blocks : Blocks) (signal : Bool) where
  module _ (lawful : IsLawful t) (whole : WritesWhole t) (has : HasMemory mem)
      (readable : Readable t sys x mem) (outputs : Outputs t sys x mem procs)
      (given : HasBlocks blocks) where
    Adds-Behaves :
        (o : Opt) (hs : List (Item t sys x mem))
        → HasRoot o
        → Adds t sys x mem a signal (echo t sys x mem) (cgi t sys x mem procs blocks) o hs
        → All (Behaves t sys x mem IsShort) hs
    Adds-Behaves (authn_by arg) _ rooted (adds_authn st from) =
        (authn-Behaves t sys x mem lawful whole IsShort _ st, tt)
    Adds-Behaves (echo_at arg) _ rooted adds_echo =
        (echo-Behaves t sys x mem lawful whole IsShort arg nothing, tt)
    Adds-Behaves (exec_at arg) _ (chars, small) adds_exec =
        let (text, short) = part-Fits arg (split b':' arg) refl chars in
        let room : HasRoom t sys x mem procs blocks (at_prefix (split b':' arg)).1 = record {
          path = given.path;
          fs = given.fs;
          text = text;
          small = omega arith;
        } in
        (cgi-Behaves t sys x mem procs lawful whole has outputs blocks _ _ room, tt)
    Adds-Behaves (static_at arg) _ rooted adds_static =
        (files-Behaves t sys x mem lawful whole has readable _ _, tt)
    Adds-Behaves (bind_url arg) _ rooted adds_host = tt
    Adds-Behaves (listen_on arg) _ rooted adds_port = tt
    Adds-Behaves (tls_certificate arg) _ rooted adds_certificate = tt
    Adds-Behaves (tls_key arg) _ rooted adds_key = tt
    Adds-Behaves other_option _ rooted adds_other = tt

    AddsAll-Behaves :
        (options : List Opt) (urls : List Url) (hs : List (Item t sys x mem))
        → All HasRoot options
        → AddsAll t sys x mem a signal
            (echo t sys x mem)
            (cgi t sys x mem procs blocks)
            options
            hs
            urls
        → All (Behaves t sys x mem IsShort) hs
    AddsAll-Behaves _ _ _ rooted no_more = tt
    AddsAll-Behaves _ _ _ rooted (one_more {o} {later} {hs} {more} {rest} us adds names all) =
        All-append (Behaves t sys x mem IsShort) hs more (Adds-Behaves o hs rooted.0 adds)
          (AddsAll-Behaves later rest more rooted.1 all)

    gate-Behaves : (urls : List Url) → All (Behaves t sys x mem IsShort) (gate t sys x mem urls)
    gate-Behaves [] = tt
    gate-Behaves (u ∷ us) =
        (vhosts-Behaves t sys x mem lawful whole IsShort (codes "/") (u ∷ us), tt)

    -- All handlers of a server that `configure` has prepared behave, for URLs with short paths.
    pub handlers-Behave :
        (options : List Opt) (urls : List Url) (hs : List (Item t sys x mem))
        → All HasRoot options
        → AddsAll t sys x mem a signal
            (echo t sys x mem)
            (cgi t sys x mem procs blocks)
            options
            hs
            urls
        → All (Behaves t sys x mem IsShort) (hs ++ gate t sys x mem urls)
    handlers-Behave options urls hs rooted all =
        All-append (Behaves t sys x mem IsShort) hs (gate t sys x mem urls)
          (AddsAll-Behaves options urls hs rooted all) (gate-Behaves urls)
