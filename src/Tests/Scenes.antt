-- ===== src/Tests/Scenes.antt =====
-- Requests, memory and sockets at which the theorems are tried.
use geminon.Base.{
  ℕ, zero, suc, ◌<◌, ◌≡◌, ◌++◌, refl, sym, ap, subst, Bool, true, false, none, some, List, All, [],
  ◌∷◌, ◌==◌, if◌then◌else◌, length, take-append-drop, replicate, length-replicate, arith,
}
use geminon.Base.Bytes.{Bytes, codes}
use geminon.Request.Close.{Request, World}
use geminon.Request.Stream.Sends.{Reads, more, end as at_end}
use geminon.Server.Handlers.Files.{HasMemory, Readable}
use geminon.Server.Handlers.Gates.{some-inj}
use geminon.Server.Handlers.Proper.{IsOpen}
use geminon.Server.Handlers.{Memory, Verifier}
use geminon.Server.Serve.Served.{SendsBriefly}
use geminon.Server.Serve.Short.{IsBrief}
use geminon.Server.Serve.{Arrival}
use geminon.Setup.{Sockets}
use geminon.System.{System}
use geminon.Tests.Peers.{talker, peer, receive, same_bytes}
use geminon.Tls.{Sending}
use geminon.Url.{Url}

abbrev pub checker : Verifier
checker = record { Cert = ℕ; Store = ℕ; verify = λ s c. s == c }

abbrev pub block : Url
block = record { host = 0; port = 0; path = 0; len = 0; buf = [] }

abbrev pub mem : Memory
mem = record { url = some block; path = true; buffer = some []; reads = 3 }

-- host a.b, port 1965 and path /c
abbrev pub place : Url
place = record {
  host = 0;
  port = 1965;
  path = 4;
  len = 7;
  buf = codes "a.b" ++ 0 ∷ (codes "/c" ++ 0 ∷ []);
}

abbrev pub req : Request (Bytes × Bytes) ℕ
req = record { fd = some 5; ssl = some (peer []); url = some place; cert = some 8 }

abbrev pub here : World (Bytes × Bytes) (Bytes × Bytes)
here = record { files = peer []; hung_up = []; sessions = [] }

pub req-IsOpen : IsOpen 5 (peer []) place req
req-IsOpen = record { fd_is = refl; ssl_is = refl; url_is = refl }

-- a system where a port may be in use
abbrev pub sockets : Sockets
sockets = record {
  State = Bool;
  socket = λ s. (some 3, s);
  reuse = λ s fd. (true, s);
  bind_to = λ s fd port. (s, s);
  listen = λ s fd backlog. (true, s);
}

-- A system with one file, that is read in one piece, until it has been.
abbrev pub shelf : System
shelf = record {
  State = Bool;
  open_dir = λ s path. (some 3, s);
  openat = λ s dir path flags. (some 4, s);
  fstat = λ s fd. some true;
  close = λ s fd. s;
  read = λ s fd n. (some (if s then codes "hello" else []), false);
  write = λ s fd bs. (some (length bs), s);
}

-- enough for a path, a stream of a short file, and a URL
abbrev pub ample : Memory
ample = record { url = some block; path = true; buffer = some (replicate 8192 0); reads = 9 }

pub ample-HasMemory : HasMemory ample
ample-HasMemory = record {
  path = refl;
  buf = replicate 8192 0;
  buffer = refl;
  size = length-replicate {A = ℕ} 8192 0;
}

pub shelf-Reads :
    (s : Bool) (fd : ℕ)
    → (content : Bytes) × (s' : Bool) × Reads talker shelf fd 8192 s content s'
      × (length content < 9)
shelf-Reads true fd = (
  codes "hello",
  false,
  more (codes "hello") [] refl (ground arith) (ground arith) (at_end refl),
  ground arith,
)
shelf-Reads false fd = ([], false, at_end refl, ground arith)

pub shelf-Readable : Readable talker shelf checker ample
shelf-Readable fd s regular = shelf-Reads s fd

pub receive-gives :
    (bs : Bytes) (n : ℕ) {r : Bytes} → (receive bs n).0 ≡ some r → bs ≡ r ++ (receive bs n).1
receive-gives [] n e = cc
receive-gives (b ∷ bs) zero e = cc
receive-gives (b ∷ bs) (suc n) e =
    rw (← same_bytes e) (ap (λ z. b ∷ z) (sym (take-append-drop n bs)))

-- The peer of `talker`, to a program that reads by `SSL_read_ex`.
abbrev pub saying : Sending talker
saying = record { pending = λ c. c.0; gives = λ c n e. receive-gives c.0 n e }

-- a request for a file, whose descriptor is 5
abbrev pub waiting : World Bool (Bytes × Bytes)
waiting = record { files = true; hung_up = []; sessions = [] }

abbrev request_line : Bytes
request_line = codes "gemini://a.b/c" ++ b'\r' ∷ b'\n' ∷ []

-- one connection that sends a line, and one without a session
abbrev pub callers : List (Arrival (Bytes × Bytes) ℕ)
callers =
    record { fd = 5; session = some (peer request_line); cert = none }
    ∷ record { fd = 6; session = none; cert = none }
    ∷ []

pub callers-SendsBriefly : All (SendsBriefly talker shelf checker ample saying) callers
callers-SendsBriefly = (brief, ((λ c e. cc), tt))
  where
    brief : (c : Bytes × Bytes) → some (peer request_line) ≡ some c → IsBrief c.0
    brief c e = subst (λ z. IsBrief z.0) (some-inj e) (ground arith, ground arith)
