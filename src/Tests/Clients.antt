-- ===== src/Tests/Clients.antt =====
-- The theorems on client.c and gurl.c, at hosts with one and two addresses.
use geminon.Base.{
  replicate, length-replicate, ◌<◌, ℕ, ◌+◌, ◌≡◌, refl, true, ◌==◌, Option, none, some, [], ◌∷◌,
  ◌++◌, arith,
}
use geminon.Base.Bytes.{Bytes, codes, IsText}
use geminon.Base.Run.{ok}
use geminon.Cli.Gurl.Fetches.{IsFit, Fetched, main-Fetched}
use geminon.Cli.Gurl.Options.{Configured, configure-Configured}
use geminon.Cli.Gurl.{Done, Errand, certificate, key, configure, main}
use geminon.Client.Port.{service_of-number}
use geminon.Client.Requests.{Requested, client_request-Requested}
use geminon.Client.{Dialer, Net, service_of, client_request}
use geminon.Response.{Response}
use geminon.Setup.{Contexts}
use geminon.Tests.Peers.{talker, peer, talking, disk, disk-Outgoing}
use geminon.Url.Grammar.{IsDigits, number}
use geminon.Url.{Url}

abbrev blank : Bytes
blank = 9 ∷ 9 ∷ 9 ∷ 9 ∷ 9 ∷ 9 ∷ []

service_of-number_example :
    (ds : Bytes) × (service_of blank 1965 ≡ ok ds) × IsDigits ds × (number 0 ds ≡ 1965)
service_of-number_example = service_of-number blank 1965 refl (ground arith)

-- a state counts the sockets
abbrev resolver : Dialer Bytes
resolver = record {
  State = ℕ;
  Addr = ℕ;
  lookup = λ s host service. (some (1 ∷ 2 ∷ []), s);
  socket = λ s a. (some (s + 3), s + 1);
  connect = λ s fd a. (a == 2, s);
  session = λ s fd. (some [], s);
  handshake = λ c. (true, c);
  write = λ c bs. c ++ bs;
}

abbrev idle : Net resolver
idle = record { state = 0; opened = []; closed = [] }

abbrev address : Bytes
address = codes "gemini://a.b/c"

address-IsText : IsText address
address-IsText = ground arith

abbrev block : Url
block = record { buf = []; len = 0; host = 0; port = 0; path = 0 }

client_request-Requested_example :
    (r : Option (Response Bytes)) × (n' : Net resolver) × (client_request resolver
        (some block)
        true
        none
        blank
        address
        idle
      ≡ ok (r, n'))
    × Requested resolver address none idle r n'
client_request-Requested_example =
    client_request-Requested resolver (some block) true none blank address idle address-IsText
      (ground arith) refl

-- a system where every certificate and key is taken
abbrev contexts : Contexts
contexts = record {
  State = ℕ;
  Ctx = Bytes;
  new = λ s. (some [], s + 1);
  use_certificate = λ c file. (true, file);
  use_key = λ c file. (true, file);
  set_verify = λ ask c. c;
}

configure-Configured_example :
    Configured contexts (some (codes "b")) (some (codes "k")) 0 (
      configure contexts (some (codes "a")) none (certificate (codes "b") ∷ key (codes "k") ∷ []) 0)
configure-Configured_example =
    configure-Configured contexts (some (codes "a")) none
      (certificate (codes "b") ∷ key (codes "k") ∷ []) 0

-- A host whose peers answer every request with a line.
abbrev answering : Dialer (Bytes × Bytes)
answering = record {
  State = ℕ;
  Addr = ℕ;
  lookup = λ s host service. (some (1 ∷ []), s);
  socket = λ s a. (some (s + 3), s + 1);
  connect = λ s fd a. (true, s);
  session = λ s fd. (some (peer []), s);
  handshake = λ c. (true, c);
  write = λ c bs. (codes "20 text", c.1 ++ bs);
}

abbrev quiet : Net answering
quiet = record { state = 0; opened = []; closed = [] }

abbrev errand : Errand
errand = record {
  url = address;
  block = some block;
  memory = true;
  junk = none;
  digits = blank;
  buffer = some (replicate 8192 0);
  reads = 8;
}

errand-IsFit : IsFit 8 errand
errand-IsFit = record {
  chars = address-IsText;
  short = ground arith;
  size = refl;
  buf = replicate 8192 0;
  buf_is = refl;
  room = length-replicate {A = ℕ} 8192 0;
  rounds = ground arith;
}

brief : (c : Bytes × Bytes) (url : Bytes) → 7 < 8
brief c url = ground arith

main-Fetched_example :
    (y : Done talker answering disk) × (main talker answering disk true
        (errand ∷ errand ∷ [])
        quiet
        (peer [])
      ≡ ok y)
    × Fetched talker talking answering disk disk-Outgoing (errand ∷ errand ∷ []) (peer []) y
main-Fetched_example =
    main-Fetched talker talking answering disk disk-Outgoing 8 (errand ∷ errand ∷ []) quiet
      (peer []) (errand-IsFit, (errand-IsFit, tt)) brief
