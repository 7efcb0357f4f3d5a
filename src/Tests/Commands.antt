-- ===== src/Tests/Commands.antt =====
-- Runs of geminon.c, and its theorems at command lines.
use geminon.Base.{
  ◌+◌, length, ℕ, ◌≡◌, ◌++◌, refl, true, Option, some, none, List, [], ◌∷◌, All, replicate,
  length-replicate, arith,
}
use geminon.Base.Bytes.{Bytes, codes}
use geminon.Base.Run.{ok}
use geminon.Cli.Cgi.Parent.{Ran, parent-Ran}
use geminon.Cli.Cgi.{Processes, parent}
use geminon.Cli.Configure.Options.{IsFit}
use geminon.Cli.Configure.Order.{nobody, Prepared, prepare-Prepared}
use geminon.Cli.Configure.{
  Opt, authn_by, echo_at, bind_url, listen_on, tls_certificate, tls_key, Authorities, plenty,
  Settings, prepare,
}
use geminon.Request.Failures.{Sends}
use geminon.Cli.Handlers.Echo.{echo_handler-Sends}
use geminon.Cli.Geminon.{echo}
use geminon.Cli.Handlers.{echo_handler}
use geminon.Request.Close.{World, Req, Here}
use geminon.Request.Respond.{line}
use geminon.Request.Stream.Sends.{Reads, more, end as at_end}
use geminon.Server.Dispatch.{nothing}
use geminon.Server.Handlers.Proper.{Gone}
use geminon.Server.Handlers.{done, Memory}
use geminon.Server.Serve.{crlf}
use geminon.Tests.Scenes.{checker, mem, place, req, here, req-IsOpen}
use geminon.Tests.Peers.{talker, peer, talker-IsLawful, talker-WritesWhole, disk}
use geminon.Url.{path_string}

echo_handler-Sends_example :
    (req' : Req talker disk ℕ) × (w' : Here talker disk ℕ) × (echo_handler talker disk checker mem
        (codes "/")
        req
        nothing
        here
      ≡ ok (done, req', w'))
    × Gone talker disk ℕ
        (Sends talker (line 20 (codes "text/plain") ++ (path_string place ++ crlf)) (peer []))
        5
        here
        req'
        w'
echo_handler-Sends_example =
    echo_handler-Sends talker disk checker mem talker-IsLawful talker-WritesWhole (codes "/")
      nothing 5 (peer []) place req here req-IsOpen

abbrev authorities : Authorities checker
authorities = record { new = some 0; load = λ st file. some (st + length file) }

-- -A /:ca.pem -E / -b gemini://a.b/ -l 1966 -c cert -k key
abbrev options : List Opt
options =
    authn_by (codes "/:ca.pem")
    ∷ echo_at (codes "/")
    ∷ bind_url (codes "gemini://a.b/")
    ∷ listen_on (codes "1966")
    ∷ tls_certificate (codes "cert")
    ∷ tls_key (codes "key")
    ∷ []

options-IsFit : All IsFit options
options-IsFit = (tt, (tt, (ground arith, (ground arith, (tt, (tt, tt))))))

prepare-Prepared_example :
    (r : Option (Settings talker disk checker mem)) × (prepare talker disk checker mem authorities
        true plenty
        (echo talker disk checker mem)
        (echo talker disk checker mem)
        none
        none
        none
        options
        0
        (nobody talker disk checker mem)
      ≡ ok r)
    × Prepared talker disk checker mem authorities true
        (echo talker disk checker mem)
        (echo talker disk checker mem)
        none
        none
        none
        options
        0
        r
prepare-Prepared_example =
    prepare-Prepared talker disk checker mem authorities true (echo talker disk checker mem)
      (echo talker disk checker mem) none none none options 0 options-IsFit

abbrev roomy : Memory
roomy = record { url = none; path = true; buffer = some (replicate 8192 0); reads = 9 }

abbrev processes : Processes disk
processes = record {
  pipe = λ s. (some (8, 9), s);
  fork = λ s. (some 100, s);
  wait = λ s kid. s;
  dup2 = λ s from to. (true, s);
  execve = λ s program. true;
}

abbrev running : World (Bytes × Bytes) (Bytes × Bytes)
running = record { files = peer (codes "hello"); hung_up = []; sessions = [] }

output-Reads : Reads talker disk 8 8192 (peer (codes "hello")) (codes "hello") (peer [])
output-Reads = more (codes "hello") [] refl (ground arith) (ground arith) (at_end refl)

parent-Ran_example :
    Ran talker disk checker roomy processes 5 place
      (peer [])
      (codes "hello")
      req
      running
      (parent talker disk checker roomy processes 100 (8, 9) req running)
parent-Ran_example =
    parent-Ran talker disk checker roomy processes talker-IsLawful talker-WritesWhole 100 8 9 5
      place (peer []) (replicate 8192 0) (codes "hello") (peer []) req running req-IsOpen refl
      (length-replicate {A = ℕ} 8192 0) output-Reads (ground arith)
