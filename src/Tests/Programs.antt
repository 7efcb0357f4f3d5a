-- ===== src/Tests/Programs.antt =====
-- The programs as a whole: geminon.c and fuzz-url.c.
use geminon.Base.{
  ℕ, suc, ◌+◌, ◌≡◌, ap, refl, true, some, none, List, [], ◌∷◌, All, length, replicate,
  length-replicate, arith,
}
use geminon.Base.Bytes.{Bytes, codes}
use geminon.Base.Run.{ok, fault}
use geminon.Cli.Cgi.Runs.{Outputs}
use geminon.Cli.Cgi.{Processes, Blocks}
use geminon.Cli.Configure.Options.{IsFit}
use geminon.Cli.Configure.{
  Opt, authn_by, echo_at, exec_at, static_at, bind_url, listen_on, tls_certificate, tls_key,
  Authorities, plenty,
}
use geminon.Cli.Fuzz.Ends.{main-Fed}
use geminon.Cli.Fuzz.{main as fuzz}
use geminon.Cli.Geminon.Exits.{Exits, main-Exits}
use geminon.Cli.Geminon.Registered.{HasRoot, HasBlocks}
use geminon.Cli.Geminon.{Process, Exit, main}
use geminon.Init.{Library, init}
use geminon.Server.Handlers.Gates.{some-inj}
use geminon.Server.Serve.{max_request}
use geminon.Setup.{Contexts}
use geminon.Tests.Peers.{talker, talker-IsLawful, talker-WritesWhole, talker-ReadsLawful}
use geminon.Tests.Scenes.{
  checker, block, sockets, shelf, ample, ample-HasMemory, shelf-Reads, shelf-Readable, saying,
  waiting, callers, callers-SendsBriefly,
}

-- how often the functions of a library have been called
abbrev counters : Library
counters = record {
  State = ℕ × ℕ;
  load_error_strings = λ s. s;
  add_ssl_algorithms = λ s. (suc s.0, s.1);
  cleanup = λ s. (s.0, suc s.1);
}

abbrev contexts : Contexts
contexts = record {
  State = ℕ;
  Ctx = Bytes × Bytes;
  new = λ s. (some ([], []), suc s);
  use_certificate = λ x file. (true, (file, x.1));
  use_key = λ x file. (true, (x.0, file));
  set_verify = λ ask x. x;
}

abbrev processes : Processes shelf
processes = record {
  pipe = λ s. (some (8, 9), true);
  fork = λ s. (some 100, s);
  wait = λ s kid. s;
  dup2 = λ s from to. (true, s);
  execve = λ s program. true;
}

processes-Outputs : Outputs talker shelf checker ample processes
processes-Outputs s read_end write_end s₁ piped kid s₂ forked = shelf-Reads s₂ read_end

abbrev blocks : Blocks
blocks = record { path = λ n. some (replicate n 0); fs = true; argv = true; envp = true }

blocks-HasBlocks : HasBlocks blocks
blocks-HasBlocks = record {
  path = λ n. (replicate n 0, refl, length-replicate {A = ℕ} n 0);
  fs = refl;
}

abbrev authorities : Authorities checker
authorities = record { new = some 0; load = λ st file. some (st + length file) }

-- -A /private:ca.pem -E /echo -X /run:bin -S docroot -b gemini://a.b/ -l 1966 -c cert -k key
abbrev options : List Opt
options =
    authn_by (codes "/private:ca.pem")
    ∷ echo_at (codes "/echo")
    ∷ exec_at (codes "/run:bin")
    ∷ static_at (codes "docroot")
    ∷ bind_url (codes "gemini://a.b/")
    ∷ listen_on (codes "1966")
    ∷ tls_certificate (codes "cert")
    ∷ tls_key (codes "key")
    ∷ []

options-HasRoot : All HasRoot options
options-HasRoot = (tt, (tt, ((ground arith, ground arith), (tt, (tt, (tt, (tt, (tt, tt))))))))

options-IsFit : All IsFit options
options-IsFit = (tt, (tt, (tt, (tt, (ground arith, (ground arith, (tt, (tt, tt))))))))

abbrev begun : Process talker shelf checker ample sockets contexts counters
begun = record {
  library = (0, 0);
  host = record { state = true; opened = []; closed = []; sockfd = 0 };
  contexts = 0;
  world = waiting;
  freed = [];
}

main-Exits_example :
    (y : Exit talker shelf checker ample sockets contexts counters) × (main talker shelf checker
        ample sockets contexts counters authorities processes blocks true plenty none none none
        options 0 callers
        (replicate max_request 0)
        begun
      ≡ ok y)
    × Exits talker shelf checker ample authorities processes blocks true sockets contexts counters
        callers
        (init counters begun.library).1
        begun
        y
main-Exits_example =
    main-Exits talker shelf checker ample authorities processes blocks true sockets contexts
      counters saying talker-IsLawful talker-WritesWhole talker-ReadsLawful ample-HasMemory
      shelf-Readable processes-Outputs blocks-HasBlocks (replicate max_request 0)
      (length-replicate {A = ℕ} max_request 0) callers callers-SendsBriefly options options-HasRoot
      none none none 0 begun options-IsFit

-- a line of input, and a read that fails
fuzz_line : fuzz (some block) (replicate max_request 0) (some (codes "gemini://a.b/")) ≡ ok 0
fuzz_line =
    main-Fed (some block) (replicate max_request 0) (some (codes "gemini://a.b/"))
      (length-replicate {A = ℕ} max_request 0) λ bs e. omega (arith, ap length (some-inj e))

fuzz_failure : fuzz (some block) (replicate max_request 0) none ≡ fault
fuzz_failure =
    main-Fed (some block) (replicate max_request 0) none (length-replicate {A = ℕ} max_request 0)
      λ bs e. cc
