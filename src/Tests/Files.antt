-- ===== src/Tests/Files.antt =====
-- The handler for files and `gemini_serve`, at a system with a file.
use geminon.Base.{
  ℕ, zero, suc, ◌≡◌, ◌++◌, refl, inl, inr, none, some, [], ◌∷◌, All, replicate, length-replicate,
  arith,
}
use geminon.Server.Handlers.Overflow.{handler_fs-overflow}
use geminon.Fs.Overflow.{nothing}
use geminon.Fs.Moves.{IsName, IsNameChar}
use geminon.Url.{Url}
use geminon.Request.Close.{Request}
use geminon.Base.Run.{fault}
use geminon.Base.Bytes.{IsChar, IsText, Bytes, codes}
use geminon.Server.Dispatch.{Item, files, root, applies}
use geminon.Server.Fifo.{IsFifo, end, full}
use geminon.Server.Handlers.Files.{Served, handler_fs-Served}
use geminon.Server.Handlers.{handler_fs}
use geminon.Server.Serve.Answers.{Routed, serve_one-Routed}
use geminon.Url.Grammar.{default, Parts, text, IsUrl}
use geminon.Server.Serve.{serve_one, crlf, Arrival, max_request}
use geminon.Server.{Server}
use geminon.Tests.Peers.{talker, peer, talker-IsLawful, talker-WritesWhole, talker-ReadsLawful}
use geminon.Tests.Scenes.{
  block, checker, place, req, req-IsOpen, shelf, ample, ample-HasMemory, shelf-Readable, saying,
  waiting,
}

handler_fs-Served_example :
    Served talker shelf checker ample
      (codes "docroot")
      (codes "c")
      5
      (peer [])
      req
      waiting
      (handler_fs talker shelf checker ample (codes "/") req (codes "docroot") waiting)
unfolding applies
handler_fs-Served_example =
    handler_fs-Served talker shelf checker ample talker-IsLawful talker-WritesWhole ample-HasMemory
      shelf-Readable (codes "/") (codes "docroot") 5 (peer []) place req waiting req-IsOpen
      (ground arith, ground arith) refl

abbrev pages : Item talker shelf checker ample
pages = record { prefix = some (codes "/"); handler = files; user_data = root (codes "docroot") }

abbrev library : Server (Item talker shelf checker ample)
library = record { heap = end pages ∷ []; first = some 0; last = some 0 }

library-IsFifo : IsFifo library (pages ∷ [])
library-IsFifo = full [] pages

abbrev parts : Parts
parts = record { host = codes "a.b"; port_text = []; port = 1965; path = codes "c" }

parts-IsUrl : IsUrl parts
parts-IsUrl = record {
  host_ne_nil = λ e. cc;
  host = ground arith;
  port = default;
  path = ground arith;
}

abbrev caller : Arrival (Bytes × Bytes) ℕ
caller = record { fd = 5; session = some (peer (text parts ++ crlf)); cert = none }

serve_one-Routed_example :
    Routed talker shelf checker ample caller parts
      (pages ∷ [])
      req
      waiting
      (serve_one talker shelf checker ample library caller req (replicate max_request 0) waiting)
serve_one-Routed_example =
    serve_one-Routed talker shelf checker ample library (pages ∷ []) library-IsFifo caller parts
      parts-IsUrl (ground arith) block refl (ground arith) saying talker-ReadsLawful
      (peer (text parts ++ crlf)) req (replicate max_request 0) waiting
      (length-replicate {A = ℕ} max_request 0) refl refl

All-replicate : (P : ℕ → Type 0) (n c : ℕ) → P c → All P (replicate n c)
All-replicate P zero c h = tt
All-replicate P (suc n) c h = (h, All-replicate P n c h)

abbrev huge : Bytes
huge = replicate 2047 b'a'

huge-IsText : IsText huge
huge-IsText = All-replicate IsChar 2047 b'a' (ground arith)

huge-IsName : IsName huge
huge-IsName = record {
  chars = All-replicate IsNameChar 2047 b'a' ((λ e. omega arith), (λ e. omega arith));
  visible = inr (omega (arith, length-replicate {A = ℕ} 2047 b'a'));
}

b-IsName : IsName (codes "b")
b-IsName = record { chars = (((λ e. omega arith), (λ e. omega arith)), tt); visible = inl refl }

-- host a.b, and a path of two names, the first of which is huge
abbrev far : Url
far = record {
  host = 0;
  port = 1965;
  path = 4;
  len = 2100;
  buf = codes "a.b" ++ 0 ∷ (b'/' ∷ (huge ++ b'/' ∷ (codes "b" ++ [])) ++ 0 ∷ []);
}

abbrev far_req : Request (Bytes × Bytes) ℕ
far_req = record { fd = some 5; ssl = some (peer []); url = some far; cert = none }

handler_fs-overflow_example :
    handler_fs talker shelf checker ample (codes "/") far_req (codes "docroot") waiting ≡ fault
handler_fs-overflow_example =
    handler_fs-overflow huge (codes "b") [] huge-IsName huge-IsText
      (length-replicate {A = ℕ} 2047 b'a') b-IsName (ground arith) (ground arith) nothing tt talker
      shelf checker ample (codes "/") (codes "docroot") 5 3 (peer []) far far_req waiting
      (record { fd_is = refl; ssl_is = refl; url_is = refl }) refl refl refl
