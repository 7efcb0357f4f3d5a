-- ===== src/Server/Serve/Served.antt =====
-- `gemini_serve` with all handlers of server.c, for peers that send short lines.
use geminon.Base.{
  ℕ, ◌≡◌, ap, Bool, Option, none, some, List, [], ◌∷◌, ◌++◌, All, length, length-append, set, arith,
}
use geminon.Base.Bytes.{Bytes, c_string}
use geminon.Base.Run.{ok}
use geminon.Request.Close.{Here}
use geminon.Server.Dispatch.{Item}
use geminon.Server.Dispatch.Settled.{Behaves}
use geminon.Server.Fifo.{IsFifo}
use geminon.Server.Handlers.Files.{IsShort}
use geminon.Server.Handlers.{Memory, Verifier}
use geminon.Server.Serve.Closes.{closed_fds, Stops, Says, Hears, Has, serve-Stops}
use geminon.Server.Serve.Line.{readto-HasLine}
use geminon.Server.Serve.Short.{IsBrief, Brief, readto-Brief}
use geminon.Server.Serve.{Arrival, max_request, serve}
use geminon.Server.{Server}
use geminon.System.{System}
use geminon.Tls.{Tls, IsLawful, WritesWhole, ReadsLawful, Sending}
use geminon.Url.Exact.{parse_url_sound}
use geminon.Url.Grammar.{scheme}
use geminon.Url.{Url, parse_url}

-- A URL that a short line holds has a short path.
parse_url-IsShort :
    (block : Option Url) (s : Bytes) (u : Url)
    → IsBrief s
    → parse_url block s ≡ ok (some u)
    → IsShort u
unfolding parse_url
parse_url-IsShort none s u brief e = cc
parse_url-IsShort (some block) s u (chars, short) e =
    let (p, i, shape, host, port, path) = parse_url_sound block u s chars (omega arith) e in
    rw path (
      (ground arith, i.path),
      omega (
        arith,
        ap length shape,
        length-append scheme (p.host ++ (p.port_text ++ (b'/' ∷ p.path))),
        length-append p.host (p.port_text ++ (b'/' ∷ p.path)),
        length-append p.port_text (b'/' ∷ p.path),
      ),
    )

module _ (t : Tls) (sys : System) (x : Verifier) (mem : Memory) (i : Sending t) where
  open i use {pending}

  line-Says : (y : Option ℕ × Bytes × t.Conn) → Brief t i y → Says t sys x mem IsShort y
  line-Says (none, dst, c) brief = tt
  line-Says (some n, dst, c) brief = λ p u found parsed.
      parse_url-IsShort mem.url (c_string (set dst p 0)) u (brief p found) parsed

  brief-Hears :
      (reads : ReadsLawful t) (buf : Bytes) (c : t.Conn)
      → length buf ≡ max_request
      → IsBrief (pending c)
      → Hears t sys x mem IsShort buf c
  brief-Hears reads buf c size brief =
      let (y, e, line) =
        readto-HasLine t reads b'\r' (b'\n' ∷ []) buf max_request c size (omega arith) in
      (
        y,
        e,
        line,
        line-Says y (readto-Brief t i reads buf max_request c y size (omega arith) brief e),
      )

  -- A connection whose peer, if there is a session, is about to send a text of at most 2047 bytes.
  abbrev pub SendsBriefly : Arrival t.Conn x.Cert → Type 0
  SendsBriefly = Has t sys x mem (λ (c : t.Conn). IsBrief (pending c))

  -- With SSL objects that behave as documented and take writes as a whole, with handlers that behave for
  -- every URL with a path of at most 2047 bytes, such as `s_handler_fs`, and for peers that send texts of
  -- at most so many bytes, `gemini_serve` ends: it deals with the first connections, in order, and closes
  -- the socket of each exactly once and no other. It returns -1 if none is left, and 0 only if there is
  -- a limit on the requests and it has been passed.
  pub serve-Closes_brief :
      (lawful : IsLawful t) (whole : WritesWhole t) (reads : ReadsLawful t)
      (s : Server (Item t sys x mem)) (hs : List (Item t sys x mem))
      → IsFifo s hs
      → All (Behaves t sys x mem IsShort) hs
      → (requests max_requests : ℕ) (arrivals : List (Arrival t.Conn x.Cert)) (buf : Bytes)
        (w : Here t sys x.Cert)
      → length buf ≡ max_request
      → All SendsBriefly arrivals
      → (r : Bool) × (n : ℕ) × (w' : Here t sys x.Cert) × (served left : List
          (Arrival t.Conn x.Cert))
        × (serve t sys x mem s requests max_requests arrivals buf w ≡ ok (r, n, w'))
        × (arrivals ≡ served ++ left)
        × (w'.hung_up ≡ closed_fds served w.hung_up)
        × Stops r n max_requests left
  serve-Closes_brief lawful whole reads s hs fifo behave requests max_requests arrivals buf w size
        brief =
      serve-Stops t sys x mem lawful whole IsShort (λ (c : t.Conn). IsBrief (pending c))
        (brief-Hears reads) s hs fifo behave requests max_requests arrivals buf w size brief
