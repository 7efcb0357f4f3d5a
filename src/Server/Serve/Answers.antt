-- ===== src/Server/Serve/Answers.antt =====
-- What `gemini_serve` does with a connection whose peer sends the line of a URL.
use geminon.Base.{
  ℕ, ◌+◌, ◌<◌, ◌≡◌, ◌≢◌, refl, sym, subst, ◌⊎◌, inl, inr, false, Option, none, some, List, [], ◌∷◌,
  ◌++◌, ◌==◌, All, All-append, length, arith,
}
use geminon.Base.Arrays.{poke}
use geminon.Base.Arrays.Laws.{poke-append}
use geminon.Base.Bytes.{Bytes, IsChar, IsText, c_string-IsText}
use geminon.Base.Run.{Run, ok, ◌>>=◌}
use geminon.Request.Close.{Req, Here, request_close}
use geminon.Server.Dispatch.Route.{route, walk-route}
use geminon.Server.Dispatch.{Item}
use geminon.Server.Fifo.{IsFifo, length-IsFifo}
use geminon.Server.Handlers.{Memory, Verifier}
use geminon.Server.Serve.Crlf.{IsLine, IsLineChar, strstr-line}
use geminon.Server.Serve.Heard.{Heard, readto-Heard}
use geminon.Server.Serve.{
  Arrival, Served, max_request, crlf, fall_back, answer, take_line, begin, serve_one,
}
use geminon.Server.{Server}
use geminon.System.{System}
use geminon.Tls.{Tls, ReadsLawful, Sending}
use geminon.Url.Complete.{parse_url_complete}
use geminon.Url.Grammar.{IsHost, IsDigits, scheme, IsPort, default, explicit, Parts, text, IsUrl}
use geminon.Url.{Url, host_string, path_string, parse_url}

host-IsLine : (h : Bytes) → IsHost h → IsLine h
host-IsLine [] i = tt
host-IsLine (c ∷ h) i = (ground arith, host-IsLine h i.1)

digits-IsLine : (ds : Bytes) → IsDigits ds → IsLine ds
digits-IsLine [] i = tt
digits-IsLine (c ∷ ds) i = (ground arith, digits-IsLine ds i.1)

port-IsLine : (s : Bytes) (n : ℕ) → IsPort s n → IsLine s
port-IsLine _ _ default = tt
port-IsLine _ _ (explicit ds digits small) = (ground arith, digits-IsLine ds digits)

path-IsLine : (s : Bytes) → All IsChar s → All (λ c. c ≢ b'\r') s → IsLine s
path-IsLine [] chars no_cr = tt
path-IsLine (c ∷ s) chars no_cr = ((chars.0, no_cr.0), path-IsLine s chars.1 no_cr.1)

text-IsLine : (p : Parts) → IsUrl p → All (λ c. c ≢ b'\r') p.path → IsLine (text p)
text-IsLine p i no_cr = All-append IsLineChar scheme _ (ground arith) (
    All-append IsLineChar p.host _ (host-IsLine p.host i.host) (
      All-append IsLineChar p.port_text _ (port-IsLine p.port_text p.port i.port)
        (ground arith, path-IsLine p.path i.path no_cr)))

IsLine-IsText : (s : Bytes) → IsLine s → IsText s
IsLine-IsText [] h = tt
IsLine-IsText (c ∷ s) h = (h.0.0, IsLine-IsText s h.1)

module _ (t : Tls) (sys : System) (x : Verifier) (mem : Memory) where
  -- a request on a connection
  abbrev pub taken : Arrival t.Conn x.Cert → t.Conn → Option Url → Req t sys x.Cert
  taken a c u = record { fd = some a.fd; ssl = some c; url = u; cert = a.cert }

  -- The parts of a URL.
  abbrev pub IsFor : Parts → Url → Type 0
  IsFor p u = (host_string u ≡ p.host) × (u.port ≡ p.port) × (path_string u ≡ b'/' ∷ p.path)

  -- A URL with these parts has been given to the handlers, in order, and to the fallback behind them; or
  -- a read with room for a byte has failed, and the connection has been closed.
  abbrev pub Routed :
      Arrival t.Conn x.Cert
      → Parts
      → List (Item t sys x mem)
      → Req t sys x.Cert
      → Here t sys x.Cert
      → Run (Served t sys x mem)
      → Type 0
  Routed a p hs req w run =
      ((u : Url) × (c : t.Conn) × (buf : Bytes) × IsFor p u
        × (run ≡ (route t sys x mem hs (taken a c (some u)) w >>= fall_back t sys x mem buf)))
      ⊎ ((c c' : t.Conn) × (k : ℕ) × (buf : Bytes) × (0 < k)
          × (t.read_ex c k ≡ (none, c'))
          × (run
              ≡ ok (
                false,
                (request_close t sys x.Cert (taken a c' req.url) w).0,
                buf,
                (request_close t sys x.Cert (taken a c' req.url) w).1,
              )))

  module _ (s : Server (Item t sys x mem)) (hs : List (Item t sys x mem)) (fifo : IsFifo s hs)
      (a : Arrival t.Conn x.Cert) (p : Parts) (is : IsUrl p) (no_cr : All (λ c. c ≢ b'\r') p.path)
      (block : Url) (memory : mem.url ≡ some block)
      (short : length (text p) + 2 < max_request) where
    line-Routed :
        (c₀ c : t.Conn) (req : Req t sys x.Cert) (w : Here t sys x.Cert) (r : Bytes) (n : ℕ)
        → n ≡ length (text p) + 2
        → Routed a p hs req w (
            take_line t sys x mem s
              (taken a c₀ req.url)
              w
              (some n, text p ++ (b'\r' ∷ b'\n' ∷ 0 ∷ r), c))
    unfolding take_line answer
    line-Routed c₀ c req w r n count =
        let line = text p in
        let chars = text-IsLine p is no_cr in
        let some_bytes : (n == 0) ≡ false = ground arith in
        let cut : poke (line ++ (b'\r' ∷ b'\n' ∷ 0 ∷ r)) (length line) 0
            ≡ ok (line ++ 0 ∷ (b'\n' ∷ 0 ∷ r)) =
          poke-append line b'\r' 0 (b'\n' ∷ 0 ∷ r) in
        let alone = c_string-IsText line (b'\n' ∷ 0 ∷ r) (IsLine-IsText line chars) in
        let (u, e, host, port, path) = parse_url_complete p block is (omega arith) in
        let parsed : parse_url mem.url line ≡ ok (some u) = rw memory e in
        let walked =
          walk-route t sys x mem s hs (length s.heap + 2) (taken a c (some u)) w fifo
            (omega (arith, length-IsFifo s hs fifo)) in
        inl (
          u,
          c,
          line ++ 0 ∷ (b'\n' ∷ 0 ∷ r),
          (host, port, path),
          rw (some_bytes, strstr-line line (0 ∷ r) chars, cut, alone, parsed, walked, take_line)
              refl,
        )

    take_line-Routed :
        (i : Sending t) (c₀ : t.Conn) (req : Req t sys x.Cert) (w : Here t sys x.Cert)
        (y : Option ℕ × Bytes × t.Conn)
        → Heard t i (text p) max_request y
        → Routed a p hs req w (take_line t sys x mem s (taken a c₀ req.url) w y)
    unfolding take_line
    take_line-Routed i c₀ req w (none, dst, c') (size, (c, k, pos, failed)) =
        inr (c, c', k, dst, pos, failed, refl)
    take_line-Routed i c₀ req w (some n, dst, c') (count, size, (r, shape)) =
        subst
          (λ z.
            Routed a p hs req w (take_line t sys x mem s (taken a c₀ req.url) w (some n, z, c')))
          (sym shape) (line-Routed c₀ c' req w r n count)

    -- For a peer that is about to send the line of a URL of the grammar, with no CR in its path and with
    -- room for it in the buffer, given memory for a URL, and with reads that behave as documented, the
    -- body of the loop of `gemini_serve` gives a request for the parts of the URL to the handlers, in
    -- the order of registration, and to the fallback behind them, however the bytes of the line arrive;
    -- or a read with room for a byte has failed, and it closes the connection.
    pub serve_one-Routed :
        (i : Sending t) (reads : ReadsLawful t) (c : t.Conn) (req : Req t sys x.Cert) (buf : Bytes)
        (w : Here t sys x.Cert)
        → length buf ≡ max_request
        → a.session ≡ some c
        → i.pending c ≡ text p ++ crlf
        → Routed a p hs req w (serve_one t sys x mem s a req buf w)
    unfolding serve_one begin
    serve_one-Routed i reads c req buf w size session coming =
        let (y, e, heard) =
          readto-Heard t i (text p) reads (text-IsLine p is no_cr) buf max_request c size coming
            short in
        rw (session, begin, e) (take_line-Routed i c req w y heard)
