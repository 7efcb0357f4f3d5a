-- ===== src/Server/Serve/Closes.antt =====
-- What `gemini_serve` does with the connections that it accepts.
use geminon.Base.{
  ℕ, ◌+◌, ◌<◌, ◌≡◌, refl, ap, ◌∙◌, Bool, true, false, ◌&&◌, Option, none, some, List, [], ◌∷◌, ◌++◌,
  inl, inr, Bool-cases, ltb, ◌==◌, All, length, length-set, set, arith,
}
use geminon.Base.Arrays.{poke, strstr}
use geminon.Base.Arrays.Laws.{poke-set, length-c_string}
use geminon.Base.Bytes.{Bytes, codes, c_string}
use geminon.Base.Run.{Run, ok}
use geminon.Request.Close.{Req, Here, request_close}
use geminon.Server.Dispatch.{Item, Handled, walk}
use geminon.Server.Dispatch.Route.{walk-route}
use geminon.Server.Dispatch.Settled.{Behaves, Settled, route-Settles}
use geminon.Server.Fifo.{IsFifo, length-IsFifo}
use geminon.Server.Handlers.{Memory, Verifier}
use geminon.Server.Handlers.Proper.{IsOpen, OnSocket, close-Gone, dismiss-Gone}
use geminon.Server.Serve.{
  max_request, crlf, Arrival, Served, readto, fall_back, answer, take_line, begin, tally, serve_one,
  onward, serve_loop, serve,
}
use geminon.Server.Serve.Line.{HasLine, readto-HasLine}
use geminon.Server.{Server}
use geminon.System.{System}
use geminon.Tls.{Tls, IsLawful, ReadsLawful, WritesWhole}
use geminon.Url.{Url, parse_url}
use geminon.Url.Bounds.{parse_url-ends}

module _ {Conn Cert : Type 0} where
  -- The descriptors of connections, the last one first, in front of others.
  abbrev pub closed_fds : List (Arrival Conn Cert) → List ℕ → List ℕ
  closed_fds [] fds = fds
  closed_fds (a ∷ later) fds = closed_fds later (a.fd ∷ fds)

  -- why the server stops: there are no more connections, or more requests than allowed
  abbrev pub Stops : Bool → (requests max_requests : ℕ) → List (Arrival Conn Cert) → Type 0
  Stops false requests max_requests left = left ≡ []
  Stops true requests max_requests left = (0 < max_requests) × (max_requests < requests)

both_limits :
    (b : Bool) (n max_requests : ℕ)
    → (b && (ltb 0 max_requests && ltb max_requests n)) ≡ true
    → (0 < max_requests) × (max_requests < n)
both_limits b n max_requests e = ground arith

module _ (t : Tls) (sys : System) (x : Verifier) (mem : Memory) where
  -- A connection has been dealt with: its socket has been closed, once, and the buffer is whole.
  abbrev pub Over : ℕ → Here t sys x.Cert → Served t sys x mem → Type 0
  Over fd w (counts, req, buf, w') = (w'.hung_up ≡ fd ∷ w.hung_up) × (length buf ≡ max_request)

  abbrev Ends : ℕ → Here t sys x.Cert → Run (Served t sys x mem) → Type 0
  Ends fd w run = (y : Served t sys x mem) × (run ≡ ok y) × Over fd w y

  -- A line that has been read is for a fine URL, if it is for one.
  abbrev pub Says : (Url → Type 0) → Option ℕ × Bytes × t.Conn → Type 0
  Says Fine (none, dst, c) = Unit
  Says Fine (some n, dst, c) =
      (p : ℕ) (u : Url)
      → strstr dst crlf ≡ ok (some p)
      → parse_url mem.url (c_string (set dst p 0)) ≡ ok (some u)
      → Fine u

  -- what `s_readto` makes of a connection
  abbrev pub Hears : (Url → Type 0) → Bytes → t.Conn → Type 0
  Hears Fine buf c =
      (y : Option ℕ × Bytes × t.Conn) × (readto t buf max_request crlf c ≡ ok y)
      × HasLine t max_request crlf y
      × Says Fine y

  -- A connection whose session, if it has one, satisfies a condition.
  abbrev pub Has : (t.Conn → Type 0) → Arrival t.Conn x.Cert → Type 0
  Has Speaks a = (c : t.Conn) → a.session ≡ some c → Speaks c

  module _ (lawful : IsLawful t) (whole : WritesWhole t) (Fine : Url → Type 0)
      (Speaks : t.Conn → Type 0)
      (hears : (buf : Bytes) (c : t.Conn) → length buf ≡ max_request → Speaks c → Hears Fine buf c)
      (s : Server (Item t sys x mem)) (hs : List (Item t sys x mem)) (fifo : IsFifo s hs)
      (behave : All (Behaves t sys x mem Fine) hs) where
    fall_back-Ends :
        (fd : ℕ) (u : Url) (req : Req t sys x.Cert) (w : Here t sys x.Cert) (buf : Bytes)
        → length buf ≡ max_request
        → (y : Handled t sys x mem) → Settled t sys x mem fd u req w y
        → Ends fd w (fall_back t sys x mem buf y)
    unfolding fall_back
    fall_back-Ends fd u req w buf size (true, r, v) gone = ((true, r, buf, v), refl, (gone.2, size))
    fall_back-Ends fd u req w buf size (false, r, v) kept =
        let (r', v', e, gone) =
          dismiss-Gone t sys x.Cert lawful whole 51 (codes "Not Found") fd kept.0 r v (ground arith)
            (kept.1.fd_is, kept.1.ssl_is) in
        ((true, r', buf, v'), rw e refl, (gone.2 ∙ ap (λ z. fd ∷ z) kept.3, size))

    answer-Ends :
        (fd : ℕ) (c : t.Conn) (o : Option Url) (req : Req t sys x.Cert) (w : Here t sys x.Cert)
        (buf : Bytes)
        → length buf ≡ max_request
        → OnSocket t sys x.Cert fd c req
        → ((u : Url) → o ≡ some u → Fine u)
        → Ends fd w (answer t sys x mem s o req buf w)
    unfolding answer
    answer-Ends fd c none req w buf size fresh fine =
        let (r, v, e, gone) =
          dismiss-Gone t sys x.Cert lawful whole 50 (codes "Bad URL") fd c
            (record req { url = none }) w (ground arith) fresh in
        ((false, r, buf, v), rw e refl, (gone.2, size))
    answer-Ends fd c (some u) req w buf size fresh fine =
        let req₁ = record req { url = some u } in
        let open_req : IsOpen fd c u req₁ = record {
          fd_is = fresh.0;
          ssl_is = fresh.1;
          url_is = refl;
        } in
        let (y, e, settled) =
          route-Settles t sys x mem Fine lawful whole fd u (fine u refl) hs behave c req₁ w
            open_req in
        let walked : walk t sys x mem (length s.heap + 2) s.heap s.first req₁ w ≡ ok y =
          walk-route t sys x mem s hs (length s.heap + 2) req₁ w fifo
            (omega (arith, length-IsFifo s hs fifo))
          ∙ e in
        let (z, f, over) = fall_back-Ends fd u req₁ w buf size y settled in (z, rw walked f, over)

    take_line-Ends :
        (fd : ℕ) (c : t.Conn) (req : Req t sys x.Cert) (w : Here t sys x.Cert)
        (y : Option ℕ × Bytes × t.Conn)
        → req.fd ≡ some fd
        → HasLine t max_request crlf y
        → Says Fine y
        → Ends fd w (take_line t sys x mem s req w y)
    unfolding take_line
    take_line-Ends fd c req w (none, buf, c') is size said =
        let (r, v) = request_close t sys x.Cert (record req { ssl = some c' }) w in
        let gone =
          close-Gone t sys x.Cert (λ _. Unit {0}) fd c' (record req { ssl = some c' }) w (is, refl)
            tt in
        ((false, r, buf, v), refl, (gone.2, size))
    take_line-Ends fd c req w (some n, buf, c') is (size, pos, lt, (p, found, within)) said =
        let some_bytes : (n == 0) ≡ false = ground arith in
        let cut : poke buf p 0 ≡ ok (set buf p 0) = poke-set buf p 0 (omega arith) in
        let size' : length (set buf p 0) ≡ max_request = length-set buf p 0 ∙ size in
        let (u, parsed) =
          parse_url-ends mem.url (c_string (set buf p 0))
            (omega (arith, length-c_string (set buf p 0))) in
        let (y, e, over) =
          answer-Ends fd c' u (record req { ssl = some c' }) w (set buf p 0) size' (is, refl)
            (λ v same. said p v found (parsed ∙ ap ok same)) in
        (y, rw (some_bytes, found, cut, parsed, take_line) e, over)

    begin-Ends :
        (o : Option t.Conn) (a : Arrival t.Conn x.Cert) (req : Req t sys x.Cert) (buf : Bytes)
        (w : Here t sys x.Cert)
        → length buf ≡ max_request
        → ((c : t.Conn) → o ≡ some c → Speaks c)
        → Ends a.fd w (begin t sys x mem o s a req buf w)
    unfolding begin
    begin-Ends none a req buf w size speaks = (_, refl, (refl, size))
    begin-Ends (some c) a req buf w size speaks =
        let (y, e, line, said) = hears buf c size (speaks c refl) in
        let req₁ = record req { fd = some a.fd; ssl = some c; cert = a.cert } in
        let (z, f, over) = take_line-Ends a.fd c req₁ w y refl line said in (z, rw e f, over)

    serve_loop-Closes :
        (requests max_requests : ℕ) (arrivals : List (Arrival t.Conn x.Cert))
        → (req : Req t sys x.Cert) (buf : Bytes) (w : Here t sys x.Cert) → length buf ≡ max_request
        → All (Has Speaks) arrivals
        → (r : Bool) × (n : ℕ) × (w' : Here t sys x.Cert) × (served left : List
            (Arrival t.Conn x.Cert))
          × (serve_loop t sys x mem s requests max_requests arrivals req buf w ≡ ok (r, n, w'))
          × (arrivals ≡ served ++ left)
          × (w'.hung_up ≡ closed_fds served w.hung_up)
          × Stops r n max_requests left
    unfolding serve_loop serve_one onward
    serve_loop-Closes requests max_requests [] req buf w size all_speak =
        (false, requests, w, [], [], refl, refl, refl, refl)
    serve_loop-Closes requests max_requests (a ∷ later) req buf w size all_speak =
        let (y, e, (fds, size')) = begin-Ends a.session a req buf w size all_speak.0 in
        let n = tally y.0 requests in
        elim (Bool-cases (y.0 && (ltb 0 max_requests && ltb max_requests n))) [
          | inl stop ↦ (
            true,
            n,
            y.3,
            a ∷ [],
            later,
            rw (e, stop, onward) refl,
            refl,
            fds,
            both_limits y.0 n max_requests stop,
          )
          | inr goes ↦
              let (r, m, w', served, left, f, all, closed, stops) =
                serve_loop-Closes n max_requests later y.1 y.2 y.3 size' all_speak.1 in
              (
                r,
                m,
                w',
                a ∷ served,
                left,
                rw (e, goes, onward) f,
                ap (λ z. a ∷ z) all,
                closed ∙ ap (closed_fds served) fds,
                stops,
              )
        ]

    pub serve-Stops :
        (requests max_requests : ℕ) (arrivals : List (Arrival t.Conn x.Cert)) (buf : Bytes)
        (w : Here t sys x.Cert)
        → length buf ≡ max_request
        → All (Has Speaks) arrivals
        → (r : Bool) × (n : ℕ) × (w' : Here t sys x.Cert) × (served left : List
            (Arrival t.Conn x.Cert))
          × (serve t sys x mem s requests max_requests arrivals buf w ≡ ok (r, n, w'))
          × (arrivals ≡ served ++ left)
          × (w'.hung_up ≡ closed_fds served w.hung_up)
          × Stops r n max_requests left
    unfolding serve
    serve-Stops requests max_requests arrivals buf w size all_speak =
        serve_loop-Closes requests max_requests arrivals _ buf w size all_speak

  -- With handlers that behave for every URL, `gemini_serve` ends for every sequence of connections,
  -- whatever their peers send: it deals with the first of them, in order, and closes the socket of each
  -- exactly once and no other. It returns -1 if none is left, and 0 only if there is a limit on the
  -- requests and it has been passed.
  pub serve-Closes :
      (lawful : IsLawful t) (whole : WritesWhole t) (reads : ReadsLawful t)
      (s : Server (Item t sys x mem)) (hs : List (Item t sys x mem))
      → IsFifo s hs
      → All (Behaves t sys x mem (λ (u : Url). Unit {0})) hs
      → (requests max_requests : ℕ) (arrivals : List (Arrival t.Conn x.Cert)) (buf : Bytes)
        (w : Here t sys x.Cert)
      → length buf ≡ max_request
      → (r : Bool) × (n : ℕ) × (w' : Here t sys x.Cert) × (served left : List
          (Arrival t.Conn x.Cert))
        × (serve t sys x mem s requests max_requests arrivals buf w ≡ ok (r, n, w'))
        × (arrivals ≡ served ++ left)
        × (w'.hung_up ≡ closed_fds served w.hung_up)
        × Stops r n max_requests left
  serve-Closes lawful whole reads s hs fifo behave requests max_requests arrivals buf w size =
      serve-Stops lawful whole (λ (u : Url). Unit {0}) (λ (c : t.Conn). Unit {0}) any_line s hs fifo
        behave requests max_requests arrivals buf w size (any_peer arrivals)
    where
      any_url : (y : Option ℕ × Bytes × t.Conn) → Says (λ (u : Url). Unit {0}) y
      any_url (none, dst, c) = tt
      any_url (some n, dst, c) = λ p u e f. tt

      any_line :
          (buf : Bytes) (c : t.Conn)
          → length buf ≡ max_request
          → Unit {0}
          → Hears (λ (u : Url). Unit {0}) buf c
      any_line buf c size speaks =
          let (y, e, line) =
            readto-HasLine t reads b'\r' (b'\n' ∷ []) buf max_request c size (omega arith) in
          (y, e, line, any_url y)

      any_peer : (peers : List (Arrival t.Conn x.Cert)) → All (Has (λ (c : t.Conn). Unit {0})) peers
      any_peer [] = tt
      any_peer (a ∷ later) = ((λ c e. tt), any_peer later)
