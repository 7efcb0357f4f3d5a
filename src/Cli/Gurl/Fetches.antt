-- ===== src/Cli/Gurl/Fetches.antt =====
-- What the client writes for its arguments.
use mathlib.Core.List.{append_assoc, append-nil}
use geminon.Base.{
  ℕ, zero, suc, ◌+◌, ◌<◌, ◌≤◌, ◌≡◌, refl, sym, ap, ◌∙◌, ◌^◌, Bool, true, false, Option, none, some,
  List, [], ◌∷◌, ◌++◌, length, All, arith,
}
use geminon.Base.Bytes.{Bytes, IsText}
use geminon.Base.Run.{Run, ok}
use geminon.Cli.Gurl.{Errand, Done, hung_up, streamed, requested, fetch_loop, main}
use geminon.Client.Requests.{Requested, client_request-Requested}
use geminon.Client.{Dialer, Net}
use geminon.Response.Streams.{Written, response_stream-Written}
use geminon.Response.{Response, response_stream, response_close}
use geminon.System.{System, Outgoing}
use geminon.Tls.{Tls, Incoming}

-- An argument that fits the types of C, memory for the buffer, and enough rounds for answers of less
-- than `most` bytes.
pub record IsFit (most : ℕ) (e : Errand) : Type 0 where
  pub chars : IsText e.url
  pub short : length e.url + 1 < 2 ^ 32
  pub size : length e.digits ≡ 6
  pub buf : Bytes
  pub buf_is : e.buffer ≡ some buf
  pub room : length buf ≡ 8192
  pub rounds : most ≤ e.reads

module _ (t : Tls) (i : Incoming t) (d : Dialer t.Conn) (sys : System) (o : Outgoing sys 1) where
  open i use {pending}
  open o use {written}

  -- the connection over which a URL has been sent
  abbrev pub asked : t.Conn → Bytes → t.Conn
  asked c url = d.write (d.write c url) (b'\r' ∷ b'\n' ∷ [])

  -- The answers to some requests, one after the other, each as a peer gives it to the URL.
  pub data Answers : List Errand → Bytes → Type 0 where
    no_more : Answers [] []
    one_more :
        {e : Errand} {later : List Errand} {rest : Bytes} (c : t.Conn)
        → Answers later rest
        → Answers (e ∷ later) (pending (asked c e.url) ++ rest)

  -- With the exit code 0 all answers have been written, in order; there is no other code but 1.
  abbrev pub Fetched : List Errand → sys.State → Done t d sys → Type 0
  Fetched errands s (zero, n', s') =
      (bs : Bytes) × Answers errands bs × (written s' ≡ written s ++ bs)
  Fetched errands s (suc m, n', s') = m ≡ 0

  abbrev Fetches : List Errand → sys.State → Run (Done t d sys) → Type 0
  Fetches errands s run = (y : Done t d sys) × (run ≡ ok y) × Fetched errands s y

  Fetched-more :
      (e : Errand) (later : List Errand) (c : t.Conn) (s s₁ : sys.State) (y : Done t d sys)
      → written s₁ ≡ written s ++ pending (asked c e.url)
      → Fetched later s₁ y
      → Fetched (e ∷ later) s y
  Fetched-more e later c s s₁ (zero, n', s') step (bs, answers, all) = (
    pending (asked c e.url) ++ bs,
    one_more c answers,
    all ∙ ap (λ z. z ++ bs) step ∙ append_assoc (written s) (pending (asked c e.url)) bs,
  )
  Fetched-more e later c s s₁ (suc m, n', s') step h = h

  streamed-Fetches :
      (e : Errand) (later : List Errand) (c : t.Conn) (res : Response t.Conn) (n : Net d)
      (s : sys.State)
      → (again : Net d → sys.State → Run (Done t d sys))
      → ((n : Net d) (s : sys.State) → Fetches later s (again n s))
      → (z : Bool × sys.State × t.Conn) → Written t sys i 1 o (pending (asked c e.url)) s z
      → Fetches (e ∷ later) s (streamed t d sys again res n z)
  unfolding streamed response_close
  streamed-Fetches e later c res n s again goes (false, s₁, c₁) h = ((1, n, s₁), refl, refl)
  streamed-Fetches e later c res n s again goes (true, s₁, c₁) h =
      let (y, f, fetched) = goes (hung_up t d sys res.fd n) s₁ in
      (y, f, Fetched-more e later c s s₁ y h fetched)

  requested-Fetches :
      (most : ℕ) (e : Errand) (later : List Errand) (n₀ : Net d) (s : sys.State)
      → (again : Net d → sys.State → Run (Done t d sys)) → IsFit most e
      → ((c : t.Conn) → length (pending (asked c e.url)) < most)
      → ((n : Net d) (s : sys.State) → Fetches later s (again n s))
      → (r : Option (Response t.Conn)) (n : Net d) → Requested d e.url e.junk n₀ r n
      → Fetches (e ∷ later) s (requested t d sys again e s (r, n))
  unfolding requested
  requested-Fetches most e later n₀ s again fit bounded goes none n h = ((1, n, s), refl, refl)
  requested-Fetches most e later n₀ s again fit bounded goes (some res) n (fd, b, same, (c, ssl)) =
      let lt : length (pending (asked c e.url)) < e.reads = omega (arith, bounded c, fit.rounds) in
      let (z, f, h) =
        response_stream-Written t sys i 1 o e.reads 8192 fit.buf s (asked c e.url) fit.room
          (ground arith) lt in
      let f' : response_stream t sys e.reads e.buffer 1 8192 s (asked c e.url) ≡ ok z =
        rw fit.buf_is f in
      rw (ssl, requested, f') (streamed-Fetches e later c res n s again goes z h)

  -- For arguments that fit, and peers whose answer to a request has less than a number of bytes, the
  -- client ends, with the exit code 0 or 1; with 0, it has made a request for each argument in turn and
  -- written the answers, whole and in order.
  pub main-Fetched :
      (most : ℕ) (errands : List Errand) (n : Net d) (s : sys.State)
      → All (IsFit most) errands
      → ((c : t.Conn) (url : Bytes) → length (pending (asked c url)) < most)
      → (y : Done t d sys) × (main t d sys true errands n s ≡ ok y) × Fetched errands s y
  unfolding main fetch_loop
  main-Fetched most [] n s fits bounded =
      ((0, n, s), refl, ([], no_more, sym (append-nil (written s))))
  main-Fetched most (e ∷ later) n s (fit, fits) bounded =
      let (r, n', f, h) =
        client_request-Requested d e.block e.memory e.junk e.digits e.url n fit.chars fit.short
          fit.size in
      rw f (
        requested-Fetches most e later n s (fetch_loop t d sys later) fit (λ c. bounded c e.url)
          (λ m v. main-Fetched most later m v fits bounded) r n' h)
