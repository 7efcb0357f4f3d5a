-- ===== src/Request/Respond.antt =====
-- The status line that `gemini_request_respond` puts together in its array.
use mathlib.Core.List.{append_assoc}
use geminon.Base.{
  subst, ℕ, zero, suc, ◌+◌, ◌-◌, ◌/◌, ◌%◌, ◌≤◌, ◌≢◌, ◌≡◌, refl, sym, ap, ◌∙◌, Option, none, some,
  [], ◌∷◌, ◌++◌, All, All-append, length, length-append, length-take, length-replicate, take, drop,
  replicate, arith,
}
use geminon.Base.Arrays.{strncpy, strcat, write_at}
use geminon.Base.Arrays.Laws.{strlen-append, take-length-append, write_at-append}
use geminon.Base.Bytes.{NonZero-IsText, Bytes, IsText}
use geminon.Base.Run.{ok, ◌>>=◌}
use geminon.Fs.Path.{All-take}
use geminon.Request.Write.{AllOrFailure, request_write-whole}
use geminon.Request.{request_write, request_respond}
use geminon.Tls.{Failed, Tls, IsLawful, WritesWhole}

-- the two digits of the status, and the space behind them
abbrev status_bytes : ℕ → Bytes
status_bytes status = (b'0' + status / 10 % 10) ∷ (b'0' + status % 10) ∷ b' ' ∷ []

-- The status line, without its end.
abbrev body : ℕ → Bytes → Bytes
body status meta = status_bytes status ++ take 250 meta

-- The status line that a client should see: of the text, 250 bytes at most.
abbrev pub line : ℕ → Bytes → Bytes
line status meta = body status meta ++ (b'\r' ∷ b'\n' ∷ [])

abbrev nuls : ℕ → Bytes
nuls n = replicate n 0

zeros : (k : ℕ) → nuls k ++ nuls 3 ≡ 0 ∷ (nuls k ++ nuls 2)
zeros zero = refl
zeros (suc k) = ap (λ z. 0 ∷ z) (zeros k)

-- The array behind the copied text.
abbrev padding : Bytes → Bytes
padding meta = nuls (250 - length meta) ++ nuls 2

filled :
    (status : ℕ) (meta : Bytes)
    → strncpy (status_bytes status ++ nuls 253) 3 meta 250
      ≡ ok (body status meta ++ 0 ∷ padding meta)
unfolding strncpy
filled status meta =
    let copied : Bytes = take 250 meta ++ nuls (250 - length meta) in
    let full : length copied ≡ 250 = omega (
      arith,
      length-append (take 250 meta) (nuls (250 - length meta)),
      length-take 250 meta,
      length-replicate {A = ℕ} (250 - length meta) 0,
    ) in
    let rest : drop (length copied) (nuls 253) ≡ nuls 3 = ap (λ k. drop k (nuls 253)) full in
    let tail : copied ++ nuls 3 ≡ take 250 meta ++ 0 ∷ padding meta =
      append_assoc (take 250 meta) (nuls (250 - length meta)) (nuls 3)
      ∙ ap (λ z. take 250 meta ++ z) (zeros (250 - length meta)) in
    write_at-append (status_bytes status) (nuls 253) copied (omega arith)
    ∙ ap (λ z. ok (status_bytes status ++ (copied ++ z))) rest
    ∙ ap (λ z. ok (status_bytes status ++ z)) tail

body-NonZero : (status : ℕ) (meta : Bytes) → IsText meta → All (λ c. c ≢ 0) (body status meta)
body-NonZero status meta chars = (
  ground arith,
  (ground arith, (ground arith, All-take (λ c. c ≢ 0) 250 meta (NonZero-IsText meta chars))),
)

ended :
    (status : ℕ) (meta : Bytes)
    → IsText meta
    → (rest : Bytes) × (strcat (body status meta ++ 0 ∷ padding meta) (b'\r' ∷ b'\n' ∷ [])
        ≡ ok (line status meta ++ 0 ∷ rest))
unfolding strcat
ended status meta chars =
    let a = body status meta ++ 0 ∷ padding meta in
    let room : 3 ≤ length {A = ℕ} (0 ∷ padding meta) =
      omega (arith, length-append (nuls (250 - length meta)) (nuls 2)) in
    (
      drop 2 (padding meta),
      ap (λ r. r >>= λ n. write_at a n (b'\r' ∷ b'\n' ∷ 0 ∷ []))
            (strlen-append (body status meta) (padding meta) (body-NonZero status meta chars))
          ∙ write_at-append (body status meta) (0 ∷ padding meta) (b'\r' ∷ b'\n' ∷ 0 ∷ []) room
          ∙ ap ok (
              sym
                (append_assoc (body status meta) (b'\r' ∷ b'\n' ∷ []) (0 ∷ drop 2 (padding meta)))),
    )

line-NonZero : (status : ℕ) (meta : Bytes) → IsText meta → All (λ c. c ≢ 0) (line status meta)
line-NonZero status meta chars =
    All-append (λ c. c ≢ 0) (body status meta) (b'\r' ∷ b'\n' ∷ []) (body-NonZero status meta chars)
      (ground arith, (ground arith, tt))

module _ (t : Tls) where
  open t use {sent}

  -- What the caller is told: the length of the line, all of which was sent, or -1 if a write failed.
  abbrev pub Answered : ℕ → Bytes → t.Conn → Option ℕ → t.Conn → Type 0
  Answered status meta c none c' = Failed t c (line status meta) c'
  Answered status meta c (some k) c' =
      (k ≡ length (line status meta)) × (sent c' ≡ sent c ++ line status meta)

  AllOrFailure-Answered :
      (status : ℕ) (meta rest : Bytes) (c c' : t.Conn) (r : Option ℕ)
      → AllOrFailure t (line status meta ++ 0 ∷ rest) (length (line status meta)) c r c'
      → Answered status meta c r c'
  AllOrFailure-Answered status meta rest c c' none h =
      subst (λ bs. Failed t c bs c') (take-length-append (line status meta) (0 ∷ rest)) h
  AllOrFailure-Answered status meta rest c c' (some k) h =
      (h.0, h.1 ∙ ap (λ x. sent c ++ x) (take-length-append (line status meta) (0 ∷ rest)))

  -- The array of 256 bytes always suffices: what is sent is the status line with at most 250 bytes
  -- of the text.
  request_respond-line :
      (status : ℕ) (meta : Bytes) (c : t.Conn)
      → IsText meta
      → (rest : Bytes) × (request_respond t status meta c
          ≡ request_write t (line status meta ++ 0 ∷ rest) (length (line status meta)) c)
  unfolding request_respond
  request_respond-line status meta c chars =
      let (rest, e) = ended status meta chars in
      let written : write_at (nuls 256) 0 (status_bytes status)
          ≡ ok (status_bytes status ++ nuls 253) =
        write_at-append [] (nuls 256) (status_bytes status) (omega arith) in
      let measured = strlen-append (line status meta) rest (line-NonZero status meta chars) in
      (rest, rw (written, filled status meta, e, measured) refl)

  -- Over a connection that takes a write as a whole, `gemini_request_respond` never faults: it
  -- returns the length of the status line "XX text\r\n", with at most 250 bytes of the text, and has
  -- sent exactly that line, of at most 255 bytes; or a write fails, and it
  -- returns -1.
  pub request_respond-sends :
      (lawful : IsLawful t) (whole : WritesWhole t) (status : ℕ) (meta : Bytes) (c : t.Conn)
      → IsText meta
      → (r : Option ℕ) × (c' : t.Conn) × (request_respond t status meta c ≡ ok (r, c'))
        × (length (line status meta) ≤ 255)
        × Answered status meta c r c'
  request_respond-sends lawful whole status meta c chars =
      let (rest, e) = request_respond-line status meta c chars in
      let fits : length (line status meta) ≤ length (line status meta ++ 0 ∷ rest) =
        omega (arith, length-append (line status meta) (0 ∷ rest)) in
      let (r, c', done, all) =
        request_write-whole t lawful whole (line status meta ++ 0 ∷ rest)
          (length (line status meta)) c fits in
      (
        r,
        c',
        e ∙ done,
        omega (arith, length-append (body status meta) (b'\r' ∷ b'\n' ∷ []), length-take 250 meta),
        AllOrFailure-Answered status meta rest c c' r all,
      )
