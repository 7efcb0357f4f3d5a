-- ===== src/Cli/Fuzz/Ends.antt =====
-- What the driver for `gemini_parse_url` comes to.
use geminon.Base.{
  ℕ, ◌<◌, ◌≡◌, refl, ◌∙◌, Option, none, some, [], ◌∷◌, length, length-set, set, arith,
}
use geminon.Base.Arrays.{poke}
use geminon.Base.Arrays.Laws.{AtMost, poke-set, strstr-set, length-write_at, length-c_string}
use geminon.Base.Bytes.{Bytes, c_string}
use geminon.Base.Run.{Run, ok, fault}
use geminon.Server.Serve.{max_request}
use geminon.Url.Bounds.{parse_url-ends}
use geminon.Url.{Url}
use geminon.Cli.Fuzz.{or_newline, cut_line, take_input, main}

cut_line-ends :
    (m n : ℕ) (buf : Bytes)
    → length buf ≡ m
    → n < m
    → (p : Option ℕ) → AtMost n p
    → (buf' : Bytes) × (cut_line buf p ≡ ok buf') × (length buf' ≡ m)
unfolding cut_line
cut_line-ends m n buf size lt none most = (buf, refl, size)
cut_line-ends m n buf size lt (some p) most =
    (set buf p 0, poke-set buf p 0 (omega arith), length-set buf p 0 ∙ size)

or_newline-ends :
    (n : ℕ) (buf : Bytes)
    → n < length buf
    → (p : Option ℕ) → AtMost n p
    → (q : Option ℕ) × (or_newline (set buf n 0) p ≡ ok q) × AtMost n q
unfolding or_newline
or_newline-ends n buf lt (some p) most = (some p, refl, most)
or_newline-ends n buf lt none most = strstr-set buf n b'\n' [] lt

take_input-ends :
    (block : Option Url) (n : ℕ) (buf : Bytes)
    → length buf ≡ max_request
    → n < max_request
    → take_input block n buf ≡ ok 0
unfolding take_input
take_input-ends block n buf size lt =
    let ended : poke buf n 0 ≡ ok (set buf n 0) = poke-set buf n 0 (omega arith) in
    let (p, found, most) = strstr-set buf n b'\r' [] (omega arith) in
    let (q, chosen, most') = or_newline-ends n buf (omega arith) p most in
    let (buf', cut_it, size') =
      cut_line-ends max_request n (set buf n 0) (length-set buf n 0 ∙ size) lt q most' in
    let (u, read) = parse_url-ends block (c_string buf') (omega (arith, length-c_string buf')) in
    rw (ended, found, chosen, cut_it, read) refl

-- What the driver comes to for a read.
abbrev pub Fed : Option Bytes → Run ℕ → Type 0
Fed none run = run ≡ fault
Fed (some []) run = run ≡ ok 1
Fed (some (b ∷ bs)) run = run ≡ ok 0

-- For a read that leaves room for a NUL the driver ends with the exit code 1 if there is no input, and
-- 0 otherwise, whatever the input is and whether or not there is memory for a URL. After a read that
-- fails it stores outside of its buffer.
pub main-Fed :
    (block : Option Url) (buf : Bytes) (r : Option Bytes)
    → length buf ≡ max_request
    → ((bs : Bytes) → r ≡ some bs → length bs < max_request)
    → Fed r (main block buf r)
unfolding main take_input poke
main-Fed block buf none size short = ground arith
main-Fed block buf (some []) size short = refl
main-Fed block buf (some (b ∷ bs)) size short =
    let lt : length (b ∷ bs) < max_request = short (b ∷ bs) refl in
    let (d, stored, kept) = length-write_at buf 0 (b ∷ bs) (omega arith) in
    rw stored (take_input-ends block (length (b ∷ bs)) d (kept ∙ size) lt)
