-- ===== src/Url/Complete.antt =====
-- Every URL of the grammar is accepted, by `gemini_parse_url_into` with a buffer that is long
-- enough and by `gemini_parse_url`, and its parts are what `host`, `port` and `path` point at.
use mathlib.Core.List.{append-nil, append_assoc}
use native.Mathlib.Nat.{mod-eq_of_lt}
use native.Mathlib.Numerals.{add-one}
use geminon.Base.{
  ℕ, ◌+◌, ◌-◌, ◌*◌, ◌%◌, ◌^◌, ◌<◌, ◌≤◌, ◌≡◌, refl, ap, ◌∙◌, true, some, [], ◌∷◌, ◌++◌, length,
  length-append, All, arith, drop-suc-length_append,
}
use geminon.Base.Run.{ok}
use geminon.Base.Bytes.{Bytes, IsChar, IsText, c_string-IsText}
use geminon.Url.Grammar.{
  is_host, IsHost, IsDigits, number, scheme, IsPort, default, explicit, Parts, text, IsUrl,
}
use geminon.Url.Step.{
  push, HasRoom, loop-scheme, loop_first, loop_host, loop_digit, loop_char, loop_colon, loop_slash,
  loop_end, finish_ok,
}
use geminon.Url.{
  start, Url, Parser, finish, loop, parse_url_into, parse_url, host_string, path_string,
}

le-number : (n : ℕ) (ds : Bytes) → n ≤ number n ds
le-number n [] = omega arith
le-number n (d ∷ ds) = omega (arith, le-number (n * 10 + (d - b'0')) ds)

-- after `bs` has been stored
abbrev stored : Parser → Bytes → Parser
stored p bs = record p { url = record p.url { buf = p.url.buf ++ bs } }

loop-digits :
    (ds : Bytes) (p : Parser) (s : Bytes)
    → p.state ≡ 11
    → HasRoom p
    → IsDigits ds
    → number p.port ds ≤ 65535
    → loop p (ds ++ s) ≡ loop (record p { port = number p.port ds }) s
loop-digits [] p s e room h n = refl
loop-digits (d ∷ ds) p s e room h n =
    loop_digit p d (ds ++ s) room e h.0 (omega (arith, le-number (p.port * 10 + (d - b'0')) ds))
    ∙ loop-digits ds (record p { port = p.port * 10 + (d - b'0') }) s e room h.1 n

room-push :
    (p : Parser) (c n : ℕ)
    → length p.url.buf + (n + 1) < p.url.len
    → length (p.url.buf ++ c ∷ []) + n < p.url.len
room-push p c n h = omega (arith, length-append p.url.buf (c ∷ []))

pub loop-host :
    (h : Bytes) (p : Parser) (s : Bytes)
    → p.state ≡ 10
    → length p.url.buf + length h < p.url.len
    → IsHost h
    → loop p (h ++ s) ≡ loop (stored p h) s
loop-host [] p s e room h = rw append-nil
loop-host (c ∷ h) p s e room i =
    loop_host p c (h ++ s) (omega arith) e i.0
    ∙ loop-host h (push p c 10) s refl (omega (arith, length-append p.url.buf (c ∷ []))) i.1
    ∙ rw (append_assoc, e)

loop-path :
    (t : Bytes) (p : Parser)
    → p.state ≡ 12
    → length p.url.buf + length t < p.url.len
    → All IsChar t
    → loop p t ≡ finish (stored p t)
loop-path [] p e room i = rw append-nil (unfold loop in refl)
loop-path (c ∷ t) p e room i =
    loop_char p c t (omega arith) e i.0.1
    ∙ loop-path t (push p c 12) refl (omega (arith, length-append p.url.buf (c ∷ []))) i.1
    ∙ rw (append_assoc, e)

-- The URL that results, in a buffer of `len` bytes.
abbrev pub image : ℕ → Parts → Url
image len p = record {
  host = 0;
  port = p.port;
  path = length p.host + 1;
  len = len;
  buf = p.host ++ (0 ∷ b'/' ∷ (p.path ++ 0 ∷ []));
}

-- The bytes that the parts take in the buffer, with a NUL behind the host and the path.
abbrev pub size : Parts → ℕ
size p = length p.host + length p.path + 3

-- The buffer when the slash of the path has been stored.
abbrev slashed : Bytes → Bytes
slashed h = (h ++ 0 ∷ []) ++ b'/' ∷ []

length-slashed : (h : Bytes) → length (slashed h) ≡ length h + 2
length-slashed h = omega (arith, length-append (h ++ 0 ∷ []) (b'/' ∷ []), length-append h (0 ∷ []))

mod_bound : {n : ℕ} → n ≤ 65535 → n < 65536
mod_bound h = omega arith

module _ (h t : Bytes) (u : Url) (ht : All IsChar t) (room : length h + length t + 3 ≤ u.len) where
  loop-tail :
      (pt : Bytes) (port : ℕ)
      → port ≤ 65535
      → loop
          (record {
            state = 12;
            port = port;
            url = record u { host = 0; path = length h + 1; buf = slashed h };
          })
          t
        ≡ ok (0, image u.len (record { host = h; port_text = pt; port = port; path = t }))
  loop-tail pt port n =
      loop-path t _ refl (omega (arith, length-slashed h)) ht
      ∙ finish_ok _ refl (omega (arith, length-slashed h, length-append (slashed h) t))
      ∙ simp append_assoc (rw (mod-eq_of_lt (mod_bound n)))

  -- From the end of the host on.
  loop-rest :
      (pt : Bytes) {port : ℕ}
      → IsPort pt port
      → loop
          (record { state = 10; port = 1965; url = record u { host = 0; buf = h } })
          (pt ++ b'/' ∷ t)
        ≡ ok (0, image u.len (record { host = h; port_text = pt; port = port; path = t }))
  loop-rest pt default =
      loop_end _ t (omega arith) refl (omega arith) ∙ loop-tail [] 1965 (omega arith)
  loop-rest pt (explicit ds i n) =
      loop_colon _ (ds ++ b'/' ∷ t) (omega arith) refl
      ∙ loop-digits ds _ (b'/' ∷ t) refl (omega (arith, length-append h (0 ∷ []))) i n
      ∙ loop_slash _ t (omega (arith, length-append h (0 ∷ []))) refl
      ∙ rw (length-append h (0 ∷ [])) (loop-tail pt (number 0 ds) n)

loop-text :
    (h : Bytes) (p : Parts) (u : Url)
    → p.host ≡ h
    → IsUrl p
    → size p ≤ u.len
    → loop (start u) (text p) ≡ ok (0, image u.len p)
loop-text [] p u e i room = absurd (i.host_ne_nil e)
loop-text (c ∷ h) p u e i room =
    let ih = rw e at i.host in
    loop-scheme (start u) _ refl (omega arith)
    ∙ rw e (
        loop_first _ c _ (omega arith) refl ih.0
        ∙ loop-host h _ (p.port_text ++ b'/' ∷ p.path) refl (omega (arith, ap length e)) ih.1
        ∙ loop-rest (c ∷ h) p.path u i.path (omega (arith, ap length e)) p.port_text i.port)

-- A URL of the grammar is accepted in a buffer that has room for its host and path, each with a
-- NUL: the code is 0, and the buffer holds exactly the two strings.
pub parse_url_into_complete :
    (p : Parts) (u : Url)
    → IsUrl p
    → size p ≤ u.len
    → parse_url_into (text p) (some u) ≡ ok (0, some (image u.len p))
unfolding parse_url_into
parse_url_into_complete p u i room = rw (loop-text p.host p u refl i room)

is_host-IsChar : (c : ℕ) → is_host c ≡ true → IsChar c
is_host-IsChar c h = ground arith

IsHost-IsText : (h : Bytes) → IsHost h → IsText h
IsHost-IsText [] i = tt
IsHost-IsText (c ∷ h) i = (is_host-IsChar c i.0, IsHost-IsText h i.1)

-- The strings that the fields of the result point at are the parts of the URL.
image-strings :
    (len : ℕ) (p : Parts)
    → IsUrl p
    → (host_string (image len p) ≡ p.host) × (path_string (image len p) ≡ b'/' ∷ p.path)
image-strings len p i = (
  c_string-IsText p.host _ (IsHost-IsText p.host i.host),
  rw (add-one, drop-suc-length_append p.host)
      (c_string-IsText (b'/' ∷ p.path) [] ((omega arith, omega arith), i.path)),
)

length-text : (p : Parts) → length (text p) ≡ size p + 7 + length p.port_text
length-text p = omega (
  arith,
  length-append scheme (p.host ++ (p.port_text ++ b'/' ∷ p.path)),
  length-append p.host (p.port_text ++ b'/' ∷ p.path),
  length-append p.port_text (b'/' ∷ p.path),
)

-- `gemini_parse_url` accepts every URL of the grammar that is shorter than an unsigned int can
-- say, and its result has the URL's host, port and path, whatever `malloc` left in the block.
pub parse_url_complete :
    (p : Parts) (block : Url)
    → IsUrl p
    → length (text p) + 1 < 2 ^ 32
    → (u : Url) × (parse_url (some block) (text p) ≡ ok (some u))
      × (host_string u ≡ p.host)
      × (u.port ≡ p.port)
      × (path_string u ≡ b'/' ∷ p.path)
unfolding parse_url
parse_url_complete p block i short =
    let len = (length (text p) + 1) % 2 ^ 32 in
    let strings = image-strings len p i in
    let done =
      parse_url_into_complete p (record block { len = len }) i
        (rw (mod-eq_of_lt short) (omega (arith, length-text p))) in
    (image len p, rw done, strings.0, refl, strings.1)
