-- ===== src/Url/Exact.antt =====
-- What `gemini_parse_url` returns, exactly.
use geminon.Base.{ℕ, zero, suc, ◌+◌, ◌%◌, ◌^◌, ◌<◌, ◌≡◌, Option, some, ◌∷◌, length, arith}
use geminon.Base.Run.{Run, ok, fault, no_fuel, ◌>>=◌}
use geminon.Base.Bytes.{Bytes, IsText}
use geminon.Url.Complete.{parse_url_complete}
use geminon.Url.Grammar.{Parts, text, IsUrl}
use geminon.Url.Sound.{parse_url_into_sound}
use geminon.Url.{Url, accept, host_string, path_string, parse_url_into, parse_url}

-- The struct that `gemini_parse_url` parses into.
abbrev sized : Url → Bytes → Url
sized block s = record block { len = (length s + 1) % 2 ^ 32 }

accept-some :
    (r : Run (ℕ × Option Url)) {v : Url}
    → (r >>= λ x. ok (accept x)) ≡ ok (some v)
    → r ≡ ok (0, some v)
accept-some (ok (zero, w)) h = cc
accept-some (ok (suc n, w)) h = ground arith
accept-some fault h = cc
accept-some no_fuel h = cc

parsed :
    (block v : Url) (s : Bytes)
    → parse_url (some block) s ≡ ok (some v)
    → parse_url_into s (some (sized block s)) ≡ ok (0, some v)
unfolding parse_url
parsed block v s h = accept-some _ h

same_result : {u v : Url} {r : Run (Option Url)} → r ≡ ok (some u) → r ≡ ok (some v) → u ≡ v
same_result e f = cc

-- A URL that `gemini_parse_url` returns for a C string comes from a URL of the grammar, and `host`,
-- `port` and `path` hold its parts.
pub parse_url_sound :
    (block v : Url) (s : Bytes)
    → IsText s
    → length s + 1 < 2 ^ 32
    → parse_url (some block) s ≡ ok (some v)
    → (p : Parts) × IsUrl p
      × (s ≡ text p)
      × (host_string v ≡ p.host)
      × (v.port ≡ p.port)
      × (path_string v ≡ b'/' ∷ p.path)
parse_url_sound block v s chars short h =
    let code = parsed block v s h in
    let (p, i, shape) = parse_url_into_sound s (sized block s) v chars code in
    let (v', run, host, port, path) = parse_url_complete p block i (rw shape at short) in
    let same = same_result run (rw shape at h) in
    (p, i, shape, rw same at host, rw same at port, rw same at path)
