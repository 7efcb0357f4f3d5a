-- ===== src/Url.antt =====
-- url.c: gemini:// URLs, parsed by a finite state machine into one buffer of NUL-separated parts.
-- A `struct gemini_url *` is `Option Url`, with `none` for NULL.
pub mod Bounds
pub mod Complete
pub mod Exact
pub mod Grammar
pub mod Overflow
mod Rounds
pub mod Sound
pub mod Step
pub mod Table
use geminon.Base.{
  ℕ, ◌+◌, ◌-◌, ◌*◌, ◌%◌, ◌^◌, Bool, Option, none, some, [], ◌∷◌, ◌++◌, ltb, leb, ◌==◌,
  if◌then◌else◌, length, drop,
}
use geminon.Base.Run.{Run, ok, fault, ◌>>=◌}
use geminon.Base.Bytes.{Bytes, c_string}
use geminon.Url.Table.{states}

abbrev pub default_port : ℕ
default_port = 1965

-- `host` and `path` are offsets into `buf`. `buf` holds the bytes written so far, at most `len`:
-- its length is the offset of the local `fill`.
pub record Url : Type 0 where
  pub host : ℕ
  pub port : ℕ
  pub path : ℕ
  pub len : ℕ
  pub buf : Bytes

-- the strings that `url->host` and `url->path` point at
abbrev pub host_string : Url → Bytes
host_string u = c_string (drop u.host u.buf)

abbrev pub path_string : Url → Bytes
path_string u = c_string (drop u.path u.buf)

-- The block is what `malloc` returns: `none` for NULL, or a struct with any contents.
unfoldable pub new_url : Option Url → ℕ → Option Url
new_url none len = none
new_url (some block) len = some (record block { len = len })

-- the locals of `gemini_parse_url_into`
pub record Parser : Type 0 where
  pub state : ℕ
  pub port : ℕ
  pub url : Url

-- how one round of the loop ends: with the next one, or by `return -n`
pub data Flow : Type 0 where
  go : Parser → Flow
  stop : ℕ → Url → Flow

-- `*fill++ = c`
pub store : ℕ → Url → Run Url
store c u = if ltb (length u.buf) u.len then ok (record u { buf = u.buf ++ c ∷ [] }) else fault

-- the `switch` of the loop
visit : Parser → ℕ → ℕ → Run Flow
unfolding store
visit p to c =
    let u = p.url in
    let key = p.state * 100 + to in
    if key == 910
    then (do v ← store c (record u { host = length u.buf }); ok (go (record p { url = v })))
    else if key == 1010
    then (do v ← store c u; ok (go (record p { url = v })))
    else if key == 1012
    then (do
      v ← store 0 u
      w ← store c (record v { path = length v.buf })
      ok (go (record p { url = w })))
    else if key == 1011
    then (do v ← store 0 u; ok (go (record p { url = v; port = 0 })))
    else if key == 1112
    then (do v ← store c (record u { path = length u.buf }); ok (go (record p { url = v })))
    else if key == 1212
    then (do v ← store c u; ok (go (record p { url = v })))
    else if key == 1111
    then (let port = p.port * 10 + (c - b'0') in
        if ltb 0xffff port then ok (stop 95 u) else ok (go (record p { port = port })))
    else ok (go p)

-- `state = to`, unless the switch has returned
abbrev enter : ℕ → Flow → Flow
enter to (go p) = go (record p { state = to })
enter to (stop n u) = stop n u

move : Parser → ℕ → Option ℕ → Run Flow
unfolding visit
move p c none = ok (stop 93 p.url)
move p c (some to) = do f ← visit p to c; ok (enter to f)

-- the body of the loop
unfoldable pub advance : Parser → ℕ → Run Flow
unfolding move
advance p c =
    if leb p.url.len (length p.url.buf) then ok (stop 92 p.url) else move p c (states p.state c)

-- what follows the loop
unfoldable pub finish : Parser → Run (ℕ × Url)
unfolding store
finish p =
    let u = record p.url { port = p.port % 65536 } in
    if p.state == 12 then (do v ← store 0 u; ok (0, v)) else ok (100 + p.state, u)

-- the loop; a result `n` stands for `return -n`
unfoldable pub loop : Parser → Bytes → Run (ℕ × Url)
unfolding advance finish
loop p [] = finish p
loop p (c ∷ s) = do f ← advance p c; elim f [ go q ↦ loop q s | stop n u ↦ ok (n, u) ]

-- how the loop begins
abbrev pub start : Url → Parser
start url = record { state = 0; port = default_port; url = record url { buf = [] } }

unfoldable pub parse_url_into : Bytes → Option Url → Run (ℕ × Option Url)
parse_url_into s none = ok (91, none)
parse_url_into s (some url) = do (n, u) ← loop (start url) s; ok (n, some u)

-- `free` and NULL unless the code is 0
abbrev accept : ℕ × Option Url → Option Url
accept (n, u) = if n == 0 then u else none

-- `unsigned int len` takes `strlen (s) + 1` modulo 2^32
unfoldable pub parse_url : Option Url → Bytes → Run (Option Url)
unfolding new_url
parse_url block s = elim (new_url block ((length s + 1) % 2 ^ 32)) [
  | none ↦ ok none
  | some url ↦ parse_url_into s (some url) >>= λ r. ok (accept r)
]
