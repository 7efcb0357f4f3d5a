-- ===== src/Url/Step.antt =====
-- One round of the loop of `gemini_parse_url_into`, in each state.
use geminon.Base.{
  ℕ, ◌+◌, ◌-◌, ◌*◌, ◌%◌, ◌<◌, ◌≤◌, ◌≡◌, true, none, some, [], ◌∷◌, ◌++◌, ltb, ◌==◌, if◌then◌else◌,
  length, length-append, arith,
}
use geminon.Base.Run.{ok, fault}
use geminon.Base.Bytes.{Bytes}
use geminon.Url.Grammar.{is_digit, is_host, scheme}
use geminon.Url.Table.{states}
use geminon.Url.{Parser, advance, finish, loop}

-- The rows of the last four states, by classes of bytes.
pub states_9 : (c : ℕ) → states 9 c ≡ (if is_host c then some 10 else none)
unfolding states
states_9 c = ground arith

pub states_10 :
    (c : ℕ)
    → states 10 c ≡ (
        if is_host c
        then some 10
        else if c == b':'
        then some 11
        else if c == b'/'
        then some 12
        else none)
unfolding states
states_10 c = ground arith steps 10000000

pub states_11 :
    (c : ℕ) → states 11 c ≡ (if is_digit c then some 11 else if c == b'/' then some 12 else none)
unfolding states
states_11 c = ground arith

pub states_12 : (c : ℕ) → states 12 c ≡ (if ltb c 256 then some 12 else none)
unfolding states
states_12 c = ground arith

-- The parser after `*fill++ = c` and `state = to`.
abbrev pub push : Parser → ℕ → ℕ → Parser
push p c to = record p { state = to; url = record p.url { buf = p.url.buf ++ c ∷ [] } }

abbrev pub HasRoom : Parser → Type 0
HasRoom p = length p.url.buf < p.url.len

-- The scheme is read without a store.
pub loop-scheme :
    (p : Parser) (s : Bytes)
    → p.state ≡ 0
    → HasRoom p
    → loop p (scheme ++ s) ≡ loop (record p { state = 9 }) s
unfolding loop advance states
loop-scheme p s e h = ground arith

module _ (p : Parser) (c : ℕ) (s : Bytes) (room : HasRoom p) where
  pub loop_first :
      p.state ≡ 9
      → is_host c ≡ true
      → loop p (c ∷ s)
        ≡ loop (push (record p { url = record p.url { host = length p.url.buf } }) c 10) s
  unfolding loop advance
  loop_first e h = ground (arith, states_9 c)

  pub loop_host : p.state ≡ 10 → is_host c ≡ true → loop p (c ∷ s) ≡ loop (push p c 10) s
  unfolding loop advance
  loop_host e h = ground (arith, states_10 c)

  pub loop_digit :
      p.state ≡ 11
      → is_digit c ≡ true
      → p.port * 10 + (c - b'0') ≤ 65535
      → loop p (c ∷ s) ≡ loop (record p { port = p.port * 10 + (c - b'0') }) s
  unfolding loop advance
  loop_digit e h n = ground (arith, states_11 c)

  pub loop_char : p.state ≡ 12 → c < 256 → loop p (c ∷ s) ≡ loop (push p c 12) s
  unfolding loop advance
  loop_char e h = ground (arith, states_12 c)

module _ (p : Parser) (s : Bytes) (room : HasRoom p) where
  pub loop_colon : p.state ≡ 10 → loop p (b':' ∷ s) ≡ loop (record (push p 0 11) { port = 0 }) s
  unfolding loop advance
  loop_colon e = ground (arith, states_10 b':')

  -- The slash after a port.
  pub loop_slash :
      p.state ≡ 11
      → loop p (b'/' ∷ s)
        ≡ loop (push (record p { url = record p.url { path = length p.url.buf } }) b'/' 12) s
  unfolding loop advance
  loop_slash e = ground (arith, states_11 b'/')

  -- The slash after a host ends the host first, which takes one byte more.
  pub loop_end :
      p.state ≡ 10
      → length p.url.buf + 1 < p.url.len
      → loop p (b'/' ∷ s)
        ≡ loop
            (push
              (record p {
                url = record p.url { path = length p.url.buf + 1; buf = p.url.buf ++ 0 ∷ [] };
              })
              b'/'
              12)
            s
  unfolding loop advance
  loop_end e more = ground (arith, states_10 b'/', length-append p.url.buf (0 ∷ []))

  -- With room for one byte only, the slash is stored past the end of the buffer.
  pub loop_end-fault : p.state ≡ 10 → length p.url.buf + 1 ≡ p.url.len → loop p (b'/' ∷ s) ≡ fault
  unfolding loop advance
  loop_end-fault e full = ground (arith, states_10 b'/', length-append p.url.buf (0 ∷ []))

pub finish_ok :
    (p : Parser)
    → p.state ≡ 12
    → HasRoom p
    → finish p ≡ ok (0, record p.url { port = p.port % 65536; buf = p.url.buf ++ 0 ∷ [] })
unfolding finish
finish_ok p e room = ground arith
