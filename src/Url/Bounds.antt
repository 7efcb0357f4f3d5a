-- ===== src/Url/Bounds.antt =====
-- Stores of the URL parser: those of `gemini_parse_url` stay within the buffer that it allocates;
-- those of `gemini_parse_url_into` may not.
use native.Mathlib.Decide.{dec_lt, ℕ_discrete}
use geminon.Base.{
  ◌⊎◌, inl, inr, Option-cases, Bool-cases, ℕ, ◌+◌, ◌%◌, ◌^◌, ◌<◌, ◌≤◌, ◌≡◌, refl, Option, none,
  some, [], ◌∷◌, ◌++◌, arith, ◌==◌, if◌then◌else◌, length, length-append,
}
use geminon.Base.Run.{Run, ok, fault, no_fuel, ◌>>=◌}
use geminon.Base.Bytes.{Bytes}
use geminon.Url.Rounds.{scheme_row}
use geminon.Url.Step.{states_9, states_10, states_11, states_12}
use geminon.Url.Table.{states}
use native.Mathlib.Nat.{mod-eq_of_lt}
use geminon.Url.{
  start, accept, Url, Parser, Flow, go, stop, visit, enter, advance, finish, loop, parse_url_into,
  parse_url,
}

-- The moves that the table allows.
data Edge (st to : ℕ) : Type 0 where
  early : st < 9 → to ≡ st + 1 → Edge st to
  first : st ≡ 9 → to ≡ 10 → Edge st to
  host : st ≡ 10 → to ≡ 10 → Edge st to
  colon : st ≡ 10 → to ≡ 11 → Edge st to
  end : st ≡ 10 → to ≡ 12 → Edge st to
  digit : st ≡ 11 → to ≡ 11 → Edge st to
  slash : st ≡ 11 → to ≡ 12 → Edge st to
  path : st ≡ 12 → to ≡ 12 → Edge st to

-- Which row a state has.
data Which (st : ℕ) : Type 0 where
  at_most : st < 9 → Which st
  nine : st ≡ 9 → Which st
  ten : st ≡ 10 → Which st
  eleven : st ≡ 11 → Which st
  twelve : st ≡ 12 → Which st
  beyond : 12 < st → Which st

which : (st : ℕ) → Which st
which st = elim (dec_lt st 9) [
  | yes h ↦ at_most h
  | no h ↦ elim (dec_lt 12 st) [
    | yes k ↦ beyond k
    | no k ↦ elim (ℕ_discrete st 9) [
      | yes e ↦ nine e
      | no a ↦ elim (ℕ_discrete st 10) [
        | yes e ↦ ten e
        | no b ↦ elim (ℕ_discrete st 11) [ yes e ↦ eleven e | no d ↦ twelve (omega arith) ]
      ]
    ]
  ]
]

none≢some : {o : Option ℕ} {a : ℕ} → o ≡ none → o ≡ some a → ⊥
none≢some e f = cc

module _ (c to : ℕ) where
  edge_9 : states 9 c ≡ some to → to ≡ 10
  edge_9 e = ground (arith, states_9 c)

  edge_10 : states 10 c ≡ some to → (to ≡ 10) ⊎ ((to ≡ 11) ⊎ (to ≡ 12))
  edge_10 e = ground (arith, states_10 c)

  edge_11 : states 11 c ≡ some to → (to ≡ 11) ⊎ (to ≡ 12)
  edge_11 e = ground (arith, states_11 c)

  edge_12 : states 12 c ≡ some to → to ≡ 12
  edge_12 e = ground (arith, states_12 c)

no_row : (st c : ℕ) → 12 < st → states st c ≡ none
unfolding states
no_row st c h = ground arith

states-Edge : (st c to : ℕ) → states st c ≡ some to → Edge st to
states-Edge st c to e = elim (which st) [
  | at_most h ↦ early h (scheme_row st c to h e).1
  | nine h ↦ first h (edge_9 c to (rw h at e))
  | ten h ↦ elim (edge_10 c to (rw h at e)) [
    | inl a ↦ host h a
    | inr (inl a) ↦ colon h a
    | inr (inr a) ↦ end h a
  ]
  | eleven h ↦ elim (edge_11 c to (rw h at e)) [ inl a ↦ digit h a | inr a ↦ slash h a ]
  | twelve h ↦ path h (edge_12 c to (rw h at e))
  | beyond h ↦ absurd (none≢some (no_row st c h) e)
]

-- Bytes that must be left in the buffer in state `st`, beyond those of the input.
abbrev slack : ℕ → ℕ
slack st = if st == 12 then 1 else if st == 11 then 2 else if st == 10 then 2 else st + 1

abbrev Fits : Parser → ℕ → Type 0
Fits p n = length p.url.buf + n + slack p.state ≤ p.url.len

-- A round ends with no fault, and leaves room for `n` more bytes of input if there is a next.
abbrev Safe : Run Flow → ℕ → Type 0
Safe (ok (go q)) n = Fits q n
Safe (ok (stop k u)) n = Unit
Safe fault n = ⊥
Safe no_fuel n = ⊥

module _ (p : Parser) (c n : ℕ) (room : Fits p (n + 1)) where
  visit-Safe : (to : ℕ) → Edge p.state to → Safe (do f ← visit p to c; ok (enter to f)) n
  unfolding visit
  visit-Safe to (early a b) = ground arith
  visit-Safe to (first a b) = ground (arith, length-append p.url.buf (c ∷ []))
  visit-Safe to (host a b) = ground (arith, length-append p.url.buf (c ∷ []))
  visit-Safe to (colon a b) = ground (arith, length-append p.url.buf (0 ∷ []))
  visit-Safe to (end a b) =
      ground (arith, length-append p.url.buf (0 ∷ []), length-append (p.url.buf ++ 0 ∷ []) (c ∷ []))
  visit-Safe to (digit a b) = ground arith
  visit-Safe to (slash a b) = ground (arith, length-append p.url.buf (c ∷ []))
  visit-Safe to (path a b) = ground (arith, length-append p.url.buf (c ∷ []))

  advance-Safe : Safe (advance p c) n
  unfolding advance
  advance-Safe = elim (Option-cases (states p.state c)) [
    | inl e ↦ rw e (ground arith)
    | inr (to, e) ↦ let v = visit-Safe to (states-Edge p.state c to e) in rw e (ground arith)
  ]

-- The loop ends with a code.
abbrev Ends : Run (ℕ × Url) → Type 0
Ends r = (n : ℕ) × (v : Url) × (r ≡ ok (n, v))

finish-Ends : (p : Parser) → Fits p 0 → Ends (finish p)
unfolding finish
finish-Ends p room =
    let u = record p.url { port = p.port % 65536 } in
    elim (Bool-cases (p.state == 12)) [
      | inl e ↦ (0, record u { buf = u.buf ++ 0 ∷ [] }, ground arith)
      | inr e ↦ (100 + p.state, u, rw e)
    ]

-- The rest of the loop, after a round that ended in `r`.
go_on-Ends :
    (s : Bytes) (r : Run Flow)
    → Safe r (length s)
    → ((q : Parser) → Fits q (length s) → Ends (loop q s))
    → Ends (r >>= λ f. elim f [ go q ↦ loop q s | stop n u ↦ ok (n, u) ])
go_on-Ends s (ok (go q)) safe rest = rest q safe
go_on-Ends s (ok (stop n u)) safe rest = (n, u, refl)
go_on-Ends s fault safe rest = absurd safe
go_on-Ends s no_fuel safe rest = absurd safe

loop-Ends : (s : Bytes) (p : Parser) → Fits p (length s) → Ends (loop p s)
unfolding loop
loop-Ends [] p room = finish-Ends p (omega arith)
loop-Ends (c ∷ s) p room =
    go_on-Ends s (advance p c) (advance-Safe p c (length s) (omega arith)) (loop-Ends s)

-- `gemini_parse_url` stays within the buffer that it allocates: for every string whose length plus
-- one is an unsigned int, and whatever `malloc` returns, it ends with a URL or NULL.
pub parse_url-ends :
    (block : Option Url) (s : Bytes)
    → length s + 1 < 2 ^ 32
    → (r : Option Url) × (parse_url block s ≡ ok r)
unfolding parse_url parse_url_into
parse_url-ends none s short = (none, refl)
parse_url-ends (some block) s short =
    let u = record block { len = (length s + 1) % 2 ^ 32 } in
    let (n, v, e) = loop-Ends s (start u) (rw (mod-eq_of_lt short) (omega arith)) in
    (accept (n, some v), rw e)
