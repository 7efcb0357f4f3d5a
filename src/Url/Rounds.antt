-- ===== src/Url/Rounds.antt =====
-- One round of the loop seen from its end: what the table and the port were if the loop goes on to
-- return 0.
use geminon.Base.{
  ℕ, zero, suc, ◌+◌, ◌-◌, ◌*◌, ◌<◌, ◌≤◌, ◌≡◌, ◌≢◌, refl, ◌⊎◌, inl, inr, true, false, some, [], ◌∷◌,
  arith, Bool-cases, if◌then◌else◌, ◌==◌,
}
use geminon.Base.Run.{Run, ok, >>=-eq-ok}
use geminon.Base.Bytes.{Bytes}
use geminon.Url.Grammar.{is_digit, is_host}
use geminon.Url.Step.{states_9, states_10, states_11}
use geminon.Url.Table.{states}
use geminon.Url.{Url, Parser, Flow, go, stop, advance, finish, loop}

-- The number after a round from `st` to `to`.
abbrev pub next_port : ℕ → ℕ → ℕ → ℕ → ℕ
next_port st to port c =
    if st * 100 + to == 1011
    then 0
    else if st * 100 + to == 1111
    then port * 10 + (c - b'0')
    else port

-- What a round that ends in `f` says of the table and of the port.
abbrev Round : Parser → ℕ → Flow → Type 0
Round p c (go q) =
    (states p.state c ≡ some q.state)
    × (q.port ≡ next_port p.state q.state p.port c)
    × (p.port ≤ 65535 → q.port ≤ 65535)
Round p c (stop n u) = n ≢ 0

advance-Round : (p : Parser) (c : ℕ) (f : Flow) → advance p c ≡ ok f → Round p c f
unfolding advance
advance-Round p c (go q) h = ground arith
advance-Round p c (stop n u) h = ground arith

-- The loop goes on from state `st`, with the number `port` read so far, and accepts `s`.
pub record Accepts (st n : ℕ) (s : Bytes) : Type 0 where
  pub parser : Parser
  pub state : parser.state ≡ st
  pub port : parser.port ≡ n
  pub small : n ≤ 65535
  pub url : Url
  pub accepted : loop parser s ≡ ok (0, url)

pub Accepts-nil : (st n : ℕ) → Accepts st n [] → st ≡ 12
unfolding loop finish
Accepts-nil st n a = ground (arith, a.accepted)

abbrev pub Onward : ℕ → ℕ → ℕ → Bytes → Type 0
Onward st n c s = (to : ℕ) × (states st c ≡ some to) × Accepts to (next_port st to n c) s

go_on :
    (p : Parser) (c : ℕ) (s : Bytes) (f : Flow) (v : Url)
    → p.port ≤ 65535
    → advance p c ≡ ok f
    → elim f as (λ x. Run (ℕ × Url)) [ go q ↦ loop q s | stop n u ↦ ok (n, u) ] ≡ ok (0, v)
    → Onward p.state p.port c s
go_on p c s (go q) v small e h =
    let r = advance-Round p c (go q) e in
    (
      q.state,
      r.0,
      record {
        parser = q;
        state = refl;
        port = r.1;
        small = rw (← r.1) (r.2 small);
        url = v;
        accepted = h;
      },
    )
go_on p c s (stop n u) v small e h = absurd (advance-Round p c (stop n u) e cc)

pub Accepts-cons : (st n c : ℕ) (s : Bytes) → Accepts st n (c ∷ s) → Onward st n c s
unfolding loop
Accepts-cons st n c s a =
    let (f, e, h) = >>=-eq-ok (advance a.parser c) _ a.accepted in
    rw (← a.state, ← a.port) (go_on a.parser c s f a.url (rw a.port a.small) e h)

module _ (n c : ℕ) (s : Bytes) where
  slash_11 : (to : ℕ) → states 11 c ≡ some to → is_digit c ≡ false → c ≡ b'/'
  slash_11 to e other = ground (arith, states_11 c)

  digit_11 : (to : ℕ) → states 11 c ≡ some to → is_digit c ≡ true → to ≡ 11
  digit_11 to e digit = ground (arith, states_11 c)

  pub Onward-11 :
      Onward 11 n c s → ((is_digit c ≡ true) × Accepts 11 (n * 10 + (c - b'0')) s) ⊎ (c ≡ b'/')
  Onward-11 (to, e, a) = elim (Bool-cases (is_digit c)) [
    | inl digit ↦ inl (digit, rw (digit_11 to e digit) at a)
    | inr other ↦ inr (slash_11 to e other)
  ]

  host_10 : (to : ℕ) → states 10 c ≡ some to → is_host c ≡ true → to ≡ 10
  host_10 to e host = ground (arith, states_10 c)

  colon_10 : (to : ℕ) → states 10 c ≡ some to → c ≡ b':' → to ≡ 11
  colon_10 to e colon = ground (arith, states_10 c)

  end_10 : (to : ℕ) → states 10 c ≡ some to → is_host c ≡ false → (c ≡ b':') ⊎ (c ≡ b'/')
  end_10 to e other = ground (arith, states_10 c)

  pub Onward-10 :
      Onward 10 n c s
      → ((is_host c ≡ true) × Accepts 10 n s) ⊎ (((c ≡ b':') × Accepts 11 0 s) ⊎ (c ≡ b'/'))
  Onward-10 (to, e, a) = elim (Bool-cases (is_host c)) [
    | inl host ↦ inl (host, rw (host_10 to e host) at a)
    | inr other ↦ elim (end_10 to e other) [
      | inl colon ↦ inr (inl (colon, rw (colon_10 to e colon) at a))
      | inr slash ↦ inr (inr slash)
    ]
  ]

  first_9 : (to : ℕ) → states 9 c ≡ some to → (is_host c ≡ true) × (to ≡ 10)
  first_9 to e = ground (arith, states_9 c)

  pub Onward-9 : Onward 9 n c s → (is_host c ≡ true) × Accepts 10 n s
  Onward-9 (to, e, a) = let (host, is) = first_9 to e in (host, rw is at a)

-- The bytes of the scheme from state `st` on.
abbrev pub expected : ℕ → ℕ
expected st =
    if st == 0
    then b'g'
    else if st == 1
    then b'e'
    else if st == 2
    then b'm'
    else if st == 3
    then b'i'
    else if st == 4
    then b'n'
    else if st == 5
    then b'i'
    else if st == 6
    then b':'
    else b'/'

pub scheme_row : (st c to : ℕ) → st < 9 → states st c ≡ some to → (c ≡ expected st) × (to ≡ st + 1)
unfolding states
scheme_row zero c to lt e = ground arith
scheme_row (suc zero) c to lt e = ground arith
scheme_row (suc (suc zero)) c to lt e = ground arith
scheme_row (suc (suc (suc zero))) c to lt e = ground arith
scheme_row (suc (suc (suc (suc zero)))) c to lt e = ground arith
scheme_row (suc (suc (suc (suc (suc zero))))) c to lt e = ground arith
scheme_row (suc (suc (suc (suc (suc (suc zero)))))) c to lt e = ground arith
scheme_row (suc (suc (suc (suc (suc (suc (suc zero))))))) c to lt e = ground arith
scheme_row (suc (suc (suc (suc (suc (suc (suc (suc zero)))))))) c to lt e = ground arith
scheme_row (suc (suc (suc (suc (suc (suc (suc (suc (suc st))))))))) c to lt e = absurd (omega arith)

pub keep_port : (st to n c : ℕ) → st < 9 → to ≡ st + 1 → next_port st to n c ≡ n
keep_port st to n c lt e = ground arith
