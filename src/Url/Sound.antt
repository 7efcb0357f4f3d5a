-- ===== src/Url/Sound.antt =====
-- Whatever `gemini_parse_url_into` accepts is a URL of the grammar.
use geminon.Base.{
  ℕ, ◌+◌, ◌-◌, ◌*◌, ◌<◌, ◌≤◌, ◌≡◌, ◌≢◌, refl, ap, ◌∙◌, inl, inr, some, [], ◌∷◌, ◌++◌, All-right,
  arith,
}
use geminon.Base.Run.{ok, >>=-eq-ok}
use geminon.Base.Bytes.{Bytes, IsChar, IsText}
use geminon.Url.Grammar.{
  IsHost, IsDigits, number, scheme, IsPort, default, explicit, Parts, text, IsUrl,
}
use geminon.Url.Rounds.{
  Accepts, Accepts-nil, Accepts-cons, Onward-9, Onward-10, Onward-11, expected, scheme_row,
  keep_port,
}
use geminon.Url.{Url, start, loop, parse_url_into}

abbrev PortText : ℕ → Bytes → Type 0
PortText n s = (ds t : Bytes) × (s ≡ ds ++ b'/' ∷ t) × IsDigits ds × (number n ds ≤ 65535)

sound_port : (s : Bytes) (n : ℕ) → Accepts 11 n s → PortText n s
sound_port [] n a = absurd (omega (arith, Accepts-nil 11 n a))
sound_port (c ∷ s) n a = elim (Onward-11 n c s (Accepts-cons 11 n c s a)) [
  | inl (digit, a') ↦
      let (ds, t, e, i, m) = sound_port s (n * 10 + (c - b'0')) a' in
      (c ∷ ds, t, rw e, (digit, i), m)
  | inr slash ↦ ([], s, rw slash, tt, a.small)
]

-- What follows the first `h` bytes of a host.
record Tail (s : Bytes) : Type 0 where
  host : Bytes
  port_text : Bytes
  port : ℕ
  path : Bytes
  shape : s ≡ host ++ (port_text ++ b'/' ∷ path)
  IsHost_host : IsHost host
  IsPort_port : IsPort port_text port

sound_host : (s : Bytes) → Accepts 10 1965 s → Tail s
sound_host [] a = absurd (omega (arith, Accepts-nil 10 1965 a))
sound_host (c ∷ s) a = elim (Onward-10 1965 c s (Accepts-cons 10 1965 c s a)) [
  | inl (host, a') ↦
      let r = sound_host s a' in
      record {
        host = c ∷ r.host;
        port_text = r.port_text;
        port = r.port;
        path = r.path;
        shape = ap (λ x. c ∷ x) r.shape;
        IsHost_host = (host, r.IsHost_host);
        IsPort_port = r.IsPort_port;
      }
  | inr (inl (colon, a')) ↦
      let (ds, t, e, i, m) = sound_port s 0 a' in
      record {
        host = [];
        port_text = b':' ∷ ds;
        port = number 0 ds;
        path = t;
        shape = rw (colon, e);
        IsHost_host = tt;
        IsPort_port = explicit ds i m;
      }
  | inr (inr slash) ↦ record {
    host = [];
    port_text = [];
    port = 1965;
    path = s;
    shape = rw slash;
    IsHost_host = tt;
    IsPort_port = default;
  }
]

abbrev Byte : ℕ → ℕ → Bytes → Type 0
Byte st n s = (r : Bytes) × (s ≡ expected st ∷ r) × Accepts (st + 1) n r

scheme-Byte : (st n : ℕ) (s : Bytes) → st < 9 → Accepts st n s → Byte st n s
scheme-Byte st n [] lt a = absurd (omega (arith, Accepts-nil st n a))
scheme-Byte st n (c ∷ s) lt a =
    let (to, e, a') = Accepts-cons st n c s a in
    let (is, next) = scheme_row st c to lt e in
    (s, ap (λ x. x ∷ s) is, rw (keep_port st to n c lt next, next) at a')

sound_scheme : (s : Bytes) → Accepts 0 1965 s → (r : Bytes) × (s ≡ scheme ++ r) × Accepts 9 1965 r
sound_scheme s a =
    let (r1, e1, a1) = scheme-Byte 0 1965 s (omega arith) a in
    let (r2, e2, a2) = scheme-Byte 1 1965 r1 (omega arith) a1 in
    let (r3, e3, a3) = scheme-Byte 2 1965 r2 (omega arith) a2 in
    let (r4, e4, a4) = scheme-Byte 3 1965 r3 (omega arith) a3 in
    let (r5, e5, a5) = scheme-Byte 4 1965 r4 (omega arith) a4 in
    let (r6, e6, a6) = scheme-Byte 5 1965 r5 (omega arith) a5 in
    let (r7, e7, a7) = scheme-Byte 6 1965 r6 (omega arith) a6 in
    let (r8, e8, a8) = scheme-Byte 7 1965 r7 (omega arith) a7 in
    let (r9, e9, a9) = scheme-Byte 8 1965 r8 (omega arith) a8 in (r9, cc, a9)

sound_first : (s : Bytes) → Accepts 9 1965 s → (t : Tail s) × (t.host ≢ [])
sound_first [] a = absurd (omega (arith, Accepts-nil 9 1965 a))
sound_first (c ∷ s) a =
    let (host, a') = Onward-9 1965 c s (Accepts-cons 9 1965 c s a) in
    let r = sound_host s a' in
    (
      record {
        host = c ∷ r.host;
        port_text = r.port_text;
        port = r.port;
        path = r.path;
        shape = ap (λ x. c ∷ x) r.shape;
        IsHost_host = (host, r.IsHost_host);
        IsPort_port = r.IsPort_port;
      },
      λ e. cc,
    )

-- If `gemini_parse_url_into` returns 0 for a C string, that string is a URL of the grammar.
pub parse_url_into_sound :
    (s : Bytes) (u v : Url)
    → IsText s
    → parse_url_into s (some u) ≡ ok (0, some v)
    → (p : Parts) × IsUrl p × (s ≡ text p)
unfolding parse_url_into
parse_url_into_sound s u v chars h =
    let ((n, w), run, e) = >>=-eq-ok (loop (start u) s) _ h in
    let began : Accepts 0 1965 s = record {
      parser = start u;
      state = refl;
      port = refl;
      small = omega arith;
      url = w;
      accepted = cc;
    } in
    let (r, scheme_first, nine) = sound_scheme s began in
    let (t, ne_nil) = sound_first r nine in
    let shape : s ≡ scheme ++ (t.host ++ (t.port_text ++ b'/' ∷ t.path)) =
      scheme_first ∙ ap (λ x. scheme ++ x) t.shape in
    let behind = All-right IsChar t.host _ (All-right IsChar scheme _ (rw shape at chars)) in
    (
      record { host = t.host; port_text = t.port_text; port = t.port; path = t.path },
      record {
        host_ne_nil = ne_nil;
        host = t.IsHost_host;
        port = t.IsPort_port;
        path = (All-right IsChar t.port_text _ behind).1;
      },
      shape,
    )
