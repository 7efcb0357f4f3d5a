-- ===== src/Tests/Peers.antt =====
-- Connections and systems at which the theorems are tried.
use geminon.Base.{
  ℕ, zero, suc, ◌≤◌, ◌<◌, ◌≡◌, ◌+◌, ◌/◌, refl, sym, ap, ap₂, ◌∙◌, length-take, Option, none, some,
  true, [], ◌∷◌, ◌++◌, length, take, take_all, drop, take-append-drop, arith,
}
use geminon.Base.Bytes.{Bytes}
use geminon.System.{System, Outgoing}
use geminon.Tls.{Tls, IsLawful, WritesWhole, ReadsLawful, Incoming, Reading, got, shut}

-- a read of what a peer has to say
abbrev pub receive : Bytes → ℕ → Option Bytes × Bytes
receive [] n = (none, [])
receive (b ∷ bs) zero = (none, b ∷ bs)
receive (b ∷ bs) (suc n) = (some (b ∷ take n bs), drop n bs)

abbrev pub read_on : Bytes → ℕ → Reading × Bytes
read_on [] n = (shut, [])
read_on (b ∷ bs) zero = (shut, b ∷ bs)
read_on (b ∷ bs) (suc n) = (got (b ∷ take n bs), drop n bs)

-- An object with what its peer is about to send, and what it has been sent itself, in whole writes.
abbrev pub talker : Tls
talker = record {
  Conn = Bytes × Bytes;
  sent = λ c. c.1;
  write_ex = λ c bs. (some (length bs), (c.0, c.1 ++ bs));
  read_ex = λ c n. ((receive c.0 n).0, ((receive c.0 n).1, c.1));
  read = λ c n. ((read_on c.0 n).0, ((read_on c.0 n).1, c.1));
}

abbrev pub peer : Bytes → Bytes × Bytes
peer bs = (bs, [])

some_injective : {a b : ℕ} → some a ≡ some b → a ≡ b
some_injective e = cc

pub talker-WritesWhole : WritesWhole talker
talker-WritesWhole c bs k e = sym (some_injective e)

pub talker-IsLawful : IsLawful talker
talker-IsLawful = record {
  bounded = λ c bs e. omega (arith, some_injective e);
  progress = λ c bs e pos. omega (arith, some_injective e);
  sends = λ c bs e. ap (λ x. c.1 ++ x) (sym (take_all _ bs (omega (arith, some_injective e))));
}

pub same_bytes : {a b : Bytes} → some a ≡ some b → a ≡ b
same_bytes e = cc

receive-bounded : (bs : Bytes) (n : ℕ) {r : Bytes} → (receive bs n).0 ≡ some r → length r ≤ n
receive-bounded [] n e = cc
receive-bounded (b ∷ bs) zero e = cc
receive-bounded (b ∷ bs) (suc n) e = omega (arith, length-take n bs, ap length (same_bytes e))

receive-progress : (bs : Bytes) (n : ℕ) {r : Bytes} → (receive bs n).0 ≡ some r → 0 < length r
receive-progress [] n e = cc
receive-progress (b ∷ bs) zero e = cc
receive-progress (b ∷ bs) (suc n) e = omega (arith, ap length (same_bytes e))

pub talker-ReadsLawful : ReadsLawful talker
talker-ReadsLawful = record {
  bounded = λ c n e. receive-bounded c.0 n e;
  progress = λ c n e. receive-progress c.0 n e;
}

same_reading :
    {a b c d : Bytes} → ◌≡◌ {A = Reading × Bytes} (got a, c) (got b, d) → (a ≡ b) × (c ≡ d)
same_reading e = (cc, cc)

pub read_on-gets :
    (bs : Bytes) (n : ℕ) {r : Bytes} {later : Bytes}
    → read_on bs n ≡ (got r, later)
    → (0 < length r) × (length r ≤ n) × (bs ≡ r ++ later)
read_on-gets [] n e = cc
read_on-gets (b ∷ bs) zero e = cc
read_on-gets (b ∷ bs) (suc n) e =
    let (bytes, rest) = same_reading e in
    (
      omega (arith, ap length bytes),
      omega (arith, length-take n bs, ap length bytes),
      ap (λ z. b ∷ z) (sym (take-append-drop n bs)) ∙ ap₂ (λ x y. x ++ y) bytes rest,
    )

pub read_on-ends :
    (bs : Bytes) (n : ℕ) {later : Bytes}
    → read_on bs n ≡ (shut, later)
    → 0 < n
    → (bs ≡ []) × (later ≡ [])
read_on-ends [] n e pos = (refl, cc)
read_on-ends (b ∷ bs) zero e pos = absurd (omega arith)
read_on-ends (b ∷ bs) (suc n) e pos = cc

-- The peer of `talker`, as one whose bytes are known.
abbrev pub talking : Incoming talker
talking = record {
  pending = λ c. c.0;
  gets = λ c n e pos. read_on-gets c.0 n (ap (λ z. (z.0, z.1.0)) e);
  ends = λ c n e pos. read_on-ends c.0 n (ap (λ z. (z.0, z.1.0)) e) pos;
}

-- A system whose state is what is left of a file and what has been written to it, half of the bytes
-- by each write.
abbrev pub disk : System
disk = record {
  State = Bytes × Bytes;
  open_dir = λ s path. (some 3, s);
  openat = λ s dir path flags. (some 4, s);
  fstat = λ s fd. some true;
  close = λ s fd. s;
  read = λ s fd n. (some (take n s.0), (drop n s.0, s.1));
  write = λ s fd bs. (some ((length bs + 1) / 2), (s.0, s.1 ++ take ((length bs + 1) / 2) bs));
}

same_write :
    {a b : ℕ} {s v : Bytes × Bytes}
    → ◌≡◌ {A = Option ℕ × (Bytes × Bytes)} (some a, s) (some b, v)
    → (a ≡ b) × (s ≡ v)
same_write e = (cc, cc)

pub disk-Outgoing : {fd : ℕ} → Outgoing disk fd
disk-Outgoing = record {
  written = λ s. s.1;
  writes = λ s bs e pos.
      let (k, v) = same_write e in
      (omega arith, omega arith, sym (ap (λ z. z.1) v) ∙ ap (λ n. s.1 ++ take n bs) k);
}
