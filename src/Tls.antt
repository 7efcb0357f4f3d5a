-- ===== src/Tls.antt =====
-- What the program asks of OpenSSL's SSL objects, which are not its own code.
use geminon.Base.{[], ℕ, ◌<◌, ◌≤◌, ◌≡◌, Option, none, some, ◌++◌, length, take}
use geminon.Base.Bytes.{Bytes}

-- What `SSL_read` returns: bytes, 0, or a negative number.
pub data Reading : Type 0 where
  got : Bytes → Reading
  shut error : Reading

-- An SSL object and what can be done with it. `sent` is what the peer has been sent so far.
pub record Tls : Type 1 where
  pub Conn : Type 0
  pub sent : Conn → Bytes
  -- `SSL_write_ex`: how many bytes were taken, or `none` for the return value 0
  pub write_ex : Conn → Bytes → Option ℕ × Conn
  -- `SSL_read_ex` into room for a number of bytes: those that were read, or `none` for 0
  pub read_ex : Conn → ℕ → Option Bytes × Conn
  -- `SSL_read`
  pub read : Conn → ℕ → Reading × Conn

-- The documented behaviour of a successful write.
pub record IsLawful (t : Tls) : Type 0 where
  pub bounded : (c : t.Conn) (bs : Bytes) {k : ℕ} → (t.write_ex c bs).0 ≡ some k → k ≤ length bs
  pub progress :
      (c : t.Conn) (bs : Bytes) {k : ℕ} → (t.write_ex c bs).0 ≡ some k → 0 < length bs → 0 < k
  pub sends :
      (c : t.Conn) (bs : Bytes) {k : ℕ}
      → (t.write_ex c bs).0 ≡ some k
      → t.sent (t.write_ex c bs).1 ≡ t.sent c ++ take k bs

-- Without SSL_MODE_ENABLE_PARTIAL_WRITE, which is off by default, a write succeeds only as a whole.
abbrev pub WritesWhole : Tls → Type 0
WritesWhole t = (c : t.Conn) (bs : Bytes) (k : ℕ) → (t.write_ex c bs).0 ≡ some k → k ≡ length bs

-- The documented behaviour of a successful read.
pub record ReadsLawful (t : Tls) : Type 0 where
  pub bounded : (c : t.Conn) (n : ℕ) {bs : Bytes} → (t.read_ex c n).0 ≡ some bs → length bs ≤ n
  pub progress : (c : t.Conn) (n : ℕ) {bs : Bytes} → (t.read_ex c n).0 ≡ some bs → 0 < length bs

-- The write of some bytes has failed, and the connection is as that write has left it.
abbrev pub Failed : (t : Tls) → t.Conn → Bytes → t.Conn → Type 0
Failed t c bs c' = ((t.write_ex c bs).0 ≡ none) × (c' ≡ (t.write_ex c bs).1)

-- A first part of the bytes has been sent, and then the write of bytes that follow it has failed.
abbrev pub Stopped : (t : Tls) → Bytes → t.Conn → t.Conn → Type 0
Stopped t bs c c' =
    (pre ws rest : Bytes) × (c₁ : t.Conn) × (bs ≡ pre ++ (ws ++ rest))
    × (t.sent c₁ ≡ t.sent c ++ pre)
    × Failed t c₁ ws c'

-- What a peer is about to send, and the documented behaviour of `SSL_read` into room for some bytes.
pub record Incoming (t : Tls) : Type 0 where
  pub pending : t.Conn → Bytes
  pub gets :
      (c : t.Conn) (n : ℕ) {bs : Bytes} {c' : t.Conn}
      → t.read c n ≡ (got bs, c')
      → 0 < n
      → (0 < length bs) × (length bs ≤ n) × (pending c ≡ bs ++ pending c')
  pub ends :
      (c : t.Conn) (n : ℕ) {c' : t.Conn}
      → t.read c n ≡ (shut, c')
      → 0 < n
      → (pending c ≡ []) × (pending c' ≡ [])

-- What a peer is about to send, to a program that reads by `SSL_read_ex`.
pub record Sending (t : Tls) : Type 0 where
  pub pending : t.Conn → Bytes
  pub gives :
      (c : t.Conn) (n : ℕ) {bs : Bytes}
      → (t.read_ex c n).0 ≡ some bs
      → pending c ≡ bs ++ pending (t.read_ex c n).1
