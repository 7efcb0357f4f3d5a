-- ===== src/Url/Grammar.antt =====
-- The URLs that url.pl means to describe, without the automaton: gemini://HOST[:DIGITS]/PATH.
use geminon.Base.{
  ℕ, ◌+◌, ◌-◌, ◌*◌, ◌≤◌, ◌≡◌, ◌≢◌, Bool, true, ◌||◌, [], ◌∷◌, ◌++◌, ◌==◌, within, All,
}
use geminon.Base.Bytes.{Bytes, codes, IsChar}

abbrev pub is_digit : ℕ → Bool
is_digit c = within b'0' b'9' c

abbrev pub is_host : ℕ → Bool
is_host c = within b'a' b'z' c || within b'A' b'Z' c || is_digit c || c == b'.'

abbrev pub IsHost : Bytes → Type 0
IsHost = All (λ c. is_host c ≡ true)

abbrev pub IsDigits : Bytes → Type 0
IsDigits = All (λ c. is_digit c ≡ true)

-- the number that digits stand for, after those that gave `acc`
abbrev pub number : ℕ → Bytes → ℕ
number acc [] = acc
number acc (c ∷ cs) = number (acc * 10 + (c - b'0')) cs

abbrev pub scheme : Bytes
scheme = codes "gemini://"

-- what stands between the host and the path, and the port that it gives
pub data IsPort : Bytes → ℕ → Type 0 where
  default : IsPort [] 1965
  explicit : (ds : Bytes) → IsDigits ds → number 0 ds ≤ 65535 → IsPort (b':' ∷ ds) (number 0 ds)

pub record Parts : Type 0 where
  pub host : Bytes
  pub port_text : Bytes
  pub port : ℕ
  pub path : Bytes

abbrev pub text : Parts → Bytes
text p = scheme ++ (p.host ++ (p.port_text ++ (b'/' ∷ p.path)))

pub record IsUrl (p : Parts) : Type 0 where
  pub host_ne_nil : p.host ≢ []
  pub host : IsHost p.host
  pub port : IsPort p.port_text p.port
  pub path : All IsChar p.path
