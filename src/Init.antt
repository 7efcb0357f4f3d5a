-- ===== src/Init.antt =====
-- init.c: what the library asks of OpenSSL at first and at last.
use geminon.Base.{ℕ}

-- What the program asks of OpenSSL as a whole.
pub record Library : Type 1 where
  pub State : Type 0
  pub load_error_strings : State → State
  pub add_ssl_algorithms : State → State
  pub cleanup : State → State

module _ (l : Library) where
  open l use {State, load_error_strings, add_ssl_algorithms, cleanup}

  -- `gemini_init`, with its result
  unfoldable pub init : State → ℕ × State
  init s = (0, add_ssl_algorithms (load_error_strings s))

  -- `gemini_deinit`
  unfoldable pub deinit : State → ℕ × State
  deinit s = (0, cleanup s)
