-- ===== src/Url/Overflow.antt =====
-- A buffer that `gemini_parse_url_into` writes past: the guard of the loop asks for one free byte,
-- and the end of a host takes two.
use geminon.Base.{◌+◌, ◌≡◌, ◌≢◌, refl, ◌∙◌, some, [], ◌∷◌, ◌++◌, length, arith}
use geminon.Base.Run.{fault}
use geminon.Base.Bytes.{Bytes}
use geminon.Url.Complete.{loop-host}
use geminon.Url.Grammar.{IsHost, scheme}
use geminon.Url.Step.{loop-scheme, loop_first, loop_end-fault}
use geminon.Url.{Url, start, loop, parse_url_into}

loop-fault :
    (h t : Bytes) (u : Url)
    → h ≢ []
    → IsHost h
    → length h + 1 ≡ u.len
    → loop (start u) (scheme ++ (h ++ b'/' ∷ t)) ≡ fault
loop-fault [] t u ne i full = absurd (ne refl)
loop-fault (c ∷ h) t u ne i full =
    loop-scheme (start u) _ refl (omega arith)
    ∙ loop_first _ c (h ++ b'/' ∷ t) (omega arith) refl i.0
    ∙ loop-host h _ (b'/' ∷ t) refl (omega arith) i.1
    ∙ loop_end-fault _ t (omega arith) refl (omega arith)

-- In a buffer that is one byte longer than the host, the slash of the path is stored behind the
-- end of the buffer: a URL with no port faults where an error should be returned.
pub parse_url_into-overflow :
    (h t : Bytes) (u : Url)
    → h ≢ []
    → IsHost h
    → u.len ≡ length h + 1
    → parse_url_into (scheme ++ (h ++ b'/' ∷ t)) (some u) ≡ fault
unfolding parse_url_into
parse_url_into-overflow h t u ne i full = rw (loop-fault h t u ne i (omega arith))
