-- ===== src/Tests/Urls.antt =====
-- Runs of url.c, and its theorems at URLs.
use geminon.Base.{Option, none, some, ◌≡◌, refl, [], ◌∷◌, ◌++◌, arith}
use geminon.Base.Bytes.{Bytes, IsText, codes}
use geminon.Base.Run.{ok, fault}
use geminon.Url.Bounds.{parse_url-ends}
use geminon.Url.Complete.{image, parse_url_into_complete, parse_url_complete}
use geminon.Url.Exact.{parse_url_sound}
use geminon.Url.Grammar.{scheme, Parts, text, explicit, IsUrl}
use geminon.Url.Overflow.{parse_url_into-overflow}
use geminon.Url.Sound.{parse_url_into_sound}
use geminon.Url.Table.{states}
use geminon.Url.{Url, host_string, path_string, parse_url_into, parse_url, loop, advance, finish}

abbrev block : Url
block = record { host = 9; port = 9; path = 9; len = 9; buf = [] }

abbrev parts : Parts
parts = record { host = codes "a.b"; port_text = codes ":70"; port = 70; path = codes "x" }

parts-IsUrl : IsUrl parts
parts-IsUrl = record {
  host_ne_nil = λ e. ground arith;
  host = ground arith;
  port = explicit (codes "70") (ground arith) (ground arith);
  path = ground arith;
}

abbrev wide : Url
wide = record block { len = 20 }

parse_url_into_complete_example :
    parse_url_into (text parts) (some wide) ≡ ok (0, some (image 20 parts))
parse_url_into_complete_example = parse_url_into_complete parts wide parts-IsUrl (ground arith)

parse_url_complete_example :
    (u : Url) × (parse_url (some block) (text parts) ≡ ok (some u))
    × (host_string u ≡ codes "a.b")
    × (u.port ≡ 70)
    × (path_string u ≡ codes "/x")
parse_url_complete_example = parse_url_complete parts block parts-IsUrl (ground arith)

abbrev url_text : Bytes
url_text = codes "gemini://a.b:70/x"

url_text-IsText : IsText url_text
url_text-IsText = ground arith

run_into : parse_url_into url_text (some wide) ≡ ok (0, some (image 20 parts))
unfolding parse_url_into loop advance finish states
run_into = refl

run_text : parse_url (some block) url_text ≡ ok (some (image 18 parts))
unfolding parse_url parse_url_into loop advance finish states
run_text = refl

bad_port : parse_url (some block) (codes "gemini://a:65536/") ≡ ok none
unfolding parse_url parse_url_into loop advance finish states
bad_port = refl

parse_url_into_sound_example : (p : Parts) × IsUrl p × (url_text ≡ text p)
parse_url_into_sound_example =
    parse_url_into_sound url_text wide (image 20 parts) url_text-IsText run_into

parse_url_sound_example :
    (p : Parts) × IsUrl p
    × (url_text ≡ text p)
    × (host_string (image 18 parts) ≡ p.host)
    × ((image 18 parts).port ≡ p.port)
    × (path_string (image 18 parts) ≡ b'/' ∷ p.path)
parse_url_sound_example =
    parse_url_sound block (image 18 parts) url_text url_text-IsText (ground arith) run_text

parse_url-ends_example : (r : Option Url) × (parse_url (some block) url_text ≡ ok r)
parse_url-ends_example = parse_url-ends (some block) url_text (ground arith)

abbrev narrow : Url
narrow = record block { len = 4 }

parse_url_into-overflow_example :
    parse_url_into (scheme ++ (codes "a.b" ++ b'/' ∷ codes "x")) (some narrow) ≡ fault
parse_url_into-overflow_example =
    parse_url_into-overflow (codes "a.b") (codes "x") narrow (λ e. ground arith) (ground arith) refl
