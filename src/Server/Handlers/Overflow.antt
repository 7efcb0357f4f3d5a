-- ===== src/Server/Handlers/Overflow.antt =====
-- The handler for files, for a request path that is too long.
use geminon.Base.{
  ℕ, ◌≤◌, ◌≡◌, refl, ap, true, false, Option, none, some, [], ◌∷◌, ◌++◌, length, length-append,
  drop, ltb, arith,
}
use geminon.Base.Bytes.{Bytes, IsText}
use geminon.Base.Run.{ok, fault}
use geminon.Fs.Moves.{IsName}
use geminon.Fs.Open.{inside, fs_open}
use geminon.Fs.Overflow.{Behind, resolve-overflow}
use geminon.Request.Close.{Req, Here}
use geminon.Server.Handlers.Proper.{IsOpen}
use geminon.Server.Handlers.{Memory, Verifier, path_of, skip, handler_fs}
use geminon.System.{System}
use geminon.Tls.{Tls}
use geminon.Url.{Url, path_string}

drop-behind : (a b : Bytes) → drop (length a) (a ++ b) ≡ b
drop-behind [] b = refl
drop-behind (x ∷ a) b = drop-behind a b

not_less : (n m : ℕ) → m ≤ n → ltb n m ≡ false
not_less n m le = ground arith

module _ (name other rest : Bytes) (is : IsName name) (text : IsText name)
    (full : length name ≡ 2047) (is' : IsName other) (text' : IsText other)
    (short : length other ≤ 2047) (behind : Behind rest) (text'' : IsText rest) where
  abbrev file : Bytes
  file = name ++ b'/' ∷ (other ++ rest)

  inside-fault :
      (sys : System) (d : ℕ) (y : Option ℕ × sys.State)
      → y.0 ≡ some d
      → inside sys true (some file) 0 y ≡ fault
  unfolding inside
  inside-fault sys d (none, s) e = cc
  inside-fault sys d (some d', s) e =
      rw (resolve-overflow name other rest is text full is' text' short behind text'') refl

  -- Given memory and a root that can be opened, `s_handler_fs` leaves its arrays for every open request
  -- whose path has, behind the prefix, a name of 2047 bytes, a slash and another name of at most 2047,
  -- whatever follows the two.
  pub handler_fs-overflow :
      (t : Tls) (sys : System) (x : Verifier) (mem : Memory) (prefix dir : Bytes) (fd d : ℕ)
      (c : t.Conn) (u : Url) (req : Req t sys x.Cert) (w : Here t sys x.Cert)
      → IsOpen fd c u req
      → mem.path ≡ true
      → (sys.open_dir w.files dir).0 ≡ some d
      → path_string u ≡ prefix ++ (name ++ b'/' ∷ (other ++ rest))
      → handler_fs t sys x mem prefix req dir w ≡ fault
  unfolding handler_fs path_of skip fs_open
  handler_fs-overflow t sys x mem prefix dir fd d c u req w h memory opened shape =
      let path : path_of req.url ≡ ok (prefix ++ file) = rw h.url_is (ap ok shape) in
      let long_enough =
        not_less (length (prefix ++ file)) (length prefix)
          (omega (arith, length-append prefix file)) in
      let found = inside-fault sys d (sys.open_dir w.files dir) opened in
      rw (path, long_enough, drop-behind prefix file, memory, found) refl
