-- ===== src/Tests/Requests.antt =====
-- The theorems on request.c, over connections that take writes whole or in part.
use geminon.Base.{Bool, none, ℕ, ◌≤◌, Option, some, ◌≡◌, refl, [], ◌++◌, length, take, min, arith}
use geminon.Base.Bytes.{Bytes, codes}
use geminon.Base.Run.{ok, fault}
use geminon.Request.{request_write, request_respond}
use geminon.Request.Respond.{line, Answered, request_respond-sends}
use geminon.Request.Write.{AllOrFailure, request_write-whole, request_write-partial}
use geminon.Request.Stream.Sends.{Reads, end, more, Streamed, request_stream-Streamed}
use geminon.Request.Stream.{request_stream}
use geminon.Tests.Peers.{talker, peer, talker-WritesWhole, talker-IsLawful, disk}
use geminon.Tls.{shut, Tls}

request_write-whole_example :
    (r : Option ℕ) × (c' : Bytes × Bytes) × (request_write talker (codes "hello") 3 (peer [])
      ≡ ok (r, c'))
    × AllOrFailure talker (codes "hello") 3 (peer []) r c'
request_write-whole_example =
    request_write-whole talker talker-IsLawful talker-WritesWhole (codes "hello") 3 (peer [])
      (ground arith)

request_respond-sends_example :
    (r : Option ℕ) × (c' : Bytes × Bytes) × (request_respond talker 51 (codes "Not Found") (peer [])
      ≡ ok (r, c'))
    × (length (line 51 (codes "Not Found")) ≤ 255)
    × Answered talker 51 (codes "Not Found") (peer []) r c'
request_respond-sends_example =
    request_respond-sends talker talker-IsLawful talker-WritesWhole 51 (codes "Not Found") (peer [])
      (ground arith)

-- An object that takes one byte at a time.
abbrev dribble : Tls
dribble = record {
  Conn = Bytes;
  sent = λ c. c;
  write_ex = λ c bs. (some (min 1 (length bs)), c ++ take 1 bs);
  read_ex = λ c n. (none, c);
  read = λ c n. (shut, c);
}

request_write-partial_example : request_write dribble (codes "hello") 5 [] ≡ fault
request_write-partial_example =
    request_write-partial dribble (codes "hello") 1 [] refl (ground arith)

-- a file of five bytes, in reads of four
abbrev file : Bytes
file = codes "hello"

file-Reads : Reads talker disk 4 4 (peer file) file (peer [])
file-Reads =
    more (codes "hell") (codes "o") refl (ground arith) (ground arith)
      (more (codes "o") [] refl (ground arith) (ground arith) (end refl))

request_stream-Streamed_example :
    (r : Bool) × (s'' : Bytes × Bytes) × (c' : Bytes × Bytes) × (request_stream talker disk 9
        (some (codes "...."))
        4
        4
        (peer file)
        (peer [])
      ≡ ok (r, s'', c'))
    × Streamed talker disk file (peer []) (peer []) r s'' c'
request_stream-Streamed_example =
    request_stream-Streamed talker disk talker-IsLawful talker-WritesWhole 9 4 4 (codes "....")
      (peer file) (peer []) file (peer []) refl file-Reads (ground arith)
