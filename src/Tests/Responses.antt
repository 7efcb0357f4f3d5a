-- ===== src/Tests/Responses.antt =====
-- The theorems on response.c, for a peer that sends a few bytes and a disk that takes part of them.
use geminon.Base.{ℕ, ◌≡◌, refl, Bool, Option, some, [], ◌++◌, arith}
use geminon.Base.Bytes.{Bytes, codes}
use geminon.Base.Run.{ok}
use geminon.Response.Fills.{Filled, response_read-Filled}
use geminon.Response.Streams.{Written, response_stream-Written}
use geminon.Response.{response_read, response_stream}
use geminon.Tests.Peers.{talker, peer, talking, disk, disk-Outgoing}

response_read-Filled_example :
    (y : Option ℕ × Bytes × (Bytes × Bytes)) × (response_read talker
        (codes "ab" ++ codes "....")
        2
        3
        (peer (codes "20 text"))
      ≡ ok y)
    × Filled talker talking (codes "ab") (codes "....") 3 0 (peer (codes "20 text")) y
response_read-Filled_example =
    response_read-Filled talker talking (codes "ab") (codes "....") 3 (peer (codes "20 text"))
      (ground arith) (ground arith)

response_stream-Written_example :
    (y : Bool × (Bytes × Bytes) × (Bytes × Bytes)) × (response_stream talker disk 8
        (some (codes "...."))
        4
        4
        (peer [])
        (peer (codes "20 text"))
      ≡ ok y)
    × Written talker disk talking 4 disk-Outgoing (codes "20 text") (peer []) y
response_stream-Written_example =
    response_stream-Written talker disk talking 4 disk-Outgoing 8 4 (codes "....") (peer [])
      (peer (codes "20 text")) refl (ground arith) (ground arith)
