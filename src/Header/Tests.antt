-- ===== src/Header/Tests.antt =====
-- The headers of one request.
use ezgrpc.Prelude.{◌≡◌, List, [], ◌∷◌, arith, codes}
use ezgrpc.Stream.{Stream, stream_new}
use ezgrpc.Paths.{Registry, registry_new}
use ezgrpc.Session.{Field}
use ezgrpc.Header.Request.{Read, stream_headers, stream_headers-Read}

abbrev fresh : Stream
fresh = stream_new 7 1

abbrev none_registered : Registry
none_registered = registry_new 2

abbrev method : Field
method = record { name = codes ":method"; value = codes "POST" }

abbrev hs : List Field
hs = method ∷ record { name = codes "te"; value = codes "trailers" } ∷ []

stream_headers-Read_example :
    ((stream_headers none_registered hs fresh).0 ≡ 0)
    × Read none_registered hs fresh (stream_headers none_registered hs fresh).1
unfolding stream_new
stream_headers-Read_example = stream_headers-Read none_registered hs fresh (omega arith)
