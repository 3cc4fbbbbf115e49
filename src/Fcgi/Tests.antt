-- ===== src/Fcgi/Tests.antt =====
-- The FastCGI client at concrete records, pairs and answers, and its theorems there.
use iotacaddy.Prelude.{ℕ, suc, some, List, [], ◌∷◌, ◌++◌, ◌≡◌, refl, arith, codes, replicate, map}
use iotacaddy.Fcgi.Defs.{
  Bytes, encode_size, params, write_record, write_begin_request, write_end_request, stream_write,
  stream_write_from, stream_close, failed, end_of_request, bad_version, cut_off, read_record,
  write_pairs, write_pairs_from, encode_pair, fit_value, send_request, send_body,
}
use iotacaddy.Fcgi.Streams.{stream_contents}
use iotacaddy.Fcgi.Pairs.{decode_pairs, fitted, write_pairs-decode}
use iotacaddy.Fcgi.Demux.{Piece, out, error, wire, weight, read_to_end, read_to_end-wire}

size_short : encode_size 127 ≡ 127 ∷ []
unfolding encode_size
size_short = refl

size_long : encode_size 300 ≡ 128 ∷ 0 ∷ 1 ∷ 44 ∷ []
unfolding encode_size
size_long = refl

record_padded :
    write_record 6 1 (104 ∷ 105 ∷ []) ≡ 1 ∷ 6 ∷ 0 ∷ 1 ∷ 0 ∷ 2 ∷ 6 ∷ 0 ∷ 104 ∷ 105 ∷ replicate 6 0
unfolding write_record
record_padded = refl

version_refused : read_record (2 ∷ 6 ∷ 0 ∷ 1 ∷ 0 ∷ 0 ∷ 0 ∷ 0 ∷ []) ≡ failed bad_version []
unfolding read_record
version_refused = refl

content_missing : read_record (1 ∷ 6 ∷ 0 ∷ 1 ∷ 0 ∷ 2 ∷ 0 ∷ 0 ∷ 7 ∷ []) ≡ failed cut_off []
unfolding read_record
content_missing = refl

end_refused : read_record (write_end_request 1 0 0) ≡ failed end_of_request (replicate 8 0)
unfolding read_record write_end_request write_record
end_refused = refl

request_sent :
    send_request 1 ((codes "A", codes "b") ∷ []) []
    ≡ some (
        1 ∷ 1 ∷ 0 ∷ 1 ∷ 0 ∷ 8 ∷ 0 ∷ 0 ∷ 0 ∷ 1 ∷ replicate 6 0
        ++ (1 ∷ 4 ∷ 0 ∷ 1 ∷ 0 ∷ 4 ∷ 4 ∷ 0 ∷ 1 ∷ 1 ∷ 65 ∷ 98 ∷ replicate 4 0
            ++ (1 ∷ 4 ∷ 0 ∷ 1 ∷ replicate 4 0 ++ (1 ∷ 5 ∷ 0 ∷ 1 ∷ replicate 4 0))))
unfolding send_request send_body write_pairs write_pairs_from fit_value encode_pair encode_size
    stream_write stream_write_from stream_close write_begin_request write_record
request_sent = refl

abbrev answer : List Piece
answer = out (codes "ab") ∷ error (codes "!") ∷ out (codes "c") ∷ []

write_pairs-decode_example :
    (o bs : Bytes) × (fuel : ℕ) × (write_pairs params 1 ((codes "HOST", codes "a.b") ∷ []) ≡ some o)
    × (stream_contents fuel params (o ++ []) ≡ some (bs, []))
    × (decode_pairs 2 bs ≡ some (map fitted ((codes "HOST", codes "a.b") ∷ [])))
write_pairs-decode_example =
    write_pairs-decode params 1 ((codes "HOST", codes "a.b") ∷ []) [] (omega arith)
      (omega arith, tt)

read_to_end-wire_example :
    read_to_end
      (suc (weight answer))
      2
      (record { buf = []; conn = wire 1 (replicate 8 0) answer; stderr = [] })
    ≡ some (codes "abc", codes "!", end_of_request)
read_to_end-wire_example =
    read_to_end-wire 1 1 (replicate 8 0) [] answer (omega arith, (omega arith, (omega arith, tt)))
