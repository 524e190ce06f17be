-- ===== src/Ipc/Tests.antt =====
-- src/ipc.rs on concrete records and reads.
use afk_cli.Prelude.{ℕ, ◌≡◌, refl, List, [], ◌∷◌, ◌++◌, some, ok, arith, All, are_bytes-AreBytes}
use afk_cli.Ipc.{
  Record, attach, input, resize, exit, signal, empty_decoder, encode, next, remaining_capacity,
  push, take_record, decode_payload, decode_dimensions, encoded_shape, write_record, write_payload,
  drain, drain_loop,
}
use afk_cli.Ipc.Codec.{IsRecord}
use afk_cli.Ipc.Canonical.{encode-next}
use afk_cli.Ipc.Framing.{receive, Drained}
use afk_cli.Ipc.Stream.{Fits, encode_all, receive_all, receive-encode_prefix, receive-encode}
use afk_cli.Ipc.Room.{HasRoom, receive-HasRoom}

abbrev sample : List Record
sample = attach 24 80 ∷ input (104 ∷ 105 ∷ []) ∷ exit (signal 9) ∷ []

sample-IsRecord : All IsRecord sample
sample-IsRecord = ground arith

abbrev sample_bytes : List ℕ
sample_bytes =
    1 ∷ 0 ∷ 0 ∷ 0 ∷ 4 ∷ 0 ∷ 24 ∷ 0 ∷ 80 ∷ 2 ∷ 0 ∷ 0 ∷ 0 ∷ 2 ∷ 104 ∷ 105 ∷ 6 ∷ 0 ∷ 0 ∷ 0 ∷ 2 ∷ 1 ∷ 9
    ∷ []

-- Cut inside a header, inside a payload and across two records.
abbrev sample_reads : List (List ℕ)
sample_reads =
    (1 ∷ 0 ∷ 0 ∷ [])
    ∷ (0 ∷ 4 ∷ 0 ∷ 24 ∷ 0 ∷ [])
    ∷ (80 ∷ 2 ∷ 0 ∷ 0 ∷ 0 ∷ 2 ∷ 104 ∷ 105 ∷ 6 ∷ [])
    ∷ (0 ∷ 0 ∷ 0 ∷ 2 ∷ 1 ∷ 9 ∷ [])
    ∷ []

sample-encode_all : encode_all sample ≡ ok sample_bytes
unfolding encode_all encode write_record write_payload encoded_shape
sample-encode_all = refl

sample-Fits : Fits empty_decoder sample_reads
unfolding remaining_capacity receive push drain drain_loop next take_record decode_payload
    decode_dimensions
sample-Fits = ground arith

receive-encode_example : receive_all empty_decoder sample_reads ≡ (ok sample, empty_decoder)
receive-encode_example =
    receive-encode sample sample_bytes sample_reads sample-IsRecord sample-encode_all refl
      sample-Fits

receive-encode_prefix_example : Drained sample [] (receive_all empty_decoder sample_reads)
receive-encode_prefix_example =
    receive-encode_prefix sample sample_bytes sample_reads [] sample-IsRecord sample-encode_all refl
      sample-Fits

sample-next :
    next (record { buffer = 4 ∷ 0 ∷ 0 ∷ 0 ∷ 4 ∷ 0 ∷ 24 ∷ 0 ∷ 80 ∷ 5 ∷ [] })
    ≡ (ok (some (resize 24 80)), record { buffer = 5 ∷ [] })
unfolding next take_record decode_payload decode_dimensions
sample-next = refl

encode-next_example :
    IsRecord (resize 24 80)
    × ((bs : List ℕ) × (encode (resize 24 80) ≡ ok bs)
        × (bs ++ 5 ∷ [] ≡ 4 ∷ 0 ∷ 0 ∷ 0 ∷ 4 ∷ 0 ∷ 24 ∷ 0 ∷ 80 ∷ 5 ∷ []))
encode-next_example =
    encode-next (4 ∷ 0 ∷ 0 ∷ 0 ∷ 4 ∷ 0 ∷ 24 ∷ 0 ∷ 80 ∷ 5 ∷ []) (resize 24 80)
      (record { buffer = 5 ∷ [] })
      (are_bytes-AreBytes (4 ∷ 0 ∷ 0 ∷ 0 ∷ 4 ∷ 0 ∷ 24 ∷ 0 ∷ 80 ∷ 5 ∷ []) refl) sample-next

receive-HasRoom_example :
    HasRoom
      (receive empty_decoder (1 ∷ 0 ∷ 0 ∷ 0 ∷ 4 ∷ 0 ∷ [])).0
      (receive empty_decoder (1 ∷ 0 ∷ 0 ∷ 0 ∷ 4 ∷ 0 ∷ [])).1
receive-HasRoom_example = receive-HasRoom empty_decoder (1 ∷ 0 ∷ 0 ∷ 0 ∷ 4 ∷ 0 ∷ [])
