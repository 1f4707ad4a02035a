-- ===== src/Wal/Tests.antt =====
-- Records and bytes that are written, and the theorems there.
use my_raft_kv.Prelude.{
  ℕ, ◌+◌, ◌%◌, ◌^◌, ◌<◌, false, none, some, List, [], ◌∷◌, ◌++◌, ◌≡◌, refl, ◌↔◌, arith, length, ok,
}
use my_raft_kv.Wal.PageWriter.{PageWriter, pending, Wrote, Written, write}
use my_raft_kv.Wal.PageWriter.Room.{Room}
use my_raft_kv.Wal.PageWriter.Stream.{Reliable}
use my_raft_kv.Wal.PageWriter.Writes.{write-Room, write_stream}
use my_raft_kv.Wal.Frame.{encode_frame_size, decode_frame_size, frame_roundtrip}
use my_raft_kv.Wal.Encoder.{Record, Encoder, Encoded}
use my_raft_kv.Wal.Encoder.Bytes.{AllFit, frames}
use my_raft_kv.Wal.Encoder.Frames.{encode_all, encode_all_lem}

-- A writer that keeps all its bytes.
abbrev keeps : List ℕ → List ℕ → Wrote (List ℕ)
keeps old p = record { writer = old ++ p; n = length p; failed = false }

-- A buffer of 4 bytes and a page of 2 behind it, which holds one byte.
abbrev small : PageWriter
small = record {
  page_offset = 0;
  page_bytes = 2;
  buffered_bytes = 1;
  buf = 9 ∷ 0 ∷ 0 ∷ 0 ∷ 0 ∷ 0 ∷ [];
  buf_watermark_bytes = 4;
}

small-Room : Room small
small-Room = record {
  positive = omega arith;
  page_fits = omega arith;
  size = refl;
  room = omega arith;
}

abbrev seven : List ℕ
seven = 1 ∷ 2 ∷ 3 ∷ 4 ∷ 5 ∷ 6 ∷ 7 ∷ []

write-Room_example : (r : Written (List ℕ)) × (write keeps 2 [] small seven ≡ ok r) × Room r.pw
write-Room_example = write-Room keeps (λ w. w) 0 [] small seven small-Room

write_stream_example :
    (r : Written (List ℕ)) × (write keeps 2 [] small seven ≡ ok r)
    × (r.failed ≡ false)
    × (r.n ≡ 7)
    × (r.writer ++ pending r.pw ≡ ([] ++ pending small) ++ seven)
write_stream_example =
    write_stream keeps (λ w. w) 0 [] small seven small-Room (λ w p. (refl, refl, refl))

frame_roundtrip_example :
    (decode_frame_size (encode_frame_size 13).0 ≡ (13, 13))
    × ((13 + (encode_frame_size 13).1) % 8 ≡ 0)
    × ((encode_frame_size 13).1 < 8)
    × (((encode_frame_size 13).0 < 2 ^ 63) ↔ ((encode_frame_size 13).1 ≡ 0))
frame_roundtrip_example = frame_roundtrip 13 (omega arith)

-- Marshalled as two bytes and the payload.
abbrev bytes_of : Record → List ℕ
bytes_of rec = rec.type % 256 ∷ rec.crc % 256 ∷ rec.payload

abbrev old : Encoder
old = record { bw = small; crc = record { crc = 5 } }

abbrev records : List Record
records =
    record { type = 1; crc = 0; payload = 8 ∷ [] } ∷ record { type = 2; crc = 0; payload = [] } ∷ []

keeps_all : Reliable keeps (λ w. w)
unfolding Reliable
keeps_all w p = (refl, refl, refl)

records_fit : AllFit (λ rec. some (bytes_of rec)) bytes_of old.crc records
records_fit = ((refl, omega arith), ((refl, omega arith), tt))

encode_all_lem_example :
    (x : Encoded (List ℕ)) × (encode_all keeps
        (λ c p. c + 1)
        (λ rec. some (bytes_of rec))
        []
        old
        records
      ≡ ok x)
    × (x.error ≡ none)
    × (x.writer ++ pending x.encoder.bw ≡ ([] ++ pending small) ++ frames bytes_of old.crc records)
    × (length (frames bytes_of old.crc records) % 8 ≡ 0)
encode_all_lem_example =
    encode_all_lem keeps (λ c p. c + 1) (λ rec. some (bytes_of rec)) (λ w. w) keeps_all bytes_of
      records [] old records_fit small-Room
