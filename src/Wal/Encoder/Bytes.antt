-- ===== src/Wal/Encoder/Bytes.antt =====
-- The bytes of a record's frame, and of the frames of some records.
use my_raft_kv.Prelude.{
  ℕ, zero, suc, ◌+◌, ◌/◌, ◌%◌, ◌^◌, ◌<◌, Option, some, List, [], ◌∷◌, ◌++◌, ◌==◌, ◌≡◌, refl, ap,
  arith, inl, inr, Bool-cases, length, length-append, length-replicate, replicate,
}
use my_raft_kv.Wal.Frame.{encode_frame_size, frame_roundtrip}
use my_raft_kv.Wal.Crc as Crc
use my_raft_kv.Wal.Crc.{Digest}
use my_raft_kv.Wal.Encoder.{Record, little_endian, padded, stamp}

-- A length field and the padded data.
unfoldable pub frame : List ℕ → List ℕ
unfolding little_endian encode_frame_size
frame bytes =
    little_endian 8 (encode_frame_size (length bytes)).0
    ++ padded bytes (encode_frame_size (length bytes)).1

length-little_endian : (k n : ℕ) → length (little_endian k n) ≡ k
unfolding little_endian
length-little_endian zero n = refl
length-little_endian (suc k) n = ap suc (length-little_endian k (n / 256))

length-padded : (bytes : List ℕ) (pad : ℕ) → length (padded bytes pad) ≡ length bytes + pad
length-padded bytes pad = elim (Bool-cases (pad == 0)) [
  | inl e ↦ rw e (ground (arith, e))
  | inr e ↦
      rw e (omega (arith, length-append bytes (replicate pad 0), length-replicate {A = ℕ} pad 0))
]

-- A frame is a whole number of times 8 bytes.
frame_aligned : (bytes : List ℕ) → length bytes < 2 ^ 56 → length (frame bytes) % 8 ≡ 0
unfolding frame
frame_aligned bytes h =
    let size : ℕ × ℕ = encode_frame_size (length bytes) in
    let (same, aligned, small, top) = frame_roundtrip (length bytes) h in
    omega (
      arith,
      length-append (little_endian 8 size.0) (padded bytes size.1),
      length-little_endian 8 size.0,
      length-padded bytes size.1,
      aligned,
    )

-- The frames of some records, each with the same checksum.
unfoldable pub frames : (Record → List ℕ) → Digest → List Record → List ℕ
unfolding frame Crc.sum32
frames bytes_of d [] = []
frames bytes_of d (rec ∷ recs) = frame (bytes_of (stamp d rec)) ++ frames bytes_of d recs

-- A record can be marshalled, into fewer than 2 ^ 56 bytes.
abbrev pub Fits : (Record → Option (List ℕ)) → (Record → List ℕ) → Record → Type 0
Fits marshal bytes_of rec = (marshal rec ≡ some (bytes_of rec)) × (length (bytes_of rec) < 2 ^ 56)

-- Each of these records can, with this checksum.
abbrev pub AllFit : (Record → Option (List ℕ)) → (Record → List ℕ) → Digest → List Record → Type 0
AllFit marshal bytes_of d [] = Unit {0}
AllFit marshal bytes_of d (rec ∷ recs) =
    Fits marshal bytes_of (stamp d rec) × AllFit marshal bytes_of d recs

pub frames_aligned :
    (marshal : Record → Option (List ℕ)) (bytes_of : Record → List ℕ) (d : Digest)
    (recs : List Record)
    → AllFit marshal bytes_of d recs
    → length (frames bytes_of d recs) % 8 ≡ 0
unfolding frames
frames_aligned marshal bytes_of d [] h = refl
frames_aligned marshal bytes_of d (rec ∷ recs) (h, hs) = omega (
  arith,
  length-append (frame (bytes_of (stamp d rec))) (frames bytes_of d recs),
  frame_aligned (bytes_of (stamp d rec)) h.1,
  frames_aligned marshal bytes_of d recs hs,
)
