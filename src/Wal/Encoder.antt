-- ===== src/Wal/Encoder.antt =====
-- server/storage/wal/encoder.go: the encoder of records. `proto.Marshal`, the writer under the page
-- writer and `crc32.Update` are parameters.
pub mod Frames
pub mod Bytes
use my_raft_kv.Prelude.{
  ℕ, zero, suc, ◌+◌, ◌*◌, ◌/◌, ◌%◌, Bool, true, false, Option, none, some, List, [], ◌∷◌, ◌++◌,
  ◌==◌, if◌then◌else◌, length, replicate, Result, ok, ◌>>=◌,
}
use my_raft_kv.Wal.PageWriter.{PageWriter, new_page_writer, Wrote, write}
use my_raft_kv.Wal.Frame.{encode_frame_size}
use my_raft_kv.Wal.Crc as Crc
use my_raft_kv.Wal.Crc.{Digest, sum32}

-- `walPB.Record`
pub record Record : Type 0 where
  pub type : ℕ
  pub crc : ℕ
  pub payload : List ℕ

-- `Validate` empties a record that has another checksum; its result says whether it fails.
unfoldable pub validate : Record → ℕ → Record × Bool
validate rec crc =
    if rec.crc == crc then (rec, false) else (record { type = 0; crc = 0; payload = [] }, true)

abbrev pub wal_page_bytes : ℕ
wal_page_bytes = 8 * 512

-- `buf` is never used, and `uint64buf` only holds a number on its way to the writer.
pub record Encoder : Type 0 where
  pub bw : PageWriter
  pub crc : Digest

unfoldable pub new_encoder : ℕ → ℕ → Encoder
unfolding new_page_writer Crc.new
new_encoder prev_crc page_offset = record {
  bw = new_page_writer wal_page_bytes page_offset;
  crc = Crc.new prev_crc;
}

-- The bytes of a number, the lowest first.
unfoldable pub little_endian : ℕ → ℕ → List ℕ
little_endian zero n = []
little_endian (suc k) n = n % 256 ∷ little_endian k (n / 256)

pub data EncodeError : Type 0 where
  marshal_failed write_failed : EncodeError

pub record Encoded (W : Type 0) : Type 0 where
  pub writer : W
  pub encoder : Encoder
  pub error : Option EncodeError

abbrev pub error_if : Bool → Option EncodeError
error_if true = some write_failed
error_if false = none

-- The data of a record, padded with zeros.
abbrev pub padded : List ℕ → ℕ → List ℕ
padded payload pad = if pad == 0 then payload else payload ++ replicate pad 0

-- The record is given its checksum.
abbrev pub stamp : Digest → Record → Record
stamp d rec = record rec { crc = sum32 d }

module _ {W : Type 0} (write_under : W → List ℕ → Wrote W) (update : ℕ → List ℕ → ℕ)
    (marshal : Record → Option (List ℕ)) where
  unfoldable pub write_uint64 : ℕ → W → PageWriter → ℕ → Result (W × PageWriter × Bool)
  unfolding write little_endian
  write_uint64 fuel w bw n =
      write write_under fuel w bw (little_endian 8 n) >>= λ r. ok (r.writer, r.pw, r.failed)

  abbrev pub write_payload : ℕ → Encoder → W → PageWriter → List ℕ → Bool → Result (Encoded W)
  write_payload fuel e w bw bytes failed =
      if failed
      then ok (record { writer = w; encoder = record e { bw = bw }; error = some write_failed })
      else (write write_under fuel w bw bytes >>= λ r. ok (record {
        writer = r.writer;
        encoder = record e { bw = r.pw };
        error = error_if r.failed;
      }))

  -- The frame of a marshalled record.
  unfoldable pub write_frame : ℕ → W → Encoder → List ℕ → Result (Encoded W)
  unfolding write write_uint64 encode_frame_size
  write_frame fuel w e bytes =
      let size = encode_frame_size (length bytes) in
      write_uint64 fuel w e.bw size.0 >>= λ (w', bw, failed).
      write_payload fuel e w' bw (padded bytes size.1) failed

  abbrev pub if_marshalled : ℕ → W → Encoder → Option (List ℕ) → Result (Encoded W)
  if_marshalled fuel w e none = ok (record { writer = w; encoder = e; error = some marshal_failed })
  if_marshalled fuel w e (some bytes) = write_frame fuel w e bytes

  unfoldable pub encode : ℕ → W → Encoder → Record → Result (Encoded W)
  unfolding Crc.write Crc.sum32 write_frame
  encode fuel w e rec =
      let summed = record e { crc = (Crc.write update e.crc rec.payload).0 } in
      if_marshalled fuel w summed (marshal (stamp summed.crc rec))
