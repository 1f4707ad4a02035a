-- ===== src/Wal/Frame.antt =====
-- The length field of a record: `encodeFrameSize` of server/storage/wal/encoder.go and `decodeFrameSize`
-- of decoder.go. A value of int64 is the one of uint64 with the same bits.
use Prim.Native.Nat.{bit_and, bit_or}
use my_raft_kv.Prelude.{
  ℕ, ◌+◌, ◌-◌, ◌*◌, ◌/◌, ◌%◌, ◌^◌, ◌<◌, ◌==◌, if◌then◌else◌, leb, ◌≡◌, ap, ◌∙◌, arith, inl, inr,
  ◌↔◌, Bool-cases,
}
use my_raft_kv.Wal.Bits.{or_shifted, and_shifted, and_ones, or_top}

abbrev pub shift_left : ℕ → ℕ → ℕ
shift_left x k = x * 2 ^ k % 2 ^ 64

-- `x &^ y`, the bits of `x` that `y` does not have.
abbrev pub and_not : ℕ → ℕ → ℕ
and_not x y = x - bit_and x y

abbrev pub pad_bytes : ℕ → ℕ
pad_bytes data_bytes = (8 - data_bytes % 8) % 8

unfoldable pub encode_frame_size : ℕ → ℕ × ℕ
encode_frame_size data_bytes =
    let pad = pad_bytes data_bytes in
    (if pad == 0 then data_bytes else bit_or data_bytes (shift_left (bit_or 128 pad) 56), pad)

-- The number of padding bytes is computed, but the number of the record's is returned twice.
unfoldable pub decode_frame_size : ℕ → ℕ × ℕ
decode_frame_size len_field =
    let rec_bytes = and_not len_field (shift_left 255 56) in
    let pad = if leb (2 ^ 63) len_field then bit_and (len_field / 2 ^ 56) 7 else 0 in
    (rec_bytes, rec_bytes)

-- The length field of a record, as a sum.
field_lem :
    (n : ℕ)
    → n < 2 ^ 56
    → (encode_frame_size n).0 ≡ n + (if pad_bytes n == 0 then 0 else 128 + pad_bytes n) * 2 ^ 56
unfolding encode_frame_size
field_lem n h = elim (Bool-cases (pad_bytes n == 0)) [
  | inl e ↦ rw e (omega arith)
  | inr e ↦ rw e (ap (bit_or n) top ∙ or_shifted 56 n (128 + pad_bytes n) h)
]
  where
    small : pad_bytes n < 8
    small = omega arith

    top : shift_left (bit_or 128 (pad_bytes n)) 56 ≡ (128 + pad_bytes n) * 2 ^ 56
    top = omega (arith, or_top (pad_bytes n) small, small)

low_part : (n t : ℕ) → n < 2 ^ 56 → t < 256 → and_not (n + t * 2 ^ 56) (shift_left 255 56) ≡ n
low_part n t h g =
    let high : (n + t * 2 ^ 56) / 2 ^ 56 ≡ t = omega (arith, h) in
    let mask : bit_and (n + t * 2 ^ 56) (255 * 2 ^ 56) ≡ t * 2 ^ 56 =
      and_shifted 56 (n + t * 2 ^ 56) 255
      ∙ ap (λ x. bit_and x 255 * 2 ^ 56) high
      ∙ ap (λ x. x * 2 ^ 56) (and_ones t g) in
    omega (arith, mask)

-- What is written for a record of fewer than 2 ^ 56 bytes is read back: the decoder finds the number of
-- its bytes, and finds it in place of the padding as well. The padding is less than 8 bytes and fills the
-- record up to a multiple of 8, and the length field has its top bit just if there is padding.
pub frame_roundtrip :
    (n : ℕ)
    → n < 2 ^ 56
    → (decode_frame_size (encode_frame_size n).0 ≡ (n, n))
      × ((n + (encode_frame_size n).1) % 8 ≡ 0)
      × ((encode_frame_size n).1 < 8)
      × (((encode_frame_size n).0 < 2 ^ 63) ↔ ((encode_frame_size n).1 ≡ 0))
unfolding encode_frame_size decode_frame_size
frame_roundtrip n h = (
  ap (λ x. (x, x)) read_back,
  omega arith,
  omega arith,
  (λ g. ground (arith, field_lem n h, g), λ z. ground (arith, field_lem n h, z, h)),
)
  where
    high : ℕ
    high = if pad_bytes n == 0 then 0 else 128 + pad_bytes n

    high_small : high < 256
    high_small = ground arith

    read_back : and_not (encode_frame_size n).0 (shift_left 255 56) ≡ n
    read_back =
        ap (λ l. and_not l (shift_left 255 56)) (field_lem n h) ∙ low_part n high h high_small
