-- ===== src/Wal/Encoder/Frames.antt =====
-- The stream that an encoder writes.
use my_raft_kv.Prelude.{
  ℕ, ◌%◌, Bool, false, Option, none, some, List, [], ◌∷◌, ◌++◌, ++-nil, ++-assoc, ◌≡◌, refl, sym,
  ap, ◌∙◌, subst, length, Returns, Returns-then, Result, ok, ◌>>=◌,
}
use my_raft_kv.Wal.PageWriter.{PageWriter, pending, Wrote, Written, write}
use my_raft_kv.Wal.PageWriter.Room.{Room}
use my_raft_kv.Wal.PageWriter.Stream.{Reliable, Went}
use my_raft_kv.Wal.PageWriter.Writes.{writes}
use my_raft_kv.Wal.Frame.{encode_frame_size}
use my_raft_kv.Wal.Encoder.Bytes.{frame, frames, Fits, AllFit, frames_aligned}
use my_raft_kv.Wal.Crc as Crc
use my_raft_kv.Wal.Crc.{Digest}
use my_raft_kv.Wal.Encoder.{
  Record, Encoder, little_endian, EncodeError, Encoded, error_if, padded, stamp, write_uint64,
  write_frame, encode,
}

abbrev go_on {ℓ} : {X : Type ℓ} → Option EncodeError → X → X → X
go_on none next last = next
go_on (some e) next last = last

module _ {W : Type 0} (write_under : W → List ℕ → Wrote W) (update : ℕ → List ℕ → ℕ)
    (marshal : Record → Option (List ℕ)) where
  -- One record after the other; an error ends it.
  unfoldable pub encode_all : W → Encoder → List Record → Result (Encoded W)
  unfolding encode
  encode_all w e [] = ok (record { writer = w; encoder = e; error = none })
  encode_all w e (rec ∷ recs) = encode write_under update marshal 2 w e rec >>= λ x.
      go_on x.error (encode_all x.writer x.encoder recs) (ok x)

module _ {W : Type 0} (write_under : W → List ℕ → Wrote W) (update : ℕ → List ℕ → ℕ)
    (marshal : Record → Option (List ℕ)) (held : W → List ℕ) (reliable : Reliable write_under held)
    (bytes_of : Record → List ℕ) where
  -- After a call that has written some bytes and has no error.
  record Fine (w : W) (e : Encoder) (p : List ℕ) (x : Encoded W) : Type 0 where
    room : Room x.encoder.bw
    same_crc : x.encoder.crc ≡ e.crc
    no_error : x.error ≡ none
    added : held x.writer ++ pending x.encoder.bw ≡ (held w ++ pending e.bw) ++ p

  -- After a call of `Write` of the page writer.
  record Put (w : W) (pw : PageWriter) (p : List ℕ) (w' : W) (pw' : PageWriter) (failed : Bool)
      : Type 0 where
    room : Room pw'
    no_error : failed ≡ false
    added : held w' ++ pending pw' ≡ (held w ++ pending pw) ++ p

  Went-Put :
      {w : W} {pw : PageWriter} {p : List ℕ} (x : Written W)
      → Went write_under held w pw p 0 x
      → Put w pw p x.writer x.pw x.failed
  Went-Put {w} {pw} {p} x t =
      let (f, k, s) = t.whole reliable in
      record { room = t.room; no_error = f; added = s ∙ sym (++-assoc (held w) (pending pw) p) }

  put :
      (w : W) (pw : PageWriter) (p : List ℕ)
      → Room pw
      → Returns (λ r. Put w pw p r.writer r.pw r.failed) (write write_under 2 w pw p)
  put w pw p r = let (x, e, t) = writes write_under held 0 w pw p r in (x, e, Went-Put x t)

  Put-uint64 :
      (w : W) (pw : PageWriter) (n : ℕ)
      → Room pw
      → Returns
          (λ s. Put w pw (little_endian 8 n) s.0 s.1 s.2)
          (write_uint64 write_under update marshal 2 w pw n)
  unfolding write_uint64
  Put-uint64 w pw n r =
      Returns-then (put w pw (little_endian 8 n) r) (λ x t. ((x.writer, x.pw, x.failed), refl, t))

  write_frame_lem :
      (w : W) (e : Encoder) (bytes : List ℕ)
      → Room e.bw
      → Returns (Fine w e (frame bytes)) (write_frame write_under update marshal 2 w e bytes)
  unfolding write_frame write_uint64 frame
  write_frame_lem w e bytes r =
      Returns-then (Put-uint64 w e.bw (encode_frame_size (length bytes)).0 r) (λ s t.
        rw t.no_error (
          Returns-then (put s.0 s.1 rest t.room) (λ x u. (
            record {
              writer = x.writer;
              encoder = record e { bw = x.pw };
              error = error_if x.failed;
            },
            refl,
            record {
              room = u.room;
              same_crc = refl;
              no_error = ap error_if u.no_error;
              added =
                  u.added
                  ∙ ap (λ l. l ++ rest) t.added
                  ∙ ++-assoc (held w ++ pending e.bw) field rest;
            },
          ))))
    where
      field : List ℕ
      field = little_endian 8 (encode_frame_size (length bytes)).0

      rest : List ℕ
      rest = padded bytes (encode_frame_size (length bytes)).1

  encode_lem :
      (w : W) (e : Encoder) (rec : Record)
      → Fits marshal bytes_of (stamp e.crc rec)
      → Room e.bw
      → Returns
          (Fine w e (frame (bytes_of (stamp e.crc rec))))
          (encode write_under update marshal 2 w e rec)
  unfolding encode Crc.write Crc.sum32
  encode_lem w e rec h r = rw h.0 (write_frame_lem w e (bytes_of (stamp e.crc rec)) r)

  -- What `encode_all` leaves, the checksum of the encoder being d.
  record Framed (d : Digest) (recs : List Record) (w : W) (e : Encoder) (x : Encoded W)
      : Type 0 where
    no_error : x.error ≡ none
    added :
        held x.writer ++ pending x.encoder.bw ≡ (held w ++ pending e.bw) ++ frames bytes_of d recs

  encode_all-Framed :
      (d : Digest) (recs : List Record) (w : W) (e : Encoder)
      → AllFit marshal bytes_of d recs
      → e.crc ≡ d
      → Room e.bw
      → Returns (Framed d recs w e) (encode_all write_under update marshal w e recs)
  unfolding encode_all frames
  encode_all-Framed d [] w e h c r = (
    record { writer = w; encoder = e; error = none },
    refl,
    record { no_error = refl; added = ++-nil (held w ++ pending e.bw) },
  )
  encode_all-Framed d (rec ∷ recs) w e (h, hs) c r =
      Returns-then
        (subst
          (λ d'.
            Returns (Fine w e (frame (bytes_of (stamp d' rec))))
              (encode write_under update marshal 2 w e rec))
          c (encode_lem w e rec (subst (λ d'. Fits marshal bytes_of (stamp d' rec)) (sym c) h) r))
        (λ x f. rw f.no_error (
          let (y, e2, t) = encode_all-Framed d recs x.writer x.encoder hs (f.same_crc ∙ c) f.room in
          (
            y,
            e2,
            record {
              no_error = t.no_error;
              added =
                  t.added
                  ∙ ap (λ l. l ++ frames bytes_of d recs) f.added
                  ∙ ++-assoc (held w ++ pending e.bw) (frame (bytes_of (stamp d rec)))
                      (frames bytes_of d recs);
            },
          )))

  -- Over a writer that takes all bytes and does not fail, and for records that can each be marshalled,
  -- with the checksum that the encoder was made with, into fewer than 2 ^ 56 bytes: the encoder writes
  -- the frames of these records, each with that checksum, in order, behind what was there before, without
  -- an error, and what it adds is a whole number of times 8 bytes. Before, the page writer's buffer has
  -- room for the rest of the page that its end is in.
  pub encode_all_lem :
      (recs : List Record) (w : W) (e : Encoder)
      → AllFit marshal bytes_of e.crc recs
      → Room e.bw
      → (x : Encoded W) × (encode_all write_under update marshal w e recs ≡ ok x)
        × (x.error ≡ none)
        × (held x.writer ++ pending x.encoder.bw
            ≡ (held w ++ pending e.bw) ++ frames bytes_of e.crc recs)
        × (length (frames bytes_of e.crc recs) % 8 ≡ 0)
  encode_all_lem recs w e h r =
      let (x, e1, f) = encode_all-Framed e.crc recs w e h refl r in
      (x, e1, f.no_error, f.added, frames_aligned marshal bytes_of e.crc recs h)
