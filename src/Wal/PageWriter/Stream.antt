-- ===== src/Wal/PageWriter/Stream.antt =====
-- What a call of `Write` does to the stream of bytes: those that the writer under it has, and the
-- buffered ones after them.
use my_raft_kv.Prelude.{
  ℕ, zero, suc, ◌+◌, ◌%◌, ◌≤◌, false, inl, inr, Bool-cases, List, [], ◌∷◌, ◌++◌, ++-nil, ◌==◌, ◌≡◌,
  refl, ap, arith, length, take, drop, Returns, ok, ◌>>=◌,
}
use my_raft_kv.Wal.PageWriter.{PageWriter, Wrote, Written, pending, flush, stored}
use my_raft_kv.Wal.PageWriter.Room.{
  Room, Base, empty-Room, is_zero, not_zero, not_below, with_stored, store_room,
  pending-with_stored,
}

pub take-drop : (n : ℕ) (xs : List ℕ) → take n xs ++ drop n xs ≡ xs
take-drop zero xs = refl
take-drop (suc n) [] = refl
take-drop (suc n) (x ∷ xs) = ap (λ l. x ∷ l) (take-drop n xs)

module _ {W : Type 0} (write_under : W → List ℕ → Wrote W) (held : W → List ℕ) where
  -- The writer under the page writer takes all the bytes that it is given, and never fails.
  unfoldable pub Reliable : Type 0
  Reliable =
      (w : W) (p : List ℕ)
      → (held (write_under w p).writer ≡ held w ++ p)
        × ((write_under w p).n ≡ length p)
        × ((write_under w p).failed ≡ false)

  -- A call with bytes `p` has ended, with n bytes done before.
  pub record Went (w : W) (pw : PageWriter) (p : List ℕ) (n : ℕ) (r : Written W) : Type 0 where
    pub room : Room r.pw
    pub fits_as_before :
        (r.pw.page_bytes ≡ pw.page_bytes) × (r.pw.buf_watermark_bytes ≡ pw.buf_watermark_bytes)
    pub whole :
        Reliable
        → (r.failed ≡ false)
          × (r.n ≡ n + length p)
          × (held r.writer ++ pending r.pw ≡ held w ++ (pending pw ++ p))

  pub Went-stored :
      (w : W) (pw : PageWriter) (p : List ℕ)
      → pw.buffered_bytes + length p ≤ length pw.buf
      → Room (with_stored pw p)
      → Returns (Went w pw p 0) (stored write_under w pw p)
  Went-stored w pw p h r = (
    record { writer = w; pw = with_stored pw p; n = length p; failed = false },
    ap (λ m. m >>= λ pw'. ok (record { writer = w; pw = pw'; n = length p; failed = false }))
        (store_room pw p h),
    record {
      room = r;
      fits_as_before = (refl, refl);
      whole = λ g. (refl, omega arith, ap (λ l. held w ++ l) (pending-with_stored pw p h));
    },
  )

  pub record Flushed (w : W) (pw : PageWriter) (r : Written W) : Type 0 where
    pub room : Room r.pw
    pub emptied : r.pw.buffered_bytes ≡ 0
    pub fits_as_before :
        (r.pw.page_bytes ≡ pw.page_bytes) × (r.pw.buf_watermark_bytes ≡ pw.buf_watermark_bytes)
    pub whole : Reliable → (r.failed ≡ false) × (held r.writer ≡ held w ++ pending pw)

  pub flush_lem :
      (w : W) (pw : PageWriter) → Base pw → Returns (Flushed w pw) (flush write_under w pw)
  unfolding flush pending Reliable
  flush_lem w pw b = elim (Bool-cases (pw.buffered_bytes == 0)) [
    | inl e ↦ (
      record { writer = w; pw = pw; n = 0; failed = false },
      rw e refl,
      record {
        room = empty-Room b (is_zero pw.buffered_bytes e);
        emptied = is_zero pw.buffered_bytes e;
        fits_as_before = (refl, refl);
        whole = λ g. (refl, none_pending (is_zero pw.buffered_bytes e));
      },
    )
    | inr e ↦ (
      record { writer = r.writer; pw = emptied; n = r.n; failed = r.failed },
      rw (e, not_below b.inside, not_zero b.positive) refl,
      record {
        room =
            empty-Room
              (record {
                positive = b.positive;
                page_fits = b.page_fits;
                size = b.size;
                inside = omega arith;
              })
              refl;
        emptied = refl;
        fits_as_before = (refl, refl);
        whole = λ g. let (h, n, f) = g w (pending pw) in (f, h);
      },
    )
  ]
    where
      r : Wrote W
      r = write_under w (pending pw)

      emptied : PageWriter
      emptied = record pw {
        page_offset = (pw.page_offset + pw.buffered_bytes) % pw.page_bytes;
        buffered_bytes = 0;
      }

      none_pending : pw.buffered_bytes ≡ 0 → held w ≡ held w ++ take pw.buffered_bytes pw.buf
      none_pending z = rw z (++-nil (held w))
