-- ===== src/Wal/PageWriter/Writes.antt =====
-- `Write` of the page writer passes its bytes on, and needs itself once at most.
use my_raft_kv.Prelude.{
  ℕ, suc, ◌+◌, ◌≤◌, ◌<◌, Bool, true, false, List, ◌++◌, ++-assoc, ◌==◌, ltb, leb, ◌≡◌, sym, ap, ◌∙◌,
  arith, length, take, drop, length-take, length-drop, Returns, Returns-split, Result, ok, ◌>>=◌,
}
use my_raft_kv.Wal.PageWriter.{
  PageWriter, Wrote, Written, store, pending, slack_of, clear, write_once, write,
}
use my_raft_kv.Wal.PageWriter.Room.{
  Room, Base, Room-Base, with_stored, store_room, pending-with_stored, length-copy_at, Room-below,
  Room-partial,
}
use my_raft_kv.Wal.PageWriter.Stream.{take-drop, Reliable, Went, Went-stored}
use my_raft_kv.Wal.PageWriter.Pages.{Next, clear_lem}

module _ {W : Type 0} (write_under : W → List ℕ → Wrote W) (held : W → List ℕ) where
  module _ (next : W → PageWriter → List ℕ → Result (Written W))
      (nexts : Next write_under held next) where
    write_once_lem :
        (w : W) (pw : PageWriter) (p : List ℕ)
        → Room pw
        → Returns (Went write_under held w pw p 0) (write_once write_under next w pw p)
    unfolding write_once
    write_once_lem w pw p r =
        Returns-split fits
          (λ e.
            Went-stored write_under held w pw p (omega (arith, r.size, below e))
              (Room-below pw p r (below e)))
          (λ e.
            Returns-split (pw.page_bytes == 0) (λ z. absurd (no_pages z))
              (λ z.
                Returns-split (slack_of pw == pw.page_bytes)
                  (λ a. clear_lem write_under held next nexts w pw p 0 (Room-Base r))
                  (λ a.
                    Returns-split (ltb (length p) (slack_of pw))
                      (λ c.
                        Went-stored write_under held w pw p (omega (arith, r.room, less c))
                          (Room-partial pw p r (less c)))
                      (λ c. split (enough c)))))
      where
        no_pages : (pw.page_bytes == 0) ≡ true → ⊥
        no_pages z = ground (arith, z, r.positive)

        fits : Bool
        fits = leb (length p + pw.buffered_bytes) pw.buf_watermark_bytes

        below : fits ≡ true → length p + pw.buffered_bytes ≤ pw.buf_watermark_bytes
        below e = ground (arith, e)

        less : ltb (length p) (slack_of pw) ≡ true → length p < slack_of pw
        less c = ground (arith, c)

        enough : ltb (length p) (slack_of pw) ≡ false → slack_of pw ≤ length p
        enough c = ground (arith, c)

        -- The rest of the page, and what is left of the bytes.
        front : List ℕ
        front = take (slack_of pw) p

        back : List ℕ
        back = drop (slack_of pw) p

        split :
            slack_of pw ≤ length p
            → Returns
                (Went write_under held w pw p 0)
                (store pw front >>= λ pw'. clear write_under next w pw' back (slack_of pw))
        split c =
            let l : length front ≡ slack_of pw = length-take (slack_of pw) p c in
            let h : pw.buffered_bytes + length front ≤ length pw.buf = omega (arith, r.room, l) in
            let (x, e, t) =
              clear_lem write_under held next nexts w (with_stored pw front) back (slack_of pw)
                (full h) in
            (
              x,
              ap (λ m. m >>= λ pw'. clear write_under next w pw' back (slack_of pw))
                    (store_room pw front h)
                  ∙ e,
              record {
                room = t.room;
                fits_as_before = t.fits_as_before;
                whole = λ g.
                    let (f, k, s) = t.whole g in
                    (
                      f,
                      omega (arith, k, c, length-drop (slack_of pw) p),
                      s
                          ∙ ap (λ q. held w ++ (q ++ back)) (pending-with_stored pw front h)
                          ∙ ap (λ q. held w ++ q)
                              (++-assoc (pending pw) front back
                                ∙ ap (λ q. pending pw ++ q) (take-drop (slack_of pw) p)),
                    );
              },
            )
          where
            full : pw.buffered_bytes + length front ≤ length pw.buf → Base (with_stored pw front)
            full h = record {
              positive = r.positive;
              page_fits = r.page_fits;
              size = length-copy_at pw.buffered_bytes front pw.buf h ∙ r.size;
              inside = omega (arith, h, length-copy_at pw.buffered_bytes front pw.buf h);
            }

  -- With an empty buffer and at most a page of bytes, the call copies and ends.
  copies : (fuel : ℕ) → Next write_under held (write write_under (suc fuel))
  unfolding write write_once Next
  copies fuel w pw p r z h = rw (fits h z) (
      Went-stored write_under held w pw p (omega (arith, h, z, r.size))
        (Room-below pw p r (omega (arith, h, z, r.page_fits))))
    where
      fits :
          length p ≤ pw.page_bytes
          → pw.buffered_bytes ≡ 0
          → leb (length p + pw.buffered_bytes) pw.buf_watermark_bytes ≡ true
      fits h z = ground (arith, h, z, r.page_fits)

  pub writes :
      (fuel : ℕ) (w : W) (pw : PageWriter) (p : List ℕ)
      → Room pw
      → Returns (Went write_under held w pw p 0) (write write_under (suc (suc fuel)) w pw p)
  unfolding write
  writes fuel w pw p r = write_once_lem (write write_under (suc fuel)) (copies fuel) w pw p r

  -- Whatever the writer under it does, errors and short writes included, a call of `Write` calls itself
  -- once at most and returns: no index is out of range, and there is room again in the buffer for the rest
  -- of the page that its end is in. The writer has such room before, and a page is not more than the
  -- watermark.
  pub write-Room :
      (fuel : ℕ) (w : W) (pw : PageWriter) (p : List ℕ)
      → Room pw
      → (r : Written W) × (write write_under (fuel + 2) w pw p ≡ ok r) × Room r.pw
  write-Room fuel w pw p r =
      let (x, e, t) = writes fuel w pw p r in
      (x, ap (λ f. write write_under f w pw p) (omega arith) ∙ e, t.room)

  -- Over a writer that takes all the bytes it is given and does not fail, `Write` takes all of its bytes
  -- and does not fail, and the bytes that the writer under it has, with the buffered ones after them,
  -- are those of before and then the new ones, in order. Before, the buffer has room for the rest of the
  -- page that its end is in.
  pub write_stream :
      (fuel : ℕ) (w : W) (pw : PageWriter) (p : List ℕ)
      → Room pw
      → ((w : W) (p : List ℕ)
          → (held (write_under w p).writer ≡ held w ++ p)
            × ((write_under w p).n ≡ length p)
            × ((write_under w p).failed ≡ false))
      → (r : Written W) × (write write_under (fuel + 2) w pw p ≡ ok r)
        × (r.failed ≡ false)
        × (r.n ≡ length p)
        × (held r.writer ++ pending r.pw ≡ (held w ++ pending pw) ++ p)
  unfolding Reliable
  write_stream fuel w pw p r g =
      let (x, e, t) = writes fuel w pw p r in
      let (f, k, s) = t.whole g in
      (
        x,
        ap (λ f. write write_under f w pw p) (omega arith) ∙ e,
        f,
        omega (arith, k),
        s ∙ sym (++-assoc (held w) (pending pw) p),
      )
