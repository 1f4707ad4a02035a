-- ===== src/Wal/PageWriter/Pages.antt =====
-- A flush, the whole pages after it, and the rest.
use my_raft_kv.Prelude.{
  ℕ, ◌+◌, ◌-◌, ◌*◌, ◌/◌, ◌≤◌, ◌<◌, true, false, inl, inr, ◌⊎◌, Bool-cases, List, ◌++◌, ++-assoc,
  if◌then◌else◌, ltb, ◌≡◌, refl, ap, ◌∙◌, arith, length, take, drop, length-take, length-drop,
  Returns, Returns-then, Result, ok,
}
use native.Mathlib.Nat.{mod-lt, mod-add-div, mul_comm}
use my_raft_kv.Wal.PageWriter.{PageWriter, Wrote, Written, pending, tail, pages, clear}
use my_raft_kv.Wal.PageWriter.Room.{Room, Base}
use my_raft_kv.Wal.PageWriter.Stream.{take-drop, Reliable, Went, Flushed, flush_lem}

whole_pages : (n m : ℕ) → n / m * m ≤ n
whole_pages n m = omega (arith, mod-add-div n m, mul_comm m (n / m))

rest_of_pages : (n m : ℕ) → 0 < m → n - n / m * m < m
rest_of_pages n m h = omega (arith, mod-add-div n m, mul_comm m (n / m), mod-lt n h)

module _ {W : Type 0} (write_under : W → List ℕ → Wrote W) (held : W → List ℕ) where
  -- What the call of `Write` by itself does, with an empty buffer and at most a page of bytes.
  unfoldable pub Next : (W → PageWriter → List ℕ → Result (Written W)) → Type 0
  Next next =
      (w : W) (pw : PageWriter) (p : List ℕ)
      → Room pw
      → pw.buffered_bytes ≡ 0
      → length p ≤ pw.page_bytes
      → Returns (Went write_under held w pw p 0) (next w pw p)

  module _ (next : W → PageWriter → List ℕ → Result (Written W)) (nexts : Next next) where
    tail_lem :
        (w w' : W) (pw : PageWriter) (p q : List ℕ) (n : ℕ)
        → Room pw
        → pw.buffered_bytes ≡ 0
        → length q ≤ pw.page_bytes
        → (n' : ℕ)
        → (Reliable write_under held
            → (n' + length q ≡ n + length p)
              × (held w' ++ (pending pw ++ q) ≡ held w ++ (pending pw ++ p)))
        → Returns (Went write_under held w pw p n) (tail write_under next w' pw q n')
    unfolding Next
    tail_lem w w' pw p q n r z h n' same = Returns-then (nexts w' pw q r z h) (λ x g. (
      record x { n = n' + x.n },
      refl,
      record {
        room = g.room;
        fits_as_before = g.fits_as_before;
        whole = λ ok_under.
            let (f, k, s) = g.whole ok_under in
            let (k', s') = same ok_under in (f, omega (arith, k, k'), s ∙ s');
      },
    ))

    pages_lem :
        (w : W) (pw : PageWriter) (p : List ℕ) (n : ℕ)
        → Room pw
        → pw.buffered_bytes ≡ 0
        → Returns (Went write_under held w pw p n) (pages write_under next w pw p n)
    unfolding pages Reliable pending
    pages_lem w pw p n r z = elim (Bool-cases (ltb pw.page_bytes (length p))) [
      | inr e ↦ rw e (tail_lem w w pw p p n r z (short e) n (λ g. (refl, refl)))
      | inl e ↦ rw e (by_error (Bool-cases answer.failed))
    ]
      where
        short : ltb pw.page_bytes (length p) ≡ false → length p ≤ pw.page_bytes
        short e = ground (arith, e)

        whole : ℕ
        whole = length p / pw.page_bytes * pw.page_bytes

        answer : Wrote W
        answer = write_under w (take whole p)

        rest : length (drop whole p) ≤ pw.page_bytes
        rest = omega (arith, length-drop whole p, rest_of_pages (length p) pw.page_bytes r.positive)

        counted :
            answer.n ≡ length (take whole p) → n + answer.n + length (drop whole p) ≡ n + length p
        counted k =
            let within : whole ≤ length p = whole_pages (length p) pw.page_bytes in
            omega (arith, k, within, length-take whole p within, length-drop whole p)

        joined :
            pw.buffered_bytes ≡ 0
            → held answer.writer ≡ held w ++ take whole p
            → held answer.writer ++ (take pw.buffered_bytes pw.buf ++ drop whole p)
              ≡ held w ++ (take pw.buffered_bytes pw.buf ++ p)
        joined z h = rw z (
            ap (λ l. l ++ drop whole p) h
            ∙ ++-assoc (held w) (take whole p) (drop whole p)
            ∙ ap (λ l. held w ++ l) (take-drop whole p))

        by_error :
            (answer.failed ≡ true) ⊎ (answer.failed ≡ false)
            → Returns (Went write_under held w pw p n) (
                if answer.failed
                then ok
                    (record { writer = answer.writer; pw = pw; n = n + answer.n; failed = true })
                else tail write_under next answer.writer pw (drop whole p) (n + answer.n))
        by_error (inl e) = (
          record { writer = answer.writer; pw = pw; n = n + answer.n; failed = true },
          rw e refl,
          record {
            room = r;
            fits_as_before = (refl, refl);
            whole = λ g. let (h, k, f) = g w (take whole p) in cc;
          },
        )
        by_error (inr e) = rw e (
            tail_lem w answer.writer pw p (drop whole p) n r z rest (n + answer.n)
              (λ g. let (h, k, f) = g w (take whole p) in (counted k, joined z h)))

    pub clear_lem :
        (w : W) (pw : PageWriter) (p : List ℕ) (n : ℕ)
        → Base pw
        → Returns (Went write_under held w pw p n) (clear write_under next w pw p n)
    unfolding clear pending
    clear_lem w pw p n b =
        Returns-then (flush_lem write_under held w pw b) (λ f g. by_error f g (Bool-cases f.failed))
      where
        none_left : (q : PageWriter) → q.buffered_bytes ≡ 0 → pending q ++ p ≡ p
        none_left q z = rw z refl

        by_error :
            (f : Written W)
            → Flushed write_under held w pw f
            → (f.failed ≡ true) ⊎ (f.failed ≡ false)
            → Returns (Went write_under held w pw p n) (
                if f.failed
                then ok (record { writer = f.writer; pw = f.pw; n = n; failed = false })
                else pages write_under next f.writer f.pw p n)
        by_error f g (inl e) = (
          record { writer = f.writer; pw = f.pw; n = n; failed = false },
          rw e refl,
          record {
            room = g.room;
            fits_as_before = g.fits_as_before;
            whole = λ h. let (k, l) = g.whole h in cc;
          },
        )
        by_error f g (inr e) =
            let (x, e', t) = pages_lem f.writer f.pw p n g.room g.emptied in
            (
              x,
              rw e e',
              record {
                room = t.room;
                fits_as_before = (
                  t.fits_as_before.0 ∙ g.fits_as_before.0,
                  t.fits_as_before.1 ∙ g.fits_as_before.1,
                );
                whole = λ h.
                    let (f', k, s) = t.whole h in
                    let (u, v) = g.whole h in
                    (
                      f',
                      k,
                      s
                          ∙ ap (λ l. held f.writer ++ l) (none_left f.pw g.emptied)
                          ∙ ap (λ l. l ++ p) v
                          ∙ ++-assoc (held w) (pending pw) p,
                    );
              },
            )
