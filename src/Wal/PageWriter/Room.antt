-- ===== src/Wal/PageWriter/Room.antt =====
-- There is always room in the buffer.
use my_raft_kv.Prelude.{
  ℕ, zero, suc, ◌+◌, ◌-◌, ◌%◌, ◌≤◌, ◌<◌, ◌==◌, true, false, List, [], ◌∷◌, ◌++◌, ++-assoc, ltb, leb,
  ◌≡◌, refl, sym, ap, ◌∙◌, arith, length, take, drop, length-append, length-take, length-drop,
  take_all, ok,
}
use native.Mathlib.Nat.{mod-lt, mod-eq_of_lt, mod-add-mod}
use my_raft_kv.Wal.PageWriter.{PageWriter, copy_at, store, pending, slack_of}

-- The buffer has room for the rest of the page that its end is in.
pub record Room (pw : PageWriter) : Type 0 where
  pub positive : 0 < pw.page_bytes
  pub page_fits : pw.page_bytes ≤ pw.buf_watermark_bytes
  pub size : length pw.buf ≡ pw.buf_watermark_bytes + pw.page_bytes
  pub room : pw.buffered_bytes + slack_of pw ≤ length pw.buf

pub slack_positive : (pw : PageWriter) → 0 < pw.page_bytes → 0 < slack_of pw
slack_positive pw h = omega (arith, h, mod-lt (pw.page_offset + pw.buffered_bytes) h)

pub mod_within : (x m l : ℕ) → x % m + l < m → (x + l) % m ≡ x % m + l
mod_within x m l h = sym (mod-add-mod x m l) ∙ mod-eq_of_lt h

take_prefix : (xs ys : List ℕ) (n : ℕ) → n ≡ length xs → take n (xs ++ ys) ≡ xs
take_prefix [] [] zero h = refl
take_prefix [] (y ∷ ys) zero h = refl
take_prefix [] ys (suc n) h = absurd (omega (arith, h))
take_prefix (x ∷ xs) ys zero h = absurd (omega (arith, h))
take_prefix (x ∷ xs) ys (suc n) h = ap (λ l. x ∷ l) (take_prefix xs ys n (omega (arith, h)))

-- A copy that has room: the buffer is as long as before, and starts with what was there and the copy.
copy_at_room :
    (i : ℕ) (src dst : List ℕ)
    → i + length src ≤ length dst
    → copy_at i src dst ≡ take i dst ++ (src ++ drop (i + length src) dst)
unfolding copy_at
copy_at_room i src dst h = rw (fits h, take_all (length src) src (omega arith)) refl
  where
    fits : i + length src ≤ length dst → leb (length src) (length dst - i) ≡ true
    fits h = ground (arith, h)

pub length-copy_at :
    (i : ℕ) (src dst : List ℕ)
    → i + length src ≤ length dst
    → length (copy_at i src dst) ≡ length dst
length-copy_at i src dst h =
    ap (λ (l : List ℕ). length l) (copy_at_room i src dst h)
    ∙ omega (
      arith,
      h,
      length-append (take i dst) (src ++ drop (i + length src) dst),
      length-append src (drop (i + length src) dst),
      length-take i dst (omega (arith, h)),
      length-drop (i + length src) dst,
    )

take-copy_at :
    (i : ℕ) (src dst : List ℕ)
    → i + length src ≤ length dst
    → take (i + length src) (copy_at i src dst) ≡ take i dst ++ src
take-copy_at i src dst h =
    ap (take (i + length src))
      (copy_at_room i src dst h ∙ sym (++-assoc (take i dst) src (drop (i + length src) dst)))
    ∙ take_prefix (take i dst ++ src) (drop (i + length src) dst) (i + length src)
        (omega (arith, h, length-append (take i dst) src, length-take i dst (omega (arith, h))))

-- The page writer after a copy.
abbrev pub with_stored : PageWriter → List ℕ → PageWriter
with_stored pw p = record pw {
  buf = copy_at pw.buffered_bytes p pw.buf;
  buffered_bytes = pw.buffered_bytes + length p;
}

pub store_room :
    (pw : PageWriter) (p : List ℕ)
    → pw.buffered_bytes + length p ≤ length pw.buf
    → store pw p ≡ ok (with_stored pw p)
unfolding store
store_room pw p h = rw (within h) refl
  where
    within :
        pw.buffered_bytes + length p ≤ length pw.buf → ltb (length pw.buf) pw.buffered_bytes ≡ false
    within h = ground (arith, h)

pub pending-with_stored :
    (pw : PageWriter) (p : List ℕ)
    → pw.buffered_bytes + length p ≤ length pw.buf
    → pending (with_stored pw p) ≡ pending pw ++ p
unfolding pending
pending-with_stored pw p h = take-copy_at pw.buffered_bytes p pw.buf h

-- Up to the watermark there is room for a page behind it; within the page of the end the room is that
-- of before.
pub Room-below :
    (pw : PageWriter) (p : List ℕ)
    → Room pw
    → length p + pw.buffered_bytes ≤ pw.buf_watermark_bytes
    → Room (with_stored pw p)
Room-below pw p r h = record {
  positive = r.positive;
  page_fits = r.page_fits;
  size = length-copy_at pw.buffered_bytes p pw.buf (omega (arith, h, r.size)) ∙ r.size;
  room =
      omega
        (arith, h, r.size, length-copy_at pw.buffered_bytes p pw.buf (omega (arith, h, r.size)));
}

pub Room-partial :
    (pw : PageWriter) (p : List ℕ) → Room pw → length p < slack_of pw → Room (with_stored pw p)
Room-partial pw p r h = record {
  positive = r.positive;
  page_fits = r.page_fits;
  size = length-copy_at pw.buffered_bytes p pw.buf (omega (arith, h, r.room)) ∙ r.size;
  room = omega (
    arith,
    h,
    r.room,
    r.positive,
    length-copy_at pw.buffered_bytes p pw.buf (omega (arith, h, r.room)),
    same_page,
  );
}
  where
    same_page :
        (pw.page_offset + (pw.buffered_bytes + length p)) % pw.page_bytes
        ≡ (pw.page_offset + pw.buffered_bytes) % pw.page_bytes + length p
    same_page =
        ap (λ k. k % pw.page_bytes) (omega arith)
        ∙ mod_within (pw.page_offset + pw.buffered_bytes) pw.page_bytes (length p)
            (omega (arith, h, r.positive, mod-lt (pw.page_offset + pw.buffered_bytes) r.positive))

-- A buffer that may be full.
pub record Base (pw : PageWriter) : Type 0 where
  pub positive : 0 < pw.page_bytes
  pub page_fits : pw.page_bytes ≤ pw.buf_watermark_bytes
  pub size : length pw.buf ≡ pw.buf_watermark_bytes + pw.page_bytes
  pub inside : pw.buffered_bytes ≤ length pw.buf

pub Room-Base : {pw : PageWriter} → Room pw → Base pw
Room-Base r = record {
  positive = r.positive;
  page_fits = r.page_fits;
  size = r.size;
  inside = omega (arith, r.room);
}

pub empty-Room : {pw : PageWriter} → Base pw → pw.buffered_bytes ≡ 0 → Room pw
empty-Room b z = record {
  positive = b.positive;
  page_fits = b.page_fits;
  size = b.size;
  room = omega (arith, b.size, z);
}

pub is_zero : (n : ℕ) → (n == 0) ≡ true → n ≡ 0
is_zero n h = ground (arith, h)

pub not_zero : {n : ℕ} → 0 < n → (n == 0) ≡ false
not_zero h = ground (arith, h)

pub not_below : {a b : ℕ} → b ≤ a → ltb a b ≡ false
not_below h = ground (arith, h)
