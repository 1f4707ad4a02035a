-- ===== src/Wal/PageWriter.antt =====
-- pkg/ioutil/pagewriter.go: a writer that hands its bytes on in whole pages or on a flush. The writer
-- under it is a parameter: a state, and what a call of `Write` makes of it, with the number of bytes it
-- reports and whether it fails.
pub mod Room
pub mod Stream
pub mod Pages
pub mod Writes
use my_raft_kv.Prelude.{
  ℕ, zero, suc, ◌+◌, ◌-◌, ◌*◌, ◌/◌, ◌%◌, Bool, true, false, Option, List, [], ◌∷◌, ◌++◌, ◌==◌,
  if◌then◌else◌, ltb, leb, length, take, drop, replicate, Result, ok, panic, ◌>>=◌,
}

pub record PageWriter : Type 0 where
  pub page_offset : ℕ
  pub page_bytes : ℕ
  pub buffered_bytes : ℕ
  pub buf : List ℕ
  pub buf_watermark_bytes : ℕ

abbrev pub default_buffer_bytes : ℕ
default_buffer_bytes = 128 * 1024

unfoldable pub new_page_writer : ℕ → ℕ → PageWriter
new_page_writer page_bytes page_offset = record {
  page_offset = page_offset;
  page_bytes = page_bytes;
  buffered_bytes = 0;
  buf = replicate (default_buffer_bytes + page_bytes) 0;
  buf_watermark_bytes = default_buffer_bytes;
}

-- `copy(dst[i:], src)`, which copies as much as there is room for.
unfoldable pub copy_at : ℕ → List ℕ → List ℕ → List ℕ
copy_at i src dst =
    let n = if leb (length src) (length dst - i) then length src else length dst - i in
    take i dst ++ (take n src ++ drop (i + n) dst)

-- The copy of `p` behind the buffered bytes, and their new number.
unfoldable pub store : PageWriter → List ℕ → Result PageWriter
unfolding copy_at
store pw p =
    if ltb (length pw.buf) pw.buffered_bytes
    then panic
    else ok (record pw {
      buf = copy_at pw.buffered_bytes p pw.buf;
      buffered_bytes = pw.buffered_bytes + length p;
    })

-- The bytes that are buffered.
unfoldable pub pending : PageWriter → List ℕ
pending pw = take pw.buffered_bytes pw.buf

abbrev pub slack_of : PageWriter → ℕ
slack_of pw = pw.page_bytes - (pw.page_offset + pw.buffered_bytes) % pw.page_bytes

-- What `Write` of the writer under it answers.
pub record Wrote (W : Type 0) : Type 0 where
  pub writer : W
  pub n : ℕ
  pub failed : Bool

-- The states of both writers, and what the call returns.
pub record Written (W : Type 0) : Type 0 where
  pub writer : W
  pub pw : PageWriter
  pub n : ℕ
  pub failed : Bool

module _ {W : Type 0} (write_under : W → List ℕ → Wrote W) where
  unfoldable pub flush : W → PageWriter → Result (Written W)
  unfolding pending
  flush w pw =
      if pw.buffered_bytes == 0
      then ok (record { writer = w; pw = pw; n = 0; failed = false })
      else if ltb (length pw.buf) pw.buffered_bytes
      then panic
      else if pw.page_bytes == 0
      then panic
      else (let r = write_under w (pending pw) in
          let emptied = record pw {
            page_offset = (pw.page_offset + pw.buffered_bytes) % pw.page_bytes;
            buffered_bytes = 0;
          } in
          ok (record { writer = r.writer; pw = emptied; n = r.n; failed = r.failed }))

  -- The last call of `Write` by itself is an argument, and so is the number of bytes that are done.
  abbrev pub tail :
      (W → PageWriter → List ℕ → Result (Written W))
      → W
      → PageWriter
      → List ℕ
      → ℕ
      → Result (Written W)
  tail next w pw p n = next w pw p >>= λ r. ok (record r { n = n + r.n })

  -- The complete pages go on at once.
  unfoldable pub pages :
      (W → PageWriter → List ℕ → Result (Written W))
      → W
      → PageWriter
      → List ℕ
      → ℕ
      → Result (Written W)
  pages next w pw p n =
      if ltb pw.page_bytes (length p)
      then (let whole = length p / pw.page_bytes * pw.page_bytes in
          let r = write_under w (take whole p) in
          if r.failed
          then ok (record { writer = r.writer; pw = pw; n = n + r.n; failed = true })
          else tail next r.writer pw (drop whole p) (n + r.n))
      else tail next w pw p n

  -- An error of the flush ends the call, which returns none.
  unfoldable pub clear :
      (W → PageWriter → List ℕ → Result (Written W))
      → W
      → PageWriter
      → List ℕ
      → ℕ
      → Result (Written W)
  unfolding flush pages
  clear next w pw p n = flush w pw >>= λ f.
      if f.failed
      then ok (record { writer = f.writer; pw = f.pw; n = n; failed = false })
      else pages next f.writer f.pw p n

  abbrev pub stored : W → PageWriter → List ℕ → Result (Written W)
  stored w pw p =
      store pw p >>= λ pw'. ok (record { writer = w; pw = pw'; n = length p; failed = false })

  unfoldable pub write_once :
      (W → PageWriter → List ℕ → Result (Written W)) → W → PageWriter → List ℕ → Result (Written W)
  unfolding store clear
  write_once next w pw p =
      if leb (length p + pw.buffered_bytes) pw.buf_watermark_bytes
      then stored w pw p
      else if pw.page_bytes == 0
      then panic
      else if slack_of pw == pw.page_bytes
      then clear next w pw p 0
      else if ltb (length p) (slack_of pw)
      then stored w pw p
      else (store pw (take (slack_of pw) p) >>= λ pw'.
          clear next w pw' (drop (slack_of pw) p) (slack_of pw))

  -- The fuel bounds the calls of `Write` by itself; a run out of it stands for the end of the stack.
  unfoldable pub write : ℕ → W → PageWriter → List ℕ → Result (Written W)
  unfolding write_once
  write zero w pw p = panic
  write (suc fuel) w pw p = write_once (write fuel) w pw p
