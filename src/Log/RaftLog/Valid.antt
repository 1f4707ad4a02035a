-- ===== src/Log/RaftLog/Valid.antt =====
-- When a log is sound: its first and last index are known, the terms between can be read, and what is
-- committed and applied lies inside.
use my_raft_kv.Prelude.{
  ℕ, suc, ◌+◌, ◌^◌, ◌≤◌, ◌<◌, ◌≡◌, refl, ◌⊎◌, none, some, [], length, arith, ok, panic, add64,
  sub64, max_uint64,
}
use my_raft_kv.Log.Storage.{Storage, MemoryStorage, as_storage}
use my_raft_kv.Log.Storage.Contiguous
use my_raft_kv.Log.Unstable.{maybe_first_index, maybe_last_index, maybe_term}
use my_raft_kv.Log.RaftLog.{RaftLog, new_log, first_index, last_index, term}

-- What a log relies on of its storage: an index range, and a term for each index of it and for the
-- one before.
pub record Lawful (st : Storage) : Type 0 where
  pub first : ℕ
  pub last : ℕ
  pub first_is : st.first_index ≡ ok first
  pub last_is : st.last_index ≡ ok last
  pub positive : 0 < first
  pub order : first ≤ suc last
  pub small : suc last < 2 ^ 64
  pub readable : (i : ℕ) → first ≤ suc i → i ≤ last → (t : ℕ) × (st.term i ≡ ok t)

-- A valid memory storage is such a storage.
pub as_storage-Lawful : {ms : MemoryStorage} → Contiguous.IsValid ms → Lawful (as_storage ms)
unfolding as_storage
as_storage-Lawful {ms} v = record {
  first = v.dummy.index + 1;
  last = v.dummy.index + length v.log;
  first_is = Contiguous.first_index_lem v;
  last_is = Contiguous.last_index_lem v;
  positive = omega arith;
  order = omega arith;
  small = omega (arith, v.small);
  readable = λ i p q. let (e, g, r) = Contiguous.term_held v i (omega (arith, p)) q in (e.term, r);
}

pub record IsValid (rl : RaftLog) : Type 0 where
  pub first : ℕ
  pub last : ℕ
  pub first_is : first_index rl ≡ ok first
  pub last_is : last_index rl ≡ ok last
  pub positive : 0 < first
  pub order : first ≤ suc last
  pub small : suc last < 2 ^ 64
  pub readable : (i : ℕ) → first ≤ suc i → i ≤ last → (t : ℕ) × (term rl i ≡ ok t)
  pub committed_in : rl.committed ≤ last
  pub applied_in : rl.applied ≤ rl.committed

-- `newLog` over a storage that keeps to the interface gives a valid log with the storage's range,
-- nothing unstable, and everything before the first index committed and applied; over a nil storage
-- it panics.
pub new_log-IsValid :
    {st : Storage} (l : Lawful st)
    → ((rl : RaftLog) × (new_log (some st) ≡ ok rl)
        × (v : IsValid rl) × (v.first ≡ l.first)
        × (v.last ≡ l.last)
        × (rl.committed + 1 ≡ l.first)
        × (rl.applied + 1 ≡ l.first)
        × (rl.unstable.offset ≡ l.last + 1))
      × (new_log none ≡ panic)
unfolding new_log first_index last_index term maybe_first_index maybe_last_index maybe_term
new_log-IsValid {st} l = (
  (
    rl,
    rw (l.first_is, l.last_is, new_log),
    v,
    refl,
    refl,
    omega (arith, l.positive, l.order, l.small),
    omega (arith, l.positive, l.order, l.small),
    omega (arith, l.small),
  ),
  refl,
)
  where
    rl : RaftLog
    rl = record {
      storage = st;
      unstable = record { snap = none; entries = []; offset = add64 l.last 1 };
      committed = sub64 l.first 1;
      applied = sub64 l.first 1;
      max_next_ents_size = max_uint64;
    }

    f : first_index rl ≡ ok l.first
    f = rw l.first_is

    g : last_index rl ≡ ok l.last
    g = rw l.last_is

    v : IsValid rl
    v = record {
      first = l.first;
      last = l.last;
      first_is = f;
      last_is = g;
      positive = l.positive;
      order = l.order;
      small = l.small;
      readable = λ i p q.
          let (t, e) = l.readable i p q in
          (t, rw (l.first_is, l.last_is, e) (ground (arith, p, q, l.small)));
      committed_in = omega (arith, l.positive, l.order, l.small);
      applied_in = omega arith;
    }

-- Outside its range a log answers term 0.
pub term_outside :
    {rl : RaftLog} (v : IsValid rl) (i : ℕ) → (suc i < v.first) ⊎ (v.last < i) → term rl i ≡ ok 0
unfolding term
term_outside v i h = rw (v.first_is, v.last_is, term) (ground (arith, v.positive, v.small, v.order))
