-- ===== src/Raft/ReadOnly.antt =====
-- raft/read_only.go: the read requests that wait for the acknowledgement of a quorum, by the context
-- of their request, and the queue of the contexts in their order.
use my_raft_kv.Prelude.{
  ℕ, Bool, true, false, ◌&&◌, Option, none, some, List, [], ◌∷◌, ◌++◌, ◌==◌, if◌then◌else◌, insert,
  get_elem?, Result, ok, ◌>>=◌, deref,
}
use my_raft_kv.Raft.Message.{RaftMessage}

pub data ReadOnlyOption : Type 0 where
  read_only_safe read_only_lease_based : ReadOnlyOption

pub record ReadState : Type 0 where
  pub index : ℕ
  pub request_ctx : List ℕ

pub record ReadIndexStatus : Type 0 where
  pub req : RaftMessage
  pub index : ℕ
  pub acks : List (ℕ × Bool)

-- The map from a context to the status of its request: its keys are byte strings.
pub record ReadOnly : Type 0 where
  pub option : ReadOnlyOption
  pub pending_read_index : List (List ℕ × ReadIndexStatus)
  pub read_index_queue : List (List ℕ)

unfoldable pub same_bytes : List ℕ → List ℕ → Bool
same_bytes [] [] = true
same_bytes [] (b ∷ bs) = false
same_bytes (a ∷ bytes) [] = false
same_bytes (a ∷ bytes) (b ∷ bs) = (a == b) && same_bytes bytes bs

unfoldable pub find_pending : List ℕ → List (List ℕ × ReadIndexStatus) → Option ReadIndexStatus
unfolding same_bytes
find_pending ctx [] = none
find_pending ctx ((key, rs) ∷ rest) = if same_bytes key ctx then some rs else find_pending ctx rest

unfoldable pub put_pending :
    List ℕ → ReadIndexStatus → List (List ℕ × ReadIndexStatus) → List (List ℕ × ReadIndexStatus)
unfolding same_bytes
put_pending ctx new [] = (ctx, new) ∷ []
put_pending ctx new ((key, rs) ∷ rest) =
    if same_bytes key ctx then (key, new) ∷ rest else (key, rs) ∷ put_pending ctx new rest

unfoldable pub drop_pending :
    List ℕ → List (List ℕ × ReadIndexStatus) → List (List ℕ × ReadIndexStatus)
unfolding same_bytes
drop_pending ctx [] = []
drop_pending ctx ((key, rs) ∷ rest) =
    let kept = drop_pending ctx rest in if same_bytes key ctx then kept else (key, rs) ∷ kept

unfoldable pub new_read_only : ReadOnlyOption → ReadOnly
new_read_only option = record { option = option; pending_read_index = []; read_index_queue = [] }

-- `m.Entries[0].Data`
abbrev pub request_ctx_of : RaftMessage → Result (List ℕ)
request_ctx_of m = deref (get_elem? m.entries 0) >>= λ e. ok e.payload

abbrev enqueue : ReadOnly → ℕ → RaftMessage → List ℕ → Option ReadIndexStatus → ReadOnly
enqueue ro index m s (some _) = ro
enqueue ro index m s none = record ro {
  pending_read_index =
      put_pending s (record { req = m; index = index; acks = [] }) ro.pending_read_index;
  read_index_queue = ro.read_index_queue ++ s ∷ [];
}

unfoldable pub add_request : ReadOnly → ℕ → RaftMessage → Result ReadOnly
unfolding put_pending find_pending
add_request ro index m =
    request_ctx_of m >>= λ s. ok (enqueue ro index m s (find_pending s ro.pending_read_index))

abbrev ack : ReadOnly → ℕ → List ℕ → Option ReadIndexStatus → ReadOnly × List (ℕ × Bool)
ack ro id context none = (ro, [])
ack ro id context (some rs) =
    let acks = insert id true rs.acks in
    (
      record ro {
        pending_read_index = put_pending context (record rs { acks = acks }) ro.pending_read_index;
      },
      acks,
    )

unfoldable pub recv_ack : ReadOnly → ℕ → List ℕ → ReadOnly × List (ℕ × Bool)
unfolding find_pending put_pending insert
recv_ack ro id context = ack ro id context (find_pending context ro.pending_read_index)

abbrev last_ctx : List ℕ → List (List ℕ) → List ℕ
last_ctx ctx [] = ctx
last_ctx ctx (c ∷ cs) = last_ctx c cs

-- The empty string where the queue is empty.
unfoldable pub last_pending_request_ctx : ReadOnly → List ℕ
last_pending_request_ctx ro = last_ctx [] ro.read_index_queue

-- The loop of `advance`: the requests up to the one of the context, and the queue after it; `none`
-- when the context is not in the queue.
unfoldable pub collect :
    List (List ℕ × ReadIndexStatus)
    → List ℕ
    → List (List ℕ)
    → Result (Option (List ReadIndexStatus × List (List ℕ)))
unfolding find_pending
collect pending ctx [] = ok none
collect pending ctx (okctx ∷ queue) =
    let rest = collect pending ctx queue in
    deref (find_pending okctx pending) >>= λ rs.
    if same_bytes okctx ctx
    then ok (some (rs ∷ [], queue))
    else (rest >>= λ found. ok (elim found [ none ↦ none | some (rss, q) ↦ some (rs ∷ rss, q) ]))

-- `delete(ro.pendingReadIndex, string(rs.req.Entries[0].Data))` for each request.
unfoldable pub forget :
    List ReadIndexStatus
    → List (List ℕ × ReadIndexStatus)
    → Result (List (List ℕ × ReadIndexStatus))
unfolding drop_pending
forget [] pending = ok pending
forget (rs ∷ rss) pending = request_ctx_of rs.req >>= λ s. forget rss (drop_pending s pending)

abbrev released :
    ReadOnly
    → Option (List ReadIndexStatus × List (List ℕ))
    → Result (ReadOnly × List ReadIndexStatus)
released ro none = ok (ro, [])
released ro (some (rss, queue)) = forget rss ro.pending_read_index >>= λ pending.
    ok (record ro { pending_read_index = pending; read_index_queue = queue }, rss)

unfoldable pub advance : ReadOnly → RaftMessage → Result (ReadOnly × List ReadIndexStatus)
unfolding collect forget
advance ro m =
    collect ro.pending_read_index m.context ro.read_index_queue >>= λ found. released ro found
