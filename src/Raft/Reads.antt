-- ===== src/Raft/Reads.antt =====
-- raft/raft.go: the answers to read requests.
use my_raft_kv.Prelude.{ℕ, ◌||◌, List, [], ◌∷◌, ◌++◌, ◌==◌, if◌then◌else◌, Bool, Result, ok, ◌>>=◌}
use my_raft_kv.Log.RaftLog as RLog
use my_raft_kv.Raft.Message.{RaftMessage, message, msg_hup, msg_read_index_resp}
use my_raft_kv.Raft.ReadOnly.{
  ReadOnlyOption, read_only_safe, read_only_lease_based, ReadIndexStatus, add_request, recv_ack,
  request_ctx_of,
}
use my_raft_kv.Raft.State.{Raft, send}
use my_raft_kv.Raft.Replicate.{bcast_heartbeat_with_ctx}

-- `RaftMessage{}` is the empty message, to nobody.
unfoldable pub response_to_read_index_req : Raft → RaftMessage → ℕ → Result (Raft × RaftMessage)
response_to_read_index_req r req read_index =
    if (req.from == 0) || (req.from == r.id)
    then (request_ctx_of req >>= λ ctx. ok (
      record r {
        read_states = r.read_states ++ record { index = read_index; request_ctx = ctx } ∷ [];
      },
      message msg_hup 0,
    ))
    else ok (
      r,
      record (message msg_read_index_resp req.from) { index = read_index; entries = req.entries },
    )

-- `if resp := r.responseToReadIndexReq(...); resp.To != None { r.send(resp) }`
unfoldable pub respond : Raft → RaftMessage → ℕ → Result Raft
unfolding response_to_read_index_req send
respond r req read_index = response_to_read_index_req r req read_index >>= λ (r', resp).
    if resp.to == 0 then ok r' else send r' resp

-- The loop over the requests that a quorum has acknowledged.
unfoldable pub respond_all : List ReadIndexStatus → Raft → Result Raft
unfolding respond
respond_all [] r = ok r
respond_all (rs ∷ rss) r = respond r rs.req rs.index >>= respond_all rss

unfoldable pub committed_entry_in_current_term : Raft → Result Bool
committed_entry_in_current_term r =
    RLog.zero_term_on_err_compacted (RLog.term r.raft_log r.raft_log.committed) >>= λ t.
    ok (t == r.term)

abbrev pub answer_by : ReadOnlyOption → Raft → RaftMessage → Result Raft
answer_by read_only_safe r m = add_request r.read_only r.raft_log.committed m >>= λ ro.
    request_ctx_of m >>= λ ctx.
    bcast_heartbeat_with_ctx ctx (record r { read_only = (recv_ack ro r.id ctx).0 })
answer_by read_only_lease_based r m = respond r m r.raft_log.committed

unfoldable pub send_msg_read_index_response : Raft → RaftMessage → Result Raft
unfolding add_request recv_ack bcast_heartbeat_with_ctx respond
send_msg_read_index_response r m = answer_by r.read_only.option r m

unfoldable pub answer_all : List RaftMessage → Raft → Result Raft
unfolding send_msg_read_index_response
answer_all [] r = ok r
answer_all (m ∷ ms) r = send_msg_read_index_response r m >>= answer_all ms

unfoldable pub release_pending_read_index_messages : Raft → Result Raft
unfolding committed_entry_in_current_term answer_all
release_pending_read_index_messages r = committed_entry_in_current_term r >>= λ current.
    if current
    then answer_all r.pending_read_index_messages (record r { pending_read_index_messages = [] })
    else ok r
