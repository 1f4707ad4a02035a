-- ===== src/Raft/State.antt =====
-- The state of a node, `raft` of raft/raft.go, and the operations that every handler uses. The logger
-- is there (`newRaft` does not set one); its calls are left out, with the reads of their arguments
-- that cannot panic. Go's `int` fields are not negative.
use my_raft_kv.Prelude.{
  ℕ, ◌+◌, Bool, true, false, ◌&&◌, ◌||◌, not, Option, none, some, List, [], ◌∷◌, ◌++◌, leb, ltb,
  ◌==◌, if◌then◌else◌, lookup, add64, Error, Result, ok, panic, ◌>>=◌, deref, none_as_id,
  heartbeat_not_positive, election_not_above_heartbeat,
}
use my_raft_kv.Log.Entries.{
  Entry, EntryType, entry_normal, entry_conf_change, HardState, payload_size,
}
use my_raft_kv.Log.RaftLog as RLog
use my_raft_kv.Tracker.{ProgressTracker, set_progress, committed}
use my_raft_kv.Tracker.Progress as Prog
use my_raft_kv.Raft.Message.{
  MessageType, msg_vote, msg_vote_resp, msg_timeout_now, RaftMessage, message, same_type,
}
use my_raft_kv.Raft.ReadOnly.{ReadOnly, ReadState}

pub data StateType : Type 0 where
  state_follower state_candidate state_leader state_pre_candidate : StateType

pub data CampaignType : Type 0 where
  campaign_pre_election campaign_election campaign_transfer : CampaignType

-- The functions that `step` and `tick` point to.
pub data StepFunc : Type 0 where
  step_nil step_follower step_candidate step_leader : StepFunc

pub data TickFunc : Type 0 where
  tick_nil tick_election tick_heart_beat : TickFunc

pub record Config : Type 0 where
  pub id : ℕ
  pub election_tick : ℕ
  pub heartbeat_tick : ℕ

unfoldable pub validate : Config → Option Error
validate c =
    if c.id == 0
    then some none_as_id
    else if leb c.heartbeat_tick 0
    then some heartbeat_not_positive
    else if leb c.election_tick c.heartbeat_tick
    then some election_not_above_heartbeat
    else none

-- `draws n k` is what the n-th call of `rand.Intn` answers for `k`, and `drawn` counts the calls.
pub record Raft : Type 0 where
  pub id : ℕ
  pub term : ℕ
  pub vote : ℕ
  pub max_msg_size : ℕ
  pub max_uncommitted_size : ℕ
  pub read_states : List ReadState
  pub read_only : ReadOnly
  pub state : StateType
  pub election_timeout : ℕ
  pub heartbeat_timeout : ℕ
  pub randomized_election_timeout : ℕ
  pub disable_proposal_forwarding : Bool
  pub election_elapsed : ℕ
  pub heartbeat_elapsed : ℕ
  pub check_quorum : Bool
  pub pre_vote : Bool
  pub lead : ℕ
  pub lead_transferee : ℕ
  pub tick : TickFunc
  pub step : StepFunc
  pub raft_log : RLog.RaftLog
  pub msgs : List RaftMessage
  pub trk : ProgressTracker
  pub pending_conf_index : ℕ
  pub pending_read_index_messages : List RaftMessage
  pub uncommitted_size : ℕ
  pub draws : ℕ → ℕ → ℕ
  pub drawn : ℕ

abbrev pub is_leader : StateType → Bool
is_leader state_leader = true
is_leader _ = false

abbrev pub is_follower : StateType → Bool
is_follower state_follower = true
is_follower _ = false

unfoldable pub has_leader : Raft → Bool
has_leader r = not (r.lead == 0)

pub record SoftState : Type 0 where
  pub lead : ℕ
  pub raft_state : StateType

unfoldable pub soft_state : Raft → SoftState
soft_state r = record { lead = r.lead; raft_state = r.state }

unfoldable pub hard_state : Raft → HardState
hard_state r = record { term = r.term; vote = r.vote; commit = r.raft_log.committed }

-- `rand.Intn` panics where its argument is not positive.
unfoldable pub reset_randomized_election_timeout : Raft → Result Raft
reset_randomized_election_timeout r =
    if r.election_timeout == 0
    then panic
    else ok (record r {
      randomized_election_timeout = r.election_timeout + r.draws r.drawn r.election_timeout;
      drawn = r.drawn + 1;
    })

abbrev count_conf : EntryType → ℕ → ℕ
count_conf entry_conf_change n = n + 1
count_conf entry_normal n = n

unfoldable pub num_of_pending_conf : List Entry → ℕ
num_of_pending_conf [] = 0
num_of_pending_conf (e ∷ ents) = count_conf e.type (num_of_pending_conf ents)

abbrev pub with_from : Raft → RaftMessage → RaftMessage
with_from r m = if m.from == 0 then record m { from = r.id } else m

abbrev pub carries_term : MessageType → Bool
carries_term t = same_type t msg_vote || same_type t msg_vote_resp

-- A message other than these two must not have a term; `send` gives it none.
unfoldable pub send : Raft → RaftMessage → Result Raft
send r m =
    let sent = record r { msgs = r.msgs ++ with_from r m ∷ [] } in
    if carries_term m.type
    then (if m.term == 0 then panic else ok sent)
    else if m.term == 0
    then ok sent
    else panic

unfoldable pub send_timeout_now : Raft → ℕ → Result Raft
unfolding send
send_timeout_now r to = send r (message msg_timeout_now to)

abbrev pub abort_leader_transfer : Raft → Raft
abort_leader_transfer r = record r { lead_transferee = 0 }

abbrev pub enter_term : Raft → ℕ → Raft
enter_term r term = if r.term == term then r else record r { term = term; vote = 0 }

unfoldable pub reset : Raft → ℕ → Result Raft
unfolding reset_randomized_election_timeout
reset r term =
    reset_randomized_election_timeout
      (record (enter_term r term) { lead = 0; election_elapsed = 0; heartbeat_elapsed = 0 })
    >>= λ r'. ok (abort_leader_transfer r')

unfoldable pub total_payload : List Entry → ℕ
total_payload [] = 0
total_payload (e ∷ ents) = add64 (payload_size e) (total_payload ents)

unfoldable pub increase_uncommitted_size : Raft → List Entry → Raft × Bool
unfolding total_payload
increase_uncommitted_size r ents =
    let s = total_payload ents in
    if ltb 0 r.uncommitted_size
      && (ltb 0 s && ltb r.max_uncommitted_size (add64 r.uncommitted_size s))
    then (r, false)
    else (record r { uncommitted_size = add64 r.uncommitted_size s }, true)

unfoldable pub maybe_commit : Raft → Result (Raft × Bool)
unfolding committed
maybe_commit r = RLog.maybe_commit r.raft_log (committed r.trk) r.term >>= λ (log, moved).
    ok (record r { raft_log = log }, moved)

-- `es[i].Term = r.Term` and `es[i].Index = li + 1 + uint64(i)`, with `next` for `li + 1`.
unfoldable pub number_entries : ℕ → ℕ → List Entry → List Entry
number_entries term next [] = []
number_entries term next (e ∷ es) =
    record e { term = term; index = next } ∷ number_entries term (add64 next 1) es

abbrev pub progress_of : Raft → ℕ → Option Prog.Progress
progress_of r id = lookup id r.trk.progress

abbrev pub with_progress : Raft → ℕ → Prog.Progress → Raft
with_progress r id pr = record r { trk = set_progress r.trk id pr }

-- `appendEntry` after the size is counted.
abbrev pub log_entries : Raft × Bool → List Entry → Result (Raft × Bool)
log_entries (r, false) es = ok (r, false)
log_entries (r, true) es = RLog.append r.raft_log es >>= λ (log, last).
    deref (progress_of r r.id) >>= λ pr.
    maybe_commit (with_progress (record r { raft_log = log }) r.id (Prog.maybe_update pr last).0)
    >>= λ (r', moved). ok (r', true)

unfoldable pub append_entry : Raft → List Entry → Result (Raft × Bool)
unfolding increase_uncommitted_size number_entries maybe_commit
append_entry r es = RLog.last_index r.raft_log >>= λ li.
    let numbered = number_entries r.term (add64 li 1) es in
    log_entries (increase_uncommitted_size r numbered) numbered

abbrev is_member : Option Prog.Progress → Bool
is_member none = false
is_member (some pr) = not pr.is_learner

unfoldable pub promotable : Raft → Bool
promotable r = is_member (progress_of r r.id) && not (RLog.has_pending_snapshot r.raft_log)

unfoldable pub past_election_timeout : Raft → Bool
past_election_timeout r = leb r.randomized_election_timeout r.election_elapsed
