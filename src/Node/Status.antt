-- ===== src/Node/Status.antt =====
-- raft/status.go: what a node tells of itself.
pub mod Copies
use my_raft_kv.Prelude.{
  ℕ, List, [], ◌∷◌, Option, lookup, insert, if◌then◌else◌, Result, ok, panic, ◌>>=◌, deref,
}
use my_raft_kv.Log.Entries.{HardState}
use my_raft_kv.Quorum.{JointConfig}
use my_raft_kv.Tracker.{clone_config}
use my_raft_kv.Tracker.Progress.{Progress}
use my_raft_kv.Tracker.Inflights as Flights
use my_raft_kv.Tracker.Visit.{visit_ids}
use my_raft_kv.Raft.State.{Raft, SoftState, soft_state, hard_state, is_leader}

pub record BaseStatus : Type 0 where
  pub id : ℕ
  pub hard_state : HardState
  pub soft_state : SoftState
  pub applied : ℕ
  pub lead_transferee : ℕ

-- The map of a node that is not the leader is nil.
pub record Status : Type 0 where
  pub base : BaseStatus
  pub config : JointConfig
  pub progress : List (ℕ × Progress)

-- `p := *pr` with a clone of its inflights.
abbrev pub copy_of : Progress → Progress
copy_of pr = record pr { inflights = Flights.clone pr.inflights }

unfoldable pub copy_ids :
    List (ℕ × Progress) → List ℕ → List (ℕ × Progress) → Result (List (ℕ × Progress))
unfolding Flights.clone lookup insert
copy_ids progress [] m = ok m
copy_ids progress (id ∷ ids) m =
    deref (lookup id progress) >>= λ pr. copy_ids progress ids (insert id (copy_of pr) m)

unfoldable pub get_progress_copy : Raft → Result (List (ℕ × Progress))
unfolding copy_ids visit_ids
get_progress_copy r = copy_ids r.trk.progress (visit_ids r.trk) []

unfoldable pub get_basic_status : Raft → BaseStatus
unfolding soft_state hard_state
get_basic_status r = record {
  id = r.id;
  hard_state = hard_state r;
  soft_state = soft_state r;
  applied = r.raft_log.applied;
  lead_transferee = r.lead_transferee;
}

unfoldable pub get_status : Raft → Result Status
unfolding get_progress_copy get_basic_status clone_config
get_status r =
    (if is_leader (soft_state r).raft_state then get_progress_copy r else ok []) >>= λ progress.
    ok (record {
      base = get_basic_status r;
      config = clone_config r.trk.voters;
      progress = progress;
    })
