-- ===== src/Node/Loop.antt =====
-- raft/node.go: `run`, the loop that owns a raft and serves its channels. A turn of the loop looks
-- at the node and then takes one of the communications that can proceed; which of them it takes is
-- an argument. `ProposeConfChange` and `StartNode` are left out: the first does nothing, and the
-- second calls `newRaft`, which panics.
pub mod Turns
use my_raft_kv.Prelude.{
  ℕ, Bool, true, false, ◌&&◌, not, Option, none, some, List, [], ◌∷◌, ◌==◌, if◌then◌else◌, ◌≡◌,
  Error, Result, ok, ◌>>=◌,
}
use my_raft_kv.Raft.Message.{RaftMessage}
use my_raft_kv.Raft.State.{Raft, has_leader}
use my_raft_kv.Raft.Step.{step}
use my_raft_kv.Node.RawNode as Raw
use my_raft_kv.Node.RawNode.{RawNode, Ready, empty_ready, step_raft, knows_sender}
use my_raft_kv.Node.Status.{Status, get_status}

-- Which of a node's channels are made. A nil channel never proceeds.
pub record Channels : Type 0 where
  pub propc : Bool
  pub recvc : Bool
  pub confc : Bool
  pub readyc : Bool
  pub advancec : Bool
  pub tickc : Bool
  pub done : Bool
  pub stop : Bool
  pub status : Bool

unfoldable pub new_node : Channels
new_node = record {
  propc = false;
  recvc = false;
  confc = false;
  readyc = false;
  advancec = false;
  tickc = false;
  done = false;
  stop = false;
  status = true;
}

-- The variables of `run`: of the channels, whether the variable is not nil.
pub record Loop : Type 0 where
  pub rn : RawNode
  pub lead : ℕ
  pub propc : Bool
  pub readyc : Bool
  pub advancec : Bool
  pub rd : Ready
  pub stopped : Bool

unfoldable pub begin : RawNode → Loop
begin rn = record {
  rn = rn;
  lead = 0;
  propc = false;
  readyc = false;
  advancec = false;
  rd = empty_ready;
  stopped = false;
}

-- The first `if` of a turn.
unfoldable pub look : Channels → Loop → Result Loop
unfolding Raw.has_ready Raw.ready_without_accept
look ch l =
    if l.advancec
    then ok (record l { readyc = false })
    else (Raw.has_ready l.rn >>= λ news.
        ok
          (if news then record l { rd = Raw.ready_without_accept l.rn; readyc = ch.readyc } else l))

-- The second: proposals are taken while there is a leader.
unfoldable pub follow_lead : Channels → Loop → Loop
unfolding has_leader
follow_lead ch l =
    if l.lead == l.rn.raft.lead
    then l
    else record l { propc = has_leader l.rn.raft && ch.propc; lead = l.rn.raft.lead }

unfoldable pub prepare : Channels → Loop → Result Loop
unfolding look follow_lead
prepare ch l = look ch l >>= λ l'. ok (follow_lead ch l')

-- The cases of the `select`, with what they receive. A proposal says whether its sender waits for
-- the result.
pub data Event : Type 0 where
  proposed : RaftMessage → Bool → Event
  received : RaftMessage → Event
  conf_changed : Event
  ticked : Event
  handed : Event
  advanced : Event
  asked_status : Event
  told_to_stop : Event

unfoldable pub enabled : Channels → Loop → Event → Bool
enabled ch l (proposed m waits) = l.propc
enabled ch l (received m) = ch.recvc
enabled ch l conf_changed = ch.confc
enabled ch l ticked = ch.tickc
enabled ch l handed = l.readyc
enabled ch l advanced = l.advancec
enabled ch l asked_status = ch.status
enabled ch l told_to_stop = ch.stop

-- What a case sends.
pub data Output : Type 0 where
  nothing : Output
  answered : Option Error → Output
  gave : Ready → Output
  told : Status → Output

abbrev pub silent : Loop → Result (Loop × Output)
silent l = ok (l, nothing)

abbrev pub moved : Loop → RawNode → Loop
moved l rn = record l { rn = rn }

abbrev answer_if : Bool → Option Error → Output
answer_if true e = answered e
answer_if false e = nothing

unfoldable pub handle : Channels → Loop → Event → Result (Loop × Output)
unfolding step Raw.tick Raw.accept_ready Raw.advance get_status
handle ch l (proposed m waits) = step_raft l.rn (record m { from = l.rn.raft.id }) >>= λ (rn, e).
    ok (moved l rn, answer_if waits e)
handle ch l (received m) =
    if knows_sender l.rn.raft m
    then (step_raft l.rn m >>= λ (rn, e). silent (moved l rn))
    else silent l
handle ch l conf_changed = silent l
handle ch l ticked = Raw.tick l.rn >>= λ rn. silent (moved l rn)
handle ch l handed =
    ok (record (moved l (Raw.accept_ready l.rn l.rd)) { advancec = ch.advancec }, gave l.rd)
handle ch l advanced =
    silent (record (moved l (Raw.advance l.rn l.rd)) { rd = empty_ready; advancec = false })
handle ch l asked_status = get_status l.rn.raft >>= λ s. ok (l, told s)
handle ch l told_to_stop = silent (record l { stopped = true })
