-- ===== src/Node/Runs.antt =====
-- raft/rawnode.go as a machine: a call of one of its methods is a step, and a run is any sequence of
-- calls that return.
use my_raft_kv.Prelude.{
  ℕ, ◌+◌, ◌^◌, ◌≤◌, ◌<◌, Bool, true, false, List, [], ◌∷◌, ◌≡◌, refl, ◌⊎◌, if◌then◌else◌, arith,
  Always, Always-ok, Always-panic, Always-if, Always-then, Result, ok, ◌>>=◌,
}
use my_raft_kv.Log.RaftLog.Rising.{Risen}
use my_raft_kv.Raft.Message.{
  RaftMessage, message, msg_hup, msg_transfer_leader, msg_read_index, is_local_msg,
}
use my_raft_kv.Raft.State.{Raft, TickFunc, tick_nil, tick_election, tick_heart_beat}
use my_raft_kv.Raft.Step as Step
use my_raft_kv.Raft.Step.{from_leader}
use my_raft_kv.Raft.Later.{Small}
use my_raft_kv.Node.RawNode as Raw
use my_raft_kv.Node.RawNode.{
  RawNode, Ready, step_raft, state_of, proposal, entry_of, knows_sender, ticked,
  is_empty_hard_state,
}
use my_raft_kv.Node.Forward.{
  Forward, Forward-refl, Forward-still, Forward-trans, step-Forward, tick_election-Forward,
  tick_heart_beat-Forward,
}

pub data Call : Type 0 where
  tick : Call
  tick_quiesced : Call
  campaign : Call
  propose : List ℕ → Call
  step : RaftMessage → Call
  ready : Call
  advance : Ready → Call
  transfer_leader : ℕ → Call
  read_index : List ℕ → Call

-- The node that a call leaves; what it returns besides is dropped.
unfoldable pub run_call : RawNode → Call → Result RawNode
unfolding Raw.tick Raw.tick_quiesced Raw.campaign Raw.propose Raw.step_node Raw.ready Raw.advance
    Raw.transfer_leader Raw.read_index
run_call rn tick = Raw.tick rn
run_call rn tick_quiesced = ok (Raw.tick_quiesced rn)
run_call rn campaign = Raw.campaign rn >>= λ s. ok (state_of s)
run_call rn (propose payload) = Raw.propose rn payload >>= λ s. ok (state_of s)
run_call rn (step m) = Raw.step_node rn m >>= λ s. ok (state_of s)
run_call rn ready = ok (Raw.ready rn).0
run_call rn (advance rd) = ok (Raw.advance rn rd)
run_call rn (transfer_leader transferee) = Raw.transfer_leader rn transferee
run_call rn (read_index rctx) = Raw.read_index rn rctx

-- A message from another node has a term that can be raised by one, and is of term 0 only if it is
-- not one that only a leader sends.
pub record Received (m : RaftMessage) : Type 0 where
  pub term_small : m.term + 1 < 2 ^ 64
  pub no_leader : m.term ≡ 0 → from_leader m.type ≡ false

unfoldable pub Allowed : Call → Type 0
Allowed (step m) = Received m
Allowed _ = Unit

pub data Runs (rn : RawNode) : RawNode → Type 0 where
  start : Runs rn rn
  call :
      {rn' rn'' : RawNode} (c : Call)
      → Runs rn rn'
      → Small rn'.raft
      → Allowed c
      → run_call rn' c ≡ ok rn''
      → Runs rn rn''

step_raft-Forward :
    (rn : RawNode) (m : RaftMessage)
    → Small rn.raft
    → Received m
    → Always (λ s. Forward rn.raft (state_of s).raft) (step_raft rn m)
step_raft-Forward rn m p q =
    Always-then (step-Forward rn.raft m p q.term_small q.no_leader) (λ s f. Always-ok f)

-- A message that the node makes itself has term 0 and is not one that only a leader sends.
own_step :
    (rn : RawNode) (m : RaftMessage)
    → Small rn.raft
    → m.term ≡ 0
    → from_leader m.type ≡ false
    → Always (λ rn'. Forward rn.raft rn'.raft) (step_raft rn m >>= λ s. ok (state_of s))
own_step rn m p z l =
    Always-then
      (step_raft-Forward rn m p (record { term_small = omega (arith, z); no_leader = λ e. l }))
      (λ s f. Always-ok f)

ticked-Forward : (t : TickFunc) (r : Raft) → Small r → Always (Forward r) (ticked t r)
unfolding Step.tick_election Step.tick_heart_beat
ticked-Forward tick_nil r p = Always-panic
ticked-Forward tick_election r p = tick_election-Forward r p
ticked-Forward tick_heart_beat r p = tick_heart_beat-Forward r p

step_node-Forward :
    (rn : RawNode) (m : RaftMessage)
    → Small rn.raft
    → Received m
    → Always (λ s. Forward rn.raft (state_of s).raft) (Raw.step_node rn m)
unfolding Raw.step_node
step_node-Forward rn m p q =
    Always-if (is_local_msg m.type) (Always-ok Forward-refl)
      (Always-if (knows_sender rn.raft m) (step_raft-Forward rn m p q) (Always-ok Forward-refl))

run_call-Forward :
    (rn : RawNode) (c : Call)
    → Small rn.raft
    → Allowed c
    → Always (λ rn'. Forward rn.raft rn'.raft) (run_call rn c)
unfolding run_call Allowed Raw.tick Raw.tick_quiesced Raw.campaign Raw.propose Raw.ready
    Raw.ready_without_accept Raw.new_ready Raw.accept_ready Raw.advance Raw.transfer_leader
    Raw.read_index
run_call-Forward rn tick p a =
    Always-then (ticked-Forward rn.raft.tick rn.raft p) (λ r f. Always-ok f)
run_call-Forward rn tick_quiesced p a = Always-ok (Forward-still refl refl refl refl)
run_call-Forward rn campaign p a = own_step rn (message msg_hup 0) p refl refl
run_call-Forward rn (propose payload) p a = own_step rn (proposal rn.raft.id payload) p refl refl
run_call-Forward rn (step m) p a = Always-then (step_node-Forward rn m p a) (λ s f. Always-ok f)
run_call-Forward rn ready p a = Always-ok (Forward-still refl refl refl refl)
run_call-Forward rn (advance rd) p a = Always-ok (kept (is_empty_hard_state rd.hard_state))
  where
    kept :
        (b : Bool)
        → Forward rn.raft (if b then rn else record rn { pre_hard_st = rd.hard_state }).raft
    kept true = Forward-refl
    kept false = Forward-refl
run_call-Forward rn (transfer_leader transferee) p a =
    own_step rn (record (message msg_transfer_leader 0) { from = transferee }) p refl refl
run_call-Forward rn (read_index rctx) p a =
    own_step rn (record (message msg_read_index 0) { entries = entry_of rctx ∷ [] }) p refl refl

Runs-Forward : {rn rn' : RawNode} → Runs rn rn' → Forward rn.raft rn'.raft
Runs-Forward start = Forward-refl
Runs-Forward (call {rn'} {rn''} c t p a e) =
    Forward-trans (Runs-Forward t) ((run_call-Forward rn' c p a).returned rn'' e)

-- However the methods of a raw node are called, and as long as the calls return: the term does not
-- fall, a vote that was cast is kept as long as the term is the same, and the commit index does not
-- fall. Before every call the term is below 2 ^ 64 - 1, and a message that is passed to `Step` has a
-- term below that, which is 0 only if its type is not one that only a leader sends.
pub Runs-keep_promises :
    {rn rn' : RawNode}
    → Runs rn rn'
    → (rn.raft.term ≤ rn'.raft.term)
      × (rn'.raft.term ≡ rn.raft.term → (rn.raft.vote ≡ 0) ⊎ (rn'.raft.vote ≡ rn.raft.vote))
      × (rn.raft.raft_log.committed ≤ rn'.raft.raft_log.committed)
unfolding Risen
Runs-keep_promises {rn} {rn'} t =
    let f : Forward rn.raft rn'.raft = Runs-Forward t in (f.term_up, f.one_vote, f.risen)
