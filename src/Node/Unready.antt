-- ===== src/Node/Unready.antt =====
-- A node that has not told its user of its leader and state never does, and its loop never turns.
use my_raft_kv.Prelude.{
  ◌==◌, Bool, true, false, Option, none, List, [], ◌∷◌, ◌≡◌, refl, sym, ap, ◌∙◌, if◌then◌else◌,
  Always, Always-ok, Always-err, Always-if, Always-then, Always-after, Result, ok, panic, ◌>>=◌,
  Error,
}
use my_raft_kv.Raft.Message.{
  RaftMessage, message, msg_hup, msg_transfer_leader, msg_read_index, is_local_msg,
}
use my_raft_kv.Raft.Step.{step}
use my_raft_kv.Node.RawNode as Raw
use my_raft_kv.Node.RawNode.{
  RawNode, Ready, Peer, ticked, step_raft, state_of, proposal, entry_of, knows_sender, has_ready,
  is_empty_hard_state,
}
use my_raft_kv.Node.Loop.{Channels, Loop, begin, look, prepare, Event}
use my_raft_kv.Node.Loop.Turns.{Looped, start, turn}
use my_raft_kv.Node.Runs as Runs
use my_raft_kv.Node.Runs.{Call, run_call}

Kept : RawNode → RawNode → Type 0
Kept rn rn' = rn'.prev_soft_st ≡ rn.prev_soft_st

step_raft-Kept :
    (rn : RawNode) (m : RaftMessage) → Always (λ s. Kept rn (state_of s)) (step_raft rn m)
unfolding Kept
step_raft-Kept rn m = Always-after (step rn.raft m) (λ s. Always-ok refl)

dropped :
    (rn : RawNode) (m : Result (RawNode × Option Error))
    → Always (λ s. Kept rn (state_of s)) m
    → Always (Kept rn) (m >>= λ s. ok (state_of s))
dropped rn m h = Always-then h (λ s k. Always-ok k)

run_call-Kept : (rn : RawNode) (c : Call) → Always (Kept rn) (run_call rn c)
unfolding run_call Kept Raw.tick Raw.tick_quiesced Raw.campaign Raw.propose Raw.step_node Raw.ready
    Raw.ready_without_accept Raw.new_ready Raw.accept_ready Raw.advance Raw.transfer_leader
    Raw.read_index
run_call-Kept rn Runs.tick = Always-after (ticked rn.raft.tick rn.raft) (λ r. Always-ok refl)
run_call-Kept rn Runs.tick_quiesced = Always-ok refl
run_call-Kept rn Runs.campaign = dropped rn _ (step_raft-Kept rn (message msg_hup 0))
run_call-Kept rn (Runs.propose payload) =
    dropped rn _ (step_raft-Kept rn (proposal rn.raft.id payload))
run_call-Kept rn (Runs.step m) = dropped rn _ (
    Always-if (is_local_msg m.type) (Always-ok refl)
      (Always-if (knows_sender rn.raft m) (step_raft-Kept rn m) (Always-ok refl)))
run_call-Kept rn Runs.ready = Always-ok refl
run_call-Kept rn (Runs.advance rd) = Always-ok (kept (is_empty_hard_state rd.hard_state))
  where
    kept :
        (b : Bool)
        → (if b then rn else record rn { pre_hard_st = rd.hard_state }).prev_soft_st
          ≡ rn.prev_soft_st
    kept true = refl
    kept false = refl
run_call-Kept rn (Runs.transfer_leader transferee) =
    dropped rn _ (step_raft-Kept rn (record (message msg_transfer_leader 0) { from = transferee }))
run_call-Kept rn (Runs.read_index rctx) =
    dropped rn _
      (step_raft-Kept rn (record (message msg_read_index 0) { entries = entry_of rctx ∷ [] }))

bootstrap-Kept : (rn : RawNode) (peers : List Peer) → Always (Kept rn) (Raw.bootstrap rn peers)
unfolding Kept Raw.bootstrap
bootstrap-Kept rn [] = Always-err
bootstrap-Kept rn (p ∷ peers) =
    Always-after rn.raft.raft_log.storage.last_index
      (λ last. Always-if (last == 0) (Always-ok refl) Always-err)

-- Any calls of the methods that return, with any arguments, and of `Bootstrap`.
pub data Called (rn : RawNode) : RawNode → Type 0 where
  fresh : Called rn rn
  call : {rn' rn'' : RawNode} (c : Call) → Called rn rn' → run_call rn' c ≡ ok rn'' → Called rn rn''
  bootstrap :
      {rn' rn'' : RawNode} (peers : List Peer)
      → Called rn rn'
      → Raw.bootstrap rn' peers ≡ ok rn''
      → Called rn rn''

Called-Kept : {rn rn' : RawNode} → Called rn rn' → Kept rn rn'
unfolding Kept
Called-Kept fresh = refl
Called-Kept (call {rn'} {rn''} c t e) = (run_call-Kept rn' c).returned rn'' e ∙ Called-Kept t
Called-Kept (bootstrap {rn'} {rn''} peers t e) =
    (bootstrap-Kept rn' peers).returned rn'' e ∙ Called-Kept t

has_ready_panics : (rn : RawNode) → rn.prev_soft_st ≡ none → has_ready rn ≡ panic
unfolding has_ready
has_ready_panics rn h = rw h refl

first_turn :
    (ch : Channels) (rn : RawNode)
    → rn.prev_soft_st ≡ none
    → {l : Loop} → ¬ (prepare ch (begin rn) ≡ ok l)
unfolding prepare look begin
first_turn ch rn h {l} = rw (has_ready_panics rn h) (λ e. cc)

untouched :
    {ch : Channels} {rn : RawNode} {es : List Event} {l : Loop}
    → rn.prev_soft_st ≡ none
    → Looped ch rn es l
    → (es ≡ []) × (l ≡ begin rn)
untouched h start = (refl, refl)
untouched {ch} {rn} h (turn {l'} e t s p en k) =
    absurd (first_turn ch rn h (sym (ap (prepare ch) (untouched h t).1) ∙ p))

-- A raw node that has told its user of no leader and state, as `NewRawNode` makes it, has told of none
-- after any calls of its methods that return, `Bootstrap` among them, with any arguments and in any
-- order: `HasReady` panics there, and a loop that is started on it takes no case of its `select` at all.
pub loop_never_turns :
    {rn rn' : RawNode}
    → Called rn rn'
    → rn.prev_soft_st ≡ none
    → {ch : Channels} {es : List Event} {l : Loop} → Looped ch rn' es l
    → (has_ready rn' ≡ panic) × (es ≡ [])
unfolding Kept
loop_never_turns {rn} {rn'} t h t' =
    let silent : rn'.prev_soft_st ≡ none = Called-Kept t ∙ h in
    (has_ready_panics rn' silent, (untouched silent t').0)
