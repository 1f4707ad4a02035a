-- ===== src/Node/Loop/Turns.antt =====
-- The turns of the loop: a run is what the cases that were taken lead to.
use my_raft_kv.Prelude.{true, false, List, [], ◌∷◌, ◌≡◌, ok}
use my_raft_kv.Node.RawNode.{RawNode}
use my_raft_kv.Node.Loop.{Channels, Loop, begin, prepare, Event, enabled, Output, handle}

-- The events that were taken, the last one first.
pub data Looped (ch : Channels) (rn : RawNode) : List Event → Loop → Type 0 where
  start : Looped ch rn [] (begin rn)
  turn :
      {es : List Event} {l l' l'' : Loop} {out : Output} (e : Event)
      → Looped ch rn es l
      → l.stopped ≡ false
      → prepare ch l ≡ ok l'
      → enabled ch l' e ≡ true
      → handle ch l' e ≡ ok (l'', out)
      → Looped ch rn (e ∷ es) l''
