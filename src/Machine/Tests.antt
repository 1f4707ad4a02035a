-- ===== src/Machine/Tests.antt =====
-- The machine of the program's own test.
use my_raft_kv.Prelude.{some, List, [], ◌∷◌, ◌≡◌, refl}
use my_raft_kv.Machine.{
  StateEnum, state_follower, state_candidate, state_leader, follower, candidate, leader,
  StateMachine, new_machine, register, switch_to, do_state, Event, switched, Possible, turn,
  start_at,
}
use my_raft_kv.Machine.Settling.{Registered, Turned, start, next, Stage, switches, start_at_settles}

abbrev ready : StateMachine
ready =
    register (register (register new_machine state_leader leader) state_candidate candidate)
      state_follower follower

ready-Registered : Registered ready
unfolding register new_machine
ready-Registered = record { at_follower = refl; at_candidate = refl; at_leader = refl }

abbrev after : List StateEnum → StateEnum → StateMachine
after pending state = record ready { switch_c = pending; state = state }

abbrev started : StateMachine
started = after (state_candidate ∷ []) state_follower

abbrev elected : StateMachine
elected = after (state_leader ∷ []) state_candidate

starts : start_at ready state_follower ≡ some started
unfolding start_at register new_machine do_state switch_to
starts = refl

switches_once : turn started (switched state_candidate) ≡ some elected
unfolding turn register new_machine do_state switch_to
switches_once = refl

turned : Turned started (switched state_candidate ∷ []) elected
unfolding Possible
turned = next (switched state_candidate) start ([], refl) switches_once

abbrev events : List Event
events = switched state_leader ∷ switched state_candidate ∷ []

last-Possible : Possible elected (switched state_leader)
unfolding Possible
last-Possible = ([], refl)

empty_channel : ready.switch_c ≡ []
unfolding register new_machine
empty_channel = refl

start_at_settles_example :
    (sm : StateMachine) × (turn elected (switched state_leader) ≡ some sm)
    × Stage (switches events) sm
start_at_settles_example =
    start_at_settles ready-Registered empty_channel starts turned (switched state_leader)
      last-Possible
