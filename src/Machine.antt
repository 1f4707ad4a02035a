-- ===== src/Machine.antt =====
-- state/: a machine of three states that sends itself the next one over a channel of capacity 1. A
-- send that finds the channel full waits; inside the loop it waits for ever, since only the loop
-- receives. What is printed is left out.
pub mod Settling
mod Tests
use my_raft_kv.Prelude.{
  ℕ, Bool, true, false, Option, none, some, List, [], ◌∷◌, ◌++◌, ◌==◌, if◌then◌else◌, ◌≡◌, ltb,
  length, Result, ok, panic,
}

pub data StateEnum : Type 0 where
  state_follower state_candidate state_pre_candidate state_leader : StateEnum

-- `FollowerState`, `CandidateState` and `LeaderState`.
pub data Handler : Type 0 where
  follower candidate leader : Handler

abbrev number : StateEnum → ℕ
number state_follower = 0
number state_candidate = 1
number state_pre_candidate = 2
number state_leader = 3

-- The map of the handlers is a function. Of a `Ready` there is the time in its message.
pub record StateMachine : Type 0 where
  pub switch_c : List StateEnum
  pub closed : Bool
  pub st_map : StateEnum → Option Handler
  pub state : StateEnum
  pub rd : Option ℕ

unfoldable pub new_machine : StateMachine
new_machine = record {
  switch_c = [];
  closed = false;
  st_map = λ enum. none;
  state = state_follower;
  rd = none;
}

unfoldable pub register : StateMachine → StateEnum → Handler → StateMachine
register sm enum handler = record sm {
  st_map = λ e. if number e == number enum then some handler else sm.st_map e;
}

-- No result means that the call waits.
unfoldable pub switch_to : StateMachine → StateEnum → Option StateMachine
switch_to sm enum =
    if ltb (length sm.switch_c) 1
    then some (record sm { switch_c = sm.switch_c ++ enum ∷ [] })
    else none

-- `Do` of the three handlers.
unfoldable pub do_state : Handler → StateMachine → Option StateMachine
unfolding switch_to
do_state follower sm = switch_to sm state_candidate
do_state candidate sm = switch_to sm state_leader
do_state leader sm = some sm

abbrev do_at : StateMachine → StateEnum → Option Handler → Option StateMachine
do_at sm enum none = some sm
do_at sm enum (some handler) = do_state handler (record sm { state = enum })

-- The cases of the loop's `select`: a switch is received, the closed channel is, a `Ready` is taken, or
-- a second has passed, with the time at its end.
pub data Event : Type 0 where
  switched : StateEnum → Event
  saw_close : Event
  gave_ready : Event
  waited : ℕ → Event

-- The loop after an event; `break` only leaves the `select`. The first result says whether the case is
-- possible.
unfoldable pub Possible : StateMachine → Event → Type 0
Possible sm (switched enum) = (rest : List StateEnum) × (sm.switch_c ≡ enum ∷ rest)
Possible sm saw_close = sm.closed ≡ true
Possible sm gave_ready = Unit
Possible sm (waited time) = Unit

abbrev received : List StateEnum → List StateEnum
received [] = []
received (enum ∷ rest) = rest

unfoldable pub turn : StateMachine → Event → Option StateMachine
unfolding do_state
turn sm (switched enum) =
    let taken = record sm { switch_c = received sm.switch_c } in
    do_at taken enum (taken.st_map enum)
turn sm saw_close = some sm
turn sm gave_ready = some (record sm { rd = none })
turn sm (waited time) = some (record sm { rd = some time })

-- A second call panics, as the channel is closed already.
unfoldable pub stop : StateMachine → Result StateMachine
stop sm = if sm.closed then panic else ok (record sm { closed = true; st_map = λ enum. none })

abbrev start_with : StateMachine → Option Handler → Option StateMachine
start_with sm none = some sm
start_with sm (some handler) = do_state handler sm

unfoldable pub start_at : StateMachine → StateEnum → Option StateMachine
unfolding do_state
start_at sm enum = start_with sm (sm.st_map enum)
