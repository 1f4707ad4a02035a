-- ===== src/Machine/Settling.antt =====
-- The machine of the three handlers goes on to the leader, and stays.
use my_raft_kv.Prelude.{
  ℕ, zero, suc, ◌+◌, Option, none, some, List, [], ◌∷◌, ◌≡◌, refl, sym, ap, subst, ◌∙◌,
}
use my_raft_kv.Machine.{
  StateEnum, state_follower, state_candidate, state_leader, follower, candidate, leader,
  StateMachine, switch_to, do_state, Event, switched, saw_close, gave_ready, waited, Possible, turn,
  start_at,
}

-- The three handlers, each at its state.
pub record Registered (sm : StateMachine) : Type 0 where
  pub at_follower : sm.st_map state_follower ≡ some follower
  pub at_candidate : sm.st_map state_candidate ≡ some candidate
  pub at_leader : sm.st_map state_leader ≡ some leader

-- The loop's events, the last one first.
pub data Turned (sm : StateMachine) : List Event → StateMachine → Type 0 where
  start : Turned sm [] sm
  next :
      {es : List Event} {sm' sm'' : StateMachine} (e : Event)
      → Turned sm es sm'
      → Possible sm' e
      → turn sm' e ≡ some sm''
      → Turned sm (e ∷ es) sm''

abbrev one_if_switched : Event → ℕ
one_if_switched (switched enum) = 1
one_if_switched _ = 0

unfoldable pub switches : List Event → ℕ
switches [] = 0
switches (e ∷ es) = one_if_switched e + switches es

-- What holds after some switches: the next one is on its way, or the machine is the leader and none is.
unfoldable pub Stage : ℕ → StateMachine → Type 0
Stage zero sm = sm.switch_c ≡ state_candidate ∷ []
Stage (suc zero) sm = (sm.state ≡ state_candidate) × (sm.switch_c ≡ state_leader ∷ [])
Stage (suc (suc zero)) sm = (sm.state ≡ state_leader) × (sm.switch_c ≡ [])
Stage (suc (suc (suc n))) sm = ⊥

Fine : ℕ → Option StateMachine → Type 0
Fine k none = ⊥
Fine k (some sm) = Registered sm × Stage k sm

first_is : {e f : StateEnum} {rest : List StateEnum} → f ∷ [] ≡ e ∷ rest → e ≡ f
first_is {e} {f} h = sym (ap first h)
  where
    first : List StateEnum → StateEnum
    first [] = f
    first (x ∷ xs) = x

not_empty : {e : StateEnum} {rest : List StateEnum} → ¬ ([] ≡ e ∷ rest)
not_empty h = cc

kept :
    {sm : StateMachine} {pending : List StateEnum} {state : StateEnum} {rd : Option ℕ}
    → Registered sm
    → Registered (record sm { switch_c = pending; state = state; rd = rd })
kept r = record {
  at_follower = r.at_follower;
  at_candidate = r.at_candidate;
  at_leader = r.at_leader;
}

-- Each event of the loop has a next state, and only a switch changes the stage.
turn-Fine :
    (k : ℕ) (sm : StateMachine) (e : Event)
    → Registered sm
    → Stage k sm
    → Possible sm e
    → Fine (one_if_switched e + k) (turn sm e)
unfolding Fine turn Possible Stage do_state switch_to
turn-Fine zero sm (switched enum) r s (rest, p) =
    rw (first_is (sym s ∙ p), s, r.at_candidate) (kept r, (refl, refl))
turn-Fine (suc zero) sm (switched enum) r (st, s) (rest, p) =
    rw (first_is (sym s ∙ p), s, r.at_leader) (kept r, (refl, refl))
turn-Fine (suc (suc zero)) sm (switched enum) r (st, s) (rest, p) = absurd (not_empty (sym s ∙ p))
turn-Fine (suc (suc (suc k))) sm e r s p = absurd s
turn-Fine k sm saw_close r s p = (r, s)
turn-Fine k sm gave_ready r s p = (kept r, s)
turn-Fine k sm (waited time) r s p = (kept r, s)

Turned-Fine :
    {sm sm' : StateMachine} {es : List Event}
    → Registered sm
    → Stage 0 sm
    → Turned sm es sm'
    → Fine (switches es) (some sm')
unfolding Fine switches
Turned-Fine r s start = (r, s)
Turned-Fine r s (next {es} {sm'} e t p h) =
    let (r', s') = Turned-Fine r s t in
    subst (Fine (one_if_switched e + switches es)) h (turn-Fine (switches es) sm' e r' s' p)

start-Fine :
    (sm : StateMachine) → Registered sm → sm.switch_c ≡ [] → Fine 0 (start_at sm state_follower)
unfolding Fine start_at do_state switch_to Stage
start-Fine sm r s = rw (r.at_follower, s) (kept r, refl)

-- A machine with the three handlers and an empty channel that is started at the follower, and whose
-- channel nobody else writes to: whatever its loop has done since, each case of the `select` that is
-- possible has a next state, so the loop never waits in a handler. After one switch it is the candidate
-- and the leader is next, after two it is the leader and the channel is empty, and there is no third.
pub start_at_settles :
    {sm first sm' : StateMachine} {es : List Event}
    → Registered sm
    → sm.switch_c ≡ []
    → start_at sm state_follower ≡ some first
    → Turned first es sm'
    → (e : Event) → Possible sm' e
    → (sm'' : StateMachine) × (turn sm' e ≡ some sm'') × Stage (switches (e ∷ es)) sm''
unfolding Fine switches
start_at_settles {sm} {first} {sm'} {es} r s b t e p =
    let (r', s') = subst (Fine 0) b (start-Fine sm r s) in
    let (r'', s'') = Turned-Fine r' s' t in
    out (turn sm' e) (turn-Fine (switches es) sm' e r'' s'' p)
  where
    out :
        (o : Option StateMachine)
        → Fine (one_if_switched e + switches es) o
        → (sm'' : StateMachine) × (o ≡ some sm'') × Stage (one_if_switched e + switches es) sm''
    out none f = absurd f
    out (some x) (f, g) = (x, refl, g)
