-- ===== src/Node/Calls.antt =====
-- raft/node.go: the methods by which other goroutines talk to the loop. Which case of a `select`
-- proceeds is an argument, as is the error of the context.
use my_raft_kv.Prelude.{
  ℕ, Bool, true, false, not, Option, none, some, List, [], ◌∷◌, if◌then◌else◌, ◌≡◌, refl, ◌⊎◌, inl,
  inr,
}
use my_raft_kv.Raft.Message.{
  RaftMessage, message, same_type, is_local_msg, msg_prop, msg_unreachable, msg_snap_status,
  msg_transfer_leader, msg_read_index,
}
use my_raft_kv.Node.RawNode.{entry_of}

-- What ends a wait: the communication itself, the context, or the end of the loop.
pub data Wakes : Type 0 where
  proceeds cancelled finished : Wakes

-- The errors of a call: the context's, `ErrStopped`, or the loop's answer.
pub data CallError (E : Type 0) : Type 0 where
  ctx_err : CallError E
  err_stopped : CallError E
  answer : E → CallError E

-- A message that the loop has received, and what the caller gets.
pub record Called (E : Type 0) : Type 0 where
  pub taken : Option (RaftMessage × Bool)
  pub error : Option (CallError E)

-- What the loop answers, if it does, and the two waits.
pub record Waits (E : Type 0) : Type 0 where
  pub first : Wakes
  pub second : Wakes
  pub result : Option E

abbrev pub proposed : List ℕ → RaftMessage
proposed payload = record (message msg_prop 0) { entries = entry_of payload ∷ [] }

module _ {E : Type 0} where
  abbrev send_plain : RaftMessage → Wakes → Called E
  send_plain m proceeds = record { taken = some (m, false); error = none }
  send_plain m cancelled = record { taken = none; error = some ctx_err }
  send_plain m finished = record { taken = none; error = some err_stopped }

  abbrev result_error : Option E → Option (CallError E)
  result_error none = none
  result_error (some e) = some (answer e)

  abbrev await : RaftMessage → Wakes → Option E → Called E
  await m proceeds r = record { taken = some (m, true); error = result_error r }
  await m cancelled r = record { taken = some (m, true); error = some ctx_err }
  await m finished r = record { taken = some (m, true); error = some err_stopped }

  abbrev send_prop : RaftMessage → Bool → Waits E → Wakes → Called E
  send_prop m wait w proceeds =
      if wait then await m w.second w.result else record { taken = some (m, false); error = none }
  send_prop m wait w cancelled = record { taken = none; error = some ctx_err }
  send_prop m wait w finished = record { taken = none; error = some err_stopped }

  unfoldable pub step_with_wait_option : RaftMessage → Bool → Waits E → Called E
  step_with_wait_option m wait w =
      if not (same_type m.type msg_prop) then send_plain m w.first else send_prop m wait w w.first

  unfoldable pub propose : List ℕ → Waits E → Called E
  unfolding step_with_wait_option
  propose payload w = step_with_wait_option (proposed payload) true w

  unfoldable pub step : RaftMessage → Waits E → Called E
  unfolding step_with_wait_option is_local_msg
  step m w =
      if is_local_msg m.type
      then record { taken = none; error = none }
      else step_with_wait_option m false w

  unfoldable pub read_index : List ℕ → Waits E → Called E
  unfolding step_with_wait_option
  read_index rctx w =
      step_with_wait_option (record (message msg_read_index 0) { entries = entry_of rctx ∷ [] })
        false w

-- What a send without a context passes on.
abbrev taken_if : RaftMessage → Wakes → Option RaftMessage
taken_if m proceeds = some m
taken_if m _ = none

unfoldable pub report_unreachable : ℕ → Wakes → Option RaftMessage
report_unreachable id w = taken_if (record (message msg_unreachable 0) { from = id }) w

pub data SnapshotStatus : Type 0 where
  snapshot_finish snapshot_failure : SnapshotStatus

abbrev is_failure : SnapshotStatus → Bool
is_failure snapshot_finish = false
is_failure snapshot_failure = true

unfoldable pub report_snapshot : ℕ → SnapshotStatus → Wakes → Option RaftMessage
report_snapshot id status w =
    taken_if (record (message msg_snap_status 0) { from = id; reject = is_failure status }) w

unfoldable pub transfer_leadership : ℕ → ℕ → Wakes → Option RaftMessage
transfer_leadership lead transferee w =
    taken_if (record (message msg_transfer_leader lead) { from = transferee }) w

-- `Tick` does not wait: where the loop is busy the tick is lost.
pub data TickWakes : Type 0 where
  proceeds finished lost : TickWakes

unfoldable pub tick : TickWakes → Bool
tick proceeds = true
tick _ = false

module _ {E : Type 0} where
  send_plain-error :
      (m : RaftMessage) (w : Wakes)
      → (send_plain {E = E} m w).error ≡ none
      → (send_plain {E = E} m w).taken ≡ some (m, false)
  send_plain-error m proceeds h = refl
  send_plain-error m cancelled h = cc
  send_plain-error m finished h = cc

  send_prop-error :
      (m : RaftMessage) (f s : Wakes) (r : Option E)
      → (send_prop m true (record { first = f; second = s; result = r }) f).error ≡ none
      → ((send_prop m true (record { first = f; second = s; result = r }) f).taken ≡ some (m, true))
        × (r ≡ none)
  send_prop-error m proceeds proceeds none h = (refl, refl)
  send_prop-error m proceeds proceeds (some e) h = cc
  send_prop-error m proceeds cancelled r h = cc
  send_prop-error m proceeds finished r h = cc
  send_prop-error m cancelled s r h = cc
  send_prop-error m finished s r h = cc

  -- A call of `Propose` that returns no error was taken by the loop, as a proposal whose sender waits,
  -- and the loop answered that the raft had no error.
  pub propose-error :
      (payload : List ℕ) (w : Waits E)
      → (propose payload w).error ≡ none
      → ((propose payload w).taken ≡ some (proposed payload, true)) × (w.result ≡ none)
  unfolding propose step_with_wait_option
  propose-error payload w h = send_prop-error (proposed payload) w.first w.second w.result h

  -- A call of `Step` that returns no error was taken by the loop, once and as it is, unless the message
  -- is one that a node sends to itself: that is dropped without a word.
  pub step-error :
      (m : RaftMessage) (w : Waits E)
      → (step m w).error ≡ none
      → ((is_local_msg m.type ≡ true) × ((step m w).taken ≡ none))
        ⊎ ((is_local_msg m.type ≡ false) × ((step m w).taken ≡ some (m, false)))
  unfolding step step_with_wait_option
  step-error m w = by_tests (is_local_msg m.type) (not (same_type m.type msg_prop))
    where
      called : Bool → Bool → Called E
      called local plain =
          if local
          then record { taken = none; error = none }
          else if plain
          then send_plain m w.first
          else send_prop m false w w.first

      unwaited :
          (f : Wakes)
          → (send_prop m false w f).error ≡ none
          → (send_prop m false w f).taken ≡ some (m, false)
      unwaited proceeds h = refl
      unwaited cancelled h = cc
      unwaited finished h = cc

      by_tests :
          (local plain : Bool)
          → (called local plain).error ≡ none
          → ((local ≡ true) × ((called local plain).taken ≡ none))
            ⊎ ((local ≡ false) × ((called local plain).taken ≡ some (m, false)))
      by_tests true plain h = inl (refl, refl)
      by_tests false true h = inr (refl, send_plain-error m w.first h)
      by_tests false false h = inr (refl, unwaited w.first h)
