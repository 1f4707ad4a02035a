-- ===== src/Raft/Replicate/Rounds.antt =====
-- The loop over `maybeSendAppend` ends: each round fills the window of inflights or stops a probe.
use my_raft_kv.Prelude.{
  ℕ, zero, suc, ◌+◌, ◌-◌, ◌≤◌, ◌<◌, ◌≡◌, ◌≢◌, refl, sym, ◌∙◌, ap, subst, Bool, true, false, ◌&&◌,
  not, Option, none, some, List, [], ◌∷◌, ◌==◌, if◌then◌else◌, get_elem?, length, sub64, arith,
  lookup, lookup-insert, Always, Always-ok, Always-panic, Always-if, Always-split, Always-then,
  Always-after, Result, ok, err, panic, ◌>>=◌, deref, err_snapshot_temporarily_unavailable,
}
use my_raft_kv.Log.Entries.{Entry, Snapshot}
use my_raft_kv.Log.RaftLog as RLog
use my_raft_kv.Tracker.Inflights.Counts.{add-counts}
use my_raft_kv.Tracker.Progress as Prog
use my_raft_kv.Tracker.Progress.{state_probe, state_replicate, state_snapshot}
use my_raft_kv.Tracker.{ProgressTracker}
use my_raft_kv.Raft.Message.{RaftMessage}
use my_raft_kv.Raft.State.{Raft, send, progress_of, with_progress, carries_term}
use my_raft_kv.Raft.Replicate.{
  attempt, is_empty_snap, snapshot_message, send_snapshot, note_in, note_sent, append_message,
  send_entries, send_what, entries_or_nil, maybe_send_append, send_all, rounds,
}

-- How many rounds are enough for a follower.
Room : ℕ → Prog.StateType → Prog.Progress → Type 0
Room fuel state_replicate pr =
    (pr.inflights.count ≤ pr.inflights.size) × (pr.inflights.size < pr.inflights.count + fuel)
Room fuel state_probe pr = (pr.probe_sent ≡ false → 1 < fuel) × (0 < fuel)
Room fuel state_snapshot pr = 0 < fuel

-- A round that sent something leaves a follower that needs one round less.
record Fewer (fuel : ℕ) (to : ℕ) (s : Raft × Bool) : Type 0 where
  fewer : s.1 ≡ true → (pr : Prog.Progress) × (progress_of s.0 to ≡ some pr) × Room fuel pr.state pr

nothing_sent : {fuel to : ℕ} (r : Raft) → Always (Fewer fuel to) (ok (r, false))
nothing_sent r = Always-ok (record { fewer = λ e. cc })

send-keeps : (r : Raft) (m : RaftMessage) → Always (λ r'. r'.trk ≡ r.trk) (send r m)
unfolding send
send-keeps r m =
    Always-if (carries_term m.type) (Always-if (m.term == 0) Always-panic (Always-ok refl))
      (Always-if (m.term == 0) (Always-ok refl) Always-panic)

note_in-Room :
    (fuel : ℕ) (st : Prog.StateType) (pr : Prog.Progress) (last : ℕ)
    → st ≡ pr.state
    → Prog.paused_in st pr ≡ false
    → Room (suc fuel) st pr
    → Always (λ pr'. Room fuel pr'.state pr') (note_in st pr last)
unfolding Room Prog.optimistic_update
note_in-Room fuel state_replicate pr last e p (q, h) =
    Always-then (add-counts pr.inflights last)
      (λ fl c. Always-ok (rw (sym e) (ground (arith, c, q, p), omega (arith, c, h))))
note_in-Room fuel state_probe pr last e p (q, h) =
    Always-ok (rw (sym e) ((λ k. cc), omega (arith, q p)))
note_in-Room fuel state_snapshot pr last e p h = Always-panic

note_sent-Room :
    (fuel : ℕ) (pr : Prog.Progress) (es : List Entry)
    → length es ≢ 0
    → Prog.is_paused pr ≡ false
    → Room (suc fuel) pr.state pr
    → Always (λ pr'. Room fuel pr'.state pr') (note_sent pr es)
unfolding note_sent Prog.is_paused
note_sent-Room fuel pr [] n p h = absurd (n refl)
note_sent-Room fuel pr (e ∷ es) n p h =
    Always-after (deref (get_elem? (e ∷ es) (length (e ∷ es) - 1)))
      (λ last. note_in-Room fuel pr.state pr last.index refl p h)

snapshot-Fewer :
    (fuel : ℕ) (r : Raft) (to : ℕ) (pr : Prog.Progress) (s : Result Snapshot)
    → Always (Fewer fuel to) (snapshot_message r to pr s)
unfolding is_empty_snap
snapshot-Fewer fuel r to pr panic = Always-panic
snapshot-Fewer fuel r to pr (err err_snapshot_temporarily_unavailable) = nothing_sent r
snapshot-Fewer fuel r to pr (err _) = Always-panic
snapshot-Fewer fuel r to pr (ok sp) = Always-panic

send_snapshot-Fewer :
    (fuel : ℕ) (r : Raft) (to : ℕ) (pr : Prog.Progress)
    → Always (Fewer fuel to) (send_snapshot r to pr)
unfolding send_snapshot
send_snapshot-Fewer fuel r to pr =
    Always-if pr.recent_active (snapshot-Fewer fuel r to pr (RLog.snapshot r.raft_log))
      (nothing_sent r)

progress_set :
    (r : Raft) (to : ℕ) (pr : Prog.Progress) → progress_of (with_progress r to pr) to ≡ some pr
progress_set r to pr = rw (lookup-insert to to pr r.trk.progress) (ground arith)

send_entries-Fewer :
    (fuel : ℕ) (r : Raft) (to : ℕ) (pr : Prog.Progress) (t : ℕ) (es : List Entry)
    → length es ≢ 0
    → Prog.is_paused pr ≡ false
    → Room (suc fuel) pr.state pr
    → Always (Fewer fuel to) (send_entries r to pr t es)
unfolding send_entries
send_entries-Fewer fuel r to pr t es n p h = Always-then (note_sent-Room fuel pr es n p h) (λ pr' k.
    Always-then {next = λ r'. ok (r', true)}
      (send-keeps (with_progress r to pr') (append_message r to pr t es))
      (λ r' e. Always-ok (record {
        fewer = λ _.
            (pr', ap (λ (x : ProgressTracker). lookup to x.progress) e ∙ progress_set r to pr', k);
      })))

-- The branches of `maybeSendAppend` once the term and the entries are known.
send_what-Fewer :
    (fuel : ℕ) (r : Raft) (to : ℕ) (pr : Prog.Progress) (t : Option ℕ) (es : Option (List Entry))
    → Prog.is_paused pr ≡ false
    → Room (suc fuel) pr.state pr
    → Always (Fewer fuel to) (send_what r to pr false t es)
send_what-Fewer fuel r to pr t es p h =
    Always-split ((length (entries_or_nil es) == 0) && not false) (λ _. nothing_sent r)
      (λ n. by_answers t es (λ z. ground (arith, n, z)))
  where
    by_answers :
        (t : Option ℕ) (es : Option (List Entry))
        → length (entries_or_nil es) ≢ 0
        → Always (Fewer fuel to) (elim t [
          | none ↦ send_snapshot r to pr
          | some t ↦ elim es [ none ↦ send_snapshot r to pr | some es ↦ send_entries r to pr t es ]
        ])
    by_answers none es n = send_snapshot-Fewer fuel r to pr
    by_answers (some t) none n = send_snapshot-Fewer fuel r to pr
    by_answers (some t) (some es) n = send_entries-Fewer fuel r to pr t es n p h

maybe_send_append-Fewer :
    (fuel : ℕ) (r : Raft) (to : ℕ) (pr : Prog.Progress)
    → progress_of r to ≡ some pr
    → Room (suc fuel) pr.state pr
    → Always (Fewer fuel to) (maybe_send_append r to false)
unfolding maybe_send_append
maybe_send_append-Fewer fuel r to pr e h =
    subst
      (λ o. Always (Fewer fuel to) (
        deref o >>= λ pr.
        if Prog.is_paused pr
        then ok (r, false)
        else (attempt (RLog.term r.raft_log (sub64 pr.next 1)) >>= λ term.
            attempt (RLog.entries r.raft_log pr.next r.max_msg_size) >>= λ ents.
            send_what r to pr false term ents)))
      (sym e)
      (Always-split (Prog.is_paused pr) (λ _. nothing_sent r)
        (λ p. Always-after (attempt (RLog.term r.raft_log (sub64 pr.next 1))) (λ t.
          Always-after (attempt (RLog.entries r.raft_log pr.next r.max_msg_size))
            (λ es. send_what-Fewer fuel r to pr t es p h))))

Room-positive : (st : Prog.StateType) (pr : Prog.Progress) → ¬ (Room 0 st pr)
unfolding Room
Room-positive state_replicate pr (p, q) = omega (arith, p, q)
Room-positive state_probe pr (p, q) = omega (arith, q)
Room-positive state_snapshot pr q = omega (arith, q)

send_all-ends :
    (fuel : ℕ) (r : Raft) (to : ℕ) (pr : Prog.Progress)
    → progress_of r to ≡ some pr
    → Room fuel pr.state pr
    → Always (λ o. o ≢ none) (send_all fuel r to)
unfolding send_all
send_all-ends zero r to pr e h = absurd (Room-positive pr.state pr h)
send_all-ends (suc fuel) r to pr e h =
    Always-then (maybe_send_append-Fewer fuel r to pr e h) (λ s f.
      Always-split s.1
        (λ sent. let (pr', e', h') = f.fewer sent in send_all-ends fuel s.0 to pr' e' h')
        (λ _. Always-ok (λ n. cc)))

enough :
    (st : Prog.StateType) (pr : Prog.Progress)
    → pr.inflights.count ≤ pr.inflights.size
    → Room (suc (suc pr.inflights.size)) st pr
unfolding Room
enough state_replicate pr h = (h, omega (arith, h))
enough state_probe pr h = ((λ e. omega arith), omega arith)
enough state_snapshot pr h = omega arith

-- The loop that sends everything to a follower never uses up its fuel, where no more messages are in
-- flight to it than its window holds.
pub send_all_total :
    (r : Raft) (to : ℕ) (pr : Prog.Progress)
    → progress_of r to ≡ some pr
    → pr.inflights.count ≤ pr.inflights.size
    → send_all (rounds r to) r to ≢ ok none
send_all_total r to pr e h n =
    (send_all-ends (suc (suc pr.inflights.size)) r to pr e (enough pr.state pr h)).returned none
      (sym (ap (λ k. send_all k r to) fuel) ∙ n) refl
  where
    fuel : rounds r to ≡ suc (suc pr.inflights.size)
    fuel = rw (e, rounds)
