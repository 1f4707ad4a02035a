-- ===== src/Raft/Voters.antt =====
-- The voters that a campaign asks, `JointConfig.IDs`, sorted, without the node itself, and what it asks.
use my_raft_kv.Prelude.{
  ◌∙◌, false, ℕ, ◌+◌, ◌≤◌, ◌&&◌, ◌||◌, not, List, [], ◌∷◌, ◌==◌, if◌then◌else◌, ◌≡◌, inl, inr,
  Bool-cases, arith, keys, insert, ◌++◌, ++-nil, ++-assoc, map, ◌<◌, ap, ok,
}
use my_raft_kv.Quorum.{add_ids, ids}
use my_raft_kv.Tracker.Visit.Order.{HeadFrom, Rises, occurrences, insertion_sort_lem}
use my_raft_kv.Log.RaftLog as RLog
use my_raft_kv.Log.RaftLog.Valid.{IsValid}
use my_raft_kv.Raft.Message.{RaftMessage, message, msg_vote}
use my_raft_kv.Raft.State.{Raft, send, campaign_transfer}
use my_raft_kv.Raft.Elect.{voter_ids, ask_for_votes, transfer_context}

-- The ids of a list but one.
unfoldable pub without : ℕ → List ℕ → List ℕ
without n [] = []
without n (id ∷ ids) = let rest = without n ids in if id == n then rest else (id ∷ rest)

occurrences-without :
    (z n : ℕ) (l : List ℕ) → occurrences z (without n l) ≡ (if z == n then 0 else occurrences z l)
unfolding occurrences without
occurrences-without z n [] = ground arith
occurrences-without z n (x ∷ l) = ground (arith, occurrences-without z n l)

HeadFrom-without : (x n : ℕ) (l : List ℕ) → HeadFrom x l → Rises l → HeadFrom x (without n l)
unfolding without Rises
HeadFrom-without x n [] h r = tt
HeadFrom-without x n (y ∷ l) h (k, r) = elim (Bool-cases (y == n)) [
  | inl e ↦ rw e (HeadFrom-without x n l (from h l k) r)
  | inr e ↦ rw e h
]
  where
    from : x ≤ y → (l : List ℕ) → HeadFrom y l → HeadFrom x l
    from p [] q = tt
    from p (w ∷ l) q = omega (arith, p, q)

Rises-without : (n : ℕ) (l : List ℕ) → Rises l → Rises (without n l)
unfolding without Rises
Rises-without n [] r = tt
Rises-without n (x ∷ l) (h, r) = elim (Bool-cases (x == n)) [
  | inl e ↦ rw e (Rises-without n l r)
  | inr e ↦ rw e (HeadFrom-without x n l h r, Rises-without n l r)
]

occurrences-insert :
    (z k : ℕ) (m : List (ℕ × Unit {0}))
    → occurrences z (keys (insert k tt m))
      ≡ (if (k == z) && (occurrences z (keys m) == 0) then 1 else occurrences z (keys m))
unfolding occurrences keys insert
occurrences-insert z k [] = ground arith
occurrences-insert z k ((j, u) ∷ m) = ground (arith, occurrences-insert z k m)

occurrences-add_ids :
    (z : ℕ) (c : List ℕ) (m : List (ℕ × Unit {0}))
    → occurrences z (keys (add_ids c m)) ≡ (
        if (occurrences z c == 0) || not (occurrences z (keys m) == 0)
        then occurrences z (keys m)
        else 1)
unfolding occurrences add_ids
occurrences-add_ids z [] m = ground arith
occurrences-add_ids z (id ∷ c) m =
    ground (arith, occurrences-add_ids z c (insert id tt m), occurrences-insert z id m)

-- The voters of both configurations but the node itself, each once, in increasing order.
pub record Others (r : Raft) (asked : List ℕ) : Type 0 where
  pub rises : Rises asked
  pub each :
      (z : ℕ)
      → occurrences z asked ≡ (
          if (z == r.id)
            || (occurrences z r.trk.voters.incoming + occurrences z r.trk.voters.outgoing == 0)
          then 0
          else 1)

pub without-Others : (r : Raft) → Others r (without r.id (voter_ids r))
unfolding ids occurrences keys
without-Others r =
    let (rises, same) = insertion_sort_lem (keys (ids r.trk.voters)) in
    record {
      rises = Rises-without r.id (voter_ids r) rises;
      each = λ z. each z (occurrences-without z r.id (voter_ids r)) (same z);
    }
  where
    each :
        (z : ℕ)
        → occurrences z (without r.id (voter_ids r))
          ≡ (if z == r.id then 0 else occurrences z (voter_ids r))
        → occurrences z (voter_ids r) ≡ occurrences z (keys (ids r.trk.voters))
        → occurrences z (without r.id (voter_ids r)) ≡ (
            if (z == r.id)
              || (occurrences z r.trk.voters.incoming + occurrences z r.trk.voters.outgoing == 0)
            then 0
            else 1)
    each z e s =
        let i = occurrences-add_ids z r.trk.voters.incoming [] in
        let o = occurrences-add_ids z r.trk.voters.outgoing (add_ids r.trk.voters.incoming []) in
        ground (arith, e, s, i, o)

-- A request for the vote of `id`, from a node of a term whose log ends with an index and a term.
abbrev pub request : ℕ → ℕ → ℕ → ℕ → ℕ → RaftMessage
request from term last last_term id = record (message msg_vote id) {
  from = from;
  term = term;
  index = last;
  log_term = last_term;
  context = transfer_context;
}

module _ (r : Raft) (v : IsValid r.raft_log) (last_term : ℕ)
    (has_term : RLog.term r.raft_log v.last ≡ ok last_term) where
  pub ask_for_votes_lem :
      (term : ℕ) (rest : List ℕ) (ms : List RaftMessage)
      → 0 < term
      → ask_for_votes msg_vote term campaign_transfer rest (record r { msgs = ms })
        ≡ ok
            (record r { msgs = ms ++ map (request r.id term v.last last_term) (without r.id rest) })
  unfolding ask_for_votes without send RLog.last_term
  ask_for_votes_lem term [] ms p = ap (λ l. ok (record r { msgs = l })) (++-nil ms)
  ask_for_votes_lem term (id ∷ rest) ms p = elim (Bool-cases (id == r.id)) [
    | inl e ↦ rw e (ask_for_votes_lem term rest ms p)
    | inr e ↦
        let m : RaftMessage = request r.id term v.last last_term id in
        rw (e, v.last_is, has_term, positive)
          (ask_for_votes_lem term rest (ms ++ m ∷ []) p
            ∙ ap (λ l. ok (record r { msgs = l }))
                (++-assoc ms (m ∷ [])
                  (map (request r.id term v.last last_term) (without r.id rest))))
  ]
    where
      positive : (term == 0) ≡ false
      positive = ground (arith, p)
