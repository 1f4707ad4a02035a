-- ===== src/Service/Machine/Votes.antt =====
-- A node accepts at most one election in a term, as long as no entry takes its term back.
use my_raft_kv.Prelude.{
  ℕ, ◌+◌, ◌≤◌, ◌<◌, Bool, true, false, not, some, List, [], ◌∷◌, if◌then◌else◌, ◌≡◌, refl, arith,
  leb, Always, Always-ok, Always-split, Always-then, deref-found,
}
use my_raft_kv.Raft.ReadOnly.{same_bytes}
use my_raft_kv.Service.Items.{Item, get_tail_item}
use my_raft_kv.Service.State.{Node, state_follower, set_state, to_uint32}
use my_raft_kv.Service.Machine.{Served, start, heard, asked, appended}
use my_raft_kv.Service.Server.{
  HeartRequest, HeartReply, ElectionRequest, ElectionReply, election_reply, AppendEntryRequest,
  Entry, HSetAnswer, stored, redis_nil, hset_failed, heart, follow, may_commit, commit_next,
  election, accepts, append, put_entry, fits, conclude,
}

-- The numbers fall strictly, from below a bound.
unfoldable pub Falling : ℕ → List ℕ → Type 0
Falling bound [] = Unit
Falling bound (t ∷ ts) = (t < bound) × Falling t ts

-- An entry is of the node's term or of a later one.
unfoldable pub Steady : Node → AppendEntryRequest → Type 0
Steady n req = (e : Entry) → req.entry ≡ some e → n.term ≤ e.term

Falling-up : {a b : ℕ} (ts : List ℕ) → a ≤ b → Falling a ts → Falling b ts
unfolding Falling
Falling-up [] h f = tt
Falling-up (t ∷ ts) h (l, f) = (omega (arith, l, h), f)

follow_term : (n : Node) (req : HeartRequest) → n.term ≤ (follow n req).term
follow_term n req = by_test (leb n.term req.term) (λ h. ground (arith, h))
  where
    followed : Bool → Node
    followed b =
        if b then record n { term = req.term; leader_id = req.from; state = state_follower } else n

    by_test : (b : Bool) → (b ≡ true → n.term ≤ req.term) → n.term ≤ (followed b).term
    by_test true h = h refl
    by_test false h = omega arith

heart_term : (now : ℕ) (n : Node) (req : HeartRequest) → n.term ≤ (heart now n req).0.term
unfolding heart
heart_term now n req = by_test (may_commit n' (get_tail_item n'.item_list) req.commit_index)
  where
    n' : Node
    n' = follow (record n { heart_beat = now }) req

    replied : Bool → Node × HeartReply
    replied b =
        if b
        then (commit_next n', record { commit_index = to_uint32 (commit_next n').commit_index })
        else (n', record { commit_index = 0 })

    by_test : (b : Bool) → n.term ≤ (replied b).0.term
    by_test true = follow_term (record n { heart_beat = now }) req
    by_test false = follow_term (record n { heart_beat = now }) req

-- An answer to an election adds its term to the accepted ones only if it is above the node's.
election_falls :
    (now : ℕ) (n : Node) (req : ElectionRequest) (ts : List ℕ)
    → Falling (n.term + 1) ts
    → Falling
        ((election now n req).0.term + 1)
        (if (election now n req).1.accept then req.term ∷ ts else ts)
unfolding election Falling
election_falls now n req ts f =
    by_test (accepts (record n { heart_beat = now }) req) (λ h. ground (arith, h))
  where
    n' : Node
    n' = record n { heart_beat = now }

    replied : Bool → Node × ElectionReply
    replied b =
        let voted = record n' {
          term = req.term;
          leader_id = req.node_id;
          state = state_follower;
        } in
        if b then (voted, election_reply voted true) else (n', election_reply n' false)

    by_test :
        (b : Bool)
        → (b ≡ true → n.term < req.term)
        → Falling ((replied b).0.term + 1) (if (replied b).1.accept then req.term ∷ ts else ts)
    by_test true h = (omega arith, Falling-up ts (omega (arith, h refl)) f)
    by_test false h = f

put_term :
    (n : Node) (e : Entry) (a : HSetAnswer) → n.term ≤ e.term → n.term ≤ (put_entry n e a).0.term
put_term n e stored h = h
put_term n e redis_nil h = h
put_term n e hset_failed h = omega arith

conclude_term :
    (n : Node) (req : AppendEntryRequest) (item : Item) (accept : Bool)
    → n.term ≤ (conclude n req item accept).term
unfolding set_state same_bytes
conclude_term n req item false = omega arith
conclude_term n req item true = by_tests (not (same_bytes n.id req.from))
  where
    followed : Bool → Node
    followed b = if b then set_state n state_follower else n

    by_commit :
        (c : Bool) (m : Node) → n.term ≤ m.term → n.term ≤ (if c then commit_next m else m).term
    by_commit true m h = h
    by_commit false m h = h

    by_tests :
        (b : Bool)
        → n.term
          ≤ (if may_commit (followed b) item req.commit_index
              then commit_next (followed b)
              else followed b).term
    by_tests true =
        by_commit (may_commit (followed true) item req.commit_index) (followed true) (omega arith)
    by_tests false = by_commit (may_commit n item req.commit_index) n (omega arith)

append_term :
    (n : Node) (req : AppendEntryRequest) (a : HSetAnswer)
    → Steady n req
    → Always (λ s. n.term ≤ s.0.term) (append n req a)
unfolding append Steady
append_term n req a steady =
    Always-then {P = λ s. n.term ≤ s.0.term}
      (Always-split (fits n req)
        (λ h. Always-then (deref-found req.entry) (λ e f. Always-ok (put_term n e a (steady e f))))
        (λ h. Always-ok (omega arith)))
      (λ s h. Always-ok (omega (arith, h, conclude_term s.0 req (get_tail_item n.item_list) s.1)))

-- In any sequence of calls, the terms of the elections that a node accepts rise, each strictly above the
-- one before, and none is above the node's term: it accepts no two elections of the same term. Every
-- entry that is to be appended has a term that is not below the node's.
pub one_election : {n n' : Node} {ts : List ℕ} → Served Steady n ts n' → Falling (n'.term + 1) ts
unfolding Falling
one_election start = tt
one_election (heard {ts} {n'} now req t) =
    Falling-up ts (omega (arith, heart_term now n' req)) (one_election t)
one_election (asked {ts} {n'} now req t) = election_falls now n' req ts (one_election t)
one_election (appended {ts} {n'} {n''} {reply} {failed} req a t f e) =
    Falling-up ts (omega (arith, (append_term n' req a f).returned (n'', reply, failed) e))
      (one_election t)
