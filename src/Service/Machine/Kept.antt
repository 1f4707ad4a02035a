-- ===== src/Service/Machine/Kept.antt =====
-- What the answers keep: the log is numbered and only grows, and the commit index stays within it.
use my_raft_kv.Prelude.{
  ℕ, ◌+◌, ◌^◌, ◌≤◌, ◌<◌, Bool, true, false, not, some, List, [], ◌∷◌, ◌++◌, if◌then◌else◌, ◌≡◌,
  refl, sym, ap, subst, ◌∙◌, arith, length, length-append, leb, add64, Always, Always-ok,
  Always-split, Always-then, deref-found,
}
use my_raft_kv.Raft.ReadOnly.{same_bytes}
use my_raft_kv.Service.Items.{Item, get_tail_item}
use my_raft_kv.Service.Machine.{Served, start, heard, asked, appended}
use my_raft_kv.Service.Items.Numbered.{Numbered, Numbered-prefix, Numbered-append, index-tail}
use my_raft_kv.Service.State.{Node, state_follower, set_state, to_uint32}
use my_raft_kv.Service.Server.{
  HeartRequest, ElectionRequest, AppendEntryRequest, Entry, HSetAnswer, stored, redis_nil,
  hset_failed, HeartReply, ElectionReply, election_reply, heart, follow, may_commit, commit_next,
  election, accepts, append, try_entry, put_entry, item_of, fits, entry_index, conclude,
}
use my_raft_kv.Service.Machine.Grown.{
  WellFormed, Grown, tail_within, Grown-same, Grown-trans, commit_if-Grown, tail_in,
}

follow-Grown : (n : Node) (req : HeartRequest) → Grown n (follow n req)
follow-Grown n req = by_test (leb n.term req.term)
  where
    by_test :
        (b : Bool)
        → Grown n (
            if b
            then record n { term = req.term; leader_id = req.from; state = state_follower }
            else n)
    by_test true = Grown-same refl refl
    by_test false = Grown-same refl refl

heart-Grown : (now : ℕ) (n : Node) (req : HeartRequest) → Grown n (heart now n req).0
unfolding heart
heart-Grown now n req = Grown-trans (Grown-trans (Grown-same refl refl) (follow-Grown beaten req)) (
    by_test (may_commit n' item req.commit_index)
      (commit_if-Grown n' item req.commit_index (tail_in n')))
  where
    beaten : Node
    beaten = record n { heart_beat = now }

    n' : Node
    n' = follow beaten req

    item : Item
    item = get_tail_item n'.item_list

    replied : Bool → Node × HeartReply
    replied b =
        if b
        then (commit_next n', record { commit_index = to_uint32 (commit_next n').commit_index })
        else (n', record { commit_index = 0 })

    by_test : (b : Bool) → Grown n' (if b then commit_next n' else n') → Grown n' (replied b).0
    by_test true g = g
    by_test false g = g

election-Grown : (now : ℕ) (n : Node) (req : ElectionRequest) → Grown n (election now n req).0
unfolding election
election-Grown now n req = by_test (accepts beaten req)
  where
    beaten : Node
    beaten = record n { heart_beat = now }

    replied : Bool → Node × ElectionReply
    replied b =
        let voted = record beaten {
          term = req.term;
          leader_id = req.node_id;
          state = state_follower;
        } in
        if b then (voted, election_reply voted true) else (beaten, election_reply beaten false)

    by_test : (b : Bool) → Grown n (replied b).0
    by_test true = Grown-same refl refl
    by_test false = Grown-same refl refl

-- An entry that fits has the index that follows the last item's.
pub record Fit (n : Node) (e : Entry) : Type 0 where
  pub next : e.index ≡ to_uint32 (add64 (get_tail_item n.item_list).index 1)

put-Grown : (n : Node) (e : Entry) → Fit n e → Grown n (put_entry n e stored).0
put-Grown n e f = record {
  more = item_of e ∷ [];
  grown = refl;
  commit_up = λ w h. omega arith;
  still = λ w h.
      let l : length (n.item_list ++ item_of e ∷ []) ≡ length n.item_list + 1 =
        length-append n.item_list (item_of e ∷ []) in
      let t : (get_tail_item n.item_list).index + 1 ≡ length n.item_list =
        tail_within n.item_list w.numbered (omega (arith, w.committed)) in
      record {
        numbered =
            Numbered-append 0 n.item_list (item_of e) w.numbered (omega (arith, f.next, t, h, l));
        committed = omega (arith, w.committed, l);
      };
}

put_any-Grown : (n : Node) (e : Entry) (a : HSetAnswer) → Fit n e → Grown n (put_entry n e a).0
put_any-Grown n e stored f = put-Grown n e f
put_any-Grown n e redis_nil f = put-Grown n e f
put_any-Grown n e hset_failed f = Grown-same refl refl

fits-Fit :
    (n : Node) (req : AppendEntryRequest) (e : Entry)
    → fits n req ≡ true
    → req.entry ≡ some e
    → Fit n e
fits-Fit n req e h f = record { next = sym (ap entry_index f) ∙ sym (same h) }
  where
    same :
        fits n req ≡ true
        → to_uint32 (add64 (get_tail_item n.item_list).index 1) ≡ entry_index req.entry
    same h = ground (arith, h)

try_entry-Grown :
    (n : Node) (req : AppendEntryRequest) (a : HSetAnswer)
    → Always (λ s. Grown n s.0) (try_entry n req a)
try_entry-Grown n req a =
    Always-split (fits n req)
      (λ h.
        Always-then (deref-found req.entry)
          (λ e f. Always-ok (put_any-Grown n e a (fits-Fit n req e h f))))
      (λ h. Always-ok (Grown-same refl refl))

-- The item of the test is one of the log's.
conclude-Grown :
    (n : Node) (req : AppendEntryRequest) (item : Item) (accept : Bool)
    → (WellFormed n → item.index < length n.item_list)
    → Grown n (conclude n req item accept)
unfolding set_state same_bytes
conclude-Grown n req item false within = Grown-same refl refl
conclude-Grown n req item true within = by_sender (not (same_bytes n.id req.from))
  where
    led : Node
    led = set_state n state_follower

    led-Grown : Grown n led
    led-Grown = Grown-same refl refl

    by_sender :
        (b : Bool)
        → Grown n (
            if may_commit (if b then led else n) item req.commit_index
            then commit_next (if b then led else n)
            else if b
            then led
            else n)
    by_sender true = Grown-trans led-Grown (
        commit_if-Grown led item req.commit_index
          (λ w. within (record { numbered = w.numbered; committed = w.committed })))
    by_sender false = commit_if-Grown n item req.commit_index within

-- The last item of a log is still within it when the log has grown.
tail_still :
    (items more : List Item)
    → Numbered 0 (items ++ more)
    → 0 < length (items ++ more)
    → (get_tail_item items).index < length (items ++ more)
unfolding get_tail_item
tail_still [] more n h = h
tail_still (i ∷ items) more n h =
    omega
      (arith, index-tail 0 i items (Numbered-prefix 0 (i ∷ items) more n), length-append items more)

append-Grown :
    (n : Node) (req : AppendEntryRequest) (a : HSetAnswer)
    → Always (λ s. Grown n s.0) (append n req a)
unfolding append
append-Grown n req a = Always-then (try_entry-Grown n req a) (λ s g.
    let within : WellFormed s.0 → (get_tail_item n.item_list).index < length s.0.item_list = λ w.
      subst (λ l. (get_tail_item n.item_list).index < length l) (sym g.grown)
        (tail_still n.item_list g.more (subst (Numbered 0) g.grown w.numbered)
          (subst (λ (l : List Item). 0 < length l) g.grown (omega (arith, w.committed)))) in
    Always-ok (Grown-trans g (conclude-Grown s.0 req (get_tail_item n.item_list) s.1 within)))

Served-Grown :
    {Fair : Node → AppendEntryRequest → Type 0} {n n' : Node} {ts : List ℕ}
    → Served Fair n ts n'
    → Grown n n'
Served-Grown start = Grown-same refl refl
Served-Grown (heard {n'} now req t) = Grown-trans (Served-Grown t) (heart-Grown now n' req)
Served-Grown (asked {n'} now req t) = Grown-trans (Served-Grown t) (election-Grown now n' req)
Served-Grown (appended {n'} {n''} {reply} {failed} req a t f e) =
    Grown-trans (Served-Grown t) ((append-Grown n' req a).returned (n'', reply, failed) e)

-- Whatever heartbeats, elections and entries a node answers, in any order: its items stay numbered from
-- 0 on without a gap and its commit index stays the index of an item, items are only added at the end,
-- and the commit index does not fall. The log has at most 2 ^ 32 items, and before, it is numbered so,
-- with the commit index in it.
pub Served-log :
    {Fair : Node → AppendEntryRequest → Type 0} {n n' : Node} {ts : List ℕ}
    → Served Fair n ts n'
    → WellFormed n
    → length n'.item_list ≤ 2 ^ 32
    → WellFormed n'
      × ((more : List Item) × (n'.item_list ≡ n.item_list ++ more))
      × (n.commit_index ≤ n'.commit_index)
Served-log {n} {n'} t w h =
    let g : Grown n n' = Served-Grown t in (g.still w h, (g.more, g.grown), g.commit_up w h)
