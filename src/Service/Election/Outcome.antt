-- ===== src/Service/Election/Outcome.antt =====
-- How an election ends.
use my_raft_kv.Prelude.{
  ℕ, zero, suc, ◌+◌, ◌*◌, ◌<◌, Bool, true, false, ◌&&◌, some, List, [], ◌∷◌, ◌≡◌, refl, ap, ◌∙◌,
  ◌⊎◌, inl, inr, arith, if◌then◌else◌, ◌==◌, ltb, length, add64,
}
use my_raft_kv.Service.State.{
  Node, state_leader, state_follower, set_state, set_oath_accept_num, add_oath_accept_num,
}
use my_raft_kv.Service.Server.{ElectionReply}
use my_raft_kv.Service.Client.{send_election_request}
use my_raft_kv.Service.Election.{
  Ballot, dial_failed, call_failed, replied, gather, waits, ended, count_votes, wait_all,
  start_election, election,
}

unfoldable pub grants : List Ballot → ℕ
grants [] = 0
grants (replied r ∷ ballots) = (if r.accept then 1 else 0) + grants ballots
grants (_ ∷ ballots) = grants ballots

unfoldable pub dial_failures : List Ballot → ℕ
dial_failures [] = 0
dial_failures (dial_failed ∷ ballots) = dial_failures ballots + 1
dial_failures (_ ∷ ballots) = dial_failures ballots

-- What an answer leaves alone, with the votes that it adds.
pub record Counted (n : Node) (votes : ℕ) (n' : Node) : Type 0 where
  pub votes_are : n'.oath_accept_num ≡ n.oath_accept_num + votes
  pub same_term : n'.term ≡ n.term
  pub same_config : n'.config ≡ n.config

reply-Counted :
    (n : Node) (r : ElectionReply)
    → Counted n (if r.accept then 1 else 0) (send_election_request n (some r))
unfolding send_election_request set_state add_oath_accept_num
reply-Counted n r =
    by_tests r.accept (ltb n.term r.term) ((r.term == n.term) && ltb n.config_index r.index)
  where
    next : Bool → Bool → Bool → Node
    next a b c =
        if a
        then add_oath_accept_num n 1
        else if b
        then set_state n state_follower
        else if c
        then set_state n state_follower
        else n

    by_tests : (a b c : Bool) → Counted n (if a then 1 else 0) (next a b c)
    by_tests true b c = record { votes_are = refl; same_term = refl; same_config = refl }
    by_tests false true c = record { votes_are = omega arith; same_term = refl; same_config = refl }
    by_tests false false true = record {
      votes_are = omega arith;
      same_term = refl;
      same_config = refl;
    }
    by_tests false false false = record {
      votes_are = omega arith;
      same_term = refl;
      same_config = refl;
    }

gather_lem :
    (n : Node) (ballots : List Ballot)
    → Counted n (grants ballots) (gather n ballots).0
      × ((gather n ballots).1 ≡ dial_failures ballots)
unfolding gather grants dial_failures send_election_request
gather_lem n [] = (record { votes_are = omega arith; same_term = refl; same_config = refl }, refl)
gather_lem n (dial_failed ∷ ballots) =
    let (c, l) = gather_lem n ballots in
    (
      record { votes_are = c.votes_are; same_term = c.same_term; same_config = c.same_config },
      ap (λ k. k + 1) l,
    )
gather_lem n (call_failed ∷ ballots) = gather_lem n ballots
gather_lem n (replied r ∷ ballots) =
    let (c, l) = gather_lem (send_election_request n (some r)) ballots in
    let d : Counted n (if r.accept then 1 else 0) (send_election_request n (some r)) =
      reply-Counted n r in
    (
      record {
        votes_are = omega (arith, c.votes_are, d.votes_are);
        same_term = c.same_term ∙ d.same_term;
        same_config = c.same_config ∙ d.same_config;
      },
      l,
    )

abbrev Won : Node → Node → List Ballot → Bool → Type 0
Won n n' ballots won =
    (won ≡ ltb (length n.config) ((1 + grants ballots) * 2))
    × ((won ≡ false) ⊎ (n'.state ≡ state_leader))
    × (n'.term ≡ add64 n.term 1)
    × (n'.oath_accept_num ≡ 1 + grants ballots)

counted :
    (n m : Node) (ballots : List Ballot)
    → Counted (start_election n) (grants ballots) m
    → (n' : Node) × (won : Bool) × (count_votes m ≡ ended n' won) × Won n n' ballots won
unfolding start_election set_oath_accept_num set_state
counted n m ballots c = by_count (ltb (length m.config) (m.oath_accept_num * 2)) (
    ap (λ l. ltb (length l) (m.oath_accept_num * 2)) c.same_config
    ∙ ap (λ k. ltb (length n.config) (k * 2)) c.votes_are)
  where
    by_count :
        (b : Bool)
        → b ≡ ltb (length n.config) ((1 + grants ballots) * 2)
        → (n' : Node) × (won : Bool) × ((if b
              then ended (set_state m state_leader) true
              else ended m false)
            ≡ ended n' won)
          × Won n n' ballots won
    by_count true e =
        (set_state m state_leader, true, refl, (e, inr refl, c.same_term, c.votes_are))
    by_count false e = (m, false, refl, (e, inl refl, c.same_term, c.votes_are))

-- An election in which every other node is reached ends, in the next term and with the node's own vote
-- and one for each answer that grants it. The node's heartbeats start just if these are more than half
-- of the nodes, and the node is then the leader.
pub election_ends :
    (n : Node) (ballots : List Ballot)
    → dial_failures ballots ≡ 0
    → (n' : Node) × (won : Bool) × (election n ballots ≡ ended n' won)
      × (won ≡ ltb (length n.config) ((1 + grants ballots) * 2))
      × ((won ≡ false) ⊎ (n'.state ≡ state_leader))
      × (n'.term ≡ add64 n.term 1)
      × (n'.oath_accept_num ≡ 1 + grants ballots)
unfolding election
election_ends n ballots z =
    let (c, l) = gather_lem (start_election n) ballots in
    let (n', won, e, (more, state, term, votes)) =
      none_left (gather (start_election n) ballots) c (l ∙ z) in
    (n', won, e, more, state, term, votes)
  where
    none_left :
        (s : Node × ℕ)
        → Counted (start_election n) (grants ballots) s.0
        → s.1 ≡ 0
        → (n' : Node) × (won : Bool) × (wait_all s ≡ ended n' won) × Won n n' ballots won
    none_left (m, zero) c z = counted n m ballots c
    none_left (m, suc k) c z = absurd (omega (arith, z))

-- An election in which the dial to another node fails never ends, whatever the other answers are.
pub election_waits :
    (n : Node) (ballots : List Ballot)
    → 0 < dial_failures ballots
    → (n' : Node) × (election n ballots ≡ waits n')
unfolding election
election_waits n ballots z =
    let (c, l) = gather_lem (start_election n) ballots in
    one_left (gather (start_election n) ballots) (omega (arith, l, z))
  where
    one_left : (s : Node × ℕ) → 0 < s.1 → (n' : Node) × (wait_all s ≡ waits n')
    one_left (m, zero) z = absurd (omega (arith, z))
    one_left (m, suc k) z = (m, refl)
