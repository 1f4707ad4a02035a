-- ===== src/Quorum/Decided.antt =====
-- A decided vote stays decided, and does not depend on the order of the voters.
use my_raft_kv.Prelude.{
  ℕ, ◌+◌, ◌≤◌, ◌≡◌, refl, ◌≢◌, ◌⊎◌, ◌↔◌, Bool, true, false, Option, none, some, List, [], ◌∷◌,
  lookup, length, arith,
}
use mathlib.Core.List.{Perm, Permᴰ}
use mathlib.Core.Logic.{∥∥₁_elim}
use my_raft_kv.Quorum.{
  vote_result, VoteResult, vote_pending, vote_won, vote_lost, MajorityConfig, JointConfig,
  joint_vote_result,
}
use my_raft_kv.Quorum.Counting.{granted, silent, is_yes, is_silent, verdict, vote_result-eq-verdict}

-- `votes'` has every vote of `votes`.
abbrev pub Extends : List (ℕ × Bool) → List (ℕ × Bool) → Type 0
Extends votes votes' = (id : ℕ) (b : Bool) → lookup id votes ≡ some b → lookup id votes' ≡ some b

Option-Extends :
    (o o' : Option Bool)
    → ((b : Bool) → o ≡ some b → o' ≡ some b)
    → (is_yes o ≤ is_yes o') × (is_yes o' + is_silent o' ≤ is_yes o + is_silent o)
Option-Extends none none h = omega arith
Option-Extends none (some true) h = omega arith
Option-Extends none (some false) h = omega arith
Option-Extends (some b) o' h = ground (arith, h b refl)

granted-Extends :
    (m : MajorityConfig) (votes votes' : List (ℕ × Bool))
    → Extends votes votes'
    → (granted votes m ≤ granted votes' m)
      × (granted votes' m + silent votes' m ≤ granted votes m + silent votes m)
granted-Extends [] votes votes' h = omega arith
granted-Extends (id ∷ m) votes votes' h = omega (
  arith,
  granted-Extends m votes votes' h,
  Option-Extends (lookup id votes) (lookup id votes') (h id),
)

verdict_settled :
    (n y u y' u' : ℕ)
    → y ≤ y'
    → y' + u' ≤ y + u
    → verdict n y u ≢ vote_pending
    → verdict n y' u' ≡ verdict n y u
verdict_settled n y u y' u' h k p = ground arith

-- Once a configuration has won or lost a vote, further votes do not change that.
pub vote_result-Extends :
    (m : MajorityConfig) (votes votes' : List (ℕ × Bool))
    → Extends votes votes'
    → vote_result m votes ≢ vote_pending
    → vote_result m votes' ≡ vote_result m votes
unfolding vote_result
vote_result-Extends [] votes votes' e h = refl
vote_result-Extends (id ∷ m) votes votes' e h = ground (
  arith,
  vote_result-eq-verdict (id ∷ m) votes,
  vote_result-eq-verdict (id ∷ m) votes',
  granted-Extends (id ∷ m) votes votes' e,
  verdict_settled (length (id ∷ m)) (granted votes (id ∷ m)) (silent votes (id ∷ m))
      (granted votes' (id ∷ m)) (silent votes' (id ∷ m)),
)

counts-Permᴰ :
    (votes : List (ℕ × Bool)) {m m' : MajorityConfig}
    → Permᴰ m m'
    → (granted votes m ≡ granted votes m')
      × (silent votes m ≡ silent votes m')
      × (length m ≡ length m')
counts-Permᴰ votes Permᴰ.nil = (refl, refl, refl)
counts-Permᴰ votes (Permᴰ.cons {l₁ = l} {l₂ = l'} e p) = rw e (omega (arith, counts-Permᴰ votes p))
counts-Permᴰ votes (Permᴰ.swap e e') = rw (e, e') (omega arith)
counts-Permᴰ votes (Permᴰ.trans p q) = omega (arith, counts-Permᴰ votes p, counts-Permᴰ votes q)

VoteResult-set : IsSet VoteResult
VoteResult-set = hlevel

-- The order in which the loop visits the voters does not matter.
pub vote_result-Perm :
    (m m' : MajorityConfig) (votes : List (ℕ × Bool))
    → Perm m m'
    → vote_result m votes ≡ vote_result m' votes
unfolding vote_result
vote_result-Perm [] [] votes p = refl
vote_result-Perm [] (id ∷ m') votes p =
    ∥∥₁_elim p (VoteResult-set _ _) (λ d. absurd (omega (arith, counts-Permᴰ votes d)))
vote_result-Perm (id ∷ m) [] votes p =
    ∥∥₁_elim p (VoteResult-set _ _) (λ d. absurd (omega (arith, counts-Permᴰ votes d)))
vote_result-Perm (id ∷ m) (id' ∷ m') votes p = ∥∥₁_elim p (VoteResult-set _ _) λ d. ground (
  arith,
  counts-Permᴰ votes d,
  vote_result-eq-verdict (id ∷ m) votes,
  vote_result-eq-verdict (id' ∷ m') votes,
)

-- A joint vote is won exactly when both configurations have won it, and it is lost exactly when
-- one of them has lost it.
pub joint_vote_result_iff :
    (c : JointConfig) (votes : List (ℕ × Bool))
    → ((joint_vote_result c votes ≡ vote_won)
        ↔ ((vote_result c.incoming votes ≡ vote_won) × (vote_result c.outgoing votes ≡ vote_won)))
      × ((joint_vote_result c votes ≡ vote_lost) ↔ (
          (vote_result c.incoming votes ≡ vote_lost) ⊎ (vote_result c.outgoing votes ≡ vote_lost)))
unfolding joint_vote_result
joint_vote_result_iff c votes = ground arith

-- A joint vote that is won or lost stays so when votes are added.
pub joint_vote_result-Extends :
    (c : JointConfig) (votes votes' : List (ℕ × Bool))
    → Extends votes votes'
    → joint_vote_result c votes ≢ vote_pending
    → joint_vote_result c votes' ≡ joint_vote_result c votes
unfolding joint_vote_result
joint_vote_result-Extends c votes votes' e h = ground (
  arith,
  vote_result-Extends c.incoming votes votes' e,
  vote_result-Extends c.outgoing votes votes' e,
)
