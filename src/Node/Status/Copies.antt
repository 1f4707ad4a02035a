-- ===== src/Node/Status/Copies.antt =====
-- The copy of the progress of the followers.
use my_raft_kv.Prelude.{
  ℕ, ◌+◌, ◌<◌, ◌≡◌, refl, sym, ap, ◌∙◌, inl, inr, false, List, [], ◌∷◌, ◌==◌, Option, none, some,
  lookup, insert, keys, if◌then◌else◌, lookup-insert, arith, Bool-cases, ok,
}
use my_raft_kv.Tracker.Progress.{Progress}
use my_raft_kv.Tracker.Inflights as Flights
use my_raft_kv.Tracker.Visit.{visit_ids}
use my_raft_kv.Tracker.Visit.Order.{occurrences, visit_ids_lem}
use my_raft_kv.Raft.State.{Raft}
use my_raft_kv.Node.Status.{copy_of, copy_ids, get_progress_copy}

-- The copy of an entry of the map, if it is there.
abbrev copied : Option Progress → Option Progress
copied none = none
copied (some pr) = some (copy_of pr)

-- It is equal to the entry: the buffer of the inflights is copied whole.
copied_same : (o : Option Progress) → copied o ≡ o
unfolding Flights.clone
copied_same none = refl
copied_same (some pr) = refl

lookup_found :
    (z : ℕ) (m : List (ℕ × Progress))
    → 0 < occurrences z (keys m)
    → (pr : Progress) × (lookup z m ≡ some pr)
unfolding lookup keys occurrences
lookup_found z [] h = absurd (omega arith)
lookup_found z ((j, pr) ∷ m) h = elim (Bool-cases (j == z)) [
  | inl e ↦ (pr, rw e)
  | inr e ↦ let (pr', f) = lookup_found z m (ground (arith, e, h)) in (pr', rw e f)
]

lookup_missing : (z : ℕ) (m : List (ℕ × Progress)) → occurrences z (keys m) ≡ 0 → lookup z m ≡ none
unfolding lookup keys occurrences
lookup_missing z [] h = refl
lookup_missing z ((j, pr) ∷ m) h = ground (arith, lookup_missing z m)

-- One turn of the loop copies the entry of its id.
copy_at :
    (progress m : List (ℕ × Progress)) (id z n : ℕ) (pr : Progress)
    → lookup id progress ≡ some pr
    → (if n == 0 then lookup z (insert id (copy_of pr) m) else copied (lookup z progress))
      ≡ (if (if id == z then 1 else 0) + n == 0 then lookup z m else copied (lookup z progress))
copy_at progress m id z n pr found = elim (Bool-cases (id == z)) [
  | inl e ↦ rw (lookup-insert id z (copy_of pr) m, e) (same (ground (arith, e)))
  | inr e ↦ rw (lookup-insert id z (copy_of pr) m, e, zero) refl
]
  where
    zero : 0 + n ≡ n
    zero = omega arith

    there : id ≡ z → lookup z progress ≡ some pr
    there e = ap (λ k. lookup k progress) (sym e) ∙ found

    positive : (1 + n == 0) ≡ false
    positive = ground arith

    same :
        id ≡ z
        → (if n == 0 then some (copy_of pr) else copied (lookup z progress))
          ≡ (if 1 + n == 0 then lookup z m else copied (lookup z progress))
    same e = elim (Bool-cases (n == 0)) [
      | inl h ↦ rw (h, positive, there e) refl
      | inr h ↦ rw (h, positive) refl
    ]

-- The loop: a key of the rest is copied, and any other is as in the map so far.
copy_ids_lem :
    (progress : List (ℕ × Progress)) (ids : List ℕ) (m : List (ℕ × Progress))
    → ((z : ℕ) → 0 < occurrences z ids → 0 < occurrences z (keys progress))
    → (m' : List (ℕ × Progress)) × (copy_ids progress ids m ≡ ok m')
      × ((z : ℕ)
          → lookup z m'
            ≡ (if occurrences z ids == 0 then lookup z m else copied (lookup z progress)))
unfolding copy_ids occurrences
copy_ids_lem progress [] m within = (m, refl, λ z. refl)
copy_ids_lem progress (id ∷ ids) m within =
    let (pr, found) = lookup_found id progress (within id (ground arith)) in
    let (m', r, f) =
      copy_ids_lem progress ids (insert id (copy_of pr) m) (λ z h. within z (ground (arith, h))) in
    (m', rw found r, λ z. f z ∙ copy_at progress m id z (occurrences z ids) pr found)

-- What a node tells of its followers is a copy of its map: it does not panic, and at every id it has
-- what the map has there, each field of the follower and of its inflights, or nothing where the map has
-- nothing.
pub lookup-get_progress_copy :
    (r : Raft)
    → (m : List (ℕ × Progress)) × (get_progress_copy r ≡ ok m)
      × ((z : ℕ) → lookup z m ≡ lookup z r.trk.progress)
unfolding get_progress_copy
lookup-get_progress_copy r =
    let (rises, same) = visit_ids_lem r.trk in
    let (m, returns, at) =
      copy_ids_lem r.trk.progress (visit_ids r.trk) [] (λ z h. omega (arith, h, same z)) in
    (m, returns, λ z. at z ∙ out z (same z) ∙ copied_same (lookup z r.trk.progress))
  where
    out :
        (z : ℕ)
        → occurrences z (visit_ids r.trk) ≡ occurrences z (keys r.trk.progress)
        → (if occurrences z (visit_ids r.trk) == 0
            then lookup z []
            else copied (lookup z r.trk.progress))
          ≡ copied (lookup z r.trk.progress)
    out z same = elim (Bool-cases (occurrences z (visit_ids r.trk) == 0)) [
      | inl e ↦ rw (e, lookup_missing z r.trk.progress (ground (arith, e, same))) refl
      | inr e ↦ rw e refl
    ]
