-- ===== src/Log/Unstable/Terms.antt =====
-- What the unstable part of the log answers about terms, and what `stableTo` drops.
use my_raft_kv.Prelude.{
  ℕ, suc, ◌+◌, ◌-◌, ◌^◌, ◌≤◌, ◌<◌, ◌≡◌, ◌≢◌, ◌⊎◌, inl, inr, refl, sym, ◌∙◌, Option, none, some,
  List, [], ◌∷◌, length, drop, take, get_elem?, get_elem?-drop, get_elem?-some, get_elem?-beyond,
  length-drop, take_all, ap, true, ltb, ◌==◌, ◌>>=◌, if◌then◌else◌, arith, ok, add64, sub64,
}
use native.Mathlib.Decide.{dec_lt}
use my_raft_kv.Log.Entries.{Entry, Snapshot, SnapshotMetadata}
use my_raft_kv.Log.Unstable.{Unstable, maybe_last_index, maybe_term, stable_to, stable_at}

-- A snapshot, if there is one, has metadata and ends below the entries, and the index after the last
-- entry is a uint64.
pub record IsValid (u : Unstable) : Type 0 where
  pub small : u.offset + length u.entries < 2 ^ 64
  pub before :
      (u.snap ≡ none)
      ⊎ ((s : Snapshot) × (md : SnapshotMetadata) × (u.snap ≡ some s)
          × (s.metadata ≡ some md)
          × (md.index < u.offset))

-- The term of the entry at a place of a list.
abbrev pub term_at : List Entry → ℕ → Option ℕ
term_at es i = elim (get_elem? es i) [ none ↦ none | some e ↦ some e.term ]

-- From the offset on, `maybeTerm` never panics: it answers with the term of the entry that the index
-- stands for, and has no answer past the last entry.
pub maybe_term_entry :
    {u : Unstable} (v : IsValid u) (i : ℕ)
    → u.offset ≤ i
    → i < 2 ^ 64
    → maybe_term u i ≡ ok (term_at u.entries (i - u.offset))
unfolding maybe_term maybe_last_index
maybe_term_entry {u} v i p q = by_entries u.entries refl
  where
    near : sub64 i u.offset ≡ i - u.offset
    near = omega (arith, p, q, v.small)

    by_entries :
        (es : List Entry) → u.entries ≡ es → maybe_term u i ≡ ok (term_at u.entries (i - u.offset))
    by_entries [] e = elim v.before [
      | inl b ↦ rw (e, b, maybe_term) (ground arith)
      | inr (s, md, b, m, h) ↦ rw (e, b, m, maybe_term) (ground (arith, h, p))
    ]
    by_entries (x ∷ es) e = elim (dec_lt (i - u.offset) (suc (length es))) [
      | yes h ↦
          let (y, g) = get_elem?-some (x ∷ es) (i - u.offset) h in
          ground (arith, e, near, g, p, q, h, v.small)
      | no h ↦
          let g = get_elem?-beyond (x ∷ es) (i - u.offset) (omega (arith, h)) in
          ground (arith, e, near, g, p, q, h, v.small)
    ]

-- Below the offset the answer is that of the snapshot, or none.
maybe_term_before :
    {u : Unstable} (v : IsValid u) (i : ℕ)
    → i < u.offset
    → (gt : Option ℕ) × (maybe_term u i ≡ ok gt)
unfolding maybe_term
maybe_term_before {u} v i p = elim v.before [
  | inl b ↦ (none, rw (below, b))
  | inr (s, md, b, m, h) ↦ (if md.index == i then some md.term else none, rw (below, b, m))
]
  where
    below : ltb i u.offset ≡ true
    below = ground (arith, p)

-- There it drops nothing, whatever the term of the snapshot.
stable_to_before : {u : Unstable} (v : IsValid u) (i t : ℕ) → i < u.offset → stable_to u i t ≡ ok u
unfolding stable_to
stable_to_before {u} v i t p =
    let (gt, e) = maybe_term_before v i p in ap (λ m. m >>= λ gt. stable_at u i t gt) e ∙ kept gt
  where
    kept : (gt : Option ℕ) → stable_at u i t gt ≡ ok u
    kept none = refl
    kept (some gt) = ground (arith, p)

stable_to_held :
    {u : Unstable} (v : IsValid u) (i t : ℕ)
    → u.offset ≤ i
    → term_at u.entries (i - u.offset) ≡ some t
    → (u' : Unstable) × (stable_to u i t ≡ ok u')
      × IsValid u'
      × (u'.offset ≡ i + 1)
      × (u'.entries ≡ drop (i + 1 - u.offset) u.entries)
      × ((j : ℕ) → i < j → j < 2 ^ 64 → maybe_term u' j ≡ maybe_term u j)
unfolding stable_to
stable_to_held {u} v i t p h =
    (u', rw (maybe_term_entry v i p (omega (arith, q)), stable_to, h) dropped, w, refl, refl, later)
  where
    n : ℕ
    n = i + 1 - u.offset

    inside : n ≤ length u.entries
    inside = elim (dec_lt (i - u.offset) (length u.entries)) [
      | yes b ↦ omega (arith, b)
      | no b ↦ let g = get_elem?-beyond u.entries (i - u.offset) (omega (arith, b)) in ground arith
    ]

    q : i + 1 < 2 ^ 64
    q = omega (arith, inside, p, v.small)

    u' : Unstable
    u' = record u { entries = drop n u.entries; offset = i + 1 }

    rest : take (length u.entries - n) (drop n u.entries) ≡ drop n u.entries
    rest =
        take_all (length u.entries - n) (drop n u.entries) (omega (arith, length-drop n u.entries))

    cut : sub64 (add64 i 1) u.offset ≡ n
    cut = omega (arith, p, q)

    dropped : stable_at u i t (some t) ≡ ok u'
    dropped = ground (arith, cut, rest, inside, p, q)

    w : IsValid u'
    w = record {
      small = omega (arith, length-drop n u.entries, inside, v.small);
      before = ground (arith, v.before, p);
    }

    shifted : (j : ℕ) → i < j → n + (j - (i + 1)) ≡ j - u.offset
    shifted j a = omega (arith, a, p)

    later : (j : ℕ) → i < j → j < 2 ^ 64 → maybe_term u' j ≡ maybe_term u j
    later j a b =
        maybe_term_entry w j (omega (arith, a)) b
        ∙ ground (arith, get_elem?-drop n u.entries (j - (i + 1)), shifted j a)
        ∙ sym (maybe_term_entry v j (omega (arith, a, p)) b)

-- The unstable entries have one at an index, and it is of a term.
abbrev pub Holds : Unstable → ℕ → ℕ → Type 0
Holds u i t = (u.offset ≤ i) × (term_at u.entries (i - u.offset) ≡ some t)

-- `stableTo` at an index whose entry is unstable and has the given term drops the entries up to it: the
-- rest stays valid, and later indices keep their terms. In every other case nothing changes: with
-- another term, past the last entry, and below the offset, also where the snapshot has that index and
-- that term.
pub stable_to_lem :
    {u : Unstable} (v : IsValid u) (i t : ℕ)
    → i < 2 ^ 64
    → (Holds u i t
        → (u' : Unstable) × (stable_to u i t ≡ ok u')
          × IsValid u'
          × (u'.offset ≡ i + 1)
          × (u'.entries ≡ drop (i + 1 - u.offset) u.entries)
          × ((j : ℕ) → i < j → j < 2 ^ 64 → maybe_term u' j ≡ maybe_term u j))
      × (¬ Holds u i t → stable_to u i t ≡ ok u)
unfolding stable_to
stable_to_lem {u} v i t q = (
  λ (p, h). stable_to_held v i t p h,
  λ n. elim (dec_lt i u.offset) [
    | yes b ↦ stable_to_before v i t b
    | no b ↦
        let other : term_at u.entries (i - u.offset) ≢ some t = λ h. n (omega (arith, b), h) in
        rw (maybe_term_entry v i (omega (arith, b)) q, stable_to) (ground (arith, other))
  ],
)
