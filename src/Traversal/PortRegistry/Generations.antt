-- ===== src/Traversal/PortRegistry/Generations.antt =====
-- Histories of the registry of internal/traversal/portregistry.go: what they keep, and what a stale
-- lease can do.
use text.Mathlib.TextEquality.{eq_iff}
use anti_nat_agent.Base.{
  ℕ, ◌⊎◌, ◌+◌, ◌≤◌, ◌<◌, ◌≡◌, inl, inr, none, some, List, [], ◌∷◌, arith, Bool-cases, Option-cases,
  if◌then◌else◌, word, length,
}
use anti_nat_agent.Traversal.PortRegistry.{
  stale_lease, TupleKey, key_eq, LeaseEntry, Lease, PortRegistry, lookup, owns, release_begin,
  release_finish, new_port_registry,
}
use anti_nat_agent.Traversal.PortRegistry.Exclusive.{
  Entries, IsExclusive, acquire_as-IsExclusive, release_finish-IsExclusive, lookup-delete,
}
use anti_nat_agent.Traversal.PortRegistry.Histories.{Event, acquires, begins, finishes, step, run}
use anti_nat_agent.Traversal.PortRegistry.Spent.{IsSpent, IsSpent-stale, run-IsSpent}
use anti_nat_agent.Traversal.PortRegistry.Issued.{IsIssued, Under, delete-bears, run-IsIssued}

step-IsExclusive : (r : PortRegistry) (e : Event) → IsExclusive r → IsExclusive (step r e)
unfolding step
step-IsExclusive r (acquires protocol owner key answer) s =
    acquire_as-IsExclusive protocol r owner key answer s
step-IsExclusive r (begins l) s = s
step-IsExclusive r (finishes l) s = release_finish-IsExclusive r l s

run_from-IsExclusive : (r : PortRegistry) (es : List Event) → IsExclusive r → IsExclusive (run r es)
unfolding run
run_from-IsExclusive r [] s = s
run_from-IsExclusive r (e ∷ es) s = run_from-IsExclusive (step r e) es (step-IsExclusive r e s)

-- After any calls at all on a new registry, in any order and with any answers of the operating
-- system, no two tuples that are held overlap.
pub run-IsExclusive : (es : List Event) → IsExclusive (run new_port_registry es)
run-IsExclusive es = run_from-IsExclusive new_port_registry es (unfold new_port_registry in tt)

lookup-Under :
    (g : ℕ) (k : TupleKey) (m : Entries) (e : LeaseEntry)
    → Under g m
    → lookup k m ≡ some e
    → e.generation ≤ g
unfolding lookup
lookup-Under g k [] e u q = absurd (cc)
lookup-Under g k ((j, d) ∷ m) e u q = elim (Bool-cases (key_eq j k)) [
  | inl same ↦ ground (arith, same)
  | inr other ↦ lookup-Under g k m e u.1 (rw other at q)
]

-- A release that went through spends the lease's generation.
release_finish-spends :
    (r : PortRegistry) (l : Lease)
    → IsIssued r
    → (release_finish r l).1 ≡ none
    → IsSpent l.generation (release_finish r l).0
unfolding release_finish
release_finish-spends r l v h = elim (Option-cases (lookup l.actual r.entries)) [
  | inl missing ↦ absurd (ground (arith, missing))
  | inr (e, found) ↦ ground (
    arith,
    found,
    delete-bears l.actual r.entries e v.distinct found,
    lookup-Under r.generation l.actual r.entries e v.under found,
  )
]

release_finish-generation :
    (r : PortRegistry) (l : Lease) → (release_finish r l).0.generation ≡ r.generation
unfolding release_finish
release_finish-generation r l = ground arith

-- A lease is good for one release. Once a Release of it has gone through, at any point of any
-- history of a new registry, then after any further calls, fewer than 2 ^ 64 in all, both critical
-- sections of another Release of it answer ErrStaleLease, and the registry is left as it is:
-- nobody else's entry goes, also if the tuple was given to a new owner.
pub release_once :
    (before after : List Event) (l : Lease)
    → length before + length after < word
    → (release_finish (run new_port_registry before) l).1 ≡ none
    → let r = run (release_finish (run new_port_registry before) l).0 after in
      (release_begin r l ≡ some stale_lease) × (release_finish r l ≡ (r, some stale_lease))
release_once before after l h q =
    let r = run new_port_registry before in
    let (v, le) = run-IsIssued before (omega arith) in
    IsSpent-stale l _ (
      run-IsSpent l.generation (release_finish r l).0 after
        (omega (arith, release_finish-generation r l)) (release_finish-spends r l v q))

-- A lease is the owner of an entry: owner, generation and lease object are its own.
abbrev pub Owns : Lease → LeaseEntry → Type 0
Owns l e = (e.owner ≡ l.owner) × (e.generation ≡ l.generation) × (e.lease ≡ l.listener)

-- The second critical section of a release, in every state that a new registry reaches: where the
-- entry under the lease's tuple is the lease's own, exactly that entry goes; where it is another's,
-- or there is none, the answer is ErrStaleLease and the registry stays as it was.
pub release_finish-deletes :
    (es : List Event) (l : Lease)
    → let r = run new_port_registry es in
      let (r', error) = release_finish r l in
      ((e : LeaseEntry) × (lookup l.actual r.entries ≡ some e)
        × Owns l e
        × (error ≡ none)
        × (r'.generation ≡ r.generation)
        × ((j : TupleKey)
            → lookup j r'.entries ≡ (if key_eq l.actual j then none else lookup j r.entries)))
      ⊎ (((e : LeaseEntry) → lookup l.actual r.entries ≡ some e → ¬ Owns l e)
          × (error ≡ some stale_lease)
          × (r' ≡ r))
unfolding release_finish
release_finish-deletes es l =
    let r = run new_port_registry es in
    elim (Option-cases (lookup l.actual r.entries)) [
      | inl missing ↦ inr (λ e found own. absurd (ground arith), ground arith, ground arith)
      | inr (e, found) ↦ elim (Bool-cases (owns l (some e))) [
        | inl own ↦ inl (
          e,
          found,
          ground (arith, eq_iff e.owner l.owner),
          ground arith,
          ground arith,
          λ j. ground (arith, lookup-delete j l.actual r.entries (run-IsExclusive es)),
        )
        | inr other ↦ inr (
          λ d there own. absurd (ground (arith, eq_iff e.owner l.owner)),
          ground arith,
          ground arith,
        )
      ]
    ]
