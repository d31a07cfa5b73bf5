-- ===== src/Traversal/PortRegistry/Exclusive.antt =====
-- Socket ownership is exclusive: the tuples that the registry of
-- internal/traversal/portregistry.go holds never overlap.
use text.Mathlib.TextEquality.{eq_iff}
use anti_nat_agent.Base.{
  ℕ, ◌+◌, ◌%◌, ◌≡◌, refl, subst, ◌↔◌, ◌⊎◌, inl, inr, true, false, Option, none, some, List, [], ◌∷◌,
  String, arith, All, Bool-cases, Option-cases, if◌then◌else◌, word,
}
use anti_nat_agent.Traversal.PortRegistry.{
  Error, tuple_overlap, listen_failed, TupleKey, key_eq, overlaps, LeaseEntry, Lease, PortRegistry,
  lookup, insert, delete, overlaps_locked, normalize, validate_acquire_locked, Listen, refused,
  bound, Acquired, resolve, acquire_as, release_finish,
}

abbrev pub Entries : Type 0
Entries = List (TupleKey × LeaseEntry)

-- No two tuples of the table overlap.
abbrev pub Separate : Entries → Type 0
Separate [] = Unit {0}
Separate ((k, e) ∷ m) = All (λ p. overlaps k p.0 ≡ false) m × Separate m

pub key_eq_iff : (k j : TupleKey) → (key_eq k j ≡ true) ↔ (k ≡ j)
key_eq_iff k j = (
  λ h.
      ground
        (arith, eq_iff k.family j.family, eq_iff k.protocol j.protocol, eq_iff k.address j.address),
  λ h.
      ground
        (arith, eq_iff k.family j.family, eq_iff k.protocol j.protocol, eq_iff k.address j.address),
)

key_eq-overlaps : (k j : TupleKey) → key_eq k j ≡ true → overlaps k j ≡ true
unfolding overlaps
key_eq-overlaps k j h = ground arith

module _ (P : TupleKey × LeaseEntry → Type 0) where
  pub insert-All :
      (k : TupleKey) (e : LeaseEntry) (m : Entries) → P (k, e) → All P m → All P (insert k e m)
  unfolding insert
  insert-All k e [] p h = (p, tt)
  insert-All k e ((j, d) ∷ m) p h = elim (Bool-cases (key_eq j k)) [
    | inl same ↦ rw same (p, h.1)
    | inr other ↦ rw other (h.0, insert-All k e m p h.1)
  ]

  pub delete-All : (k : TupleKey) (m : Entries) → All P m → All P (delete k m)
  unfolding delete
  delete-All k [] h = tt
  delete-All k ((j, d) ∷ m) h = elim (Bool-cases (key_eq j k)) [
    | inl same ↦ rw same h.1
    | inr other ↦ rw other (h.0, delete-All k m h.1)
  ]

insert-Separate :
    (k : TupleKey) (e : LeaseEntry) (m : Entries)
    → overlaps_locked m k ≡ false
    → Separate m
    → Separate (insert k e m)
unfolding insert overlaps_locked
insert-Separate k e [] h s = (tt, tt)
insert-Separate k e ((j, d) ∷ m) h s = elim (Bool-cases (key_eq j k)) [
  | inl same ↦ absurd (ground (arith, key_eq-overlaps j k))
  | inr other ↦
      rw other (insert-All _ k e m (ground arith) s.0, insert-Separate k e m (ground arith) s.1)
]

delete-Separate : (k : TupleKey) (m : Entries) → Separate m → Separate (delete k m)
unfolding delete
delete-Separate k [] s = tt
delete-Separate k ((j, d) ∷ m) s = elim (Bool-cases (key_eq j k)) [
  | inl same ↦ rw same s.1
  | inr other ↦ rw other (delete-All _ k m s.0, delete-Separate k m s.1)
]

-- A tuple that overlaps none is no key of the table.
lookup_fresh : (k : TupleKey) (m : Entries) → overlaps_locked m k ≡ false → lookup k m ≡ none
unfolding lookup overlaps_locked
lookup_fresh k [] h = refl
lookup_fresh k ((j, d) ∷ m) h = ground (arith, key_eq-overlaps j k, lookup_fresh k m)

pub lookup-insert :
    (j k : TupleKey) (e : LeaseEntry) (m : Entries)
    → lookup j (insert k e m) ≡ (if key_eq k j then some e else lookup j m)
unfolding lookup insert
lookup-insert j k e [] = refl
lookup-insert j k e ((i, d) ∷ m) = elim (Bool-cases (key_eq i k)) [
  | inl same ↦ rw same (rw ((key_eq_iff i k).0 same) (ground arith))
  | inr other ↦
      rw other
        (ground (arith, lookup-insert j k e m, key_eq_iff i j, key_eq_iff k j, key_eq_iff i k))
]

overlaps_self : (k : TupleKey) → overlaps k k ≡ true
unfolding overlaps
overlaps_self k =
    ground
      (arith, eq_iff k.family k.family, eq_iff k.protocol k.protocol, eq_iff k.address k.address)

lookup_separate :
    (k : TupleKey) (m : Entries) → All (λ p. overlaps k p.0 ≡ false) m → lookup k m ≡ none
unfolding lookup
lookup_separate k [] h = refl
lookup_separate k ((j, d) ∷ m) h = elim (Bool-cases (key_eq j k)) [
  | inl same ↦
      let e : overlaps k k ≡ false =
        subst (λ i. overlaps k i ≡ false) ((key_eq_iff j k).0 same) h.0 in
      cc (overlaps_self k)
  | inr other ↦ rw other (lookup_separate k m h.1)
]

-- The table holds each tuple once, so a deletion leaves nothing under its key.
pub lookup-delete :
    (j k : TupleKey) (m : Entries)
    → Separate m
    → lookup j (delete k m) ≡ (if key_eq k j then none else lookup j m)
unfolding lookup delete
lookup-delete j k [] s = ground arith
lookup-delete j k ((i, d) ∷ m) s = elim (Bool-cases (key_eq i k)) [
  | inl same ↦ rw same (
      ground
        (arith, (key_eq_iff i k).0 same, key_eq_iff k j, key_eq_iff i j, lookup_separate i m s.0))
  | inr other ↦
      rw other
        (ground (arith, lookup-delete j k m s.1, key_eq_iff i j, key_eq_iff k j, key_eq_iff i k))
]

-- The registry holds no two overlapping tuples.
abbrev pub IsExclusive : PortRegistry → Type 0
IsExclusive r = Separate r.entries

pub acquire_as-IsExclusive :
    (protocol : String) (r : PortRegistry) (owner : String) (key : TupleKey) (answer : Listen)
    → IsExclusive r
    → IsExclusive (acquire_as protocol r owner key answer).registry
unfolding acquire_as resolve
acquire_as-IsExclusive protocol r owner key refused s = ground arith
acquire_as-IsExclusive protocol r owner key (bound socket port) s = ground (
  arith,
  insert-Separate (record (normalize key) { port = port })
      (record { owner = owner; generation = (r.generation + 1) % word; lease = socket }) r.entries,
)

pub release_finish-IsExclusive :
    (r : PortRegistry) (l : Lease) → IsExclusive r → IsExclusive (release_finish r l).0
unfolding release_finish
release_finish-IsExclusive r l s = ground (arith, delete-Separate l.actual r.entries s)

-- The socket that a call makes: none if its checks or the operating system refuse.
abbrev pub made : Option Error → Listen → Option ℕ
made (some e) answer = none
made none refused = none
made none (bound socket port) = some socket

-- A call that hands out a lease: its tuple overlapped none, and it alone is entered, for the owner.
abbrev pub Grants : PortRegistry → String → Option ℕ → Acquired → Type 0
Grants r owner socket a =
    (l : Lease) × (a.lease ≡ some l)
    × (a.error ≡ none)
    × (socket ≡ some l.listener)
    × (a.closed ≡ none)
    × (l.owner ≡ owner)
    × (overlaps_locked r.entries l.actual ≡ false)
    × ((j : TupleKey)
        → lookup j a.registry.entries ≡ (
            if key_eq l.actual j
            then some (record { owner = owner; generation = l.generation; lease = l.listener })
            else lookup j r.entries))

-- A call that returns an error: the table is as it was, and the socket is closed again.
abbrev pub Refuses : PortRegistry → Option ℕ → Acquired → Type 0
Refuses r socket a =
    (e : Error) × (a.error ≡ some e) × (a.lease ≡ none) × (a.closed ≡ socket) × (a.registry ≡ r)

resolve-cases :
    (r : PortRegistry) (owner : String) (key : TupleKey) (answer : Listen)
    → let a = resolve r owner key answer in
      Grants r owner (made none answer) a ⊎ Refuses r (made none answer) a
unfolding resolve
resolve-cases r owner key refused = inr (listen_failed, refl, refl, refl, refl)
resolve-cases r owner key (bound socket port) =
    elim (Bool-cases (overlaps_locked r.entries (record key { port = port }))) [
      | inl taken ↦ rw (taken, resolve) (inr (tuple_overlap, refl, refl, refl, refl))
      | inr open_tuple ↦
          rw (open_tuple, resolve)
            (inl (
              record {
                listener = socket;
                actual = record key { port = port };
                owner = owner;
                generation = (r.generation + 1) % word;
              },
              refl,
              refl,
              refl,
              refl,
              refl,
              open_tuple,
              λ j. lookup-insert j (record key { port = port }) _ r.entries,
            ))
    ]

-- A call of Acquire or AcquireUDP either hands out a lease on the socket that it made, whose tuple
-- overlapped no tuple of the table, and enters exactly that tuple under the caller's name; or it
-- returns an error, leaves the registry as it was, and has closed the socket that it made, if any.
pub acquire_as-cases :
    (protocol : String) (r : PortRegistry) (owner : String) (key : TupleKey) (answer : Listen)
    → let a = acquire_as protocol r owner key answer in
      let socket = made (validate_acquire_locked r owner key protocol) answer in
      Grants r owner socket a ⊎ Refuses r socket a
unfolding acquire_as
acquire_as-cases protocol r owner key answer =
    elim (Option-cases (validate_acquire_locked r owner key protocol)) [
      | inl passed ↦ rw (passed, acquire_as) (resolve-cases r owner (normalize key) answer)
      | inr (e, refusal) ↦ rw (refusal, acquire_as) (inr (e, refl, refl, refl, refl))
    ]
