-- ===== src/Traversal/PortRegistry/Spent.antt =====
-- A generation of internal/traversal/portregistry.go that no entry has, and none will get again.
use anti_nat_agent.Base.{
  ℕ, suc, Bool, ◌||◌, ◌==◌, ◌+◌, ◌%◌, ◌≤◌, ◌<◌, ◌≡◌, refl, inl, inr, ◌≢◌, false, some, List, [],
  ◌∷◌, String, arith, Bool-cases, Option-cases, word, length,
}
use anti_nat_agent.Traversal.PortRegistry.{
  stale_lease, TupleKey, key_eq, LeaseEntry, Lease, PortRegistry, lookup, insert, delete, normalize,
  Listen, refused, bound, resolve, acquire_as, owns, release_begin, release_finish,
}
use anti_nat_agent.Traversal.PortRegistry.Exclusive.{Entries}
use anti_nat_agent.Traversal.PortRegistry.Histories.{Event, acquires, begins, finishes, step, run}

-- Some entry was made at generation `g`.
unfoldable pub bears : ℕ → Entries → Bool
bears g [] = false
bears g ((k, e) ∷ m) = e.generation == g || bears g m

pub bears-insert :
    (g : ℕ) (k : TupleKey) (e : LeaseEntry) (m : Entries)
    → e.generation ≢ g
    → bears g m ≡ false
    → bears g (insert k e m) ≡ false
unfolding bears insert
bears-insert g k e [] n h = ground arith
bears-insert g k e ((j, d) ∷ m) n h = elim (Bool-cases (key_eq j k)) [
  | inl same ↦ rw same (ground arith)
  | inr other ↦ rw other (ground (arith, bears-insert g k e m n))
]

pub bears-delete :
    (g : ℕ) (k : TupleKey) (m : Entries) → bears g m ≡ false → bears g (delete k m) ≡ false
unfolding bears delete
bears-delete g k [] h = refl
bears-delete g k ((j, d) ∷ m) h = elim (Bool-cases (key_eq j k)) [
  | inl same ↦ rw same (ground arith)
  | inr other ↦ rw other (ground (arith, bears-delete g k m))
]

pub bears-lookup :
    (g : ℕ) (k : TupleKey) (m : Entries) (e : LeaseEntry)
    → bears g m ≡ false
    → lookup k m ≡ some e
    → e.generation ≢ g
unfolding bears lookup
bears-lookup g k [] e h q = absurd (cc)
bears-lookup g k ((j, d) ∷ m) e h q = elim (Bool-cases (key_eq j k)) [
  | inl same ↦ ground (arith, same)
  | inr other ↦ bears-lookup g k m e (ground arith) (rw other at q)
]

-- A generation that was given out and that no entry bears any more.
pub record IsSpent (g : ℕ) (r : PortRegistry) : Type 0 where
  pub issued : g ≤ r.generation
  pub held_by_none : bears g r.entries ≡ false

acquire_as-IsSpent :
    (g : ℕ) (r : PortRegistry) (protocol owner : String) (key : TupleKey) (answer : Listen)
    → suc r.generation < word
    → IsSpent g r
    → IsSpent g (acquire_as protocol r owner key answer).registry
unfolding acquire_as resolve
acquire_as-IsSpent g r protocol owner key refused h v = ground arith
acquire_as-IsSpent g r protocol owner key (bound socket port) h v = ground (
  arith,
  bears-insert g (record (normalize key) { port = port })
      (record { owner = owner; generation = (r.generation + 1) % word; lease = socket }) r.entries,
)

release_finish-IsSpent :
    (g : ℕ) (r : PortRegistry) (l : Lease) → IsSpent g r → IsSpent g (release_finish r l).0
unfolding release_finish
release_finish-IsSpent g r l v = ground (arith, bears-delete g l.actual r.entries)

step-IsSpent :
    (g : ℕ) (r : PortRegistry) (e : Event)
    → suc r.generation < word
    → IsSpent g r
    → IsSpent g (step r e)
unfolding step
step-IsSpent g r (acquires protocol owner key answer) h v =
    acquire_as-IsSpent g r protocol owner key answer h v
step-IsSpent g r (begins l) h v = v
step-IsSpent g r (finishes l) h v = release_finish-IsSpent g r l v

pub step-generation : (r : PortRegistry) (e : Event) → (step r e).generation ≤ suc r.generation
unfolding step acquire_as resolve release_finish
step-generation r (acquires protocol owner key refused) = ground arith
step-generation r (acquires protocol owner key (bound socket port)) = ground arith
step-generation r (begins l) = omega arith
step-generation r (finishes l) = ground arith

pub run-IsSpent :
    (g : ℕ) (r : PortRegistry) (es : List Event)
    → r.generation + length es < word
    → IsSpent g r
    → IsSpent g (run r es)
unfolding run
run-IsSpent g r [] h v = v
run-IsSpent g r (e ∷ es) h v =
    run-IsSpent g (step r e) es (omega (arith, step-generation r e))
      (step-IsSpent g r e (omega arith) v)

owns-IsSpent :
    (l : Lease) (r : PortRegistry)
    → IsSpent l.generation r
    → owns l (lookup l.actual r.entries) ≡ false
owns-IsSpent l r v = elim (Option-cases (lookup l.actual r.entries)) [
  | inl missing ↦ rw missing
  | inr (e, found) ↦
      rw found (ground (arith, bears-lookup l.generation l.actual r.entries e v.held_by_none found))
]

-- A lease whose generation is spent.
pub IsSpent-stale :
    (l : Lease) (r : PortRegistry)
    → IsSpent l.generation r
    → (release_begin r l ≡ some stale_lease) × (release_finish r l ≡ (r, some stale_lease))
unfolding release_begin release_finish
IsSpent-stale l r v = (rw (owns-IsSpent l r v), rw (owns-IsSpent l r v))
