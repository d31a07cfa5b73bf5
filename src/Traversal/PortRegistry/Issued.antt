-- ===== src/Traversal/PortRegistry/Issued.antt =====
-- The generations that the registry of internal/traversal/portregistry.go has given out.
use anti_nat_agent.Base.{
  ℕ, suc, ◌+◌, ◌%◌, ◌≤◌, ◌<◌, ◌≡◌, refl, inl, inr, false, some, List, [], ◌∷◌, String, arith,
  Bool-cases, word, length,
}
use anti_nat_agent.Traversal.PortRegistry.{
  TupleKey, key_eq, LeaseEntry, PortRegistry, lookup, insert, delete, normalize, Listen, refused,
  bound, resolve, acquire_as, release_finish, new_port_registry,
}
use anti_nat_agent.Traversal.PortRegistry.Exclusive.{Entries}
use anti_nat_agent.Traversal.PortRegistry.Histories.{Event, acquires, begins, finishes, step, run}
use anti_nat_agent.Traversal.PortRegistry.Spent.{
  bears, bears-delete, bears-insert, bears-lookup, step-generation,
}

-- Every generation is given out once: no two entries share one, and none is above the counter.
abbrev Distinct : Entries → Type 0
Distinct [] = Unit {0}
Distinct ((k, e) ∷ m) = (bears e.generation m ≡ false) × Distinct m

abbrev pub Under : ℕ → Entries → Type 0
Under g [] = Unit {0}
Under g ((k, e) ∷ m) = (e.generation ≤ g) × Under g m

pub record IsIssued (r : PortRegistry) : Type 0 where
  pub distinct : Distinct r.entries
  pub under : Under r.generation r.entries

Under-bears : (g h : ℕ) (m : Entries) → Under g m → g < h → bears h m ≡ false
unfolding bears
Under-bears g h [] u lt = refl
Under-bears g h ((k, e) ∷ m) u lt = ground (arith, Under-bears g h m u.1 lt)

Under-mono : (g h : ℕ) (m : Entries) → Under g m → g ≤ h → Under h m
Under-mono g h [] u le = tt
Under-mono g h ((k, e) ∷ m) u le = (omega arith, Under-mono g h m u.1 le)

insert-Under :
    (g : ℕ) (k : TupleKey) (e : LeaseEntry) (m : Entries)
    → e.generation ≤ g
    → Under g m
    → Under g (insert k e m)
unfolding insert
insert-Under g k e [] le u = (le, tt)
insert-Under g k e ((j, d) ∷ m) le u = elim (Bool-cases (key_eq j k)) [
  | inl same ↦ rw same (le, u.1)
  | inr other ↦ rw other (u.0, insert-Under g k e m le u.1)
]

delete-Under : (g : ℕ) (k : TupleKey) (m : Entries) → Under g m → Under g (delete k m)
unfolding delete
delete-Under g k [] u = tt
delete-Under g k ((j, d) ∷ m) u = elim (Bool-cases (key_eq j k)) [
  | inl same ↦ rw same u.1
  | inr other ↦ rw other (u.0, delete-Under g k m u.1)
]

insert-Distinct :
    (k : TupleKey) (e : LeaseEntry) (m : Entries)
    → bears e.generation m ≡ false
    → Distinct m
    → Distinct (insert k e m)
unfolding insert bears
insert-Distinct k e [] h v = (refl, tt)
insert-Distinct k e ((j, d) ∷ m) h v = elim (Bool-cases (key_eq j k)) [
  | inl same ↦ rw same (ground arith, v.1)
  | inr other ↦
      rw other (
        bears-insert d.generation k e m (ground arith) v.0,
        insert-Distinct k e m (ground arith) v.1,
      )
]

delete-Distinct : (k : TupleKey) (m : Entries) → Distinct m → Distinct (delete k m)
unfolding delete
delete-Distinct k [] v = tt
delete-Distinct k ((j, d) ∷ m) v = elim (Bool-cases (key_eq j k)) [
  | inl same ↦ rw same v.1
  | inr other ↦ rw other (bears-delete d.generation k m v.0, delete-Distinct k m v.1)
]

-- What a deletion takes out bore its generation alone.
pub delete-bears :
    (k : TupleKey) (m : Entries) (e : LeaseEntry)
    → Distinct m
    → lookup k m ≡ some e
    → bears e.generation (delete k m) ≡ false
unfolding lookup delete bears
delete-bears k [] e v q = absurd (cc)
delete-bears k ((j, d) ∷ m) e v q = elim (Bool-cases (key_eq j k)) [
  | inl same ↦ rw same (ground (arith, same))
  | inr other ↦
      let found : lookup k m ≡ some e = rw other at q in
      rw other
        (ground (arith, delete-bears k m e v.1 found, bears-lookup d.generation k m e v.0 found))
]

acquire_as-IsIssued :
    (r : PortRegistry) (protocol owner : String) (key : TupleKey) (answer : Listen)
    → suc r.generation < word
    → IsIssued r
    → IsIssued (acquire_as protocol r owner key answer).registry
unfolding acquire_as resolve
acquire_as-IsIssued r protocol owner key refused h v = ground arith
acquire_as-IsIssued r protocol owner key (bound socket port) h v =
    let entry : LeaseEntry = record {
      owner = owner;
      generation = (r.generation + 1) % word;
      lease = socket;
    } in
    let actual : TupleKey = record (normalize key) { port = port } in
    let fresh : bears ((r.generation + 1) % word) r.entries ≡ false =
      Under-bears r.generation _ r.entries v.under (omega arith) in
    ground (
      arith,
      insert-Distinct actual entry r.entries fresh v.distinct,
      insert-Under ((r.generation + 1) % word) actual entry r.entries (omega arith)
          (Under-mono r.generation _ r.entries v.under (omega arith)),
    )

step-IsIssued :
    (r : PortRegistry) (e : Event) → suc r.generation < word → IsIssued r → IsIssued (step r e)
unfolding step release_finish
step-IsIssued r (acquires protocol owner key answer) h v =
    acquire_as-IsIssued r protocol owner key answer h v
step-IsIssued r (begins l) h v = v
step-IsIssued r (finishes l) h v = ground (
  arith,
  delete-Distinct l.actual r.entries v.distinct,
  delete-Under r.generation l.actual r.entries v.under,
)

run_from-IsIssued :
    (r : PortRegistry) (es : List Event)
    → r.generation + length es < word
    → IsIssued r
    → IsIssued (run r es) × ((run r es).generation ≤ r.generation + length es)
unfolding run
run_from-IsIssued r [] h v = (v, omega arith)
run_from-IsIssued r (e ∷ es) h v =
    let (w, le) =
      run_from-IsIssued (step r e) es (omega (arith, step-generation r e))
        (step-IsIssued r e (omega arith) v) in
    (w, omega (arith, step-generation r e))

pub run-IsIssued :
    (es : List Event)
    → length es < word
    → IsIssued (run new_port_registry es) × ((run new_port_registry es).generation ≤ length es)
unfolding new_port_registry
run-IsIssued es h =
    let (v, le) =
      run_from-IsIssued new_port_registry es (omega arith) (record { distinct = tt; under = tt }) in
    (v, omega arith)
