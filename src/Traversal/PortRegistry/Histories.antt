-- ===== src/Traversal/PortRegistry/Histories.antt =====
-- Histories of the registry of internal/traversal/portregistry.go. The two critical sections of
-- `release` are two events, so that any other call may come between.
use anti_nat_agent.Base.{List, [], ◌∷◌, String}
use anti_nat_agent.Traversal.PortRegistry.{
  TupleKey, Lease, PortRegistry, Listen, acquire_as, release_finish,
}

pub data Event : Type 0 where
  acquires : (protocol owner : String) (key : TupleKey) (answer : Listen) → Event
  begins : Lease → Event
  finishes : Lease → Event

unfoldable pub step : PortRegistry → Event → PortRegistry
step r (acquires protocol owner key answer) = (acquire_as protocol r owner key answer).registry
step r (begins l) = r
step r (finishes l) = (release_finish r l).0

unfoldable pub run : PortRegistry → List Event → PortRegistry
run r [] = r
run r (e ∷ es) = run (step r e) es
