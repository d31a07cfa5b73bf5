-- ===== src/Traversal/PortRegistry/Tests.antt =====
-- Runs and witnesses of the port registry.
use anti_nat_agent.Base.{◌≡◌, refl, ◌⊎◌, none, some, List, [], ◌∷◌, arith, if◌then◌else◌}
use anti_nat_agent.Traversal.PortRegistry.{
  stale_lease, tuple_overlap, TupleKey, key_eq, Lease, LeaseEntry, lookup, bound, normalize,
  overlaps, overlaps_locked, insert, validate_acquire_locked, acquire, acquire_as, release_begin,
  release_finish, new_port_registry, len, release, close_refused,
}
use anti_nat_agent.Traversal.PortRegistry.Exclusive.{
  IsExclusive, made, Grants, Refuses, acquire_as-cases,
}
use anti_nat_agent.Traversal.PortRegistry.Histories.{Event, acquires, step, run}
use anti_nat_agent.Traversal.PortRegistry.Generations.{
  Owns, run-IsExclusive, release_once, release_finish-deletes,
}

abbrev web : TupleKey
web = record { family = "ipv4"; protocol = "tcp"; address = "127.0.0.1"; port = 8080 }

abbrev any_address : TupleKey
any_address = record { family = "ipv4"; protocol = "tcp"; address = "::"; port = 8080 }

abbrev history : List Event
history =
    acquires "tcp" "forward-1" web (bound 7 8080)
    ∷ acquires "tcp" "forward-2" any_address (bound 8 8080)
    ∷ []

abbrev web_lease : Lease
web_lease = record { listener = 7; actual = web; owner = "forward-1"; generation = 1 }

wildcard_overlaps :
    (acquire (run new_port_registry history) "forward-2" any_address (bound 8 8080)).error
    ≡ some tuple_overlap
unfolding acquire validate_acquire_locked run step new_port_registry normalize overlaps
    overlaps_locked insert
wildcard_overlaps = refl

one_held : len (run new_port_registry history) ≡ 1
unfolding len acquire validate_acquire_locked run step new_port_registry normalize overlaps
    overlaps_locked insert
one_held = refl

failed_close_keeps :
    (release (run new_port_registry history) web_lease close_refused).0
    ≡ run new_port_registry history
unfolding release lookup acquire validate_acquire_locked run step new_port_registry normalize
    overlaps overlaps_locked insert
failed_close_keeps = refl

released : (release_finish (run new_port_registry history) web_lease).1 ≡ none
unfolding release_finish lookup acquire_as validate_acquire_locked run step new_port_registry
    normalize overlaps overlaps_locked insert
released = refl

run-IsExclusive_example : IsExclusive (run new_port_registry history)
run-IsExclusive_example = run-IsExclusive history

abbrev again : List Event
again = acquires "tcp" "forward-2" web (bound 9 8080) ∷ []

release_once_example :
    let r = run (release_finish (run new_port_registry history) web_lease).0 again in
    (release_begin r web_lease ≡ some stale_lease)
    × (release_finish r web_lease ≡ (r, some stale_lease))
release_once_example = release_once history again web_lease (omega arith) released

release_finish-deletes_example :
    let r = run new_port_registry history in
    let (r', error) = release_finish r web_lease in
    ((e : LeaseEntry) × (lookup web r.entries ≡ some e)
      × Owns web_lease e
      × (error ≡ none)
      × (r'.generation ≡ r.generation)
      × ((j : TupleKey)
          → lookup j r'.entries ≡ (if key_eq web j then none else lookup j r.entries)))
    ⊎ (((e : LeaseEntry) → lookup web r.entries ≡ some e → ¬ Owns web_lease e)
        × (error ≡ some stale_lease)
        × (r' ≡ r))
release_finish-deletes_example = release_finish-deletes history web_lease

acquire_as-cases_example :
    let r = run new_port_registry history in
    let a = acquire_as "tcp" r "forward-2" any_address (bound 8 8080) in
    let socket = made (validate_acquire_locked r "forward-2" any_address "tcp") (bound 8 8080) in
    Grants r "forward-2" socket a ⊎ Refuses r socket a
acquire_as-cases_example =
    acquire_as-cases "tcp" (run new_port_registry history) "forward-2" any_address (bound 8 8080)
