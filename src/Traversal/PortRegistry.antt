-- ===== src/Traversal/PortRegistry.antt =====
-- internal/traversal/portregistry.go: the table of socket ownership. Every method but `release` is
-- one critical section; `release` gives the lock up while it closes the socket, and is two.
-- What the operating system does in a call is an argument of the call.
pub mod Exclusive
pub mod Histories
pub mod Spent
pub mod Issued
pub mod Generations
mod Tests
use text.Mathlib.Text.{◌==◌ as str_eq}
use anti_nat_agent.Base.{
  ℕ, ◌+◌, ◌%◌, Bool, true, false, not, ◌&&◌, ◌||◌, Option, none, some, List, [], ◌∷◌, String, ◌==◌,
  if◌then◌else◌, word, length,
}

pub data Error : Type 0 where
  tuple_overlap stale_lease unsupported_tuple owner_required : Error
  -- What the operating system answers.
  listen_failed close_failed : Error

pub record TupleKey : Type 0 where
  pub family : String
  pub protocol : String
  pub address : String
  pub port : ℕ

-- Go's `==` on the struct.
abbrev pub key_eq : TupleKey → TupleKey → Bool
key_eq k j =
    str_eq k.family j.family
    && (str_eq k.protocol j.protocol && (str_eq k.address j.address && k.port == j.port))

unfoldable pub normalize : TupleKey → TupleKey
normalize k =
    if str_eq k.address "" || (str_eq k.address "::" || str_eq k.address "0.0.0.0")
    then record k { address = "0.0.0.0" }
    else k

unfoldable pub overlaps : TupleKey → TupleKey → Bool
overlaps k other =
    if not (str_eq k.family other.family)
      || (not (str_eq k.protocol other.protocol) || not (k.port == other.port))
    then false
    else if str_eq k.address other.address
        || (str_eq k.address "0.0.0.0" || str_eq other.address "0.0.0.0")
    then true
    else false

-- A lease object owns the one socket that was made for it, so the socket's name is its identity.
pub record LeaseEntry : Type 0 where
  pub owner : String
  pub generation : ℕ
  pub lease : ℕ

pub record Lease : Type 0 where
  pub listener : ℕ
  pub actual : TupleKey
  pub owner : String
  pub generation : ℕ

pub record PortRegistry : Type 0 where
  pub entries : List (TupleKey × LeaseEntry)
  pub generation : ℕ

pub new_port_registry : PortRegistry
new_port_registry = record { entries = []; generation = 0 }

-- Go's map from keys to entries.
pub lookup : TupleKey → List (TupleKey × LeaseEntry) → Option LeaseEntry
lookup k [] = none
lookup k ((j, e) ∷ m) = if key_eq j k then some e else lookup k m

pub insert : TupleKey → LeaseEntry → List (TupleKey × LeaseEntry) → List (TupleKey × LeaseEntry)
insert k e [] = (k, e) ∷ []
insert k e ((j, d) ∷ m) = if key_eq j k then (k, e) ∷ m else (j, d) ∷ insert k e m

pub delete : TupleKey → List (TupleKey × LeaseEntry) → List (TupleKey × LeaseEntry)
delete k [] = []
delete k ((j, d) ∷ m) = if key_eq j k then m else (j, d) ∷ delete k m

pub overlaps_locked : List (TupleKey × LeaseEntry) → TupleKey → Bool
overlaps_locked [] candidate = false
overlaps_locked ((existing, _) ∷ m) candidate =
    overlaps existing candidate || overlaps_locked m candidate

pub validate_acquire_locked : PortRegistry → String → TupleKey → String → Option Error
validate_acquire_locked r owner key protocol =
    if str_eq owner ""
    then some owner_required
    else if not (str_eq key.family "ipv4") || not (str_eq key.protocol protocol)
    then some unsupported_tuple
    else if not (key.port == 0) && overlaps_locked r.entries (normalize key)
    then some tuple_overlap
    else none

-- What `listenTCP4` and `listenUDP4` come to: no socket, or a new socket with the port that it has.
pub data Listen : Type 0 where
  refused : Listen
  bound : (socket port : ℕ) → Listen

-- What is left of a call: the registry, the socket that the call made and closed again, if any, and
-- the lease or the error.
pub record Acquired : Type 0 where
  pub registry : PortRegistry
  pub closed : Option ℕ
  pub error : Option Error
  pub lease : Option Lease

abbrev pub failed : PortRegistry → Option ℕ → Error → Acquired
failed r s e = record { registry = r; closed = s; error = some e; lease = none }

publish : PortRegistry → String → TupleKey → ℕ → Acquired
publish r owner actual socket =
    let g = (r.generation + 1) % word in
    record {
      registry = record {
        entries =
            insert actual (record { owner = owner; generation = g; lease = socket }) r.entries;
        generation = g;
      };
      closed = none;
      error = none;
      lease = some (record { listener = socket; actual = actual; owner = owner; generation = g });
    }

-- From the answer of the operating system on.
resolve : PortRegistry → String → TupleKey → Listen → Acquired
unfolding publish
resolve r owner key refused = failed r none listen_failed
resolve r owner key (bound socket port) =
    if overlaps_locked r.entries (record key { port = port })
    then failed r (some socket) tuple_overlap
    else publish r owner (record key { port = port }) socket

-- The common text of `Acquire` and `AcquireUDP`.
pub acquire_as : String → PortRegistry → String → TupleKey → Listen → Acquired
unfolding resolve
acquire_as protocol r owner key answer = elim (validate_acquire_locked r owner key protocol) [
  | some e ↦ failed r none e
  | none ↦ resolve r owner (normalize key) answer
]

pub acquire : PortRegistry → String → TupleKey → Listen → Acquired
unfolding acquire_as
acquire = acquire_as "tcp"

pub acquire_udp : PortRegistry → String → TupleKey → Listen → Acquired
unfolding acquire_as
acquire_udp = acquire_as "udp"

-- `ok && entry.owner == owner && entry.generation == generation && entry.lease == lease`
abbrev pub owns : Lease → Option LeaseEntry → Bool
owns l none = false
owns l (some e) = str_eq e.owner l.owner && (e.generation == l.generation && e.lease == l.listener)

-- The first critical section of `release`.
pub release_begin : PortRegistry → Lease → Option Error
release_begin r l = if owns l (lookup l.actual r.entries) then none else some stale_lease

pub data Close : Type 0 where
  close_ok already_closed close_refused : Close

-- The second critical section, after the socket was closed.
pub release_finish : PortRegistry → Lease → PortRegistry × Option Error
release_finish r l =
    if owns l (lookup l.actual r.entries)
    then (record r { entries = delete l.actual r.entries }, none)
    else (r, some stale_lease)

-- From the answer of `Close` on; `net.ErrClosed` passes.
after_close : PortRegistry → Lease → Close → PortRegistry × Option Error
after_close r l close_refused = (r, some close_failed)
after_close r l _ = release_finish r l

-- The whole of `release` where nobody else comes between.
pub release : PortRegistry → Lease → Close → PortRegistry × Option Error
unfolding release_begin after_close release_finish
release r l c = elim (release_begin r l) [ some e ↦ (r, some e) | none ↦ after_close r l c ]

pub len : PortRegistry → ℕ
len r = length r.entries

pub has : PortRegistry → TupleKey → Bool
has r key = elim (lookup (normalize key) r.entries) [ none ↦ false | some _ ↦ true ]
