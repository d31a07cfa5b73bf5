-- ===== src/Agent/Localstate/Lifecycle/Terminal.antt =====
-- The lifecycle of a state directory goes one way: the marker, the quarantine and the latch of
-- internal/agent/localstate.
use anti_nat_agent.Base.{
  ℕ, ◌≡◌, refl, sym, ap, subst, ◌∙◌, ◌≤◌, ◌<◌, Bool, true, Option, none, some, List, [], ◌∷◌, arith,
  ◌⊎◌, inl, inr, leb, if◌then◌else◌, length, Bytes, bytes_eq, Bool-cases, Result, ok, err, panic,
  bind-ok, text,
}
use anti_nat_agent.Agent.Localstate.Lifecycle.{
  Error, RecoveryQuarantine, StateDir, marker_decommissioned, load_marker, Disk, changed, unchanged,
  unsynced, stored, marker_change, write_marker, binding_eq, load_recovery_quarantine_binding,
  quarantine_change, write_recovery_quarantine_for_operation, next_generation,
  next_quarantine_change, write_next_recovery_quarantine_for_operation, legacy_clearance,
  clear_recovery_quarantine, clearance, clear_recovery_quarantine_for_operation, Latch, try_engage,
  drop_actor, register_actor, unregister_actor, active_count,
}

pub data Call : Type 0 where
  mark : (state : Bytes) → Call
  quarantine : (q : RecoveryQuarantine) → Call
  quarantine_next : (operation : Bytes) → Call
  clear_old : Call
  clear : (q : RecoveryQuarantine) → Call

-- A call that fails may have changed a file.
abbrev pub apply : Call → Disk → StateDir → StateDir × Option Error
apply (mark state) disk d = write_marker state disk d
apply (quarantine q) disk d = write_recovery_quarantine_for_operation q disk d
apply (quarantine_next operation) disk d =
    write_next_recovery_quarantine_for_operation operation disk d
apply clear_old disk d = clear_recovery_quarantine disk d
apply (clear q) disk d = clear_recovery_quarantine_for_operation q disk d

abbrev pub run : List (Call × Disk) → StateDir → StateDir
run [] d = d
run ((c, disk) ∷ cs) d = run cs (apply c disk d).0

-- How far the decommission is: no marker, DECOMMISSIONING, DECOMMISSIONED.
abbrev pub rank : Option Bytes → ℕ
rank none = 0
rank (some raw) = if bytes_eq raw marker_decommissioned then 2 else 1

-- The change that a call asks for.
change : Call → StateDir → Result Error (Option StateDir)
change (mark state) d = marker_change state d
change (quarantine q) d = quarantine_change q d
change (quarantine_next operation) d = next_quarantine_change operation d
change clear_old d = legacy_clearance d
change (clear q) d = clearance q d

apply-change : (c : Call) (disk : Disk) (d : StateDir) → apply c disk d ≡ stored disk d (change c d)
unfolding change write_marker write_recovery_quarantine_for_operation
    write_next_recovery_quarantine_for_operation clear_recovery_quarantine
    clear_recovery_quarantine_for_operation
apply-change (mark state) disk d = refl
apply-change (quarantine q) disk d = refl
apply-change (quarantine_next operation) disk d = refl
apply-change clear_old disk d = refl
apply-change (clear q) disk d = refl

-- The files are those before the call, or those that it asks for.
stored-cases :
    (disk : Disk) (d : StateDir) (r : Result Error (Option StateDir))
    → ((stored disk d r).0 ≡ d) ⊎ (r ≡ ok (some (stored disk d r).0))
unfolding stored
stored-cases disk d (ok none) = inl refl
stored-cases changed d (ok (some d')) = inr refl
stored-cases unchanged d (ok (some d')) = inl refl
stored-cases unsynced d (ok (some d')) = inr refl
stored-cases disk d (err e) = inl refl
stored-cases disk d panic = inl refl

-- So a call comes to what holds of the files as they were, and of those that it asks for.
apply-holds :
    (P : StateDir → Type 0) (c : Call) (disk : Disk) (d : StateDir)
    → P d
    → ((d' : StateDir) → change c d ≡ ok (some d') → P d')
    → P (apply c disk d).0
apply-holds P c disk d before after =
    subst (λ x. P x.0) (sym (apply-change c disk d))
      (elim (stored-cases disk d (change c d)) [
        | inl same ↦ subst P (sym same) before
        | inr asked ↦ after _ asked
      ])

marker_change-rank :
    (state : Bytes) (d d' : StateDir)
    → marker_change state d ≡ ok (some d')
    → rank d.marker ≤ rank d'.marker
unfolding marker_change load_marker
marker_change-rank state d d' h = ground arith

quarantine_change-marker :
    (q : RecoveryQuarantine) (d d' : StateDir)
    → quarantine_change q d ≡ ok (some d')
    → d'.marker ≡ d.marker
unfolding quarantine_change load_recovery_quarantine_binding load_marker
quarantine_change-marker q d d' h = ground arith

next_change-marker :
    (o : Bytes) (d d' : StateDir) → next_quarantine_change o d ≡ ok (some d') → d'.marker ≡ d.marker
unfolding next_quarantine_change
next_change-marker o d d' h =
    let (current, e, h1) = bind-ok {E = Error} (load_recovery_quarantine_binding d) _ (some d') h in
    quarantine_change-marker (record { operation_id = o; generation = next_generation current }) d
      d' h1

legacy_clearance-marker :
    (d d' : StateDir) → legacy_clearance d ≡ ok (some d') → d'.marker ≡ d.marker
unfolding legacy_clearance load_recovery_quarantine_binding
legacy_clearance-marker d d' h = ground arith

clearance-marker :
    (q : RecoveryQuarantine) (d d' : StateDir) → clearance q d ≡ ok (some d') → d'.marker ≡ d.marker
unfolding clearance load_recovery_quarantine_binding load_marker
clearance-marker q d d' h = ground arith

change-rank :
    (c : Call) (d d' : StateDir) → change c d ≡ ok (some d') → rank d.marker ≤ rank d'.marker
unfolding change
change-rank (mark state) d d' h = marker_change-rank state d d' h
change-rank (quarantine q) d d' h = omega (arith, ap rank (quarantine_change-marker q d d' h))
change-rank (quarantine_next o) d d' h = omega (arith, ap rank (next_change-marker o d d' h))
change-rank clear_old d d' h = omega (arith, ap rank (legacy_clearance-marker d d' h))
change-rank (clear q) d d' h = omega (arith, ap rank (clearance-marker q d d' h))

-- The decommission never goes back: after any calls on the marker and the quarantine, whatever
-- their errors, those of the file system included, the marker is at least as far as before, so
-- DECOMMISSIONED stays.
pub run-rank : (cs : List (Call × Disk)) (d : StateDir) → rank d.marker ≤ rank (run cs d).marker
run-rank [] d = omega arith
run-rank ((c, disk) ∷ cs) d = omega (
  arith,
  apply-holds (λ d'. rank d.marker ≤ rank d'.marker) c disk d (omega arith) (change-rank c d),
  run-rank cs (apply c disk d).0,
)

-- What a call does to the quarantine that stands.
pub data Moves (q : RecoveryQuarantine) (c : Call) (d' : StateDir) : Type 0 where
  stays : d'.quarantine ≡ some (some q) → Moves q c d'
  renewed :
      (q' : RecoveryQuarantine)
      → d'.quarantine ≡ some (some q')
      → q.generation < q'.generation
      → Moves q c d'
  cleared_exactly :
      (asked : RecoveryQuarantine) → c ≡ clear asked → binding_eq q asked ≡ true → Moves q c d'
  cleared_legacy :
      c ≡ clear_old
      → bytes_eq q.operation_id (text "legacy") ≡ true
      → q.generation ≡ 1
      → Moves q c d'

marker_change-quarantine :
    (state : Bytes) (d d' : StateDir)
    → marker_change state d ≡ ok (some d')
    → d'.quarantine ≡ d.quarantine
unfolding marker_change load_marker
marker_change-quarantine state d d' h = ground arith

quarantine_change-cases :
    (q q' : RecoveryQuarantine) (d d' : StateDir)
    → d.quarantine ≡ some (some q)
    → quarantine_change q' d ≡ ok (some d')
    → (d'.quarantine ≡ some (some q')) × (q.generation < q'.generation)
unfolding quarantine_change load_recovery_quarantine_binding load_marker
quarantine_change-cases q q' d d' at h = elim (Bool-cases (binding_eq q q')) [
  | inl same ↦ absurd (ground arith)
  | inr other ↦ elim (Bool-cases (leb q'.generation q.generation)) [
    | inl old ↦ absurd (ground arith)
    | inr newer ↦ (ground arith, ground arith)
  ]
]

legacy_clearance-cases :
    (q : RecoveryQuarantine) (d d' : StateDir)
    → d.quarantine ≡ some (some q)
    → legacy_clearance d ≡ ok (some d')
    → (bytes_eq q.operation_id (text "legacy") ≡ true) × (q.generation ≡ 1)
unfolding legacy_clearance load_recovery_quarantine_binding
legacy_clearance-cases q d d' at h =
    tests (bytes_eq q.operation_id (text "legacy")) (ground arith) (ground arith)
  where
    tests : (b : Bool) → b ≡ true → q.generation ≡ 1 → (b ≡ true) × (q.generation ≡ 1)
    tests b e g = (e, g)

clearance-cases :
    (q asked : RecoveryQuarantine) (d d' : StateDir)
    → d.quarantine ≡ some (some q)
    → clearance asked d ≡ ok (some d')
    → binding_eq q asked ≡ true
unfolding clearance load_recovery_quarantine_binding load_marker
clearance-cases q asked d d' at h = elim (Bool-cases (binding_eq q asked)) [
  | inl same ↦ same
  | inr other ↦ absurd (ground arith)
]

change-Moves :
    (c : Call) (q : RecoveryQuarantine) (d d' : StateDir)
    → d.quarantine ≡ some (some q)
    → change c d ≡ ok (some d')
    → Moves q c d'
unfolding change next_quarantine_change
change-Moves (mark state) q d d' at h = stays (marker_change-quarantine state d d' h ∙ at)
change-Moves (quarantine q') q d d' at h =
    let (new, newer) = quarantine_change-cases q q' d d' at h in renewed q' new newer
change-Moves (quarantine_next o) q d d' at h =
    let (current, e, h1) = bind-ok {E = Error} (load_recovery_quarantine_binding d) _ (some d') h in
    let q' : RecoveryQuarantine = record {
      operation_id = o;
      generation = next_generation current;
    } in
    let (new, newer) = quarantine_change-cases q q' d d' at h1 in renewed q' new newer
change-Moves clear_old q d d' at h =
    let (old, first) = legacy_clearance-cases q d d' at h in cleared_legacy refl old first
change-Moves (clear asked) q d d' at h =
    cleared_exactly asked refl (clearance-cases q asked d d' at h)

-- While a quarantine stands, a call leaves it, or replaces it by one of a higher generation, or is
-- the clear that names exactly its operation and generation, or is the legacy clear of the binding
-- legacy/1. This holds of every call, also of one that fails before or after a file has changed.
pub apply-Moves :
    (c : Call) (disk : Disk) (q : RecoveryQuarantine) (d : StateDir)
    → d.quarantine ≡ some (some q)
    → Moves q c (apply c disk d).0
apply-Moves c disk q d at =
    apply-holds (Moves q c) c disk d (stays at) (λ d' h. change-Moves c q d d' at h)

-- What concurrent actors ask of the latch.
pub data Request : Type 0 where
  engage : Request
  register : (name : Bytes) → Request
  unregister : (name : Bytes) → Request

abbrev pub registered : Latch → Result Error Latch → Latch
registered l (ok l') = l'
registered l (err e) = l
registered l panic = l

abbrev pub serve : Request → Latch → Latch
serve engage l = (try_engage l).0
serve (register name) l = registered l (register_actor name l)
serve (unregister name) l = unregister_actor name l

abbrev pub serve_all : List Request → Latch → Latch
serve_all [] l = l
serve_all (r ∷ rs) l = serve_all rs (serve r l)

length-drop_actor : (name : Bytes) (as' : List Bytes) → length (drop_actor name as') ≤ length as'
unfolding drop_actor
length-drop_actor name [] = omega arith
length-drop_actor name (a ∷ as') = ground (arith, length-drop_actor name as')

serve-engaged :
    (r : Request) (l : Latch)
    → l.engaged ≡ true
    → ((serve r l).engaged ≡ true) × (active_count (serve r l) ≤ active_count l)
unfolding try_engage register_actor unregister_actor active_count
serve-engaged engage l h = ground arith
serve-engaged (register name) l h = ground arith
serve-engaged (unregister name) l h = (h, length-drop_actor name l.actors)

-- Once the latch is engaged, it stays engaged and no actor starts: after any requests in whatever
-- order, the number of running actors is at most what it was.
pub serve_all-engaged :
    (rs : List Request) (l : Latch)
    → l.engaged ≡ true
    → ((serve_all rs l).engaged ≡ true) × (active_count (serve_all rs l) ≤ active_count l)
serve_all-engaged [] l h = (h, omega arith)
serve_all-engaged (r ∷ rs) l h =
    let (still, fewer) = serve-engaged r l h in
    let (after, least) = serve_all-engaged rs (serve r l) still in (after, omega arith)
