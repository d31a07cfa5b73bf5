-- ===== src/Agent/Localstate/Lifecycle.antt =====
-- internal/agent/localstate/marker.go, recovery.go and latch.go: the terminal marker and the
-- recovery quarantine, which are files of the state directory under one lock, and the latch of the
-- actors. A write or a removal of a file may fail before the file changes, or after it, where the
-- directory cannot be synced. The files can be read.
pub mod Terminal
mod Tests
use anti_nat_agent.Base.{
  ℕ, ◌+◌, ◌%◌, ◌^◌, word, Bool, true, false, not, ◌&&◌, ◌||◌, Option, none, some, List, [], ◌∷◌,
  ◌==◌, leb, length, if◌then◌else◌, Bytes, bytes_eq, Result, ok, err, panic, ◌>>=◌, ◌>>◌, fail_if,
  text,
}

pub data Error : Type 0 where
  invalid_marker already_terminal quarantine_over_terminal operation_mismatch : Error
  invalid_quarantine binding_required terminal_engaged : Error
  -- An error of the file system.
  file_failed : Error

-- The contents of the marker file, and what the quarantine file decodes to.
pub record RecoveryQuarantine : Type 0 where
  pub operation_id : Bytes
  pub generation : ℕ

pub record StateDir : Type 0 where
  pub marker : Option Bytes
  -- none inside is a file that JSON does not read.
  pub quarantine : Option (Option RecoveryQuarantine)

abbrev pub marker_active : Bytes
marker_active = []

abbrev pub marker_decommissioning : Bytes
marker_decommissioning = text "DECOMMISSIONING"

abbrev pub marker_decommissioned : Bytes
marker_decommissioned = text "DECOMMISSIONED"

abbrev pub valid_marker_state : Bytes → Bool
valid_marker_state state =
    bytes_eq state marker_decommissioning || bytes_eq state marker_decommissioned

abbrev pub read_marker : Option Bytes → Result Error Bytes
read_marker none = ok marker_active
read_marker (some raw) = if valid_marker_state raw then ok raw else err invalid_marker

unfoldable pub load_marker : StateDir → Result Error Bytes
load_marker d = read_marker d.marker

-- What the file system does in a call that changes a file: the change, an error before it (of the
-- temporary file, of the rename or of the removal), or an error of the directory's sync after it.
pub data Disk : Type 0 where
  changed unchanged unsynced : Disk

-- The end of a call, from the change that it makes of the files, if any. No call panics.
unfoldable pub stored : Disk → StateDir → Result Error (Option StateDir) → StateDir × Option Error
stored disk d (ok none) = (d, none)
stored changed d (ok (some d')) = (d', none)
stored unchanged d (ok (some d')) = (d, some file_failed)
stored unsynced d (ok (some d')) = (d', some file_failed)
stored disk d (err e) = (d, some e)
stored disk d panic = (d, some file_failed)

-- The checks of writeMarkerUnlocked, and the change that it then makes.
unfoldable pub marker_change : Bytes → StateDir → Result Error (Option StateDir)
unfolding load_marker
marker_change state d = do
  fail_if (not (valid_marker_state state)) invalid_marker
  current ← load_marker d
  fail_if (bytes_eq current marker_decommissioned && not (bytes_eq state marker_decommissioned))
      already_terminal
  ok (if bytes_eq current state then none else some (record d { marker = some state }))

unfoldable pub write_marker : Bytes → Disk → StateDir → StateDir × Option Error
unfolding marker_change stored
write_marker state disk d = stored disk d (marker_change state d)

abbrev pub read_quarantine :
    Option (Option RecoveryQuarantine) → Result Error (Option RecoveryQuarantine)
read_quarantine none = ok none
read_quarantine (some none) = err invalid_quarantine
read_quarantine (some (some q)) = if q.generation == 0 then err invalid_quarantine else ok (some q)

unfoldable pub load_recovery_quarantine_binding :
    StateDir → Result Error (Option RecoveryQuarantine)
load_recovery_quarantine_binding d = read_quarantine d.quarantine

abbrev pub binding_eq : RecoveryQuarantine → RecoveryQuarantine → Bool
binding_eq a b = bytes_eq a.operation_id b.operation_id && a.generation == b.generation

-- The change, after the checks of the binding and of the marker.
abbrev pub replace_quarantine :
    RecoveryQuarantine → StateDir → Option RecoveryQuarantine → Result Error (Option StateDir)
replace_quarantine q d none = ok (some (record d { quarantine = some (some q) }))
replace_quarantine q d (some current) =
    if binding_eq current q
    then ok none
    else if leb q.generation current.generation
    then err operation_mismatch
    else ok (some (record d { quarantine = some (some q) }))

-- The checks of writeRecoveryQuarantineUnlocked, and the change that it then makes.
unfoldable pub quarantine_change : RecoveryQuarantine → StateDir → Result Error (Option StateDir)
unfolding load_marker load_recovery_quarantine_binding
quarantine_change q d = do
  fail_if (bytes_eq q.operation_id [] || q.generation == 0) binding_required
  marker ← load_marker d
  fail_if (bytes_eq marker marker_decommissioned) quarantine_over_terminal
  current ← load_recovery_quarantine_binding d
  replace_quarantine q d current

unfoldable pub write_recovery_quarantine_for_operation :
    RecoveryQuarantine → Disk → StateDir → StateDir × Option Error
unfolding quarantine_change stored
write_recovery_quarantine_for_operation q disk d = stored disk d (quarantine_change q d)

unfoldable pub write_recovery_quarantine : Disk → StateDir → StateDir × Option Error
unfolding write_recovery_quarantine_for_operation
write_recovery_quarantine =
    write_recovery_quarantine_for_operation
      (record { operation_id = text "legacy"; generation = 1 })

-- uint64: the addition wraps.
abbrev pub next_generation : Option RecoveryQuarantine → ℕ
next_generation none = 1
next_generation (some q) = (q.generation + 1) % word

unfoldable pub next_quarantine_change : Bytes → StateDir → Result Error (Option StateDir)
unfolding load_recovery_quarantine_binding quarantine_change
next_quarantine_change operation d = do
  current ← load_recovery_quarantine_binding d
  quarantine_change (record { operation_id = operation; generation = next_generation current }) d

unfoldable pub write_next_recovery_quarantine_for_operation :
    Bytes → Disk → StateDir → StateDir × Option Error
unfolding next_quarantine_change stored
write_next_recovery_quarantine_for_operation operation disk d =
    stored disk d (next_quarantine_change operation d)

abbrev pub clear_legacy : StateDir → Option RecoveryQuarantine → Result Error (Option StateDir)
clear_legacy d none = ok none
clear_legacy d (some q) =
    if not (bytes_eq q.operation_id (text "legacy")) || not (q.generation == 1)
    then err operation_mismatch
    else ok (some (record d { quarantine = none }))

unfoldable pub legacy_clearance : StateDir → Result Error (Option StateDir)
unfolding load_recovery_quarantine_binding
legacy_clearance d = do current ← load_recovery_quarantine_binding d; clear_legacy d current

unfoldable pub clear_recovery_quarantine : Disk → StateDir → StateDir × Option Error
unfolding legacy_clearance stored
clear_recovery_quarantine disk d = stored disk d (legacy_clearance d)

abbrev pub clear_bound :
    RecoveryQuarantine → StateDir → Option RecoveryQuarantine → Result Error (Option StateDir)
clear_bound asked d none = ok none
clear_bound asked d (some q) = do
  fail_if (not (binding_eq q asked)) operation_mismatch
  marker ← load_marker d
  fail_if (bytes_eq marker marker_decommissioned) quarantine_over_terminal
  ok (some (record d { quarantine = none }))

unfoldable pub clearance : RecoveryQuarantine → StateDir → Result Error (Option StateDir)
unfolding load_recovery_quarantine_binding load_marker
clearance asked d = do
  fail_if (bytes_eq asked.operation_id [] || asked.generation == 0) operation_mismatch
  current ← load_recovery_quarantine_binding d
  clear_bound asked d current

unfoldable pub clear_recovery_quarantine_for_operation :
    RecoveryQuarantine → Disk → StateDir → StateDir × Option Error
unfolding clearance stored
clear_recovery_quarantine_for_operation asked disk d = stored disk d (clearance asked d)

-- The actors are the keys of the source's map, each once.
pub record Latch : Type 0 where
  pub engaged : Bool
  pub actors : List Bytes

unfoldable pub new_latch : Latch
new_latch = record { engaged = false; actors = [] }

unfoldable pub try_engage : Latch → Latch × Bool
try_engage l = if l.engaged then (l, false) else (record l { engaged = true }, true)

unfoldable pub drop_actor : Bytes → List Bytes → List Bytes
drop_actor name [] = []
drop_actor name (a ∷ as') =
    let rest = drop_actor name as' in if bytes_eq name a then rest else a ∷ rest

unfoldable pub register_actor : Bytes → Latch → Result Error Latch
unfolding drop_actor
register_actor name l =
    if l.engaged
    then err terminal_engaged
    else ok (record l { actors = name ∷ drop_actor name l.actors })

unfoldable pub unregister_actor : Bytes → Latch → Latch
unfolding drop_actor
unregister_actor name l = record l { actors = drop_actor name l.actors }

unfoldable pub active_count : Latch → ℕ
active_count l = length l.actors
