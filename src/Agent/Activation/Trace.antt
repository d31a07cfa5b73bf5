-- ===== src/Agent/Activation/Trace.antt =====
-- Histories of one activation of internal/agent/reconcile: any calls of its methods, in the order of
-- their critical sections.
use text.Mathlib.Text.{◌==◌ as str_eq}
use text.Mathlib.TextEquality.{eq_iff}
use anti_nat_agent.Base.{
  ℕ, Bool, ◌≡◌, refl, ◌≢◌, true, false, ◌||◌, ◌&&◌, ◌==◌, leb, Option, none, some, List, [], ◌∷◌,
  String, arith, Bool-cases, inl, inr,
}
use anti_nat_agent.Protocol.States as States
use anti_nat_agent.Protocol.States.{ActivationStates, validate}
use anti_nat_agent.Protocol.States.Truth.{IsValid}
use anti_nat_agent.Agent.Activation.{
  Activation, ProbeAdmission, commit, set, probing, admit, start_probe_admission,
  rollback_probe_admission, update, advance_generation, reset_for_generation_locked,
  reset_for_generation_with_id, restore_for_generation_with_id, evidence_lost,
  recover_after_restart, start_probe, record_probe_outcome, outcome_states, new_activation,
}
use anti_nat_agent.Agent.Activation.Truth.{
  commit-IsValid, start_probe_admission-IsValid, rollback_probe_admission-IsValid, update-IsValid,
  resets-IsValid, new_activation-IsValid,
}

pub data Event : Type 0 where
  sets : ActivationStates → Event
  admits : (id : String) (generation : ℕ) → Event
  rolls_back : ProbeAdmission → Event
  updates : (axis value : String) (generation : ℕ) → Event
  advances : (next : ℕ) → Event
  resets restores : (next : ℕ) (id : String) → Event
  loses_evidence recovers : Event
  starts_probe : (generation : ℕ) → Event
  records : (outcome : String) (generation : ℕ) → Event

unfoldable pub step : Activation → Event → Activation
step a (sets s) = (set a s).0
step a (admits id g) = (start_probe_admission a id g).0
step a (rolls_back token) = (rollback_probe_admission a token).0
step a (updates axis value g) = (update a axis value g).0
step a (advances next) = advance_generation a next
step a (resets next id) = reset_for_generation_with_id a next id
step a (restores next id) = restore_for_generation_with_id a next id
step a loses_evidence = (evidence_lost a).0
step a recovers = (recover_after_restart a).0
step a (starts_probe g) = (start_probe a g).0
step a (records outcome g) = (record_probe_outcome a outcome g).0

unfoldable pub run : Activation → List Event → Activation
run a [] = a
run a (e ∷ es) = run (step a e) es

pub step-IsValid : (a : Activation) (e : Event) → IsValid a.states → IsValid (step a e).states
unfolding step set advance_generation evidence_lost recover_after_restart start_probe
    record_probe_outcome
step-IsValid a (sets s) v = commit-IsValid a s v
step-IsValid a (admits id g) v = start_probe_admission-IsValid a id g v
step-IsValid a (rolls_back token) v = rollback_probe_admission-IsValid a token v
step-IsValid a (updates axis value g) v = update-IsValid a axis value g v
step-IsValid a (advances next) v = ground arith
step-IsValid a (resets next id) v = (resets-IsValid a next id v).0
step-IsValid a (restores next id) v = (resets-IsValid a next id v).1
step-IsValid a loses_evidence v = commit-IsValid a _ v
step-IsValid a recovers v = commit-IsValid a _ v
step-IsValid a (starts_probe g) v = ground (arith, commit-IsValid a (probing a.states) v)
step-IsValid a (records outcome g) v =
    ground (arith, commit-IsValid a (outcome_states a.states outcome) v)

run_from-IsValid : (a : Activation) (es : List Event) → IsValid a.states → IsValid (run a es).states
unfolding run
run_from-IsValid a [] v = v
run_from-IsValid a (e ∷ es) v = run_from-IsValid (step a e) es (step-IsValid a e v)

-- After any calls on a new activation every axis has one of its frozen values and the truth rules
-- hold: what is published as verified was seen open from a vantage over a verified return path.
pub run-IsValid :
    (forward_id activation_id : String) (generation : ℕ) (es : List Event)
    → IsValid (run (new_activation forward_id activation_id generation) es).states
run-IsValid forward_id activation_id generation es =
    run_from-IsValid _ es (new_activation-IsValid forward_id activation_id generation)

-- The calls that may publish as verified: an outcome that the endpoint is open, and the calls that
-- write a given snapshot or axis.
unfoldable pub may_verify : Event → Bool
may_verify (records outcome g) = str_eq outcome "OPEN_FROM_VANTAGE"
may_verify (sets s) = true
may_verify (rolls_back token) = true
may_verify (updates axis value g) = true
may_verify _ = false

unfoldable pub some_may_verify : List Event → Bool
unfolding may_verify
some_may_verify [] = false
some_may_verify (e ∷ es) = may_verify e || some_may_verify es

abbrev pub IsUnverified : ActivationStates → Type 0
IsUnverified s = str_eq s.publication_state "PUBLISHED_VERIFIED" ≡ false

commit-IsUnverified :
    (a : Activation) (next : ActivationStates)
    → IsUnverified next
    → IsUnverified a.states
    → IsUnverified (commit a next).0.states
unfolding commit
commit-IsUnverified a next n u = ground arith

reset_for_generation_locked-IsUnverified :
    (a : Activation) (next : ℕ) (id : String)
    → IsUnverified (reset_for_generation_locked a next id).states
unfolding reset_for_generation_locked
reset_for_generation_locked-IsUnverified a next id = refl

admit-IsUnverified :
    (a : Activation) (r : Option States.Error)
    → IsUnverified a.states
    → IsUnverified (admit a r).0.states
unfolding admit
admit-IsUnverified a (some e) u = u
admit-IsUnverified a none u = refl

resets-IsUnverified :
    (a : Activation) (next : ℕ) (id : String)
    → IsUnverified a.states
    → IsUnverified (reset_for_generation_with_id a next id).states
      × IsUnverified (restore_for_generation_with_id a next id).states
unfolding reset_for_generation_with_id restore_for_generation_with_id
resets-IsUnverified a next id u =
    let w = reset_for_generation_locked-IsUnverified a next id in
    (
      elim (Bool-cases (leb next a.generation)) [ inl e ↦ rw e u | inr e ↦ rw e w ],
      elim (Bool-cases (next == a.generation && str_eq id a.activation)) [
        | inl e ↦ rw e u
        | inr e ↦ rw e w
      ],
    )

step-IsUnverified :
    (a : Activation) (e : Event)
    → may_verify e ≡ false
    → IsUnverified a.states
    → IsUnverified (step a e).states
unfolding step may_verify advance_generation evidence_lost recover_after_restart start_probe
    record_probe_outcome reset_for_generation_with_id restore_for_generation_with_id
    start_probe_admission
step-IsUnverified a (sets s) h u = absurd (cc)
step-IsUnverified a (rolls_back token) h u = absurd (cc)
step-IsUnverified a (updates axis value g) h u = absurd (cc)
step-IsUnverified a (admits id g) h u =
    ground (arith, admit-IsUnverified a (validate (probing a.states)) u)
step-IsUnverified a (advances next) h u = ground arith
step-IsUnverified a (resets next id) h u = (resets-IsUnverified a next id u).0
step-IsUnverified a (restores next id) h u = (resets-IsUnverified a next id u).1
step-IsUnverified a loses_evidence h u = commit-IsUnverified a _ refl u
step-IsUnverified a recovers h u = commit-IsUnverified a _ (rw u u) u
step-IsUnverified a (starts_probe g) h u =
    ground (arith, commit-IsUnverified a (probing a.states) refl u)
step-IsUnverified a (records outcome g) h u =
    ground (arith, commit-IsUnverified a (outcome_states a.states outcome) (rw h refl) u)

run-IsUnverified :
    (a : Activation) (es : List Event)
    → some_may_verify es ≡ false
    → IsUnverified a.states
    → IsUnverified (run a es).states
unfolding run some_may_verify
run-IsUnverified a [] h u = u
run-IsUnverified a (e ∷ es) h u =
    run-IsUnverified (step a e) es (ground arith) (step-IsUnverified a e (ground arith) u)

-- An activation that is not published as verified becomes so only through a call that brings the
-- proof: a probe outcome OPEN_FROM_VANTAGE, or an explicit snapshot, axis or rollback. No reset,
-- recovery, loss of evidence, start of a probe or other outcome does it.
pub verified_needs_proof :
    (a : Activation) (es : List Event)
    → a.states.publication_state ≢ "PUBLISHED_VERIFIED"
    → (run a es).states.publication_state ≡ "PUBLISHED_VERIFIED"
    → some_may_verify es ≡ true
verified_needs_proof a es u p = elim (Bool-cases (some_may_verify es)) [
  | inl proof ↦ proof
  | inr lacks ↦ ground (
    arith,
    eq_iff a.states.publication_state "PUBLISHED_VERIFIED",
    eq_iff (run a es).states.publication_state "PUBLISHED_VERIFIED",
    run-IsUnverified a es lacks,
  )
]
