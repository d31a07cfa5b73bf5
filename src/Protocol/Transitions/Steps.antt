-- ===== src/Protocol/Transitions/Steps.antt =====
-- internal/protocol/domain.go: what the tables of the control state machines allow in the long run.
use text.Mathlib.Text.{◌==◌ as str_eq}
use text.Mathlib.TextEquality.{eq_iff}
use anti_nat_agent.Base.{
  ℕ, suc, ◌<◌, ◌≡◌, ◌≢◌, refl, sym, ap, ◌∙◌, subst, true, false, Option, none, some, List, [], ◌∷◌,
  String, All, arith, Bool, not, ◌&&◌, Bool-cases, Option-cases, inl, inr, if◌then◌else◌,
}
use anti_nat_agent.Protocol.States.{contains}
use anti_nat_agent.Protocol.Transitions.{
  Error, Fsm, outbox, inbox, key_rotation, decommission, restore, frozen_fsms, has_transition,
  transition_of, validate_fsm_transition,
}

-- Where a state stands in the list of its machine.
abbrev position : List String → String → ℕ
position [] s = 0
position (x ∷ xs) s = let rest = position xs s in if str_eq s x then 0 else suc rest

abbrev IsForward : Fsm → Type 0
IsForward m = All (λ step. position m.states step.0 < position m.states step.1) m.transitions

forward_step :
    (states : List String) (table : List (String × String)) (from to : String)
    → All (λ step. position states step.0 < position states step.1) table
    → has_transition table from to ≡ true
    → position states from < position states to
forward_step states [] from to v h = cc
forward_step states ((a, b) ∷ table) from to v h =
    elim (Bool-cases (str_eq from a && str_eq to b)) [
      | inl e ↦
          let ea : from ≡ a = ground (arith, eq_iff from a) in
          let eb : to ≡ b = ground (arith, eq_iff to b) in rw (ea, eb) v.0
      | inr e ↦ forward_step states table from to v.1 (ground arith)
    ]

all-IsForward :
    IsForward outbox
    × IsForward inbox
    × IsForward key_rotation
    × IsForward decommission
    × IsForward restore
all-IsForward = (
  (omega arith, (omega arith, (omega arith, (omega arith, (omega arith, tt))))),
  (omega arith, (omega arith, (omega arith, (omega arith, tt)))),
  (omega arith, (omega arith, (omega arith, (omega arith, tt)))),
  (omega arith, (omega arith, (omega arith, tt))),
  (omega arith, (omega arith, (omega arith, tt))),
)

frozen-IsForward : (name : String) (m : Fsm) → frozen_fsms name ≡ some m → IsForward m
frozen-IsForward name m e =
    let (o, i, k, d, r) = all-IsForward in
    elim (Bool-cases (str_eq name "outbox")) [
      | inl a ↦ subst IsForward (same outbox (sym (rw a refl) ∙ e)) o
      | inr a ↦ elim (Bool-cases (str_eq name "inbox")) [
        | inl b ↦ subst IsForward (same inbox (sym (rw (a, b) refl) ∙ e)) i
        | inr b ↦ elim (Bool-cases (str_eq name "key_rotation")) [
          | inl c ↦ subst IsForward (same key_rotation (sym (rw (a, b, c) refl) ∙ e)) k
          | inr c ↦ elim (Bool-cases (str_eq name "decommission")) [
            | inl f ↦ subst IsForward (same decommission (sym (rw (a, b, c, f) refl) ∙ e)) d
            | inr f ↦ elim (Bool-cases (str_eq name "restore")) [
              | inl g ↦ subst IsForward (same restore (sym (rw (a, b, c, f, g) refl) ∙ e)) r
              | inr g ↦
                  let n : frozen_fsms name ≡ none = rw (a, b, c, f, g) refl in
                  absurd (none≢some (sym n ∙ e))
            ]
          ]
        ]
      ]
    ]
  where
    same : (x : Fsm) → ◌≡◌ {A = Option Fsm} (some x) (some m) → x ≡ m
    same x e = cc

    none≢some : ◌≡◌ {A = Option Fsm} none (some m) → ⊥
    none≢some e = cc

-- One or more transitions that the validation passes, one after another.
pub data Reaches (fsm : String) : String → String → Type 0 where
  once : {from to : String} → validate_fsm_transition fsm from to ≡ none → Reaches fsm from to
  more :
      {from via to : String}
      → validate_fsm_transition fsm from via ≡ none
      → Reaches fsm via to
      → Reaches fsm from to

passes :
    (x y z : Bool) (e f g : Error)
    → (if not x then some e else if not y then some f else if not z then some g else none) ≡ none
    → (x ≡ true) × (y ≡ true) × (z ≡ true)
passes true true true e f g h = (refl, refl, refl)
passes true true false e f g h = cc
passes true false z e f g h = cc
passes false y z e f g h = cc

legal_step :
    (fsm from to : String) (m : Fsm)
    → frozen_fsms fsm ≡ some m
    → validate_fsm_transition fsm from to ≡ none
    → position m.states from < position m.states to
unfolding validate_fsm_transition
legal_step fsm from to m e h =
    let k : transition_of (some m) from to ≡ none = sym (ap (λ o. transition_of o from to) e) ∙ h in
    let (x, y, z) =
      passes (contains m.states from) (contains m.states to) (has_transition m.transitions from to)
        _ _ _ k in
    forward_step m.states m.transitions from to (frozen-IsForward fsm m e) z

Reaches-forward :
    (fsm : String) (m : Fsm) {from to : String}
    → frozen_fsms fsm ≡ some m
    → Reaches fsm from to
    → position m.states from < position m.states to
Reaches-forward fsm m e (once h) = legal_step fsm _ _ m e h
Reaches-forward fsm m e (more h r) =
    omega (arith, legal_step fsm _ _ m e h, Reaches-forward fsm m e r)

unknown_refuses :
    (fsm from to : String) → frozen_fsms fsm ≡ none → validate_fsm_transition fsm from to ≢ none
unfolding validate_fsm_transition
unknown_refuses fsm from to e h = contradiction (sym (ap (λ o. transition_of o from to) e) ∙ h)
  where
    contradiction : transition_of none from to ≡ none → ⊥
    contradiction k = cc

-- No control state machine comes back: a state that legal transitions reach from a state is another
-- one, so each of them ends.
pub Reaches-differs : (fsm from to : String) → Reaches fsm from to → from ≢ to
Reaches-differs fsm from to r same = elim (Option-cases (frozen_fsms fsm)) [
  | inl n ↦ refused n r
  | inr (m, e) ↦
      let l : position m.states from < position m.states to = Reaches-forward fsm m e r in
      let q : position m.states from ≡ position m.states to = ap (position m.states) same in
      absurd (omega arith)
]
  where
    refused : {from to : String} → frozen_fsms fsm ≡ none → Reaches fsm from to → ⊥
    refused n (once h) = unknown_refuses fsm _ _ n h
    refused n (more h r) = unknown_refuses fsm _ _ n h
