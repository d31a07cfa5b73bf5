-- ===== src/Agent/Localstate/Events/Delivered.antt =====
-- The payload of a queued result, until its receipt.
use anti_nat_agent.Base.{
  ◌≡◌, refl, sym, ap, subst, ◌∙◌, Bool, true, not, ◌&&◌, ◌||◌, String, text, some, List, [], ◌∷◌,
  arith, inl, inr, ◌==◌, Bytes, bytes_eq, bytes_eq→eq, Bool-cases,
}
use anti_nat_agent.Protocol.Transitions.{outbox}
use anti_nat_agent.Agent.Localstate.Storage.{Storage, Db}
use anti_nat_agent.Agent.Localstate.Outbox.{split_outbox_value, row, phase_pending}
use anti_nat_agent.Agent.Localstate.Slots.{
  is_plain, has_edge, Slot, slot, Step, received, rewritten, recorded, moved, receipted, moves,
  Reach, here, next,
}
use anti_nat_agent.Agent.Localstate.Slots.Writes.{IsKeyed}
use anti_nat_agent.Agent.Localstate.Events.{Event, run}
use anti_nat_agent.Agent.Localstate.Events.Refined.{ArePlain, run-Reach}
use anti_nat_agent.Agent.Localstate.Events.Once.{has_edge-cases}

abbrev zero_free : Bytes → Bool
zero_free [] = true
zero_free (b ∷ bs) = not (b == 0) && zero_free bs

split-row :
    (phase payload : Bytes)
    → zero_free phase ≡ true
    → split_outbox_value (row phase payload) ≡ (phase, payload)
split-row [] payload h = refl
split-row (b ∷ bs) payload h = ground (arith, split-row bs payload)

abbrev are_named : List (String × String) → Bool
are_named [] = true
are_named ((x, y) ∷ table) = zero_free (text y) && are_named table

has_edge-zero_free :
    (table : List (String × String)) (a b : Bytes)
    → are_named table ≡ true
    → has_edge table a b ≡ true
    → zero_free b ≡ true
has_edge-zero_free [] a b n h = absurd (cc)
has_edge-zero_free ((x, y) ∷ table) a b n h = elim (has_edge-cases x y table a b h) [
  | inl (e, f) ↦ subst (λ p. zero_free p ≡ true) (sym f) (first (zero_free (text y)) _ n)
  | inr later ↦ has_edge-zero_free table a b (second (zero_free (text y)) _ n) later
]
  where
    first : (p q : Bool) → p && q ≡ true → p ≡ true
    first p q h = ground arith

    second : (p q : Bool) → p && q ≡ true → q ≡ true
    second p q h = ground arith

moves-zero_free : (a b : Bytes) → moves a b ≡ true → zero_free b ≡ true
moves-zero_free a b h = elim (Bool-cases (has_edge outbox.transitions a b)) [
  | inl edge ↦ has_edge-zero_free outbox.transitions a b refl edge
  | inr reset ↦
      subst (λ p. zero_free p ≡ true)
        (sym
          (bytes_eq→eq b phase_pending (subst (λ t. t || bytes_eq b phase_pending ≡ true) reset h)))
        refl
]

module _ (s : Storage) where
  -- The payload waits in the outbox, or is in the receipt.
  pub data Carries (p : Bytes) (t : Slot) : Type 0 where
    waiting : (r : Bytes) → t.queued ≡ some r → (split_outbox_value r).1 ≡ p → Carries p t
    done : t.receipt ≡ some p → Carries p t

  Step-Carries : {p : Bytes} {t u : Slot} → Step s t u → Carries p t → Carries p u
  Step-Carries (received t j r n e) (waiting r' q w) = waiting r' q w
  Step-Carries (rewritten t raw j j' n d f) (waiting r' q w) = waiting r' q w
  Step-Carries (recorded t q r n f) (waiting r' q' w) = absurd (cc)
  Step-Carries {p} (moved t r to n m) (waiting r' q w) =
      let same : r ≡ r' = cc in
      waiting (row to (split_outbox_value r).1) refl (
        ap (λ (x : Bytes × Bytes). x.1)
          (split-row to (split_outbox_value r).1 (moves-zero_free (split_outbox_value r).0 to m))
        ∙ ap (λ x. (split_outbox_value x).1) same
        ∙ w)
  Step-Carries (receipted t r n q a) (waiting r' q' w) =
      let same : r ≡ r' = cc in done (ap some (ap (λ x. (split_outbox_value x).1) same ∙ w))
  Step-Carries (received t j r n e) (done k) = done k
  Step-Carries (rewritten t raw j j' n d f) (done k) = done k
  Step-Carries (recorded t q r n f) (done k) = done k
  Step-Carries (moved t r to n m) (done k) = done k
  Step-Carries (receipted t r n q a) (done k) = absurd (cc)

  Reach-Carries : {p : Bytes} {t u : Slot} → Carries p t → Reach s t u → Carries p u
  Reach-Carries h here = h
  Reach-Carries h (next r st) = Step-Carries st (Reach-Carries h r)

-- A queued result is never lost and never altered: once an outbox row carries a payload, then after
-- any later calls the row is still there with that payload, or the receipt of the operation is
-- durable and carries it. The condition is that no operation's identity, in the store or in a call,
-- begins with `op:` or `receipt:`.
pub run-Carries :
    (s : Storage) (o row : Bytes) (es : List Event) (db : Db s)
    → is_plain o ≡ true
    → ArePlain es
    → IsKeyed s db
    → s.get o db.outbox ≡ some row
    → Carries s (split_outbox_value row).1 (slot s o (run s es db))
unfolding slot
run-Carries s o row es db op p k h =
    Reach-Carries s (waiting row h refl) (run-Reach s o es db op p k)
