-- ===== src/Agent/Localstate/Events/Once.antt =====
-- An operation starts its side effect at most once.
use anti_nat_agent.Base.{
  ℕ, ◌≡◌, refl, sym, ap, subst, ◌∙◌, Bool, true, false, not, ◌&&◌, ◌||◌, String, text, none, some,
  List, [], ◌∷◌, arith, ◌⊎◌, inl, inr, Bytes, bytes_eq, bytes_eq→eq, bytes_eq_refl, Bool-cases, ok,
  err, bind-ok, if◌then◌else◌, ◌>>=◌,
}
use anti_nat_agent.Agent.Localstate.Storage.{
  Error, Storage, Db, OperationJournal, stale_session, illegal_phase,
}
use anti_nat_agent.Protocol.Transitions.{inbox}
use anti_nat_agent.Agent.Localstate.Outbox.{split_outbox_value}
use anti_nat_agent.Agent.Localstate.Command.{
  op_journal_key, has_links, phase_intent_persisted, phase_applying, phase_applied, phase_nacked,
}
use anti_nat_agent.Agent.Localstate.Journal.{
  is_stale, load_operation_journal, put_operation_journal,
}
use anti_nat_agent.Agent.Localstate.Operations.{in_phase, journal_in, mark_operation_applying}
use anti_nat_agent.Agent.Localstate.Slots.{
  is_plain, has_edge, Slot, slot, Step, received, rewritten, recorded, moved, receipted, follows,
  Reach, here, next,
}
use anti_nat_agent.Agent.Localstate.Slots.Writes.{IsKeyed}
use anti_nat_agent.Agent.Localstate.Slots.Keeps.{put_operation_journal-ok}
use anti_nat_agent.Agent.Localstate.Events.{Event, run}
use anti_nat_agent.Agent.Localstate.Events.Refined.{ArePlain, run-Reach}
use anti_nat_agent.Agent.Localstate.Events.Settled.{IsSettled, Step-IsSettled}

abbrev pub has_started : Bytes → Bool
has_started phase =
    bytes_eq phase phase_applying || bytes_eq phase phase_applied || bytes_eq phase phase_nacked

module _ (s : Storage) where
  -- The journal is past the intent, or only the receipt is left.
  pub data HasStarted (t : Slot) : Type 0 where
    running :
        (raw : Bytes) (j : OperationJournal)
        → t.journal ≡ some raw
        → s.decode_journal raw ≡ some j
        → has_started j.phase ≡ true
        → HasStarted t
    settled : (p : Bytes) → IsSettled p t → HasStarted t

pub has_edge-cases :
    (x y : String) (table : List (String × String)) (a b : Bytes)
    → has_edge ((x, y) ∷ table) a b ≡ true
    → ((a ≡ text x) × (b ≡ text y)) ⊎ (has_edge table a b ≡ true)
has_edge-cases x y table a b h =
    both (bytes_eq a (text x)) (bytes_eq b (text y)) (has_edge table a b) (bytes_eq→eq a (text x))
      (bytes_eq→eq b (text y)) h
  where
    both :
        {P Q : Type 0} (p q r : Bool)
        → (p ≡ true → P)
        → (q ≡ true → Q)
        → p && q || r ≡ true
        → (P × Q) ⊎ (r ≡ true)
    both true true r f g h = inl (f refl, g refl)
    both true false r f g h = inr h
    both false q r f g h = inr h

-- No edge of the table leads from a started operation to one that has not started.
abbrev keeps_started : List (String × String) → Bool
keeps_started [] = true
keeps_started ((x, y) ∷ table) =
    (not (has_started (text x)) || has_started (text y)) && keeps_started table

has_edge-has_started :
    (table : List (String × String)) (a b : Bytes)
    → keeps_started table ≡ true
    → has_edge table a b ≡ true
    → has_started a ≡ true
    → has_started b ≡ true
has_edge-has_started [] a b k h st = absurd (cc)
has_edge-has_started ((x, y) ∷ table) a b k h st = elim (has_edge-cases x y table a b h) [
  | inl (e, f) ↦
      subst (λ p. has_started p ≡ true) (sym f)
        (head (has_started (text x)) _ _ k (subst (λ p. has_started p ≡ true) e st))
  | inr later ↦
      has_edge-has_started table a b (tail (not (has_started (text x)) || has_started (text y)) _ k)
        later st
]
  where
    head : (p q r : Bool) → (not p || q) && r ≡ true → p ≡ true → q ≡ true
    head p q r h e = ground arith

    tail : (p r : Bool) → p && r ≡ true → r ≡ true
    tail p r h = ground arith

follows-has_started :
    (a b : Bytes) → follows a b ≡ true → has_started a ≡ true → has_started b ≡ true
follows-has_started a b h st = elim (Bool-cases (bytes_eq a b)) [
  | inl same ↦ subst (λ x. has_started x ≡ true) (bytes_eq→eq a b same) st
  | inr other ↦
      has_edge-has_started inbox.transitions a b refl
        (subst (λ t. t || has_edge inbox.transitions a b ≡ true) other h) st
]

not_intent :
    (phase : Bytes) → has_started phase ≡ true → bytes_eq phase phase_intent_persisted ≡ false
not_intent phase h = elim (Bool-cases (bytes_eq phase phase_intent_persisted)) [
  | inl same ↦ absurd (
      false≢true
        (subst (λ x. has_started x ≡ true) (bytes_eq→eq phase phase_intent_persisted same) h))
  | inr other ↦ other
]
  where
    false≢true : false ≡ true → ⊥
    false≢true e = cc

module _ (s : Storage) where
  Step-HasStarted : {t u : Slot} → Step s t u → HasStarted s t → HasStarted s u
  Step-HasStarted st (settled p h) = settled p (Step-IsSettled s st h)
  Step-HasStarted (received t j r n e) (running raw i at read go) = absurd (cc)
  Step-HasStarted (rewritten t r j j' n d f) (running raw i at read go) =
      let same : i ≡ j = cc in
      running (s.encode_journal j') j' refl (s.decode-encode_journal j')
        (follows-has_started j.phase j'.phase f (subst (λ x. has_started x.phase ≡ true) same go))
  Step-HasStarted (recorded t q r n f) (running raw i at read go) = running raw i at read go
  Step-HasStarted (moved t r to n m) (running raw i at read go) = running raw i at read go
  Step-HasStarted (receipted t r n q a) (running raw i at read go) =
      settled (split_outbox_value r).1
        (record { kept = refl; no_result = refl; no_journal = refl; not_queued = refl })

  Reach-HasStarted : {t u : Slot} → HasStarted s t → Reach s t u → HasStarted s u
  Reach-HasStarted h here = h
  Reach-HasStarted h (next r st) = Step-HasStarted st (Reach-HasStarted h r)

  mark_operation_applying-HasStarted :
      (epoch : ℕ) (session o : Bytes) (db db' : Db s)
      → mark_operation_applying s epoch session o db ≡ ok db'
      → HasStarted s (slot s o db')
  unfolding mark_operation_applying slot
  mark_operation_applying-HasStarted epoch session o db db' h =
      let (j, e, h1) =
        bind-ok {E = Error} (journal_in s phase_intent_persisted epoch session o db) _ db' h in
      written _ refl h1
    where
      written :
          (j : OperationJournal)
          → has_started j.phase ≡ true
          → put_operation_journal s o j db ≡ ok db'
          → HasStarted s (slot s o db')
      written j go h =
          running (s.encode_journal j) j
            (subst (λ (d : Db s). s.get (op_journal_key o) d.operations ≡ some (s.encode_journal j))
              (sym (put_operation_journal-ok s o j db db' h))
              (s.get-set (op_journal_key o) (op_journal_key o) (s.encode_journal j) db.operations
                ∙ ap
                    (λ (b : Bool).
                      if b
                      then some (s.encode_journal j)
                      else s.get (op_journal_key o) db.operations)
                    (bytes_eq_refl (op_journal_key o))))
            (s.decode-encode_journal j) go

  load-there :
      (k raw : Bytes) (j : OperationJournal) (db : Db s)
      → s.get (op_journal_key k) db.operations ≡ some raw
      → s.decode_journal raw ≡ some j
      → load_operation_journal s k db ≡ ok (some j)
  unfolding load_operation_journal
  load-there k raw j db at read = ground arith

  load-gone :
      (k : Bytes) (db : Db s)
      → s.get (op_journal_key k) db.operations ≡ none
      → load_operation_journal s k db ≡ ok none
  unfolding load_operation_journal
  load-gone k db gone = ground arith

  -- A second start is refused.
  started-refused :
      (epoch : ℕ) (session o : Bytes) (db : Db s)
      → HasStarted s (slot s o db)
      → (e : Error) × (mark_operation_applying s epoch session o db ≡ err e)
  unfolding mark_operation_applying slot journal_in
  started-refused epoch session o db h = elim (Bool-cases (is_stale s epoch session db)) [
    | inl stale ↦ (stale_session, rw stale refl)
    | inr fresh ↦ (illegal_phase, rw fresh (refused h))
  ]
    where
      refused :
          HasStarted s (slot s o db)
          → ((load_operation_journal s o db >>= in_phase s phase_intent_persisted) >>= λ j.
              put_operation_journal s o
                (record j {
                  phase = phase_applying;
                  recovered_deletion_pending =
                      has_links j.forward_deletions || j.recovered_deletion_pending;
                })
                db)
            ≡ err illegal_phase
      refused (running raw j at read go) =
          rw (load-there o raw j db at read, not_intent j.phase go) refl
      refused (settled p h) = rw (load-gone o db h.no_journal) refl

-- A side effect starts at most once: after MarkOperationApplying succeeds for an operation, every
-- later MarkOperationApplying of it is refused, in whatever session, and whatever calls come
-- between: receipts of the same command, recoveries, results, acknowledgements and the receipt. The
-- condition is that no operation's identity, in the store or in a call, begins with `op:` or
-- `receipt:`.
pub mark_operation_applying-run :
    (s : Storage) (epoch epoch' : ℕ) (session session' o : Bytes) (es : List Event) (db db' : Db s)
    → is_plain o ≡ true
    → ArePlain es
    → IsKeyed s db'
    → mark_operation_applying s epoch session o db ≡ ok db'
    → (e : Error) × (mark_operation_applying s epoch' session' o (run s es db') ≡ err e)
mark_operation_applying-run s epoch epoch' session session' o es db db' op p k h =
    started-refused s epoch' session' o (run s es db') (
      Reach-HasStarted s (mark_operation_applying-HasStarted s epoch session o db db' h)
        (run-Reach s o es db' op p k))
