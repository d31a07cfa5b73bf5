-- ===== src/Agent/Localstate/Slots/Refines.antt =====
-- Each operation of the journal, as moves of every operation's rows.
use anti_nat_agent.Base.{
  ℕ, ◌≡◌, refl, sym, ap, subst, ◌∙◌, Bool, true, false, ◌||◌, Option, none, some, List, [], ◌∷◌,
  arith, Bytes, bytes_eq, bytes_eq→eq, bytes_eq_refl, Bool-cases, inl, inr, Result, ok, err, panic,
  ◌>>=◌, bind-ok, guard-ok,
}
use anti_nat_agent.Agent.Localstate.Storage.{
  Error, Storage, Db, put_row, OperationJournal, ForwardDeleteIntent, ForwardDeletionLink,
}
use anti_nat_agent.Agent.Localstate.Fences.{put_intent_tx}
use anti_nat_agent.Agent.Localstate.Command.{
  op_journal_key, has_links, phase_received, phase_intent_persisted, phase_applying, phase_applied,
  phase_nacked,
}
use anti_nat_agent.Agent.Localstate.Journal.{
  load_operation_journal, put_operation_journal, put_links, tolerate, is_stale,
}
use anti_nat_agent.Agent.Localstate.Outbox.{record_result_and_queue}
use anti_nat_agent.Agent.Localstate.Operations.{
  in_phase, journal_in, in_recovery, persist_operation_intent, mark_operation_applying,
  complete_operation, nack_operation, nack_operation_with_result, queue_nacked_result,
  complete_recovered_deletion,
}
use anti_nat_agent.Agent.Localstate.Slots.{is_plain, slot, follows, Reach, here}
use anti_nat_agent.Agent.Localstate.Slots.Keeps.{
  Keeps, Keeps-trans, rewrite-Keeps, record_result-Keeps,
}

module _ (s : Storage) where
  -- Only the deletion fences differ.
  pub record SameRows (db db' : Db s) : Type 0 where
    pub same_operations : db'.operations ≡ db.operations
    pub same_outbox : db'.outbox ≡ db.outbox

  put_intent-SameRows :
      (i : ForwardDeleteIntent) (db db' : Db s) (b : Bool)
      → put_intent_tx s i db ≡ ok (db', b)
      → SameRows db db'
  unfolding put_intent_tx put_row
  put_intent-SameRows i db db' b h = ground arith

  tolerate-SameRows :
      (i : ForwardDeleteIntent) (db db' : Db s) (r : Result Error (Db s × Bool))
      → put_intent_tx s i db ≡ r
      → tolerate s db r ≡ ok db'
      → SameRows db db'
  tolerate-SameRows i db db' (ok (d, b)) e h =
      subst (λ x. SameRows db x) (cc) (put_intent-SameRows i db d b e)
  tolerate-SameRows i db db' (err x) e h = ground arith
  tolerate-SameRows i db db' panic e h = cc

  pub put_links-SameRows :
      (now : ℕ) (ls : List ForwardDeletionLink) (db db' : Db s)
      → put_links s now ls db ≡ ok db'
      → SameRows db db'
  unfolding put_links
  put_links-SameRows now [] db db' h = ground arith
  put_links-SameRows now (l ∷ ls) db db' h =
      let (d, e, h') = bind-ok {E = Error} (tolerate s db _) _ db' h in
      let first = tolerate-SameRows _ db d _ refl e in
      let later = put_links-SameRows now ls d db' h' in ground arith

  pub SameRows-Keeps : (o : Bytes) (db db' : Db s) → SameRows db db' → Keeps s o db db'
  unfolding slot
  SameRows-Keeps o db db' h = (
    λ keyed id p.
        subst (λ b. s.get (op_journal_key id) b ≡ none) (sym h.same_operations) (keyed id p),
    subst (λ t. Reach s (slot s o db) t) (cc (h.same_operations, h.same_outbox)) here,
  )

  pub journal_in-ok :
      (want : Bytes) (epoch : ℕ) (session k : Bytes) (db : Db s) (j : OperationJournal)
      → journal_in s want epoch session k db ≡ ok j
      → (load_operation_journal s k db ≡ ok (some j)) × (j.phase ≡ want)
  unfolding journal_in
  journal_in-ok want epoch session k db j h =
      let (fresh, h1) =
        guard-ok {E = Error} {A = OperationJournal} (is_stale s epoch session db) _ _ j h in
      let (found, e, h2) = bind-ok {E = Error} (load_operation_journal s k db) _ j h1 in
      in_phase-ok found e h2
    where
      in_phase-ok :
          (found : Option OperationJournal)
          → load_operation_journal s k db ≡ ok found
          → in_phase s want found ≡ ok j
          → (load_operation_journal s k db ≡ ok (some j)) × (j.phase ≡ want)
      in_phase-ok none e h = cc
      in_phase-ok (some i) e h = elim (Bool-cases (bytes_eq i.phase want)) [
        | inl is ↦
            let same : i ≡ j = ground arith in
            (e ∙ ap (λ x. ok (some x)) same, cc (bytes_eq→eq i.phase want is))
        | inr other ↦ absurd (ground arith)
      ]

  -- The two endings of an operation that has found its journal in the phase that it wants.
  module _ (o k : Bytes) (op : is_plain o ≡ true) (kp : is_plain k ≡ true) where
    written :
        (want : Bytes) (epoch : ℕ) (session : Bytes) (f : OperationJournal → OperationJournal)
        (db db' : Db s)
        → ((j : OperationJournal) → j.phase ≡ want → follows j.phase (f j).phase ≡ true)
        → (journal_in s want epoch session k db >>= λ j. put_operation_journal s k (f j) db)
          ≡ ok db'
        → Keeps s o db db'
    written want epoch session f db db' edge h =
        let (j, e, h') = bind-ok {E = Error} (journal_in s want epoch session k db) _ db' h in
        let (found, phase) = journal_in-ok want epoch session k db j e in
        rewrite-Keeps s o k j (f j) db db' op kp found (edge j phase) h'

    written_with_result :
        (want : Bytes) (epoch : ℕ) (session : Bytes) (f : OperationJournal → OperationJournal)
        (result : Bytes) (db db' : Db s)
        → ((j : OperationJournal) → j.phase ≡ want → follows j.phase (f j).phase ≡ true)
        → (journal_in s want epoch session k db >>= λ j.
            put_operation_journal s k (f j) db >>= record_result_and_queue s k result)
          ≡ ok db'
        → Keeps s o db db'
    written_with_result want epoch session f result db db' edge h =
        let (j, e, h1) = bind-ok {E = Error} (journal_in s want epoch session k db) _ db' h in
        let (found, phase) = journal_in-ok want epoch session k db j e in
        let (d, e', h2) = bind-ok {E = Error} (put_operation_journal s k (f j) db) _ db' h1 in
        Keeps-trans s o db d db' (rewrite-Keeps s o k j (f j) db d op kp found (edge j phase) e')
          (record_result-Keeps s o k result d db' op kp h2)

    pub persist_operation_intent-Keeps :
        (epoch : ℕ) (session : Bytes) (db db' : Db s)
        → persist_operation_intent s epoch session k db ≡ ok db'
        → Keeps s o db db'
    unfolding persist_operation_intent
    persist_operation_intent-Keeps epoch session db db' h =
        written phase_received epoch session (λ j. record j { phase = phase_intent_persisted }) db
          db' (λ j e. rw e) h

    pub mark_operation_applying-Keeps :
        (epoch : ℕ) (session : Bytes) (db db' : Db s)
        → mark_operation_applying s epoch session k db ≡ ok db'
        → Keeps s o db db'
    unfolding mark_operation_applying
    mark_operation_applying-Keeps epoch session db db' h =
        written phase_intent_persisted epoch session
          (λ j. record j {
            phase = phase_applying;
            recovered_deletion_pending =
                has_links j.forward_deletions || j.recovered_deletion_pending;
          })
          db db' (λ j e. rw e) h

    pub nack_operation-Keeps :
        (epoch : ℕ) (session reason : Bytes) (db db' : Db s)
        → nack_operation s epoch session k reason db ≡ ok db'
        → Keeps s o db db'
    unfolding nack_operation
    nack_operation-Keeps epoch session reason db db' h =
        written phase_applying epoch session
          (λ j. record j { phase = phase_nacked; reason = reason }) db db' (λ j e. rw e) h

    pub complete_operation-Keeps :
        (epoch : ℕ) (session result : Bytes) (db db' : Db s)
        → complete_operation s epoch session k result db ≡ ok db'
        → Keeps s o db db'
    unfolding complete_operation
    complete_operation-Keeps epoch session result db db' h =
        written_with_result phase_applying epoch session (λ j. record j { phase = phase_applied })
          result db db' (λ j e. rw e) h

    pub nack_operation_with_result-Keeps :
        (epoch : ℕ) (session reason result : Bytes) (db db' : Db s)
        → nack_operation_with_result s epoch session k reason result db ≡ ok db'
        → Keeps s o db db'
    unfolding nack_operation_with_result
    nack_operation_with_result-Keeps epoch session reason result db db' h =
        written_with_result phase_applying epoch session
          (λ j. record j { phase = phase_nacked; reason = reason }) result db db' (λ j e. rw e) h

    pub queue_nacked_result-Keeps :
        (epoch : ℕ) (session : Bytes) (db db' : Db s)
        → queue_nacked_result s epoch session k db ≡ ok db'
        → Keeps s o db db'
    unfolding queue_nacked_result
    queue_nacked_result-Keeps epoch session db db' h =
        let (j, e, h') =
          bind-ok {E = Error} (journal_in s phase_nacked epoch session k db) _ db' h in
        record_result-Keeps s o k _ db db' op kp h'

    pub complete_recovered_deletion-Keeps :
        (epoch : ℕ) (session : Bytes) (db db' : Db s)
        → complete_recovered_deletion s epoch session k db ≡ ok db'
        → Keeps s o db db'
    unfolding complete_recovered_deletion
    complete_recovered_deletion-Keeps epoch session db db' h =
        let (fresh, h1) = guard-ok {E = Error} {A = Db s} (is_stale s epoch session db) _ _ db' h in
        let (found, e, h2) = bind-ok {E = Error} (load_operation_journal s k db) _ db' h1 in
        let (j, e', h3) = bind-ok {E = Error} (in_recovery s found) _ db' h2 in
        rewrite-Keeps s o k j (record j { recovered_deletion_pending = false }) db db' op kp
          (e ∙ ap ok (in_recovery-ok found j e')) (cc (bytes_eq_refl j.phase)) h3
      where
        in_recovery-ok :
            (found : Option OperationJournal) (j : OperationJournal)
            → in_recovery s found ≡ ok j
            → found ≡ some j
        in_recovery-ok none j h = cc
        in_recovery-ok (some i) j h = ground arith
