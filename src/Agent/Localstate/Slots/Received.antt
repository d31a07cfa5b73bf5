-- ===== src/Agent/Localstate/Slots/Received.antt =====
-- The receipt of a command and the recovery after a restart, as moves of every operation's rows.
use anti_nat_agent.Base.{
  ℕ, ◌≡◌, refl, ap, subst, ◌∙◌, true, false, not, ◌&&◌, ◌||◌, Option, none, some, List, [], ◌∷◌,
  arith, Bytes, bytes_eq, bytes_eq→eq, bytes_eq_refl, Bool-cases, Option-cases, inl, inr, ok, ◌>>=◌,
  bind-ok, guard-ok,
}
use anti_nat_agent.Agent.Localstate.Storage.{
  Error, Storage, Db, put_row, InboxEntry, OperationJournal,
}
use anti_nat_agent.Agent.Localstate.Command.{
  Command, Outcome, recovered_reason, upgrade, new_journal, phase_applying, phase_nacked,
  other_material, has_links, equal_forward_deletion_links,
}
use anti_nat_agent.Agent.Localstate.Journal.{
  is_stale, has_receipt, load_operation_journal, put_operation_journal, put_links,
  redeliver_payload, redeliver_journal, redeliver, first_delivery, deliver, receive_command_tx,
}
use anti_nat_agent.Agent.Localstate.Outbox.{record_result_and_queue}
use anti_nat_agent.Agent.Localstate.Operations.{
  recovering, recover_found, recover_one, recover_all, recover_applying_operations,
}
use anti_nat_agent.Agent.Localstate.Slots.{is_plain}
use anti_nat_agent.Agent.Localstate.Slots.Writes.{IsKeyed}
use anti_nat_agent.Agent.Localstate.Slots.Keeps.{
  Keeps, Keeps-refl, Keeps-trans, rewrite-Keeps, receive-Keeps, record_result-Keeps, load-some,
}
use anti_nat_agent.Agent.Localstate.Slots.Refines.{put_links-SameRows, SameRows-Keeps}

upgrade-phase : (c : Command) (j : OperationJournal) → (upgrade c j).phase ≡ j.phase
unfolding upgrade
upgrade-phase c j = ground arith

module _ (s : Storage) where
  load-same :
      (k : Bytes) (db db' : Db s)
      → db'.operations ≡ db.operations
      → load_operation_journal s k db' ≡ load_operation_journal s k db
  unfolding load_operation_journal
  load-same k db db' h =
      ap
        (λ (b : s.Bucket).
          let g : Db s = record db { operations = b } in load_operation_journal s k g)
        h

  module _ (o : Bytes) (op : is_plain o ≡ true) (c : Command)
      (kp : is_plain c.operation_id ≡ true) where
    redeliver_payload-Keeps :
        (now : ℕ) (j : OperationJournal) (db db' : Db s) (r : Outcome)
        → load_operation_journal s c.operation_id db ≡ ok (some j)
        → redeliver_payload s now c j db ≡ ok (db', r)
        → Keeps s o db db'
    unfolding redeliver_payload
    redeliver_payload-Keeps now j db db' r found h =
        let (a, h1) =
          guard-ok {E = Error} {A = Db s × Outcome}
            (j.payload_present && not (bytes_eq j.payload c.payload)) _ _ _ h in
        let (b, h2) =
          guard-ok {E = Error} {A = Db s × Outcome}
            (has_links j.forward_deletions
              && not (equal_forward_deletion_links j.forward_deletions c.links))
            _ _ _ h1 in
        let (fenced, e, h3) = bind-ok {E = Error} (put_links s now c.links db) _ (db', r) h2 in
        let (d, e', h4) =
          bind-ok {E = Error} (put_operation_journal s c.operation_id (upgrade c j) fenced) _
            (db', r) h3 in
        let same = put_links-SameRows s now c.links db fenced e in
        Keeps-trans s o db fenced db' (SameRows-Keeps s o db fenced same) (
          rewrite-Keeps s o c.operation_id j (upgrade c j) fenced db' op kp
            (load-same c.operation_id db fenced same.same_operations ∙ found)
            (rw (upgrade-phase c j, bytes_eq_refl j.phase) refl) (e' ∙ ap ok (ground arith)))

    redeliver-Keeps :
        (now : ℕ) (e : Option InboxEntry) (db db' : Db s) (r : Outcome)
        → redeliver s now c e db ≡ ok (db', r)
        → Keeps s o db db'
    unfolding redeliver
    redeliver-Keeps now none db db' r h = absurd (cc)
    redeliver-Keeps now (some e) db db' r h =
        let (a, h1) =
          guard-ok {E = Error} {A = Db s × Outcome}
            (not (bytes_eq e.message_type c.message_type)
              || not (bytes_eq e.payload_hash c.payload_hash))
            _ _ _ h in
        let (b, h2) =
          guard-ok {E = Error} {A = Db s × Outcome} (not (bytes_eq e.operation_id c.operation_id)) _
            _ _ h1 in
        let (j, found, h3) =
          bind-ok {E = Error} (load_operation_journal s c.operation_id db) _ (db', r) h2 in
        journal-Keeps j found h3
      where
        journal-Keeps :
            (j : Option OperationJournal)
            → load_operation_journal s c.operation_id db ≡ ok j
            → redeliver_journal s now c db j ≡ ok (db', r)
            → Keeps s o db db'
        journal-Keeps none found h = absurd (cc)
        journal-Keeps (some j) found h =
            let (a, h1) = guard-ok {E = Error} {A = Db s × Outcome} (other_material c j) _ _ _ h in
            elim (Bool-cases c.payload_present) [
              | inl there ↦ redeliver_payload-Keeps now j db db' r found (ground arith)
              | inr bare ↦ subst (λ d. Keeps s o db d) (ground arith) (Keeps-refl s o db)
            ]

    deliver-Keeps :
        (now : ℕ) (db db' : Db s) (r : Outcome)
        → has_receipt s c.operation_id db ≡ false
        → deliver s now c db ≡ ok (db', r)
        → Keeps s o db db'
    unfolding deliver has_receipt new_journal
    deliver-Keeps now db db' r fresh h =
        let (j, found, h1) =
          bind-ok {E = Error} (load_operation_journal s c.operation_id db) _ (db', r) h in
        first-Keeps j found h1
      where
        first-Keeps :
            (j : Option OperationJournal)
            → load_operation_journal s c.operation_id db ≡ ok j
            → first_delivery s now c db j ≡ ok (db', r)
            → Keeps s o db db'
        first-Keeps (some j) found h =
            let (a, h1) = guard-ok {E = Error} {A = Db s × Outcome} (other_material c j) _ _ _ h in
            subst (λ d. Keeps s o db d) (ground arith) (Keeps-refl s o db)
        first-Keeps none found h =
            let (b, e, h1) = bind-ok {E = Error} (put_row s c.message_id _ db.inbox) _ (db', r) h in
            let entered : Db s = record db { inbox = b } in
            let (d, e', h2) =
              bind-ok {E = Error} (put_operation_journal s c.operation_id (new_journal c) entered) _
                (db', r) h1 in
            let (d', e'', h3) = bind-ok {E = Error} (put_links s now c.links d) _ (db', r) h2 in
            Keeps-trans s o db d db'
              (Keeps-trans s o db entered d
                (SameRows-Keeps s o db entered
                  (record { same_operations = refl; same_outbox = refl }))
                (receive-Keeps s o c.operation_id (new_journal c) entered d op kp fresh
                  (load-same c.operation_id db entered refl ∙ found) refl e'))
              (subst (λ x. Keeps s o d x) (ground arith)
                (SameRows-Keeps s o d d' (put_links-SameRows s now c.links d d' e'')))

    pub receive_command_tx-Keeps :
        (now epoch : ℕ) (session : Bytes) (db db' : Db s) (r : Outcome)
        → receive_command_tx s now epoch session c db ≡ ok (db', r)
        → Keeps s o db db'
    unfolding receive_command_tx
    receive_command_tx-Keeps now epoch session db db' r h =
        let (fresh, h1) =
          guard-ok {E = Error} {A = Db s × Outcome} (is_stale s epoch session db) _ _ _ h in
        let (clean, h2) =
          guard-ok {E = Error} {A = Db s × Outcome} (has_receipt s c.operation_id db) _ _ _ h1 in
        elim (Option-cases (s.get c.message_id db.inbox)) [
          | inl new ↦ deliver-Keeps now db db' r clean (ground arith)
          | inr (raw, old) ↦ redeliver-Keeps now (s.decode_inbox raw) db db' r (ground arith)
        ]

  -- A journal that is there has a plain identity.
  found-IsPlain :
      (k : Bytes) (j : OperationJournal) (db : Db s)
      → IsKeyed s db
      → load_operation_journal s k db ≡ ok (some j)
      → is_plain k ≡ true
  found-IsPlain k j db keyed found =
      let (raw, there, read) = load-some s k j db found in
      elim (Bool-cases (is_plain k)) [ inl p ↦ p | inr q ↦ absurd (cc (keyed k q)) ]

  module _ (o : Bytes) (op : is_plain o ≡ true) where
    recover_one-Keeps :
        (now : ℕ) (k : Bytes) (db db' : Db s)
        → IsKeyed s db
        → recover_one s now k db ≡ ok db'
        → Keeps s o db db'
    unfolding recover_one
    recover_one-Keeps now k db db' keyed h =
        let (j, found, h1) = bind-ok {E = Error} (load_operation_journal s k db) _ db' h in
        recover_found-Keeps j found h1
      where
        recover_found-Keeps :
            (j : Option OperationJournal)
            → load_operation_journal s k db ≡ ok j
            → recover_found s now k db j ≡ ok db'
            → Keeps s o db db'
        recover_found-Keeps none found h =
            subst (λ d. Keeps s o db d) (ground arith) (Keeps-refl s o db)
        recover_found-Keeps (some j) found h = elim (Bool-cases (bytes_eq j.phase phase_applying)) [
          | inr other ↦ subst (λ d. Keeps s o db d) (ground arith) (Keeps-refl s o db)
          | inl applying ↦
              let kp = found-IsPlain k j db keyed found in
              let (fenced, e, h1) =
                bind-ok {E = Error} (put_links s now j.forward_deletions db)
                  (λ (fenced : Db s).
                    put_operation_journal s k
                      (record j { phase = phase_nacked; reason = recovered_reason }) fenced
                    >>= record_result_and_queue s k (s.encode_nack recovered_reason true))
                  db' (ground arith) in
              let (nacked, e', h2) =
                bind-ok {E = Error}
                  (put_operation_journal s k
                    (record j { phase = phase_nacked; reason = recovered_reason }) fenced)
                  _ db' h1 in
              let same = put_links-SameRows s now j.forward_deletions db fenced e in
              Keeps-trans s o db nacked db'
                (Keeps-trans s o db fenced nacked (SameRows-Keeps s o db fenced same) (
                  rewrite-Keeps s o k j
                    (record j { phase = phase_nacked; reason = recovered_reason }) fenced nacked op
                    kp (load-same k db fenced same.same_operations ∙ found)
                    (rw (bytes_eq→eq j.phase phase_applying applying) refl) e'))
                (record_result-Keeps s o k _ nacked db' op kp h2)
        ]

    recover_all-Keeps :
        (now : ℕ) (ks : List Bytes) (db db' : Db s)
        → IsKeyed s db
        → recover_all s now ks db ≡ ok db'
        → Keeps s o db db'
    unfolding recover_all
    recover_all-Keeps now [] db db' keyed h =
        subst (λ d. Keeps s o db d) (ground arith) (Keeps-refl s o db)
    recover_all-Keeps now (k ∷ ks) db db' keyed h =
        let (d, e, h1) = bind-ok {E = Error} (recover_one s now k db) _ db' h in
        let first = recover_one-Keeps now k db d keyed e in
        Keeps-trans s o db d db' first (recover_all-Keeps now ks d db' (first.0 keyed) h1)

    pub recover_applying_operations-Keeps :
        (now epoch : ℕ) (session : Bytes) (db db' : Db s)
        → IsKeyed s db
        → recover_applying_operations s now epoch session db ≡ ok db'
        → Keeps s o db db'
    unfolding recover_applying_operations
    recover_applying_operations-Keeps now epoch session db db' keyed h =
        let (fresh, h1) = guard-ok {E = Error} {A = Db s} (is_stale s epoch session db) _ _ db' h in
        let (ks, e, h2) = bind-ok {E = Error} (recovering s (s.rows db.operations) db) _ db' h1 in
        recover_all-Keeps now ks db db' keyed h2
