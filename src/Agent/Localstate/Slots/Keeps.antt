-- ===== src/Agent/Localstate/Slots/Keeps.antt =====
-- The writes that the operations are made of, each as moves of every operation's rows.
use anti_nat_agent.Base.{
  ◌≡◌, refl, sym, ap, subst, ◌∙◌, Bool, true, false, Option, none, some, arith, if◌then◌else◌,
  Bytes, bytes_eq, bytes_eq→eq, Bool-cases, Option-cases, inl, inr, ok, bind-ok, guard-ok,
}
use anti_nat_agent.Agent.Localstate.Storage.{Error, Storage, Db, put_row, OperationJournal}
use anti_nat_agent.Agent.Localstate.Fences.{receipt_key, is_some}
use anti_nat_agent.Agent.Localstate.Command.{op_journal_key, phase_received}
use anti_nat_agent.Agent.Localstate.Journal.{
  load_operation_journal, put_operation_journal, has_receipt,
}
use anti_nat_agent.Agent.Localstate.Outbox.{
  row, phase_pending, record_result_and_queue, queue_fresh, conflicts,
}
use anti_nat_agent.Agent.Localstate.Slots.{
  is_plain, Slot, slot, Step, received, rewritten, recorded, follows, fits, Reach, here, next,
  Reach-trans,
}
use anti_nat_agent.Agent.Localstate.Slots.Writes.{
  IsKeyed, slot-set_journal, slot-set_queued, slot-set_result, journal_key_not,
}

-- The rows of the operation `o` make moves from the one store to the other, and the journals stay
-- under plain identities.
abbrev pub Keeps : (s : Storage) → Bytes → Db s → Db s → Type 0
Keeps s o db db' = (IsKeyed s db → IsKeyed s db') × Reach s (slot s o db) (slot s o db')

pub none_of : (o : Option Bytes) → is_some o ≡ false → o ≡ none
none_of none h = refl
none_of (some v) h = cc

fits_of : (o : Option Bytes) (p : Bytes) → conflicts o p ≡ false → fits o p ≡ true
fits_of none p h = refl
fits_of (some v) p h = ground arith

module _ (s : Storage) where
  pub Keeps-refl : (o : Bytes) (db : Db s) → Keeps s o db db
  Keeps-refl o db = (λ k. k, here)

  pub Keeps-trans : (o : Bytes) (a b c : Db s) → Keeps s o a b → Keeps s o b c → Keeps s o a c
  Keeps-trans o a b c (k, r) (l, q) = (λ h. l (k h), Reach-trans s r q)

  pub put_row-ok : (k v : Bytes) (b b' : s.Bucket) → put_row s k v b ≡ ok b' → b' ≡ s.set k v b
  unfolding put_row
  put_row-ok k v b b' h = ground arith

  pub put_operation_journal-ok :
      (k : Bytes) (j : OperationJournal) (db db' : Db s)
      → put_operation_journal s k j db ≡ ok db'
      → db' ≡ record db { operations = s.set (op_journal_key k) (s.encode_journal j) db.operations }
  unfolding put_operation_journal put_row
  put_operation_journal-ok k j db db' h = ground arith

  pub load-some :
      (k : Bytes) (j : OperationJournal) (db : Db s)
      → load_operation_journal s k db ≡ ok (some j)
      → (raw : Bytes) × (s.get (op_journal_key k) db.operations ≡ some raw)
        × (s.decode_journal raw ≡ some j)
  unfolding load_operation_journal
  load-some k j db h = elim (Option-cases (s.get (op_journal_key k) db.operations)) [
    | inl e ↦ absurd (ground arith)
    | inr (raw, e) ↦ (raw, e, ground arith)
  ]

  pub load-none :
      (k : Bytes) (db : Db s)
      → load_operation_journal s k db ≡ ok none
      → s.get (op_journal_key k) db.operations ≡ none
  unfolding load_operation_journal
  load-none k db h = ground arith

  step_to : {t u v : Slot} → Step s t u → v ≡ u → Reach s t v
  step_to {t} st e = subst (λ x. Reach s t x) (sym e) (next here st)

  stay_at : {t u : Slot} → u ≡ t → Reach s t u
  stay_at {t} e = subst (λ x. Reach s t x) (sym e) here

  IsKeyed-set_journal :
      (k v : Bytes) (db : Db s)
      → is_plain k ≡ true
      → IsKeyed s db
      → IsKeyed s (record db { operations = s.set (op_journal_key k) v db.operations })
  IsKeyed-set_journal k v db kp keyed id h = elim (Bool-cases (bytes_eq id k)) [
    | inl same ↦ absurd (cc (bytes_eq→eq id k same))
    | inr other ↦
        s.get-set (op_journal_key id) (op_journal_key k) v db.operations
        ∙ ap (λ (b : Bool). if b then some v else s.get (op_journal_key id) db.operations) other
        ∙ keyed id h
  ]

  IsKeyed-set :
      (k v : Bytes) (db : Db s)
      → ((id : Bytes) → bytes_eq (op_journal_key id) k ≡ false)
      → IsKeyed s db
      → IsKeyed s (record db { operations = s.set k v db.operations })
  IsKeyed-set k v db apart keyed id h =
      s.get-set (op_journal_key id) k v db.operations
      ∙ ap (λ (b : Bool). if b then some v else s.get (op_journal_key id) db.operations) (apart id)
      ∙ keyed id h

  pub no_receipt :
      (k : Bytes) (db : Db s)
      → has_receipt s k db ≡ false
      → s.get (receipt_key k) db.operations ≡ none
  unfolding has_receipt
  no_receipt k db h = none_of _ h

  queue_fresh-ok :
      (k p : Bytes) (db db' : Db s)
      → queue_fresh s k p db ≡ ok db'
      → (conflicts (s.get k db.operations) p ≡ false)
        × (db' ≡ record db {
          operations = s.set k p db.operations;
          outbox = s.set k (row phase_pending p) db.outbox;
        })
  queue_fresh-ok k p db db' h =
      let (c, h1) =
        guard-ok {E = Error} {A = Db s} (conflicts (s.get k db.operations) p) _ _ db' h in
      let (b, e1, h2) = bind-ok {E = Error} (put_row s k p db.operations) _ db' h1 in
      let (b', e2, h3) =
        bind-ok {E = Error} (put_row s k (row phase_pending p) db.outbox) _ db' h2 in
      (
        c,
        cc (put_row-ok k p db.operations b e1, put_row-ok k (row phase_pending p) db.outbox b' e2),
      )

  -- A journal's write, where it is a move of the operation's own rows.
  pub journal-Keeps :
      (o k : Bytes) (j : OperationJournal) (db db' : Db s)
      → is_plain o ≡ true
      → is_plain k ≡ true
      → (o ≡ k
          → Step s (slot s o db) (record (slot s o db) { journal = some (s.encode_journal j) }))
      → put_operation_journal s k j db ≡ ok db'
      → Keeps s o db db'
  journal-Keeps o k j db db' op kp move h =
      subst (λ d. Keeps s o db d) (sym (put_operation_journal-ok k j db db' h))
        (
          IsKeyed-set_journal k (s.encode_journal j) db kp,
          elim (Bool-cases (bytes_eq o k)) [
            | inl same ↦
                step_to (move (bytes_eq→eq o k same))
                  (cc (slot-set_journal s o k (s.encode_journal j) db op, same))
            | inr other ↦ stay_at (cc (slot-set_journal s o k (s.encode_journal j) db op, other))
          ],
        )

  pub rewrite-Keeps :
      (o k : Bytes) (j j' : OperationJournal) (db db' : Db s)
      → is_plain o ≡ true
      → is_plain k ≡ true
      → load_operation_journal s k db ≡ ok (some j)
      → follows j.phase j'.phase ≡ true
      → put_operation_journal s k j' db ≡ ok db'
      → Keeps s o db db'
  unfolding slot
  rewrite-Keeps o k j j' db db' op kp found f h =
      let (raw, there, read) = load-some k j db found in
      journal-Keeps o k j' db db' op kp (λ e. rewritten (slot s o db) raw j j' (cc) read f) h

  pub receive-Keeps :
      (o k : Bytes) (j : OperationJournal) (db db' : Db s)
      → is_plain o ≡ true
      → is_plain k ≡ true
      → has_receipt s k db ≡ false
      → load_operation_journal s k db ≡ ok none
      → j.phase ≡ phase_received
      → put_operation_journal s k j db ≡ ok db'
      → Keeps s o db db'
  unfolding slot
  receive-Keeps o k j db db' op kp fresh absent p h =
      let missing = load-none k db absent in
      let clean = no_receipt k db fresh in
      journal-Keeps o k j db db' op kp (λ e. received (slot s o db) j (cc) (cc) p) h

  -- A write to the outbox, where it is a move of the operation's own rows.
  pub queued-Keeps :
      (o k v : Bytes) (db : Db s)
      → is_plain o ≡ true
      → (o ≡ k → Step s (slot s o db) (record (slot s o db) { queued = some v }))
      → Keeps s o db (record db { outbox = s.set k v db.outbox })
  queued-Keeps o k v db op move = (
    λ h. h,
    elim (Bool-cases (bytes_eq o k)) [
      | inl same ↦ step_to (move (bytes_eq→eq o k same)) (cc (slot-set_queued s o k v db op, same))
      | inr other ↦ stay_at (cc (slot-set_queued s o k v db op, other))
    ],
  )

  -- The two writes of a new result.
  pub fresh-Keeps :
      (o k p : Bytes) (db : Db s)
      → is_plain o ≡ true
      → is_plain k ≡ true
      → has_receipt s k db ≡ false
      → is_some (s.get k db.outbox) ≡ false
      → conflicts (s.get k db.operations) p ≡ false
      → Keeps s o db (record db {
        operations = s.set k p db.operations;
        outbox = s.set k (row phase_pending p) db.outbox;
      })
  unfolding slot
  fresh-Keeps o k p db op kp fresh unqueued agrees = (
    IsKeyed-set k p db (journal_key_not k kp),
    elim (Bool-cases (bytes_eq o k)) [
      | inl same ↦
          step_to
            (recorded (slot s o db) p (cc (no_receipt k db fresh, bytes_eq→eq o k same))
              (cc (none_of _ unqueued, bytes_eq→eq o k same))
              (subst (λ x. fits (s.get x db.operations) p ≡ true) (sym (bytes_eq→eq o k same))
                (fits_of _ p agrees)))
            (cc (
              slot-set_result s o k p
                  (record db { outbox = s.set k (row phase_pending p) db.outbox }) op kp,
              slot-set_queued s o k (row phase_pending p) db op,
              same,
            ))
      | inr other ↦ stay_at (
          cc (
            slot-set_result s o k p (record db { outbox = s.set k (row phase_pending p) db.outbox })
                op kp,
            slot-set_queued s o k (row phase_pending p) db op,
            other,
          ))
    ],
  )

  pub record_result-Keeps :
      (o k p : Bytes) (db db' : Db s)
      → is_plain o ≡ true
      → is_plain k ≡ true
      → record_result_and_queue s k p db ≡ ok db'
      → Keeps s o db db'
  unfolding record_result_and_queue
  record_result-Keeps o k p db db' op kp h =
      let (fresh, h1) = guard-ok {E = Error} {A = Db s} (has_receipt s k db) _ _ db' h in
      elim (Bool-cases (is_some (s.get k db.outbox))) [
        | inl queued ↦ subst (λ d. Keeps s o db d) (ground arith) (Keeps-refl o db)
        | inr unqueued ↦
            let (agrees, e) = queue_fresh-ok k p db db' (ground arith) in
            subst (λ d. Keeps s o db d) (sym e) (fresh-Keeps o k p db op kp fresh unqueued agrees)
      ]
