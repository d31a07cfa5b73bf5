-- ===== src/Agent/Localstate/Slots/Deliveries.antt =====
-- The outbox and its receipts, as moves of every operation's rows.
use anti_nat_agent.Base.{
  ℕ, ◌≡◌, refl, sym, subst, true, false, not, Option, none, some, [], arith, if◌then◌else◌, Bytes,
  bytes_eq, bytes_eq→eq, Bool-cases, inl, inr, ok, bind-ok, guard-ok, ok-injective,
}
use anti_nat_agent.Agent.Localstate.Storage.{Error, Storage, Db, put_row}
use anti_nat_agent.Agent.Localstate.Fences.{receipt_key}
use anti_nat_agent.Agent.Localstate.Command.{op_journal_key, or_empty}
use anti_nat_agent.Agent.Localstate.Journal.{is_stale, has_receipt, load_operation_journal}
use anti_nat_agent.Agent.Localstate.Outbox.{
  split_outbox_value, row, phase_pending, phase_claimed, phase_sent, phase_semantic_acked,
  outbox_row, advance_outbox, claim_outbox, mark_outbox_sent, accept_semantic_ack, accept_receipt,
  collect, message_of, queue_result, queue_result_session_independent,
}
use anti_nat_agent.Agent.Localstate.Slots.{
  is_plain, slot, moved, receipted, moves, Reach, here, next,
}
use anti_nat_agent.Agent.Localstate.Slots.Writes.{
  IsKeyed, not_journal_key, not_receipt_key, journal_key_not, receipt_key_not,
}
use anti_nat_agent.Agent.Localstate.Slots.Keeps.{
  Keeps, put_row-ok, queued-Keeps, record_result-Keeps, no_receipt,
}

module _ (s : Storage) (o k : Bytes) (op : is_plain o ≡ true) (kp : is_plain k ≡ true) where
  pub queue_result-Keeps :
      (epoch : ℕ) (session result : Bytes) (db db' : Db s)
      → queue_result s epoch session k result db ≡ ok db'
      → Keeps s o db db'
  unfolding queue_result
  queue_result-Keeps epoch session result db db' h =
      let (fresh, h1) = guard-ok {E = Error} {A = Db s} (is_stale s epoch session db) _ _ db' h in
      record_result-Keeps s o k result db db' op kp h1

  pub queue_result_session_independent-Keeps :
      (result : Bytes) (db db' : Db s)
      → queue_result_session_independent s k result db ≡ ok db'
      → Keeps s o db db'
  unfolding queue_result_session_independent
  queue_result_session_independent-Keeps result db db' h =
      let (named, h1) = guard-ok {E = Error} {A = Db s} (bytes_eq k []) _ _ db' h in
      record_result-Keeps s o k result db db' op kp h1

  pub advance_outbox-Keeps :
      (from to : Bytes) (epoch : ℕ) (session : Bytes) (db db' : Db s)
      → bytes_eq [] from ≡ false
      → moves from to ≡ true
      → advance_outbox s from to epoch session k db ≡ ok db'
      → Keeps s o db db'
  unfolding advance_outbox slot
  advance_outbox-Keeps from to epoch session db db' named edge h =
      let (fresh, h1) = guard-ok {E = Error} {A = Db s} (is_stale s epoch session db) _ _ db' h in
      let (at, h2) =
        guard-ok {E = Error} {A = Db s} (not (bytes_eq (outbox_row s k db).0 from)) _ _ db' h1 in
      let (b, e, h3) = bind-ok {E = Error} (put_row s k _ db.outbox) _ db' h2 in
      let in_from : bytes_eq (outbox_row s k db).0 from ≡ true = ground arith in
      advanced db db' (s.get k db.outbox) b refl in_from (put_row-ok s k _ db.outbox b e)
        (ok-injective _ _ h3)
    where
      advanced :
          (db db' : Db s) (v : Option Bytes) (b : s.Bucket)
          → s.get k db.outbox ≡ v
          → bytes_eq (split_outbox_value (or_empty v)).0 from ≡ true
          → b ≡ s.set k (row to (split_outbox_value (or_empty v)).1) db.outbox
          → record db { outbox = b } ≡ db'
          → Keeps s o db db'
      advanced db db' none b there at e h = absurd (cc)
      advanced db db' (some r) b there at e h =
          let written : record db { outbox = s.set k (row to (split_outbox_value r).1) db.outbox }
              ≡ db' =
            cc in
          subst (λ d. Keeps s o db d) written
            (queued-Keeps s o k (row to (split_outbox_value r).1) db op (λ i.
              moved (slot s o db) r to (cc) (
                subst (λ x. moves x to ≡ true) (sym (bytes_eq→eq (split_outbox_value r).0 from at))
                  edge)))

  pub claim_outbox-Keeps :
      (epoch : ℕ) (session : Bytes) (db db' : Db s)
      → claim_outbox s epoch session k db ≡ ok db'
      → Keeps s o db db'
  unfolding claim_outbox
  claim_outbox-Keeps epoch session db db' h =
      advance_outbox-Keeps phase_pending phase_claimed epoch session db db' refl refl h

  pub mark_outbox_sent-Keeps :
      (epoch : ℕ) (session : Bytes) (db db' : Db s)
      → mark_outbox_sent s epoch session k db ≡ ok db'
      → Keeps s o db db'
  unfolding mark_outbox_sent
  mark_outbox_sent-Keeps epoch session db db' h =
      advance_outbox-Keeps phase_claimed phase_sent epoch session db db' refl refl h

  pub accept_semantic_ack-Keeps :
      (epoch : ℕ) (session : Bytes) (db db' : Db s)
      → accept_semantic_ack s epoch session k db ≡ ok db'
      → Keeps s o db db'
  unfolding accept_semantic_ack
  accept_semantic_ack-Keeps epoch session db db' h =
      advance_outbox-Keeps phase_sent phase_semantic_acked epoch session db db' refl refl h

  -- The rows after the receipt is written and the others are deleted.
  pub collected_rows :
      (payload message : Bytes) (db : Db s)
      → let db' = collect s k message (s.set (receipt_key k) payload db.operations) db in
        slot s o db' ≡ record {
          receipt = if bytes_eq o k then some payload else (slot s o db).receipt;
          result = if bytes_eq o k then none else (slot s o db).result;
          journal = if bytes_eq o k then none else (slot s o db).journal;
          queued = if bytes_eq o k then none else (slot s o db).queued;
        }
  unfolding slot
  collected_rows payload message db =
      let b = s.set (receipt_key k) payload db.operations in
      let b' = s.unset k b in
      ground (
        arith,
        s.get-unset (receipt_key o) (op_journal_key k) b',
        s.get-unset (receipt_key o) k b,
        s.get-set (receipt_key o) (receipt_key k) payload db.operations,
        s.get-unset o (op_journal_key k) b',
        s.get-unset o k b,
        s.get-set o (receipt_key k) payload db.operations,
        s.get-unset (op_journal_key o) (op_journal_key k) b',
        s.get-unset (op_journal_key o) k b,
        s.get-set (op_journal_key o) (receipt_key k) payload db.operations,
        s.get-unset o k db.outbox,
        not_journal_key o op k,
        not_receipt_key o op k,
        journal_key_not k kp o,
        receipt_key_not k kp o,
      )

  collected-IsKeyed :
      (payload message : Bytes) (db : Db s)
      → IsKeyed s db
      → IsKeyed s (collect s k message (s.set (receipt_key k) payload db.operations) db)
  collected-IsKeyed payload message db keyed id h =
      let b = s.set (receipt_key k) payload db.operations in
      ground (
        arith,
        s.get-unset (op_journal_key id) (op_journal_key k) (s.unset k b),
        s.get-unset (op_journal_key id) k b,
        s.get-set (op_journal_key id) (receipt_key k) payload db.operations,
        keyed id h,
      )

  collected-Keeps :
      (r message : Bytes) (db : Db s)
      → has_receipt s k db ≡ false
      → s.get k db.outbox ≡ some r
      → bytes_eq (split_outbox_value r).0 phase_semantic_acked ≡ true
      → Keeps s o db
          (collect s k message (s.set (receipt_key k) (split_outbox_value r).1 db.operations) db)
  unfolding slot
  collected-Keeps r message db fresh there acked =
      let p = (split_outbox_value r).1 in
      let clean = no_receipt s k db fresh in
      let after = collected_rows p message db in
      (
        collected-IsKeyed p message db,
        elim (Bool-cases (bytes_eq o k)) [
          | inl same ↦
              let e = bytes_eq→eq o k same in
              subst (λ t. Reach s (slot s o db) t) (cc (after, same))
                (next here (receipted (slot s o db) r (cc) (cc) acked))
          | inr other ↦ subst (λ t. Reach s (slot s o db) t) (cc (after, other)) here
        ],
      )

  pub accept_receipt-Keeps :
      (epoch : ℕ) (session : Bytes) (db db' : Db s)
      → accept_receipt s epoch session k db ≡ ok db'
      → Keeps s o db db'
  unfolding accept_receipt
  accept_receipt-Keeps epoch session db db' h =
      let (fresh, h1) = guard-ok {E = Error} {A = Db s} (is_stale s epoch session db) _ _ db' h in
      let (clean, h2) = guard-ok {E = Error} {A = Db s} (has_receipt s k db) _ _ db' h1 in
      let (at, h3) =
        guard-ok {E = Error} {A = Db s} (not (bytes_eq (outbox_row s k db).0 phase_semantic_acked))
          _ _ db' h2 in
      let (j, e, h4) = bind-ok {E = Error} (load_operation_journal s k db) _ db' h3 in
      let (b, e', h5) = bind-ok {E = Error} (put_row s (receipt_key k) _ db.operations) _ db' h4 in
      receipt_at db db' (s.get k db.outbox) (message_of j) b refl clean (ground arith)
        (put_row-ok s (receipt_key k) _ db.operations b e') (ok-injective _ _ h5)
    where
      receipt_at :
          (db db' : Db s) (v : Option Bytes) (message : Bytes) (b : s.Bucket)
          → s.get k db.outbox ≡ v
          → has_receipt s k db ≡ false
          → bytes_eq (split_outbox_value (or_empty v)).0 phase_semantic_acked ≡ true
          → b ≡ s.set (receipt_key k) (split_outbox_value (or_empty v)).1 db.operations
          → collect s k message b db ≡ db'
          → Keeps s o db db'
      receipt_at db db' none message b there clean acked e h = absurd (cc)
      receipt_at db db' (some r) message b there clean acked e h =
          subst (λ d. Keeps s o db d) (cc) (collected-Keeps r message db clean there acked)
