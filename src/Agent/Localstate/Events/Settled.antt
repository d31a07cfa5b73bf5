-- ===== src/Agent/Localstate/Events/Settled.antt =====
-- What stays of an operation once the Controller's receipt for it is durable.
use anti_nat_agent.Base.{
  ℕ, ◌≡◌, refl, sym, subst, true, not, none, some, List, Bytes, bytes_eq, bytes_eq_refl, ok,
  bind-ok, guard-ok, ok-injective,
}
use anti_nat_agent.Agent.Localstate.Storage.{Error, Storage, Db, put_row}
use anti_nat_agent.Agent.Localstate.Fences.{receipt_key}
use anti_nat_agent.Agent.Localstate.Journal.{is_stale, has_receipt, load_operation_journal}
use anti_nat_agent.Agent.Localstate.Outbox.{
  accept_receipt, outbox_row, phase_semantic_acked, collect, message_of,
}
use anti_nat_agent.Agent.Localstate.Slots.{
  is_plain, Slot, slot, Step, received, rewritten, recorded, moved, receipted, Reach, here, next,
}
use anti_nat_agent.Agent.Localstate.Slots.Writes.{IsKeyed}
use anti_nat_agent.Agent.Localstate.Slots.Keeps.{put_row-ok}
use anti_nat_agent.Agent.Localstate.Slots.Deliveries.{collected_rows}
use anti_nat_agent.Agent.Localstate.Events.{Event, run}
use anti_nat_agent.Agent.Localstate.Events.Refined.{ArePlain, run-Reach}

-- Only the receipt is left, and it carries the payload `p`.
pub record IsSettled (p : Bytes) (t : Slot) : Type 0 where
  pub kept : t.receipt ≡ some p
  pub no_result : t.result ≡ none
  pub no_journal : t.journal ≡ none
  pub not_queued : t.queued ≡ none

module _ (s : Storage) where
  pub Step-IsSettled : {p : Bytes} {t u : Slot} → Step s t u → IsSettled p t → IsSettled p u
  Step-IsSettled (received t j r n e) h = absurd (cc (h.kept))
  Step-IsSettled (rewritten t raw j j' n d f) h = absurd (cc (h.no_journal))
  Step-IsSettled (recorded t q r n f) h = absurd (cc (h.kept))
  Step-IsSettled (moved t r to n m) h = absurd (cc (h.not_queued))
  Step-IsSettled (receipted t r n q a) h = absurd (cc (h.kept))

  pub Reach-IsSettled : {p : Bytes} {t u : Slot} → IsSettled p t → Reach s t u → IsSettled p u
  Reach-IsSettled h here = h
  Reach-IsSettled h (next r st) = Step-IsSettled st (Reach-IsSettled h r)

  pub accept_receipt-IsSettled :
      (epoch : ℕ) (session o : Bytes) (db db' : Db s)
      → is_plain o ≡ true
      → accept_receipt s epoch session o db ≡ ok db'
      → IsSettled (outbox_row s o db).1 (slot s o db')
  unfolding accept_receipt
  accept_receipt-IsSettled epoch session o db db' op h =
      let (fresh, h1) = guard-ok {E = Error} {A = Db s} (is_stale s epoch session db) _ _ db' h in
      let (clean, h2) = guard-ok {E = Error} {A = Db s} (has_receipt s o db) _ _ db' h1 in
      let (at, h3) =
        guard-ok {E = Error} {A = Db s} (not (bytes_eq (outbox_row s o db).0 phase_semantic_acked))
          _ _ db' h2 in
      let (j, e, h4) = bind-ok {E = Error} (load_operation_journal s o db) _ db' h3 in
      let (b, e', h5) = bind-ok {E = Error} (put_row s (receipt_key o) _ db.operations) _ db' h4 in
      settled (outbox_row s o db).1 (message_of j) b
        (put_row-ok s (receipt_key o) _ db.operations b e') (ok-injective _ _ h5)
    where
      settled :
          (payload message : Bytes) (b : s.Bucket)
          → b ≡ s.set (receipt_key o) payload db.operations
          → collect s o message b db ≡ db'
          → IsSettled payload (slot s o db')
      settled payload message b e h =
          subst (λ d. IsSettled payload (slot s o d)) h
            (subst (λ x. IsSettled payload (slot s o (collect s o message x db))) (sym e)
              (subst (λ t. IsSettled payload t)
                (sym (collected_rows s o o op op payload message db))
                (rw (bytes_eq_refl o) (record {
                  kept = refl;
                  no_result = refl;
                  no_journal = refl;
                  not_queued = refl;
                }))))

-- Once the receipt of an operation is accepted, no later call in whatever order brings a row of it
-- back: its result, its journal and its outbox row stay deleted, and the receipt stays, with the
-- payload that the outbox row had. The condition is that no operation's identity, in the store or
-- in a call, begins with `op:` or `receipt:`.
pub accept_receipt-run :
    (s : Storage) (epoch : ℕ) (session o : Bytes) (es : List Event) (db db' : Db s)
    → is_plain o ≡ true
    → ArePlain es
    → IsKeyed s db'
    → accept_receipt s epoch session o db ≡ ok db'
    → IsSettled (outbox_row s o db).1 (slot s o (run s es db'))
accept_receipt-run s epoch session o es db db' op p k h =
    Reach-IsSettled s (accept_receipt-IsSettled s epoch session o db db' op h)
      (run-Reach s o es db' op p k)
