-- ===== src/Agent/Localstate/Slots/Requeued.antt =====
-- A new session's reset of the outbox, as moves of every operation's rows.
use anti_nat_agent.Base.{
  ℕ, ◌≡◌, refl, sym, subst, ◌∙◌, Bool, true, false, ◌||◌, none, some, [], ◌∷◌, arith, if◌then◌else◌,
  Bytes, bytes_eq, bytes_eq→eq, bytes_eq_refl, Bool-cases, inl, inr, ok, bind-ok, guard-ok, Map,
  find, HasUniqueKeys,
}
use anti_nat_agent.Protocol.Transitions.{outbox}
use anti_nat_agent.Agent.Localstate.Storage.{Error, Storage, Db, put_row}
use anti_nat_agent.Agent.Localstate.Journal.{is_stale}
use anti_nat_agent.Agent.Localstate.Outbox.{
  split_outbox_value, row, phase_pending, requeue_row, requeue_rows, requeue_outbox_for_session,
}
use anti_nat_agent.Agent.Localstate.Slots.{is_plain, slot, moved, moves, has_edge}
use anti_nat_agent.Agent.Localstate.Slots.Keeps.{Keeps, Keeps-refl, Keeps-trans, queued-Keeps}

module _ (s : Storage) where
  -- The rows still to visit stand in the outbox.
  abbrev pub Stand : Map Bytes → Db s → Type 0
  Stand rest db = (k v : Bytes) → find k rest ≡ some v → s.get k db.outbox ≡ some v

  -- One visit's write.
  pub visited : Bytes → Bytes → Db s → Db s
  visited k value db =
      if bytes_eq (split_outbox_value value).0 phase_pending
      then db
      else record db { outbox = s.set k (row phase_pending (split_outbox_value value).1) db.outbox }

  pub requeue_row-ok :
      (k value : Bytes) (db db' : Db s) (n : ℕ)
      → requeue_row s k value db ≡ ok (db', n)
      → db' ≡ visited k value db
  unfolding visited put_row
  requeue_row-ok k value db db' n h = ground arith

  pub get-visited_other :
      (j k value : Bytes) (db : Db s)
      → bytes_eq j k ≡ false
      → s.get j (visited k value db).outbox ≡ s.get j db.outbox
  unfolding visited
  get-visited_other j k value db apart =
      ground (arith, s.get-set j k (row phase_pending (split_outbox_value value).1) db.outbox)

  visited-Stand :
      (k value : Bytes) (rest : Map Bytes) (db : Db s)
      → find k rest ≡ none
      → Stand ((k, value) ∷ rest) db
      → Stand rest (visited k value db)
  visited-Stand k value rest db absent stand j v h = elim (Bool-cases (bytes_eq j k)) [
    | inl same ↦ absurd (cc (bytes_eq→eq j k same))
    | inr apart ↦ get-visited_other j k value db apart ∙ stand j v (rw apart h)
  ]

  visited-Keeps :
      (o k value : Bytes) (db : Db s)
      → is_plain o ≡ true
      → s.get k db.outbox ≡ some value
      → Keeps s o db (visited k value db)
  unfolding visited slot
  visited-Keeps o k value db op there =
      elim (Bool-cases (bytes_eq (split_outbox_value value).0 phase_pending)) [
        | inl pending ↦ rw pending (Keeps-refl s o db)
        | inr other ↦ rw other (
            queued-Keeps s o k (row phase_pending (split_outbox_value value).1) db op (λ e.
              moved (slot s o db) value phase_pending (cc)
                (any_to_pending (split_outbox_value value).0)))
      ]
    where
      or_true : (b : Bool) → b || true ≡ true
      or_true b = ground arith

      any_to_pending : (from : Bytes) → moves from phase_pending ≡ true
      any_to_pending from = or_true (has_edge outbox.transitions from phase_pending)

  pub requeue_rows-Keeps :
      (o : Bytes) (rest : Map Bytes) (n m : ℕ) (db db' : Db s)
      → is_plain o ≡ true
      → HasUniqueKeys rest
      → Stand rest db
      → requeue_rows s rest n db ≡ ok (db', m)
      → Keeps s o db db'
  unfolding requeue_rows
  requeue_rows-Keeps o [] n m db db' op unique stand h =
      subst (λ d. Keeps s o db d) (ground arith) (Keeps-refl s o db)
  requeue_rows-Keeps o ((k, value) ∷ rest) n m db db' op unique stand h =
      let ((d, i), e, h') = bind-ok {E = Error} (requeue_row s k value db) _ (db', m) h in
      let at = requeue_row-ok k value db d i e in
      Keeps-trans s o db d db'
        (subst (λ x. Keeps s o db x) (sym at)
          (visited-Keeps o k value db op (stand k value (rw (bytes_eq_refl k) refl))))
        (requeue_rows-Keeps o rest _ m d db' op unique.1
          (subst (λ x. Stand rest x) (sym at) (visited-Stand k value rest db unique.0 stand)) h')

  pub requeue_outbox_for_session-Keeps :
      (o : Bytes) (epoch : ℕ) (session : Bytes) (m : ℕ) (db db' : Db s)
      → is_plain o ≡ true
      → requeue_outbox_for_session s epoch session db ≡ ok (db', m)
      → Keeps s o db db'
  unfolding requeue_outbox_for_session
  requeue_outbox_for_session-Keeps o epoch session m db db' op h =
      let (fresh, h1) = guard-ok {E = Error} {A = Db s × ℕ} (is_stale s epoch session db) _ _ _ h in
      requeue_rows-Keeps o (s.rows db.outbox) 0 m db db' op (s.rows-HasUniqueKeys db.outbox)
        (λ k v f. sym (s.find-rows k db.outbox) ∙ f) h1
