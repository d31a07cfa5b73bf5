-- ===== src/Agent/Localstate/Fences/Cases.antt =====
-- What a call that succeeds has done to the fence of a Forward: internal/agent/localstate/forward_delete.go and
-- tombstone.go.
use anti_nat_agent.Base.{
  ◌≡◌, sym, Bool, true, false, not, ◌||◌, Option, none, some, [], arith, ◌⊎◌, inl, inr, Bytes,
  bytes_eq, bytes_eq→eq, Option-cases, ok, bind-ok, guard-ok, ok-injective,
}
use anti_nat_agent.Agent.Localstate.Storage.{
  Error, Storage, Db, put_row, ForwardDeleteIntent, ForwardTombstone,
}
use anti_nat_agent.Agent.Localstate.Fences.{
  receipt_key, is_some, is_invalid, load_intent, load_tombstone, decoded_intent, put_intent_tx,
  beside_pending, beside_tombstone, complete_pending, committed, complete_forward_delete_intent,
  gc_found, gc_forward_tombstone,
}

module _ (s : Storage) where
  -- The Forward `f` is fenced by the deletion `d`: its pending intent or its tombstone names it.
  pub data IsFencedBy (d f : Bytes) (db : Db s) : Type 0 where
    pending :
        (i : ForwardDeleteIntent)
        → load_intent s f db.intents ≡ ok (some i)
        → i.deletion_operation_id ≡ d
        → IsFencedBy d f db
    buried :
        (t : ForwardTombstone)
        → load_tombstone s f db.tombstones ≡ ok (some t)
        → t.deletion_operation_id ≡ d
        → IsFencedBy d f db

  pub load_intent-none : (f : Bytes) (b : s.Bucket) → load_intent s f b ≡ ok none → s.get f b ≡ none
  unfolding load_intent
  load_intent-none f b h = elim (Option-cases (s.get f b)) [
    | inl e ↦ e
    | inr (raw, e) ↦ absurd (decoded (s.decode_intent raw) (ground arith))
  ]
    where
      decoded : (o : Option ForwardDeleteIntent) → decoded_intent f o ≡ ok none → ⊥
      decoded none h = cc
      decoded (some i) h = ground arith

  pub load_intent-same :
      (f : Bytes) (b b' : s.Bucket)
      → s.get f b' ≡ s.get f b
      → load_intent s f b' ≡ load_intent s f b
  unfolding load_intent
  load_intent-same f b b' h = ground arith

  pub load_tombstone-same :
      (f : Bytes) (b b' : s.Bucket)
      → s.get f b' ≡ s.get f b
      → load_tombstone s f b' ≡ load_tombstone s f b
  unfolding load_tombstone
  load_tombstone-same f b b' h = ground arith

  pub load_tombstone-gone :
      (f : Bytes) (b : s.Bucket) (t : ForwardTombstone)
      → s.get f b ≡ none
      → load_tombstone s f b ≡ ok (some t)
      → ⊥
  unfolding load_tombstone
  load_tombstone-gone f b t gone h = ground arith

  -- A put leaves the store as it was, or writes a row where the Forward has neither fact.
  pub put_intent-cases :
      (i : ForwardDeleteIntent) (db db' : Db s) (b : Bool)
      → put_intent_tx s i db ≡ ok (db', b)
      → (db' ≡ db)
        ⊎ ((load_intent s i.forward_id db.intents ≡ ok none)
            × (s.get i.forward_id db.tombstones ≡ none)
            × (db' ≡ record db { intents = s.set i.forward_id (s.encode_intent i) db.intents }))
  unfolding put_intent_tx put_row
  put_intent-cases i db db' b h =
      let (valid, h1) = guard-ok {E = Error} {A = Db s × Bool} (is_invalid i) _ _ _ h in
      let (found, e, h2) = bind-ok {E = Error} (load_intent s i.forward_id db.intents) _ _ h1 in
      beside found e h2
    where
      beside :
          (found : Option ForwardDeleteIntent)
          → load_intent s i.forward_id db.intents ≡ ok found
          → beside_pending s i db found ≡ ok (db', b)
          → (db' ≡ db)
            ⊎ ((load_intent s i.forward_id db.intents ≡ ok none)
                × (s.get i.forward_id db.tombstones ≡ none)
                × (db' ≡ record db { intents = s.set i.forward_id (s.encode_intent i) db.intents }))
      beside (some e) l h = inl (ground arith)
      beside none l h = elim (Option-cases (s.get i.forward_id db.tombstones)) [
        | inl gone ↦ inr (l, gone, ground arith)
        | inr (raw, there) ↦ inl (tomb (s.decode_tombstone raw) (ground arith))
      ]
        where
          tomb : (o : Option ForwardTombstone) → beside_tombstone s i db o ≡ ok (db', b) → db' ≡ db
          tomb none h = cc
          tomb (some t) h = ground arith

  pub complete-cases :
      (f deletion : Bytes) (db db' : Db s)
      → complete_forward_delete_intent s f deletion db ≡ ok db'
      → (db' ≡ db)
        ⊎ ((i : ForwardDeleteIntent) × (t : ForwardTombstone) × (load_intent s f db.intents
              ≡ ok (some i))
            × (i.deletion_operation_id ≡ deletion)
            × (load_tombstone s f db.tombstones ≡ ok (some t))
            × (t.deletion_operation_id ≡ deletion)
            × (db' ≡ record db { intents = s.unset f db.intents }))
  unfolding complete_forward_delete_intent
  complete-cases f deletion db db' h =
      let (named, h1) =
        guard-ok {E = Error} {A = Db s} (bytes_eq f [] || bytes_eq deletion []) _ _ db' h in
      let (found, e, h2) = bind-ok {E = Error} (load_intent s f db.intents) _ db' h1 in
      cases found e h2
    where
      cases :
          (found : Option ForwardDeleteIntent)
          → load_intent s f db.intents ≡ ok found
          → complete_pending s f deletion db found ≡ ok db'
          → (db' ≡ db)
            ⊎ ((i : ForwardDeleteIntent) × (t : ForwardTombstone) × (load_intent s f db.intents
                  ≡ ok (some i))
                × (i.deletion_operation_id ≡ deletion)
                × (load_tombstone s f db.tombstones ≡ ok (some t))
                × (t.deletion_operation_id ≡ deletion)
                × (db' ≡ record db { intents = s.unset f db.intents }))
      cases none l h = inl (ground arith)
      cases (some i) l h =
          let (named, h1) =
            guard-ok {E = Error} {A = Db s} (not (bytes_eq i.deletion_operation_id deletion)) _ _
              db' h in
          let (found, e, h2) = bind-ok {E = Error} (load_tombstone s f db.tombstones) _ db' h1 in
          let (there, h3) =
            guard-ok {E = Error} {A = Db s} (not (committed deletion found)) _ _ db' h2 in
          let same : bytes_eq i.deletion_operation_id deletion ≡ true = ground arith in
          final i l (bytes_eq→eq i.deletion_operation_id deletion same) found e (ground arith)
            (ok-injective _ _ h3)
        where
          final :
              (i : ForwardDeleteIntent)
              → load_intent s f db.intents ≡ ok (some i)
              → i.deletion_operation_id ≡ deletion
              → (found : Option ForwardTombstone) → load_tombstone s f db.tombstones ≡ ok found
              → committed deletion found ≡ true
              → record db { intents = s.unset f db.intents } ≡ db'
              → (db' ≡ db)
                ⊎ ((i : ForwardDeleteIntent) × (t : ForwardTombstone) × (load_intent s f db.intents
                      ≡ ok (some i))
                    × (i.deletion_operation_id ≡ deletion)
                    × (load_tombstone s f db.tombstones ≡ ok (some t))
                    × (t.deletion_operation_id ≡ deletion)
                    × (db' ≡ record db { intents = s.unset f db.intents }))
          final i l e none m c h = absurd (cc)
          final i l e (some t) m c h =
              inr (i, t, l, e, m, bytes_eq→eq t.deletion_operation_id deletion c, sym h)

  pub gc-cases :
      (g : Bytes) (db db' : Db s)
      → gc_forward_tombstone s g db ≡ ok db'
      → (db' ≡ db)
        ⊎ ((t : ForwardTombstone) × (load_tombstone s g db.tombstones ≡ ok (some t))
            × (load_intent s g db.intents ≡ ok none)
            × (is_some (s.get (receipt_key t.deletion_operation_id) db.operations) ≡ true)
            × (db' ≡ record db { tombstones = s.unset g db.tombstones }))
  unfolding gc_forward_tombstone
  gc-cases g db db' h =
      let (found, e, h1) = bind-ok {E = Error} (load_tombstone s g db.tombstones) _ db' h in
      cases found e h1
    where
      ready :
          (t : ForwardTombstone)
          → load_tombstone s g db.tombstones ≡ ok (some t)
          → (found : Option ForwardDeleteIntent) → load_intent s g db.intents ≡ ok found
          → is_some found ≡ false
          → is_some (s.get (receipt_key t.deletion_operation_id) db.operations) ≡ true
          → record db { tombstones = s.unset g db.tombstones } ≡ db'
          → (db' ≡ db)
            ⊎ ((t : ForwardTombstone) × (load_tombstone s g db.tombstones ≡ ok (some t))
                × (load_intent s g db.intents ≡ ok none)
                × (is_some (s.get (receipt_key t.deletion_operation_id) db.operations) ≡ true)
                × (db' ≡ record db { tombstones = s.unset g db.tombstones }))
      ready t m (some i) l p r h = absurd (cc)
      ready t m none l p r h = inr (t, m, l, r, sym h)

      cases :
          (found : Option ForwardTombstone)
          → load_tombstone s g db.tombstones ≡ ok found
          → gc_found s g db found ≡ ok db'
          → (db' ≡ db)
            ⊎ ((t : ForwardTombstone) × (load_tombstone s g db.tombstones ≡ ok (some t))
                × (load_intent s g db.intents ≡ ok none)
                × (is_some (s.get (receipt_key t.deletion_operation_id) db.operations) ≡ true)
                × (db' ≡ record db { tombstones = s.unset g db.tombstones }))
      cases none l h = inl (ground arith)
      cases (some t) l h =
          let (found, e, h1) = bind-ok {E = Error} (load_intent s g db.intents) _ db' h in
          let (alone, h2) = guard-ok {E = Error} {A = Db s} (is_some found) _ _ db' h1 in
          let (there, h3) =
            guard-ok {E = Error} {A = Db s}
              (not (is_some (s.get (receipt_key t.deletion_operation_id) db.operations))) _ _ db'
              h2 in
          ready t l found e alone (flip _ there) (ok-injective _ _ h3)
        where
          flip : (b : Bool) → not b ≡ false → b ≡ true
          flip b h = ground arith
