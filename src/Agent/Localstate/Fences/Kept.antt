-- ===== src/Agent/Localstate/Fences/Kept.antt =====
-- The fence of a deleted Forward, through the calls of internal/agent/localstate/forward_delete.go
-- and tombstone.go.
use anti_nat_agent.Base.{
  ℕ, ◌≡◌, refl, sym, ap, subst, ◌∙◌, Bool, true, none, some, List, [], ◌∷◌, arith, inl, inr,
  if◌then◌else◌, Bytes, bytes_eq, bytes_eq→eq, Bool-cases, Result, ok, err, panic, ◌>>=◌, bind-ok,
  ok-injective,
}
use anti_nat_agent.Agent.Localstate.Storage.{
  Error, Storage, Db, commit, ForwardDeleteIntent, ForwardTombstone,
}
use anti_nat_agent.Agent.Localstate.Fences.{
  receipt_key, is_some, load_intent, load_tombstone, put_intent_tx, put_all_tx, prepare, stamp,
  put_forward_delete_intent, put_forward_delete_intents, complete_forward_delete_intent,
  gc_forward_tombstone,
}
use anti_nat_agent.Agent.Localstate.Fences.Cases.{
  IsFencedBy, pending, buried, load_intent-same, load_tombstone-same, put_intent-cases,
  complete-cases, gc-cases,
}

module _ (s : Storage) where
  put_intent-IsFencedBy :
      (d f : Bytes) (i : ForwardDeleteIntent) (db db' : Db s) (b : Bool)
      → put_intent_tx s i db ≡ ok (db', b)
      → IsFencedBy s d f db
      → IsFencedBy s d f db'
  put_intent-IsFencedBy d f i db db' b h fenced = elim (put_intent-cases s i db db' b h) [
    | inl same ↦ subst (λ x. IsFencedBy s d f x) (sym same) fenced
    | inr (absent, gone, e) ↦ subst (λ x. IsFencedBy s d f x) (sym e) (kept absent gone fenced)
  ]
    where
      kept :
          load_intent s i.forward_id db.intents ≡ ok none
          → s.get i.forward_id db.tombstones ≡ none
          → IsFencedBy s d f db
          → IsFencedBy s d f
              (record db { intents = s.set i.forward_id (s.encode_intent i) db.intents })
      kept absent gone (buried t l e) = buried t l e
      kept absent gone (pending j l e) = elim (Bool-cases (bytes_eq f i.forward_id)) [
        | inl same ↦ absurd (
            two (
              subst (λ x. load_intent s x db.intents ≡ ok none)
                (sym (bytes_eq→eq f i.forward_id same)) absent))
        | inr other ↦
            pending j
              (load_intent-same s f db.intents (s.set i.forward_id (s.encode_intent i) db.intents) (
                  s.get-set f i.forward_id (s.encode_intent i) db.intents
                  ∙ ap (λ (c : Bool). if c then some (s.encode_intent i) else s.get f db.intents)
                      other)
                ∙ l)
              e
      ]
        where
          two : load_intent s f db.intents ≡ ok none → ⊥
          two h = cc

  put_all-IsFencedBy :
      (d f : Bytes) (is : List ForwardDeleteIntent) (db db' : Db s)
      → put_all_tx s is db ≡ ok db'
      → IsFencedBy s d f db
      → IsFencedBy s d f db'
  unfolding put_all_tx
  put_all-IsFencedBy d f [] db db' h fenced = subst (λ x. IsFencedBy s d f x) (ground arith) fenced
  put_all-IsFencedBy d f (i ∷ is) db db' h fenced =
      let ((m, b), e, h1) = bind-ok {E = Error} (put_intent_tx s i db) _ db' h in
      put_all-IsFencedBy d f is m db' h1 (put_intent-IsFencedBy d f i db m b e fenced)

  complete-IsFencedBy :
      (d f g deletion : Bytes) (db db' : Db s)
      → complete_forward_delete_intent s g deletion db ≡ ok db'
      → IsFencedBy s d f db
      → IsFencedBy s d f db'
  complete-IsFencedBy d f g deletion db db' h fenced = elim (complete-cases s g deletion db db' h) [
    | inl same ↦ subst (λ x. IsFencedBy s d f x) (sym same) fenced
    | inr (i, t, l, named, m, dead, e) ↦
        subst (λ x. IsFencedBy s d f x) (sym e) (kept i t l named m dead fenced)
  ]
    where
      kept :
          (i : ForwardDeleteIntent) (t : ForwardTombstone)
          → load_intent s g db.intents ≡ ok (some i)
          → i.deletion_operation_id ≡ deletion
          → load_tombstone s g db.tombstones ≡ ok (some t)
          → t.deletion_operation_id ≡ deletion
          → IsFencedBy s d f db
          → IsFencedBy s d f (record db { intents = s.unset g db.intents })
      kept i t l named m dead (buried u k e) = buried u k e
      kept i t l named m dead (pending j k e) = elim (Bool-cases (bytes_eq f g)) [
        | inl same ↦
            let at : f ≡ g = bytes_eq→eq f g same in
            let one : load_intent s g db.intents ≡ ok (some j) =
              subst (λ x. load_intent s x db.intents ≡ ok (some j)) at k in
            buried t (subst (λ x. load_tombstone s x db.tombstones ≡ ok (some t)) (sym at) m) (cc)
        | inr other ↦
            pending j
              (load_intent-same s f db.intents (s.unset g db.intents) (
                  s.get-unset f g db.intents
                  ∙ ap (λ (c : Bool). if c then none else s.get f db.intents) other)
                ∙ k)
              e
      ]

  gc-IsFencedBy :
      (d f g : Bytes) (db db' : Db s)
      → s.get (receipt_key d) db.operations ≡ none
      → gc_forward_tombstone s g db ≡ ok db'
      → IsFencedBy s d f db
      → IsFencedBy s d f db'
  gc-IsFencedBy d f g db db' unreceipted h fenced = elim (gc-cases s g db db' h) [
    | inl same ↦ subst (λ x. IsFencedBy s d f x) (sym same) fenced
    | inr (t, m, l, r, e) ↦ subst (λ x. IsFencedBy s d f x) (sym e) (kept t m l r fenced)
  ]
    where
      kept :
          (t : ForwardTombstone)
          → load_tombstone s g db.tombstones ≡ ok (some t)
          → load_intent s g db.intents ≡ ok none
          → is_some (s.get (receipt_key t.deletion_operation_id) db.operations) ≡ true
          → IsFencedBy s d f db
          → IsFencedBy s d f (record db { tombstones = s.unset g db.tombstones })
      kept t m l r (pending j k e) = pending j k e
      kept t m l r (buried u k e) = elim (Bool-cases (bytes_eq f g)) [
        | inl same ↦
            let at : f ≡ g = bytes_eq→eq f g same in
            let one : load_tombstone s g db.tombstones ≡ ok (some u) =
              subst (λ x. load_tombstone s x db.tombstones ≡ ok (some u)) at k in
            let whose : t.deletion_operation_id ≡ d = cc in
            let gone : is_some (s.get (receipt_key d) db.operations) ≡ true =
              subst (λ x. is_some (s.get (receipt_key x) db.operations) ≡ true) whose r in
            absurd (cc)
        | inr other ↦
            buried u
              (load_tombstone-same s f db.tombstones (s.unset g db.tombstones) (
                  s.get-unset f g db.tombstones
                  ∙ ap (λ (c : Bool). if c then none else s.get f db.tombstones) other)
                ∙ k)
              e
      ]

  put_one :
      (i : ForwardDeleteIntent) (db db' : Db s) (b : Bool)
      → put_intent_tx s i db ≡ ok (db', b)
      → db'.operations ≡ db.operations
  put_one i db db' b h = elim (put_intent-cases s i db db' b h) [
    | inl same ↦ cc
    | inr (absent, gone, e) ↦ cc
  ]

  same_operations-put_all :
      (is : List ForwardDeleteIntent) (db db' : Db s)
      → put_all_tx s is db ≡ ok db'
      → db'.operations ≡ db.operations
  unfolding put_all_tx
  same_operations-put_all [] db db' h = ground arith
  same_operations-put_all (i ∷ is) db db' h =
      let ((m, b), e, h1) = bind-ok {E = Error} (put_intent_tx s i db) _ db' h in
      same_operations-put_all is m db' h1 ∙ put_one i db m b e

-- The calls that change a fence, each one transaction.
pub data Call : Type 0 where
  put : (now : ℕ) (intent : ForwardDeleteIntent) → Call
  put_many : (now : ℕ) (intents : List ForwardDeleteIntent) → Call
  complete : (forward deletion : Bytes) → Call
  collect : (forward : Bytes) → Call

module _ (s : Storage) where
  abbrev pub apply : Call → Db s → Result Error (Db s)
  apply (put now i) db = do (db', b) ← put_forward_delete_intent s now i db; ok db'
  apply (put_many now is) db = put_forward_delete_intents s now is db
  apply (complete f deletion) db = complete_forward_delete_intent s f deletion db
  apply (collect f) db = gc_forward_tombstone s f db

  abbrev pub run : List Call → Db s → Db s
  run [] db = db
  run (c ∷ cs) db = run cs (commit s db (apply c db))

  -- One call keeps the fence, and the bucket of the receipts.
  apply_kept :
      (d f : Bytes) (c : Call) (db db' : Db s)
      → s.get (receipt_key d) db.operations ≡ none
      → IsFencedBy s d f db
      → apply c db ≡ ok db'
      → IsFencedBy s d f db' × (db'.operations ≡ db.operations)
  unfolding put_forward_delete_intent put_forward_delete_intents
  apply_kept d f (put now i) db db' unreceipted fenced h =
      let ((m, b), e, h1) = bind-ok {E = Error} (put_intent_tx s (stamp now i) db) _ db' h in
      let same : m ≡ db' = ok-injective _ _ h1 in
      (
        subst (λ x. IsFencedBy s d f x) same
            (put_intent-IsFencedBy s d f (stamp now i) db m b e fenced),
        subst (λ (x : Db s). x.operations ≡ db.operations) same (put_one s (stamp now i) db m b e),
      )
  apply_kept d f (put_many now is) db db' unreceipted fenced h =
      let (prepared, e, h1) = bind-ok {E = Error} (prepare now [] is) _ db' h in
      (
        put_all-IsFencedBy s d f prepared db db' h1 fenced,
        same_operations-put_all s prepared db db' h1,
      )
  apply_kept d f (complete g deletion) db db' unreceipted fenced h = (
    complete-IsFencedBy s d f g deletion db db' h fenced,
    elim (complete-cases s g deletion db db' h) [
      | inl same ↦ cc
      | inr (i, t, l, named, m, dead, e) ↦ cc
    ],
  )
  apply_kept d f (collect g) db db' unreceipted fenced h = (
    gc-IsFencedBy s d f g db db' unreceipted h fenced,
    elim (gc-cases s g db db' h) [ inl same ↦ cc | inr (t, m, l, r, e) ↦ cc ],
  )

  commit_kept :
      (d f : Bytes) (db : Db s) (r : Result Error (Db s))
      → s.get (receipt_key d) db.operations ≡ none
      → IsFencedBy s d f db
      → ((db' : Db s) → r ≡ ok db' → IsFencedBy s d f db' × (db'.operations ≡ db.operations))
      → IsFencedBy s d f (commit s db r) × (s.get (receipt_key d) (commit s db r).operations ≡ none)
  commit_kept d f db (ok db') none_yet fenced h =
      let (kept, same) = h db' refl in (kept, ap (λ b. s.get (receipt_key d) b) same ∙ none_yet)
  commit_kept d f db (err e) none_yet fenced h = (fenced, none_yet)
  commit_kept d f db panic none_yet fenced h = (fenced, none_yet)

-- Until the Controller's receipt for the deletion is durable, a Forward that the deletion fences
-- stays fenced by that same deletion, whatever intents are put, completed or collected in whatever
-- order, and with whatever errors: no call opens the fence or gives it another deletion.
pub run-IsFencedBy :
    (s : Storage) (d f : Bytes) (cs : List Call) (db : Db s)
    → s.get (receipt_key d) db.operations ≡ none
    → IsFencedBy s d f db
    → IsFencedBy s d f (run s cs db)
run-IsFencedBy s d f [] db unreceipted fenced = fenced
run-IsFencedBy s d f (c ∷ cs) db unreceipted fenced =
    let (kept, still) =
      commit_kept s d f db (apply s c db) unreceipted fenced
        (λ db' h. apply_kept s d f c db db' unreceipted fenced h) in
    run-IsFencedBy s d f cs (commit s db (apply s c db)) still kept
