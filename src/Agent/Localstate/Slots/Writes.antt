-- ===== src/Agent/Localstate/Slots/Writes.antt =====
-- What a write of one row changes in the rows of an operation.
use anti_nat_agent.Base.{
  ◌≡◌, refl, ap, ◌∙◌, Bool, true, false, not, ◌&&◌, none, some, [], ◌∷◌, ◌++◌, arith, if◌then◌else◌,
  Bytes, bytes_eq, text, has_prefix,
}
use anti_nat_agent.Agent.Localstate.Storage.{Storage, Db}
use anti_nat_agent.Agent.Localstate.Fences.{receipt_key}
use anti_nat_agent.Agent.Localstate.Command.{op_journal_key}
use anti_nat_agent.Agent.Localstate.Slots.{is_plain, slot}

prefix_ne : (p a b : Bytes) → has_prefix p b ≡ false → bytes_eq (p ++ a) b ≡ false
prefix_ne [] a b h = cc
prefix_ne (x ∷ p) a [] h = refl
prefix_ne (x ∷ p) a (y ∷ b) h = ground (arith, prefix_ne p a b)

ne_prefix : (p a b : Bytes) → has_prefix p b ≡ false → bytes_eq b (p ++ a) ≡ false
ne_prefix [] a b h = cc
ne_prefix (x ∷ p) a [] h = refl
ne_prefix (x ∷ p) a (y ∷ b) h = ground (arith, ne_prefix p a b)

no_prefixes :
    (o : Bytes)
    → is_plain o ≡ true
    → (has_prefix (text "op:") o ≡ false) × (has_prefix (text "receipt:") o ≡ false)
no_prefixes o h = split (has_prefix (text "op:") o) (has_prefix (text "receipt:") o) h
  where
    split : (a b : Bool) → not a && not b ≡ true → (a ≡ false) × (b ≡ false)
    split a b h = ground arith

module _ (o : Bytes) (plain : is_plain o ≡ true) where
  pub not_journal_key : (a : Bytes) → bytes_eq o (op_journal_key a) ≡ false
  not_journal_key a = ne_prefix (text "op:") a o (no_prefixes o plain).0

  pub journal_key_not : (a : Bytes) → bytes_eq (op_journal_key a) o ≡ false
  journal_key_not a = prefix_ne (text "op:") a o (no_prefixes o plain).0

  pub not_receipt_key : (a : Bytes) → bytes_eq o (receipt_key a) ≡ false
  not_receipt_key a = ne_prefix (text "receipt:") a o (no_prefixes o plain).1

  pub receipt_key_not : (a : Bytes) → bytes_eq (receipt_key a) o ≡ false
  receipt_key_not a = prefix_ne (text "receipt:") a o (no_prefixes o plain).1

-- No journal stands under an identity with a reserved prefix.
abbrev pub IsKeyed : (s : Storage) → Db s → Type 0
IsKeyed s db = (id : Bytes) → is_plain id ≡ false → s.get (op_journal_key id) db.operations ≡ none

module _ (s : Storage) (o k v : Bytes) (db : Db s) (plain : is_plain o ≡ true) where
  pub slot-set_journal :
      slot s o (record db { operations = s.set (op_journal_key k) v db.operations })
      ≡ record (slot s o db) { journal = if bytes_eq o k then some v else (slot s o db).journal }
  unfolding slot
  slot-set_journal = cc (
    s.get-set (receipt_key o) (op_journal_key k) v db.operations,
    s.get-set o (op_journal_key k) v db.operations
        ∙ ap (λ (b : Bool). if b then some v else s.get o db.operations)
            (not_journal_key o plain k),
    s.get-set (op_journal_key o) (op_journal_key k) v db.operations,
  )

  pub slot-set_queued :
      slot s o (record db { outbox = s.set k v db.outbox })
      ≡ record (slot s o db) { queued = if bytes_eq o k then some v else (slot s o db).queued }
  unfolding slot
  slot-set_queued = cc (s.get-set o k v db.outbox)

  pub slot-set_receipt :
      slot s o (record db { operations = s.set (receipt_key k) v db.operations })
      ≡ record (slot s o db) { receipt = if bytes_eq o k then some v else (slot s o db).receipt }
  unfolding slot
  slot-set_receipt = cc (
    s.get-set (receipt_key o) (receipt_key k) v db.operations,
    s.get-set o (receipt_key k) v db.operations
        ∙ ap (λ (b : Bool). if b then some v else s.get o db.operations)
            (not_receipt_key o plain k),
    s.get-set (op_journal_key o) (receipt_key k) v db.operations,
  )

  pub slot-set_result :
      is_plain k ≡ true
      → slot s o (record db { operations = s.set k v db.operations })
        ≡ record (slot s o db) { result = if bytes_eq o k then some v else (slot s o db).result }
  unfolding slot
  slot-set_result kp = cc (
    s.get-set (receipt_key o) k v db.operations
        ∙ ap (λ (b : Bool). if b then some v else s.get (receipt_key o) db.operations)
            (receipt_key_not k kp o),
    s.get-set o k v db.operations,
    s.get-set (op_journal_key o) k v db.operations
        ∙ ap (λ (b : Bool). if b then some v else s.get (op_journal_key o) db.operations)
            (journal_key_not k kp o),
  )
