-- ===== src/Agent/Localstate/Fences.antt =====
-- internal/agent/localstate/forward_delete.go and tombstone.go: the durable fences of a deleted
-- Forward, which are the pending intent and the final tombstone. A function that ends in `_tx` runs
-- inside a transaction of its caller; `now` is the clock's reading.
pub mod Cases
pub mod Kept
mod Tests
use anti_nat_agent.Base.{
  ℕ, Bool, true, false, not, ◌&&◌, ◌||◌, Option, none, some, List, [], ◌∷◌, ◌++◌, ◌==◌,
  if◌then◌else◌, Bytes, bytes_eq, Result, ok, err, ◌>>=◌, ◌>>◌, fail_if, text,
}
use anti_nat_agent.Agent.Localstate.Storage.{
  Error, delete_conflict, delete_not_committed, not_gc_ready, bad_row, invalid_intent,
  identity_required, Storage, Db, put_row, ForwardDeleteIntent, ForwardTombstone,
}

-- A validation error, or none.
abbrev pub is_invalid : ForwardDeleteIntent → Bool
is_invalid i =
    bytes_eq i.forward_id []
    || bytes_eq i.deletion_operation_id []
    || i.desired_revision == 0
    || i.created_at_unix == 0

abbrev pub receipt_key : Bytes → Bytes
receipt_key operation = text "receipt:" ++ operation

abbrev pub same_deletion : ForwardDeleteIntent → ForwardDeleteIntent → Bool
same_deletion a b =
    bytes_eq a.deletion_operation_id b.deletion_operation_id
    && a.desired_revision == b.desired_revision

-- The tombstone's identity agrees with the intent's; revision 0 is that of an older row.
abbrev pub agrees : ForwardTombstone → ForwardDeleteIntent → Bool
agrees t i =
    bytes_eq t.deletion_operation_id i.deletion_operation_id
    && (t.desired_revision == 0 || t.desired_revision == i.desired_revision)

-- `if intent.CreatedAtUnix == 0 { intent.CreatedAtUnix = nowUnix() }`
abbrev pub stamp : ℕ → ForwardDeleteIntent → ForwardDeleteIntent
stamp now i = if i.created_at_unix == 0 then record i { created_at_unix = now } else i

abbrev contains_id : Bytes → List Bytes → Bool
contains_id x [] = false
contains_id x (y ∷ ys) = bytes_eq x y || contains_id x ys

-- The first loop of PutForwardDeleteIntents, with the identities seen so far.
unfoldable pub prepare :
    ℕ → List Bytes → List ForwardDeleteIntent → Result Error (List ForwardDeleteIntent)
prepare now seen [] = ok []
prepare now seen (i ∷ is) =
    let rest = prepare now (i.forward_id ∷ seen) is in
    do
      fail_if (is_invalid (stamp now i)) invalid_intent
      fail_if (contains_id i.forward_id seen) delete_conflict
      prepared ← rest
      ok (stamp now i ∷ prepared)

abbrev pub is_some {ℓ} : {A : Type ℓ} → Option A → Bool
is_some none = false
is_some (some a) = true

abbrev pub decoded_intent :
    Bytes → Option ForwardDeleteIntent → Result Error (Option ForwardDeleteIntent)
decoded_intent forward none = err bad_row
decoded_intent forward (some i) =
    if is_invalid i || not (bytes_eq i.forward_id forward) then err bad_row else ok (some i)

abbrev pub decoded_tombstone :
    Bytes → Option ForwardTombstone → Result Error (Option ForwardTombstone)
decoded_tombstone forward none = err bad_row
decoded_tombstone forward (some t) =
    if not (bytes_eq t.forward_id forward) || bytes_eq t.deletion_operation_id []
    then err bad_row
    else ok (some t)

abbrev pub committed : Bytes → Option ForwardTombstone → Bool
committed deletion none = false
committed deletion (some t) = bytes_eq t.deletion_operation_id deletion

module _ (s : Storage) where
  unfoldable pub load_intent : Bytes → s.Bucket → Result Error (Option ForwardDeleteIntent)
  load_intent forward b = elim (s.get forward b) [
    | none ↦ ok none
    | some raw ↦ decoded_intent forward (s.decode_intent raw)
  ]

  unfoldable pub load_tombstone : Bytes → s.Bucket → Result Error (Option ForwardTombstone)
  load_tombstone forward b = elim (s.get forward b) [
    | none ↦ ok none
    | some raw ↦ decoded_tombstone forward (s.decode_tombstone raw)
  ]

  -- The new row, where neither a pending row nor a tombstone stands.
  abbrev pub write_intent : ForwardDeleteIntent → Db s → Result Error (Db s × Bool)
  write_intent i db = do
    b ← put_row s i.forward_id (s.encode_intent i) db.intents
    ok (record db { intents = b }, true)

  abbrev pub beside_tombstone :
      ForwardDeleteIntent → Db s → Option ForwardTombstone → Result Error (Db s × Bool)
  beside_tombstone i db none = err bad_row
  beside_tombstone i db (some t) = if agrees t i then ok (db, false) else err delete_conflict

  abbrev pub beside_pending :
      ForwardDeleteIntent → Db s → Option ForwardDeleteIntent → Result Error (Db s × Bool)
  beside_pending i db (some e) = if same_deletion e i then ok (db, false) else err delete_conflict
  beside_pending i db none = elim (s.get i.forward_id db.tombstones) [
    | some raw ↦ beside_tombstone i db (s.decode_tombstone raw)
    | none ↦ write_intent i db
  ]

  unfoldable pub put_intent_tx : ForwardDeleteIntent → Db s → Result Error (Db s × Bool)
  put_intent_tx i db = do
    fail_if (is_invalid i) invalid_intent
    pending ← load_intent i.forward_id db.intents
    beside_pending i db pending

  unfoldable pub put_forward_delete_intent :
      ℕ → ForwardDeleteIntent → Db s → Result Error (Db s × Bool)
  put_forward_delete_intent now i db = put_intent_tx (stamp now i) db

  unfoldable pub put_all_tx : List ForwardDeleteIntent → Db s → Result Error (Db s)
  put_all_tx [] db = ok db
  put_all_tx (i ∷ is) db = do (db', _) ← put_intent_tx i db; put_all_tx is db'

  unfoldable pub put_forward_delete_intents :
      ℕ → List ForwardDeleteIntent → Db s → Result Error (Db s)
  put_forward_delete_intents now is db = do prepared ← prepare now [] is; put_all_tx prepared db

  unfoldable pub get_forward_delete_intent :
      Bytes → Db s → Result Error (Option ForwardDeleteIntent)
  get_forward_delete_intent forward db = do
    fail_if (bytes_eq forward []) identity_required
    load_intent forward db.intents

  unfoldable pub get_forward_tombstone : Bytes → Db s → Result Error (Option ForwardTombstone)
  get_forward_tombstone forward db = do
    fail_if (bytes_eq forward []) identity_required
    load_tombstone forward db.tombstones

  unfoldable pub forward_delete_fence :
      Bytes → Db s → Result Error (Option ForwardDeleteIntent × Option ForwardTombstone)
  forward_delete_fence forward db = do
    fail_if (bytes_eq forward []) identity_required
    pending ← load_intent forward db.intents
    tombstone ← load_tombstone forward db.tombstones
    ok (pending, tombstone)

  abbrev pub complete_pending :
      Bytes → Bytes → Db s → Option ForwardDeleteIntent → Result Error (Db s)
  complete_pending forward deletion db none = ok db
  complete_pending forward deletion db (some i) = do
    fail_if (not (bytes_eq i.deletion_operation_id deletion)) delete_conflict
    tombstone ← load_tombstone forward db.tombstones
    fail_if (not (committed deletion tombstone)) delete_not_committed
    ok (record db { intents = s.unset forward db.intents })

  unfoldable pub complete_forward_delete_intent : Bytes → Bytes → Db s → Result Error (Db s)
  complete_forward_delete_intent forward deletion db = do
    fail_if (bytes_eq forward [] || bytes_eq deletion []) identity_required
    pending ← load_intent forward db.intents
    complete_pending forward deletion db pending

  abbrev pub gc_found : Bytes → Db s → Option ForwardTombstone → Result Error (Db s)
  gc_found forward db none = ok db
  gc_found forward db (some t) = do
    pending ← load_intent forward db.intents
    fail_if (is_some pending) not_gc_ready
    fail_if (not (is_some (s.get (receipt_key t.deletion_operation_id) db.operations))) not_gc_ready
    ok (record db { tombstones = s.unset forward db.tombstones })

  unfoldable pub gc_forward_tombstone : Bytes → Db s → Result Error (Db s)
  gc_forward_tombstone forward db = do
    tombstone ← load_tombstone forward db.tombstones
    gc_found forward db tombstone
