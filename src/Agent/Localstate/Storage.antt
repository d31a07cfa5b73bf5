-- ===== src/Agent/Localstate/Storage.antt =====
-- internal/agent/localstate: the rows of the Agent's durable store, and what the store takes from
-- go.etcd.io/bbolt and from encoding/json. A Go string is its bytes. The strings of a row are valid
-- UTF-8, as those of a decoded control frame are, so that JSON gives them back.
use anti_nat_agent.Base.{
  ℕ, ◌≡◌, Bool, Option, none, some, List, if◌then◌else◌, Bytes, bytes_eq, Result, Map, find,
  HasUniqueKeys, ok, err,
}

pub data Error : Type 0 where
  stale_session message_conflict illegal_phase stale_writer : Error
  already_receipted operation_conflict operation_not_found : Error
  delete_conflict delete_not_committed not_gc_ready : Error
  -- A row that does not decode, or that its own check refuses.
  bad_row invalid_intent identity_required : Error
  -- An error of bolt's Put.
  put_refused : Error

pub record InboxEntry : Type 0 where
  pub message_type : Bytes
  pub payload_hash : Bytes
  pub operation_id : Bytes

pub record ForwardDeletionLink : Type 0 where
  pub forward_id : Bytes
  pub deletion_operation_id : Bytes
  pub desired_revision : ℕ

pub record OperationJournal : Type 0 where
  pub kind : Bytes
  pub message_id : Bytes
  pub phase : Bytes
  pub reason : Bytes
  pub payload : Bytes
  pub payload_present : Bool
  pub recovered_deletion_pending : Bool
  pub forward_deletions : List ForwardDeletionLink

pub record ForwardDeleteIntent : Type 0 where
  pub forward_id : Bytes
  pub deletion_operation_id : Bytes
  pub desired_revision : ℕ
  pub created_at_unix : ℕ

pub record ForwardTombstone : Type 0 where
  pub forward_id : Bytes
  pub deletion_operation_id : Bytes
  pub desired_revision : ℕ
  pub created_at_unix : ℕ

-- A bucket of bolt is a map from keys to values; `rows` are its entries, each once, in the order
-- in which ForEach visits them.
-- Put refuses some keys and values (`accepts`). JSON gives back what it has encoded.
pub record Storage : Type 1 where
  pub Bucket : Type 0
  pub get : Bytes → Bucket → Option Bytes
  pub set : Bytes → Bytes → Bucket → Bucket
  pub unset : Bytes → Bucket → Bucket
  pub rows : Bucket → Map Bytes
  pub accepts : Bytes → Bytes → Bool
  pub get-set :
      (j k v : Bytes) (b : Bucket) → get j (set k v b) ≡ (if bytes_eq j k then some v else get j b)
  pub get-unset :
      (j k : Bytes) (b : Bucket) → get j (unset k b) ≡ (if bytes_eq j k then none else get j b)
  pub find-rows : (k : Bytes) (b : Bucket) → find k (rows b) ≡ get k b
  pub rows-HasUniqueKeys : (b : Bucket) → HasUniqueKeys (rows b)
  pub encode_inbox : InboxEntry → Bytes
  pub decode_inbox : Bytes → Option InboxEntry
  pub encode_journal : OperationJournal → Bytes
  pub decode_journal : Bytes → Option OperationJournal
  pub encode_intent : ForwardDeleteIntent → Bytes
  pub decode_intent : Bytes → Option ForwardDeleteIntent
  pub decode_tombstone : Bytes → Option ForwardTombstone
  pub decode-encode_inbox : (e : InboxEntry) → decode_inbox (encode_inbox e) ≡ some e
  pub decode-encode_journal : (j : OperationJournal) → decode_journal (encode_journal j) ≡ some j
  pub decode-encode_intent : (i : ForwardDeleteIntent) → decode_intent (encode_intent i) ≡ some i
  -- The JSON object of a NACK result: its reason, and whether it carries `recovered`.
  pub encode_nack : (reason : Bytes) (recovered : Bool) → Bytes

module _ (s : Storage) where
  -- The buckets that the journal and the deletion fences use.
  pub record Db : Type 0 where
    pub epochs : s.Bucket
    pub inbox : s.Bucket
    pub outbox : s.Bucket
    pub operations : s.Bucket
    pub intents : s.Bucket
    pub tombstones : s.Bucket

  -- b.Put(k, v)
  unfoldable pub put_row : Bytes → Bytes → s.Bucket → Result Error s.Bucket
  put_row k v b = if s.accepts k v then ok (s.set k v b) else err put_refused

  -- db.Update: a transaction that ends with an error leaves the buckets as they were.
  abbrev pub commit : Db → Result Error Db → Db
  commit db (ok db') = db'
  commit db _ = db
