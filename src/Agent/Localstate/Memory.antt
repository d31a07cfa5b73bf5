-- ===== src/Agent/Localstate/Memory.antt =====
-- A store in memory: an association list for a bucket, and one field after the other for a row.
-- It shows that what internal/agent/localstate asks of bolt and of encoding/json can be met.
use anti_nat_agent.Base.{
  ℕ, zero, suc, ◌≡◌, refl, ap, ◌∙◌, Bool, true, false, not, Option, none, some, List, [], ◌∷◌,
  if◌then◌else◌, inl, inr, Bool-cases, Bytes, bytes_eq, bytes_eq→eq, Map, find, remove, put,
  HasUniqueKeys, find-remove_self, find-remove_other, remove-HasUniqueKeys,
}
use anti_nat_agent.Agent.Localstate.Storage.{
  Storage, Db, InboxEntry, OperationJournal, ForwardDeleteIntent, ForwardDeletionLink,
  ForwardTombstone,
}

-- The entries that a lookup finds, each once.
abbrev entries : Map Bytes → Map Bytes
entries [] = []
entries ((k, v) ∷ m) = (k, v) ∷ remove k (entries m)

pub find-entries : (k : Bytes) (m : Map Bytes) → find k (entries m) ≡ find k m
find-entries k [] = refl
find-entries k ((j, v) ∷ m) = elim (Bool-cases (bytes_eq k j)) [
  | inl e ↦ rw e refl
  | inr e ↦ rw e (find-remove_other k j (entries m) e ∙ find-entries k m)
]

pub entries-HasUniqueKeys : (m : Map Bytes) → HasUniqueKeys (entries m)
entries-HasUniqueKeys [] = tt
entries-HasUniqueKeys ((k, v) ∷ m) =
    (find-remove_self k (entries m), remove-HasUniqueKeys k (entries m) (entries-HasUniqueKeys m))

pub get-put :
    (j k v : Bytes) (m : Map Bytes)
    → find j (put k v m) ≡ (if bytes_eq j k then some v else find j m)
get-put j k v m = elim (Bool-cases (bytes_eq j k)) [
  | inl e ↦ rw e refl
  | inr e ↦ rw e (find-remove_other j k m e)
]

pub get-remove :
    (j k : Bytes) (m : Map Bytes) → find j (remove k m) ≡ (if bytes_eq j k then none else find j m)
get-remove j k m = elim (Bool-cases (bytes_eq j k)) [
  | inl e ↦ rw (e, bytes_eq→eq j k e) (find-remove_self k m)
  | inr e ↦ rw e (find-remove_other j k m e)
]

-- A field: a mark before each byte, and one at its end.
abbrev field : Bytes → Bytes → Bytes
field [] rest = 0 ∷ rest
field (b ∷ bs) rest = 1 ∷ b ∷ field bs rest

abbrev pack : List Bytes → Bytes
pack [] = []
pack (f ∷ fs) = field f (pack fs)

abbrev extend : ℕ → List Bytes → List Bytes
extend b [] = []
extend b (f ∷ fs) = (b ∷ f) ∷ fs

abbrev unpack : Bytes → List Bytes
unpack [] = []
unpack (zero ∷ r) = [] ∷ unpack r
unpack (suc n ∷ []) = []
unpack (suc n ∷ b ∷ r) = extend b (unpack r)

unpack-field : (f rest : Bytes) → unpack (field f rest) ≡ f ∷ unpack rest
unpack-field [] rest = refl
unpack-field (b ∷ bs) rest = ap (extend b) (unpack-field bs rest)

unpack-pack : (fs : List Bytes) → unpack (pack fs) ≡ fs
unpack-pack [] = refl
unpack-pack (f ∷ fs) = unpack-field f (pack fs) ∙ ap (λ r. f ∷ r) (unpack-pack fs)

abbrev bit : Bool → Bytes
bit true = 1 ∷ []
bit false = []

abbrev is_set : Bytes → Bool
is_set [] = false
is_set (b ∷ bs) = true

is_set-bit : (b : Bool) → is_set (bit b) ≡ b
is_set-bit true = refl
is_set-bit false = refl

abbrev inbox_of : List Bytes → Option InboxEntry
inbox_of (t ∷ h ∷ o ∷ []) = some (record { message_type = t; payload_hash = h; operation_id = o })
inbox_of _ = none

abbrev intent_of_fields : List Bytes → Option ForwardDeleteIntent
intent_of_fields (f ∷ d ∷ (r ∷ t ∷ []) ∷ []) = some (record {
  forward_id = f;
  deletion_operation_id = d;
  desired_revision = r;
  created_at_unix = t;
})
intent_of_fields _ = none

abbrev tombstone_of : List Bytes → Option ForwardTombstone
tombstone_of (f ∷ d ∷ (r ∷ t ∷ []) ∷ []) = some (record {
  forward_id = f;
  deletion_operation_id = d;
  desired_revision = r;
  created_at_unix = t;
})
tombstone_of _ = none

abbrev links_out : List ForwardDeletionLink → List Bytes
links_out [] = []
links_out (l ∷ ls) =
    l.forward_id ∷ l.deletion_operation_id ∷ (l.desired_revision ∷ []) ∷ links_out ls

abbrev links_in : List Bytes → List ForwardDeletionLink
links_in (f ∷ d ∷ (r ∷ []) ∷ rest) =
    record { forward_id = f; deletion_operation_id = d; desired_revision = r } ∷ links_in rest
links_in _ = []

links_in-links_out : (ls : List ForwardDeletionLink) → links_in (links_out ls) ≡ ls
links_in-links_out [] = refl
links_in-links_out (l ∷ ls) = ap (λ r. l ∷ r) (links_in-links_out ls)

abbrev journal_out : OperationJournal → List Bytes
journal_out j =
    j.kind
    ∷ j.message_id
    ∷ j.phase
    ∷ j.reason
    ∷ j.payload
    ∷ bit j.payload_present
    ∷ bit j.recovered_deletion_pending
    ∷ links_out j.forward_deletions

abbrev journal_of : List Bytes → Option OperationJournal
journal_of (k ∷ m ∷ p ∷ r ∷ d ∷ a ∷ b ∷ links) = some (record {
  kind = k;
  message_id = m;
  phase = p;
  reason = r;
  payload = d;
  payload_present = is_set a;
  recovered_deletion_pending = is_set b;
  forward_deletions = links_in links;
})
journal_of _ = none

journal_of-journal_out : (j : OperationJournal) → journal_of (journal_out j) ≡ some j
journal_of-journal_out j = cc (
  is_set-bit j.payload_present,
  is_set-bit j.recovered_deletion_pending,
  links_in-links_out j.forward_deletions,
)

abbrev intent_out : ForwardDeleteIntent → List Bytes
intent_out i =
    i.forward_id ∷ i.deletion_operation_id ∷ (i.desired_revision ∷ i.created_at_unix ∷ []) ∷ []

abbrev inbox_out : InboxEntry → List Bytes
inbox_out e = e.message_type ∷ e.payload_hash ∷ e.operation_id ∷ []

pub decode-encode_inbox : (e : InboxEntry) → inbox_of (unpack (pack (inbox_out e))) ≡ some e
decode-encode_inbox e = ap inbox_of (unpack-pack (inbox_out e))

pub decode-encode_journal :
    (j : OperationJournal) → journal_of (unpack (pack (journal_out j))) ≡ some j
decode-encode_journal j = ap journal_of (unpack-pack (journal_out j)) ∙ journal_of-journal_out j

pub decode-encode_intent :
    (i : ForwardDeleteIntent) → intent_of_fields (unpack (pack (intent_out i))) ≡ some i
decode-encode_intent i = ap intent_of_fields (unpack-pack (intent_out i))

abbrev pub memory : Storage
memory = record {
  Bucket = Map Bytes;
  get = find;
  set = put;
  unset = remove;
  rows = entries;
  accepts = λ k v. not (bytes_eq k []);
  get-set = get-put;
  get-unset = get-remove;
  find-rows = find-entries;
  rows-HasUniqueKeys = entries-HasUniqueKeys;
  encode_inbox = λ e. pack (inbox_out e);
  decode_inbox = λ r. inbox_of (unpack r);
  encode_journal = λ j. pack (journal_out j);
  decode_journal = λ r. journal_of (unpack r);
  encode_intent = λ i. pack (intent_out i);
  decode_intent = λ r. intent_of_fields (unpack r);
  decode_tombstone = λ r. tombstone_of (unpack r);
  decode-encode_inbox = decode-encode_inbox;
  decode-encode_journal = decode-encode_journal;
  decode-encode_intent = decode-encode_intent;
  encode_nack = λ reason recovered. pack (reason ∷ bit recovered ∷ []);
}

abbrev pub empty_db : Db memory
empty_db = record {
  epochs = [];
  inbox = [];
  outbox = [];
  operations = [];
  intents = [];
  tombstones = [];
}
