-- ===== src/Agent/Localstate/Fences/Tests.antt =====
-- Runs of the deletion fences of internal/agent/localstate, and the theorem at one of them.
use anti_nat_agent.Base.{◌≡◌, refl, false, [], ◌∷◌, Bytes, text, ok, err}
use anti_nat_agent.Agent.Localstate.Storage.{delete_conflict, not_gc_ready, Db, ForwardDeleteIntent}
use anti_nat_agent.Agent.Localstate.Fences.{
  load_intent, load_tombstone, put_intent_tx, gc_forward_tombstone,
}
use anti_nat_agent.Agent.Localstate.Fences.Cases.{IsFencedBy, pending}
use anti_nat_agent.Agent.Localstate.Fences.Kept.{put, complete, collect, run, run-IsFencedBy}
use anti_nat_agent.Agent.Localstate.Memory.{memory, empty_db}

abbrev intent : Bytes → ForwardDeleteIntent
intent deletion = record {
  forward_id = text "f-1";
  deletion_operation_id = deletion;
  desired_revision = 4;
  created_at_unix = 100;
}

abbrev pending_db : Db memory
pending_db = record empty_db {
  intents = (text "f-1", memory.encode_intent (intent (text "d-1"))) ∷ [];
}

-- The same call with no tombstone, with a tombstone and with a receipt for another deletion.
abbrev buried_db : Db memory
buried_db = record empty_db {
  tombstones = (text "f-1", memory.encode_intent (intent (text "d-1"))) ∷ [];
  operations = (text "receipt:d-2", []) ∷ [];
}

other_deletion : put_intent_tx memory (intent (text "d-2")) pending_db ≡ err delete_conflict
unfolding put_intent_tx load_intent
other_deletion = refl

not_reopened : put_intent_tx memory (intent (text "d-1")) buried_db ≡ ok (buried_db, false)
unfolding put_intent_tx load_intent
not_reopened = refl

too_early : gc_forward_tombstone memory (text "f-1") buried_db ≡ err not_gc_ready
unfolding gc_forward_tombstone load_tombstone load_intent
too_early = refl

fenced : IsFencedBy memory (text "d-1") (text "f-1") pending_db
unfolding load_intent
fenced = pending (intent (text "d-1")) refl refl

run-IsFencedBy_example : IsFencedBy memory (text "d-1") (text "f-1") (
    run memory
      (put 7 (intent (text "d-2")) ∷ complete (text "f-1") (text "d-1") ∷ collect (text "f-1") ∷ [])
      pending_db)
run-IsFencedBy_example =
    run-IsFencedBy memory (text "d-1") (text "f-1")
      (put 7 (intent (text "d-2")) ∷ complete (text "f-1") (text "d-1") ∷ collect (text "f-1") ∷ [])
      pending_db refl fenced
