-- ===== src/Knowledge/Examples.antt =====
-- A knowledge base with one document, read, retried and read again, and the tests.
use eap.Prelude.{if◌then◌else◌, ℕ, String, ◌≡◌, refl, none, some, List, [], ◌∷◌, map, true}
use eap.Prelude.Table.{All, find, count, update}
use eap.Errors.{ok, err, app_error, ◌>>=◌, kb_name_exists, dify_error}
use eap.Knowledge.Model.{
  DocumentStatus, indexing, completed, base_ready, base_indexing, KnowledgeBase, KnowledgeDocument,
  Db, IndexingReply, Reply, replied, lost, document_indexed, document_uploaded, kb_created,
}
use eap.Knowledge.Rows
use eap.Knowledge.Documents.{get_document_status, observe, require_kb}
use eap.Knowledge.Requests.{retry_document, upload_document, UploadFile}
use eap.Knowledge.Files.{validate_document_file}
use eap.Knowledge.Bases.{create, write_failed, written}
use eap.Knowledge.Aggregate.{IsFolded}
use eap.Knowledge.Steps.{Reachable, start, step, empty_db, created, uploaded, Reachable-IsFolded}
use eap.Knowledge.Observations.{get_document_status-again}
use eap.Knowledge.Answers.{status-recorded, is_compensated, create-undone}

abbrev payload : String → Reply IndexingReply
payload status =
    replied (record { indexing_status = some status; error = none; total_segments = some 7 })

abbrev says : String → String → String → Reply IndexingReply
says status dataset_id id = payload status

abbrev base : (chunks : ℕ) → KnowledgeBase
base chunks = record {
  kb_id = 1;
  tenant_id = 2;
  dify_dataset_id = "set";
  dify_api_key = some "key";
  name = "rules";
  indexing_status = base_ready;
  doc_count = 1;
  chunk_count = chunks;
}

abbrev document : DocumentStatus → KnowledgeDocument
document status = record {
  kb_id = 1;
  document_id = "d";
  name = "rules.pdf";
  status = status;
  error = none;
}

abbrev before : Db
before = record {
  bases = record (base 0) { indexing_status = base_indexing } ∷ [];
  documents = document indexing ∷ [];
  bindings = [];
  events = [];
}

abbrev after : Db
after = record {
  bases = base 7 ∷ [];
  documents = document completed ∷ [];
  bindings = [];
  events = document_indexed 1 "d" ∷ [];
}

read_done : get_document_status 2 1 "d" (says "completed") before ≡ ok ((completed, none), after)
unfolding get_document_status observe find count update
read_done = refl

get_document_status-again_example :
    get_document_status 2 1 "d" (says "completed") after ≡ ok ((completed, none), after)
get_document_status-again_example =
    get_document_status-again 2 1 "d" (says "completed") before after (completed, none) read_done

found_after : Rows.get_document 1 "d" after ≡ some (document completed)
unfolding Rows.get_document find
found_after = refl

status-recorded_example : completed ≡ (document completed).status
status-recorded_example =
    status-recorded 2 1 "d" (says "completed") before after (completed, none) (document completed)
      read_done found_after

abbrev chunks_of : Db → List ℕ
chunks_of db = map (λ k. k.chunk_count) db.bases

-- A completed document that Dify then reports as failed, and that is retried and completes again, has
-- its segments counted twice.
test_counted_twice :
    get_document_status 2 1 "d" (says "error") after >>= (λ (shown, failed_again).
      retry_document 2 1 "d" (λ set id. replied tt) failed_again >>= (λ retried.
        get_document_status 2 1 "d" (says "completed") retried
        >>= (λ (done, last). ok (chunks_of last))))
    ≡ ok (14 ∷ [])
unfolding get_document_status retry_document observe find count update
test_counted_twice = refl

abbrev empty_base : Db
empty_base = (create 2 "rules" 1 (replied "set") [] true (written "key") empty_db).db

none_there : count (Rows.is_base 1) empty_db.bases ≡ 0
unfolding count
none_there = refl

abbrev file : UploadFile
file = record { filename = "rules.txt"; size = none; content = 65 ∷ [] }

abbrev with_document : Db
with_document = record {
  bases = record (base 0) { indexing_status = base_indexing } ∷ [];
  documents = record (document indexing) { name = "rules.txt" } ∷ [];
  bindings = [];
  events = kb_created 1 2 "set" ∷ document_uploaded 1 "d" "rules.txt" ∷ [];
}

uploaded_one :
    upload_document 2 1
      (λ name. "txt")
      (λ name content. replied "f")
      (λ set name id. replied ("d" ∷ []))
      file
      empty_base
    ≡ ok ("d", with_document)
unfolding upload_document validate_document_file create find count update require_kb
uploaded_one = refl

reached : Reachable with_document
reached =
    step (step start (created 2 "rules" 1 (replied "set") [] true (written "key") none_there)) (
      uploaded 2 1 (λ name. "txt") (λ name content. replied "f") (λ set name id. replied ("d" ∷ []))
        file uploaded_one)

Reachable-IsFolded_example : All (IsFolded with_document.documents) with_document.bases
Reachable-IsFolded_example = Reachable-IsFolded reached

refused_create :
    (create 2 "rules" 1 (replied "set") [] true write_failed before).answer
    ≡ err (app_error 409 kb_name_exists)
unfolding create find
refused_create = refl

failed_create :
    (create 2 "laws" 1 lost ("set" ∷ []) true write_failed before).answer
    ≡ err (app_error 502 dify_error)
unfolding create find
failed_create = refl

create-undone_example :
    ((create 2 "laws" 1 lost ("set" ∷ []) true write_failed before).db ≡ before)
    × ((create 2 "laws" 1 lost ("set" ∷ []) true write_failed before).datasets ≡ (
        if is_compensated (Rows.get_by_name_for_tenant 2 "laws" before) lost
        then []
        else "set" ∷ []))
create-undone_example =
    create-undone 2 "laws" 1 lost ("set" ∷ []) write_failed before (app_error 502 dify_error)
      failed_create
