-- ===== src/Knowledge/Requests.antt =====
-- The listing, retry, deletion and upload of documents, and the gate of the retrieval test:
-- `list_documents`, `retry_document`, `delete_document`, `upload_document` and the first part of
-- `retrieval_test` of `KnowledgeService` in apps/backend/app/services/knowledge.py.
use eap.Prelude.{
  ℕ, String, Bool, true, false, not, ◌||◌, ltb, Option, none, some, List, [], ◌∷◌, map,
  if◌then◌else◌,
}
use eap.Errors.{
  Result, ok, err, app_error, ◌>>◌, ◌>>=◌, raise_if, invalid_state, document_retry_failed,
  document_delete_failed, kb_indexing, file_too_large, dify_upload_failed,
}
use eap.Knowledge.Model.{
  DocumentStatus, indexing, completed, failed, IndexingStatus, base_indexing, KnowledgeBase,
  KnowledgeDocument, Event, document_uploaded, Db, Reply, uncaught, IndexingReply, Listed,
  is_terminal, same_status,
}
use eap.Knowledge.Rows
use eap.Knowledge.Documents.{
  document_status, answered_status, require_document_id, guarded, require_kb, terminal_event, emit,
  record_terminal_status, segment_count,
}
use eap.Knowledge.Files.{validate_document_file, max_file_size_bytes}

-- a document as it is answered, with its error
pub record Observed : Type 0 where
  pub id : String
  pub status : DocumentStatus
  pub error : Option String

abbrev pub observed_of : (kb_id : ℕ) → Db → Listed → Observed
observed_of kb_id db doc =
    let answer : DocumentStatus × Option String =
      answered_status (Rows.get_document kb_id doc.id db) (document_status doc.indexing_status)
        doc.error in
    record { id = doc.id; status = answer.0; error = answer.1 }

abbrev pub visit :
    (kb_id : ℕ) (status_of : String → Reply IndexingReply) → Observed → Db → Result (Bool × Db)
visit kb_id status_of item db =
    if not (is_terminal item.status)
    then ok (false, db)
    else record_terminal_status kb_id item.id item.status item.error none (status_of item.id) db

-- the loop of `_record_listed_terminals`: what was recorded, and the tables after it
unfoldable pub record_all :
    (kb_id : ℕ) (status_of : String → Reply IndexingReply)
    → List Observed
    → Db
    → Result (List Observed × Db)
unfolding record_terminal_status
record_all kb_id status_of [] db = ok ([], db)
record_all kb_id status_of (item ∷ items) db =
    visit kb_id status_of item db >>= (λ (transitioned, recorded).
      record_all kb_id status_of items recorded
      >>= (λ (others, all). ok ((if transitioned then item ∷ others else others), all)))

abbrev pub announced : (kb_id : ℕ) → Observed → Event
announced kb_id item = terminal_event kb_id item.id item.status item.error

-- `_record_listed_terminals`
unfoldable pub record_listed_terminals :
    (kb_id : ℕ) (status_of : String → Reply IndexingReply) → List Observed → Db → Result Db
unfolding record_all
record_listed_terminals kb_id status_of items db =
    record_all kb_id status_of items db
    >>= (λ (recorded, all). ok (emit (map (announced kb_id) recorded) all))

unfoldable pub list_documents :
    (tenant_id kb_id : ℕ)
    → (listing : String → Reply (List Listed)) → (status_of : String → String → Reply IndexingReply)
    → Db
    → Result (List Observed × Db)
unfolding record_listed_terminals
list_documents tenant_id kb_id listing status_of db = require_kb tenant_id kb_id db >>= (λ kb.
    uncaught (listing kb.dify_dataset_id) >>= (λ listed.
      let observed = map (observed_of kb.kb_id db) listed in
      record_listed_terminals kb.kb_id (status_of kb.dify_dataset_id) observed db
      >>= (λ recorded. ok (observed, recorded))))

abbrev is_refused : Option KnowledgeDocument → Bool
is_refused none = false
is_refused (some d) = not (same_status d.status failed)

unfoldable pub retry_document :
    (tenant_id kb_id : ℕ) (document_id : String)
    → (retry : String → String → Reply (Unit {0})) → Db
    → Result Db
unfolding Rows.transition_document_status Rows.refresh_indexing_status Rows.get_document
retry_document tenant_id kb_id document_id retry db = require_kb tenant_id kb_id db >>= (λ kb.
    require_document_id document_id
    >> raise_if (is_refused (Rows.get_document kb.kb_id document_id db)) 422 invalid_state
    >> guarded document_retry_failed (retry kb.dify_dataset_id document_id)
    >> (let moved =
          (Rows.transition_document_status kb.kb_id document_id indexing none (some failed) db).1 in
        ok (Rows.refresh_indexing_status kb.kb_id moved)))

abbrev pub is_counted : Option KnowledgeDocument → Bool
is_counted none = false
is_counted (some d) = same_status d.status completed

-- the segments that the document's deletion gives back
abbrev pub released_segments : Bool → Reply IndexingReply → Result ℕ
released_segments false reply = ok 0
released_segments true reply = guarded document_delete_failed reply >>= (λ r. ok (segment_count r))

-- the tables once Dify has dropped the document
unfoldable pub retire : (kb_id : ℕ) (document_id : String) (segments : ℕ) → Db → Db
unfolding Rows.delete_document Rows.release_document_counts Rows.refresh_indexing_status
retire kb_id document_id segments db =
    let (removed, others) = Rows.delete_document kb_id document_id db in
    if removed
    then Rows.refresh_indexing_status kb_id (Rows.release_document_counts kb_id segments others)
    else others

unfoldable pub delete_document :
    (tenant_id kb_id : ℕ) (document_id : String)
    → (status_of : String → String → Reply IndexingReply)
    → (delete : String → String → Reply (Unit {0})) → Db
    → Result Db
unfolding retire
delete_document tenant_id kb_id document_id status_of delete db =
    require_kb tenant_id kb_id db >>= (λ kb.
      require_document_id document_id
      >> (released_segments (is_counted (Rows.get_document kb.kb_id document_id db))
            (status_of kb.dify_dataset_id document_id)
          >>= (λ segments.
              guarded document_delete_failed (delete kb.dify_dataset_id document_id)
              >> ok (retire kb.kb_id document_id segments db))))

-- the file of an upload: its name, the size that the form states, and its bytes
pub record UploadFile : Type 0 where
  pub filename : String
  pub size : Option ℕ
  pub content : List ℕ

abbrev pub is_oversized : Option ℕ → Bool
is_oversized none = false
is_oversized (some size) = ltb max_file_size_bytes size

-- the tables once Dify holds the document
unfoldable pub enter : (kb_id : ℕ) (document_id name : String) → Db → Db
unfolding Rows.add_document_count Rows.insert_document Rows.refresh_indexing_status
enter kb_id document_id name db =
    Rows.refresh_indexing_status kb_id
      (Rows.insert_document kb_id document_id name (Rows.add_document_count kb_id db))

abbrev pub first_document : List String → Result String
first_document [] = err (app_error 502 dify_upload_failed)
first_document (id ∷ ids) = ok id

-- `extension` reads the extension of a file's name; `upload_file` and `create_document` are Dify's
unfoldable pub upload_document :
    (tenant_id kb_id : ℕ)
    → (extension : String → String) → (upload_file : String → List ℕ → Reply String)
    → (create_document : (dataset_id name file_id : String) → Reply (List String)) → UploadFile
    → Db
    → Result (String × Db)
unfolding enter
upload_document tenant_id kb_id extension upload_file create_document upload db =
    require_kb tenant_id kb_id db >>= (λ kb.
      raise_if (is_oversized upload.size) 422 file_too_large
      >> validate_document_file (extension upload.filename) upload.content
      >> (uncaught (upload_file upload.filename upload.content) >>= (λ file_id.
          uncaught (create_document kb.dify_dataset_id upload.filename file_id) >>= (λ documents.
            first_document documents >>= (λ id. ok (
              id,
              emit (document_uploaded kb.kb_id id upload.filename ∷ [])
                  (enter kb.kb_id id upload.filename db),
            ))))))

abbrev is_base_indexing : IndexingStatus → Bool
is_base_indexing base_indexing = true
is_base_indexing s = false

-- the gate of `retrieval_test`
unfoldable pub retrieval_gate : KnowledgeBase → Db → Result (Unit {0})
unfolding Rows.has_indexing_document
retrieval_gate kb db =
    raise_if (is_base_indexing kb.indexing_status || Rows.has_indexing_document kb.kb_id db) 409
      kb_indexing
