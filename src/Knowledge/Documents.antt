-- ===== src/Knowledge/Documents.antt =====
-- The document operations of `KnowledgeService` in apps/backend/app/services/knowledge.py. What Dify
-- answers is given by arguments. A request that ends in an error leaves the tables as they were: its
-- session is rolled back.
use eap.Prelude.{
  ℕ, String, Bool, true, false, not, ◌&&◌, ◌||◌, ◌==◌, leb, ltb, Option, none, some, List, [], ◌∷◌,
  ◌++◌, if◌then◌else◌, str_eq,
}
use Prim.Native.Char.{code}
use eap.Errors.{
  Result, ok, err, Code, AppError, app_error, ◌>>◌, ◌>>=◌, raise_if, kb_not_found,
  document_not_found, dify_error, dify_rate_limited, internal_error,
}
use eap.Knowledge.Model.{
  DocumentStatus, indexing, completed, failed, KnowledgeBase, KnowledgeDocument, Event,
  document_indexed, document_index_failed, Db, Reply, replied, refused, lost, uncaught,
  IndexingReply, is_terminal,
}
use eap.Knowledge.Rows

-- `_document_status`
unfoldable pub document_status : Option String → DocumentStatus
document_status none = indexing
document_status (some s) =
    if str_eq s "completed"
    then completed
    else if str_eq s "error" || str_eq s "failed"
    then failed
    else indexing

-- `_answered_status`
unfoldable pub answered_status :
    Option KnowledgeDocument → DocumentStatus → Option String → DocumentStatus × Option String
answered_status none folded error = (folded, error)
answered_status (some d) folded error =
    if is_terminal folded
    then (folded, error)
    else if is_terminal d.status
    then (d.status, d.error)
    else (folded, error)

-- `_segment_count`
abbrev pub segment_count : IndexingReply → ℕ
segment_count reply = elim reply.total_segments [ none ↦ 0 | some n ↦ n ]

abbrev has_char : ℕ → String → Bool
has_char c String.[] = false
has_char c (String.◌∷◌ x s) = code x == c || has_char c s

-- `_require_document_id`: no empty id, no dot segment, no separator
unfoldable pub require_document_id : String → Result (Unit {0})
require_document_id id =
    raise_if (str_eq id "" || (str_eq id "." || str_eq id "..") || has_char 47 id || has_char 92 id)
      404 document_not_found

-- `_document_operation_error`
unfoldable pub document_operation_error : (status_code : ℕ) (code : Code) → AppError
document_operation_error status_code code =
    if status_code == 404
    then app_error 404 document_not_found
    else if status_code == 401 || status_code == 403
    then app_error 502 dify_error
    else if status_code == 429
    then app_error 503 dify_rate_limited
    else if leb 400 status_code && ltb status_code 500
    then app_error 400 code
    else app_error 502 dify_error

-- a refusal of Dify's is answered by an error of the platform's
abbrev pub guarded {ℓ} : {A : Type ℓ} (code : Code) → Reply A → Result A
guarded code (replied a) = ok a
guarded code (refused status) = err (document_operation_error status code)
guarded code lost = err (app_error 500 internal_error)

-- `_require_kb`
unfoldable pub require_kb : (tenant_id kb_id : ℕ) → Db → Result KnowledgeBase
unfolding Rows.get_for_tenant
require_kb tenant_id kb_id db = elim (Rows.get_for_tenant kb_id tenant_id db) [
  | none ↦ err (app_error 404 kb_not_found)
  | some k ↦ ok k
]

-- `_emit_terminal_event`
abbrev pub terminal_event : ℕ → String → DocumentStatus → Option String → Event
terminal_event kb_id document_id completed error = document_indexed kb_id document_id
terminal_event kb_id document_id failed error = document_index_failed kb_id document_id error
terminal_event kb_id document_id indexing error = document_index_failed kb_id document_id error

abbrev pub emit : List Event → Db → Db
emit events db = record db { events = db.events ++ events }

-- the amount that a completion adds: given with the reply that was read, or asked for
abbrev pub owed_segments : (segments : Option ℕ) → Reply IndexingReply → Result ℕ
owed_segments (some n) reply = ok n
owed_segments none reply = uncaught reply >>= (λ r. ok (segment_count r))

abbrev pub count_segments :
    DocumentStatus → (kb_id : ℕ) (segments : Option ℕ) → Reply IndexingReply → Db → Result Db
count_segments completed kb_id segments reply db =
    owed_segments segments reply >>= (λ n. ok (Rows.add_chunk_count kb_id n db))
count_segments status kb_id segments reply db = ok db

-- `_record_terminal_status`; `reply` is what Dify answers if it is asked for the segments
unfoldable pub record_terminal_status :
    (kb_id : ℕ) (document_id : String) (status : DocumentStatus) (error : Option String)
    (segments : Option ℕ)
    → Reply IndexingReply
    → Db
    → Result (Bool × Db)
unfolding Rows.transition_document_status Rows.refresh_indexing_status Rows.add_chunk_count
record_terminal_status kb_id document_id status error segments reply db =
    let (transitioned, moved) =
      Rows.transition_document_status kb_id document_id status error none db in
    if not transitioned
    then ok (false, moved)
    else count_segments status kb_id segments reply (Rows.refresh_indexing_status kb_id moved)
      >>= (λ counted. ok (true, counted))

-- the segments that the payload of a completion already holds
abbrev pub held_segments : DocumentStatus → IndexingReply → Option ℕ
held_segments completed reply = some (segment_count reply)
held_segments status reply = none

-- what a read of one document's status writes and announces
unfoldable pub observe : (kb_id : ℕ) (document_id : String) → IndexingReply → Db → Result Db
unfolding record_terminal_status document_status
observe kb_id document_id reply db =
    let status = document_status reply.indexing_status in
    let segments = held_segments status reply in
    if not (is_terminal status)
    then ok db
    else record_terminal_status kb_id document_id status reply.error segments (replied reply) db
      >>= (λ (transitioned, recorded). ok (
          if transitioned
          then emit (terminal_event kb_id document_id status reply.error ∷ []) recorded
          else recorded))

-- the request once its knowledge base was found
abbrev pub read_status :
    (kb_id : ℕ) (dify_dataset_id document_id : String)
    → (status_of : String → String → Reply IndexingReply) → Db
    → Result ((DocumentStatus × Option String) × Db)
read_status kb_id dify_dataset_id document_id status_of db =
    require_document_id document_id
    >> (uncaught (status_of dify_dataset_id document_id) >>= (λ reply.
        observe kb_id document_id reply db >>= (λ recorded. ok (
          answered_status (Rows.get_document kb_id document_id db)
              (document_status reply.indexing_status) reply.error,
          recorded,
        ))))

unfoldable pub get_document_status :
    (tenant_id kb_id : ℕ) (document_id : String)
    → (status_of : String → String → Reply IndexingReply) → Db
    → Result ((DocumentStatus × Option String) × Db)
unfolding observe require_kb require_document_id answered_status Rows.get_document
get_document_status tenant_id kb_id document_id status_of db =
    require_kb tenant_id kb_id db
    >>= (λ kb. read_status kb.kb_id kb.dify_dataset_id document_id status_of db)
