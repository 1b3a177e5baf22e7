-- ===== src/Knowledge/Model.antt =====
-- The rows of apps/backend/app/models/knowledge.py and of the bindings of agents, the events of
-- apps/backend/app/events/knowledge.py, and what Dify's console answers. Time stamps and the texts
-- that no operation reads are left out.
use eap.Prelude.{ℕ, String, Bool, true, false, Option, List}
use eap.Errors.{Result, ok, err, app_error, internal_error}

-- the values that the check constraint of a document's status admits
pub data DocumentStatus : Type 0 where
  indexing completed failed : DocumentStatus

-- the aggregated status of a knowledge base: `ready`, `indexing` and `failed`
pub data IndexingStatus : Type 0 where
  base_ready base_indexing base_failed : IndexingStatus

pub record KnowledgeBase : Type 0 where
  pub kb_id : ℕ
  pub tenant_id : ℕ
  pub dify_dataset_id : String
  pub dify_api_key : Option String
  pub name : String
  pub indexing_status : IndexingStatus
  pub doc_count : ℕ
  pub chunk_count : ℕ

pub record KnowledgeDocument : Type 0 where
  pub kb_id : ℕ
  pub document_id : String
  pub name : String
  pub status : DocumentStatus
  pub error : Option String

pub record Binding : Type 0 where
  pub kb_id : ℕ
  pub agent_id : ℕ

pub data Event : Type 0 where
  kb_created kb_deleted : (kb_id tenant_id : ℕ) (dify_dataset_id : String) → Event
  document_uploaded : (kb_id : ℕ) (document_id name : String) → Event
  document_indexed : (kb_id : ℕ) (document_id : String) → Event
  document_index_failed : (kb_id : ℕ) (document_id : String) (error : Option String) → Event

-- the tables, and the events that were emitted
pub record Db : Type 0 where
  pub bases : List KnowledgeBase
  pub documents : List KnowledgeDocument
  pub bindings : List Binding
  pub events : List Event

-- What a call of Dify came to: an answer, a `DifyConsoleError` with its status, or another exception
-- of the connection.
pub data Reply {ℓ} (A : Type ℓ) : Type ℓ where
  replied : A → Reply A
  refused : ℕ → Reply A
  lost : Reply A

-- an exception that the service lets through
abbrev pub uncaught {ℓ} : {A : Type ℓ} → Reply A → Result A
uncaught (replied a) = ok a
uncaught (refused status) = err (app_error 500 internal_error)
uncaught lost = err (app_error 500 internal_error)

-- the fields of an indexing-status payload that are read
pub record IndexingReply : Type 0 where
  pub indexing_status : Option String
  pub error : Option String
  pub total_segments : Option ℕ

-- one document of a listing
pub record Listed : Type 0 where
  pub id : String
  pub indexing_status : Option String
  pub error : Option String

abbrev pub same_status : DocumentStatus → DocumentStatus → Bool
same_status indexing indexing = true
same_status completed completed = true
same_status failed failed = true
same_status s t = false

-- `_TERMINAL_STATUSES`
abbrev pub is_terminal : DocumentStatus → Bool
is_terminal indexing = false
is_terminal completed = true
is_terminal failed = true
