-- ===== src/Knowledge/Rows.antt =====
-- `KnowledgeRepository` of apps/backend/app/repositories/knowledge.py.
use eap.Prelude.{
  ℕ, String, Bool, not, ◌&&◌, ◌+◌, ◌-◌, ◌==◌, ltb, Option, none, some, List, [], ◌∷◌, ◌++◌,
  if◌then◌else◌, str_eq,
}
use eap.Prelude.Table.{find, update, count, select}
use eap.Knowledge.Model.{
  DocumentStatus, indexing, failed, IndexingStatus, base_ready, base_indexing, base_failed,
  KnowledgeBase, KnowledgeDocument, Binding, Db, same_status,
}

abbrev pub is_base : ℕ → KnowledgeBase → Bool
is_base kb_id k = k.kb_id == kb_id

abbrev pub is_document : ℕ → String → KnowledgeDocument → Bool
is_document kb_id document_id d = d.kb_id == kb_id && str_eq d.document_id document_id

abbrev pub is_in : ℕ → DocumentStatus → KnowledgeDocument → Bool
is_in kb_id status d = d.kb_id == kb_id && same_status d.status status

-- `create`: the id is fresh
unfoldable pub create :
    (kb_id tenant_id : ℕ) (dataset_id : String) (key : Option String) (name : String) → Db → Db
create kb_id tenant_id dataset_id key name db = record db {
  bases =
      db.bases
      ++ record {
        kb_id = kb_id;
        tenant_id = tenant_id;
        dify_dataset_id = dataset_id;
        dify_api_key = key;
        name = name;
        indexing_status = base_ready;
        doc_count = 0;
        chunk_count = 0;
      }
        ∷ [];
}

unfoldable pub get_for_tenant : (kb_id tenant_id : ℕ) → Db → Option KnowledgeBase
get_for_tenant kb_id tenant_id db =
    find (λ k. k.kb_id == kb_id && k.tenant_id == tenant_id) db.bases

unfoldable pub get_by_name_for_tenant : ℕ → String → Db → Option KnowledgeBase
get_by_name_for_tenant tenant_id name db =
    find (λ k. k.tenant_id == tenant_id && str_eq k.name name) db.bases

-- `delete`: the documents go with the row
unfoldable pub delete : ℕ → Db → Db
delete kb_id db = record db {
  bases = select (λ k. not (k.kb_id == kb_id)) db.bases;
  documents = select (λ d. not (d.kb_id == kb_id)) db.documents;
}

abbrev pub bindings_of : ℕ → Db → List Binding
bindings_of kb_id db = select (λ b. b.kb_id == kb_id) db.bindings

unfoldable pub delete_bindings : ℕ → Db → Db
delete_bindings kb_id db = record db { bindings = select (λ b. not (b.kb_id == kb_id)) db.bindings }

unfoldable pub get_document : ℕ → String → Db → Option KnowledgeDocument
get_document kb_id document_id db = find (is_document kb_id document_id) db.documents

abbrev pub new_document : ℕ → String → String → KnowledgeDocument
new_document kb_id document_id name = record {
  kb_id = kb_id;
  document_id = document_id;
  name = name;
  status = indexing;
  error = none;
}

unfoldable pub insert_document : ℕ → (document_id name : String) → Db → Db
insert_document kb_id document_id name db = record db {
  documents =
      if count (is_document kb_id document_id) db.documents == 0
      then db.documents ++ new_document kb_id document_id name ∷ []
      else update (is_document kb_id document_id) (λ d. record d { name = name }) db.documents;
}

-- the departure that the update admits
abbrev pub guard :
    (from_status : Option DocumentStatus) (status : DocumentStatus) → KnowledgeDocument → Bool
guard none status d = not (same_status d.status status)
guard (some from_status) status d = same_status d.status from_status

abbrev pub is_moved :
    ℕ → String → DocumentStatus → (from_status : Option DocumentStatus) → KnowledgeDocument → Bool
is_moved kb_id document_id status from_status d =
    is_document kb_id document_id d && guard from_status status d

-- whether a row was moved, and the tables after it
unfoldable pub transition_document_status :
    ℕ
    → String
    → DocumentStatus
    → (error : Option String) (from_status : Option DocumentStatus) → Db
    → Bool × Db
transition_document_status kb_id document_id status error from_status db = (
  not (count (is_moved kb_id document_id status from_status) db.documents == 0),
  record db {
    documents =
        update (is_moved kb_id document_id status from_status)
          (λ d. record d { status = status; error = error }) db.documents;
  },
)

unfoldable pub has_indexing_document : ℕ → Db → Bool
has_indexing_document kb_id db = not (count (is_in kb_id indexing) db.documents == 0)

-- the value of the `CASE`
unfoldable pub aggregate : ℕ → List KnowledgeDocument → IndexingStatus
aggregate kb_id documents =
    if not (count (is_in kb_id indexing) documents == 0)
    then base_indexing
    else if not (count (is_in kb_id failed) documents == 0)
    then base_failed
    else base_ready

unfoldable pub refresh_indexing_status : ℕ → Db → Db
unfolding aggregate
refresh_indexing_status kb_id db = record db {
  bases =
      update (is_base kb_id) (λ k. record k { indexing_status = aggregate kb_id db.documents })
        db.bases;
}

unfoldable pub add_chunk_count : ℕ → (delta : ℕ) → Db → Db
add_chunk_count kb_id delta db = record db {
  bases = update (is_base kb_id) (λ k. record k { chunk_count = k.chunk_count + delta }) db.bases;
}

unfoldable pub add_document_count : ℕ → Db → Db
add_document_count kb_id db = record db {
  bases = update (is_base kb_id) (λ k. record k { doc_count = k.doc_count + 1 }) db.bases;
}

unfoldable pub release_document_counts : ℕ → (segments : ℕ) → Db → Db
release_document_counts kb_id segments db = record db {
  bases =
      update (is_base kb_id) (λ k. record k { chunk_count = k.chunk_count - segments })
        (update (λ k. is_base kb_id k && ltb 0 k.doc_count)
          (λ k. record k { doc_count = k.doc_count - 1 }) db.bases);
}

-- whether a row was removed, and the tables after it
unfoldable pub delete_document : ℕ → String → Db → Bool × Db
delete_document kb_id document_id db = (
  not (count (is_document kb_id document_id) db.documents == 0),
  record db { documents = select (λ d. not (is_document kb_id document_id d)) db.documents },
)
