-- ===== src/Knowledge/Steps.antt =====
-- The requests of apps/backend/app/services/knowledge.py, one after the other.
use eap.Prelude.{
  ℕ, String, Bool, ◌&&◌, ◌≡◌, ap, ◌∙◌, subst, ◌==◌, ◌≤◌, Option, some, List, [], ◌∷◌, map, arith,
  Option-cases, inl, inr,
}
use eap.Prelude.Table.{count, All}
use eap.Errors.{
  ok, ok_inv, Result-split, bind_inv, then_inv, ◌>>◌, raise_if, document_delete_failed,
  file_too_large,
}
use eap.Knowledge.Model.{
  DocumentStatus, KnowledgeBase, Db, IndexingReply, Listed, Reply, uncaught, document_uploaded,
  kb_created, kb_deleted,
}
use eap.Knowledge.Rows
use eap.Knowledge.Documents.{observe, require_kb, get_document_status, require_document_id, guarded}
use eap.Knowledge.Requests.{
  Observed, observed_of, record_listed_terminals, list_documents, retry_document, delete_document,
  upload_document, UploadFile, is_counted, is_oversized, first_document, released_segments, enter,
}
use eap.Knowledge.Files.{validate_document_file}
use eap.Knowledge.Bases.{
  removed, create, delete, Entry, written, dify_failed, write_failed, entered, creation_error,
}
use eap.Knowledge.Aggregate.{IsFolded, Valid}
use eap.Knowledge.Operations.{observe-Valid, listed-Valid, retried-Valid, retire-Valid, emit-Valid}
use eap.Knowledge.Reachable.{enter-Valid, removed-Valid, created-Valid, one-le-found}

-- One request that the service served. The id of a new knowledge base is fresh.
pub data Step (db : Db) : Db → Type 0 where
  read :
      (tenant_id kb_id : ℕ) (id : String) (status_of : String → String → Reply IndexingReply)
      → {answer : DocumentStatus × Option String} {after : Db}
      → get_document_status tenant_id kb_id id status_of db ≡ ok (answer, after)
      → Step db after
  listed :
      (tenant_id kb_id : ℕ) (listing : String → Reply (List Listed))
      → (status_of : String → String → Reply IndexingReply) → {answer : List Observed} {after : Db}
      → list_documents tenant_id kb_id listing status_of db ≡ ok (answer, after)
      → Step db after
  retried :
      (tenant_id kb_id : ℕ) (id : String) (retry : String → String → Reply (Unit {0})) {after : Db}
      → retry_document tenant_id kb_id id retry db ≡ ok after
      → Step db after
  retired :
      (tenant_id kb_id : ℕ) (id : String) (status_of : String → String → Reply IndexingReply)
      → (drop : String → String → Reply (Unit {0})) {after : Db}
      → delete_document tenant_id kb_id id status_of drop db ≡ ok after
      → Step db after
  uploaded :
      (tenant_id kb_id : ℕ) (extension : String → String)
      (upload_file : String → List ℕ → Reply String)
      → (create_document : String → String → String → Reply (List String)) (file : UploadFile)
      → {answer : String} {after : Db}
      → upload_document tenant_id kb_id extension upload_file create_document file db
        ≡ ok (answer, after)
      → Step db after
  created :
      (tenant_id : ℕ) (name : String) (kb_id : ℕ) (dataset : Reply String) (orphans : List String)
      (deletes : Bool) (entry : Entry)
      → count (Rows.is_base kb_id) db.bases ≡ 0
      → Step db (create tenant_id name kb_id dataset orphans deletes entry db).db
  deleted :
      (tenant_id kb_id : ℕ) (cascade : Bool) (delete_dataset : String → Reply (Unit {0}))
      {after : Db}
      → delete tenant_id kb_id cascade delete_dataset db ≡ ok after
      → Step db after

abbrev pub empty_db : Db
empty_db = record { bases = []; documents = []; bindings = []; events = [] }

pub data Reachable : Db → Type 0 where
  start : Reachable empty_db
  step : {db after : Db} → Reachable db → Step db after → Reachable after

read-Valid :
    (tenant_id kb_id : ℕ) (id : String) (status_of : String → String → Reply IndexingReply)
    (db after : Db)
    → (answer : DocumentStatus × Option String)
    → get_document_status tenant_id kb_id id status_of db ≡ ok (answer, after)
    → Valid db
    → Valid after
unfolding get_document_status
read-Valid tenant_id kb_id id status_of db after answer h v =
    let (kb, found, rest) = bind_inv (require_kb tenant_id kb_id db) _ (answer, after) h in
    let (reply, asked, kept) =
      bind_inv (uncaught (status_of kb.dify_dataset_id id)) _ (answer, after)
        (then_inv (require_document_id id) _ (answer, after) rest) in
    let (recorded, went, same) = bind_inv (observe kb.kb_id id reply db) _ (answer, after) kept in
    subst Valid (ap (λ p. p.1) (ok_inv same)) (observe-Valid kb.kb_id id reply db recorded went v)

list-Valid :
    (tenant_id kb_id : ℕ) (listing : String → Reply (List Listed))
    → (status_of : String → String → Reply IndexingReply) (db after : Db) (answer : List Observed)
    → list_documents tenant_id kb_id listing status_of db ≡ ok (answer, after)
    → Valid db
    → Valid after
unfolding list_documents
list-Valid tenant_id kb_id listing status_of db after answer h v =
    let (kb, found, rest) = bind_inv (require_kb tenant_id kb_id db) _ (answer, after) h in
    let (reply, asked, kept) =
      bind_inv (uncaught (listing kb.dify_dataset_id)) _ (answer, after) rest in
    let items = map (observed_of kb.kb_id db) reply in
    let of = status_of kb.dify_dataset_id in
    let (recorded, went, same) =
      bind_inv (record_listed_terminals kb.kb_id of items db) _ (answer, after) kept in
    subst Valid (ap (λ p. p.1) (ok_inv same)) (listed-Valid kb.kb_id of items db recorded went v)

retry-Valid :
    (tenant_id kb_id : ℕ) (id : String) (retry : String → String → Reply (Unit {0})) (db after : Db)
    → retry_document tenant_id kb_id id retry db ≡ ok after
    → Valid db
    → Valid after
unfolding retry_document
retry-Valid tenant_id kb_id id retry db after h v =
    let (kb, found, rest) = bind_inv (require_kb tenant_id kb_id db) _ after h in
    let same = then_inv _ _ after rest in subst Valid (ok_inv same) (retried-Valid kb.kb_id id db v)

retired-Valid :
    (tenant_id kb_id : ℕ) (id : String) (status_of : String → String → Reply IndexingReply)
    → (drop : String → String → Reply (Unit {0})) (db after : Db)
    → delete_document tenant_id kb_id id status_of drop db ≡ ok after
    → Valid db
    → Valid after
unfolding delete_document
retired-Valid tenant_id kb_id id status_of drop db after h v =
    let (kb, found, rest) = bind_inv (require_kb tenant_id kb_id db) _ after h in
    let (segments, asked, dropped) =
      bind_inv
        (released_segments (is_counted (Rows.get_document kb.kb_id id db))
          (status_of kb.dify_dataset_id id))
        _ after (then_inv (require_document_id id) _ after rest) in
    subst Valid
      (ok_inv
        (then_inv (guarded document_delete_failed (drop kb.dify_dataset_id id)) _ after dropped))
      (retire-Valid kb.kb_id id segments db v)

pub require_kb-found :
    (tenant_id kb_id : ℕ) (db : Db) (kb : KnowledgeBase)
    → require_kb tenant_id kb_id db ≡ ok kb
    → Rows.get_for_tenant kb_id tenant_id db ≡ some kb
unfolding require_kb
require_kb-found tenant_id kb_id db kb h =
    elim (Option-cases (Rows.get_for_tenant kb_id tenant_id db)) [
      | inl e ↦ cc (rw (require_kb, e) at h)
      | inr (k, e) ↦ e ∙ ap some (ok_inv (rw (require_kb, e) at h))
    ]

required_there :
    (tenant_id kb_id : ℕ) (db : Db) (kb : KnowledgeBase)
    → require_kb tenant_id kb_id db ≡ ok kb
    → 1 ≤ count (Rows.is_base kb.kb_id) db.bases
unfolding Rows.get_for_tenant
required_there tenant_id kb_id db kb h =
    one-le-found (Rows.is_base kb.kb_id) (λ k. k.kb_id == kb_id && k.tenant_id == tenant_id)
      db.bases kb (require_kb-found tenant_id kb_id db kb h) (ground arith)

uploaded-Valid :
    (tenant_id kb_id : ℕ) (extension : String → String)
    (upload_file : String → List ℕ → Reply String)
    → (create_document : String → String → String → Reply (List String)) (file : UploadFile)
      (db after : Db)
    → (answer : String)
    → upload_document tenant_id kb_id extension upload_file create_document file db
      ≡ ok (answer, after)
    → Valid db
    → Valid after
unfolding upload_document
uploaded-Valid tenant_id kb_id extension upload_file create_document file db after answer h v =
    let (kb, found, rest) = bind_inv (require_kb tenant_id kb_id db) _ (answer, after) h in
    let (file_id, sent, made) =
      bind_inv (uncaught (upload_file file.filename file.content)) _ (answer, after)
        (then_inv
          (raise_if (is_oversized file.size) 422 file_too_large
            >> validate_document_file (extension file.filename) file.content)
          _ (answer, after) rest) in
    let (documents, asked, first) =
      bind_inv (uncaught (create_document kb.dify_dataset_id file.filename file_id)) _
        (answer, after) made in
    let (id, known, same) = bind_inv (first_document documents) _ (answer, after) first in
    subst Valid (ap (λ p. p.1) (ok_inv same)) (
      emit-Valid (document_uploaded kb.kb_id id file.filename ∷ [])
        (enter kb.kb_id id file.filename db)
        (enter-Valid kb.kb_id id file.filename db (required_there tenant_id kb_id db kb found) v))

deleted-Valid :
    (tenant_id kb_id : ℕ) (cascade : Bool) (delete_dataset : String → Reply (Unit {0}))
    (db after : Db)
    → delete tenant_id kb_id cascade delete_dataset db ≡ ok after
    → Valid db
    → Valid after
unfolding delete
deleted-Valid tenant_id kb_id cascade delete_dataset db after h v =
    let (kb, found, rest) = bind_inv (require_kb tenant_id kb_id db) _ after h in
    subst Valid (ok_inv (then_inv _ _ after rest)) (
      emit-Valid (kb_deleted kb.kb_id kb.tenant_id kb.dify_dataset_id ∷ []) (removed kb db)
        (removed-Valid kb db v))

entered-Valid :
    (tenant_id : ℕ) (name : String) (kb_id : ℕ) (id : String) (deletes : Bool) (entry : Entry)
    (db : Db)
    → count (Rows.is_base kb_id) db.bases ≡ 0
    → Valid db
    → Valid (entered tenant_id name kb_id id deletes entry db).db
entered-Valid tenant_id name kb_id id deletes (written key) db fresh v =
    emit-Valid (kb_created kb_id tenant_id id ∷ [])
      (Rows.create kb_id tenant_id id (some key) name db)
      (created-Valid kb_id tenant_id id (some key) name db fresh v)
entered-Valid tenant_id name kb_id id deletes dify_failed db fresh v = v
entered-Valid tenant_id name kb_id id deletes write_failed db fresh v = v

created_step-Valid :
    (tenant_id : ℕ) (name : String) (kb_id : ℕ) (dataset : Reply String) (orphans : List String)
    (deletes : Bool) (entry : Entry) (db : Db)
    → count (Rows.is_base kb_id) db.bases ≡ 0
    → Valid db
    → Valid (create tenant_id name kb_id dataset orphans deletes entry db).db
unfolding create
created_step-Valid tenant_id name kb_id dataset orphans deletes entry db fresh v =
    elim (Option-cases (Rows.get_by_name_for_tenant tenant_id name db)) [
      | inr (k, e) ↦ rw (create, e) v
      | inl e ↦ elim (Result-split (creation_error dataset)) [
        | inl (raised, k) ↦ rw (create, e, k) v
        | inr (id, k) ↦
            rw (create, e, k) (entered-Valid tenant_id name kb_id id deletes entry db fresh v)
      ]
    ]

pub Step-Valid : {db after : Db} → Step db after → Valid db → Valid after
Step-Valid (read t k id of h) v = read-Valid t k id of _ _ _ h v
Step-Valid (listed t k l of h) v = list-Valid t k l of _ _ _ h v
Step-Valid (retried t k id r h) v = retry-Valid t k id r _ _ h v
Step-Valid (retired t k id of d h) v = retired-Valid t k id of d _ _ h v
Step-Valid (uploaded t k x u c f h) v = uploaded-Valid t k x u c f _ _ _ h v
Step-Valid (created t n k d os ds e h) v = created_step-Valid t n k d os ds e _ h v
Step-Valid (deleted t k c d h) v = deleted-Valid t k c d _ _ h v

Reachable-Valid : {db : Db} → Reachable db → Valid db
unfolding Valid
Reachable-Valid start = (tt, tt)
Reachable-Valid (step r s) = Step-Valid s (Reachable-Valid r)

-- In every state that requests which are served one at a time lead to from the empty tables, the status
-- that each knowledge base stores is the one its documents give: `indexing` if one of them is
-- indexing, else `failed` if one failed, else `ready`.
pub Reachable-IsFolded : {db : Db} → Reachable db → All (IsFolded db.documents) db.bases
unfolding Valid
Reachable-IsFolded r = (Reachable-Valid r).0
