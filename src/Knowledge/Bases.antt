-- ===== src/Knowledge/Bases.antt =====
-- `create` and `delete` of `KnowledgeService` in apps/backend/app/services/knowledge.py.
use eap.Prelude.{
  ℕ, String, Bool, true, false, not, ◌&&◌, ◌==◌, none, some, List, [], ◌∷◌, if◌then◌else◌,
}
use eap.Errors.{
  Result, ok, err, app_error, ◌>>◌, ◌>>=◌, raise_if, kb_name_exists, kb_in_use, dify_error,
  internal_error,
}
use eap.Knowledge.Model.{KnowledgeBase, kb_created, kb_deleted, Db, Reply, replied, refused, lost}
use eap.Knowledge.Rows
use eap.Knowledge.Documents.{require_kb, emit}

-- the answer to a failed creation of the dataset
abbrev pub creation_error : Reply String → Result String
creation_error (replied dataset_id) = ok dataset_id
creation_error (refused status) =
    err (if status == 409 then app_error 409 kb_name_exists else app_error 502 dify_error)
creation_error lost = err (app_error 502 dify_error)

-- What the second part of a creation came to: the key for the dataset and the write of the row. Each
-- failure is answered after the deletion of the dataset was tried. A write that failed, the commit
-- included, was not committed, and the request's session rolls it back.
pub data Entry : Type 0 where
  written : (key : String) → Entry
  dify_failed : Entry
  write_failed : Entry

-- the answer of a creation, the tables, and the datasets that Dify holds on its account
pub record Created : Type 0 where
  pub answer : Result ℕ
  pub db : Db
  pub datasets : List String

-- the compensation; `deletes` says whether Dify performs it
abbrev compensated : (deletes : Bool) (dataset_id : String) → List String
compensated true dataset_id = []
compensated false dataset_id = dataset_id ∷ []

abbrev pub entered :
    (tenant_id : ℕ) (name : String) (kb_id : ℕ) (dataset_id : String) (deletes : Bool)
    → Entry
    → Db
    → Created
entered tenant_id name kb_id dataset_id deletes (written key) db = record {
  answer = ok kb_id;
  db =
      emit (kb_created kb_id tenant_id dataset_id ∷ [])
        (Rows.create kb_id tenant_id dataset_id (some key) name db);
  datasets = dataset_id ∷ [];
}
entered tenant_id name kb_id dataset_id deletes dify_failed db = record {
  answer = err (app_error 502 dify_error);
  db = db;
  datasets = compensated deletes dataset_id;
}
entered tenant_id name kb_id dataset_id deletes write_failed db = record {
  answer = err (app_error 500 internal_error);
  db = db;
  datasets = compensated deletes dataset_id;
}

-- without an answer of Dify's that names a dataset, nothing is compensated: what Dify holds on the
-- account of the failed call, `orphans`, stays
abbrev pub dataset_created :
    (tenant_id : ℕ) (name : String) (kb_id : ℕ) (orphans : List String) (deletes : Bool)
    → Entry
    → Result String
    → Db
    → Created
dataset_created tenant_id name kb_id orphans deletes entry (ok dataset_id) db =
    entered tenant_id name kb_id dataset_id deletes entry db
dataset_created tenant_id name kb_id orphans deletes entry (err e) db = record {
  answer = err e;
  db = db;
  datasets = orphans;
}

-- `create`: the id of the row is `kb_id`, a fresh one. `dataset` is how the call for the dataset ended,
-- and `orphans` the datasets that Dify made for it although it failed, as on a timeout.
unfoldable pub create :
    (tenant_id : ℕ) (name : String) (kb_id : ℕ) (dataset : Reply String) (orphans : List String)
    → (deletes : Bool) → Entry
    → Db
    → Created
unfolding Rows.create Rows.get_by_name_for_tenant
create tenant_id name kb_id dataset orphans deletes entry db =
    elim (Rows.get_by_name_for_tenant tenant_id name db) [
      | some k ↦ record { answer = err (app_error 409 kb_name_exists); db = db; datasets = [] }
      | none ↦
          dataset_created tenant_id name kb_id orphans deletes entry (creation_error dataset) db
    ]

abbrev pub is_nil {ℓ} : {A : Type ℓ} → List A → Bool
is_nil [] = true
is_nil (x ∷ xs) = false

-- the deletion of the dataset; one that is gone already is as good
abbrev dataset_deleted : Reply (Unit {0}) → Result (Unit {0})
dataset_deleted (replied done) = ok done
dataset_deleted (refused status) = if status == 404 then ok tt else err (app_error 502 dify_error)
dataset_deleted lost = err (app_error 500 internal_error)

-- the local transaction
unfoldable pub removed : KnowledgeBase → Db → Db
unfolding Rows.delete Rows.delete_bindings
removed kb db =
    Rows.delete kb.kb_id
      (if is_nil (Rows.bindings_of kb.kb_id db) then db else Rows.delete_bindings kb.kb_id db)

-- `delete`
unfoldable pub delete :
    (tenant_id kb_id : ℕ) (cascade : Bool)
    → (delete_dataset : String → Reply (Unit {0})) → Db
    → Result Db
unfolding removed require_kb
delete tenant_id kb_id cascade delete_dataset db = require_kb tenant_id kb_id db >>= (λ kb.
    raise_if (not (is_nil (Rows.bindings_of kb.kb_id db)) && not cascade) 409 kb_in_use
    >> dataset_deleted (delete_dataset kb.dify_dataset_id)
    >> ok (emit (kb_deleted kb.kb_id kb.tenant_id kb.dify_dataset_id ∷ []) (removed kb db)))
