-- ===== src/Knowledge/Recorded.antt =====
-- What a recorded status leaves in the tables of apps/backend/app/repositories/knowledge.py.
use eap.Prelude.{
  ℕ, String, Bool, true, false, ◌≡◌, refl, ap, ◌∙◌, subst, ◌+◌, Option, none, List, [], ◌∷◌,
  Bool-cases, inl, inr, if◌then◌else◌,
}
use eap.Prelude.Table.{update, Rows, Rows-refl, Rows-update, Rows-trans}
use eap.Errors.{ok, ok_inv, bind_inv}
use eap.Knowledge.Model.{
  DocumentStatus, indexing, completed, failed, KnowledgeBase, Db, Event, IndexingReply, Reply,
  replied, is_terminal,
}
use eap.Knowledge.Rows
use eap.Knowledge.Documents.{
  observe, document_status, emit, record_terminal_status, count_segments, owed_segments,
  held_segments, terminal_event,
}

-- a knowledge base whose status and totals may have changed
pub record Same (k l : KnowledgeBase) : Type 0 where
  pub kb_ids : l.kb_id ≡ k.kb_id
  pub tenants : l.tenant_id ≡ k.tenant_id
  pub datasets : l.dify_dataset_id ≡ k.dify_dataset_id

abbrev pub unchanged : (k : KnowledgeBase) → Same k k
unchanged k = record { kb_ids = refl; tenants = refl; datasets = refl }

Same-trans : (k l m : KnowledgeBase) → Same k l → Same l m → Same k m
Same-trans k l m p q = record {
  kb_ids = q.kb_ids ∙ p.kb_ids;
  tenants = q.tenants ∙ p.tenants;
  datasets = q.datasets ∙ p.datasets;
}

-- what a record of status `s` leaves
pub record Recorded (kb_id : ℕ) (id : String) (s : DocumentStatus) (e : Option String)
    (db after : Db) : Type 0 where
  pub documents :
      after.documents
      ≡ update
          (Rows.is_moved kb_id id s none)
          (λ d. record d { status = s; error = e })
          db.documents
  pub bases : Rows Same db.bases after.bases

refreshed-Same :
    (kb_id : ℕ) (db : Db) → Rows Same db.bases (Rows.refresh_indexing_status kb_id db).bases
unfolding Rows.refresh_indexing_status
refreshed-Same kb_id db =
    Rows-update Same unchanged (Rows.is_base kb_id)
      (λ k. record k { indexing_status = Rows.aggregate kb_id db.documents }) db.bases
      (λ k e. record { kb_ids = refl; tenants = refl; datasets = refl })

counted-Same :
    (s : DocumentStatus) (kb_id : ℕ) (n : Option ℕ) (r : Reply IndexingReply) (db after : Db)
    → count_segments s kb_id n r db ≡ ok after
    → (after.documents ≡ db.documents) × Rows Same db.bases after.bases
unfolding Rows.add_chunk_count
counted-Same indexing kb_id n r db after h =
    subst (λ a. (a.documents ≡ db.documents) × Rows Same db.bases a.bases) (ok_inv h)
      (refl, Rows-refl Same unchanged db.bases)
counted-Same failed kb_id n r db after h =
    subst (λ a. (a.documents ≡ db.documents) × Rows Same db.bases a.bases) (ok_inv h)
      (refl, Rows-refl Same unchanged db.bases)
counted-Same completed kb_id n r db after h =
    let (m, asked, added) = bind_inv (owed_segments n r) _ after h in
    subst (λ a. (a.documents ≡ db.documents) × Rows Same db.bases a.bases) (ok_inv added)
      (
        refl,
        Rows-update Same unchanged (Rows.is_base kb_id)
            (λ k. record k { chunk_count = k.chunk_count + m }) db.bases
            (λ k e. record { kb_ids = refl; tenants = refl; datasets = refl }),
      )

record_lem :
    (kb_id : ℕ) (id : String) (s : DocumentStatus) (e : Option String) (n : Option ℕ)
    (r : Reply IndexingReply)
    → (db after : Db) (b : Bool) → record_terminal_status kb_id id s e n r db ≡ ok (b, after)
    → Recorded kb_id id s e db after
unfolding record_terminal_status Rows.transition_document_status Rows.refresh_indexing_status
record_lem kb_id id s e n r db after b h =
    let moved = (Rows.transition_document_status kb_id id s e none db).1 in
    elim (Bool-cases (Rows.transition_document_status kb_id id s e none db).0) [
      | inr t ↦
          subst (Recorded kb_id id s e db) (ap (λ p. p.1) (ok_inv (rw t at h)))
            (record { documents = refl; bases = Rows-refl Same unchanged db.bases })
      | inl t ↦
          let (counted, went, same) =
            bind_inv (count_segments s kb_id n r (Rows.refresh_indexing_status kb_id moved)) _
              (b, after) (rw t at h) in
          let (kept, more) =
            counted-Same s kb_id n r (Rows.refresh_indexing_status kb_id moved) counted went in
          subst (Recorded kb_id id s e db) (ap (λ p. p.1) (ok_inv same)) (record {
            documents = kept;
            bases =
                Rows-trans Same Same-trans db.bases (Rows.refresh_indexing_status kb_id moved).bases
                  counted.bases (refreshed-Same kb_id moved) more;
          })
    ]

emit_if-Recorded :
    (b : Bool) (events : List Event) {kb_id : ℕ} {id : String} {s : DocumentStatus}
    {e : Option String} (db after : Db)
    → Recorded kb_id id s e db after
    → Recorded kb_id id s e db (if b then emit events after else after)
emit_if-Recorded true events db after h = record { documents = h.documents; bases = h.bases }
emit_if-Recorded false events db after h = h

pub observe_lem :
    (kb_id : ℕ) (id : String) (r : IndexingReply) (db after : Db)
    → is_terminal (document_status r.indexing_status) ≡ true
    → observe kb_id id r db ≡ ok after
    → Recorded kb_id id (document_status r.indexing_status) r.error db after
unfolding observe
observe_lem kb_id id r db after t h =
    let s = document_status r.indexing_status in
    let ((b, recorded), went, same) =
      bind_inv (record_terminal_status kb_id id s r.error (held_segments s r) (replied r) db) _
        after (rw t at h) in
    subst (Recorded kb_id id s r.error db) (ok_inv same) (
      emit_if-Recorded b (terminal_event kb_id id s r.error ∷ []) db recorded
        (record_lem kb_id id s r.error (held_segments s r) (replied r) db recorded b went))
