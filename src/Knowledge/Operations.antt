-- ===== src/Knowledge/Operations.antt =====
-- Every operation of apps/backend/app/services/knowledge.py leaves the stored status of each
-- knowledge base equal to the one that its documents give.
use eap.Prelude.{
  ℕ, String, Bool, true, false, not, ◌&&◌, ◌≡◌, refl, sym, ap, ◌∙◌, subst, ◌+◌, ◌-◌, ◌==◌, ltb,
  Option, none, some, List, [], ◌∷◌, map, arith, Bool-cases, inl, inr, if◌then◌else◌,
}
use eap.Prelude.Table.{update, count, select, All, All-update, update-count_zero}
use eap.Errors.{ok, ok_inv, bind_inv, ◌>>=◌}
use eap.Knowledge.Model.{
  DocumentStatus, indexing, completed, failed, KnowledgeDocument, Db, Event, Reply, replied,
  IndexingReply, is_terminal,
}
use eap.Knowledge.Rows
use eap.Knowledge.Documents.{
  observe, record_terminal_status, count_segments, owed_segments, emit, document_status,
  held_segments, terminal_event,
}
use eap.Knowledge.Requests.{Observed, announced, record_listed_terminals, visit, record_all, retire}
use eap.Knowledge.Aggregate.{
  HasBase, Valid, Owed, Agree-update, Agree-select, All-select, refresh-Valid, Owed-documents,
  Valid-bases, Owed-bases,
}

pub emit-Valid : (events : List Event) (db : Db) → Valid db → Valid (emit events db)
unfolding Valid
emit-Valid events db h = h

in_base :
    (kb_id : ℕ) (id : String) (d : KnowledgeDocument)
    → Rows.is_document kb_id id d ≡ true
    → (d.kb_id == kb_id) ≡ true
in_base kb_id id d h = ground arith

owned : (db : Db) → Valid db → All (HasBase db.bases) db.documents
unfolding Valid
owned db h = h.1

transition-Owed :
    (kb_id : ℕ) (id : String) (s : DocumentStatus) (e : Option String)
    (from : Option DocumentStatus) (db : Db)
    → Valid db
    → Owed kb_id (Rows.transition_document_status kb_id id s e from db).1
unfolding Rows.transition_document_status
transition-Owed kb_id id s e from db h =
    let keep = Rows.is_moved kb_id id s from in
    let set : KnowledgeDocument → KnowledgeDocument = λ d. record d { status = s; error = e } in
    Owed-documents kb_id db (update keep set db.documents) h
      (Agree-update kb_id keep set db.documents (λ d b. ground arith) (λ d. refl))
      (All-update (HasBase db.bases) keep set db.documents (λ d b has. has) (owned db h))

-- an update that matches no row
pub transition-still :
    (kb_id : ℕ) (id : String) (s : DocumentStatus) (e : Option String)
    (from : Option DocumentStatus) (db : Db)
    → (Rows.transition_document_status kb_id id s e from db).0 ≡ false
    → (Rows.transition_document_status kb_id id s e from db).1 ≡ db
unfolding Rows.transition_document_status
transition-still kb_id id s e from db h =
    ap (λ ds. record db { documents = ds })
      (update-count_zero (Rows.is_moved kb_id id s from) (λ d. record d { status = s; error = e })
        db.documents (ground arith))

count_segments-Valid :
    (s : DocumentStatus) (kb_id : ℕ) (n : Option ℕ) (r : Reply IndexingReply) (db db' : Db)
    → count_segments s kb_id n r db ≡ ok db'
    → Valid db
    → Valid db'
unfolding Rows.add_chunk_count
count_segments-Valid indexing kb_id n r db db' h v = subst Valid (ok_inv h) v
count_segments-Valid failed kb_id n r db db' h v = subst Valid (ok_inv h) v
count_segments-Valid completed kb_id n r db db' h v =
    let (m, asked, counted) =
      bind_inv (owed_segments n r) (λ n. ok (Rows.add_chunk_count kb_id n db)) db' h in
    subst Valid (ok_inv counted) (
      Valid-bases db (Rows.is_base kb_id) (λ k. record k { chunk_count = k.chunk_count + m })
        (λ k. refl) (λ k. refl) v)

record-Valid :
    (kb_id : ℕ) (id : String) (s : DocumentStatus) (e : Option String) (n : Option ℕ)
    (r : Reply IndexingReply)
    → (db db' : Db) (b : Bool) → record_terminal_status kb_id id s e n r db ≡ ok (b, db')
    → Valid db
    → Valid db'
unfolding record_terminal_status
record-Valid kb_id id s e n r db db' b h v =
    let moved = (Rows.transition_document_status kb_id id s e none db).1 in
    elim (Bool-cases (Rows.transition_document_status kb_id id s e none db).0) [
      | inl t ↦
          let (counted, went, same) =
            bind_inv (count_segments s kb_id n r (Rows.refresh_indexing_status kb_id moved))
              (λ counted. ok (true, counted)) (b, db') (rw t at h) in
          subst Valid (ap (λ p. p.1) (ok_inv same)) (
            count_segments-Valid s kb_id n r (Rows.refresh_indexing_status kb_id moved) counted went
              (refresh-Valid kb_id moved (transition-Owed kb_id id s e none db v)))
      | inr t ↦
          subst Valid
            (sym (transition-still kb_id id s e none db t) ∙ ap (λ p. p.1) (ok_inv (rw t at h))) v
    ]

emit_if-Valid :
    (b : Bool) (events : List Event) (db : Db) → Valid db → Valid (if b then emit events db else db)
emit_if-Valid true events db h = emit-Valid events db h
emit_if-Valid false events db h = h

pub observe-Valid :
    (kb_id : ℕ) (id : String) (r : IndexingReply) (db db' : Db)
    → observe kb_id id r db ≡ ok db'
    → Valid db
    → Valid db'
unfolding observe
observe-Valid kb_id id r db db' h v =
    elim (Bool-cases (is_terminal (document_status r.indexing_status))) [
      | inr t ↦ subst Valid (ok_inv (rw t at h)) v
      | inl t ↦
          let status = document_status r.indexing_status in
          let ((transitioned, recorded), went, same) =
            bind_inv
              (record_terminal_status kb_id id status r.error (held_segments status r) (replied r)
                db)
              (λ (transitioned, recorded). ok (
                if transitioned
                then emit (terminal_event kb_id id status r.error ∷ []) recorded
                else recorded))
              db' (rw t at h) in
          let kept =
            record-Valid kb_id id status r.error (held_segments status r) (replied r) db recorded
              transitioned went v in
          subst Valid (ok_inv same)
            (emit_if-Valid transitioned (terminal_event kb_id id status r.error ∷ []) recorded kept)
    ]

visit-Valid :
    (kb_id : ℕ) (of : String → Reply IndexingReply) (o : Observed) (db db' : Db) (b : Bool)
    → visit kb_id of o db ≡ ok (b, db')
    → Valid db
    → Valid db'
visit-Valid kb_id of o db db' b h v = elim (Bool-cases (is_terminal o.status)) [
  | inr t ↦ subst Valid (ap (λ p. p.1) (ok_inv (rw t at h))) v
  | inl t ↦ record-Valid kb_id o.id o.status o.error none (of o.id) db db' b (rw t at h) v
]

record_all-Valid :
    (kb_id : ℕ) (of : String → Reply IndexingReply) (os : List Observed) (db db' : Db)
    (ps : List Observed)
    → record_all kb_id of os db ≡ ok (ps, db')
    → Valid db
    → Valid db'
unfolding record_all
record_all-Valid kb_id of [] db db' ps h v = subst Valid (ap (λ p. p.1) (ok_inv h)) v
record_all-Valid kb_id of (o ∷ os) db db' ps h v =
    let ((transitioned, recorded), went, rest) =
      bind_inv (visit kb_id of o db)
        (λ (transitioned, recorded).
          record_all kb_id of os recorded
          >>= (λ (others, all). ok ((if transitioned then o ∷ others else others), all)))
        (ps, db') h in
    let ((others, all), went_on, same) =
      bind_inv (record_all kb_id of os recorded)
        (λ (others, all). ok ((if transitioned then o ∷ others else others), all)) (ps, db') rest in
    subst Valid (ap (λ p. p.1) (ok_inv same)) (
      record_all-Valid kb_id of os recorded all others went_on
        (visit-Valid kb_id of o db recorded transitioned went v))

pub listed-Valid :
    (kb_id : ℕ) (of : String → Reply IndexingReply) (os : List Observed) (db db' : Db)
    → record_listed_terminals kb_id of os db ≡ ok db'
    → Valid db
    → Valid db'
unfolding record_listed_terminals
listed-Valid kb_id of os db db' h v =
    let ((recorded, all), went, same) =
      bind_inv (record_all kb_id of os db)
        (λ (recorded, all). ok (emit (map (announced kb_id) recorded) all)) db' h in
    subst Valid (ok_inv same) (
      emit-Valid (map (announced kb_id) recorded) all
        (record_all-Valid kb_id of os db all recorded went v))

pub retried-Valid :
    (kb_id : ℕ) (id : String) (db : Db)
    → Valid db
    → Valid (
        Rows.refresh_indexing_status kb_id
          (Rows.transition_document_status kb_id id indexing none (some failed) db).1)
retried-Valid kb_id id db v =
    refresh-Valid kb_id (Rows.transition_document_status kb_id id indexing none (some failed) db).1
      (transition-Owed kb_id id indexing none (some failed) db v)

select_none :
    (p : KnowledgeDocument → Bool) (ds : List KnowledgeDocument)
    → count p ds ≡ 0
    → select (λ d. not (p d)) ds ≡ ds
unfolding select count
select_none p [] h = refl
select_none p (d ∷ ds) h = elim (Bool-cases (p d)) [
  | inl b ↦ absurd (ground arith)
  | inr b ↦ rw b (ap (◌∷◌ d) (select_none p ds (ground arith)))
]

pub retire-Valid :
    (kb_id : ℕ) (id : String) (n : ℕ) (db : Db) → Valid db → Valid (retire kb_id id n db)
unfolding retire Rows.delete_document Rows.release_document_counts
retire-Valid kb_id id n db v =
    let keep : KnowledgeDocument → Bool = λ d. not (Rows.is_document kb_id id d) in
    elim (Bool-cases (count (Rows.is_document kb_id id) db.documents == 0)) [
      | inl none_there ↦ rw none_there (
          subst Valid
            (sym (
              ap (λ ds. record db { documents = ds })
                (select_none (Rows.is_document kb_id id) db.documents (ground arith))))
            v)
      | inr there ↦
          let es = select keep db.documents in
          let gone = record db { documents = es } in
          rw there (
            refresh-Valid kb_id (Rows.release_document_counts kb_id n gone) (
              Owed-bases kb_id
                (record gone {
                  bases =
                      update (λ k. Rows.is_base kb_id k && ltb 0 k.doc_count)
                        (λ k. record k { doc_count = k.doc_count - 1 }) db.bases;
                })
                (Rows.is_base kb_id) (λ k. record k { chunk_count = k.chunk_count - n }) (λ k. refl)
                (λ k. refl)
                (Owed-bases kb_id gone (λ k. Rows.is_base kb_id k && ltb 0 k.doc_count)
                  (λ k. record k { doc_count = k.doc_count - 1 }) (λ k. refl) (λ k. refl)
                  (Owed-documents kb_id db es v
                    (Agree-select kb_id keep db.documents (λ d b. ground arith))
                    (All-select (HasBase db.bases) keep db.documents (owned db v))))))
    ]
