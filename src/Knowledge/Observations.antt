-- ===== src/Knowledge/Observations.antt =====
-- What reading a document's status records, answers and counts.
use eap.Prelude.{
  ℕ, String, Bool, true, false, ◌&&◌, ◌≡◌, refl, sym, ap, ◌∙◌, subst, ◌+◌, ◌==◌, Option, none, some,
  List, [], ◌∷◌, arith, Bool-cases, inl, inr,
}
use eap.Prelude.Table.{update, count, Rows, Rows-refl, Rows-find}
use eap.Errors.{ok, ok_inv, bind_inv, then_inv, Result-cases}
use eap.Knowledge.Model.{
  DocumentStatus, indexing, completed, failed, KnowledgeBase, KnowledgeDocument, Db, IndexingReply,
  Reply, replied, uncaught, is_terminal, same_status,
}
use eap.Knowledge.Rows
use eap.Knowledge.Documents.{
  observe, require_kb, read_status, get_document_status, require_document_id, document_status,
  answered_status, record_terminal_status, held_segments,
}
use eap.Knowledge.Operations.{transition-still}
use eap.Knowledge.Steps.{require_kb-found}
use eap.Knowledge.Recorded.{Same, unchanged, observe_lem}

same_status_refl : (s : DocumentStatus) → same_status s s ≡ true
same_status_refl indexing = refl
same_status_refl completed = refl
same_status_refl failed = refl

pub same_status-eq : (s t : DocumentStatus) → same_status s t ≡ true → s ≡ t
same_status-eq indexing indexing h = refl
same_status-eq completed completed h = refl
same_status-eq failed failed h = refl
same_status-eq indexing completed h = cc
same_status-eq indexing failed h = cc
same_status-eq completed indexing h = cc
same_status-eq completed failed h = cc
same_status-eq failed indexing h = cc
same_status-eq failed completed h = cc

-- an update after which no row meets its test again
count-update_self :
    (keep : KnowledgeDocument → Bool) (set : KnowledgeDocument → KnowledgeDocument)
    (ds : List KnowledgeDocument)
    → ((d : KnowledgeDocument) → keep (set d) ≡ false)
    → count keep (update keep set ds) ≡ 0
unfolding count update
count-update_self keep set [] h = refl
count-update_self keep set (d ∷ ds) h = elim (Bool-cases (keep d)) [
  | inl b ↦ rw (b, h d) (ap (λ n. 0 + n) (count-update_self keep set ds h))
  | inr b ↦ rw (b, b) (ap (λ n. 0 + n) (count-update_self keep set ds h))
]

set-guard :
    (kb_id : ℕ) (id : String) (s : DocumentStatus) (e : Option String) (d : KnowledgeDocument)
    → Rows.is_moved kb_id id s none (record d { status = s; error = e }) ≡ false
set-guard kb_id id s e d = rw (same_status_refl s) (ground arith)

transition-none :
    (kb_id : ℕ) (id : String) (s : DocumentStatus) (e : Option String) (db : Db)
    → count (Rows.is_moved kb_id id s none) db.documents ≡ 0
    → (Rows.transition_document_status kb_id id s e none db).0 ≡ false
unfolding Rows.transition_document_status
transition-none kb_id id s e db h = rw h refl

record-none :
    (kb_id : ℕ) (id : String) (s : DocumentStatus) (e : Option String) (n : Option ℕ)
    (r : Reply IndexingReply) (db : Db)
    → (Rows.transition_document_status kb_id id s e none db).0 ≡ false
    → record_terminal_status kb_id id s e n r db ≡ ok (false, db)
unfolding record_terminal_status
record-none kb_id id s e n r db h =
    rw h (ap (λ d. ok (false, d)) (transition-still kb_id id s e none db h))

-- a second read of a terminal status finds it recorded
observe-again :
    (kb_id : ℕ) (id : String) (r : IndexingReply) (db after : Db)
    → observe kb_id id r db ≡ ok after
    → observe kb_id id r after ≡ ok after
unfolding observe
observe-again kb_id id r db after h =
    elim (Bool-cases (is_terminal (document_status r.indexing_status))) [
      | inr t ↦ rw t refl
      | inl t ↦
          let s = document_status r.indexing_status in
          let none_left : count (Rows.is_moved kb_id id s none) after.documents ≡ 0 =
            rw ((observe_lem kb_id id r db after t h).documents) (
              count-update_self (Rows.is_moved kb_id id s none)
                (λ d. record d { status = s; error = r.error }) db.documents
                (λ d. set-guard kb_id id s r.error d)) in
          rw
            (
              t,
              record-none kb_id id s r.error (held_segments s r) (replied r) after
                  (transition-none kb_id id s r.error after none_left),
            )
            refl
    ]

observed-Same :
    (kb_id : ℕ) (id : String) (r : IndexingReply) (db after : Db)
    → observe kb_id id r db ≡ ok after
    → Rows Same db.bases after.bases
unfolding observe
observed-Same kb_id id r db after h =
    elim (Bool-cases (is_terminal (document_status r.indexing_status))) [
      | inl t ↦ (observe_lem kb_id id r db after t h).bases
      | inr t ↦
          subst (λ a. Rows Same db.bases a.bases) (ok_inv (rw t at h))
            (Rows-refl Same unchanged db.bases)
    ]

-- the base of a request is found again
required_again :
    (tenant_id kb_id : ℕ) (db after : Db) (k : KnowledgeBase)
    → Rows Same db.bases after.bases
    → require_kb tenant_id kb_id db ≡ ok k
    → (l : KnowledgeBase) × (require_kb tenant_id kb_id after ≡ ok l) × Same k l
unfolding require_kb Rows.get_for_tenant
required_again tenant_id kb_id db after k same h =
    let (l, found, kept) =
      Rows-find Same (λ k. k.kb_id == kb_id && k.tenant_id == tenant_id)
        (λ x y s. rw (s.kb_ids, s.tenants) refl) db.bases after.bases k same
        (require_kb-found tenant_id kb_id db k h) in
    (l, rw (require_kb, found) refl, kept)

pub answered-terminal :
    (o : Option KnowledgeDocument) (s : DocumentStatus) (e : Option String)
    → is_terminal s ≡ true
    → answered_status o s e ≡ (s, e)
unfolding answered_status
answered-terminal none s e t = refl
answered-terminal (some d) s e t = rw t refl

answered-again :
    (kb_id : ℕ) (id : String) (r : IndexingReply) (db after : Db)
    → observe kb_id id r db ≡ ok after
    → answered_status (Rows.get_document kb_id id after) (document_status r.indexing_status) r.error
      ≡ answered_status (Rows.get_document kb_id id db) (document_status r.indexing_status) r.error
unfolding observe answered_status
answered-again kb_id id r db after h =
    let s = document_status r.indexing_status in
    elim (Bool-cases (is_terminal s)) [
      | inl t ↦
          answered-terminal (Rows.get_document kb_id id after) s r.error t
          ∙ sym (answered-terminal (Rows.get_document kb_id id db) s r.error t)
      | inr t ↦
          ap (λ d. answered_status (Rows.get_document kb_id id d) s r.error)
            (sym (ok_inv (rw t at h)))
    ]

read_status-again :
    (kb_id : ℕ) (dataset_id id : String) (status_of : String → String → Reply IndexingReply)
    (db after : Db)
    → (answer : DocumentStatus × Option String)
    → read_status kb_id dataset_id id status_of db ≡ ok (answer, after)
    → read_status kb_id dataset_id id status_of after ≡ ok (answer, after)
read_status-again kb_id dataset_id id status_of db after answer h =
    elim (Result-cases (require_document_id id)) [
      | inl (raised, e) ↦ cc (rw e at h)
      | inr e ↦
          let (r, asked, kept) =
            bind_inv (uncaught (status_of dataset_id id)) _ (answer, after) (rw e at h) in
          let (recorded, went, same) = bind_inv (observe kb_id id r db) _ (answer, after) kept in
          let to_after : recorded ≡ after = ap (λ p. p.1) (ok_inv same) in
          let seen = subst (λ d. observe kb_id id r db ≡ ok d) to_after went in
          rw (e, asked, observe-again kb_id id r db after seen)
            (ap (λ a. ok (a, after))
              (answered-again kb_id id r db after seen ∙ ap (λ p. p.0) (ok_inv same)))
    ]

-- When Dify is read twice and answers the same about a document both times, the second request
-- answers what the first one answered and leaves the tables and the events as they are: no segments
-- are counted again and no event is emitted again.
pub get_document_status-again :
    (tenant_id kb_id : ℕ) (id : String) (status_of : String → String → Reply IndexingReply)
    (db after : Db)
    → (answer : DocumentStatus × Option String)
    → get_document_status tenant_id kb_id id status_of db ≡ ok (answer, after)
    → get_document_status tenant_id kb_id id status_of after ≡ ok (answer, after)
unfolding get_document_status
get_document_status-again tenant_id kb_id id status_of db after answer h =
    let (k, found, rest) = bind_inv (require_kb tenant_id kb_id db) _ (answer, after) h in
    let (r, asked, kept) =
      bind_inv (uncaught (status_of k.dify_dataset_id id)) _ (answer, after)
        (then_inv (require_document_id id) _ (answer, after) rest) in
    let (recorded, went, same) = bind_inv (observe k.kb_id id r db) _ (answer, after) kept in
    let bases =
      subst (λ d. Rows Same db.bases d.bases) (ap (λ p. p.1) (ok_inv same))
        (observed-Same k.kb_id id r db recorded went) in
    let (l, there, alike) = required_again tenant_id kb_id db after k bases found in
    rw there (
      ap (λ i. read_status i l.dify_dataset_id id status_of after) alike.kb_ids
      ∙ ap (λ d. read_status k.kb_id d id status_of after) alike.datasets
      ∙ read_status-again k.kb_id k.dify_dataset_id id status_of db after answer rest)
