-- ===== src/Knowledge/Answers.antt =====
-- A read of a document's status answers what its row then holds; a creation that fails leaves nothing.
use eap.Prelude.{
  ℕ, String, Bool, true, false, ◌&&◌, ◌≡◌, refl, sym, ap, ◌∙◌, subst, ◌==◌, Option, none, some,
  List, [], arith, Bool-cases, Option-cases, some_inv, inl, inr, if◌then◌else◌,
}
use eap.Prelude.Table.{find, find-keep, find-update, update}
use eap.Errors.{ok, err, AppError, ok_inv, bind_inv, then_inv}
use eap.Knowledge.Model.{
  DocumentStatus, indexing, completed, failed, KnowledgeDocument, Db, IndexingReply, Reply,
  uncaught, is_terminal, replied, refused, lost, KnowledgeBase,
}
use eap.Knowledge.Rows
use eap.Knowledge.Documents.{
  observe, require_kb, get_document_status, require_document_id, document_status, answered_status,
}
use eap.Knowledge.Bases.{
  create, Entry, written, dify_failed, write_failed, entered, creation_error, dataset_created,
}
use eap.Knowledge.Steps.{require_kb-found}
use eap.Knowledge.Recorded.{observe_lem}
use eap.Knowledge.Observations.{answered-terminal, same_status-eq}

not_terminal : (s : DocumentStatus) → is_terminal s ≡ false → s ≡ indexing
not_terminal indexing h = refl
not_terminal completed h = cc
not_terminal failed h = cc

answered_open :
    (d : KnowledgeDocument) (s : DocumentStatus) (e : Option String)
    → is_terminal s ≡ false
    → (answered_status (some d) s e).0 ≡ d.status
unfolding answered_status
answered_open d s e t = elim (Bool-cases (is_terminal d.status)) [
  | inl b ↦ rw (t, b) refl
  | inr b ↦ rw (t, b) (not_terminal s t ∙ sym (not_terminal d.status b))
]

held :
    (kb_id : ℕ) (id : String) (s : DocumentStatus) (e : Option String) (x : KnowledgeDocument)
    → Rows.is_document kb_id id x ≡ true
    → (if Rows.is_moved kb_id id s none x then record x { status = s; error = e } else x).status ≡ s
held kb_id id s e x h = elim (Bool-cases (Rows.is_moved kb_id id s none x)) [
  | inl b ↦ rw b refl
  | inr b ↦ rw b (same_status-eq x.status s (ground arith))
]

-- the row that is found after a terminal status was recorded holds it
moved_status :
    (kb_id : ℕ) (id : String) (s : DocumentStatus) (e : Option String) (ds : List KnowledgeDocument)
    (d : KnowledgeDocument)
    → find
        (Rows.is_document kb_id id)
        (update (Rows.is_moved kb_id id s none) (λ d. record d { status = s; error = e }) ds)
      ≡ some d
    → d.status ≡ s
moved_status kb_id id s e ds d h =
    let set : KnowledgeDocument → KnowledgeDocument = λ d. record d { status = s; error = e } in
    let h2 =
      sym
        (find-update (Rows.is_document kb_id id) (Rows.is_moved kb_id id s none) set ds (λ d. refl))
      ∙ h in
    elim (Option-cases (find (Rows.is_document kb_id id) ds)) [
      | inl f ↦ cc (rw f at h2)
      | inr (x, f) ↦
          subst (λ d. d.status ≡ s) (some_inv (rw f at h2))
            (held kb_id id s e x (find-keep (Rows.is_document kb_id id) ds x f))
    ]

observe-answer :
    (kb_id : ℕ) (id : String) (r : IndexingReply) (db after : Db) (d : KnowledgeDocument)
    → observe kb_id id r db ≡ ok after
    → Rows.get_document kb_id id after ≡ some d
    → (answered_status
        (Rows.get_document kb_id id db)
        (document_status r.indexing_status)
        r.error).0
      ≡ d.status
unfolding observe Rows.get_document
observe-answer kb_id id r db after d h f =
    let s = document_status r.indexing_status in
    elim (Bool-cases (is_terminal s)) [
      | inl t ↦
          ap (λ a. a.0) (answered-terminal (Rows.get_document kb_id id db) s r.error t)
          ∙ sym (
              moved_status kb_id id s r.error db.documents d (
                subst (λ ds. find (Rows.is_document kb_id id) ds ≡ some d)
                  (observe_lem kb_id id r db after t h).documents f))
      | inr t ↦
          let before =
            subst (λ a. Rows.get_document kb_id id a ≡ some d) (sym (ok_inv (rw t at h))) f in
          ap (λ o. (answered_status o s r.error).0) before ∙ answered_open d s r.error t
    ]

-- What a read of a document's status answers is what the document's row holds once the request is
-- done, if the document has one: an unfinished state of Dify's never answers a document that reached
-- an end, and an end that is answered is recorded.
pub status-recorded :
    (tenant_id kb_id : ℕ) (id : String) (status_of : String → String → Reply IndexingReply)
    (db after : Db)
    → (answer : DocumentStatus × Option String) (d : KnowledgeDocument)
    → get_document_status tenant_id kb_id id status_of db ≡ ok (answer, after)
    → Rows.get_document kb_id id after ≡ some d
    → answer.0 ≡ d.status
unfolding get_document_status Rows.get_for_tenant
status-recorded tenant_id kb_id id status_of db after answer d h f =
    let (k, found, rest) = bind_inv (require_kb tenant_id kb_id db) _ (answer, after) h in
    let (r, asked, kept) =
      bind_inv (uncaught (status_of k.dify_dataset_id id)) _ (answer, after)
        (then_inv (require_document_id id) _ (answer, after) rest) in
    let (recorded, went, same) = bind_inv (observe k.kb_id id r db) _ (answer, after) kept in
    let there =
      find-keep (λ k. k.kb_id == kb_id && k.tenant_id == tenant_id) db.bases k
        (require_kb-found tenant_id kb_id db k found) in
    let its_id : kb_id ≡ k.kb_id = ground arith in
    ap (λ p. p.0.0) (sym (ok_inv same))
    ∙ observe-answer k.kb_id id r db recorded d went (
        subst (λ i. Rows.get_document i id recorded ≡ some d) its_id
          (subst (λ a. Rows.get_document kb_id id a ≡ some d) (sym (ap (λ p. p.1) (ok_inv same)))
            f))

entered_error :
    (tenant_id : ℕ) (name : String) (kb_id : ℕ) (dataset_id : String) (entry : Entry) (db : Db)
    (e : AppError)
    → (entered tenant_id name kb_id dataset_id true entry db).answer ≡ err e
    → ((entered tenant_id name kb_id dataset_id true entry db).db ≡ db)
      × ((entered tenant_id name kb_id dataset_id true entry db).datasets ≡ [])
entered_error tenant_id name kb_id dataset_id (written key) db e h = cc
entered_error tenant_id name kb_id dataset_id dify_failed db e h = (refl, refl)
entered_error tenant_id name kb_id dataset_id write_failed db e h = (refl, refl)

-- whether a creation never called Dify, or was told the id of its dataset
abbrev pub is_compensated : Option KnowledgeBase → Reply String → Bool
is_compensated (some k) dataset = true
is_compensated none (replied dataset_id) = true
is_compensated none _ = false

-- A creation that answers an error leaves no row and no event. If Dify performs the compensating
-- deletion, the creation leaves no dataset there either, unless the call for the dataset itself failed:
-- then whatever Dify had made for that call stays.
pub create-undone :
    (tenant_id : ℕ) (name : String) (kb_id : ℕ) (dataset : Reply String) (orphans : List String)
    (entry : Entry) (db : Db) (e : AppError)
    → (create tenant_id name kb_id dataset orphans true entry db).answer ≡ err e
    → ((create tenant_id name kb_id dataset orphans true entry db).db ≡ db)
      × ((create tenant_id name kb_id dataset orphans true entry db).datasets ≡ (
          if is_compensated (Rows.get_by_name_for_tenant tenant_id name db) dataset
          then []
          else orphans))
unfolding create
create-undone tenant_id name kb_id dataset orphans entry db e h =
    elim (Option-cases (Rows.get_by_name_for_tenant tenant_id name db)) [
      | inr (k, f) ↦ rw (create, f) (refl, refl)
      | inl f ↦ rw (create, f) (called dataset (rw (create, f) at h))
    ]
  where
    called :
        (r : Reply String)
        → (dataset_created tenant_id name kb_id orphans true entry (creation_error r) db).answer
          ≡ err e
        → ((dataset_created tenant_id name kb_id orphans true entry (creation_error r) db).db ≡ db)
          × ((dataset_created tenant_id name kb_id orphans true entry
                (creation_error r)
                db).datasets
              ≡ (if is_compensated none r then [] else orphans))
    called (replied id) k = entered_error tenant_id name kb_id id entry db e k
    called (refused status) k = (refl, refl)
    called lost k = (refl, refl)
