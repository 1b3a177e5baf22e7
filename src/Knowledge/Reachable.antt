-- ===== src/Knowledge/Reachable.antt =====
-- The tables that the operations of apps/backend/app/services/knowledge.py lead to.
use eap.Prelude.{
  ℕ, String, Bool, true, false, not, ◌≡◌, refl, sym, ap, ◌∙◌, subst, ◌+◌, ◌==◌, ◌≤◌, Option, some,
  List, [], ◌∷◌, ◌++◌, arith, Bool-cases, some_inv, inl, inr, if◌then◌else◌,
}
use eap.Prelude.Table.{
  find, update, count, select, All, All-update, All-append, All-map, count-update,
}
use eap.Prelude.Query.{count-append}
use eap.Knowledge.Model.{
  DocumentStatus, indexing, failed, base_ready, KnowledgeBase, KnowledgeDocument, Db,
}
use eap.Knowledge.Rows
use eap.Knowledge.Requests.{enter}
use eap.Knowledge.Bases.{removed, is_nil}
use eap.Knowledge.Aggregate.{
  IsFolded, HasBase, Valid, Owed, Agree-update, Agree-select, Agree-append, refresh-Valid,
  Owed-documents, Valid-bases, aggregate-Agree,
}

module _ {ℓ} {A : Type ℓ} where
  pub one-le-found :
      (p key : A → Bool) (xs : List A) (x : A) → find key xs ≡ some x → p x ≡ true → 1 ≤ count p xs
  unfolding find count
  one-le-found p key [] x h k = cc
  one-le-found p key (y ∷ ys) x h k = elim (Bool-cases (key y)) [
    | inl e ↦
        let y_too = subst (λ z. p z ≡ true) (sym (some_inv (rw e at h))) k in rw y_too (omega arith)
    | inr e ↦ let rest = one-le-found p key ys x (rw e at h) k in omega arith
  ]

  All-selected :
      (P Q : A → Type 0) (keep : A → Bool) (xs : List A)
      → ((x : A) → keep x ≡ true → P x → Q x)
      → All P xs
      → All Q (select keep xs)
  unfolding select
  All-selected P Q keep [] f a = tt
  All-selected P Q keep (x ∷ xs) f a = elim (Bool-cases (keep x)) [
    | inl b ↦ rw b (f x b a.0, All-selected P Q keep xs f a.1)
    | inr b ↦ rw b (All-selected P Q keep xs f a.1)
  ]

insert-Owed :
    (kb_id : ℕ) (id name : String) (db : Db)
    → 1 ≤ count (Rows.is_base kb_id) db.bases
    → Valid db
    → Owed kb_id (Rows.insert_document kb_id id name db)
unfolding Rows.insert_document Valid
insert-Owed kb_id id name db there v =
    elim (Bool-cases (count (Rows.is_document kb_id id) db.documents == 0)) [
      | inl e ↦ rw e (
          Owed-documents kb_id db (db.documents ++ Rows.new_document kb_id id name ∷ []) v
            (Agree-append kb_id db.documents (Rows.new_document kb_id id name) (ground arith))
            (All-append (HasBase db.bases) db.documents (Rows.new_document kb_id id name ∷ []) v.1
              (there, tt)))
      | inr e ↦ rw e (
          Owed-documents kb_id db
            (update (Rows.is_document kb_id id) (λ d. record d { name = name }) db.documents) v
            (Agree-update kb_id (Rows.is_document kb_id id) (λ d. record d { name = name })
              db.documents (λ d b. ground arith) (λ d. refl))
            (All-update (HasBase db.bases) (Rows.is_document kb_id id)
              (λ d. record d { name = name }) db.documents (λ d b has. has) v.1))
    ]

counted :
    (kb_id : ℕ) (db : Db)
    → count (Rows.is_base kb_id) (Rows.add_document_count kb_id db).bases
      ≡ count (Rows.is_base kb_id) db.bases
unfolding Rows.add_document_count
counted kb_id db =
    count-update (Rows.is_base kb_id) (Rows.is_base kb_id)
      (λ k. record k { doc_count = k.doc_count + 1 }) db.bases (λ k. refl)

counted-Valid : (kb_id : ℕ) (db : Db) → Valid db → Valid (Rows.add_document_count kb_id db)
unfolding Rows.add_document_count
counted-Valid kb_id db v =
    Valid-bases db (Rows.is_base kb_id) (λ k. record k { doc_count = k.doc_count + 1 }) (λ k. refl)
      (λ k. refl) v

pub enter-Valid :
    (kb_id : ℕ) (id name : String) (db : Db)
    → 1 ≤ count (Rows.is_base kb_id) db.bases
    → Valid db
    → Valid (enter kb_id id name db)
unfolding enter
enter-Valid kb_id id name db there v =
    refresh-Valid kb_id (Rows.insert_document kb_id id name (Rows.add_document_count kb_id db)) (
      insert-Owed kb_id id name (Rows.add_document_count kb_id db)
        (subst (λ n. 1 ≤ n) (sym (counted kb_id db)) there) (counted-Valid kb_id db v))

count-select_other :
    (kb_id j : ℕ) (bases : List KnowledgeBase)
    → (j == kb_id) ≡ false
    → count (Rows.is_base j) (select (λ k. not (k.kb_id == kb_id)) bases)
      ≡ count (Rows.is_base j) bases
unfolding count select
count-select_other kb_id j [] e = refl
count-select_other kb_id j (k ∷ ks) e = elim (Bool-cases (k.kb_id == kb_id)) [
  | inl b ↦
      let off : Rows.is_base j k ≡ false = ground arith in
      rw (b, off) (omega (arith, count-select_other kb_id j ks e))
  | inr b ↦
      rw b (ap (λ n. (if Rows.is_base j k then 1 else 0) + n) (count-select_other kb_id j ks e))
]

delete-Valid : (kb_id : ℕ) (db : Db) → Valid db → Valid (Rows.delete kb_id db)
unfolding Rows.delete Valid
delete-Valid kb_id db (a, b) =
    let outside : KnowledgeDocument → Bool = λ d. not (d.kb_id == kb_id) in
    (
      All-selected (IsFolded db.documents) (IsFolded (select outside db.documents))
          (λ k. not (k.kb_id == kb_id)) db.bases
          (λ k e f.
            f
            ∙ aggregate-Agree kb_id k.kb_id db.documents (select outside db.documents)
                (Agree-select kb_id outside db.documents (λ d e. ground arith)) (ground arith))
          a,
      All-selected (HasBase db.bases) (HasBase (select (λ k. not (k.kb_id == kb_id)) db.bases))
          outside db.documents
          (λ d e has.
            subst (λ n. 1 ≤ n) (sym (count-select_other kb_id d.kb_id db.bases (ground arith))) has)
          b,
    )

unbound-Valid :
    (kb_id : ℕ) (db : Db) (b : Bool)
    → Valid db
    → Valid (if b then db else Rows.delete_bindings kb_id db)
unfolding Valid Rows.delete_bindings
unbound-Valid kb_id db true v = v
unbound-Valid kb_id db false v = v

pub removed-Valid : (kb : KnowledgeBase) (db : Db) → Valid db → Valid (removed kb db)
unfolding removed
removed-Valid kb db v =
    let unbound = is_nil (Rows.bindings_of kb.kb_id db) in
    delete-Valid kb.kb_id (if unbound then db else Rows.delete_bindings kb.kb_id db)
      (unbound-Valid kb.kb_id db unbound v)

no_documents :
    (kb_id : ℕ) (s : DocumentStatus) (bases : List KnowledgeBase) (ds : List KnowledgeDocument)
    → count (Rows.is_base kb_id) bases ≡ 0
    → All (HasBase bases) ds
    → count (Rows.is_in kb_id s) ds ≡ 0
unfolding count
no_documents kb_id s bases [] h a = refl
no_documents kb_id s bases (d ∷ ds) h a = elim (Bool-cases (Rows.is_in kb_id s d)) [
  | inl b ↦
      let same : d.kb_id ≡ kb_id = ground arith in
      let has = subst (λ i. 1 ≤ count (Rows.is_base i) bases) same a.0 in absurd (omega arith)
  | inr b ↦ rw b (ap (λ n. 0 + n) (no_documents kb_id s bases ds h a.1))
]

fresh_base :
    (kb_id : ℕ) (db : Db)
    → count (Rows.is_base kb_id) db.bases ≡ 0
    → All (HasBase db.bases) db.documents
    → base_ready ≡ Rows.aggregate kb_id db.documents
unfolding Rows.aggregate
fresh_base kb_id db fresh b =
    rw
      (
        no_documents kb_id indexing db.bases db.documents fresh b,
        no_documents kb_id failed db.bases db.documents fresh b,
      )
      refl

pub created-Valid :
    (kb_id tenant_id : ℕ) (dataset_id : String) (key : Option String) (name : String) (db : Db)
    → count (Rows.is_base kb_id) db.bases ≡ 0
    → Valid db
    → Valid (Rows.create kb_id tenant_id dataset_id key name db)
unfolding Rows.create Valid
created-Valid kb_id tenant_id dataset_id key name db fresh (a, b) =
    let kb : KnowledgeBase = record {
      kb_id = kb_id;
      tenant_id = tenant_id;
      dify_dataset_id = dataset_id;
      dify_api_key = key;
      name = name;
      indexing_status = base_ready;
      doc_count = 0;
      chunk_count = 0;
    } in
    (
      All-append (IsFolded db.documents) db.bases (kb ∷ []) a (fresh_base kb_id db fresh b, tt),
      All-map (HasBase db.bases) (HasBase (db.bases ++ kb ∷ [])) db.documents
          (λ d has.
            subst (λ n. 1 ≤ n) (sym (count-append (Rows.is_base d.kb_id) db.bases (kb ∷ [])))
              (omega arith))
          b,
    )
