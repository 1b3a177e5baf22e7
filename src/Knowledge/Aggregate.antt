-- ===== src/Knowledge/Aggregate.antt =====
-- The stored status of a knowledge base is the one that its documents give.
use eap.Prelude.{
  ℕ, Bool, true, false, ◌≡◌, refl, sym, ap, ◌∙◌, subst, ◌+◌, ◌==◌, ◌≤◌, List, [], ◌∷◌, ◌++◌, arith,
  Bool-cases, inl, inr, if◌then◌else◌,
}
use eap.Prelude.Table.{update, count, select, All, All-update, All-map, count-update}
use eap.Prelude.Query.{count-append}
use eap.Knowledge.Model.{DocumentStatus, indexing, failed, KnowledgeBase, KnowledgeDocument, Db}
use eap.Knowledge.Rows

abbrev pub IsFolded : List KnowledgeDocument → KnowledgeBase → Type 0
IsFolded documents k = k.indexing_status ≡ Rows.aggregate k.kb_id documents

-- every document belongs to a knowledge base
abbrev pub HasBase : List KnowledgeBase → KnowledgeDocument → Type 0
HasBase bases d = 1 ≤ count (Rows.is_base d.kb_id) bases

unfoldable pub Valid : Db → Type 0
Valid db = All (IsFolded db.documents) db.bases × All (HasBase db.bases) db.documents

-- the bases but one are folded
abbrev Others : ℕ → List KnowledgeDocument → KnowledgeBase → Type 0
Others kb_id documents k = (k.kb_id == kb_id) ≡ false → IsFolded documents k

-- two lists of documents with the same rows outside of one knowledge base, as far as their status goes
pub Agree : ℕ → List KnowledgeDocument → List KnowledgeDocument → Type 0
Agree kb_id ds es =
    (j : ℕ) (s : DocumentStatus)
    → (j == kb_id) ≡ false
    → count (Rows.is_in j s) ds ≡ count (Rows.is_in j s) es

pub aggregate-Agree :
    (kb_id j : ℕ) (ds es : List KnowledgeDocument)
    → Agree kb_id ds es
    → (j == kb_id) ≡ false
    → Rows.aggregate j ds ≡ Rows.aggregate j es
unfolding Rows.aggregate Agree
aggregate-Agree kb_id j ds es h e = rw (h j indexing e, h j failed e) refl

Others-Agree :
    (kb_id : ℕ) (ds es : List KnowledgeDocument) (bases : List KnowledgeBase)
    → Agree kb_id ds es
    → All (IsFolded ds) bases
    → All (Others kb_id es) bases
Others-Agree kb_id ds es bases h a =
    All-map (IsFolded ds) (Others kb_id es) bases
      (λ k f e. f ∙ aggregate-Agree kb_id k.kb_id ds es h e) a

refresh-IsFolded :
    (kb_id : ℕ) (documents : List KnowledgeDocument) (bases : List KnowledgeBase)
    → All (Others kb_id documents) bases
    → All (IsFolded documents) (
        update
          (Rows.is_base kb_id)
          (λ k. record k { indexing_status = Rows.aggregate kb_id documents })
          bases)
unfolding update
refresh-IsFolded kb_id documents [] a = tt
refresh-IsFolded kb_id documents (k ∷ ks) a = elim (Bool-cases (k.kb_id == kb_id)) [
  | inl e ↦
      let same : k.kb_id ≡ kb_id = ground arith in
      rw e
        (ap (λ i. Rows.aggregate i documents) (sym same), refresh-IsFolded kb_id documents ks a.1)
  | inr e ↦ rw e (a.0 e, refresh-IsFolded kb_id documents ks a.1)
]

is_in-other :
    (kb_id j : ℕ) (s : DocumentStatus) (d : KnowledgeDocument)
    → (d.kb_id == kb_id) ≡ true
    → (j == kb_id) ≡ false
    → Rows.is_in j s d ≡ false
is_in-other kb_id j s d h e = ground arith

pub Agree-update :
    (kb_id : ℕ) (keep : KnowledgeDocument → Bool) (set : KnowledgeDocument → KnowledgeDocument)
    → (ds : List KnowledgeDocument)
    → ((d : KnowledgeDocument) → keep d ≡ true → (d.kb_id == kb_id) ≡ true)
    → ((d : KnowledgeDocument) → (set d).kb_id ≡ d.kb_id)
    → Agree kb_id ds (update keep set ds)
unfolding Agree update count
Agree-update kb_id keep set [] h k j s e = refl
Agree-update kb_id keep set (d ∷ ds) h k j s e = elim (Bool-cases (keep d)) [
  | inl b ↦
      rw
        (
          b,
          is_in-other kb_id j s d (h d b) e,
          is_in-other kb_id j s (set d) (ap (λ i. i == kb_id) (k d) ∙ h d b) e,
        )
        (ap (λ n. 0 + n) (Agree-update kb_id keep set ds h k j s e))
  | inr b ↦
      rw b (
        ap (λ n. (if Rows.is_in j s d then 1 else 0) + n)
          (Agree-update kb_id keep set ds h k j s e))
]

pub Agree-select :
    (kb_id : ℕ) (keep : KnowledgeDocument → Bool) (ds : List KnowledgeDocument)
    → ((d : KnowledgeDocument) → keep d ≡ false → (d.kb_id == kb_id) ≡ true)
    → Agree kb_id ds (select keep ds)
unfolding Agree select count
Agree-select kb_id keep [] h j s e = refl
Agree-select kb_id keep (d ∷ ds) h j s e = elim (Bool-cases (keep d)) [
  | inl b ↦
      rw b (ap (λ n. (if Rows.is_in j s d then 1 else 0) + n) (Agree-select kb_id keep ds h j s e))
  | inr b ↦
      rw (b, is_in-other kb_id j s d (h d b) e) (omega (arith, Agree-select kb_id keep ds h j s e))
]

pub Agree-append :
    (kb_id : ℕ) (ds : List KnowledgeDocument) (d : KnowledgeDocument)
    → (d.kb_id == kb_id) ≡ true
    → Agree kb_id ds (ds ++ d ∷ [])
unfolding Agree count
Agree-append kb_id ds d h j s e =
    rw (count-append (Rows.is_in j s) ds (d ∷ []), is_in-other kb_id j s d h e) (omega arith)

pub All-select :
    (P : KnowledgeDocument → Type 0) (keep : KnowledgeDocument → Bool) (ds : List KnowledgeDocument)
    → All P ds
    → All P (select keep ds)
unfolding select
All-select P keep [] a = tt
All-select P keep (d ∷ ds) a = elim (Bool-cases (keep d)) [
  | inl b ↦ rw b (a.0, All-select P keep ds a.1)
  | inr b ↦ rw b (All-select P keep ds a.1)
]

module _ (set : KnowledgeBase → KnowledgeBase)
    (ids : (k : KnowledgeBase) → (set k).kb_id ≡ k.kb_id) where
  HasBase-update :
      (keep : KnowledgeBase → Bool) (bases : List KnowledgeBase) (ds : List KnowledgeDocument)
      → All (HasBase bases) ds
      → All (HasBase (update keep set bases)) ds
  HasBase-update keep bases ds a =
      All-map (HasBase bases) (HasBase (update keep set bases)) ds
        (λ d h.
          subst (λ n. 1 ≤ n)
            (sym (
              count-update (Rows.is_base d.kb_id) keep set bases
                (λ k. ap (λ i. i == d.kb_id) (ids k))))
            h)
        a

-- what holds of the tables while the status of one knowledge base is owed
unfoldable pub Owed : ℕ → Db → Type 0
Owed kb_id db = All (Others kb_id db.documents) db.bases × All (HasBase db.bases) db.documents

pub refresh-Valid :
    (kb_id : ℕ) (db : Db) → Owed kb_id db → Valid (Rows.refresh_indexing_status kb_id db)
unfolding Valid Owed Rows.refresh_indexing_status
refresh-Valid kb_id db (a, b) = (
  refresh-IsFolded kb_id db.documents db.bases a,
  HasBase-update (λ k. record k { indexing_status = Rows.aggregate kb_id db.documents }) (λ k. refl)
      (Rows.is_base kb_id) db.bases db.documents b,
)

-- documents of one knowledge base have changed
pub Owed-documents :
    (kb_id : ℕ) (db : Db) (es : List KnowledgeDocument)
    → Valid db
    → Agree kb_id db.documents es
    → All (HasBase db.bases) es
    → Owed kb_id (record db { documents = es })
unfolding Valid Owed
Owed-documents kb_id db es (a, b) h c = (Others-Agree kb_id db.documents es db.bases h a, c)

-- the totals of knowledge bases have changed
pub Valid-bases :
    (db : Db) (keep : KnowledgeBase → Bool) (set : KnowledgeBase → KnowledgeBase)
    → ((k : KnowledgeBase) → (set k).kb_id ≡ k.kb_id)
    → ((k : KnowledgeBase) → (set k).indexing_status ≡ k.indexing_status)
    → Valid db
    → Valid (record db { bases = update keep set db.bases })
unfolding Valid
Valid-bases db keep set ids kept (a, b) = (
  All-update (IsFolded db.documents) keep set db.bases
      (λ k e f. kept k ∙ f ∙ ap (λ i. Rows.aggregate i db.documents) (sym (ids k))) a,
  HasBase-update set ids keep db.bases db.documents b,
)

pub Owed-bases :
    (kb_id : ℕ) (db : Db) (keep : KnowledgeBase → Bool) (set : KnowledgeBase → KnowledgeBase)
    → ((k : KnowledgeBase) → (set k).kb_id ≡ k.kb_id)
    → ((k : KnowledgeBase) → (set k).indexing_status ≡ k.indexing_status)
    → Owed kb_id db
    → Owed kb_id (record db { bases = update keep set db.bases })
unfolding Owed
Owed-bases kb_id db keep set ids kept (a, b) = (
  All-update (Others kb_id db.documents) keep set db.bases
      (λ k e f n.
        kept k
        ∙ f (ap (λ i. i == kb_id) (sym (ids k)) ∙ n)
        ∙ ap (λ i. Rows.aggregate i db.documents) (sym (ids k)))
      a,
  HasBase-update set ids keep db.bases db.documents b,
)
