-- ===== src/Es.antt =====
-- The search index: the documents, the calls that the program makes (app/es.py gives one client or
-- the other), and the in-memory store of app/es_memory.py.
pub mod Laws
use kb_backend.Prelude.{
  ℕ, String, Bool, true, ◌||◌, Option, none, some, List, is_some, lookup, insert, erase,
}
use kb_backend.Prelude.Int.{ℤ}

-- A `_source` dict, `none` for a key that is absent. `F` is the type of floats.
pub record Doc (F : Type 0) : Type 0 where
  pub content_tks : Option String
  pub q_vec_vec : Option (List F)
  pub file_id_kwd : Option ℕ
  pub tenant_id_kwd : Option ℕ
  pub sensitivity_int : Option ℕ
  pub doc_type_kwd : Option String
  pub is_summary_int : Option ℕ
  pub source_chunk_ids_kwd : Option (List ℕ)
  pub coverage_ratio_f : Option F
  pub page_num_int : Option ℕ
  pub chunk_order_int : Option ℕ
  pub chunk_version_int : Option ℕ
  pub simhash_long : Option ℤ
  pub available_int : Option ℕ

module _ {F : Type 0} where
  -- `{}`
  abbrev pub empty_doc : Doc F
  empty_doc = record {
    content_tks = none;
    q_vec_vec = none;
    file_id_kwd = none;
    tenant_id_kwd = none;
    sensitivity_int = none;
    doc_type_kwd = none;
    is_summary_int = none;
    source_chunk_ids_kwd = none;
    coverage_ratio_f = none;
    page_num_int = none;
    chunk_order_int = none;
    chunk_version_int = none;
    simhash_long = none;
    available_int = none;
  }

  -- `bool(src)`: some key is there
  unfoldable pub truthy : Doc F → Bool
  truthy d =
      is_some d.available_int
      || is_some d.content_tks
      || is_some d.q_vec_vec
      || is_some d.file_id_kwd
      || is_some d.tenant_id_kwd
      || is_some d.sensitivity_int
      || is_some d.doc_type_kwd
      || is_some d.is_summary_int
      || is_some d.source_chunk_ids_kwd
      || is_some d.coverage_ratio_f
      || is_some d.page_num_int
      || is_some d.chunk_order_int
      || is_some d.chunk_version_int
      || is_some d.simhash_long

-- A client of the index over a state `S`. A call that writes returns whether it went through
-- (`false`: it raised) and the new state; `get` returns `none` where it raises.
pub record Client (F S : Type 0) : Type 0 where
  pub index : ℕ → Doc F → S → Bool × S
  pub get : ℕ → S → Option (Doc F)
  pub delete : ℕ → S → Bool × S

-- `FakeES._docs`, for the one index that the program has
abbrev pub Store : Type 0 → Type 0
Store F = List (ℕ × Doc F)

module _ {F : Type 0} where
  -- `FakeES.index`; an empty document is stored as `{}`
  unfoldable pub fake_index : ℕ → Doc F → Store F → Bool × Store F
  fake_index id document docs = (true, insert id document docs)

  -- `FakeES.delete`: a missing id is no error
  unfoldable pub fake_delete : ℕ → Store F → Bool × Store F
  fake_delete id docs = (true, erase id docs)

  -- `FakeES.get` with no `source_includes`: a missing id gives `{}`
  unfoldable pub fake_get : ℕ → Store F → Option (Doc F)
  fake_get id docs = elim (lookup id docs) [ none ↦ some empty_doc | some src ↦ some src ]

  -- `FakeES.scan`
  unfoldable pub scan : Store F → List (ℕ × Doc F)
  scan docs = docs

  abbrev pub fake_es : Client F (Store F)
  fake_es = record { index = fake_index; get = fake_get; delete = fake_delete }
