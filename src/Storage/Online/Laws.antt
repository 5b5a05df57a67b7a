-- ===== src/Storage/Online/Laws.antt =====
-- Which versions the online side sees: exactly those of the owner's scope that are READY.
use zhiyan_personal_academic.Prelude.{
  In-select_where, contains, has_duplicates, sort_by, In-sort_by, ◌≡◌, refl, sym, String, Bool,
  true, false, ◌&&◌, none, List, [], ◌∷◌, map, length, In, inl, inr, arith, select_where, ◌⊎◌,
  select_where-In, subst, eq_iff, ◌==◌, ◌||◌, ap, is_none,
}
use zhiyan_personal_academic.Storage.Lifecycle.{
  DocumentVersion, is_active, LifecycleStatus, IndexState, is_ready, index_is_ready,
}
use zhiyan_personal_academic.Storage.Database.{Connection, ok, commit}
use zhiyan_personal_academic.Storage.Online.{
  is_online, version_before, resolve_body, resolve_online_versions,
}

resolve_rows :
    (before : String → String → Bool) (owner_id : String) (requested : List String)
    (c c' : Connection) (r : List DocumentVersion)
    → resolve_online_versions before owner_id requested c ≡ (ok r, c')
    → (r
        ≡ sort_by
            (version_before before)
            (select_where (is_online owner_id requested) c.working.versions))
      × (has_duplicates (map (λ v. v.document_id) r) ≡ false)
      × (c' ≡ commit c)
unfolding resolve_online_versions resolve_body
resolve_rows before owner_id requested c c' r h = ground arith

-- What the online side may see of a version, in the words of the contract: it is the owner's, it
-- is READY, neither deleted nor expired, indexed in both backends, and its document was asked for.
pub record IsVisible (owner_id : String) (requested : List String) (v : DocumentVersion)
    : Type 0 where
  pub owned : v.owner_id ≡ owner_id
  pub is_ready_state : v.lifecycle_status ≡ LifecycleStatus.ready
  pub not_deleted : v.delete_time ≡ none
  pub not_expired : v.chunk_expire_time ≡ none
  pub in_elasticsearch : v.index_states.elasticsearch_chunks ≡ IndexState.ready
  pub in_milvus : v.index_states.milvus_vectors ≡ IndexState.ready
  pub asked_for : (requested ≡ []) ⊎ (contains requested v.document_id ≡ true)

empty_of_length : (names : List String) → length names ≡ 0 → names ≡ []
empty_of_length [] h = refl
empty_of_length (n ∷ ns) h = absurd (omega arith)

asked :
    (names : List String) (d : String)
    → (length names == 0 || contains names d) ≡ true
    → (names ≡ []) ⊎ (contains names d ≡ true)
asked [] d h = inl refl
asked (n ∷ ns) d h = inr (ground arith)

is_online-IsVisible :
    (owner_id : String) (requested : List String) (v : DocumentVersion)
    → is_online owner_id requested v ≡ true
    → IsVisible owner_id requested v
unfolding is_online is_active
is_online-IsVisible owner_id requested v h = record {
  owned = ground (arith, eq_iff v.owner_id owner_id);
  is_ready_state = ground arith;
  not_deleted = ground arith;
  not_expired = ground arith;
  in_elasticsearch = ground arith;
  in_milvus = ground arith;
  asked_for = asked requested v.document_id (ground arith);
}

in_scope :
    (names : List String) (d : String)
    → (names ≡ []) ⊎ (contains names d ≡ true)
    → (length names == 0 || contains names d) ≡ true
in_scope [] d h = refl
in_scope (n ∷ ns) d (inl e) = cc
in_scope (n ∷ ns) d (inr h) = ground arith

all_of_eight :
    {a b c d e f g k : Bool}
    → a ≡ true
    → b ≡ true
    → c ≡ true
    → d ≡ true
    → e ≡ true
    → f ≡ true
    → g ≡ true
    → k ≡ true
    → (a && b && c && d && e && f && g && k) ≡ true
all_of_eight ha hb hc hd he hf hg hk = ground arith

all_of_three : {a b c : Bool} → a ≡ true → b ≡ true → c ≡ true → (a && b && c) ≡ true
all_of_three ha hb hc = ground arith

IsVisible-is_online :
    (owner_id : String) (requested : List String) (v : DocumentVersion)
    → IsVisible owner_id requested v
    → is_online owner_id requested v ≡ true
unfolding is_online is_active
IsVisible-is_online owner_id requested v w =
    all_of_eight ((eq_iff v.owner_id owner_id).1 w.owned) (ap is_ready w.is_ready_state)
      (all_of_three (ap is_ready w.is_ready_state) (ap is_none w.not_deleted)
        (ap is_none w.not_expired))
      (ap is_none w.not_deleted) (ap is_none w.not_expired) (ap index_is_ready w.in_elasticsearch)
      (ap index_is_ready w.in_milvus) (in_scope requested v.document_id w.asked_for)

-- A resolution that returns has resolved exactly the visible versions of the tables, one at most
-- for each document.
pub resolve_online_versions-IsVisible :
    (before : String → String → Bool) (owner_id : String) (requested : List String)
    (c c' : Connection) (r : List DocumentVersion) (v : DocumentVersion)
    → resolve_online_versions before owner_id requested c ≡ (ok r, c')
    → (In v r → In v c.working.versions × IsVisible owner_id requested v)
      × (In v c.working.versions × IsVisible owner_id requested v → In v r)
      × (has_duplicates (map (λ w. w.document_id) r) ≡ false)
resolve_online_versions-IsVisible before owner_id requested c c' r v h =
    let (rows, single, _) = resolve_rows before owner_id requested c c' r h in
    let p = is_online owner_id requested in
    let same = In-sort_by (version_before before) v (select_where p c.working.versions) in
    (
      λ i.
          let (there, hit) =
            select_where-In p v c.working.versions (same.0 (subst (In v) rows i)) in
          (there, is_online-IsVisible owner_id requested v hit),
      λ (there, seen). subst (In v) (sym rows) (
          same.1 (
            In-select_where p v c.working.versions there
              (IsVisible-is_online owner_id requested v seen))),
      single,
    )
