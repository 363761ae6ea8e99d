-- ===== src/KnowledgeGraph/Retrieval/Evidence.antt =====
-- Which facts `retrieve_salient_subgraph` of knowledge_graph/context_retrieval.py shows.
use mathlib.Core.Path.{subst}
use mathlib.Core.List.{Perm}
use mathlib.Core.List.Perm
use ros2_vlm_demo.Common.{
  String, ◌≡◌, refl, ap, sym, ◌⊎◌, inl, inr, Bool, true, false, List, [], ◌∷◌, map, filter,
  if◌then◌else◌, arith, Bool-cases, contains, All,
}
use ros2_vlm_demo.Common.Dict
use ros2_vlm_demo.Float.{Float, lt}
use ros2_vlm_demo.KnowledgeGraph.Schema.{Entity, Fact}
use ros2_vlm_demo.KnowledgeGraph.Store.{GraphStore, snapshot, is_relation}
use ros2_vlm_demo.KnowledgeGraph.Retrieval.{
  Library, RetrievalConfig, SubGraph, is_selected, names, place, sort, fact_before, select, ranked,
  retrieve_salient_subgraph,
}

module _ {A : Type 0} (before : A → A → Bool) where
  place-Perm : (x : A) (xs : List A) → Perm (place before x xs) (x ∷ xs)
  unfolding place
  place-Perm x [] = Perm.refl (x ∷ [])
  place-Perm x (y ∷ ys) = elim (Bool-cases (before y x)) [
    | inl earlier ↦ rw earlier (Perm.trans (Perm.cons y (place-Perm x ys)) (Perm.swap x y ys))
    | inr later ↦ rw later (Perm.refl (x ∷ y ∷ ys))
  ]

  sort-Perm : (xs : List A) → Perm (sort before xs) xs
  unfolding sort
  sort-Perm [] = Perm.refl []
  sort-Perm (x ∷ xs) = Perm.trans (place-Perm x (sort before xs)) (Perm.cons x (sort-Perm xs))

  All-place : (P : A → Type 0) (x : A) (xs : List A) → P x → All P xs → All P (place before x xs)
  unfolding place
  All-place P x [] h all = (h, tt)
  All-place P x (y ∷ ys) h (k, all) = elim (Bool-cases (before y x)) [
    | inl earlier ↦ rw earlier (k, All-place P x ys h all)
    | inr later ↦ rw later (h, (k, all))
  ]

  All-sort : (P : A → Type 0) (xs : List A) → All P xs → All P (sort before xs)
  unfolding sort
  All-sort P [] all = tt
  All-sort P (x ∷ xs) (h, all) = All-place P x (sort before xs) h (All-sort P xs all)

All-filter :
    (P Q : Fact → Type 0) (p : Fact → Bool)
    → ((f : Fact) → P f → p f ≡ true → Q f)
    → (fs : List Fact) → All P fs
    → All Q (filter p fs)
All-filter P Q p step [] all = tt
All-filter P Q p step (f ∷ fs) (h, all) =
    let kept = All-filter P Q p step fs all in
    elim (Bool-cases (p f)) [
      | inl passes ↦
          subst (λ b. All Q (if b then f ∷ filter p fs else filter p fs)) (sym passes)
            (step f h passes, kept)
      | inr fails ↦ subst (λ b. All Q (if b then f ∷ filter p fs else filter p fs)) (sym fails) kept
    ]

All-Unit : (fs : List Fact) → All {0, 0} (λ f. Unit) fs
All-Unit [] = tt
All-Unit (f ∷ fs) = (tt, All-Unit fs)

module _ (cfg : RetrievalConfig) (ids : List String) where
  -- A fact that may be shown with the entities `ids`.
  pub record IsEvidence (f : Fact) : Type 0 where
    pub believed : f.valid ≡ true
    pub confident : lt f.confidence cfg.min_confidence ≡ false
    pub connected :
        (contains ids f.subject ≡ true)
        ⊎ ((is_relation f.fact_type ≡ true) × (names ids f.obj ≡ true))

module _ (lib : Library) (cfg : RetrievalConfig) (keywords mentioned : List String)
    (now : Float) where
  selected_IsEvidence :
      (ids : List String) (f : Fact)
      → f.valid ≡ true
      → is_selected lib cfg keywords mentioned now ids f ≡ true
      → IsEvidence cfg ids f
  selected_IsEvidence ids f v h = record {
    believed = v;
    confident = ground arith;
    connected = ground arith;
  }

  abbrev ids_of : SubGraph → List String
  ids_of sub = map (λ e. e.entity_id) sub.entities

  map_ids :
      (cs : List (Float × Entity))
      → map (λ c. c.1.entity_id) cs ≡ map (λ e. e.entity_id) (map (λ c. c.1) cs)
  map_ids [] = refl
  map_ids (c ∷ cs) = ap (λ t. c.1.entity_id ∷ t) (map_ids cs)

  -- The shown facts are, up to their order, those valid facts of the store that pass the threshold and
  -- touch a selected entity; and so each of them is valid, is not below the threshold, and has a
  -- selected entity as its subject or, if it is a relation, as its object.
  pub facts-retrieve_lem :
      (store : GraphStore)
      → let sub = retrieve_salient_subgraph lib cfg keywords mentioned now store in
        Perm sub.facts
          (filter (is_selected lib cfg keywords mentioned now (ids_of sub)) (snapshot store).1)
        × All (IsEvidence cfg (ids_of sub)) sub.facts
  unfolding retrieve_salient_subgraph snapshot
  facts-retrieve_lem store =
      let chosen =
        select lib cfg keywords mentioned now (ranked lib cfg keywords mentioned now store) [] 0 in
      let ids = map (λ e. e.entity_id) (map (λ c. c.1) chosen) in
      let believed = filter (λ f. f.valid) (Dict.values store.facts) in
      rw (map_ids chosen) (
        sort-Perm fact_before (filter (is_selected lib cfg keywords mentioned now ids) believed),
        All-sort fact_before (IsEvidence cfg ids)
            (filter (is_selected lib cfg keywords mentioned now ids) believed)
            (All-filter (λ f. f.valid ≡ true) (IsEvidence cfg ids)
              (is_selected lib cfg keywords mentioned now ids)
              (λ f v h. selected_IsEvidence ids f v h) believed
              (All-filter (λ f. Unit) (λ f. f.valid ≡ true) (λ f. f.valid) (λ f u h. h)
                (Dict.values store.facts) (All-Unit (Dict.values store.facts)))),
      )
