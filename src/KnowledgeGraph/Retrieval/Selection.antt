-- ===== src/KnowledgeGraph/Retrieval/Selection.antt =====
-- Which entities `retrieve_salient_subgraph` of knowledge_graph/context_retrieval.py selects.
use mathlib.Core.List.{append_assoc}
use ros2_vlm_demo.Common.{
  ℕ, ◌+◌, ◌≤◌, ◌<◌, String, ◌≡◌, refl, ap, ◌⊎◌, inl, inr, false, not, ◌&&◌, List, [], ◌∷◌, ◌++◌,
  map, length, length-append, is_empty, leb, arith, Bool-cases, leb→le,
}
use ros2_vlm_demo.Common.Int.{pos_part}
use ros2_vlm_demo.Float.{Float}
use ros2_vlm_demo.KnowledgeGraph.Store.{GraphStore}
use ros2_vlm_demo.KnowledgeGraph.Retrieval.{
  Library, RetrievalConfig, Scored, ranked, cost, select, retrieve_salient_subgraph,
}

module _ (lib : Library) (cfg : RetrievalConfig) (keywords mentioned : List String)
    (now : Float) where
  abbrev cost_of : Scored → ℕ
  cost_of c = cost lib cfg keywords mentioned now c.1

  -- The cost of all entities, and that of all but the last.
  abbrev pub total_cost : List Scored → ℕ
  total_cost [] = 0
  total_cost (c ∷ cs) = cost_of c + total_cost cs

  abbrev pub cost_before_last : List Scored → ℕ
  cost_before_last [] = 0
  cost_before_last (c ∷ []) = 0
  cost_before_last (c ∷ d ∷ cs) = cost_of c + cost_before_last (d ∷ cs)

  -- A selection from a ranking.
  pub record IsSelection (candidates chosen : List Scored) : Type 0 where
    pub rest : List Scored
    pub best_first : candidates ≡ chosen ++ rest
    pub few : length chosen ≤ pos_part cfg.max_entities
    pub cheap : (length chosen ≤ 1) ⊎ (cost_before_last chosen < pos_part cfg.context_budget)
    pub full :
        (rest ≡ [])
        ⊎ ((length chosen ≡ pos_part cfg.max_entities)
            ⊎ ((1 ≤ length chosen) × (pos_part cfg.context_budget ≤ total_cost chosen)))

  total_cost-snoc :
      (cs : List Scored) (c : Scored) → total_cost (cs ++ c ∷ []) ≡ total_cost cs + cost_of c
  total_cost-snoc [] c = omega arith
  total_cost-snoc (d ∷ cs) c = omega (arith, total_cost-snoc cs c)

  cost_before_last-snoc :
      (cs : List Scored) (c : Scored) → cost_before_last (cs ++ c ∷ []) ≡ total_cost cs
  cost_before_last-snoc [] c = refl
  cost_before_last-snoc (d ∷ []) c = refl
  cost_before_last-snoc (d ∷ e ∷ cs) c = ap (λ n. cost_of d + n) (cost_before_last-snoc (e ∷ cs) c)

  still_cheap :
      (chosen : List Scored) (c : Scored) (spent : ℕ)
      → spent ≡ total_cost chosen
      → (leb (pos_part cfg.context_budget) spent && not (is_empty chosen)) ≡ false
      → (length (chosen ++ c ∷ []) ≤ 1)
        ⊎ (cost_before_last (chosen ++ c ∷ []) < pos_part cfg.context_budget)
  still_cheap [] c spent paid h = inl (omega arith)
  still_cheap (d ∷ chosen) c spent paid h =
      inr (ground (arith, cost_before_last-snoc (d ∷ chosen) c))

  longer_fits :
      (chosen : List Scored) (c : Scored)
      → leb (pos_part cfg.max_entities) (length chosen) ≡ false
      → length (chosen ++ c ∷ []) ≤ pos_part cfg.max_entities
  longer_fits chosen c h = ground (arith, length-append chosen (c ∷ []))

  -- The loop from a state that it can be in.
  select-IsSelection :
      (candidates chosen : List Scored) (spent : ℕ)
      → spent ≡ total_cost chosen
      → length chosen ≤ pos_part cfg.max_entities
      → (length chosen ≤ 1) ⊎ (cost_before_last chosen < pos_part cfg.context_budget)
      → IsSelection
          (chosen ++ candidates)
          (select lib cfg keywords mentioned now candidates chosen spent)
  unfolding select
  select-IsSelection [] chosen spent paid few cheap = record {
    rest = [];
    best_first = refl;
    few = few;
    cheap = cheap;
    full = inl refl;
  }
  select-IsSelection (c ∷ cs) chosen spent paid few cheap =
      elim (Bool-cases (leb (pos_part cfg.max_entities) (length chosen))) [
        | inl many ↦ rw many (record {
          rest = c ∷ cs;
          best_first = refl;
          few = few;
          cheap = cheap;
          full = inr (inl (omega (arith, leb→le _ _ many)));
        })
        | inr room ↦
            elim (Bool-cases (leb (pos_part cfg.context_budget) spent && not (is_empty chosen))) [
              | inl broke ↦
                  rw (room, broke)
                    (record {
                      rest = c ∷ cs;
                      best_first = refl;
                      few = few;
                      cheap = cheap;
                      full = inr (inr (ground arith));
                    })
              | inr more ↦
                  rw (room, more)
                    (rw (append_assoc chosen (c ∷ []) cs) at (
                      select-IsSelection cs (chosen ++ c ∷ []) (spent + cost_of c)
                        (omega (arith, total_cost-snoc chosen c)) (longer_fits chosen c room)
                        (still_cheap chosen c spent paid more)))
            ]
      ]

  -- The selected entities come first in the ranking by score; there are at most max_entities of them;
  -- without the last they cost less than the budget, unless there is only one; and the selection stops
  -- only when no entity is left, the limit is reached, or at least one is selected and the budget spent.
  pub retrieve_salient_subgraph_lem :
      (store : GraphStore)
      → (chosen : List Scored) × ((retrieve_salient_subgraph lib cfg keywords mentioned now
            store).entities
          ≡ map (λ c. c.1) chosen)
        × IsSelection (ranked lib cfg keywords mentioned now store) chosen
  unfolding retrieve_salient_subgraph
  retrieve_salient_subgraph_lem store =
      let candidates = ranked lib cfg keywords mentioned now store in
      (
        select lib cfg keywords mentioned now candidates [] 0,
        refl,
        select-IsSelection candidates [] 0 refl (omega arith) (inl (omega arith)),
      )
