-- ===== src/KnowledgeGraph/Retrieval.antt =====
-- knowledge_graph/context_retrieval.py: the part of the graph that goes into a prompt. Float
-- arithmetic with rounding, `str.lower`, `str` and `datetime.fromisoformat` are arguments. The sorts
-- are insertion sorts, stable as Python's is; no score is NaN where the confidences are not.
pub mod Selection
pub mod Evidence
use ros2_vlm_demo.Common.{
  ℕ, ◌+◌, String, ◌<>◌, Bool, true, false, not, ◌&&◌, ◌||◌, Option, none, some, List, [], ◌∷◌, ◌++◌,
  map, codes, length, filter, any, is_empty, ltb, leb, eqb, if◌then◌else◌, ◌==◌, contains,
}
use ros2_vlm_demo.Common.Int.{ℤ, pos_part}
use ros2_vlm_demo.Common.Dict
use ros2_vlm_demo.Common.Dict.{Dict}
use ros2_vlm_demo.Float.{Float, lt, le, zero_f, one_f, half_f}
use ros2_vlm_demo.Json.{Value, str}
use ros2_vlm_demo.KnowledgeGraph.Schema.{Entity, Fact}
use ros2_vlm_demo.KnowledgeGraph.Store.{GraphStore, snapshot, is_relation}

pub record RetrievalConfig : Type 0 where
  pub context_budget : ℤ
  pub task_relevance_weight : Float
  pub entity_relevance_weight : Float
  pub recency_weight : Float
  pub confidence_weight : Float
  pub min_confidence : Float
  pub max_entities : ℤ

-- What Python and its library compute. `total` is `sum`, `posix` is `datetime.fromisoformat(ts)` as a POSIX time in UTC,
-- or `none` where it raises; `decay` is `math.exp(-age / 300.0)`.
pub record Library : Type 0 where
  pub add : Float → Float → Float
  pub total : List Float → Float
  pub subtract : Float → Float → Float
  pub times : Float → Float → Float
  pub divide : Float → Float → Float
  pub of_count : ℕ → Float
  pub decay : Float → Float
  pub round_4 : Float → Float
  pub posix : String → Option Float
  pub lower : String → String
  pub text_of : Value → String

pub record SubGraph : Type 0 where
  pub entities : List Entity
  pub facts : List Fact
  pub scores : Dict Float

-- `t.startswith(s)` and `s in t` on code points.
abbrev pub is_prefix : List ℕ → List ℕ → Bool
is_prefix [] t = true
is_prefix (a ∷ s) [] = false
is_prefix (a ∷ s) (b ∷ t) = let rest = is_prefix s t in if eqb a b then rest else false

abbrev pub is_infix : List ℕ → List ℕ → Bool
is_infix s [] = is_prefix s []
is_infix s (b ∷ t) = let rest = is_infix s t in if is_prefix s (b ∷ t) then true else rest

-- `a < b` on texts, by code points.
abbrev pub text_lt : List ℕ → List ℕ → Bool
text_lt [] [] = false
text_lt [] (b ∷ t) = true
text_lt (a ∷ s) [] = false
text_lt (a ∷ s) (b ∷ t) =
    let rest = text_lt s t in if eqb a b then rest else if ltb a b then true else false

abbrev pub float_eq : Float → Float → Bool
float_eq a b = le a b && le b a

abbrev pub Scored : Type 0
Scored = Float × Entity

-- `(-a.score, a.entity_id) < (-b.score, b.entity_id)`
abbrev pub ranks_before : Scored → Scored → Bool
ranks_before (x, a) (y, b) =
    if float_eq x y then text_lt (codes a.entity_id) (codes b.entity_id) else lt y x

-- `(subject, predicate, fact_id)` of two facts compared.
abbrev pub fact_before : Fact → Fact → Bool
fact_before f g =
    if f.subject == g.subject
    then (if f.predicate == g.predicate
        then text_lt (codes f.fact_id) (codes g.fact_id)
        else text_lt (codes f.predicate) (codes g.predicate))
    else text_lt (codes f.subject) (codes g.subject)

module _ {A : Type 0} (before : A → A → Bool) where
  -- Behind every element that `x` is not before.
  unfoldable pub place : A → List A → List A
  place x [] = x ∷ []
  place x (y ∷ ys) = let rest = place x ys in if before y x then y ∷ rest else x ∷ y ∷ ys

  unfoldable pub sort : List A → List A
  unfolding place
  sort [] = []
  sort (x ∷ xs) = place x (sort xs)

-- `isinstance(fact.obj, str) and fact.obj in selected_ids`
abbrev pub names : List String → Value → Bool
names ids (str o) = contains ids o
names ids _ = false

module _ (lib : Library) (cfg : RetrievalConfig) (keywords mentioned : List String)
    (now : Float) where
  abbrev pub or_zero : Option Float → Float
  or_zero none = zero_f
  or_zero (some t) = t

  abbrev pub parse_timestamp : String → Float
  parse_timestamp ts = or_zero (lib.posix ts)

  -- `max(0.0, now_ts - ts)`: 0.0 is kept unless the age is more.
  abbrev pub recency_score : Float → Float
  recency_score ts =
      let age = lib.subtract now ts in lib.decay (if lt zero_f age then age else zero_f)

  -- The facts that are indexed under an entity, in the order of the snapshot.
  abbrev pub facts_of : Entity → List Fact → List Fact
  facts_of e facts =
      filter (λ f. le cfg.min_confidence f.confidence && f.subject == e.entity_id) facts

  abbrev pub latest : Float → List Fact → Float
  latest best [] = best
  latest best (f ∷ fs) =
      latest (if lt best (parse_timestamp f.timestamp) then parse_timestamp f.timestamp else best)
        fs

  abbrev pub latest_ts : Entity → List Fact → Float
  latest_ts e [] = parse_timestamp e.created_at
  latest_ts e (f ∷ fs) = latest (parse_timestamp f.timestamp) fs

  abbrev pub mean_conf : List Fact → Float
  mean_conf fs =
      if is_empty fs
      then half_f
      else lib.divide (lib.total (map (λ f. f.confidence) fs)) (lib.of_count (length fs))

  -- `" ".join(...)`
  abbrev pub joined : List String → String
  joined [] = ""
  joined (s ∷ []) = s
  joined (s ∷ t ∷ ss) = s <> (" " <> joined (t ∷ ss))

  abbrev pub searchable : Entity → String
  searchable e =
      lib.lower e.entity_id
      <> (" "
          <> (lib.lower e.entity_type
              <> (" " <> joined (map (λ v. lib.lower (lib.text_of v)) (Dict.values e.attributes)))))

  abbrev pub task_rel : Entity → Float
  task_rel e =
      let matches = filter (λ k. is_infix (codes (lib.lower k)) (codes (searchable e))) keywords in
      if is_empty keywords
      then zero_f
      else lib.divide (lib.of_count (length matches)) (lib.of_count (length keywords))

  abbrev pub entity_rel : Entity → Float
  entity_rel e = if contains mentioned e.entity_id then one_f else zero_f

  unfoldable pub score : List Fact → Entity → Float
  score facts e =
      let entity_facts = facts_of e facts in
      lib.add
        (lib.add
          (lib.add (lib.times cfg.task_relevance_weight (task_rel e))
            (lib.times cfg.entity_relevance_weight (entity_rel e)))
          (lib.times cfg.recency_weight (recency_score (latest_ts e entity_facts))))
        (lib.times cfg.confidence_weight (mean_conf entity_facts))

  abbrev pub attribute_cost : Dict Value → ℕ
  attribute_cost [] = 0
  attribute_cost ((k, v) ∷ d) = length (codes k) + length (codes (lib.text_of v)) + attribute_cost d

  abbrev pub cost : Entity → ℕ
  cost e =
      length (codes e.entity_id) + length (codes e.entity_type) + attribute_cost e.attributes + 20

  -- The selection loop. `spent` is `context_budget - budget_remaining`; a limit below 0 acts as 0.
  unfoldable pub select : List Scored → List Scored → ℕ → List Scored
  select [] chosen spent = chosen
  select ((s, e) ∷ ranked) chosen spent =
      let rest = select ranked (chosen ++ (s, e) ∷ []) (spent + cost e) in
      if leb (pos_part cfg.max_entities) (length chosen)
      then chosen
      else if leb (pos_part cfg.context_budget) spent && not (is_empty chosen)
      then chosen
      else rest

  -- Whether the last loop takes a fact.
  abbrev pub is_selected : List String → Fact → Bool
  is_selected ids f =
      if lt f.confidence cfg.min_confidence
      then false
      else if contains ids f.subject
      then true
      else is_relation f.fact_type && names ids f.obj

  abbrev pub scores_of : List Scored → Dict Float → Dict Float
  scores_of [] d = d
  scores_of ((s, e) ∷ chosen) d = scores_of chosen (Dict.insert e.entity_id (lib.round_4 s) d)

  abbrev pub ranked : GraphStore → List Scored
  ranked store =
      let (entities, facts) = snapshot store in
      sort ranks_before (map (λ e. (score facts e, e)) entities)

  unfoldable pub retrieve_salient_subgraph : GraphStore → SubGraph
  unfolding snapshot sort score select
  retrieve_salient_subgraph store =
      let chosen = select (ranked store) [] 0 in
      let ids = map (λ c. c.1.entity_id) chosen in
      record {
        entities = map (λ c. c.1) chosen;
        facts = sort fact_before (filter (is_selected ids) (snapshot store).1);
        scores = scores_of chosen [];
      }
