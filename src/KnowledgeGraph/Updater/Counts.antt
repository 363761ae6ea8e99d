-- ===== src/KnowledgeGraph/Updater/Counts.antt =====
-- The results that `GraphUpdater` (knowledge_graph/graph_updater.py) reports: their counts, and what
-- a rejection leaves.
use ros2_vlm_demo.Common.{
  ℕ, ◌+◌, String, ◌≡◌, refl, ◌∙◌, true, false, Bool, List, [], ◌∷◌, ◌++◌, arith, filter, length,
  length-append, not, ap, Bool-cases, inl, inr, ◌==◌, if◌then◌else◌,
}
use ros2_vlm_demo.Float.{lt}
use ros2_vlm_demo.KnowledgeGraph.Schema.{GraphUpdate, Checked, ok, err, validate_update}
use ros2_vlm_demo.KnowledgeGraph.Store.{invalidate_fact}
use ros2_vlm_demo.KnowledgeGraph.World.{Env, Settings, World, UpdateResult, ApplyResult}
use ros2_vlm_demo.KnowledgeGraph.Updater.{
  ensure_entity, op_add_entity, op_set_attribute, op_add_relation, op_remove_relation,
  op_invalidate_fact, commit_attribute, commit_relation, dispatch, gate, apply_single, apply_loop,
  apply, count_in,
}
use ros2_vlm_demo.KnowledgeGraph.Updater.Ensure.{ensure_entity-cases}

module _ (env : Env) (cfg : Settings) where
  -- A rejected outcome comes with the world as it was.
  abbrev KeepsIfRejected : World → UpdateResult × World → Type 0
  KeepsIfRejected w r = r.0.accepted ≡ false → r.1 ≡ w

  commit_attribute-accepted :
      (u : GraphUpdate) (w : World) → (commit_attribute env cfg u w).0.accepted ≡ true
  unfolding commit_attribute
  commit_attribute-accepted u w = refl

  commit_relation-accepted :
      (u : GraphUpdate) (w : World) → (commit_relation env cfg u w).0.accepted ≡ true
  unfolding commit_relation
  commit_relation-accepted u w = ground arith

  -- A call of `_ensure_entity` that says no leaves the world as it was, and so did one before it.
  ensure_refused :
      (i : String) (w : World)
      → (ensure_entity env cfg i w).0 ≡ false
      → (cfg.require_known_entities ≡ true) × ((ensure_entity env cfg i w).1 ≡ w)
  ensure_refused i w h = elim (ensure_entity-cases env cfg i w) [
    | inl (_, e) ↦ cc (h, ap (λ (r : Bool × World). r.0) e)
    | inr (inl (_, strict, e)) ↦ (strict, ap (λ (r : Bool × World). r.1) e)
    | inr (inr (_, _, e)) ↦ cc (h, ap (λ (r : Bool × World). r.0) e)
  ]

  ensure_strict :
      (i : String) (w : World)
      → cfg.require_known_entities ≡ true
      → (ensure_entity env cfg i w).1 ≡ w
  ensure_strict i w strict = elim (ensure_entity-cases env cfg i w) [
    | inl (_, e) ↦ ap (λ (r : Bool × World). r.1) e
    | inr (inl (_, _, e)) ↦ ap (λ (r : Bool × World). r.1) e
    | inr (inr (_, lax, _)) ↦ cc (strict, lax)
  ]

  set_attribute_rejected :
      (u : GraphUpdate) (w : World) → KeepsIfRejected w (op_set_attribute env cfg u w)
  unfolding op_set_attribute
  set_attribute_rejected u w h = elim (Bool-cases (ensure_entity env cfg u.entity_id w).0) [
    | inl known ↦ cc (commit_attribute-accepted u (ensure_entity env cfg u.entity_id w).1)
    | inr unknown ↦ rw unknown (ensure_refused u.entity_id w unknown).1
  ]

  add_relation_rejected :
      (u : GraphUpdate) (w : World) → KeepsIfRejected w (op_add_relation env cfg u w)
  unfolding op_add_relation
  add_relation_rejected u w h =
      let w1 = (ensure_entity env cfg u.subject w).1 in
      elim (Bool-cases (ensure_entity env cfg u.subject w).0) [
        | inl known ↦ elim (Bool-cases (ensure_entity env cfg u.object w1).0) [
          | inl known' ↦ cc (
            rw (known, known') at h,
            commit_relation-accepted u (ensure_entity env cfg u.object w1).1,
          )
          | inr unknown ↦
              let (strict, same) = ensure_refused u.object w1 unknown in
              rw (known, unknown) (same ∙ ensure_strict u.subject w strict)
        ]
        | inr unknown ↦ rw unknown (ensure_refused u.subject w unknown).1
      ]

  invalidate_rejected :
      (u : GraphUpdate) (w : World) → KeepsIfRejected w (op_invalidate_fact env cfg u w)
  unfolding op_invalidate_fact invalidate_fact
  invalidate_rejected u w h = ground arith

  remove_rejected :
      (u : GraphUpdate) (w : World) → KeepsIfRejected w (op_remove_relation env cfg u w)
  unfolding op_remove_relation
  remove_rejected u w h = ground arith

  add_entity_rejected :
      (u : GraphUpdate) (w : World) → KeepsIfRejected w (op_add_entity env cfg u w)
  unfolding op_add_entity
  add_entity_rejected u w h = cc h

  dispatch_rejected : (u : GraphUpdate) (w : World) → KeepsIfRejected w (dispatch env cfg u w)
  unfolding dispatch
  dispatch_rejected u w = keeps_if (u.op == "add_entity") _ _ (add_entity_rejected u w) (
      keeps_if (u.op == "set_attribute") _ _ (set_attribute_rejected u w) (
        keeps_if (u.op == "add_relation") _ _ (add_relation_rejected u w) (
          keeps_if (u.op == "remove_relation") _ _ (remove_rejected u w)
            (keeps_if (u.op == "invalidate_fact") _ _ (invalidate_rejected u w) (λ h. refl)))))
    where
      keeps_if :
          (b : Bool) (x y : UpdateResult × World)
          → KeepsIfRejected w x
          → KeepsIfRejected w y
          → KeepsIfRejected w (if b then x else y)
      keeps_if true x y h k = h
      keeps_if false x y h k = k

  gate_rejected :
      (proposed : GraphUpdate) (c : Checked) (w : World)
      → KeepsIfRejected w (gate env cfg proposed c w)
  unfolding gate
  gate_rejected proposed (err e) w h = refl
  gate_rejected proposed (ok u) w h =
      elim (Bool-cases (lt u.confidence cfg.min_commit_confidence)) [
        | inl low ↦ rw low
        | inr high ↦ rw high (dispatch_rejected u w (rw high at h))
      ]

  -- An update that is rejected, for whatever reason, leaves the whole world as it was: no fact,
  -- no entity, no attribute and no drawn identifier differs.
  pub apply_single_rejected :
      (u : GraphUpdate) (w : World)
      → (apply_single env cfg u w).0.accepted ≡ false
      → (apply_single env cfg u w).1 ≡ w
  unfolding apply_single
  apply_single_rejected u w h = gate_rejected u (validate_update u) w h

  -- The counts agree with the list of results.
  record IsTallied (n : ℕ) (r : ApplyResult) : Type 0 where
    accepts : r.accepted ≡ length (filter (λ o. o.accepted) r.results)
    rejects : r.rejected ≡ length (filter (λ o. not o.accepted) r.results)
    results : r.accepted + r.rejected ≡ length r.results
    total : r.total ≡ n

  length-filter_snoc :
      (p : UpdateResult → Bool) (xs : List UpdateResult) (x : UpdateResult)
      → length (filter p (xs ++ x ∷ [])) ≡ length (filter p xs) + (if p x then 1 else 0)
  length-filter_snoc p [] x = ground arith
  length-filter_snoc p (y ∷ xs) x = ground (arith, length-filter_snoc p xs x)

  count_in-IsTallied :
      (n : ℕ) (r : ApplyResult) (o : UpdateResult)
      → IsTallied n r
      → IsTallied n (count_in env cfg r o)
  count_in-IsTallied n r o t = ground (
    arith,
    length-append r.results (o ∷ []),
    length-filter_snoc (λ x. x.accepted) r.results o,
    length-filter_snoc (λ x. not x.accepted) r.results o,
  )

  apply_loop-IsTallied :
      (us : List GraphUpdate) (n : ℕ) (r : ApplyResult) (w : World)
      → IsTallied n r
      → IsTallied n (apply_loop env cfg us r w).0
        × (length (apply_loop env cfg us r w).0.results ≡ length r.results + length us)
  unfolding apply_loop
  apply_loop-IsTallied [] n r w t = (t, omega arith)
  apply_loop-IsTallied (u ∷ us) n r w t =
      let o = (apply_single env cfg u w).0 in
      let (rest, len) =
        apply_loop-IsTallied us n (count_in env cfg r o) (apply_single env cfg u w).1
          (count_in-IsTallied n r o t) in
      (rest, omega (arith, len, count_in-length r o))
    where
      count_in-length :
          (r : ApplyResult) (o : UpdateResult)
          → length (count_in env cfg r o).results ≡ length r.results + 1
      count_in-length r o = ground (arith, length-append r.results (o ∷ []))

  -- `apply` reports one result for each proposed update, counts as accepted and rejected exactly
  -- the results that say so, and the two counts add up to the total.
  pub apply_tally :
      (us : List GraphUpdate) (w : World)
      → let r = (apply env cfg us w).0 in
        (r.total ≡ length us)
        × (length r.results ≡ length us)
        × (r.accepted ≡ length (filter (λ o. o.accepted) r.results))
        × (r.rejected ≡ length (filter (λ o. not o.accepted) r.results))
        × (r.accepted + r.rejected ≡ r.total)
  unfolding apply
  apply_tally us w =
      let start : ApplyResult = record {
        total = length us;
        accepted = 0;
        rejected = 0;
        results = [];
      } in
      let (t, len) = apply_loop-IsTallied us (length us) start w (omega arith) in
      (t.total, omega (arith, len), t.accepts, t.rejects, omega (arith, len, t.results, t.total))
