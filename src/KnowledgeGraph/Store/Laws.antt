-- ===== src/KnowledgeGraph/Store/Laws.antt =====
-- What the methods of `GraphStore` (knowledge_graph/graph_store.py) leave in the store.
use ros2_vlm_demo.Common.{
  String, ◌<>◌, ◌≡◌, ◌≢◌, ◌⊎◌, inl, inr, refl, ap, ◌∙◌, Bool, Bool-cases, true, false, string_dec,
  Option, none, some, [], ◌∷◌, map, arith, filter, contains, ◌==◌, if◌then◌else◌,
}
use ros2_vlm_demo.Common.Dict
use ros2_vlm_demo.Common.Dict.{Dict, NodupKeys}
use ros2_vlm_demo.KnowledgeGraph.Schema.{Fact}
use ros2_vlm_demo.KnowledgeGraph.Store.{GraphStore, invalidate_fact, retire, retired, noted}

-- Every fact stands under its own identifier.
abbrev pub IsKeyed : Dict Fact → Type 0
IsKeyed [] = Unit
IsKeyed ((k, f) ∷ d) = (f.fact_id ≡ k) × IsKeyed d

pub insert-IsKeyed :
    (k : String) (f : Fact) (d : Dict Fact)
    → f.fact_id ≡ k
    → IsKeyed d
    → IsKeyed (Dict.insert k f d)
unfolding Dict.insert
insert-IsKeyed k f [] e h = (e, tt)
insert-IsKeyed k f ((j, g) ∷ d) e (p, h) = ground (arith, insert-IsKeyed k f d e h)

-- Whether a fact that may be missing passes a test.
abbrev pub passes : (Fact → Bool) → Option Fact → Bool
passes p none = false
passes p (some f) = p f

pub contains-values_absent :
    (p : Fact → Bool) (d : Dict Fact) (k : String)
    → IsKeyed d
    → Dict.has k d ≡ false
    → contains (map (λ f. f.fact_id) (filter p (Dict.values d))) k ≡ false
unfolding Dict.values Dict.has
contains-values_absent p [] k h a = refl
contains-values_absent p ((j, f) ∷ d) k (e, h) a = ground (arith, contains-values_absent p d k h)

-- The identifiers of the facts that pass a test are the keys whose fact passes it.
pub contains-values :
    (p : Fact → Bool) (d : Dict Fact) (k : String)
    → IsKeyed d
    → NodupKeys d
    → contains (map (λ f. f.fact_id) (filter p (Dict.values d))) k ≡ passes p (Dict.lookup k d)
unfolding Dict.values Dict.lookup
contains-values p [] k h u = refl
contains-values p ((j, f) ∷ d) k (e, h) (fresh, u) =
    ground (arith, contains-values p d k h u, contains-values_absent p d j h)

-- A fact after `invalidate_fact`: an invalid one stays as it is.
abbrev pub marked : String → Fact → Fact
marked reason f = if f.valid then retired reason f else f

abbrev pub marked_opt : String → Option Fact → Option Fact
marked_opt reason none = none
marked_opt reason (some f) = some (marked reason f)

lookup-retire :
    (o : Option Fact) (i reason : String) (s : GraphStore) (k : String)
    → Dict.lookup i s.facts ≡ o
    → Dict.lookup k (retire o i reason s).1.facts
      ≡ (if i == k then marked_opt reason (Dict.lookup k s.facts) else Dict.lookup k s.facts)
lookup-retire none i reason s k e = ground arith
lookup-retire (some f) i reason s k e =
    ground (arith, Dict.lookup-insert k i (retired reason f) s.facts)

module _ (i reason : String) (s : GraphStore) where
  pub entities-invalidate_fact : (invalidate_fact i reason s).1.entities ≡ s.entities
  unfolding invalidate_fact
  entities-invalidate_fact = ground arith

  pub lookup-invalidate_fact :
      (k : String)
      → Dict.lookup k (invalidate_fact i reason s).1.facts
        ≡ (if i == k then marked_opt reason (Dict.lookup k s.facts) else Dict.lookup k s.facts)
  unfolding invalidate_fact
  lookup-invalidate_fact k = lookup-retire (Dict.lookup i s.facts) i reason s k refl

returned :
    (i reason : String) (s : GraphStore)
    → (invalidate_fact i reason s).0 ≡ passes (λ f. f.valid) (Dict.lookup i s.facts)
unfolding invalidate_fact
returned i reason s = ground arith

-- A fact that is missing or not valid is left.
left_alone :
    (o : Option Fact) (i reason : String) (s : GraphStore)
    → passes (λ f. f.valid) o ≡ false
    → retire o i reason s ≡ (false, s)
left_alone none i reason s h = refl
left_alone (some f) i reason s h = ground arith

marked_invalid :
    (reason : String) (o : Option Fact) → passes (λ f. f.valid) (marked_opt reason o) ≡ false
marked_invalid reason none = refl
marked_invalid reason (some f) = ground arith

self_equal : (i : String) (o m : Option Fact) → (if i == i then m else o) ≡ m
self_equal i o m = ground arith

left_once :
    (reason i : String) (s : GraphStore)
    → passes (λ f. f.valid) (Dict.lookup i s.facts) ≡ false
    → invalidate_fact i reason s ≡ (false, s)
unfolding invalidate_fact
left_once reason i s h = left_alone (Dict.lookup i s.facts) i reason s h

once :
    (i reason again : String) (s : GraphStore)
    → invalidate_fact i again (invalidate_fact i reason s).1
      ≡ (false, (invalidate_fact i reason s).1)
once i reason again s =
    let s' = (invalidate_fact i reason s).1 in
    let found : Dict.lookup i s'.facts ≡ marked_opt reason (Dict.lookup i s.facts) =
      lookup-invalidate_fact i reason s i
      ∙ self_equal i (Dict.lookup i s.facts) (marked_opt reason (Dict.lookup i s.facts)) in
    left_once again i s'
      (ap (passes (λ f. f.valid)) found ∙ marked_invalid reason (Dict.lookup i s.facts))

-- What becomes of the provenance of a fact that is invalidated for a reason.
abbrev pub IsNoted : String → String → String → Type 0
IsNoted reason old new =
    ((reason ≡ "") × (new ≡ old))
    ⊎ (((reason ≢ "") × ((old ≡ "") × (new ≡ "invalidated: " <> reason)))
        ⊎ ((reason ≢ "") × ((old ≢ "") × (new ≡ old <> "; invalidated: " <> reason))))

-- `g` is `f`, no longer valid and with the reason noted, and else the same.
pub record IsInvalidated (reason : String) (f g : Fact) : Type 0 where
  pub invalid : g.valid ≡ false
  pub noted : IsNoted reason f.provenance g.provenance
  pub fact_id : g.fact_id ≡ f.fact_id
  pub fact_type : g.fact_type ≡ f.fact_type
  pub subject : g.subject ≡ f.subject
  pub predicate : g.predicate ≡ f.predicate
  pub obj : g.obj ≡ f.obj
  pub confidence : g.confidence ≡ f.confidence
  pub timestamp : g.timestamp ≡ f.timestamp
  pub source : g.source ≡ f.source

-- What is found under the fact's identifier before and after.
abbrev pub IsWritten : String → Option Fact → Option Fact → Type 0
IsWritten reason none none = Unit
IsWritten reason none (some g) = ⊥
IsWritten reason (some f) none = ⊥
IsWritten reason (some f) (some g) =
    ((f.valid ≡ true) × IsInvalidated reason f g) ⊎ ((f.valid ≡ false) × (g ≡ f))

noted-IsNoted : (reason old : String) → IsNoted reason old (noted old reason)
noted-IsNoted reason old = ground arith

marked-IsWritten : (reason : String) (o : Option Fact) → IsWritten reason o (marked_opt reason o)
marked-IsWritten reason none = tt
marked-IsWritten reason (some f) = elim (Bool-cases f.valid) [
  | inl valid ↦ rw (valid) (
      inl (
        refl,
        record {
          invalid = refl;
          noted = noted-IsNoted reason f.provenance;
          fact_id = refl;
          fact_type = refl;
          subject = refl;
          predicate = refl;
          obj = refl;
          confidence = refl;
          timestamp = refl;
          source = refl;
        },
      ))
  | inr invalid ↦ rw (invalid) (inr (refl, refl))
]

then_branch : (i k : String) (x y : Option Fact) → i ≡ k → (if i == k then x else y) ≡ x
then_branch i k x y same = ground arith

else_branch : (i k : String) (x y : Option Fact) → i ≢ k → (if i == k then x else y) ≡ y
else_branch i k x y other = ground arith

write_cases :
    (i k reason : String) (o : Option Fact)
    → ((i ≡ k) × IsWritten reason o (if i == k then marked_opt reason o else o))
      ⊎ ((i ≢ k) × ((if i == k then marked_opt reason o else o) ≡ o))
write_cases i k reason o = elim (string_dec i k) [
  | yes same ↦
      inl (same, rw (then_branch i k (marked_opt reason o) o same) (marked-IsWritten reason o))
  | no other ↦ inr (other, else_branch i k (marked_opt reason o) o other)
]

-- `invalidate_fact` returns true exactly when the fact is there and valid. Under its identifier nothing is found afterwards if nothing was, the same fact if it was not valid, and else that fact, no longer valid, with "invalidated: " and the reason as its provenance or after its old provenance and "; ", or the old provenance if the reason is empty, and with all else as it was; under any other identifier the same is found, and the entities are the same. Another call for the fact, with whatever reason, then returns false and changes nothing.
pub invalidate_fact_lem :
    (i reason : String) (s : GraphStore) (k again : String)
    → ((invalidate_fact i reason s).0 ≡ passes (λ f. f.valid) (Dict.lookup i s.facts))
      × ((((i ≡ k)
              × IsWritten reason
                  (Dict.lookup k s.facts)
                  (Dict.lookup k (invalidate_fact i reason s).1.facts))
            ⊎ ((i ≢ k)
                × (Dict.lookup k (invalidate_fact i reason s).1.facts ≡ Dict.lookup k s.facts)))
          × (((invalidate_fact i reason s).1.entities ≡ s.entities)
              × (invalidate_fact i again (invalidate_fact i reason s).1
                  ≡ (false, (invalidate_fact i reason s).1))))
invalidate_fact_lem i reason s k again = (
  returned i reason s,
  (
    rw (lookup-invalidate_fact i reason s k) (write_cases i k reason (Dict.lookup k s.facts)),
    (entities-invalidate_fact i reason s, once i reason again s),
  ),
)
