-- ===== src/KnowledgeGraph/Schema/EntityId.antt =====
-- Which texts `is_valid_entity_id` of knowledge_graph/schema.py accepts.
use ros2_vlm_demo.Common.{
  ℕ, ◌≤◌, String, ◌≡◌, refl, ◌≢◌, ◌↔◌, ◌⊎◌, inl, inr, true, ap, ◌&&◌, eqb, is_empty, Bool-cases,
  List, [], ◌∷◌, ◌++◌, arith, length, codes, All,
}
use ros2_vlm_demo.KnowledgeGraph.Schema.{
  is_id_char, entity_id_rest, entity_id_re, is_valid_entity_id, newline, max_id_length,
}

abbrev pub IsWord : List ℕ → Type 0
IsWord = All (λ c. is_id_char c ≡ true)

-- `cs` is `word`, or `word` and a newline.
abbrev pub Spells : List ℕ → List ℕ → Type 0
Spells cs word = (cs ≡ word) ⊎ (cs ≡ word ++ newline ∷ [])

newline_is_no_id_char : is_id_char newline ≢ true
unfolding is_id_char
newline_is_no_id_char h = ground arith

-- One more word character in front.
Spells-cons :
    (c : ℕ) (cs : List ℕ)
    → is_id_char c ≡ true
    → (w : List ℕ) × IsWord w × Spells cs w
    → (w : List ℕ) × IsWord w × Spells (c ∷ cs) (c ∷ w)
Spells-cons c cs h (w, all, inl e) = (w, all, inl (ap (λ t. c ∷ t) e))
Spells-cons c cs h (w, all, inr e) = (w, all, inr (ap (λ t. c ∷ t) e))

last_newline : (c : ℕ) (cs : List ℕ) → (eqb c newline && is_empty cs) ≡ true → c ∷ cs ≡ newline ∷ []
last_newline c [] h = ground arith
last_newline c (d ∷ cs) h = ground arith

entity_id_rest_sound :
    (cs : List ℕ) → entity_id_rest cs ≡ true → (w : List ℕ) × IsWord w × Spells cs w
unfolding entity_id_rest
entity_id_rest_sound [] h = ([], tt, inl refl)
entity_id_rest_sound (c ∷ cs) h = elim (Bool-cases (is_id_char c)) [
  | inl word ↦
      let (w, all, e) = Spells-cons c cs word (entity_id_rest_sound cs (ground arith)) in
      (c ∷ w, (word, all), e)
  | inr other ↦ ([], tt, inr (last_newline c cs (ground arith)))
]

entity_id_rest_complete : (w cs : List ℕ) → IsWord w → Spells cs w → entity_id_rest cs ≡ true
unfolding entity_id_rest
entity_id_rest_complete [] cs all (inl e) = rw e
entity_id_rest_complete [] cs all (inr e) = rw e (ground (arith, newline_is_no_id_char))
entity_id_rest_complete (c ∷ w) cs (word, all) (inl e) =
    rw (e, word) (entity_id_rest_complete w w all (inl refl))
entity_id_rest_complete (c ∷ w) cs (word, all) (inr e) =
    rw (e, word) (entity_id_rest_complete w (w ++ newline ∷ []) all (inr refl))

-- The texts that are accepted.
pub record IsEntityId (cs : List ℕ) : Type 0 where
  pub word : List ℕ
  pub nonempty : word ≢ []
  pub chars : IsWord word
  pub spelled : Spells cs word
  pub short : length cs ≤ max_id_length

re_sound : (cs : List ℕ) → entity_id_re cs ≡ true → (w : List ℕ) × (w ≢ []) × IsWord w × Spells cs w
unfolding entity_id_re
re_sound [] h = absurd (cc h)
re_sound (c ∷ cs) h =
    let (w, all, e) = Spells-cons c cs (ground arith) (entity_id_rest_sound cs (ground arith)) in
    (c ∷ w, (λ p. cc p), (ground arith, all), e)

re_complete : (w cs : List ℕ) → w ≢ [] → IsWord w → Spells cs w → entity_id_re cs ≡ true
unfolding entity_id_re
re_complete [] cs ne all e = absurd (ne refl)
re_complete (c ∷ w) cs ne (word, all) (inl e) =
    rw (e, word) (entity_id_rest_complete w w all (inl refl))
re_complete (c ∷ w) cs ne (word, all) (inr e) =
    rw (e, word) (entity_id_rest_complete w (w ++ newline ∷ []) all (inr refl))

re_nonempty : (cs : List ℕ) → entity_id_re cs ≡ true → 1 ≤ length cs
unfolding entity_id_re
re_nonempty [] h = absurd (cc h)
re_nonempty (c ∷ cs) h = omega arith

-- `is_valid_entity_id` accepts exactly the texts of at most 128 code points that are a nonempty
-- word over `[a-zA-Z0-9_-]`, or such a word and one final newline.
pub is_valid_entity_id_lem : (s : String) → (is_valid_entity_id s ≡ true) ↔ IsEntityId (codes s)
unfolding is_valid_entity_id
is_valid_entity_id_lem s = (sound, complete)
  where
    sound : is_valid_entity_id s ≡ true → IsEntityId (codes s)
    sound h =
        let (w, ne, all, e) = re_sound (codes s) (ground arith) in
        record { word = w; nonempty = ne; chars = all; spelled = e; short = ground arith }

    complete : IsEntityId (codes s) → is_valid_entity_id s ≡ true
    complete v =
        let re : entity_id_re (codes s) ≡ true =
          re_complete v.word (codes s) v.nonempty v.chars v.spelled in
        ground (arith, v.short, re, re_nonempty (codes s) re)
