-- ===== src/Workbench/Profiles/Prose.antt =====
-- The object is found between prose.
use mathlib.Core.List.{append_assoc}
use ros2_vlm_demo.Common.{
  ℕ, suc, ◌+◌, ◌-◌, ◌≡◌, refl, sym, ap, ◌∙◌, String, Bool, true, false, not, Option, none, some,
  List, [], ◌∷◌, ◌++◌, eqb, is_empty, any, if◌then◌else◌, arith, All,
}
use ros2_vlm_demo.Json.{Value, null, bool, int, float, str, dict, list, Members}
use ros2_vlm_demo.Distillation.Schema.{Text}
use ros2_vlm_demo.Workbench.Profiles.{
  ParsedOutput, ParseError, missing_keys, missing, failed_parse, parsed_object, open_brace,
  close_brace, after_brace, up_to_close, check_keys, check_value, parse_structured_output,
}

-- A text in which every brace has its partner.
pub data IsBalanced : Text → Type 0 where
  nothing : IsBalanced []
  plain :
      (x : ℕ) (t : Text)
      → eqb x open_brace ≡ false
      → eqb x close_brace ≡ false
      → IsBalanced t
      → IsBalanced (x ∷ t)
  nested :
      (s t : Text)
      → IsBalanced s
      → IsBalanced t
      → IsBalanced (open_brace ∷ (s ++ (close_brace ∷ t)))

not_one : (d : ℕ) → eqb (suc (suc d)) 1 ≡ false
not_one d = ground arith

one_less : (d : ℕ) → suc (suc d) - 1 ≡ suc d
one_less d = omega arith

one_more : (d : ℕ) → suc d + 1 ≡ suc (suc d)
one_more d = omega arith

closes :
    (depth : ℕ) (k : Text)
    → up_to_close (suc (suc depth)) (close_brace ∷ k) ≡ close_brace ∷ up_to_close (suc depth) k
unfolding up_to_close
closes depth k = rw (not_one depth, one_less depth) refl

opens :
    (depth : ℕ) (k : Text)
    → up_to_close (suc depth) (open_brace ∷ k) ≡ open_brace ∷ up_to_close (suc (suc depth)) k
unfolding up_to_close
opens depth k = rw (one_more depth) refl

-- The loop passes over a balanced text.
up_to_close-append :
    (s : Text)
    → IsBalanced s
    → (depth : ℕ) (k : Text) → up_to_close (suc depth) (s ++ k) ≡ s ++ up_to_close (suc depth) k
unfolding up_to_close
up_to_close-append _ nothing depth k = refl
up_to_close-append _ (plain x t h1 h2 b) depth k =
    rw (h1, h2) (ap (λ u. x ∷ u) (up_to_close-append t b depth k))
up_to_close-append _ (nested s t b b') depth k =
    opens depth ((s ++ (close_brace ∷ t)) ++ k)
    ∙ ap (λ u. open_brace ∷ u)
        (ap (up_to_close (suc (suc depth))) (append_assoc s (close_brace ∷ t) k)
          ∙ up_to_close-append s b (suc depth) (close_brace ∷ (t ++ k))
          ∙ ap (λ u. s ++ u)
              (closes depth (t ++ k) ∙ ap (λ u. close_brace ∷ u) (up_to_close-append t b' depth k))
          ∙ sym (append_assoc s (close_brace ∷ t) (up_to_close (suc depth) k)))

-- The object that begins with a brace ends with its partner.
object_lem :
    (body rest : Text)
    → IsBalanced body
    → up_to_close 1 (body ++ (close_brace ∷ rest)) ≡ body ++ (close_brace ∷ [])
unfolding up_to_close
object_lem body rest b = up_to_close-append body b 0 (close_brace ∷ rest)

after_brace_lem :
    (prose rest : Text)
    → All (λ x. eqb x open_brace ≡ false) prose
    → after_brace (prose ++ (open_brace ∷ rest)) ≡ some rest
unfolding after_brace
after_brace_lem [] rest h = refl
after_brace_lem (x ∷ prose) rest (h, hs) = rw h (after_brace_lem prose rest hs)

-- The same result for another text.
abbrev pub with_raw : Text → ParsedOutput → ParsedOutput
with_raw raw o = record o { raw_text = raw }

either :
    (b : Bool) (raw raw' : Text) (obj : Members) (e : ParseError)
    → (if b then parsed_object raw obj else failed_parse raw (some obj) e)
      ≡ with_raw raw (if b then parsed_object raw' obj else failed_parse raw' (some obj) e)
either true raw raw' obj e = refl
either false raw raw' obj e = refl

keys_lem :
    (raw raw' : Text) (required : Option (List String)) (obj : Members)
    → check_keys raw required obj ≡ with_raw raw (check_keys raw' required obj)
keys_lem raw raw' none obj = refl
keys_lem raw raw' (some required) obj =
    either (is_empty (missing required obj)) raw raw' obj (missing_keys (missing required obj))

value_lem :
    (raw raw' : Text) (required : Option (List String)) (o : Option Value)
    → check_value raw required o ≡ with_raw raw (check_value raw' required o)
unfolding check_value
value_lem raw raw' required none = refl
value_lem raw raw' required (some null) = refl
value_lem raw raw' required (some (bool b)) = refl
value_lem raw raw' required (some (int n)) = refl
value_lem raw raw' required (some (float x)) = refl
value_lem raw raw' required (some (str t)) = refl
value_lem raw raw' required (some (list xs)) = refl
value_lem raw raw' required (some (dict obj)) = keys_lem raw raw' required obj

module _ (is_space : ℕ → Bool) (brace : is_space open_brace ≡ false) where
  any_lem : (prose rest : Text) → any (λ x. not (is_space x)) (prose ++ (open_brace ∷ rest)) ≡ true
  any_lem [] rest = rw brace refl
  any_lem (x ∷ prose) rest = ground (arith, any_lem prose rest)

  module _ (loads : Text → Option Value) where
    parse_lem :
        (prose body rest : Text) (required : Option (List String))
        → All (λ x. eqb x open_brace ≡ false) prose
        → IsBalanced body
        → parse_structured_output is_space loads
            (prose ++ (open_brace ∷ (body ++ (close_brace ∷ rest))))
            required
          ≡ check_value
              (prose ++ (open_brace ∷ (body ++ (close_brace ∷ rest))))
              required
              (loads (open_brace ∷ (body ++ (close_brace ∷ []))))
    unfolding parse_structured_output
    parse_lem prose body rest required no_brace b =
        rw
          (
            any_lem prose (body ++ (close_brace ∷ rest)),
            after_brace_lem prose (body ++ (close_brace ∷ rest)) no_brace,
            object_lem body rest b,
          )
          refl

    -- Prose around an object whose braces are balanced does not matter: if no brace opens in the prose before it, then the output is that of the object alone, whatever follows it and whatever json.loads makes of it, but for the raw text, which is the whole.
    pub parse_structured_output_lem :
        (prose body rest : Text) (required : Option (List String))
        → All (λ x. eqb x open_brace ≡ false) prose
        → IsBalanced body
        → parse_structured_output is_space loads
            (prose ++ (open_brace ∷ (body ++ (close_brace ∷ rest))))
            required
          ≡ with_raw (prose ++ (open_brace ∷ (body ++ (close_brace ∷ rest)))) (
              parse_structured_output is_space loads
                (open_brace ∷ (body ++ (close_brace ∷ [])))
                required)
    parse_structured_output_lem prose body rest required no_brace b =
        let raw = prose ++ (open_brace ∷ (body ++ (close_brace ∷ rest))) in
        let alone = open_brace ∷ (body ++ (close_brace ∷ [])) in
        parse_lem prose body rest required no_brace b
        ∙ value_lem raw alone required (loads alone)
        ∙ ap (with_raw raw) (sym (parse_lem [] body [] required tt b))
