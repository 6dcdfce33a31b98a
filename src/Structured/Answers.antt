-- ===== src/Structured/Answers.antt =====
-- app/chain/structured.py: what `parse_json_output` makes of an answer with text around the JSON.
use ai_job_server.Prelude.{
  ℕ, ◌≡◌, refl, sym, ap, ◌∙◌, Bool, true, false, Option, none, some, List, [], ◌∷◌, ◌++◌,
  append_assoc, arith, All, Bool-cases, inl, inr,
}
use ai_job_server.Prelude.Result.{Result, ok, err}
use ai_job_server.TextDiff.{Text, text_eq}
use ai_job_server.Structured.{
  is_opener, closer_of, extract_balanced, split_fence, is_nil, strip_left, kept, strip_right, strip,
  strip_fences, candidates, Shape, Schema, Defect, no_json, no_value, validate, shaped, checked,
  first_of, parse_json_output,
}
use ai_job_server.Structured.Spans.{Nested, extract_balanced-Nested}

text_eq-same : (t : Text) → text_eq t t ≡ true
text_eq-same [] = refl
text_eq-same (c ∷ t) = ground (arith, text_eq-same t)

is_nil-append : (u t : Text) (c : ℕ) → is_nil (u ++ c ∷ t) ≡ false
is_nil-append [] t c = refl
is_nil-append (d ∷ u) t c = refl

module _ (is_space : ℕ → Bool) where
  strip_left-append :
      (u t : Text) (c : ℕ)
      → is_space c ≡ false
      → strip_left is_space (u ++ c ∷ t) ≡ strip_left is_space u ++ c ∷ t
  unfolding strip_left
  strip_left-append [] t c e = rw e refl
  strip_left-append (d ∷ u) t c e = elim (Bool-cases (is_space d)) [
    | inl f ↦ rw f (strip_left-append u t c e)
    | inr f ↦ rw f refl
  ]

  All-strip_left : (P : ℕ → Type 0) (u : Text) → All P u → All P (strip_left is_space u)
  unfolding strip_left
  All-strip_left P [] a = tt
  All-strip_left P (c ∷ u) a = elim (Bool-cases (is_space c)) [
    | inl f ↦ rw f (All-strip_left P u a.1)
    | inr f ↦ rw f a
  ]

  kept-append : (x c : ℕ) (u t : Text) → kept is_space x (u ++ c ∷ t) ≡ x ∷ u ++ c ∷ t
  kept-append x c [] t = refl
  kept-append x c (d ∷ u) t = refl

  kept-solid : (c : ℕ) (t : Text) → is_space c ≡ false → kept is_space c t ≡ c ∷ t
  kept-solid c [] e = rw e refl
  kept-solid c (d ∷ t) e = refl

  strip_right-append :
      (u t : Text) (c : ℕ)
      → is_space c ≡ false
      → strip_right is_space (u ++ c ∷ t) ≡ u ++ c ∷ strip_right is_space t
  unfolding strip_right
  strip_right-append [] t c e = kept-solid c (strip_right is_space t) e
  strip_right-append (x ∷ u) t c e =
      ap (kept is_space x) (strip_right-append u t c e) ∙ kept-append x c u (strip_right is_space t)

  -- Stripping leaves a span that begins and ends with other than spaces.
  strip-span :
      (prose body rest : Text) (c d : ℕ)
      → is_space c ≡ false
      → is_space d ≡ false
      → strip is_space (prose ++ c ∷ body ++ d ∷ rest)
        ≡ strip_left is_space prose ++ c ∷ body ++ d ∷ strip_right is_space rest
  unfolding strip
  strip-span prose body rest c d e f =
      let lead = strip_left is_space prose in
      ap (strip_right is_space) (
        ap (strip_left is_space) (append_assoc prose (c ∷ body) (d ∷ rest))
        ∙ strip_left-append prose (body ++ d ∷ rest) c e
        ∙ sym (append_assoc lead (c ∷ body) (d ∷ rest)))
      ∙ strip_right-append (lead ++ c ∷ body) rest d f

  candidates-plain :
      (raw t : Text) (c : ℕ)
      → split_fence raw ≡ none
      → is_nil (strip is_space raw) ≡ false
      → extract_balanced (strip is_space raw) ≡ some (c ∷ t)
      → candidates is_space raw ≡ strip is_space raw ∷ (c ∷ t) ∷ []
  unfolding candidates strip_fences
  candidates-plain raw t c e f g = rw e (rw f (rw (text_eq-same (strip is_space raw)) (rw g refl)))

module _ {V E : Type 0} (is_space : ℕ → Bool) (loads : Text → Result E V) (shape : V → Shape) where
  shaped-ok :
      (schema : Option Schema) (v : V)
      → validate {E = E} schema (shape v) ≡ none
      → checked is_space loads shape schema (ok v) ≡ ok v
  shaped-ok schema v e = ap (shaped is_space loads shape v) e

  -- The first candidate that has the shape is taken, whatever follows it.
  abbrev else_by : (Defect E → Result (Defect E) V) → Result (Defect E) V → Result (Defect E) V
  else_by k r = elim r [ ok v ↦ ok v | err l ↦ k l ]

  first_of-one :
      (schema : Option Schema) (cs : List Text) (s : Text) (v : V) (last : Defect E)
      → loads s ≡ ok v
      → validate {E = E} schema (shape v) ≡ none
      → first_of is_space loads shape schema (s ∷ cs) last ≡ ok v
  unfolding first_of
  first_of-one schema cs s v last e f =
      ap (else_by (λ l. first_of is_space loads shape schema cs l))
        (ap (checked is_space loads shape schema) e ∙ shaped-ok schema v f)

  first_of-two :
      (schema : Option Schema) (s t : Text) (v : V) (last : Defect E)
      → loads t ≡ ok v
      → validate {E = E} schema (shape v) ≡ none
      → ((x : V) → loads s ≡ ok x → x ≡ v)
      → first_of is_space loads shape schema (s ∷ t ∷ []) last ≡ ok v
  first_of-two schema s t v last e f g = go (loads s) refl
    where
      go :
          (r : Result E V)
          → loads s ≡ r
          → first_of is_space loads shape schema (s ∷ t ∷ []) last ≡ ok v
      go (ok x) h = first_of-one schema (t ∷ []) s v last (h ∙ ap ok (g x h)) f
      go (err x) h =
          unfold first_of in
          (ap (else_by (λ l. first_of is_space loads shape schema (t ∷ []) l))
              (ap (checked is_space loads shape schema) h)
            ∙ first_of-one schema [] t v (no_value x) e f)

-- An answer without fences whose first `{` or `[` begins a span whose openers and closers match gives
-- the value that is read from that span, whatever text is before and after it: it is supposed that the
-- value has the shape that is asked for, that `{`, `[`, `}` and `]` are not spaces, and that the whole
-- answer gives no other value.
pub parse_json_output-Nested :
    {V E : Type 0} (is_space : ℕ → Bool) (loads : Text → Result E V) (shape : V → Shape)
    (schema : Option Schema) (prose : Text) (opener : ℕ) (body rest : Text) (v : V)
    → All (λ c. is_opener c ≡ false) prose
    → is_opener opener ≡ true
    → Nested opener (closer_of opener) body
    → is_space opener ≡ false
    → is_space (closer_of opener) ≡ false
    → split_fence (prose ++ opener ∷ body ++ closer_of opener ∷ rest) ≡ none
    → loads (opener ∷ body ++ closer_of opener ∷ []) ≡ ok v
    → validate {E = E} schema (shape v) ≡ none
    → ((x : V)
        → loads (strip is_space (prose ++ opener ∷ body ++ closer_of opener ∷ rest)) ≡ ok x
        → x ≡ v)
    → parse_json_output is_space loads shape schema
        (prose ++ opener ∷ body ++ closer_of opener ∷ rest)
      ≡ ok v
unfolding parse_json_output
parse_json_output-Nested {E = E} is_space loads shape schema prose opener body rest v a o n s₁ s₂
      fence e f g =
    let closer = closer_of opener in
    let raw = prose ++ opener ∷ body ++ closer ∷ rest in
    let stripped = strip-span is_space prose body rest opener closer s₁ s₂ in
    let lead = strip_left is_space prose in
    let full : is_nil (strip is_space raw) ≡ false =
      ap is_nil stripped
      ∙ is_nil-append (lead ++ opener ∷ body) (strip_right is_space rest) closer in
    let span =
      ap extract_balanced stripped
      ∙ extract_balanced-Nested lead opener body (strip_right is_space rest)
          (All-strip_left is_space _ prose a) o n in
    let cs = candidates-plain is_space raw (body ++ closer ∷ []) opener fence full span in
    rw full (
      ap (λ l. first_of is_space loads shape schema l no_json) cs
      ∙ first_of-two is_space loads shape schema (strip is_space raw) (opener ∷ body ++ closer ∷ [])
          v no_json e f g)
