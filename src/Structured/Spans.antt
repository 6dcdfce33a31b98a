-- ===== src/Structured/Spans.antt =====
-- app/chain/structured.py: the span that `_extract_balanced` finds.
use ai_job_server.Prelude.{
  ℕ, ◌+◌, ◌-◌, ◌<◌, ◌==◌, ◌≡◌, ◌≢◌, refl, sym, ap, ◌∙◌, true, false, Option, none, some, [], ◌∷◌,
  ◌++◌, append_assoc, arith, All,
}
use ai_job_server.TextDiff.{Text}
use ai_job_server.Structured.{
  quote, backslash, plain, in_string, onto, scan, is_opener, closer_of, extract_balanced,
}

-- What stands between the quotes of a string.
pub data Literal : Text → Type 0 where
  ended : Literal []
  ordinary : {c : ℕ} {t : Text} → c ≢ backslash → c ≢ quote → Literal t → Literal (c ∷ t)
  escape : {c : ℕ} {t : Text} → Literal t → Literal (backslash ∷ c ∷ t)

-- Text in which openers and closers outside of strings match.
pub data Nested (opener closer : ℕ) : Text → Type 0 where
  nil : Nested opener closer []
  other :
      {c : ℕ} {t : Text}
      → c ≢ quote
      → c ≢ opener
      → c ≢ closer
      → Nested opener closer t
      → Nested opener closer (c ∷ t)
  string :
      {s t : Text}
      → Literal s
      → Nested opener closer t
      → Nested opener closer (quote ∷ s ++ quote ∷ t)
  group :
      {s t : Text}
      → Nested opener closer s
      → Nested opener closer t
      → Nested opener closer (opener ∷ s ++ closer ∷ t)

abbrev before : Text → Option Text → Option Text
before s none = none
before s (some t) = some (s ++ t)

before-append : (s t : Text) (o : Option Text) → before (s ++ t) o ≡ before s (before t o)
before-append s t none = refl
before-append s t (some u) = ap some (append_assoc s t u)

before-nil : (o : Option Text) → before [] o ≡ o
before-nil none = refl
before-nil (some t) = refl

onto-before : (c : ℕ) (s : Text) (o : Option Text) → onto c (before s o) ≡ before (c ∷ s) o
onto-before c s none = refl
onto-before c s (some u) = refl

before-onto :
    (a b : ℕ) (s u : Text) (o : Option Text)
    → onto a (before s (onto b (before u o))) ≡ before (a ∷ s ++ b ∷ u) o
before-onto a b s u none = refl
before-onto a b s u (some w) = ap (λ v. some (a ∷ v)) (sym (append_assoc s (b ∷ u) w))

differ : (a b : ℕ) → a ≢ b → (a == b) ≡ false
differ a b n = ground (arith, n)

same : (a : ℕ) → (a == a) ≡ true
same a = ground arith

module _ (opener closer : ℕ) where
  scan-Literal :
      (d : ℕ) (s t : Text)
      → Literal s
      → scan opener closer in_string d (s ++ quote ∷ t)
        ≡ before s (onto quote (scan opener closer plain d t))
  unfolding scan
  scan-Literal d _ t ended = sym (before-nil _)
  scan-Literal d _ t (ordinary {c = c} {t = s} a b l) =
      rw (differ c backslash a)
        (rw (differ c quote b) (ap (onto c) (scan-Literal d s t l) ∙ onto-before c s _))
  scan-Literal d _ t (escape {c = c} {t = s} l) =
      ap (onto backslash) (ap (onto c) (scan-Literal d s t l) ∙ onto-before c s _)
      ∙ onto-before backslash (c ∷ s) _

  scan-opener :
      (d : ℕ) (t : Text)
      → opener ≢ quote
      → scan opener closer plain d (opener ∷ t) ≡ onto opener (scan opener closer plain (d + 1) t)
  unfolding scan
  scan-opener d t oq = rw (differ opener quote oq) (rw (same opener) refl)

  scan-closer :
      (d : ℕ) (t : Text)
      → closer ≢ quote
      → closer ≢ opener
      → 0 < d
      → scan opener closer plain (d + 1) (closer ∷ t) ≡ onto closer (scan opener closer plain d t)
  unfolding scan
  scan-closer d t cq co h = rw (differ closer quote cq) (
      rw (differ closer opener co) (
        rw (same closer) (
          rw (differ (d + 1 - 1) 0 (λ e. omega (arith, e, h)))
            (ap (λ n. onto closer (scan opener closer plain n t)) (omega arith)))))

  scan-last :
      (t : Text)
      → closer ≢ quote
      → closer ≢ opener
      → scan opener closer plain 1 (closer ∷ t) ≡ some (closer ∷ [])
  unfolding scan
  scan-last t cq co =
      rw (differ closer quote cq) (rw (differ closer opener co) (rw (same closer) refl))

  scan-Nested :
      (d : ℕ) (s t : Text)
      → opener ≢ quote
      → closer ≢ quote
      → closer ≢ opener
      → 0 < d
      → Nested opener closer s
      → scan opener closer plain d (s ++ t) ≡ before s (scan opener closer plain d t)
  unfolding scan
  scan-Nested d _ t oq cq co h nil = sym (before-nil _)
  scan-Nested d _ t oq cq co h (other {c = c} {t = s} a b e n) = rw (differ c quote a) (
      rw (differ c opener b)
        (rw (differ c closer e) (ap (onto c) (scan-Nested d s t oq cq co h n) ∙ onto-before c s _)))
  scan-Nested d _ t oq cq co h (string {s = s} {t = u} l n) =
      ap (λ v. onto quote (scan opener closer in_string d v)) (append_assoc s (quote ∷ u) t)
      ∙ ap (onto quote) (scan-Literal d s (u ++ t) l)
      ∙ ap (λ o. onto quote (before s (onto quote o))) (scan-Nested d u t oq cq co h n)
      ∙ before-onto quote quote s u _
  scan-Nested d _ t oq cq co h (group {s = s} {t = u} m n) =
      scan-opener d ((s ++ closer ∷ u) ++ t) oq
      ∙ ap (λ v. onto opener (scan opener closer plain (d + 1) v)) (append_assoc s (closer ∷ u) t)
      ∙ ap (onto opener) (scan-Nested (d + 1) s (closer ∷ u ++ t) oq cq co (omega arith) m)
      ∙ ap (λ o. onto opener (before s o)) (scan-closer d (u ++ t) cq co h)
      ∙ ap (λ o. onto opener (before s (onto closer o))) (scan-Nested d u t oq cq co h n)
      ∙ before-onto opener closer s u _

-- A text whose first opener, `{` or `[`, begins a span whose openers and closers match, those within
-- strings left out, gives exactly that span, whatever follows it.
pub extract_balanced-Nested :
    (prose : Text) (opener : ℕ) (body rest : Text)
    → All (λ c. is_opener c ≡ false) prose
    → is_opener opener ≡ true
    → Nested opener (closer_of opener) body
    → extract_balanced (prose ++ opener ∷ body ++ closer_of opener ∷ rest)
      ≡ some (opener ∷ body ++ closer_of opener ∷ [])
unfolding extract_balanced
extract_balanced-Nested [] opener body rest a o n =
    let closer = closer_of opener in
    let oq : opener ≢ quote = λ e. ground (arith, e, o) in
    let cq : closer ≢ quote = λ e. ground (arith, e, o) in
    let co : closer ≢ opener = λ e. ground (arith, e, o) in
    rw o (
      scan-opener opener closer 0 (body ++ closer ∷ rest) oq
      ∙ ap (onto opener) (scan-Nested opener closer 1 body (closer ∷ rest) oq cq co (omega arith) n)
      ∙ ap (λ x. onto opener (before body x)) (scan-last opener closer rest cq co))
extract_balanced-Nested (c ∷ prose) opener body rest a o n =
    rw a.0 (extract_balanced-Nested prose opener body rest a.1 o n)
