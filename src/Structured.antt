-- ===== src/Structured.antt =====
-- app/chain/structured.py: JSON taken out of the answer of a language model. A text is the list of
-- its code points. `json.loads` and `str.isspace` are parameters.
pub mod Spans
pub mod Answers
use ai_job_server.Prelude.{
  ℕ, zero, suc, ◌+◌, ◌-◌, ◌==◌, Bool, true, false, not, ◌&&◌, ◌||◌, String, Option, none, some,
  List, [], ◌∷◌, ◌++◌, if◌then◌else◌, keep, drop,
}
use ai_job_server.Prelude.Dict.{has}
use ai_job_server.Prelude.Result.{Result, ok, err}
use ai_job_server.TextDiff.{Text, text_eq}

abbrev pub quote : ℕ
quote = 34

abbrev pub backslash : ℕ
backslash = 92

-- `in_str` and `esc`
pub data Mode : Type 0 where
  plain in_string escaped : Mode

abbrev pub onto : ℕ → Option Text → Option Text
onto c none = none
onto c (some t) = some (c ∷ t)

-- The second loop of `_extract_balanced`: the text up to the closer at which `depth` is 0 again.
unfoldable pub scan : ℕ → ℕ → Mode → ℕ → Text → Option Text
scan opener closer mode depth [] = none
scan opener closer escaped depth (c ∷ t) = onto c (scan opener closer in_string depth t)
scan opener closer in_string depth (c ∷ t) =
    let next = if c == backslash then escaped else if c == quote then plain else in_string in
    onto c (scan opener closer next depth t)
scan opener closer plain depth (c ∷ t) =
    let literal = onto c (scan opener closer in_string depth t) in
    let deeper = onto c (scan opener closer plain (depth + 1) t) in
    let higher = onto c (scan opener closer plain (depth - 1) t) in
    let level = onto c (scan opener closer plain depth t) in
    if c == quote
    then literal
    else if c == opener
    then deeper
    else if c == closer
    then (if depth - 1 == 0 then some (c ∷ []) else higher)
    else level

abbrev pub brace : ℕ
brace = 123

abbrev pub bracket : ℕ
bracket = 91

abbrev pub is_opener : ℕ → Bool
is_opener c = c == brace || c == bracket

abbrev pub closer_of : ℕ → ℕ
closer_of c = if c == brace then 125 else 93

unfoldable pub extract_balanced : Text → Option Text
unfolding scan
extract_balanced [] = none
extract_balanced (c ∷ t) =
    let later = extract_balanced t in
    if is_opener c then scan c (closer_of c) plain 0 (c ∷ t) else later

abbrev pub starts_with : Text → Text → Bool
starts_with [] t = true
starts_with (c ∷ p) [] = false
starts_with (c ∷ p) (d ∷ t) = c == d && starts_with p t

abbrev pub backticks : Text
backticks = 96 ∷ 96 ∷ 96 ∷ []

abbrev pub with_first : ℕ → Option (Text × Text) → Option (Text × Text)
with_first c none = none
with_first c (some (a, b)) = some (c ∷ a, b)

-- What stands before and after the first three backticks.
unfoldable pub split_fence : Text → Option (Text × Text)
split_fence [] = none
split_fence (c ∷ t) =
    let later = with_first c (split_fence t) in
    if starts_with backticks (c ∷ t) then some ([], drop 3 (c ∷ t)) else later

abbrev pub is_nil : Text → Bool
is_nil [] = true
is_nil (c ∷ t) = false

-- `json` or `JSON` after the opening of a fence.
abbrev skip_language : Text → Text
skip_language t =
    if starts_with (106 ∷ 115 ∷ 111 ∷ 110 ∷ []) t || starts_with (74 ∷ 83 ∷ 79 ∷ 78 ∷ []) t
    then drop 4 t
    else t

module _ (is_space : ℕ → Bool) where
  unfoldable pub strip_left : Text → Text
  strip_left [] = []
  strip_left (c ∷ t) = let rest = strip_left t in if is_space c then rest else c ∷ t

  abbrev pub kept : ℕ → Text → Text
  kept c [] = if is_space c then [] else c ∷ []
  kept c (d ∷ t) = c ∷ d ∷ t

  unfoldable pub strip_right : Text → Text
  strip_right [] = []
  strip_right (c ∷ t) = kept c (strip_right t)

  unfoldable pub strip : Text → Text
  unfolding strip_left strip_right
  strip t = strip_right (strip_left t)

  abbrev pub fence_end : Text → Option (Text × Text) → Text
  fence_end text none = strip text
  fence_end text (some (body, after)) = strip body

  abbrev pub fence_begin : Text → Option (Text × Text) → Text
  fence_begin text none = strip text
  fence_begin text (some (prose, after)) =
      fence_end text (split_fence (strip_left (skip_language after)))

  unfoldable pub strip_fences : Text → Text
  unfolding split_fence strip
  strip_fences text = fence_begin text (split_fence text)

  abbrev pub listed : Option Text → List Text
  listed none = []
  listed (some t) = if is_nil t then [] else t ∷ []

  -- `candidates`
  unfoldable pub candidates : Text → List Text
  unfolding strip_fences strip extract_balanced
  candidates raw =
      let stripped = strip raw in
      let fenced = strip_fences raw in
      let differs = not (is_nil fenced) && not (text_eq fenced stripped) in
      let balanced = listed (extract_balanced (if is_nil fenced then stripped else fenced)) in
      stripped ∷ (if differs then fenced ∷ balanced else balanced)

-- What `_validate` looks at of a value: the keys of an object, an array, or another value.
pub data Shape : Type 0 where
  a_dict : List String → Shape
  a_list a_scalar : Shape

pub data Expected : Type 0 where
  object array : Expected

pub record Schema : Type 0 where
  pub expected : Option Expected
  pub required : List String

pub data Defect (E : Type 0) : Type 0 where
  empty_output no_json : Defect E
  no_value : E → Defect E
  wrong_type : Defect E
  missing : List String → Defect E

abbrev all_there : {E : Type 0} → List String → Option (Defect E)
all_there [] = none
all_there (k ∷ ks) = some (missing (k ∷ ks))

unfoldable pub validate : {E : Type 0} → Option Schema → Shape → Option (Defect E)
unfolding has keep
validate none v = none
validate (some s) v = against s.expected v
  where
    against : {E : Type 0} → Option Expected → Shape → Option (Defect E)
    against none v = none
    against (some object) (a_dict keys) = all_there (keep (λ k. not (has k keys)) s.required)
    against (some object) _ = some wrong_type
    against (some array) a_list = none
    against (some array) _ = some wrong_type

module _ {V E : Type 0} (is_space : ℕ → Bool) (loads : Text → Result E V) (shape : V → Shape) where
  abbrev pub shaped : V → Option (Defect E) → Result (Defect E) V
  shaped v none = ok v
  shaped v (some f) = err f

  -- One round of the loop over the candidates.
  abbrev pub checked : Option Schema → Result E V → Result (Defect E) V
  checked schema (err e) = err (no_value e)
  checked schema (ok v) = shaped v (validate schema (shape v))

  unfoldable pub first_of : Option Schema → List Text → Defect E → Result (Defect E) V
  unfolding validate
  first_of schema [] last_err = err last_err
  first_of schema (c ∷ cs) last_err = elim (checked schema (loads c)) [
    | ok v ↦ ok v
    | err f ↦ first_of schema cs f
  ]

  unfoldable pub parse_json_output : Option Schema → Text → Result (Defect E) V
  unfolding strip candidates first_of
  parse_json_output schema raw =
      let found = first_of schema (candidates is_space raw) no_json in
      if is_nil (strip is_space raw) then err empty_output else found
