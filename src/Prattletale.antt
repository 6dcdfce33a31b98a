-- ===== src/Prattletale.antt =====
-- app/apps/prattletale/director.py: the plan for a reply, read from the answer of a language model. A
-- number of JSON is a value of the parameter `N`; `json.loads`, `str`, `int`, `str.lower` and
-- `str.strip` are parameters.
pub mod Plans
use ai_job_server.Prelude.{
  ℕ, min, max, ◌==◌, String, Bool, true, false, not, ◌||◌, Option, none, some, List, [], ◌∷◌, map,
  if◌then◌else◌, keep, any,
}
use ai_job_server.TextDiff.{Text, text_eq, codes}
use ai_job_server.Structured.{plain, scan, is_nil}

mutual
  pub data Json (N : Type 0) : Type 0 where
    null : Json N
    bool : Bool → Json N
    number : N → Json N
    text : Text → Json N
    array : Items N → Json N
    object : Entries N → Json N

  pub data Items (N : Type 0) : Type 0 where
    no_items : Items N
    item : Json N → Items N → Items N

  pub data Entries (N : Type 0) : Type 0 where
    no_entries : Entries N
    entry : Text → Json N → Entries N → Entries N

-- What `int` does: a number, one below 0, a TypeError or ValueError, or another exception.
pub data Whole : Type 0 where
  whole : ℕ → Whole
  negative not_whole overflow : Whole

-- What `json.loads` does: a value, a `ValueError`, or another exception, such as the RecursionError
-- for a value that is nested too deep.
pub data Loaded (N : Type 0) : Type 0 where
  value : Json N → Loaded N
  not_json uncaught : Loaded N

-- The `str` of a value that was read is taken to raise nothing.
pub record World (N : Type 0) : Type 0 where
  pub loads : Text → Loaded N
  pub str : Json N → Text
  pub int : Json N → Whole
  pub nonzero : N → Bool
  pub lower : Text → Text
  pub strip : Text → Text

pub record Plan : Type 0 where
  pub message_count : ℕ
  pub include_action : Bool
  pub include_narration : Bool
  pub conversation_move : Text
  pub emotional_temperature : Text
  pub stance : Text
  pub must_reference : Text
  pub must_include : Text
  pub must_avoid : List Text
  pub reply_length : Text

-- An exception that is not caught, nothing usable, or a plan.
pub data Parsed : Type 0 where
  raised unusable : Parsed
  planned : Plan → Parsed

-- The text from the first `{` to the brace that closes it.
unfoldable pub extract_json_object : Text → Option Text
unfolding scan
extract_json_object [] = none
extract_json_object (c ∷ t) =
    let later = extract_json_object t in if c == 123 then scan 123 125 plain 0 (c ∷ t) else later

abbrev lengths : List Text
lengths = codes "terse" ∷ codes "short" ∷ codes "medium" ∷ []

unfoldable pub is_length : Text → Bool
unfolding any
is_length t = any (λ l. text_eq t l) lengths

abbrev pub clamped : Whole → Option ℕ
clamped (whole n) = some (max 1 (min 4 n))
clamped negative = some 1
clamped not_whole = some 1
clamped overflow = none

module _ {N : Type 0} (w : World N) where
  -- `d.get(k)`; the keys of a dict are distinct.
  unfoldable pub get : Text → Entries N → Option (Json N)
  get k no_entries = none
  get k (entry j v d) = if text_eq j k then some v else get k d

  abbrev truthy : Json N → Bool
  truthy null = false
  truthy (bool b) = b
  truthy (number n) = w.nonzero n
  truthy (text t) = not (is_nil t)
  truthy (array no_items) = false
  truthy (array (item x xs)) = true
  truthy (object no_entries) = false
  truthy (object (entry k v d)) = true

  -- `_as_str`
  unfoldable pub as_str : Option (Json N) → Text
  as_str none = []
  as_str (some null) = []
  as_str (some v) = w.strip (w.str v)

  -- `data.get("reply_shape") or {}`, or `{}` if that is no dict.
  abbrev pub shape_of : Option (Json N) → Entries N
  shape_of (some (object d)) = d
  shape_of _ = no_entries

  abbrev pub count_of : Option (Json N) → Option ℕ
  count_of none = some 1
  count_of (some v) = clamped (w.int v)

  abbrev flag_of : Option (Json N) → Bool
  flag_of none = false
  flag_of (some v) = truthy v

  unfoldable pub length_of : Option (Json N) → Text
  unfolding as_str is_length
  length_of v = if is_length (w.lower (as_str v)) then w.lower (as_str v) else codes "short"

  abbrev items_of : Items N → List (Json N)
  items_of no_items = []
  items_of (item x xs) = x ∷ items_of xs

  abbrev keys_of : Entries N → List (Json N)
  keys_of no_entries = []
  keys_of (entry k v d) = text k ∷ keys_of d

  -- What `for x in must_avoid_raw` goes through, none if it is refused with a TypeError.
  unfoldable pub avoided : Option (Json N) → Option (List (Json N))
  avoided none = some []
  avoided (some null) = some []
  avoided (some (bool b)) = if b then none else some []
  avoided (some (number n)) = if w.nonzero n then none else some []
  avoided (some (text t)) = some (if is_nil t then [] else text t ∷ [])
  avoided (some (array xs)) = some (items_of xs)
  avoided (some (object d)) = some (keys_of d)

  unfoldable pub nonempty_texts : List (Json N) → List Text
  unfolding keep as_str
  nonempty_texts xs = keep (λ t. not (is_nil t)) (map (λ x. as_str (some x)) xs)

  unfoldable pub plan_of : Entries N → ℕ → List (Json N) → Plan
  unfolding get as_str length_of nonempty_texts
  plan_of d count avoid = record {
    message_count = count;
    include_action =
        flag_of (get (codes "include_action") (shape_of (get (codes "reply_shape") d)));
    include_narration =
        flag_of (get (codes "include_narration") (shape_of (get (codes "reply_shape") d)));
    conversation_move = as_str (get (codes "conversation_move") d);
    emotional_temperature = as_str (get (codes "emotional_temperature") d);
    stance = as_str (get (codes "stance") d);
    must_reference = as_str (get (codes "must_reference") d);
    must_include = as_str (get (codes "must_include") d);
    must_avoid = nonempty_texts avoid;
    reply_length = length_of (get (codes "length") d);
  }

abbrev pub no_texts : List Text → Bool
no_texts [] = true
no_texts (t ∷ ts) = false

unfoldable pub has_directive : Plan → Bool
has_directive p =
    not (is_nil p.conversation_move)
    || (not (is_nil p.emotional_temperature)
        || (not (is_nil p.stance)
            || (not (is_nil p.must_reference)
                || (not (is_nil p.must_include) || not (no_texts p.must_avoid)))))

module _ {N : Type 0} (w : World N) where
  abbrev pub usable : Plan → Parsed
  usable p = if has_directive p then planned p else unusable

  abbrev pub completed : Entries N → Option ℕ → Option (List (Json N)) → Parsed
  completed d none avoid = raised
  completed d (some count) none = raised
  completed d (some count) (some avoid) = usable (plan_of w d count avoid)

  abbrev pub from_json : Loaded N → Parsed
  from_json uncaught = raised
  from_json (value (object d)) =
      completed d
        (count_of w (get w (codes "message_count") (shape_of w (get w (codes "reply_shape") d))))
        (avoided w (get w (codes "must_avoid") d))
  from_json _ = unusable

  abbrev pub from_blob : Option Text → Parsed
  from_blob none = unusable
  from_blob (some blob) = from_json (w.loads blob)

  unfoldable pub parse_director_plan : Text → Parsed
  unfolding extract_json_object get avoided plan_of has_directive
  parse_director_plan raw = from_blob (extract_json_object (w.strip raw))
