-- ===== src/Prattletale/Plans.antt =====
-- app/apps/prattletale/director.py: the plans that are accepted, and the answers that raise.
use ai_job_server.Prelude.{
  ℕ, ◌≤◌, ◌≡◌, ◌≢◌, ◌↔◌, ◌⊎◌, inl, inr, refl, ap, ◌∙◌, subst, Bool, true, false, not, Option, none,
  some, List, [], ◌∷◌, map, if◌then◌else◌, keep, arith, All, Bool-cases, if_ind,
}
use ai_job_server.TextDiff.{Text, codes}
use ai_job_server.Structured.{is_nil}
use ai_job_server.Prattletale.{
  Json, null, bool, number, text, array, object, Entries, Loaded, value, not_json, uncaught, Whole,
  whole, negative, not_whole, overflow, World, Plan, Parsed, raised, planned, extract_json_object,
  is_length, clamped, get, shape_of, count_of, as_str, length_of, avoided, nonempty_texts, plan_of,
  has_directive, usable, completed, from_json, from_blob, parse_director_plan,
}

pub record IsPlan (p : Plan) : Type 0 where
  pub some_messages : 1 ≤ p.message_count
  pub few_messages : p.message_count ≤ 4
  pub a_length : is_length p.reply_length ≡ true
  pub texts : All (λ t. is_nil t ≡ false) p.must_avoid
  pub directive : has_directive p ≡ true

IsRight : Parsed → Type 0
IsRight (planned p) = IsPlan p
IsRight _ = Unit

IsCount : Option ℕ → Type 0
IsCount none = Unit
IsCount (some n) = (1 ≤ n) × (n ≤ 4)

module _ {N : Type 0} (w : World N) where
  -- `int` raises an exception that is neither a TypeError nor a ValueError.
  abbrev pub Overflows : Option (Json N) → Type 0
  Overflows none = ⊥
  Overflows (some v) = w.int v ≡ overflow

  -- `true` or a number other than 0, which cannot be iterated.
  abbrev pub IsRefused : Option (Json N) → Type 0
  IsRefused (some (bool b)) = b ≡ true
  IsRefused (some (number n)) = w.nonzero n ≡ true
  IsRefused _ = ⊥

  -- The answer holds the object of JSON with these entries.
  abbrev pub Holds : Text → Entries N → Type 0
  Holds raw d =
      (blob : Text) × ((extract_json_object (w.strip raw) ≡ some blob)
        × (w.loads blob ≡ value (object d)))

  -- `json.loads` raises an exception other than a `ValueError`.
  abbrev pub IsUncaught : Text → Type 0
  IsUncaught raw =
      (blob : Text) × ((extract_json_object (w.strip raw) ≡ some blob) × (w.loads blob ≡ uncaught))

  -- One of the two fields that are not guarded raises.
  abbrev pub IsUnguarded : Entries N → Type 0
  IsUnguarded d =
      Overflows (get w (codes "message_count") (shape_of w (get w (codes "reply_shape") d)))
      ⊎ IsRefused (get w (codes "must_avoid") d)

  clamped-IsCount : (i : Whole) → IsCount (clamped i)
  unfolding IsCount
  clamped-IsCount (whole m) = (omega arith, omega arith)
  clamped-IsCount negative = (omega arith, omega arith)
  clamped-IsCount not_whole = (omega arith, omega arith)
  clamped-IsCount overflow = tt

  count_of-IsCount : (v : Option (Json N)) → IsCount (count_of w v)
  count_of-IsCount none = unfold IsCount in (omega arith, omega arith)
  count_of-IsCount (some v) = clamped-IsCount (w.int v)

  length_of-is_length : (v : Option (Json N)) → is_length (length_of w v) ≡ true
  unfolding length_of
  length_of-is_length v = elim (Bool-cases (is_length (w.lower (as_str w v)))) [
    | inl e ↦ rw e e
    | inr e ↦ rw e (unfold is_length in refl)
  ]

  All-keep : (xs : List Text) → All (λ t. is_nil t ≡ false) (keep (λ t. not (is_nil t)) xs)
  unfolding keep
  All-keep [] = tt
  All-keep ([] ∷ xs) = All-keep xs
  All-keep ((c ∷ t) ∷ xs) = (refl, All-keep xs)

  completed-IsRight :
      (d : Entries N) (count : Option ℕ) (avoid : Option (List (Json N)))
      → IsCount count
      → IsRight (completed w d count avoid)
  unfolding IsRight IsCount
  completed-IsRight d none avoid c = tt
  completed-IsRight d (some count) none c = tt
  completed-IsRight d (some count) (some avoid) c =
      if_ind IsRight (has_directive (plan_of w d count avoid))
        (λ b. record {
          some_messages = unfold plan_of in c.0;
          few_messages = unfold plan_of in c.1;
          a_length = unfold plan_of in length_of-is_length (get w (codes "length") d);
          texts = unfold plan_of nonempty_texts in All-keep (map (λ x. as_str w (some x)) avoid);
          directive = b;
        })
        (λ b. tt)

  from_json-IsRight : (o : Loaded N) → IsRight (from_json w o)
  from_json-IsRight (value (object d)) = completed-IsRight d _ _ (count_of-IsCount _)
  from_json-IsRight uncaught = unfold IsRight in tt
  from_json-IsRight not_json = unfold IsRight in tt
  from_json-IsRight (value null) = unfold IsRight in tt
  from_json-IsRight (value (bool b)) = unfold IsRight in tt
  from_json-IsRight (value (number n)) = unfold IsRight in tt
  from_json-IsRight (value (text s)) = unfold IsRight in tt
  from_json-IsRight (value (array xs)) = unfold IsRight in tt

  from_blob-IsRight : (o : Option Text) → IsRight (from_blob w o)
  from_blob-IsRight none = unfold IsRight in tt
  from_blob-IsRight (some blob) = from_json-IsRight (w.loads blob)

  clamped-none : (i : Whole) → clamped i ≡ none → i ≡ overflow
  clamped-none (whole m) e = absurd (cc e)
  clamped-none negative e = absurd (cc e)
  clamped-none not_whole e = absurd (cc e)
  clamped-none overflow e = refl

  count_of-none : (v : Option (Json N)) → count_of w v ≡ none → Overflows v
  count_of-none none e = absurd (cc e)
  count_of-none (some v) e = clamped-none (w.int v) e

  none-count_of : (v : Option (Json N)) → Overflows v → count_of w v ≡ none
  none-count_of none e = absurd e
  none-count_of (some v) e = ap clamped e

  abbrev empty_unless : Bool → Option (List (Json N))
  empty_unless b = if b then none else some []

  unless : (b : Bool) → empty_unless b ≡ none ↔ (b ≡ true)
  unless true = (λ e. refl, λ e. refl)
  unless false = (λ e. cc e, λ e. cc e)

  avoided-none : (v : Option (Json N)) → avoided w v ≡ none ↔ IsRefused v
  unfolding avoided
  avoided-none none = (λ e. cc e, λ e. absurd e)
  avoided-none (some null) = (λ e. cc e, λ e. absurd e)
  avoided-none (some (bool true)) = (λ e. refl, λ e. refl)
  avoided-none (some (bool false)) = (λ e. cc e, λ e. cc e)
  avoided-none (some (number n)) = unless (w.nonzero n)
  avoided-none (some (text t)) = (λ e. cc e, λ e. absurd e)
  avoided-none (some (array xs)) = (λ e. cc e, λ e. absurd e)
  avoided-none (some (object d)) = (λ e. cc e, λ e. absurd e)

  usable-raised : (p : Plan) → usable w p ≢ raised
  usable-raised p = if_ind (λ r. r ≢ raised) (has_directive p) (λ b e. cc e) (λ b e. cc e)

  completed-raised :
      (d : Entries N) (count : Option ℕ) (avoid : Option (List (Json N)))
      → completed w d count avoid ≡ raised ↔ ((count ≡ none) ⊎ (avoid ≡ none))
  completed-raised d none avoid = (λ e. inl refl, λ e. refl)
  completed-raised d (some count) none = (λ e. inr refl, λ e. refl)
  completed-raised d (some count) (some avoid) = (
    λ e. absurd (usable-raised _ e),
    λ e. elim e [ inl h ↦ absurd (cc h) | inr h ↦ absurd (cc h) ],
  )

  object-raised : (d : Entries N) → from_json w (value (object d)) ≡ raised ↔ IsUnguarded d
  object-raised d =
      let c = get w (codes "message_count") (shape_of w (get w (codes "reply_shape") d)) in
      let a = get w (codes "must_avoid") d in
      let r = completed-raised d (count_of w c) (avoided w a) in
      (
        λ e. elim (r.0 e) [ inl h ↦ inl (count_of-none c h) | inr h ↦ inr ((avoided-none a).0 h) ],
        λ e. r.1 (elim e [ inl h ↦ inl (none-count_of c h) | inr h ↦ inr ((avoided-none a).1 h) ]),
      )

  from_json-raised :
      (o : Loaded N)
      → from_json w o ≡ raised
      → (o ≡ uncaught) ⊎ ((d : Entries N) × ((o ≡ value (object d)) × IsUnguarded d))
  from_json-raised uncaught e = inl refl
  from_json-raised (value (object d)) e = inr (d, (refl, (object-raised d).0 e))
  from_json-raised not_json e = absurd (cc e)
  from_json-raised (value null) e = absurd (cc e)
  from_json-raised (value (bool b)) e = absurd (cc e)
  from_json-raised (value (number n)) e = absurd (cc e)
  from_json-raised (value (text s)) e = absurd (cc e)
  from_json-raised (value (array xs)) e = absurd (cc e)

-- A plan that is read from an answer asks for 1 to 4 messages, has a length of terse, short or medium,
-- no empty text to avoid, and at least one directive. If `str` raises nothing, the parse raises exactly
-- if `json.loads` raises an exception other than a ValueError on the braces that the answer holds, or
-- they are an object on whose `message_count` `int` raises an exception other than a TypeError or a
-- ValueError, or whose `must_avoid` is `true` or a number other than 0.
pub parse_director_plan-IsPlan :
    {N : Type 0} (w : World N) (raw : Text)
    → ((p : Plan) → parse_director_plan w raw ≡ planned p → IsPlan p)
      × (parse_director_plan w raw ≡ raised
          ↔ (IsUncaught w raw ⊎ ((d : Entries N) × (Holds w raw d × IsUnguarded w d))))
unfolding parse_director_plan
parse_director_plan-IsPlan {N = N} w raw = (
  λ p e.
      unfold IsRight in subst IsRight e (from_blob-IsRight w (extract_json_object (w.strip raw))),
  (found (extract_json_object (w.strip raw)) refl, back),
)
  where
    back :
        IsUncaught w raw ⊎ ((d : Entries N) × (Holds w raw d × IsUnguarded w d))
        → from_blob w (extract_json_object (w.strip raw)) ≡ raised
    back (inl u) = ap (from_blob w) u.1.0 ∙ ap (from_json w) u.1.1
    back (inr h) =
        ap (from_blob w) h.1.0.1.0 ∙ ap (from_json w) h.1.0.1.1 ∙ (object-raised w h.0).1 h.1.1

    found :
        (o : Option Text)
        → extract_json_object (w.strip raw) ≡ o
        → from_blob w o ≡ raised
        → IsUncaught w raw ⊎ ((d : Entries N) × (Holds w raw d × IsUnguarded w d))
    found none h e = absurd (cc e)
    found (some blob) h e = elim (from_json-raised w (w.loads blob) e) [
      | inl u ↦ inl (blob, (h, u))
      | inr f ↦ inr (f.0, ((blob, (h, f.1.0)), f.1.1))
    ]
