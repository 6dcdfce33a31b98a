-- ===== src/TextDiff.antt =====
-- app/textdiff/diff.py: proposals of a change of text, and their application.
-- A text is the list of its code points. `is_space` is the class `\s` of the regular expression,
-- `hash` the digest, and `opcodes` is `SequenceMatcher(...).get_opcodes()` of difflib; the unified
-- diff, the id and the time of a proposal are not modelled.
pub mod Sides
pub mod Rendering
use Prim.Native.Char.{code}
use ai_job_server.Prelude.{
  ℕ, suc, ◌+◌, ◌-◌, String, Bool, true, false, not, ◌&&◌, ◌||◌, Option, none, some, List, [], ◌∷◌,
  ◌++◌, map, ◌==◌, if◌then◌else◌, any, take, drop,
}

abbrev pub Text : Type 0
Text = List ℕ

pub data Operation : Type 0 where
  equal insert delete replace : Operation

-- `(tag, i1, i2, j1, j2)`
pub record Opcode : Type 0 where
  pub tag : Operation
  pub i₁ : ℕ
  pub i₂ : ℕ
  pub j₁ : ℕ
  pub j₂ : ℕ

pub record Hunk : Type 0 where
  pub op : Operation
  pub before : Text
  pub after : Text

pub data Kind : Type 0 where
  kept inserted deleted : Kind

pub record Segment : Type 0 where
  pub kind : Kind
  pub text : Text

pub record Proposal : Type 0 where
  pub before : Text
  pub after : Text
  pub before_hash : ℕ
  pub hunks : List Hunk

-- `"".join`
unfoldable pub join : List Text → Text
join [] = []
join (t ∷ ts) = t ++ join ts

-- A character joins the token after it if that begins with one of its class.
unfoldable pub prepend : (ℕ → Bool) → ℕ → List Text → List Text
prepend is_space c [] = (c ∷ []) ∷ []
prepend is_space c ([] ∷ ts) = (c ∷ []) ∷ ts
prepend is_space c ((d ∷ t) ∷ ts) =
    if (is_space c && is_space d) || (not (is_space c) && not (is_space d))
    then (c ∷ d ∷ t) ∷ ts
    else (c ∷ []) ∷ (d ∷ t) ∷ ts

-- `\S+|\s+`: the longest runs of one class.
unfoldable pub tokens : (ℕ → Bool) → Text → List Text
unfolding prepend
tokens is_space [] = []
tokens is_space (c ∷ text) = prepend is_space c (tokens is_space text)

-- `"".join(a[i:k])`
unfoldable pub slice : List Text → ℕ → ℕ → Text
unfolding join take drop
slice a i k = join (take (k - i) (drop i a))

unfoldable pub build_hunks : List Opcode → List Text → List Text → List Hunk
unfolding slice
build_hunks [] a b = []
build_hunks (o ∷ os) a b =
    record { op = o.tag; before = slice a o.i₁ o.i₂; after = slice b o.j₁ o.j₂ }
    ∷ build_hunks os a b

unfoldable pub make_proposal :
    (ℕ → Bool) → (Text → ℕ) → (List Text → List Text → List Opcode) → Text → Text → Proposal
unfolding build_hunks tokens
make_proposal is_space hash opcodes before after =
    let a = tokens is_space before in
    let b = tokens is_space after in
    record {
      before = before;
      after = after;
      before_hash = hash before;
      hunks = build_hunks (opcodes a b) a b;
    }

-- The code points of a string.
abbrev pub codes : String → Text
codes String.[] = []
codes (String.◌∷◌ c s) = code c ∷ codes s

abbrev pub text_eq : Text → Text → Bool
text_eq [] [] = true
text_eq (c ∷ t) (d ∷ u) = c == d && text_eq t u
text_eq _ _ = false

abbrev pub is_equal : Operation → Bool
is_equal equal = true
is_equal _ = false

-- The loop over the hunks, the first of which has the index `idx`.
unfoldable pub chosen : List ℕ → ℕ → List Hunk → Text
unfolding any
chosen accepted idx [] = []
chosen accepted idx (h ∷ hs) =
    let rest = chosen accepted (idx + 1) hs in
    if is_equal h.op
    then h.before ++ rest
    else (if any (λ n. n == idx) accepted then h.after ++ rest else h.before ++ rest)

-- `none` is the `ConflictError`.
unfoldable pub apply_proposal : (Text → ℕ) → Text → Proposal → Option (List ℕ) → Bool → Option Text
unfolding chosen
apply_proposal hash current proposal accept_hunks force =
    if not force
      && (not (hash current == proposal.before_hash) && not (text_eq current proposal.before))
    then none
    else (elim accept_hunks [
      | none ↦ some proposal.after
      | some accepted ↦ some (chosen accepted 0 proposal.hunks)
    ])

-- No segment is made of an empty text.
unfoldable pub segment : Kind → Text → List Segment
segment k [] = []
segment k (c ∷ t) = record { kind = k; text = c ∷ t } ∷ []

unfoldable pub segments_of : Operation → Hunk → List Segment
unfolding segment
segments_of equal h = segment kept h.before
segments_of insert h = segment inserted h.after
segments_of delete h = segment deleted h.before
segments_of replace h = segment deleted h.before ++ segment inserted h.after

unfoldable pub render : List Hunk → List Segment
unfolding segments_of
render [] = []
render (h ∷ hs) = segments_of h.op h ++ render hs

unfoldable pub render_inline : Proposal → List Segment
unfolding render
render_inline proposal = render proposal.hunks
