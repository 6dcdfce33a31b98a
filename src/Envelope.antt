-- ===== src/Envelope.antt =====
-- app/cruddables/envelope.py: the ids of the objects that the libraries keep.
pub mod Fresh
use Prim.Native.Char.{Char, code}
use Prim.Native.String.{◌++◌ as str_append}
use ai_job_server.Prelude.{
  ℕ, zero, suc, ◌+◌, ◌==◌, String, str_eq, Bool, true, false, not, ◌&&◌, ◌||◌, List, [], ◌∷◌, leb,
  if◌then◌else◌, length,
}
use ai_job_server.Prelude.Dict.{has}
use ai_job_server.Prelude.Decimal.{decimal}

-- `while name(n) in taken: n += 1`, which cannot go on for more rounds than `taken` has names.
unfoldable pub first_free : (ℕ → String) → ℕ → ℕ → List String → String
unfolding has
first_free name zero n taken = name n
first_free name (suc fuel) n taken =
    let later = first_free name fuel (n + 1) taken in if has (name n) taken then later else name n

abbrev pub numbered_id : String → ℕ → String
numbered_id base n = str_append base (str_append "_" (decimal n))

unfoldable pub unique_id : String → List String → String
unfolding first_free has
unique_id base taken =
    if has base taken then first_free (numbered_id base) (length taken) 2 taken else base

abbrev pub is_slug_char : Char → Bool
is_slug_char c = (leb 97 (code c) && leb (code c) 122) || (leb 48 (code c) && leb (code c) 57)

-- `_SLUG_RE.sub("_", s)`: one underscore for each longest run of other characters. The flag says
-- that the character before was of such a run. No two underscores are left for `_DASH_RE`.
unfoldable pub squeeze : Bool → String → String
squeeze inside String.[] = String.[]
squeeze inside (String.◌∷◌ c s) =
    let kept = String.◌∷◌ c (squeeze false s) in
    let next = squeeze true s in
    if is_slug_char c then kept else if inside then next else String.◌∷◌ "_" next

-- `strip("_")`
unfoldable pub lstrip : String → String
lstrip String.[] = String.[]
lstrip (String.◌∷◌ c s) = let rest = lstrip s in if code c == 95 then rest else String.◌∷◌ c s

unfoldable pub rstrip : String → String
rstrip String.[] = String.[]
rstrip (String.◌∷◌ c s) =
    let rest = rstrip s in if code c == 95 && str_eq rest "" then String.[] else String.◌∷◌ c rest

-- `lower` is Python's `str.lower`.
unfoldable pub slugify : (String → String) → String → String
unfolding squeeze lstrip rstrip
slugify lower text =
    let s = rstrip (lstrip (squeeze false (lower text))) in if str_eq s "" then "item" else s
