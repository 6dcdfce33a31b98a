-- ===== src/Tickets.antt =====
-- app/tickets/store.py: the index of tickets, a list in the order of creation, and its operations.
-- A stamp of `_now_iso` is a number, which orders like the text of one format; the id of `uuid4`
-- and the stamp of an operation are its arguments.
pub mod Ranks
pub mod Listing
pub mod Reorder
use ai_job_server.Prelude.{
  ℕ, zero, suc, ◌+◌, String, str_eq, Bool, true, false, not, ◌&&◌, ◌||◌, Option, none, some, List,
  [], ◌∷◌, ◌++◌, map, ltb, leb, ◌==◌, if◌then◌else◌, length, keep, first, any,
}
use ai_job_server.Prelude.Sort.{sort}
use ai_job_server.Prelude.Dict.{has}

pub record Ticket : Type 0 where
  pub id : String
  pub title : String
  pub description : String
  pub priority : Option ℕ
  pub status : String
  pub file_hints : List String
  pub branch : Option String
  pub created_at : ℕ
  pub updated_at : ℕ

-- The errors that are raised.
pub data Error : Type 0 where
  title_required id_set_mismatch : Error
  invalid_status : String → Error

pub data Result {ℓ} (A : Type ℓ) : Type ℓ where
  ok : A → Result A
  err : Error → Result A

abbrev pub Index : Type 0
Index = List Ticket

-- `e.get("priority", 1_000_000)`
abbrev pub rank : Ticket → ℕ
rank e = elim e.priority [ none ↦ 1000000 | some n ↦ n ]

-- The order of the key of `_sorted`, a pair.
abbrev pub key_le : Ticket → Ticket → Bool
key_le a b = ltb (rank a) (rank b) || (rank a == rank b && leb a.created_at b.created_at)

unfoldable pub sorted : Index → Index
unfolding sort
sorted entries = sort key_le entries

unfoldable pub list_tickets : Index → Index
unfolding sorted
list_tickets entries = sorted entries

unfoldable pub get_ticket : String → Index → Option Ticket
unfolding first
get_ticket tid entries = first (λ e. str_eq e.id tid) entries

-- `strip` is Python's `str.strip`.
unfoldable pub create_ticket :
    (String → String) → String → ℕ → String → String → List String → Index → Result (Ticket × Index)
create_ticket strip id now title description hints entries =
    if str_eq title "" || str_eq (strip title) ""
    then err title_required
    else let e : Ticket = record {
      id = id;
      title = strip title;
      description = description;
      priority = some (length entries);
      status = "todo";
      file_hints = hints;
      branch = none;
      created_at = now;
      updated_at = now;
    } in
      ok (e, entries ++ e ∷ [])

-- The fields of an update, of which those of other names are passed over.
pub data Field : Type 0 where
  title description status branch_name : String → Field
  priority : ℕ → Field
  file_hints : List String → Field
  no_branch : Field
  not_allowed : String → Field

abbrev valid_status : String → Bool
valid_status s = str_eq s "todo" || (str_eq s "in-progress" || str_eq s "done")

unfoldable pub set_field : Field → Ticket → Result Ticket
set_field (title t) e = ok (record e { title = t })
set_field (description d) e = ok (record e { description = d })
set_field (status s) e =
    if valid_status s then ok (record e { status = s }) else err (invalid_status s)
set_field (branch_name b) e = ok (record e { branch = some b })
set_field (priority n) e = ok (record e { priority = some n })
set_field (file_hints l) e = ok (record e { file_hints = l })
set_field no_branch e = ok (record e { branch = none })
set_field (not_allowed k) e = ok e

unfoldable pub set_fields : List Field → Ticket → Result Ticket
unfolding set_field
set_fields [] e = ok e
set_fields (f ∷ fs) e = elim (set_field f e) [ ok e' ↦ set_fields fs e' | err x ↦ err x ]

-- The first entry with the id is the one that changes.
unfoldable pub replace_first : String → Ticket → Index → Index
replace_first tid e' [] = []
replace_first tid e' (e ∷ es) = if str_eq e.id tid then e' ∷ es else e ∷ replace_first tid e' es

unfoldable pub update_ticket : String → List Field → ℕ → Index → Result (Option (Ticket × Index))
unfolding get_ticket set_fields replace_first
update_ticket tid fields now entries = elim (get_ticket tid entries) [
  | none ↦ ok none
  | some e ↦ elim (set_fields fields e) [
    | err x ↦ err x
    | ok e' ↦
        let e'' = record e' { updated_at = now } in ok (some (e'', replace_first tid e'' entries))
  ]
]

-- An entry with the number that names the object: two entries may be equal and not be the same.
abbrev pub Object : Type 0
Object = ℕ × Ticket

unfoldable pub objects : ℕ → Index → List Object
objects n [] = []
objects n (e ∷ es) = (n, e) ∷ objects (n + 1) es

-- `enumerate(...)`: the place of an object in a list.
unfoldable pub place : ℕ → ℕ → List Object → ℕ
place i n [] = i
place i n ((m, e) ∷ os) = if m == n then i else place (i + 1) n os

-- `for i, e in enumerate(_sorted(new_entries)): e["priority"] = i`, which the objects of
-- `new_entries` see.
unfoldable pub renumbered : Index → Index
unfolding sort objects place
renumbered entries =
    let os = objects 0 entries in
    let order = sort (λ a b. key_le a.1 b.1) os in
    map (λ o. record (o.1) { priority = some (place 0 o.0 order) }) os

unfoldable pub delete_ticket : String → Index → Bool × Index
unfolding keep renumbered
delete_ticket tid entries =
    let new_entries = keep (λ e. not (str_eq e.id tid)) entries in
    if length new_entries == length entries
    then (false, entries)
    else (true, renumbered new_entries)

-- `pos = {tid: i for i, tid in enumerate(ids)}`: the last place of an id counts.
unfoldable pub position : ℕ → String → List String → Option ℕ
position i tid [] = none
position i tid (j ∷ ids) =
    let later = position (i + 1) tid ids in
    elim later [ some n ↦ some n | none ↦ if str_eq j tid then some i else none ]

abbrev pub is_subset : List String → List String → Bool
is_subset s t = not (any (λ k. not (has k t)) s)

unfoldable pub reprioritise : List String → ℕ → Ticket → Ticket
unfolding position
reprioritise ids now e = elim (position 0 e.id ids) [
  | none ↦ e
  | some n ↦ elim e.priority [
    | none ↦ record e { priority = some n; updated_at = now }
    | some m ↦ if m == n then e else record e { priority = some n; updated_at = now }
  ]
]

unfoldable pub reorder_tickets : List String → ℕ → Index → Result (Index × Index)
unfolding reprioritise sorted has any
reorder_tickets ids now entries =
    let existing = map (λ (e : Ticket). e.id) entries in
    if is_subset ids existing && is_subset existing ids
    then (let changed = map (reprioritise ids now) entries in ok (sorted changed, changed))
    else err id_set_mismatch

unfoldable pub next_ticket : Index → Option Ticket
unfolding first sorted
next_ticket entries = first (λ e. str_eq e.status "todo") (sorted entries)
