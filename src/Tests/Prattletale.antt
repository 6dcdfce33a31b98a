-- ===== src/Tests/Prattletale.antt =====
-- Runs at fixed inputs, of app/apps/prattletale/director.py.
use ai_job_server.Prelude.{ℕ, ◌==◌, ◌≡◌, ◌↔◌, ◌⊎◌, refl, not, []}
use ai_job_server.TextDiff.{Text, codes}
use ai_job_server.Prattletale.{
  number, object, Entries, entry, no_entries, value, World, not_whole, Plan, raised, planned,
  parse_director_plan,
}
use ai_job_server.Prattletale.Plans.{
  IsPlan, Holds, IsUncaught, IsUnguarded, parse_director_plan-IsPlan,
}

-- Every object is read as `{"must_avoid": 5}`.
abbrev reader : World ℕ
reader = record {
  loads = λ t. value (object (entry (codes "must_avoid") (number 5) no_entries));
  str = λ v. [];
  int = λ v. not_whole;
  nonzero = λ n. not (n == 0);
  lower = λ t. t;
  strip = λ t. t;
}

abbrev reply : Text
reply = codes "{}"

parse_director_plan-IsPlan_example :
    ((p : Plan) → parse_director_plan reader reply ≡ planned p → IsPlan p)
    × (parse_director_plan reader reply ≡ raised ↔ (
        IsUncaught reader reply
        ⊎ ((d : Entries ℕ) × (Holds reader reply d × IsUnguarded reader d))))
parse_director_plan-IsPlan_example = parse_director_plan-IsPlan reader reply

must_avoid_raises : parse_director_plan reader reply ≡ raised
unfolding parse_director_plan
must_avoid_raises = refl
