-- ===== src/Tests/Structured.antt =====
-- Runs at fixed inputs, of app/chain/structured.py.
use ai_job_server.Prelude.{
  ℕ, ◌==◌, ◌≡◌, refl, Bool, String, some, [], ◌∷◌, ◌++◌, if◌then◌else◌, arith,
}
use ai_job_server.Prelude.Result.{Result, ok, err}
use ai_job_server.TextDiff.{Text, text_eq}
use ai_job_server.Structured.{
  quote, brace, split_fence, strip, Shape, a_dict, object, validate, parse_json_output,
}
use ai_job_server.Structured.Spans.{Nested, nil, string, ended, ordinary}
use ai_job_server.Structured.Answers.{parse_json_output-Nested}

-- `a {"}"} b`, whose span holds a closer within a string.
abbrev prose : Text
prose = 97 ∷ 32 ∷ []

abbrev body : Text
body = quote ∷ 125 ∷ quote ∷ []

abbrev rest : Text
rest = 32 ∷ 98 ∷ []

abbrev answer : Text
answer = prose ++ brace ∷ body ++ 125 ∷ rest

abbrev body-Nested : Nested brace 125 body
body-Nested = string (ordinary (λ e. omega (arith, e)) (λ e. omega (arith, e)) ended) nil

abbrev is_blank : ℕ → Bool
is_blank c = c == 32

-- Only the span is JSON.
abbrev loads : Text → Result String String
loads t = if text_eq t (brace ∷ body ++ 125 ∷ []) then ok "v" else err "Expecting value"

abbrev shape : String → Shape
shape v = a_dict []

parse_json_output-Nested_example :
    parse_json_output is_blank loads shape
      (some (record { expected = some object; required = [] }))
      answer
    ≡ ok "v"
parse_json_output-Nested_example =
    parse_json_output-Nested is_blank loads shape
      (some (record { expected = some object; required = [] })) prose brace body rest "v"
      (refl, (refl, tt)) refl body-Nested refl refl (unfold split_fence in refl) refl
      (unfold validate in refl) (unfold strip in λ x e. cc e)
