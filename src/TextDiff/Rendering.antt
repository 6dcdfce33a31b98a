-- ===== src/TextDiff/Rendering.antt =====
-- app/textdiff/diff.py: what `render_inline` shows of a proposal.
use ai_job_server.Prelude.{
  ℕ, ◌≡◌, refl, sym, ◌∙◌, ap, Bool, true, false, List, [], ◌∷◌, ◌++◌, arith, if◌then◌else◌,
  append_assoc, All,
}
use ai_job_server.TextDiff.{
  Text, Operation, equal, insert, delete, replace, Opcode, Hunk, Kind, kept, inserted, deleted,
  Segment, join, segment, segments_of, render, render_inline, make_proposal,
}
use ai_job_server.TextDiff.Sides.{IsTagged, AreOpcodes, sides, befores, afters}

-- The texts of the segments that are not of a kind.
abbrev pub is_old : Kind → Bool
is_old inserted = false
is_old _ = true

abbrev pub is_new : Kind → Bool
is_new deleted = false
is_new _ = true

unfoldable pub shown : (Kind → Bool) → List Segment → Text
shown p [] = []
shown p (s ∷ ss) = let rest = shown p ss in if p s.kind then s.text ++ rest else rest

shown-segment :
    (p : Kind → Bool) (k : Kind) (t : Text) (ss : List Segment)
    → shown p (segment k t ++ ss) ≡ (if p k then t ++ shown p ss else shown p ss)
unfolding shown segment
shown-segment p k [] ss = ground arith
shown-segment p k (c ∷ t) ss = refl

-- What the old and the new text have of a hunk.
segments-old :
    (op : Operation) (h : Hunk) (ss : List Segment)
    → IsTagged op h
    → shown is_old (segments_of op h ++ ss) ≡ h.before ++ shown is_old ss
unfolding segments_of
segments-old equal h ss e = shown-segment is_old kept h.before ss
segments-old insert h ss e =
    shown-segment is_old inserted h.after ss ∙ ap (λ t. t ++ shown is_old ss) (sym e)
segments-old delete h ss e = shown-segment is_old deleted h.before ss
segments-old replace h ss e =
    ap (shown is_old) (append_assoc (segment deleted h.before) (segment inserted h.after) ss)
    ∙ shown-segment is_old deleted h.before (segment inserted h.after ++ ss)
    ∙ ap (λ t. h.before ++ t) (shown-segment is_old inserted h.after ss)

segments-new :
    (op : Operation) (h : Hunk) (ss : List Segment)
    → IsTagged op h
    → shown is_new (segments_of op h ++ ss) ≡ h.after ++ shown is_new ss
unfolding segments_of
segments-new equal h ss e = shown-segment is_new kept h.before ss ∙ ap (λ t. t ++ shown is_new ss) e
segments-new insert h ss e = shown-segment is_new inserted h.after ss
segments-new delete h ss e =
    shown-segment is_new deleted h.before ss ∙ ap (λ t. t ++ shown is_new ss) (sym e)
segments-new replace h ss e =
    ap (shown is_new) (append_assoc (segment deleted h.before) (segment inserted h.after) ss)
    ∙ shown-segment is_new deleted h.before (segment inserted h.after ++ ss)
    ∙ shown-segment is_new inserted h.after ss

render-old :
    (hs : List Hunk) → All (λ h. IsTagged h.op h) hs → shown is_old (render hs) ≡ befores hs
unfolding render shown join
render-old [] e = refl
render-old (h ∷ hs) e =
    segments-old h.op h (render hs) e.0 ∙ ap (λ t. h.before ++ t) (render-old hs e.1)

render-new : (hs : List Hunk) → All (λ h. IsTagged h.op h) hs → shown is_new (render hs) ≡ afters hs
unfolding render shown join
render-new [] e = refl
render-new (h ∷ hs) e =
    segments-new h.op h (render hs) e.0 ∙ ap (λ t. h.after ++ t) (render-new hs e.1)

-- With opcodes as difflib describes them, the segments of a proposal without the inserted ones read
-- as the old text, and without the deleted ones as the new text.
pub render_inline-make_proposal :
    (is_space : ℕ → Bool) (hash : Text → ℕ) (opcodes : List Text → List Text → List Opcode)
    (before after : Text)
    → AreOpcodes is_space hash opcodes before after
    → (shown is_old (render_inline (make_proposal is_space hash opcodes before after)) ≡ before)
      × (shown is_new (render_inline (make_proposal is_space hash opcodes before after)) ≡ after)
unfolding render_inline
render_inline-make_proposal is_space hash opcodes before after h =
    let s = sides is_space hash opcodes before after h in
    let hunks = (make_proposal is_space hash opcodes before after).hunks in
    (render-old hunks s.2 ∙ s.0, render-new hunks s.2 ∙ s.1)
