-- ===== src/TextDiff/Sides.antt =====
-- app/textdiff/diff.py: the two sides of a proposal, from its hunks.
use ai_job_server.Prelude.{
  ℕ, zero, suc, ◌+◌, ◌-◌, ◌≤◌, ◌<◌, ◌≡◌, refl, sym, ◌∙◌, ap, Bool, true, false, not, ◌&&◌, ◌||◌,
  none, some, List, [], ◌∷◌, ◌++◌, map, arith, ◌==◌, ==_iff, if◌then◌else◌, if_ind, any, take, drop,
  length, append_assoc, All,
}
use ai_job_server.TextDiff.{
  Text, Operation, equal, insert, delete, replace, Opcode, Hunk, Proposal, join, prepend, tokens,
  slice, build_hunks, make_proposal, is_equal, chosen, apply_proposal,
}

join-append : (s t : List Text) → join (s ++ t) ≡ join s ++ join t
unfolding join
join-append [] t = refl
join-append (x ∷ s) t = rw (join-append s t) (sym (append_assoc x (join s) (join t)))

join-prepend :
    (is_space : ℕ → Bool) (c : ℕ) (ts : List Text) → join (prepend is_space c ts) ≡ c ∷ join ts
unfolding join prepend
join-prepend is_space c [] = refl
join-prepend is_space c ([] ∷ ts) = refl
join-prepend is_space c ((d ∷ t) ∷ ts) =
    if_ind (λ (l : List Text). join l ≡ c ∷ join ((d ∷ t) ∷ ts))
      ((is_space c && is_space d) || (not (is_space c) && not (is_space d))) (λ _. refl) (λ _. refl)

-- No character is lost by the split into tokens.
join-tokens : (is_space : ℕ → Bool) (text : Text) → join (tokens is_space text) ≡ text
unfolding tokens
join-tokens is_space [] = unfold join in refl
join-tokens is_space (c ∷ text) =
    join-prepend is_space c (tokens is_space text) ∙ ap (λ t. c ∷ t) (join-tokens is_space text)

take-drop : (n : ℕ) (a : List Text) → take n a ++ drop n a ≡ a
take-drop zero a = refl
take-drop (suc n) [] = refl
take-drop (suc n) (x ∷ a) = rw (take-drop n a)

drop-drop : (i n k : ℕ) (a : List Text) → i + n ≡ k → drop n (drop i a) ≡ drop k a
drop-drop zero n k a h = ap (λ m. drop m a) (omega (arith, h))
drop-drop (suc i) n zero a h = absurd (omega (arith, h))
drop-drop (suc i) zero (suc k) [] h = refl
drop-drop (suc i) (suc n) (suc k) [] h = refl
drop-drop (suc i) n (suc k) (x ∷ a) h = drop-drop i n k a (omega (arith, h))

slice_tokens : (i k : ℕ) (a : List Text) → i ≤ k → take (k - i) (drop i a) ++ drop k a ≡ drop i a
slice_tokens i k a h =
    ap (λ l. take (k - i) (drop i a) ++ l) (sym (drop-drop i (k - i) k a (omega (arith, h))))
    ∙ take-drop (k - i) (drop i a)

slice_rest : (i k : ℕ) (a : List Text) → i ≤ k → slice a i k ++ join (drop k a) ≡ join (drop i a)
unfolding slice
slice_rest i k a h =
    sym (join-append (take (k - i) (drop i a)) (drop k a)) ∙ ap join (slice_tokens i k a h)

drop_all : (a : List Text) → drop (length a) a ≡ []
drop_all [] = refl
drop_all (x ∷ a) = drop_all a

-- What an opcode says of its two slices.
abbrev pub Agrees : Operation → Opcode → List Text → List Text → Type 0
Agrees equal o a b = take (o.i₂ - o.i₁) (drop o.i₁ a) ≡ take (o.j₂ - o.j₁) (drop o.j₁ b)
Agrees insert o a b = o.i₁ ≡ o.i₂
Agrees delete o a b = o.j₁ ≡ o.j₂
Agrees replace o a b = Unit

-- What difflib says of its opcodes: each begins where the one before it ends, on both sides, the
-- last ends at the ends of both, and each agrees with its tag.
abbrev pub IsOpcodes : List Opcode → ℕ → ℕ → List Text → List Text → Type 0
IsOpcodes [] i j a b = (i ≡ length a) × (j ≡ length b)
IsOpcodes (o ∷ os) i j a b =
    ((o.i₁ ≡ i) × (o.j₁ ≡ j) × (o.i₁ ≤ o.i₂) × (o.j₁ ≤ o.j₂))
    × Agrees o.tag o a b
    × IsOpcodes os o.i₂ o.j₂ a b

abbrev pub befores : List Hunk → Text
befores hs = join (map (λ h. h.before) hs)

abbrev pub afters : List Hunk → Text
afters hs = join (map (λ h. h.after) hs)

befores-build_hunks :
    (os : List Opcode) (i j : ℕ) (a b : List Text)
    → IsOpcodes os i j a b
    → befores (build_hunks os a b) ≡ join (drop i a)
unfolding build_hunks join
befores-build_hunks [] i j a b h = rw (h.0, drop_all a)
befores-build_hunks (o ∷ os) i j a b h =
    ap (λ t. slice a o.i₁ o.i₂ ++ t) (befores-build_hunks os o.i₂ o.j₂ a b h.2)
    ∙ slice_rest o.i₁ o.i₂ a h.0.2
    ∙ ap (λ n. join (drop n a)) h.0.0

afters-build_hunks :
    (os : List Opcode) (i j : ℕ) (a b : List Text)
    → IsOpcodes os i j a b
    → afters (build_hunks os a b) ≡ join (drop j b)
unfolding build_hunks join
afters-build_hunks [] i j a b h = rw (h.1, drop_all b)
afters-build_hunks (o ∷ os) i j a b h =
    ap (λ t. slice b o.j₁ o.j₂ ++ t) (afters-build_hunks os o.i₂ o.j₂ a b h.2)
    ∙ slice_rest o.j₁ o.j₂ b h.0.3
    ∙ ap (λ n. join (drop n b)) h.0.1

-- What the tag of a hunk says of its sides.
abbrev pub IsTagged : Operation → Hunk → Type 0
IsTagged equal h = h.before ≡ h.after
IsTagged insert h = h.before ≡ []
IsTagged delete h = h.after ≡ []
IsTagged replace h = Unit

chosen_nothing : (idx : ℕ) (hs : List Hunk) → chosen [] idx hs ≡ befores hs
unfolding chosen any join
chosen_nothing idx [] = refl
chosen_nothing idx (h ∷ hs) = rw (chosen_nothing (idx + 1) hs) (if_same (is_equal h.op))
  where
    if_same :
        (c : Bool)
        → (if c then h.before ++ befores hs else h.before ++ befores hs) ≡ h.before ++ befores hs
    if_same c = ground arith

chosen-All :
    (accepted : List ℕ) (idx : ℕ) (hs : List Hunk)
    → ((n : ℕ) → idx ≤ n → n < idx + length hs → any (λ m. m == n) accepted ≡ true)
    → All (λ h. IsTagged h.op h) hs
    → chosen accepted idx hs ≡ afters hs
unfolding chosen join
chosen-All accepted idx [] f h = refl
chosen-All accepted idx (x ∷ hs) f h =
    let rest =
      chosen-All accepted (idx + 1) hs (λ n l m. f n (omega (arith, l)) (omega (arith, m))) h.1 in
    rw (rest, f idx (omega arith) (omega arith)) (same_sides x.op h.0)
  where
    same_sides :
        (op : Operation)
        → IsTagged op x
        → (if is_equal op then x.before ++ afters hs else x.after ++ afters hs)
          ≡ x.after ++ afters hs
    same_sides equal e = ap (λ t. t ++ afters hs) e
    same_sides insert e = refl
    same_sides delete e = refl
    same_sides replace e = refl

slice_empty : (a : List Text) (i k : ℕ) → i ≡ k → slice a i k ≡ []
unfolding slice join
slice_empty a i k h =
    let none_left : k - i ≡ 0 = omega (arith, h) in ap (λ n. join (take n (drop i a))) none_left

-- The hunks of opcodes keep what the tags say.
tagged :
    (tag : Operation) (o : Opcode) (a b : List Text)
    → Agrees tag o a b
    → IsTagged tag (record { op = tag; before = slice a o.i₁ o.i₂; after = slice b o.j₁ o.j₂ })
unfolding slice
tagged equal o a b h = ap join h
tagged insert o a b h = slice_empty a o.i₁ o.i₂ h
tagged delete o a b h = slice_empty b o.j₁ o.j₂ h
tagged replace o a b h = tt

build_hunks-IsTagged :
    (os : List Opcode) (i j : ℕ) (a b : List Text)
    → IsOpcodes os i j a b
    → All (λ h. IsTagged h.op h) (build_hunks os a b)
unfolding build_hunks
build_hunks-IsTagged [] i j a b h = tt
build_hunks-IsTagged (o ∷ os) i j a b h =
    (tagged o.tag o a b h.1, build_hunks-IsTagged os o.i₂ o.j₂ a b h.2)

module _ (is_space : ℕ → Bool) (hash : Text → ℕ)
    (opcodes : List Text → List Text → List Opcode) where
  -- difflib's opcodes of the tokens of two texts are as it says.
  abbrev pub AreOpcodes : Text → Text → Type 0
  AreOpcodes before after =
      IsOpcodes (opcodes (tokens is_space before) (tokens is_space after)) 0 0
        (tokens is_space before) (tokens is_space after)

  abbrev pub proposal : Text → Text → Proposal
  proposal before after = make_proposal is_space hash opcodes before after

  pub sides :
      (before after : Text)
      → AreOpcodes before after
      → (befores (proposal before after).hunks ≡ before)
        × (afters (proposal before after).hunks ≡ after)
        × All (λ h. IsTagged h.op h) (proposal before after).hunks
  unfolding make_proposal
  sides before after h =
      let a = tokens is_space before in
      let b = tokens is_space after in
      (
        befores-build_hunks (opcodes a b) 0 0 a b h ∙ join-tokens is_space before,
        afters-build_hunks (opcodes a b) 0 0 a b h ∙ join-tokens is_space after,
        build_hunks-IsTagged (opcodes a b) 0 0 a b h,
      )

  same_hash : (before after : Text) → (hash before == (proposal before after).before_hash) ≡ true
  unfolding make_proposal
  same_hash before after = (==_iff (hash before) (hash before)).1 refl

  -- On the text that a proposal was made of, with opcodes as difflib describes them: to accept the
  -- whole, and to accept hunk by hunk with every hunk accepted, gives the new text; to accept no
  -- hunk gives the old text. None of these is refused.
  pub apply_proposal-make_proposal :
      (before after : Text) (accepted : List ℕ)
      → AreOpcodes before after
      → ((n : ℕ) → n < length (proposal before after).hunks → any (λ m. m == n) accepted ≡ true)
      → (apply_proposal hash before (proposal before after) none false ≡ some after)
        × (apply_proposal hash before (proposal before after) (some accepted) false ≡ some after)
        × (apply_proposal hash before (proposal before after) (some []) false ≡ some before)
  unfolding apply_proposal
  apply_proposal-make_proposal before after accepted h f =
      let s = sides before after h in
      let hunks = (proposal before after).hunks in
      let all = chosen-All accepted 0 hunks (λ n l m. f n (omega (arith, m))) s.2 in
      rw (same_hash before after)
        (unfold make_proposal in refl, ap some (all ∙ s.1), ap some (chosen_nothing 0 hunks ∙ s.0))
