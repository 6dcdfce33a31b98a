-- ===== src/JobQueue/Line.antt =====
-- app/job_queue.py: the two lanes as one line of the waiting items in the order of their arrival.
use ai_job_server.Prelude.{◌≡◌, refl, ap, List, [], ◌∷◌, ◌++◌}
use ai_job_server.JobQueue.{Priority, high, low}

-- What is seen of a step: an item that arrives, one that leaves, or nothing.
pub data Label (A : Type 0) : Type 0 where
  silent : Label A
  arrival : Priority → A → Label A
  departure : Priority → A → Label A

abbrev pub other : Priority → Priority
other high = low
other low = high

module _ {A : Type 0} where
  -- The items of one priority, in their order.
  abbrev pub lane : Priority → List (Priority × A) → List A
  lane p [] = []
  lane high ((high, x) ∷ line) = x ∷ lane high line
  lane high ((low, x) ∷ line) = lane high line
  lane low ((high, x) ∷ line) = lane low line
  lane low ((low, x) ∷ line) = x ∷ lane low line

  pub lane-append :
      (p : Priority) (xs ys : List (Priority × A)) → lane p (xs ++ ys) ≡ lane p xs ++ lane p ys
  lane-append p [] ys = refl
  lane-append high ((high, x) ∷ xs) ys = ap (λ zs. x ∷ zs) (lane-append high xs ys)
  lane-append high ((low, x) ∷ xs) ys = lane-append high xs ys
  lane-append low ((high, x) ∷ xs) ys = lane-append low xs ys
  lane-append low ((low, x) ∷ xs) ys = ap (λ zs. x ∷ zs) (lane-append low xs ys)

  -- The line of a queue: an item arrives at its end, and the one that leaves is the first of its
  -- priority, of LOW only while no HIGH item waits.
  pub data Move : Label A → List (Priority × A) → List (Priority × A) → Type 0 where
    kept : (line : List (Priority × A)) → Move silent line line
    arrives :
        (p : Priority) (x : A) (line : List (Priority × A))
        → Move (arrival p x) line (line ++ (p, x) ∷ [])
    leaves :
        (p : Priority) (x : A) (before after : List (Priority × A))
        → lane p before ≡ []
        → (p ≡ low → lane high (before ++ after) ≡ [])
        → Move (departure p x) (before ++ (p, x) ∷ after) (before ++ after)

  -- Where the first item of a lane stands in the line.
  pub record Place (p : Priority) (x : A) (xs : List A) (line : List (Priority × A)) : Type 0 where
    pub before : List (Priority × A)
    pub after : List (Priority × A)
    pub whole : line ≡ before ++ (p, x) ∷ after
    pub first : lane p before ≡ []
    pub rest : lane p (before ++ after) ≡ xs
    pub beside : lane (other p) (before ++ after) ≡ lane (other p) line

  pub find-Place :
      (p : Priority) (x : A) (xs : List A) (line : List (Priority × A))
      → lane p line ≡ x ∷ xs
      → Place p x xs line
  find-Place p x xs [] e = absurd (cc e)
  find-Place high x xs ((high, y) ∷ line) e = record {
    before = [];
    after = line;
    whole = cc;
    first = refl;
    rest = cc;
    beside = refl;
  }
  find-Place low x xs ((low, y) ∷ line) e = record {
    before = [];
    after = line;
    whole = cc;
    first = refl;
    rest = cc;
    beside = refl;
  }
  find-Place high x xs ((low, y) ∷ line) e =
      let p = find-Place high x xs line e in
      record {
        before = (low, y) ∷ p.before;
        after = p.after;
        whole = ap (λ zs. (low, y) ∷ zs) p.whole;
        first = p.first;
        rest = p.rest;
        beside = ap (λ zs. y ∷ zs) p.beside;
      }
  find-Place low x xs ((high, y) ∷ line) e =
      let p = find-Place low x xs line e in
      record {
        before = (high, y) ∷ p.before;
        after = p.after;
        whole = ap (λ zs. (high, y) ∷ zs) p.whole;
        first = p.first;
        rest = p.rest;
        beside = ap (λ zs. y ∷ zs) p.beside;
      }
