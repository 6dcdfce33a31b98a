-- ===== src/Tickets/Listing.antt =====
-- app/tickets/store.py: what the list of tickets is after an operation.
use ai_job_server.Prelude.{
  ℕ, ◌<◌, ◌≡◌, ◌≢◌, ◌⊎◌, refl, sym, ◌∙◌, ap, subst, String, str_eq, true, false, not, ◌||◌, none,
  some, List, [], ◌∷◌, ◌++◌, arith, ◌==◌, length, length-append, length-keep-le, keep, All, All-imp,
  All-append, Bool-cases, inl, inr,
}
use ai_job_server.Prelude.Sort.{sort-append_one}
use ai_job_server.Tickets.{
  Ticket, Index, Result, ok, err, rank, key_le, sorted, list_tickets, get_ticket, create_ticket,
  delete_ticket,
}
use ai_job_server.Tickets.Ranks.{ranked, key_le-IsOrder, sorted-renumbered}

-- Each ticket but those with the id.
abbrev pub others : String → Index → Index
others tid es = keep (λ e. not (str_eq e.id tid)) es

others_absent : (tid : String) (es : Index) → get_ticket tid es ≡ none → others tid es ≡ es
unfolding get_ticket keep
others_absent tid [] h = refl
others_absent tid (e ∷ es) h = ground (arith, others_absent tid es)

others_all :
    (tid : String) (es : Index) → length (others tid es) ≡ length es → get_ticket tid es ≡ none
unfolding get_ticket keep
others_all tid [] h = refl
others_all tid (e ∷ es) h =
    ground (arith, others_all tid es, length-keep-le (λ (x : Ticket). not (str_eq x.id tid)) es)

-- If a ticket has the id, a deletion answers true and leaves the other tickets in the order in which
-- the list showed them, with the ranks 0, 1, 2, …; if none has it, the deletion answers false and
-- changes nothing.
pub list-delete :
    (tid : String) (es : Index)
    → (get_ticket tid es ≢ none)
        × ((delete_ticket tid es).0 ≡ true)
        × (list_tickets (delete_ticket tid es).1 ≡ ranked 0 (list_tickets (others tid es)))
      ⊎ (get_ticket tid es ≡ none) × (delete_ticket tid es ≡ (false, es))
unfolding delete_ticket list_tickets
list-delete tid es = elim (Bool-cases (length (others tid es) == length es)) [
  | inl h ↦ inr (others_all tid es (ground (arith, h)), rw h refl)
  | inr h ↦ inl (
    (λ n. ground (arith, h, ap length (others_absent tid es n))),
    rw h refl,
    rw h (sorted-renumbered (others tid es)),
  )
]

-- Every rank is below the number of tickets.
abbrev pub IsCompact : Index → Type 0
IsCompact es = All (λ e. rank e < length es) es

ok_injective : {A : Type 0} (a b : A) → ok a ≡ ok b → a ≡ b
ok_injective {A} a b h = ap value h
  where
    value : Result A → A
    value (ok x) = x
    value (err e) = a

created :
    (e : Ticket) (es : Index)
    → IsCompact es
    → e.priority ≡ some (length es)
    → (sorted (es ++ e ∷ []) ≡ sorted es ++ e ∷ []) × IsCompact (es ++ e ∷ [])
unfolding sorted
created e es c p = (
  sort-append_one key_le key_le-IsOrder e es (All-imp _ _ es (λ x h. ground (arith, p, h)) c),
  All-append _ es (e ∷ []) (All-imp _ _ es (λ x h. omega (arith, h, length-append es (e ∷ []))) c)
      (ground (arith, p, length-append es (e ∷ [])), tt),
)

-- A new ticket goes to the end of the list, with the status "todo", if all ranks are below the
-- number of tickets; and they are so again.
pub list-create :
    (strip : String → String) (id : String) (now : ℕ) (title description : String)
    (hints : List String) (es : Index) (r : Ticket × Index)
    → IsCompact es
    → create_ticket strip id now title description hints es ≡ ok r
    → (list_tickets r.1 ≡ list_tickets es ++ r.0 ∷ [])
      × (r.0.status ≡ "todo")
      × (r.0.id ≡ id)
      × IsCompact r.1
unfolding create_ticket list_tickets
list-create strip id now title description hints es r c h =
    elim (Bool-cases (str_eq title "" || str_eq (strip title) "")) [
      | inl b ↦ cc (rw b at h)
      | inr b ↦
          let e = ok_injective _ r (rw b at h) in
          let made = created r.0 es c (ap (λ (q : Ticket × Index). q.0.priority) (sym e)) in
          let whole =
            ap (λ (q : Ticket × Index). q.1) (sym e)
            ∙ ap (λ (q : Ticket × Index). es ++ q.0 ∷ []) e in
          (
            ap sorted whole ∙ made.0,
            ap (λ (q : Ticket × Index). q.0.status) (sym e),
            ap (λ (q : Ticket × Index). q.0.id) (sym e),
            subst IsCompact (sym whole) made.1,
          )
    ]
