-- ===== src/Tomeberry/Requests/Accepting.antt =====
-- app/apps/tomeberry/generator.py: what the acceptance of a proposed text does to the concepts.
use mathlib.Core.Option
use ai_job_server.Prelude.{
  ℕ, ◌≡◌, ◌⊎◌, refl, sym, ap, ◌∙◌, subst, String, str_eq, eq_iff, Bool, true, ◌&&◌, Option, some,
  List, [], ◌∷◌, ◌++◌, map, if◌then◌else◌, arith, Option-cases, inl, inr, first,
}
use ai_job_server.Prelude.Dict.{Dict, get, get-put}
use ai_job_server.TextDiff.{Text, Proposal, apply_proposal}
use ai_job_server.Tomeberry.{
  File, holds, read, Concept, Folder, Message, ProposalRef, whole_unit, Trace, get_concept,
  write_concept, truthy,
}
use ai_job_server.Tomeberry.Store.{patched, rewrite, update_concept}
use ai_job_server.Tomeberry.Store.Named.{touch_tale-concepts}
use ai_job_server.Tomeberry.Assistant.{
  of_request, of_kind, with_status, last_of, has_proposal, get_assistant, write_thread,
  append_assistant_message, find_request_message, set_proposal_status, get_trace,
  update_trace_action,
}
use ai_job_server.Tomeberry.Requests.{
  Env, applied, new_body, body_patch, rewritten, accepted_entry, accept_text, conclude, marker_of,
  accept_request, reject_request,
}

abbrev pub body_of : String → Folder → Option Text
body_of k d = Option.map (λ (x : Concept). x.body) (get_concept k d)

-- A conflict with the present body is overridden, so the body is replaced in any case.
new_body-whole_unit :
    (hash : Text → ℕ) (p : Proposal) (body : Text) → new_body hash whole_unit p body ≡ p.after
unfolding new_body apply_proposal
new_body-whole_unit hash p body = ground arith

module _ (env : Env) (proposals : Dict (File Proposal)) (rid : String) where
  -- The request has a trace and a message with a proposal of a text for the whole of a unit, whose file
  -- and whose target can be read.
  pub record Proposes (target : String) (proposal : Proposal) (d : Folder) : Type 0 where
    pub trace : Trace
    pub message : Message
    pub ref : ProposalRef
    pub concept : Concept
    pub traced : get_trace rid d ≡ some trace
    pub found : find_request_message rid (some "proposal") d ≡ some message
    pub carries : message.proposal ≡ some ref
    pub scoped : ref.scope ≡ whole_unit
    pub aimed : truthy ref.target_concept_id ≡ some target
    pub stored : read (get (env.safe ref.diff_id) proposals) ≡ some proposal
    pub known : get_concept target d ≡ some concept

  conclude-get_concept :
      (action k : String) (d : Folder) → get_concept k (conclude env rid action d) ≡ get_concept k d
  unfolding conclude set_proposal_status update_trace_action append_assistant_message write_thread
      get_concept
  conclude-get_concept action k d = ground arith

  body_of-rewritten :
      (target k : String) (body : Text) (diff_id : String) (d : Folder) (c : Concept)
      → get_concept target d ≡ some c
      → body_of k (rewritten env rid target body diff_id d).1
        ≡ (if str_eq target k then some body else body_of k d)
  unfolding update_concept rewrite get_concept write_concept patched
  body_of-rewritten target k body diff_id d c h =
      let c' =
        patched env.texts (env.times 0).now (body_patch body)
          (some (accepted_entry env rid diff_id)) c in
      ground (
        arith,
        h,
        touch_tale-concepts (env.times 0).touched (write_concept target c' d),
        get-put target k (holds c') d.concepts,
      )

  accepted :
      (target : String) (proposal : Proposal) (d : Folder)
      → (p : Proposes target proposal d)
      → accept_request env proposals rid d ≡ (
        applied,
        conclude env rid "accepted"
            (rewritten env rid target proposal.after (env.stored_id (env.safe p.ref.diff_id)) d).1,
      )
  unfolding accept_request accept_text
  accepted target proposal d p = ground (
    arith,
    p.traced,
    p.found,
    p.carries,
    p.scoped,
    p.aimed,
    p.stored,
    p.known,
    new_body-whole_unit env.hash proposal p.concept.body,
  )

  pub body_of-accept_request :
      (target : String) (proposal : Proposal) (d : Folder) (k : String)
      → Proposes target proposal d
      → ((accept_request env proposals rid d).0 ≡ applied)
        × (body_of k (accept_request env proposals rid d).1
            ≡ (if str_eq target k then some proposal.after else body_of k d))
  body_of-accept_request target proposal d k p =
      let r = accepted target proposal d p in
      let e =
        (rewritten env rid target proposal.after (env.stored_id (env.safe p.ref.diff_id)) d).1 in
      (
        ap (λ q. q.0) r,
        ap (λ q. body_of k q.1) r
            ∙ ap (Option.map (λ x. x.body)) (conclude-get_concept "accepted" k e)
            ∙ body_of-rewritten target k proposal.after (env.stored_id (env.safe p.ref.diff_id)) d
                p.concept p.known,
      )

  find-statuses :
      (action : String) (ms : List Message) (m : Message)
      → first (λ x. of_request rid x && of_kind (some "proposal") x) ms ≡ some m
      → first
          (λ x. of_request rid x && of_kind (some "proposal") x)
          (map (with_status rid action) ms ++ marker_of env rid ∷ [])
        ≡ some (with_status rid action m)
  unfolding first
  find-statuses action [] m h = cc
  find-statuses action (x ∷ ms) m h = ground (arith, find-statuses action ms m, h)

  find-append :
      (ms : List Message) (m : Message)
      → first (λ x. of_request rid x && of_kind (some "proposal") x) ms ≡ some m
      → first (λ x. of_request rid x && of_kind (some "proposal") x) (ms ++ marker_of env rid ∷ [])
        ≡ some m
  unfolding first
  find-append [] m h = cc
  find-append (x ∷ ms) m h = ground (arith, find-append ms m, h)

  -- A message with the same proposal but for its status.
  abbrev Found : Folder → ProposalRef → Type 0
  Found d ref =
      (m : Message) × (r : ProposalRef) × (find_request_message rid (some "proposal") d ≡ some m)
      × (m.proposal ≡ some r)
      × (r.diff_id ≡ ref.diff_id)
      × (r.scope ≡ ref.scope)
      × (r.target_concept_id ≡ ref.target_concept_id)

  get_assistant-conclude :
      (action : String) (d : Folder)
      → get_assistant (conclude env rid action d)
        ≡ get_assistant (set_proposal_status rid action d).1 ++ marker_of env rid ∷ []
  unfolding conclude update_trace_action append_assistant_message write_thread get_assistant
  get_assistant-conclude action d = ground arith

  statuses-cases :
      (action : String) (d : Folder)
      → (get_assistant (set_proposal_status rid action d).1 ≡ get_assistant d)
        ⊎ (get_assistant (set_proposal_status rid action d).1
            ≡ map (with_status rid action) (get_assistant d))
  unfolding set_proposal_status write_thread get_assistant
  statuses-cases action d =
      elim (Option-cases (
        last_of (λ m. of_request rid m && has_proposal m)
          (map (with_status rid action) (get_assistant d)))) [
            | inl e ↦ inl (rw (e, set_proposal_status) refl)
            | inr (m, e) ↦ inr (rw (e, set_proposal_status) refl)
          ]

  first-holds :
      (p : Message → Bool) (ms : List Message) (m : Message) → first p ms ≡ some m → p m ≡ true
  unfolding first
  first-holds p [] m h = cc
  first-holds p (x ∷ ms) m h = ground (arith, first-holds p ms m, h)

  conclude-Found :
      (action : String) (d : Folder) (m : Message) (ref : ProposalRef)
      → find_request_message rid (some "proposal") d ≡ some m
      → m.proposal ≡ some ref
      → Found (conclude env rid action d) ref
  unfolding find_request_message
  conclude-Found action d m ref h q =
      let looked =
        λ (ms : List Message). first (λ x. of_request rid x && of_kind (some "proposal") x) ms in
      let all = get_assistant-conclude action d in
      let mine =
        first-holds (λ x. of_request rid x && of_kind (some "proposal") x) (get_assistant d) m h in
      elim (statuses-cases action d) [
        | inl e ↦ (
          m,
          ref,
          ap looked all
              ∙ ap (λ ms. looked (ms ++ marker_of env rid ∷ [])) e
              ∙ find-append (get_assistant d) m h,
          q,
          refl,
          refl,
          refl,
        )
        | inr e ↦ (
          with_status rid action m,
          record ref { status = action },
          ap looked all
              ∙ ap (λ ms. looked (ms ++ marker_of env rid ∷ [])) e
              ∙ find-statuses action (get_assistant d) m h,
          ground (arith, q, mine),
          refl,
          refl,
          refl,
        )
      ]

  conclude-traced :
      (action : String) (d : Folder) (t : Trace)
      → get_trace rid d ≡ some t
      → get_trace rid (conclude env rid action d) ≡ some (record t { user_action = some action })
  unfolding conclude set_proposal_status update_trace_action append_assistant_message write_thread
      get_trace
  conclude-traced action d t h = ground (
    arith,
    h,
    get-put rid rid (holds (record t { user_action = some action })) d.traces,
    eq_iff rid rid,
  )

  rejected :
      (d : Folder) (t : Trace)
      → get_trace rid d ≡ some t
      → reject_request env rid d ≡ (applied, conclude env rid "rejected" d)
  unfolding reject_request
  rejected d t h = ground (arith, h)

  -- A rejection leaves all that an acceptance looks at.
  conclude-Proposes :
      (action target : String) (proposal : Proposal) (d : Folder)
      → Proposes target proposal d
      → Proposes target proposal (conclude env rid action d)
  conclude-Proposes action target proposal d p =
      let (m, r, found, carries, same_id, same_scope, same_target) =
        conclude-Found action d p.message p.ref p.found p.carries in
      record {
        trace = record p.trace { user_action = some action };
        message = m;
        ref = r;
        concept = p.concept;
        traced = conclude-traced action d p.trace p.traced;
        found = found;
        carries = carries;
        scoped = same_scope ∙ p.scoped;
        aimed = ap truthy same_target ∙ p.aimed;
        stored = ap (λ i. read (get (env.safe i) proposals)) same_id ∙ p.stored;
        known = conclude-get_concept action target d ∙ p.known;
      }

  -- A proposal of a text for the whole of a unit that was rejected can still be accepted, and even then
  -- the acceptance sets the body of the unit to the proposed text, whatever that body is now, and leaves
  -- the bodies of the other concepts; so does an acceptance without a rejection.
  pub accept_request-reject_request :
      (target : String) (proposal : Proposal) (d : Folder) (k : String)
      → Proposes target proposal d
      → (let e = (reject_request env rid d).1 in
          (((accept_request env proposals rid d).0 ≡ applied)
            × (body_of k (accept_request env proposals rid d).1
                ≡ (if str_eq target k then some proposal.after else body_of k d)))
          × (((reject_request env rid d).0 ≡ applied)
              × ((accept_request env proposals rid e).0 ≡ applied)
              × (body_of k (accept_request env proposals rid e).1
                  ≡ (if str_eq target k then some proposal.after else body_of k d))))
  accept_request-reject_request target proposal d k p =
      let e = conclude env rid "rejected" d in
      let q = conclude-Proposes "rejected" target proposal d p in
      let a = body_of-accept_request target proposal e k q in
      let same = ap (Option.map (λ (x : Concept). x.body)) (conclude-get_concept "rejected" k d) in
      (
        body_of-accept_request target proposal d k p,
        subst
            (λ r.
              (r.0 ≡ applied)
              × ((accept_request env proposals rid r.1).0 ≡ applied)
              × (body_of k (accept_request env proposals rid r.1).1
                  ≡ (if str_eq target k then some proposal.after else body_of k d)))
            (sym (rejected d p.trace p.traced))
            (refl, a.0, a.1 ∙ ap (λ b. if str_eq target k then some proposal.after else b) same),
      )
