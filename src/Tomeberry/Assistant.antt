-- ===== src/Tomeberry/Assistant.antt =====
-- app/apps/tomeberry/store.py: the messages of the assistant and the traces of requests.
use mathlib.Core.Option
use ai_job_server.Prelude.{
  String, str_eq, Bool, true, false, ◌&&◌, Option, none, some, List, [], ◌∷◌, ◌++◌, map,
  if◌then◌else◌, first,
}
use ai_job_server.Prelude.Dict.{get, put}
use ai_job_server.Tomeberry.{holds, read, Folder, Message, ProposalRef, Trace}

-- The messages of the thread, none if the file is missing or cannot be read.
abbrev pub messages_of : Option (List Message) → List Message
messages_of none = []
messages_of (some ms) = ms

unfoldable pub get_assistant : Folder → List Message
get_assistant d = messages_of (read d.thread)

unfoldable pub write_thread : List Message → Folder → Folder
write_thread ms d = record d { thread = some (holds ms) }

unfoldable pub append_assistant_message : Message → Folder → Folder
unfolding get_assistant write_thread
append_assistant_message m d = write_thread (get_assistant d ++ m ∷ []) d

abbrev pub of_request : String → Message → Bool
of_request rid m = elim m.request_id [ none ↦ false | some r ↦ str_eq r rid ]

abbrev pub of_kind : Option String → Message → Bool
of_kind none m = true
of_kind (some k) m = str_eq m.kind k

unfoldable pub find_request_message : String → Option String → Folder → Option Message
unfolding first get_assistant
find_request_message rid kind d = first (λ m. of_request rid m && of_kind kind m) (get_assistant d)

abbrev pub has_proposal : Message → Bool
has_proposal m = elim m.proposal [ none ↦ false | some p ↦ true ]

abbrev pub with_status : String → String → Message → Message
with_status rid status m =
    if of_request rid m
    then record m {
      proposal = Option.map {A = ProposalRef} (λ p. record p { status = status }) m.proposal;
    }
    else m

abbrev pub last_of : (Message → Bool) → List Message → Option Message
last_of p [] = none
last_of p (m ∷ ms) = elim (last_of p ms) [ none ↦ if p m then some m else none | some x ↦ some x ]

-- The last message that was found is given; the thread is written if there is one.
unfoldable pub set_proposal_status : String → String → Folder → Option Message × Folder
unfolding get_assistant write_thread
set_proposal_status rid status d =
    let ms = map (with_status rid status) (get_assistant d) in
    elim (last_of (λ m. of_request rid m && has_proposal m) ms) [
      | none ↦ (none, d)
      | some m ↦ (some m, write_thread ms d)
    ]

unfoldable pub get_trace : String → Folder → Option Trace
unfolding get
get_trace rid d = read (get rid d.traces)

unfoldable pub update_trace_action : String → String → Folder → Folder
unfolding get_trace put
update_trace_action rid action d = elim (get_trace rid d) [
  | none ↦ d
  | some t ↦ record d { traces = put rid (holds (record t { user_action = some action })) d.traces }
]
