-- ===== src/Blaboratory/Call/Lines.antt =====
-- app/apps/blaboratory/call_sequence.py: how many lines a call has, and where they are written.
use ai_job_server.Prelude.{
  ℕ, zero, suc, ◌+◌, ◌-◌, ◌*◌, ◌≤◌, ◌<◌, ◌≡◌, ◌≢◌, refl, sym, ap, ◌∙◌, ltb, String, Option, none,
  some, List, [], ◌∷◌, ◌++◌, if_ind, length, append_assoc, append-nil, arith,
}
use ai_job_server.TextDiff.{Text}
use ai_job_server.Blaboratory.{Resident, Ended, completed, max_lines, Utterance, Lab}
use ai_job_server.Blaboratory.Tables.{create_call, end_call, append_utterance}
use ai_job_server.Blaboratory.Call.{
  World, call_max_lines, hang_up, segue, go_on, Summary, failed, out_of_fuel, talked, speaker_at,
  ask, parse_accept, parse_continuation, emit_line, speak, change, decide, ended, exchange,
  open_with, marked_busy, both_rooms, answered, run_call,
}

-- A line and who speaks it.
abbrev pub Line : Type 0
Line = String × Text

module _ (w : World) (rooms : List (Option ℕ)) (tick call_id : ℕ) where
  -- The rows of a line: one for each participant who has a room.
  pub rows : List (Option ℕ) → ℕ → Line → List Utterance
  rows [] seq l = []
  rows (none ∷ rs) seq l = rows rs seq l
  rows (some room ∷ rs) seq l =
      record {
        call_id = call_id;
        tick = tick;
        speaker_resident_id = l.0;
        room_id = room;
        body = l.1;
        seq = seq;
      }
      ∷ rows rs seq l

  -- The rows of lines that are numbered from `seq`.
  pub spoken : ℕ → List Line → List Utterance
  unfolding rows
  spoken seq [] = []
  spoken seq (l ∷ ls) = rows rooms seq l ++ spoken (seq + 1) ls

  emit-rows :
      (speaker : String) (rs : List (Option ℕ)) (body : Text) (seq : ℕ) (s : Lab)
      → (emit_line w call_id tick speaker rs body seq s).utterances
        ≡ s.utterances ++ rows rs seq (speaker, body)
  unfolding emit_line append_utterance rows
  emit-rows speaker [] body seq s = sym (append-nil s.utterances)
  emit-rows speaker (none ∷ rs) body seq s = emit-rows speaker rs body seq s
  emit-rows speaker (some room ∷ rs) body seq s =
      emit-rows speaker rs body seq _
      ∙ append_assoc s.utterances (_ ∷ []) (rows rs seq (speaker, body))

  emit-asked :
      (speaker : String) (rs : List (Option ℕ)) (body : Text) (seq : ℕ) (s : Lab)
      → (emit_line w call_id tick speaker rs body seq s).asked ≡ s.asked
  unfolding emit_line append_utterance
  emit-asked speaker [] body seq s = refl
  emit-asked speaker (none ∷ rs) body seq s = emit-asked speaker rs body seq s
  emit-asked speaker (some room ∷ rs) body seq s = emit-asked speaker rs body seq _

  -- A part of a call that begins after `seq` lines.
  pub record IsPart (seq : ℕ) (s : Lab) (r : Summary × Lab) : Type 0 where
    pub lines : List Line
    pub written : r.1.utterances ≡ s.utterances ++ spoken (seq + 1) lines
    pub capped : seq + length lines ≤ call_max_lines
    pub questions : r.1.asked ≤ s.asked + 3 * (call_max_lines - seq)
    pub finished : r.0 ≢ out_of_fuel
    pub reported :
        (id n : ℕ) (topics : List Text) → r.0 ≡ talked id n topics → n ≡ seq + length lines

  -- Before the first line of a part questions may have been asked.
  Before : Lab → Lab → ℕ → Type 0
  Before s r n = (r.utterances ≡ s.utterances) × (r.asked ≤ s.asked + n)

  failed-IsPart :
      (seq : ℕ) (s r : Lab) → seq < call_max_lines → Before s r 3 → IsPart seq s (failed, r)
  unfolding spoken Before
  failed-IsPart seq s r h b = record {
    lines = [];
    written = b.0 ∙ sym (append-nil s.utterances);
    capped = omega (arith, h);
    questions = omega (arith, h, b.1);
    finished = λ e. cc e;
    reported = λ id n topics e. cc e;
  }

  ended-IsPart :
      (caller callee : Resident) (reason : Ended) (topics : List Text) (seq : ℕ) (s r : Lab)
      → seq ≤ call_max_lines
      → r.utterances ≡ s.utterances
      → r.asked ≤ s.asked + 3 * (call_max_lines - seq)
      → IsPart seq s (ended w caller callee rooms tick call_id reason topics seq r)
  unfolding spoken end_call
  ended-IsPart caller callee reason topics seq s r h b q = record {
    lines = [];
    written = b ∙ sym (append-nil s.utterances);
    capped = omega (arith, h);
    questions = q;
    finished = λ e. cc e;
    reported = λ id n ts e. omega (arith, ap lines_of e);
  }
    where
      lines_of : Summary → ℕ
      lines_of (talked id n ts) = n
      lines_of _ = 0

  module _ (caller callee : Resident) where
    speak-IsPart :
        (again : ℕ → Lab → Summary × Lab) (turn seq : ℕ) (o : Option Text) (s r : Lab)
        → ((q : Lab) → IsPart (seq + 1) q (again (seq + 1) q))
        → seq < call_max_lines
        → Before s r 3
        → IsPart seq s (speak w caller callee rooms tick call_id again turn seq (o, r))
    speak-IsPart again turn seq none s r f h b = failed-IsPart seq s r h b
    speak-IsPart again turn seq (some line) s r f h b =
        let l : Line = ((speaker_at caller callee turn).id, line) in
        let e = emit_line w call_id tick l.0 rooms line (seq + 1) r in
        let p = f e in
        let same : r.utterances ≡ s.utterances = unfold Before in b.0 in
        let start =
          emit-rows l.0 rooms line (seq + 1) r ∙ ap (λ u. u ++ rows rooms (seq + 1) l) same in
        let few : r.asked ≤ s.asked + 3 = unfold Before in b.1 in
        record {
          lines = l ∷ p.lines;
          written =
              p.written
              ∙ ap (λ u. u ++ spoken (seq + 1 + 1) p.lines) start
              ∙ append_assoc s.utterances (rows rooms (seq + 1) l) (spoken (seq + 1 + 1) p.lines)
              ∙ unfold spoken in refl;
          capped = omega (arith, p.capped);
          questions = omega (arith, p.questions, emit-asked l.0 rooms line (seq + 1) r, few, h);
          finished = p.finished;
          reported = λ id n topics q. omega (arith, p.reported id n topics q);
        }

    change-IsPart :
        (again : List Text → ℕ → Lab → Summary × Lab) (topics : List Text) (turn seq : ℕ)
        (o : Option Text) (s r : Lab)
        → ((ts : List Text) (q : Lab) → IsPart (seq + 1) q (again ts (seq + 1) q))
        → seq < call_max_lines
        → Before s r 2
        → IsPart seq s (change w caller callee rooms tick call_id again topics turn seq (o, r))
    unfolding Before
    change-IsPart again topics turn seq none s r f h b =
        failed-IsPart seq s r h (b.0, omega (arith, b.1))
    change-IsPart again topics turn seq (some topic) s r f h b =
        speak-IsPart (again (topic ∷ topics)) turn seq (ask w r).0 s (ask w r).1
          (f (topic ∷ topics)) h (b.0, omega (arith, b.1))

    decide-IsPart :
        (again : List Text → ℕ → Lab → Summary × Lab) (topics : List Text) (turn seq : ℕ)
        (o : Option Text) (s r : Lab)
        → ((ts : List Text) (q : Lab) → IsPart (seq + 1) q (again ts (seq + 1) q))
        → seq < call_max_lines
        → Before s r 1
        → IsPart seq s (decide w caller callee rooms tick call_id again topics turn seq (o, r))
    unfolding Before
    decide-IsPart again topics turn seq none s r f h b =
        failed-IsPart seq s r h (b.0, omega (arith, b.1))
    decide-IsPart again topics turn seq (some text) s r f h b =
        elim (parse_continuation w text)
          as (λ d. IsPart seq s (elim d [
            | hang_up ↦ ended w caller callee rooms tick call_id completed topics seq r
            | segue ↦ change w caller callee rooms tick call_id again topics turn seq (ask w r)
            | go_on ↦ speak w caller callee rooms tick call_id (again topics) turn seq (ask w r)
          ])) [
            | hang_up ↦
                ended-IsPart caller callee completed topics seq s r (omega (arith, h)) b.0
                  (omega (arith, b.1, h))
            | segue ↦
                change-IsPart again topics turn seq (ask w r).0 s (ask w r).1 f h
                  (b.0, omega (arith, b.1))
            | go_on ↦
                speak-IsPart (again topics) turn seq (ask w r).0 s (ask w r).1 (f topics) h
                  (b.0, omega (arith, b.1))
          ]

    exchange-IsPart :
        (fuel : ℕ) (topics : List Text) (turn seq : ℕ) (s : Lab)
        → call_max_lines < fuel + seq
        → seq ≤ call_max_lines
        → IsPart seq s (exchange w caller callee rooms tick call_id fuel topics turn seq s)
    unfolding exchange
    exchange-IsPart zero topics turn seq s h k = absurd (omega (arith, h, k))
    exchange-IsPart (suc fuel) topics turn seq s h k =
        if_ind (IsPart seq s) (ltb seq call_max_lines)
          (λ e.
            let lt : seq < call_max_lines = ground (arith, e) in
            decide-IsPart
              (λ ts n r. exchange w caller callee rooms tick call_id fuel ts (turn + 1) n r) topics
              turn seq (ask w s).0 s (ask w s).1
              (λ ts q.
                exchange-IsPart fuel ts (turn + 1) (seq + 1) q (omega (arith, h))
                  (omega (arith, lt)))
              lt (unfold Before in (refl, omega arith)))
          (λ e. ended-IsPart caller callee max_lines topics seq s s k refl (omega arith))

    open_with-IsPart :
        (o : Option Text) (s : Lab)
        → IsPart 0 s (open_with w caller callee rooms tick call_id (o, s))
    open_with-IsPart none s =
        failed-IsPart 0 s s (omega arith) (unfold Before in (refl, omega arith))
    open_with-IsPart (some opening) s =
        let l : Line = (caller.id, opening) in
        let e = emit_line w call_id tick caller.id rooms opening 1 s in
        let p = exchange-IsPart call_max_lines (opening ∷ []) 0 1 e (omega arith) (omega arith) in
        record {
          lines = l ∷ p.lines;
          written =
              p.written
              ∙ ap (λ u. u ++ spoken 2 p.lines) (emit-rows caller.id rooms opening 1 s)
              ∙ append_assoc s.utterances (rows rooms 1 l) (spoken 2 p.lines)
              ∙ unfold spoken in refl;
          capped = omega (arith, p.capped);
          questions = omega (arith, p.questions, emit-asked caller.id rooms opening 1 s);
          finished = p.finished;
          reported = λ id n topics q. omega (arith, p.reported id n topics q);
        }

-- What a call leaves: lines that are numbered from 1 and written for each participant who has a room.
pub record IsCall (w : World) (caller callee : Resident) (tick : ℕ) (s : Lab) (r : Summary × Lab)
    : Type 0 where
  pub call_id : ℕ
  pub lines : List Line
  pub written :
      r.1.utterances ≡ s.utterances ++ spoken w (both_rooms w caller callee s) tick call_id 1 lines
  pub capped : length lines ≤ call_max_lines
  pub questions : r.1.asked ≤ s.asked + 26
  pub finished : r.0 ≢ out_of_fuel
  pub reported : (id n : ℕ) (topics : List Text) → r.0 ≡ talked id n topics → n ≡ length lines

-- Whatever the language model answers, or whether it fails, a call ends after at most 8 lines and at
-- most 26 questions; the utterances that it adds are its lines in order, numbered from 1, each of them
-- once for each participant who has a room; and a call that was talked reports the number of lines.
pub run_call-IsCall :
    (w : World) (caller callee : Resident) (tick : ℕ) (s : Lab)
    → IsCall w caller callee tick s (run_call w caller callee tick s)
unfolding run_call
run_call-IsCall w caller callee tick s = answer (ask w s).0
  where
    silent :
        (r : Summary × Lab)
        → r.1.utterances ≡ s.utterances
        → r.1.asked ≤ s.asked + 26
        → r.0 ≢ out_of_fuel
        → ((id n : ℕ) (topics : List Text) → r.0 ≢ talked id n topics)
        → IsCall w caller callee tick s r
    silent r u a f t = record {
      call_id = 0;
      lines = [];
      written = u ∙ sym (append-nil s.utterances) ∙ unfold spoken in refl;
      capped = omega arith;
      questions = a;
      finished = f;
      reported = λ id n topics e. absurd (t id n topics e);
    }

    talking :
        (call_id : ℕ) (q : Lab) (r : Summary × Lab)
        → q.utterances ≡ s.utterances
        → q.asked ≡ s.asked + 2
        → IsPart w (both_rooms w caller callee s) tick call_id 0 q r
        → IsCall w caller callee tick s r
    talking call_id q r u a p = record {
      call_id = call_id;
      lines = p.lines;
      written =
          p.written
          ∙ ap (λ us. us ++ spoken w (both_rooms w caller callee s) tick call_id 1 p.lines) u;
      capped = omega (arith, p.capped);
      questions = omega (arith, p.questions, a);
      finished = p.finished;
      reported = λ id n topics e. omega (arith, p.reported id n topics e);
    }

    answer :
        (o : Option Text)
        → IsCall w caller callee tick s
            (answered w caller callee tick (both_rooms w caller callee s) (o, (ask w s).1))
    answer none = silent _ refl (omega arith) (λ e. cc e) (λ id n topics e. cc e)
    answer (some text) =
        let rooms = both_rooms w caller callee s in
        let made = (create_call tick caller.id callee.id (parse_accept w text) (ask w s).1).1 in
        let asked = ask w (marked_busy w callee.id made) in
        if_ind (IsCall w caller callee tick s) (parse_accept w text)
          (λ e.
            talking (length s.calls + 1) asked.1 _ refl (omega arith)
              (open_with-IsPart w rooms tick (length s.calls + 1) caller callee asked.0 asked.1))
          (λ e. silent _ refl (omega arith) (λ e. cc e) (λ id n topics e. cc e))
