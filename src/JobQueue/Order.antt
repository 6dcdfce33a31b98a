-- ===== src/JobQueue/Order.antt =====
-- app/job_queue.py: the order in which the worker serves the lanes, and that it never sleeps on a
-- waiting item.
use native.Mathlib.Nat.{le_refl}
use mathlib.Core.Path.{ap₂}
use ai_job_server.Prelude.{
  keep-append, ℕ, zero, suc, ◌-◌, ◌≤◌, ◌<◌, ◌≡◌, ◌≢◌, refl, String, Bool, false, Option, none, some,
  List, [], ◌∷◌, ◌++◌, arith, length, if◌then◌else◌, ◌==◌, Bool-cases, inl, inr, if_ind, keep, ◌∙◌,
  ap, take, drop,
}
use ai_job_server.Prelude.Dict.{discard}
use ai_job_server.JobQueue.{
  JobQueue, parked, finished, Item, Disk, init, serve, take_next, after_take, wake, runner_done,
  job_still_queued,
}
use ai_job_server.JobQueue.Invariant.{ids, waiting, IsSound, Reach, Reach-IsSound, init-IsSound}

-- What a round of the worker runs: the current job after it, if the worker awaits a runner.
abbrev current : Option String → List String
current none = []
current (some id) = id ∷ []

-- The ids that the disk still shows as queued.
abbrev pub live : Disk → List String → List String
live disk l = keep (λ id. job_still_queued (disk id)) l

length-drop_one : (w : List String) → length (drop 1 w) ≤ length w - 1
length-drop_one [] = omega arith
length-drop_one (x ∷ w) = omega arith

live_split :
    (disk : Disk) (w : List String) → live disk (take 1 w) ++ live disk (drop 1 w) ≡ live disk w
unfolding keep
live_split disk [] = refl
live_split disk (x ∷ w) = ground arith

module _ {R P : Type 0} where
  length-waiting-serve :
      (disk : Disk) (x : Item R) (q : JobQueue R P)
      → length (waiting (serve disk x q)) ≡ length (waiting q)
  unfolding serve
  length-waiting-serve disk x q =
      if_ind (λ (u : JobQueue R P). length (waiting u) ≡ length (waiting q))
        (job_still_queued (disk x.0)) (λ _. refl) (λ _. refl)

  length-after_take :
      (disk : Disk) (hs ls : List (Item R)) (q : JobQueue R P)
      → ids hs ++ ids ls ≢ []
      → suc (length (waiting (after_take disk (take_next hs ls) q))) ≡ length (ids hs ++ ids ls)
  unfolding after_take take_next
  length-after_take disk [] [] q h = absurd (h refl)
  length-after_take disk [] (x ∷ ls) q h = ap suc (length-waiting-serve disk x _)
  length-after_take disk (x ∷ hs) ls q h = ap suc (length-waiting-serve disk x _)

  wake_on :
      (disk : Disk) (q : JobQueue R P)
      → q.stop_event ≡ false
      → wake disk q
        ≡ after_take disk (take_next q.high_lane q.low_lane) (record q { avail = q.avail - 1 })
  unfolding wake
  wake_on disk q s =
      ap
        (λ b.
          if b
          then record q { avail = q.avail - 1; worker = finished }
          else after_take disk (take_next q.high_lane q.low_lane)
              (record q { avail = q.avail - 1 }))
        s

  -- No wake-up is lost. In every state that the queue can reach, if the worker is parked, was not
  -- told to stop and some item waits, then the worker has a permit, and its next round takes
  -- exactly one item off the lanes, whatever the job's status on disk.
  pub no_lost_wakeup :
      (q : JobQueue R P)
      → Reach init q
      → q.worker ≡ parked
      → q.stop_event ≡ false
      → waiting q ≢ []
      → (0 < q.avail) × ((disk : Disk) → suc (length (waiting (wake disk q))) ≡ length (waiting q))
  no_lost_wakeup q r p s w = (
    enough q (waiting q) (Reach-IsSound r init-IsSound) refl w,
    λ disk.
        ap (λ u. suc (length (waiting u))) (wake_on disk q s)
        ∙ length-after_take disk q.high_lane q.low_lane (record q { avail = q.avail - 1 }) w,
  )
    where
      enough :
          (u : JobQueue R P) (l : List String) → IsSound u → waiting u ≡ l → l ≢ [] → 0 < u.avail
      enough u [] v e n = absurd (n refl)
      enough u (x ∷ l) v e n = omega (arith, v.permits, ap length e)

  -- A round with the whole run of its job; without a permit the worker stays parked.
  unfoldable pub round : Disk → JobQueue R P → List String × JobQueue R P
  round disk q =
      if q.avail == 0
      then ([], q)
      else (current (wake disk q).current_job_id, runner_done (wake disk q))

  unfoldable pub drain : ℕ → Disk → JobQueue R P → List String × JobQueue R P
  unfolding round
  drain zero disk q = ([], q)
  drain (suc n) disk q =
      let r = round disk q in let rest = drain n disk r.1 in (r.0 ++ rest.0, rest.1)

  -- A worker at its park, with a permit for each item.
  record IsReady (q : JobQueue R P) : Type 0 where
    at_park : q.worker ≡ parked
    on : q.stop_event ≡ false
    idle : q.current_job_id ≡ none
    permits : length (waiting q) ≤ q.avail

  -- What one round does to lanes hs and ls.
  record Took (disk : Disk) (w : List String) (stop : Bool) (avail : ℕ) (u : JobQueue R P)
      : Type 0 where
    ran : current u.current_job_id ≡ live disk (take 1 w)
    left : waiting u ≡ drop 1 w
    on : u.stop_event ≡ stop
    permits : u.avail ≡ avail

  serve-Took :
      (disk : Disk) (x : Item R) (q : JobQueue R P)
      → q.current_job_id ≡ none
      → Took disk (x.0 ∷ waiting q) q.stop_event q.avail (serve disk x q)
  unfolding serve keep
  serve-Took disk x q e = elim (Bool-cases (job_still_queued (disk x.0))) [
    | inl h ↦ rw h (record { ran = rw h; left = refl; on = refl; permits = refl })
    | inr h ↦ rw h (record { ran = rw h (ap current e); left = refl; on = refl; permits = refl })
  ]

  after_take-Took :
      (disk : Disk) (hs ls : List (Item R)) (q : JobQueue R P)
      → q.current_job_id ≡ none
      → Took disk
          (ids hs ++ ids ls)
          q.stop_event
          q.avail
          (after_take disk (take_next hs ls) (record q { high_lane = hs; low_lane = ls }))
  unfolding after_take take_next keep
  after_take-Took disk [] [] q e = record {
    ran = ap current e;
    left = refl;
    on = refl;
    permits = refl;
  }
  after_take-Took disk [] (x ∷ ls) q e =
      serve-Took disk x
        (record q { high_lane = []; low_lane = ls; pending_ids = discard x.0 q.pending_ids }) e
  after_take-Took disk (x ∷ hs) ls q e =
      serve-Took disk x
        (record q { high_lane = hs; low_lane = ls; pending_ids = discard x.0 q.pending_ids }) e

  -- With a permit, a round runs the first item that waits, if its job is still queued.
  round_Took :
      (disk : Disk) (q : JobQueue R P)
      → IsReady q
      → Took disk (waiting q) q.stop_event (q.avail - 1) (wake disk q)
  round_Took disk q r =
      rw (wake_on disk q r.on)
        (after_take-Took disk q.high_lane q.low_lane (record q { avail = q.avail - 1 }) r.idle)

  next_IsReady :
      (disk : Disk) (q : JobQueue R P)
      → 0 < q.avail
      → IsReady q
      → IsReady (runner_done (wake disk q))
  unfolding runner_done
  next_IsReady disk q a r =
      let t = round_Took disk q r in
      record {
        at_park = refl;
        on = t.on ∙ r.on;
        idle = refl;
        permits =
            omega (arith, ap length t.left, length-drop_one (waiting q), t.permits, r.permits);
      }

  drain_from :
      (n : ℕ) (disk : Disk) (w : List String) (q : JobQueue R P)
      → IsReady q
      → waiting q ≡ w
      → length w ≤ n
      → ((drain n disk q).0 ≡ live disk w) × (waiting (drain n disk q).1 ≡ [])
  unfolding drain round
  drain_from zero disk [] q r e l = (unfold keep in refl, e)
  drain_from zero disk (x ∷ w) q r e l = absurd (omega arith)
  drain_from (suc n) disk w q r e l = elim (Bool-cases (q.avail == 0)) [
    | inl z ↦ rw (z, round) (drain_from n disk w q r e (ground (arith, ap length e, r.permits, z)))
    | inr z ↦
        let t = round_Took disk q r in
        let left : waiting (runner_done (wake disk q)) ≡ drop 1 w =
          unfold runner_done in t.left ∙ ap (drop 1) e in
        let ih =
          drain_from n disk (drop 1 w) (runner_done (wake disk q))
            (next_IsReady disk q (ground (arith, z)) r) left (omega (arith, length-drop_one w)) in
        rw (z, round)
          (
            ap₂ (λ a b. a ++ b) (t.ran ∙ ap (λ v. live disk (take 1 v)) e) ih.0 ∙ live_split disk w,
            ih.1,
          )
  ]

  IsSound-IsReady :
      (q : JobQueue R P) → IsSound q → q.worker ≡ parked → q.stop_event ≡ false → IsReady q
  IsSound-IsReady q v p s = record {
    at_park = p;
    on = s;
    idle = ground (arith, v.busy, p);
    permits = omega (arith, v.permits);
  }

  -- HIGH before LOW, first in first out. From every reachable state with the worker parked and not
  -- told to stop, as many rounds as there are items, with no new item and a disk that does not
  -- change, run exactly the jobs that the disk shows as queued, those of the HIGH lane in its order
  -- and then those of the LOW lane in its order, and leave both lanes empty.
  pub drain_order :
      (disk : Disk) (q : JobQueue R P)
      → Reach init q
      → q.worker ≡ parked
      → q.stop_event ≡ false
      → ((drain (length (waiting q)) disk q).0
          ≡ live disk (ids q.high_lane) ++ live disk (ids q.low_lane))
        × (waiting (drain (length (waiting q)) disk q).1 ≡ [])
  drain_order disk q r p s =
      let d =
        drain_from (length (waiting q)) disk (waiting q) q
          (IsSound-IsReady q (Reach-IsSound r init-IsSound) p s) refl (le_refl _) in
      (d.0 ∙ keep-append (λ id. job_still_queued (disk id)) (ids q.high_lane) (ids q.low_lane), d.1)
