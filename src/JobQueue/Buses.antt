-- ===== src/JobQueue/Buses.antt =====
-- app/job_queue.py: how long the queue keeps the bus of a finished job. Times are numbers, of one clock.
use ai_job_server.Prelude.{
  any, All, true, ℕ, ◌+◌, ◌≡◌, refl, String, str_eq, Bool, false, ◌||◌, Option, none, some, List,
  [], ◌∷◌, map, arith, leb, if◌then◌else◌, eq_iff, ◌∙◌, ap, subst, Bool-cases, inl, inr,
}
use ai_job_server.Prelude.Dict.{Dict, get, put, pop, has, get-put, get-pop}
use ai_job_server.Prelude.Names.{NoDup, has-cons, has-nil}
use ai_job_server.EventBus
use ai_job_server.EventBus.{EventBus}
use ai_job_server.JobQueue.{
  JobQueue, get_bus, close_bus, close_found, sweep, expired_ids, pop_all, create_bus,
}

abbrev pub keys : {V : Type 0} → Dict V → List String
keys d = map (λ e. e.0) d

has-keys-put :
    {V : Type 0} (k j : String) (v : V) (d : Dict V)
    → has j (keys (put k v d)) ≡ (str_eq k j || has j (keys d))
unfolding put
has-keys-put k j v [] = has-cons j k []
has-keys-put k j v ((i, w) ∷ d) = ground (
  arith,
  eq_iff i k,
  eq_iff i j,
  eq_iff k j,
  has-cons j k (keys d),
  has-cons j i (keys d),
  has-cons j i (keys (put k v d)),
  has-keys-put k j v d,
)

pub NoDup-put :
    {V : Type 0} (k : String) (v : V) (d : Dict V) → NoDup (keys d) → NoDup (keys (put k v d))
unfolding put
NoDup-put k v [] h = (has-nil k, tt)
NoDup-put k v ((i, w) ∷ d) h = elim (Bool-cases (str_eq i k)) [
  | inl e ↦ rw e (subst (λ j. has j (keys d) ≡ false) ((eq_iff i k).0 e) h.0, h.1)
  | inr e ↦
      rw e (ground (arith, has-keys-put k i v d, h.0, eq_iff i k, eq_iff k i), NoDup-put k v d h.1)
]

due : ℕ → Option ℕ → Bool
due now none = false
due now (some at) = leb at now

get-none : (j : String) (d : Dict ℕ) → has j (keys d) ≡ false → get j d ≡ none
unfolding get
get-none j [] h = refl
get-none j ((i, t) ∷ d) h = ground (arith, has-cons j i (keys d), get-none j d)

has-expired_ids :
    (now : ℕ) (j : String) (d : Dict ℕ)
    → NoDup (keys d)
    → has j (expired_ids now d) ≡ due now (get j d)
unfolding expired_ids due get
has-expired_ids now j [] h = has-nil j
has-expired_ids now j ((i, t) ∷ d) h = ground (
  arith,
  has-cons j i (expired_ids now d),
  eq_iff i j,
  get-none j d,
  has-expired_ids now j d h.1,
  h.0,
)

get-pop_all :
    {W : Type 0} (j : String) (ids : List String) (d : Dict W)
    → get j (pop_all ids d) ≡ (if has j ids then none else get j d)
unfolding pop_all
get-pop_all j [] d = ground (arith, has-nil j)
get-pop_all j (i ∷ ids) d =
    ground (arith, has-cons j i ids, get-pop_all j ids (pop i d), get-pop i j d)

-- What happens to the buses after a close: a round of the sweep, or a bus that is made or closed for
-- another job.
pub data Event : Type 0 where
  swept : (now : ℕ) → Event
  created : (id : String) → Event
  closed : (retention now : ℕ) (id : String) → Event

abbrev pub is_of : String → Event → Bool
is_of id (swept now) = false
is_of id (created j) = str_eq j id
is_of id (closed retention now j) = str_eq j id

abbrev pub is_sweep_from : ℕ → Event → Bool
is_sweep_from expiry (swept now) = leb expiry now
is_sweep_from expiry _ = false

has-keys-pop :
    {V : Type 0} (k j : String) (d : Dict V)
    → has j (keys d) ≡ false
    → has j (keys (pop k d)) ≡ false
unfolding pop
has-keys-pop k j [] h = h
has-keys-pop k j ((i, w) ∷ d) h =
    ground (arith, has-cons j i (keys d), has-cons j i (keys (pop k d)), has-keys-pop k j d, h)

NoDup-pop : {V : Type 0} (k : String) (d : Dict V) → NoDup (keys d) → NoDup (keys (pop k d))
unfolding pop
NoDup-pop k [] h = tt
NoDup-pop k ((i, w) ∷ d) h = elim (Bool-cases (str_eq i k)) [
  | inl e ↦ rw e (NoDup-pop k d h.1)
  | inr e ↦ rw e (has-keys-pop k i d h.0, NoDup-pop k d h.1)
]

NoDup-pop_all :
    {V : Type 0} (ids : List String) (d : Dict V) → NoDup (keys d) → NoDup (keys (pop_all ids d))
unfolding pop_all
NoDup-pop_all [] d h = h
NoDup-pop_all (i ∷ ids) d h = NoDup-pop_all ids (pop i d) (NoDup-pop i d h)

bool_regroup : (a b c : Bool) → (b || (a || c)) ≡ ((a || b) || c)
bool_regroup a b c = ground arith

or_false : (a : Bool) → (a || false) ≡ a
or_false a = ground arith

module _ {R P : Type 0} where
  unfoldable pub happen : Event → JobQueue R P → JobQueue R P
  unfolding sweep create_bus close_bus
  happen (swept now) q = sweep now q
  happen (created id) q = (create_bus id q).1
  happen (closed retention now id) q = close_bus retention now id q

  unfoldable pub happen_all : List Event → JobQueue R P → JobQueue R P
  unfolding happen
  happen_all [] q = q
  happen_all (e ∷ es) q = happen_all es (happen e q)

  -- The closed bus waits for its expiry, or it is gone.
  Held : Bool → EventBus P → ℕ → String → JobQueue R P → Type 0
  Held gone b expiry id q =
      (get id q.buses ≡ (if gone then none else some b))
      × (get id q.bus_expiry ≡ (if gone then none else some expiry))
      × NoDup (keys q.bus_expiry)

  swept-Held :
      (gone : Bool) (b : EventBus P) (expiry now : ℕ) (id : String) (q : JobQueue R P)
      → Held gone b expiry id q
      → Held (leb expiry now || gone) b expiry id (sweep now q)
  unfolding Held sweep due
  swept-Held gone b expiry now id q h =
      let ids = expired_ids now q.bus_expiry in
      let x = has-expired_ids now id q.bus_expiry h.2 in
      elim gone
          as (λ g. Held g b expiry id q → Held (leb expiry now || g) b expiry id (sweep now q)) [
            | true ↦ λ k. (
              ground (arith, get-pop_all id ids q.buses, x, k.0, k.1),
              ground (arith, get-pop_all id ids q.bus_expiry, x, k.0, k.1),
              NoDup-pop_all ids q.bus_expiry k.2,
            )
            | false ↦ λ k. (
              ground (arith, get-pop_all id ids q.buses, x, k.0, k.1),
              ground (arith, get-pop_all id ids q.bus_expiry, x, k.0, k.1),
              NoDup-pop_all ids q.bus_expiry k.2,
            )
          ]
        h

  closed-Held :
      (gone : Bool) (b : EventBus P) (expiry retention now : ℕ) (j id : String)
      (o : Option (EventBus P)) (q : JobQueue R P)
      → str_eq j id ≡ false
      → Held gone b expiry id q
      → Held gone b expiry id (close_found (now + retention) j o q)
  unfolding Held close_found
  closed-Held gone b expiry retention now j id none q n h = h
  closed-Held gone b expiry retention now j id (some c) q n h = (
    ground (arith, get-put j id (EventBus.close c) q.buses, n) ∙ h.0,
    ground (arith, get-put j id (now + retention) q.bus_expiry, n) ∙ h.1,
    NoDup-put j (now + retention) q.bus_expiry h.2,
  )

  created-Held :
      (gone : Bool) (b : EventBus P) (expiry : ℕ) (j id : String) (q : JobQueue R P)
      → str_eq j id ≡ false
      → Held gone b expiry id q
      → Held gone b expiry id (create_bus j q).1
  unfolding Held create_bus
  created-Held gone b expiry j id q n h = (
    ground (arith, get-put j id EventBus.empty q.buses, n) ∙ h.0,
    ground (arith, get-pop j id q.bus_expiry, n) ∙ h.1,
    NoDup-pop j q.bus_expiry h.2,
  )

  happen_all-Held :
      (gone : Bool) (b : EventBus P) (expiry : ℕ) (id : String) (es : List Event) (q : JobQueue R P)
      → All (λ e. is_of id e ≡ false) es
      → Held gone b expiry id q
      → Held (any (is_sweep_from expiry) es || gone) b expiry id (happen_all es q)
  unfolding happen_all happen any close_bus
  happen_all-Held gone b expiry id [] q a h = h
  happen_all-Held gone b expiry id (swept now ∷ es) q a h =
      subst (λ g. Held g b expiry id (happen_all es (sweep now q)))
        (bool_regroup (leb expiry now) (any (is_sweep_from expiry) es) gone)
        (happen_all-Held (leb expiry now || gone) b expiry id es (sweep now q) a.1
          (swept-Held gone b expiry now id q h))
  happen_all-Held gone b expiry id (created j ∷ es) q a h =
      happen_all-Held gone b expiry id es (create_bus j q).1 a.1
        (created-Held gone b expiry j id q a.0 h)
  happen_all-Held gone b expiry id (closed retention now j ∷ es) q a h =
      happen_all-Held gone b expiry id es (close_bus retention now j q) a.1
        (closed-Held gone b expiry retention now j id (get j q.buses) q a.0 h)

  -- A bus that is closed at a time stays available, closed, through any sweeps and any buses that are
  -- made or closed for other jobs, until the first sweep at the end of its retention or later, and it
  -- is gone from then on. It is supposed that the expiries have distinct ids.
  pub get_bus-sweep-close_bus :
      (retention t : ℕ) (id : String) (es : List Event) (q : JobQueue R P) (b : EventBus P)
      → NoDup (keys q.bus_expiry)
      → get_bus id q ≡ some b
      → All (λ e. is_of id e ≡ false) es
      → get_bus id (happen_all es (close_bus retention t id q))
        ≡ (if any (is_sweep_from (t + retention)) es then none else some (EventBus.close b))
  unfolding get_bus close_bus
  get_bus-sweep-close_bus retention t id es q b n e a =
      let closed_now = close_found (t + retention) id (some b) q in
      let start : Held false (EventBus.close b) (t + retention) id closed_now =
        unfold Held close_found in
        (
          ground (arith, get-put id id (EventBus.close b) q.buses, eq_iff id id),
          ground (arith, get-put id id (t + retention) q.bus_expiry, eq_iff id id),
          NoDup-put id (t + retention) q.bus_expiry n,
        ) in
      let h = happen_all-Held false (EventBus.close b) (t + retention) id es closed_now a start in
      let kept : get id (happen_all es closed_now).buses ≡ (
          if any (is_sweep_from (t + retention)) es || false
          then none
          else some (EventBus.close b)) =
        unfold Held in h.0 in
      ap (λ o. get id (happen_all es (close_found (t + retention) id o q)).buses) e
      ∙ kept
      ∙ ap (λ g. if g then none else some (EventBus.close b))
          (or_false (any (is_sweep_from (t + retention)) es))
