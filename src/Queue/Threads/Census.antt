-- ===== src/Queue/Threads/Census.antt =====
-- The threads by number: who sleeps, who is woken, who has yet to broadcast; and what a signal and a
-- broadcast do to those numbers.
use tools_on_linux.Prelude.{none, some}
use tools_on_linux.Queue.Flushing.{flush_events}
use tools_on_linux.Queue.Threads.System.{
  writes, woken, wakes_one, wakes_none, wakes_all, wake_up, total, skips, removes, same_cond,
  running, reads, is_asleep, done, cond_of, asleep, announcing, Thread, Task, Delivers,
}
use tools_on_linux.Queue.State.{
  signal, flushed, destroyed, cond_put, cond_get, broadcast, Event, Cond,
}
use tools_on_linux.Prelude.{
  some, sym, subst, Option, ℕ, suc, ◌+◌, ◌≡◌, true, false, List, [], ◌∷◌, ◌++◌, map, if◌then◌else◌,
  refl, arith, ◌⊎◌, inl, inr, ap, Bool, ◌≤◌,
}

abbrev pub is_awake : Cond → Thread → ℕ
is_awake c (woken t) = if same_cond (cond_of t) c then 1 else 0
is_awake c running = 0
is_awake c (asleep d t) = 0
is_awake c announcing = 0

abbrev pub is_announcing : Thread → ℕ
is_announcing announcing = 1
is_announcing running = 0
is_announcing (asleep d t) = 0
is_announcing (woken t) = 0

-- Asleep on the condition that nobody signals for what the thread waits for.
abbrev pub is_misplaced : Thread → ℕ
is_misplaced (asleep d t) = if same_cond (cond_of t) d then 0 else 1
is_misplaced running = 0
is_misplaced (woken t) = 0
is_misplaced announcing = 0

abbrev pub sleepers : Cond → List Thread → ℕ
sleepers c = total (is_asleep c)

abbrev pub awakened : Cond → List Thread → ℕ
awakened c = total (is_awake c)

abbrev pub misplaced : List Thread → ℕ
misplaced = total is_misplaced

pub misplaced_bound :
    (ts : List Thread) → misplaced ts ≤ sleepers cond_get ts + sleepers cond_put ts
misplaced_bound [] = omega arith
misplaced_bound (running ∷ ts) = omega (arith, misplaced_bound ts)
misplaced_bound (woken t ∷ ts) = omega (arith, misplaced_bound ts)
misplaced_bound (announcing ∷ ts) = omega (arith, misplaced_bound ts)
misplaced_bound (asleep cond_get t ∷ ts) = ground (arith, misplaced_bound ts)
misplaced_bound (asleep cond_put t ∷ ts) = ground (arith, misplaced_bound ts)

abbrev pub announcers : List Thread → ℕ
announcers = total is_announcing

total-append : (f : Thread → ℕ) (xs ys : List Thread) → total f (xs ++ ys) ≡ total f xs + total f ys
total-append f [] ys = omega arith
total-append f (x ∷ xs) ys = omega (arith, total-append f xs ys)

-- One thread picked out.
pub total-split :
    (f : Thread → ℕ) (pre post : List Thread) (t : Thread)
    → total f (pre ++ t ∷ post) ≡ total f pre + total f post + f t
total-split f pre post t = omega (arith, total-append f pre (t ∷ post))

-- A signal that finds a sleeper; it goes for what was signalled where nobody sleeps misplaced.
pub record Moves (c : Cond) (ts us : List Thread) : Type 0 where
  pub fewer : sleepers c ts ≡ suc (sleepers c us)
  pub more : misplaced ts ≡ 0 → awakened c us ≡ suc (awakened c ts)
  pub others : (d : Cond) → same_cond c d ≡ false → sleepers d us ≡ sleepers d ts
  pub others_awake :
      misplaced ts ≡ 0 → (d : Cond) → same_cond c d ≡ false → awakened d us ≡ awakened d ts
  pub placed : misplaced us ≤ misplaced ts
  pub announcers_same : announcers us ≡ announcers ts

abbrev pub Signals : Cond → List Thread → List Thread → Type 0
Signals c ts us = ((sleepers c ts ≡ 0) × (us ≡ ts)) ⊎ Moves c ts us

-- What the delivery of the events comes to.
abbrev pub Effect : List Event → List Thread → List Thread → Type 0
Effect [] ts us = us ≡ ts
Effect (flushed u d ∷ es) ts us = Effect es ts us
Effect (destroyed c ∷ es) ts us = Effect es ts us
Effect (signal c ∷ es) ts us = (vs : List Thread) × Signals c ts vs × Effect es vs us
Effect (broadcast c ∷ es) ts us = Effect es (map (wake_up c) ts) us

same_cond_refl : (c : Cond) → same_cond c c ≡ true
same_cond_refl cond_get = refl
same_cond_refl cond_put = refl

-- A condition and its task, where the thread is not misplaced.
woken_awake : (c : Cond) (t : Task) → is_misplaced (asleep c t) ≡ 0 → is_awake c (woken t) ≡ 1
woken_awake c t placed = ground arith

woken_others :
    (c : Cond) (t : Task)
    → is_misplaced (asleep c t) ≡ 0
    → (d : Cond) → same_cond c d ≡ false
    → is_awake d (woken t) ≡ 0
woken_others cond_get reads placed cond_get apart = cc
woken_others cond_get reads placed cond_put apart = refl
woken_others cond_get (writes ele) placed d apart = absurd (omega (arith, placed))
woken_others cond_put reads placed d apart = absurd (omega (arith, placed))
woken_others cond_put (writes ele) placed cond_get apart = refl
woken_others cond_put (writes ele) placed cond_put apart = cc

one_if_same : (b : Bool) → b ≡ true → (if◌then◌else◌ {A = ℕ} b 1 0) ≡ 1
one_if_same b e = ap (λ b. if◌then◌else◌ {A = ℕ} b 1 0) e

none_if_other : (b : Bool) → b ≡ false → (if◌then◌else◌ {A = ℕ} b 1 0) ≡ 0
none_if_other b e = ap (λ b. if◌then◌else◌ {A = ℕ} b 1 0) e

wakes_one-Moves :
    (c : Cond) (pre post : List Thread) (t : Task)
    → Moves c (pre ++ asleep c t ∷ post) (pre ++ woken t ∷ post)
wakes_one-Moves c pre post t =
    let one = λ (f : Thread → ℕ). total-split f pre post (asleep c t) in
    let two = λ (f : Thread → ℕ). total-split f pre post (woken t) in
    let here : misplaced (pre ++ asleep c t ∷ post) ≡ 0 → is_misplaced (asleep c t) ≡ 0 =
      λ placed. omega (arith, one is_misplaced, placed) in
    record {
      fewer = omega (
        arith,
        one (is_asleep c),
        two (is_asleep c),
        one_if_same (same_cond c c) (same_cond_refl c),
      );
      more = λ placed.
          omega (arith, one (is_awake c), two (is_awake c), woken_awake c t (here placed));
      others = λ d apart.
          omega (arith, one (is_asleep d), two (is_asleep d), none_if_other (same_cond c d) apart);
      others_awake = λ placed d apart.
          omega (arith, one (is_awake d), two (is_awake d), woken_others c t (here placed) d apart);
      placed = omega (arith, one is_misplaced, two is_misplaced);
      announcers_same = omega (arith, one is_announcing, two is_announcing);
    }

pub Delivers-Effect : {es : List Event} {ts us : List Thread} → Delivers es ts us → Effect es ts us
Delivers-Effect (done ts) = refl
Delivers-Effect (skips u d es del) = Delivers-Effect del
Delivers-Effect (removes c es del) = Delivers-Effect del
Delivers-Effect (wakes_one c es pre post t del) =
    (pre ++ woken t ∷ post, inr (wakes_one-Moves c pre post t), Delivers-Effect del)
Delivers-Effect (wakes_none c es {ts} none_ del) = (ts, inl (none_, refl), Delivers-Effect del)
Delivers-Effect (wakes_all c es del) = Delivers-Effect del

-- The callbacks of a flush wake nobody.
pub Effect-flush_events :
    (fcb : Option ℕ) (xs : List ℕ) (ts us : List Thread)
    → Effect (flush_events fcb xs) ts us
    → us ≡ ts
Effect-flush_events none xs ts us e = e
Effect-flush_events (some u) [] ts us e = e
Effect-flush_events (some u) (x ∷ xs) ts us e = Effect-flush_events (some u) xs ts us e

-- Both broadcasts leave nobody asleep.
all_awake :
    (ts : List Thread)
    → let us = map (wake_up cond_put) (map (wake_up cond_get) ts) in
      (sleepers cond_get us ≡ 0) × (sleepers cond_put us ≡ 0) × (announcers us ≡ announcers ts)
all_awake [] = (refl, refl, refl)
all_awake (running ∷ ts) = omega (arith, all_awake ts)
all_awake (asleep cond_put t ∷ ts) = omega (arith, all_awake ts)
all_awake (asleep cond_get t ∷ ts) = omega (arith, all_awake ts)
all_awake (woken t ∷ ts) = omega (arith, all_awake ts)
all_awake (announcing ∷ ts) = omega (arith, all_awake ts)

pub broadcasts-Effect :
    (ts us : List Thread)
    → Effect (broadcast cond_get ∷ broadcast cond_put ∷ []) ts us
    → (sleepers cond_get us ≡ 0) × (sleepers cond_put us ≡ 0) × (announcers us ≡ announcers ts)
broadcasts-Effect ts us e =
    subst
      (λ vs.
        (sleepers cond_get vs ≡ 0) × (sleepers cond_put vs ≡ 0) × (announcers vs ≡ announcers ts))
      (sym e) (all_awake ts)
