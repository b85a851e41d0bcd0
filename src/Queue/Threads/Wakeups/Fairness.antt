-- ===== src/Queue/Threads/Wakeups/Fairness.antt =====
-- Sleepers and what is there for them, and how a signal and a caller that goes on change that.
use tools_on_linux.Memory.{Ptr}
use tools_on_linux.Queue.Threads.System.{
  writes, reads, pushes, pops, woken, is_asleep, cond_of, asleep, Task, Request, running, same_cond,
  Thread,
}
use tools_on_linux.Queue.Threads.Census.{
  total-split, is_awake, is_misplaced, misplaced, sleepers, awakened, Effect,
}
use tools_on_linux.Queue.State.{signal, cond_put, cond_get, Cond}
use tools_on_linux.Prelude.{
  true, ◌+◌, if◌then◌else◌, ◌++◌, inr, ◌∙◌, ap, inl, [], false, ◌+◌, ◌∷◌, ◌≡◌, ℕ, List, arith, ◌⊎◌,
  ◌≤◌, ◌<◌, suc, refl,
}

-- While a reader sleeps there is a woken reader for every element; while a writer sleeps there is a woken
-- writer for every free place, but for the lost ones.
pub record Fair (n capability lost : ℕ) (ts : List Thread) : Type 0 where
  pub readers : 0 < sleepers cond_get ts → n ≤ awakened cond_get ts
  pub writers : 0 < sleepers cond_put ts → capability ≤ n + awakened cond_put ts + lost
  pub placed : misplaced ts ≡ 0

-- What a signal comes to for the counts.
pub record Signalled (c : Cond) (ts us : List Thread) : Type 0 where
  pub either : (sleepers c us ≡ 0) ⊎ (awakened c us ≡ suc (awakened c ts))
  pub no_more : sleepers c us ≤ sleepers c ts
  pub others :
      (d : Cond)
      → same_cond c d ≡ false
      → (sleepers d us ≡ sleepers d ts) × (awakened d us ≡ awakened d ts)
  pub placed : misplaced us ≡ 0

Effect-Signalled :
    (c : Cond) (ts us : List Thread)
    → misplaced ts ≡ 0
    → Effect (signal c ∷ []) ts us
    → Signalled c ts us
Effect-Signalled c ts us placed (vs, inl (none_, same), e) = record {
  either = inl (ap (sleepers c) (e ∙ same) ∙ none_);
  no_more = omega (arith, ap (sleepers c) (e ∙ same));
  others = λ d apart. (ap (sleepers d) (e ∙ same), ap (awakened d) (e ∙ same));
  placed = ap misplaced (e ∙ same) ∙ placed;
}
Effect-Signalled c ts us placed (vs, inr m, e) = record {
  either = inr (ap (awakened c) e ∙ m.more placed);
  no_more = omega (arith, ap (sleepers c) e, m.fewer);
  others = λ d apart.
      (ap (sleepers d) e ∙ m.others d apart, ap (awakened d) e ∙ m.others_awake placed d apart);
  placed = omega (arith, ap misplaced e, m.placed, placed);
}

-- A thread pushed, and signalled a reader.
pub pushed-Fair :
    (n capability lost : ℕ) (ts us : List Thread)
    → misplaced ts ≡ 0
    → Effect (signal cond_get ∷ []) ts us
    → (0 < sleepers cond_get ts → n ≤ awakened cond_get ts)
    → (0 < sleepers cond_put ts → capability ≤ suc n + awakened cond_put ts + lost)
    → Fair (suc n) capability lost us
pushed-Fair n capability lost ts us placed e readers writers =
    let g = Effect-Signalled cond_get ts us placed e in
    record {
      readers = λ some_. ground (arith, g.either, g.no_more, readers, some_);
      writers = λ some_. ground (arith, g.others cond_put refl, writers, some_);
      placed = g.placed;
    }

-- A thread popped, and signalled a writer.
pub popped-Fair :
    (n capability lost : ℕ) (ts us : List Thread)
    → misplaced ts ≡ 0
    → Effect (signal cond_put ∷ []) ts us
    → (0 < sleepers cond_get ts → n ≤ awakened cond_get ts)
    → (0 < sleepers cond_put ts → capability ≤ suc n + awakened cond_put ts + lost)
    → Fair n capability lost us
popped-Fair n capability lost ts us placed e readers writers =
    let g = Effect-Signalled cond_put ts us placed e in
    record {
      readers = λ some_. ground (arith, g.others cond_get refl, readers, some_);
      writers = λ some_. ground (arith, g.either, g.no_more, writers, some_);
      placed = g.placed;
    }

-- A thread that may go on, and the request that it goes on with.
pub data Caller : Request → Thread → Type 0 where
  outside : (req : Request) → Caller req running
  woken_writer : (new : Ptr) (ele : ℕ) → Caller (pushes true new ele) (woken (writes ele))
  woken_reader : Caller (pops true) (woken reads)

-- The threads when their caller is outside again.
pub record Leaves (ts us : List Thread) (t : Thread) : Type 0 where
  pub gets : sleepers cond_get ts ≡ sleepers cond_get us
  pub puts : sleepers cond_put ts ≡ sleepers cond_put us
  pub placed : misplaced ts ≡ misplaced us
  pub awake_gets : awakened cond_get ts ≡ awakened cond_get us + is_awake cond_get t
  pub awake_puts : awakened cond_put ts ≡ awakened cond_put us + is_awake cond_put t

pub caller-Leaves :
    (req : Request) (t : Thread) (pre post : List Thread)
    → Caller req t
    → Leaves (pre ++ t ∷ post) (pre ++ running ∷ post) t
caller-Leaves req t pre post caller = leaves (not_asleep caller) (not_misplaced caller)
  where
    not_asleep : {req : Request} {t : Thread} → Caller req t → (c : Cond) → is_asleep c t ≡ 0
    not_asleep (outside req) c = refl
    not_asleep (woken_writer new ele) c = refl
    not_asleep woken_reader c = refl

    not_misplaced : {req : Request} {t : Thread} → Caller req t → is_misplaced t ≡ 0
    not_misplaced (outside req) = refl
    not_misplaced (woken_writer new ele) = refl
    not_misplaced woken_reader = refl

    leaves :
        ((c : Cond) → is_asleep c t ≡ 0)
        → is_misplaced t ≡ 0
        → Leaves (pre ++ t ∷ post) (pre ++ running ∷ post) t
    leaves none_ placed = record {
      placed = omega (
        arith,
        total-split is_misplaced pre post t,
        total-split is_misplaced pre post running,
        placed,
      );
      gets = omega (
        arith,
        total-split (is_asleep cond_get) pre post t,
        total-split (is_asleep cond_get) pre post running,
        none_ cond_get,
      );
      puts = omega (
        arith,
        total-split (is_asleep cond_put) pre post t,
        total-split (is_asleep cond_put) pre post running,
        none_ cond_put,
      );
      awake_gets = omega (
        arith,
        total-split (is_awake cond_get) pre post t,
        total-split (is_awake cond_get) pre post running,
      );
      awake_puts = omega (
        arith,
        total-split (is_awake cond_put) pre post t,
        total-split (is_awake cond_put) pre post running,
      );
    }

-- A caller that sleeps on the condition of its task: what counts for the other one is as before.
pub record Sleeps (ts us : List Thread) (t : Task) : Type 0 where
  pub others :
      (d : Cond)
      → same_cond (cond_of t) d ≡ false
      → (sleepers d us ≡ sleepers d ts) × (awakened d us ≡ awakened d ts)
  pub placed : misplaced us ≤ misplaced ts

placed_there : (t : Task) → is_misplaced (asleep (cond_of t) t) ≡ 0
placed_there (writes ele) = refl
placed_there reads = refl

pub caller-Sleeps :
    (t : Task) (u : Thread) (pre post : List Thread)
    → ((d : Cond) → same_cond (cond_of t) d ≡ false → (is_asleep d u ≡ 0) × (is_awake d u ≡ 0))
    → Sleeps (pre ++ u ∷ post) (pre ++ asleep (cond_of t) t ∷ post) t
caller-Sleeps t u pre post none_ =
    let sleeper = asleep (cond_of t) t in
    record {
      others = λ d apart.
          let off = ap (λ b. if◌then◌else◌ {A = ℕ} b 1 0) apart in
          (
            omega (
              arith,
              total-split (is_asleep d) pre post u,
              total-split (is_asleep d) pre post sleeper,
              (none_ d apart).0,
              off,
            ),
            omega (
              arith,
              total-split (is_awake d) pre post u,
              total-split (is_awake d) pre post sleeper,
              (none_ d apart).1,
            ),
          );
      placed = omega (
        arith,
        total-split is_misplaced pre post u,
        total-split is_misplaced pre post sleeper,
        placed_there t,
      );
    }
