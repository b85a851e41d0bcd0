-- ===== src/QueueSimple/Carrying.antt =====
-- A queue that carries values from a producer to a consumer, and one call of threadLoop of each.
use tools_on_linux.Queue.Threads.System.{working}
use tools_on_linux.Queue.Contract.Waits.{push_and_wait-push}
use tools_on_linux.Queue.Calls.{push_and_wait}
use tools_on_linux.Queue.Contract.Pushes.{push-After}
use tools_on_linux.Queue.Contract.Observes.{length-contents}
use tools_on_linux.Queue.Order.{inserted_as}
use tools_on_linux.Queue.State.{Event, signal, returned, q_ok, cond_get, Queue}
use tools_on_linux.Queue.Pushing.{push_events, push_contents, push_code, Allocates}
use tools_on_linux.Memory.{null, Ptr}
use tools_on_linux.Queue.Represents.{After, IsValid}
use tools_on_linux.Memory.Chain.{contents, Cells}
use tools_on_linux.Prelude.{
  ℕ, ◌<◌, ◌≡◌, true, false, Option, none, some, List, [], ◌∷◌, ◌++◌, ◌==◌, length, arith, refl, sym,
  ap, ◌∙◌, subst, if_false, Bool-cases, inl, inr, ◌&&◌,
}
use tools_on_linux.Prelude.Outcome.{ok}
use tools_on_linux.QueueSimple.Workers.{put_object, max_cnt, has_ptr, Test, Objects, Demo}

-- The structs at the addresses hold the values, and no address comes twice.
abbrev pub Values : Objects → List Ptr → List ℕ → Type 0
Values h [] [] = Unit {0}
Values h [] (v ∷ vs) = ⊥
Values h (p ∷ ps) [] = ⊥
Values h (p ∷ ps) (v ∷ vs) =
    ((t : Test) × (h p ≡ some t) × (t.value ≡ v)) × (has_ptr p ps ≡ false) × Values h ps vs

-- A queue as main makes it, in use.
pub record InUse (q : Queue) : Type 0 where
  pub allowed : q.allowed_new_data ≡ true
  pub plain : q.sort ≡ false
  pub room : max_cnt < q.capability

-- A queue in use that holds the values.
pub record Carries (d : Demo) (vs : List ℕ) : Type 0 where
  pub cells : Cells
  pub valid : IsValid d.queue cells
  pub in_use : InUse d.queue
  pub values : Values d.objects (contents cells) vs

-- Another struct in the way of none of them.
pub Values-put :
    (h : Objects) (p : Ptr) (c : Option Test) (ps : List Ptr) (vs : List ℕ)
    → has_ptr p ps ≡ false
    → Values h ps vs
    → Values (put_object h p c) ps vs
Values-put h p c [] [] out holds = tt
Values-put h p c [] (v ∷ vs) out holds = holds
Values-put h p c (x ∷ ps) [] out holds = holds
Values-put h p c (x ∷ ps) (v ∷ vs) out ((t, stored, is_v), once, rest) = (
  (t, if_false (x == p) _ _ (ground (arith, out)) ∙ stored, is_v),
  once,
  Values-put h p c ps vs (ground (arith, out)) rest,
)

-- What malloc gives is none of them.
pub Values-fresh :
    (h : Objects) (p : Ptr) (ps : List Ptr) (vs : List ℕ)
    → h p ≡ none
    → Values h ps vs
    → has_ptr p ps ≡ false
Values-fresh h p [] [] fresh holds = refl
Values-fresh h p [] (v ∷ vs) fresh holds = refl
Values-fresh h p (x ∷ ps) [] fresh holds = elim holds [ ]
Values-fresh h p (x ∷ ps) (v ∷ vs) fresh ((t, stored, is_v), once, rest) =
    let rest_out = Values-fresh h p ps vs fresh rest in
    elim (Bool-cases (p == x)) [
      | inl same ↦
          let equal : p ≡ x = ground (arith, same) in
          let clash : none ≡ some t = sym fresh ∙ ap h equal ∙ stored in cc
      | inr other ↦ ground (arith, other, rest_out)
    ]

pub Values-length :
    (h : Objects) (ps : List Ptr) (vs : List ℕ) → Values h ps vs → length ps ≡ length vs
Values-length h [] [] holds = refl
Values-length h [] (v ∷ vs) holds = elim holds [ ]
Values-length h (p ∷ ps) [] holds = elim holds [ ]
Values-length h (p ∷ ps) (v ∷ vs) (stored, once, rest) = omega (arith, Values-length h ps vs rest)

has_ptr-behind :
    (p x : Ptr) (ps : List Ptr)
    → (x == p) ≡ false
    → has_ptr x ps ≡ false
    → has_ptr x (ps ++ p ∷ []) ≡ false
has_ptr-behind p x [] other out = ground (arith, other)
has_ptr-behind p x (y ∷ ps) other out = ground (arith, has_ptr-behind p x ps other, out)

-- The value comes last.
pub Values-behind :
    (h : Objects) (p : Ptr) (t : Test) (ps : List Ptr) (vs : List ℕ)
    → has_ptr p ps ≡ false
    → h p ≡ some t
    → Values h ps vs
    → Values h (ps ++ p ∷ []) (vs ++ t.value ∷ [])
Values-behind h p t [] [] out stored holds = ((t, stored, refl), refl, tt)
Values-behind h p t [] (v ∷ vs) out stored holds = elim holds [ ]
Values-behind h p t (x ∷ ps) [] out stored holds = elim holds [ ]
Values-behind h p t (x ∷ ps) (v ∷ vs) out stored (there, once, rest) = (
  there,
  has_ptr-behind p x ps (ground (arith, out)) once,
  Values-behind h p t ps vs (ground (arith, out)) stored rest,
)

-- A push into a queue with room.
pub push_and_wait-stores :
    (q : Queue) (cs : Cells) (new ele : Ptr)
    → IsValid q cs
    → q.allowed_new_data ≡ true
    → q.sort ≡ false
    → length (contents cs) < q.capability
    → Allocates q new
    → (new == null) ≡ false
    → (r : Queue) × (push_and_wait working new ele q ≡ ok (returned q_ok) r)
      × After q cs (contents cs ++ ele ∷ []) (signal cond_get ∷ []) r
unfolding push_code inserted_as
push_and_wait-stores q cs new ele v allowed plain room fresh some_ =
    let free : (q.used_element_cnts == q.capability) ≡ false =
      ground (arith, v.holds.count, length-contents cs, room) in
    let code : push_code q new ≡ q_ok = rw (allowed, free, some_) refl in
    let (r, runs, after, unlocked) = push-After working q cs new ele v fresh refl in
    (
      r,
      push_and_wait-push working q new ele refl
          ∙ if_false (q.allowed_new_data && q.used_element_cnts == q.capability) _ _
              (rw (allowed, free) refl)
          ∙ runs
          ∙ ap (λ c. ok (returned c) r) code,
      subst (λ xs. After q cs xs (signal cond_get ∷ []) r)
          (ap (λ b. inserted_as b q.ascending_order q.cmp_ele_fun ele (contents cs)) plain)
          (subst (λ c. After q cs (push_contents c q ele (contents cs)) (push_events c) r) code
            after),
    )

-- It stays that, and holds the list that a call leaves.
pub After-InUse :
    {xs : List Ptr} {evs : List Event} (q : Queue) (cs : Cells) (r : Queue)
    → InUse q
    → After q cs xs evs r
    → InUse r
After-InUse q cs r u after = record {
  allowed = after.allowed ∙ u.allowed;
  plain = after.sort ∙ u.plain;
  room = omega (arith, u.room, after.capability);
}

pub After-Carries :
    {xs : List Ptr} {evs : List Event} (q : Queue) (cs : Cells) (r : Queue) (h : Objects)
    (ws : List ℕ)
    → InUse q
    → After q cs xs evs r
    → Values h xs ws
    → Carries (record { queue = r; objects = h }) ws
After-Carries q cs r h ws u after values = record {
  cells = after.cells;
  valid = after.valid;
  in_use = After-InUse q cs r u after;
  values = subst (λ xs. Values h xs ws) (sym after.is_spec) values;
}
