-- ===== src/Poll/Alone.antt =====
-- A call of Poll::wait with no other thread beside it.
use tools_on_linux.Poll.Wait.{poll_timeout, outside}
use tools_on_linux.Poll.State.{positive, Poll}
use tools_on_linux.Prelude.{
  ℕ, ◌+◌, ◌-◌, ◌%◌, ◌^◌, ◌<◌, Bool, false, if◌then◌else◌, ◌≡◌, arith, ◌==◌, inl, inr, Bool-cases,
  true, if_true, ◌∙◌, zero, suc, ◌*◌, ◌/◌, ltb, refl, subst, sym, if_false,
}
use tools_on_linux.Poll.Wait.{
  wait_steps, wait_step, wait, eperm, ebusy_flushing, Stage, Answer, finished,
}
use tools_on_linux.Prelude.Int.{ℤ, negsuc, pos, signed32, ltb_ℤ}

-- What wait gives: the result and errno.
abbrev pub wait_result : Answer → Poll → Stage
wait_result a p =
    if positive p.waiting
    then finished (negsuc 0) eperm
    else if p.flushing == 0
    then finished a.count 0
    else finished (negsuc 0) ebusy_flushing

-- Whether it comes to call poll(2).
abbrev pub polls : Poll → Bool
polls p = if positive p.waiting then false else p.flushing == 0

again : (w : ℕ) → w < 2 ^ 32 → ((w + 1) % 2 ^ 32 + 2 ^ 32 - 1) % 2 ^ 32 ≡ w
again w small = ground arith

steps :
    (a : Answer) (p : Poll)
    → p.waiting < 2 ^ 32
    → wait_steps a 6 (p, outside)
      ≡ (record p { fds = if polls p then a.fds else p.fds }, wait_result a p)
unfolding wait_steps wait_step
steps a p small = elim (Bool-cases (positive p.waiting)) [
  | inl busy ↦
      rw busy (λ i. (record p { waiting = again p.waiting small i }, finished (negsuc 0) eperm))
  | inr first ↦ elim (Bool-cases (p.flushing == 0)) [
    | inl calm ↦
        rw (first, calm)
          (rw calm (λ i.
            (record p { waiting = again p.waiting small i; fds = a.fds }, finished a.count 0)))
    | inr flushing ↦
        rw (first, flushing)
          (λ i.
            (record p { waiting = again p.waiting small i }, finished (negsuc 0) ebusy_flushing))
  ]
]

-- What poll(2) waits for: without a limit for a time that is not positive; otherwise for as many
-- milliseconds as nanoseconds are asked for, but for the multiples of 2 ^ 32 that an int does not hold.
abbrev pub Narrowed : ℕ → ℤ → Type 0
Narrowed n (pos m) = (k : ℕ) × (m < 2 ^ 31) × (n ≡ k * 2 ^ 32 + m)
Narrowed n (negsuc m) = (k : ℕ) × (m < 2 ^ 31) × (n + m + 1 ≡ k * 2 ^ 32)

abbrev pub IsTimeout : ℤ → ℤ → Type 0
IsTimeout (negsuc n) t = t ≡ negsuc 0
IsTimeout (pos zero) t = t ≡ negsuc 0
IsTimeout (pos (suc n)) t = Narrowed (suc n) t

signed32-Narrowed : (n w : ℕ) → w < 2 ^ 32 → (k : ℕ) → n ≡ k * 2 ^ 32 + w → Narrowed n (signed32 w)
signed32-Narrowed n w small k e = elim (Bool-cases (ltb w (2 ^ 31))) [
  | inl low ↦ rw low (k, ground (arith, low), e)
  | inr high ↦ rw high (k + 1, ground (arith, high, small), ground (arith, high, small, e))
]

pub poll_timeout-IsTimeout : (timeout_ns : ℤ) → IsTimeout timeout_ns (poll_timeout timeout_ns)
unfolding poll_timeout
poll_timeout-IsTimeout (negsuc n) =
    if_false (ltb_ℤ (pos 0) (negsuc n)) (signed32 (0 % 2 ^ 32)) (negsuc 0) (ground arith)
poll_timeout-IsTimeout (pos zero) = refl
poll_timeout-IsTimeout (pos (suc n)) =
    subst (Narrowed (suc n))
      (sym (
        if_true (ltb_ℤ (pos 0) (pos (suc n))) (signed32 (suc n % 2 ^ 32)) (negsuc 0)
          (ground arith)))
      (signed32-Narrowed (suc n) (suc n % 2 ^ 32) (omega arith) (suc n / 2 ^ 32) (omega arith))

-- wait, with mWaiting an int, ends: with EPERM where a thread waits already, with EBUSY while flushing, and with what
-- poll(2) gives otherwise. Only then poll(2) writes the entries; mWaiting is as before, and so is all
-- else.
pub wait-alone :
    (poll : ℤ → Answer) (timeout_ns : ℤ) (p : Poll)
    → p.waiting < 2 ^ 32
    → let a = poll (poll_timeout timeout_ns) in
      wait poll timeout_ns p
      ≡ (record p { fds = if polls p then a.fds else p.fds }, wait_result a p)
unfolding wait
wait-alone poll timeout_ns p small = steps (poll (poll_timeout timeout_ns)) p small

-- Where nobody waits or flushes.
undisturbed :
    (a : Answer) (q : Poll)
    → q.waiting ≡ 0
    → q.flushing ≡ 0
    → ◌≡◌ {A = Poll × Stage}
        (record q { fds = if polls q then a.fds else q.fds }, wait_result a q)
        (record q { fds = a.fds }, finished a.count 0)
undisturbed a q nobody unset =
    let polls_now : polls q ≡ true = ground (arith, nobody, unset) in
    let result : wait_result a q ≡ finished a.count 0 = ground (arith, nobody, unset) in
    λ i. (record q { fds = if_true (polls q) a.fds q.fds polls_now i }, result i)

pub wait-calm :
    (poll : ℤ → Answer) (timeout_ns : ℤ) (p : Poll)
    → p.waiting ≡ 0
    → p.flushing ≡ 0
    → let a = poll (poll_timeout timeout_ns) in
      wait poll timeout_ns p ≡ (record p { fds = a.fds }, finished a.count 0)
wait-calm poll timeout_ns p nobody calm =
    wait-alone poll timeout_ns p (omega (arith, nobody))
    ∙ undisturbed (poll (poll_timeout timeout_ns)) p nobody calm
