-- ===== src/Queue/Peeking.antt =====
-- What _peekElement does: it reads by position, and a negative position is the first.
use tools_on_linux.Prelude.{
  if◌then◌else◌, sym, subst, ◌∙◌, if_false, ◌==◌, if_true, Bool-cases, ap, ◌+◌, get_elem?, zero,
  suc, none, some, [], ◌∷◌, refl, true, false, inl, inr,
}
use tools_on_linux.Memory.{null, Ptr}
use tools_on_linux.Queue.State.{load, ◌>>=◌, pure, M, ok, q_ok, Queue, q_err_invalid_element}
use tools_on_linux.Queue.Pop.{peek_element, peek_loop}
use tools_on_linux.Memory.Chain.{contents, first_ptr, Chain, Cells}
use tools_on_linux.Prelude.{suc, ◌-◌, ◌≡◌, ◌<◌, length, some, Option, ℕ, arith}
use tools_on_linux.Prelude.Int.{ℤ, pos, pos_part, ltb_ℤ}
use tools_on_linux.Queue.Represents.{load-ok, not_null, Points, IsValid}

abbrev pub peek_result : Option ℕ → ℤ × ℕ
peek_result none = (q_err_invalid_element, null)
peek_result (some d) = (q_ok, d)

-- The content that the loop's address leads to.
abbrev read_at : Cells → ℕ → Ptr
read_at [] i = null
read_at ((p, d) ∷ cs) zero = p
read_at ((p, d) ∷ cs) (suc i) = read_at cs i

peek_loop-runs :
    (position : ℤ) (k i : ℕ) (q : Queue) (cs : Cells)
    → Chain q.heap cs
    → length cs < k
    → peek_loop position k (first_ptr cs) i q ≡ ok (read_at cs (pos_part position - i)) q
unfolding peek_loop
peek_loop-runs position zero i q cs ch fuel = absurd (omega arith)
peek_loop-runs position (suc k) i q [] ch fuel = refl
peek_loop-runs position (suc k) i q ((p, d) ∷ cs) ch fuel =
    elim (Bool-cases (ltb_ℤ (pos i) position)) [
      | inl more ↦
          rw (not_null at_p, more, load-ok at_p, steps position i cs more)
            (peek_loop-runs position k (i + 1) q cs ch.3 (omega arith))
      | inr there ↦ rw (not_null at_p, there, stops position i there)
    ]
  where
    at_p : Points q p d (first_ptr cs)
    at_p = record { ne_null = ch.0; at = ch.1 }

    steps :
        (position : ℤ) (i : ℕ) (cs : Cells)
        → ltb_ℤ (pos i) position ≡ true
        → read_at ((p, d) ∷ cs) (pos_part position - i) ≡ read_at cs (pos_part position - (i + 1))
    steps position i cs more =
        ap (read_at ((p, d) ∷ cs)) {y = suc (pos_part position - (i + 1))} (ground arith)

    stops : (position : ℤ) (i : ℕ) → ltb_ℤ (pos i) position ≡ false → pos_part position - i ≡ 0
    stops position i there = ground arith

-- The end of _peekElement, at the address that the loop finds.
read_found :
    (q : Queue) (cs : Cells) (i : ℕ)
    → Chain q.heap cs
    → (if read_at cs i == null
          then pure (q_err_invalid_element, null)
          else (do n ← load (read_at cs i); pure (q_ok, n.content)))
        q
      ≡ ok (peek_result (get_elem? (contents cs) i)) q
read_found q [] i ch = refl
read_found q ((p, d) ∷ cs) zero ch = rw (not_null at_p, load-ok at_p)
  where
    at_p : Points q p d (first_ptr cs)
    at_p = record { ne_null = ch.0; at = ch.1 }
read_found q ((p, d) ∷ cs) (suc i) ch = read_found q cs i ch.3

-- A peek reads the content at the position, and changes nothing.
pub peek_element-runs :
    (q : Queue) (cs : Cells) (position : ℤ)
    → IsValid q cs
    → peek_element null position q
      ≡ ok (peek_result (get_elem? (contents cs) (pos_part position))) q
unfolding peek_element
peek_element-runs q [] position v =
    ap (λ (m : M (ℤ × ℕ)). m q)
      (if_true (q.used_element_cnts == 0) _ _ (ground (arith, v.holds.count)))
peek_element-runs q ((p, d) ∷ cs) position v =
    ap (λ (m : M (ℤ × ℕ)). m q)
      (if_false (q.used_element_cnts == 0) _ _ (ground (arith, v.holds.count)))
    ∙ rw found (
        read_found q ((p, d) ∷ cs) (pos_part position - 0) v.holds.chain
        ∙ ap (λ n. ok (peek_result (get_elem? (contents ((p, d) ∷ cs)) n)) q)
            {y = pos_part position} (omega arith))
  where
    found :
        peek_loop position (q.used_element_cnts + 1) q.used_first_element 0 q
        ≡ ok (read_at ((p, d) ∷ cs) (pos_part position - 0)) q
    found =
        subst
          (λ a.
            peek_loop position (q.used_element_cnts + 1) a 0 q
            ≡ ok (read_at ((p, d) ∷ cs) (pos_part position - 0)) q)
          (sym v.holds.first)
          (peek_loop-runs position (q.used_element_cnts + 1) 0 q ((p, d) ∷ cs) v.holds.chain
            (omega (arith, v.holds.count)))
