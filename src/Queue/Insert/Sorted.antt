-- ===== src/Queue/Insert/Sorted.antt =====
-- The branch of _pushElement for a sorted queue with an element.
use tools_on_linux.Prelude.{
  ◌++◌, ℕ, ◌+◌, ◌≡◌, refl, sym, subst, inl, inr, false, some, ◌∷◌, arith, Bool-cases,
}
use tools_on_linux.Memory.{Ptr, null, element, write}
use tools_on_linux.Memory.Chain.{Cells, first_ptr, contents, has, Chain-write}
use tools_on_linux.Queue.State.{◌>>◌, modify, Queue, ok, Compare, set_next}
use tools_on_linux.Queue.Push.{goes_first, comparator, find_place, link_behind, link_sorted}
use tools_on_linux.Queue.Represents.{Points, load-ok, set_next-ok, Represents}
use tools_on_linux.Queue.Order.{insert_sorted}
use tools_on_linux.Queue.Insert.Place.{Place, find_place-Place}
use tools_on_linux.Queue.Insert.Linking.{Links, Links-of_eq}
use tools_on_linux.Queue.Insert.Behind.{link_behind-Links}

comparator-ok : (q : Queue) (cmp : Compare) → q.cmp_ele_fun ≡ some cmp → comparator q ≡ ok cmp q
unfolding comparator
comparator-ok q cmp e = ground arith

module _ (q : Queue) (new : Ptr) (ele : ℕ) (fresh : Points q new ele null) where
  -- The branch of `link_sorted` that adds at the front.
  front-Links :
      (s : Ptr) (d : ℕ) (rest : Cells)
      → Represents q ((s, d) ∷ rest)
      → has new ((s, d) ∷ rest) ≡ false
      → Links q
          ((s, d) ∷ rest)
          new
          (set_next new q.used_first_element >> modify (λ q. record q { used_first_element = new }))
          (ele ∷ d ∷ contents rest)
  unfolding write
  front-Links s d rest rep out = record {
    cells = (new, ele) ∷ (s, d) ∷ rest;
    heap = write q.heap new (some (element ele q.used_first_element));
    runs = rw (set_next-ok fresh q.used_first_element, ← rep.last);
    chain = (
      fresh.ne_null,
      ground arith,
      out,
      Chain-write q.heap new (some (element ele q.used_first_element)) ((s, d) ∷ rest) rep.chain
          out,
    );
    is_spec = refl;
    frame = λ a beside. ground arith;
    grows = λ a. refl;
  }

  placed-Links :
      (cmp : Compare) (s : Ptr) (d : ℕ) (rest : Cells)
      → Represents q ((s, d) ∷ rest)
      → has new ((s, d) ∷ rest) ≡ false
      → (f : Place q.ascending_order cmp ele (s, d) rest)
      → Links q
          ((s, d) ∷ rest)
          new
          (link_behind new f.s (first_ptr f.post))
          (contents f.pre ++ f.d ∷ ele ∷ contents f.post)
  placed-Links cmp s d rest rep out f =
      subst
        (λ cs.
          Links q cs new (link_behind new f.s (first_ptr f.post))
            (contents f.pre ++ f.d ∷ ele ∷ contents f.post))
        (sym f.cells)
        (link_behind-Links q new ele fresh f.pre f.s f.d f.post (subst (Represents q) f.cells rep)
          (subst (λ cs. has new cs ≡ false) f.cells out))

  pub link_sorted-Links :
      (cmp : Compare) (s : Ptr) (d : ℕ) (rest : Cells)
      → q.cmp_ele_fun ≡ some cmp
      → Represents q ((s, d) ∷ rest)
      → has new ((s, d) ∷ rest) ≡ false
      → Links q
          ((s, d) ∷ rest)
          new
          (link_sorted new ele)
          (insert_sorted q.ascending_order cmp ele (d ∷ contents rest))
  unfolding link_sorted insert_sorted
  link_sorted-Links cmp s d rest has_cmp rep out =
      elim (Bool-cases (goes_first q.ascending_order cmp d ele)) [
        | inl front ↦ rw front (
            Links-of_eq (rw (comparator-ok q cmp has_cmp, load-ok s_at, front)) refl
              (front-Links s d rest rep out))
        | inr behind ↦
            let (f, found) =
              find_place-Place q q.ascending_order cmp ele (q.used_element_cnts + 1) s d rest
                rep.chain (omega (arith, rep.count)) in
            rw behind (
              Links-of_eq {run = link_behind new f.s (first_ptr f.post)}
                (rw (
                  comparator-ok q cmp has_cmp,
                  load-ok s_at,
                  behind,
                  subst
                      (λ p.
                        find_place q.ascending_order cmp ele (q.used_element_cnts + 1) p
                          (first_ptr rest) q
                        ≡ ok (f.s, first_ptr f.post) q)
                      (sym rep.first) found,
                ))
                (sym f.spec) (placed-Links cmp s d rest rep out f))
      ]
    where
      s_at : Points q q.used_first_element d (first_ptr rest)
      s_at =
          subst (λ p. Points q p d (first_ptr rest)) (sym rep.first)
            (record { ne_null = rep.chain.0; at = rep.chain.1 })
