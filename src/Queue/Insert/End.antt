-- ===== src/Queue/Insert/End.antt =====
-- The branch of _pushElement for an unsorted or empty queue.
use tools_on_linux.Prelude.{
  ℕ, ◌≡◌, refl, sym, ap, ◌∙◌, subst, false, some, [], ◌∷◌, ◌++◌, arith, ◌==◌, append_assoc,
  map-append,
}
use tools_on_linux.Memory.{Ptr, null, element, write}
use tools_on_linux.Memory.Chain.{
  Cells, Chain, contents, has, splice, Chain-splice, Chain-drop, first_ptr-splice, last_from-append,
  has-splice, has-append, split_last, write_self, write-other,
}
use tools_on_linux.Queue.State.{Queue}
use tools_on_linux.Queue.Push.{link_last}
use tools_on_linux.Queue.Represents.{Points, not_null, set_next-ok, Represents}
use tools_on_linux.Queue.Insert.Linking.{Links}

module _ (q : Queue) (new : Ptr) (ele : ℕ) (fresh : Points q new ele null) where
  -- The end of a queue with elements.
  end-Links :
      (pre : Cells) (s : Ptr) (d : ℕ)
      → Represents q (pre ++ (s, d) ∷ [])
      → has new (pre ++ (s, d) ∷ []) ≡ false
      → Links q (pre ++ (s, d) ∷ []) new (link_last new) (contents (pre ++ (s, d) ∷ []) ++ ele ∷ [])
  unfolding link_last
  end-Links pre s d rep out = record {
    cells = pre ++ (s, d) ∷ (new, ele) ∷ [];
    heap = write q.heap q.used_last_element (some (element d new));
    runs = rw (
      not_null last_at,
      set_next-ok last_at new,
      first_ptr-splice pre s d [] new ele,
      last_from-append null pre s d ((new, ele) ∷ []),
      ← rep.first,
    );
    chain =
        subst (λ h. Chain h (pre ++ (s, d) ∷ (new, ele) ∷ [])) same_heap
          (Chain-splice q.heap pre s d [] new ele rep.chain fresh.ne_null out);
    is_spec = simp (map-append, append_assoc);
    frame = λ a beside.
        write-other q.heap q.used_last_element (some (element d new)) a
          (subst (λ p. (a == p) ≡ false) (sym last_is) (has-splice a pre s d [] new ele beside));
    grows = λ a.
        ground (arith, has-append a pre ((s, d) ∷ (new, ele) ∷ []), has-append a pre ((s, d) ∷ []));
  }
    where
      last_is : q.used_last_element ≡ s
      last_is = rep.last ∙ last_from-append null pre s d []

      at_s : Chain q.heap ((s, d) ∷ [])
      at_s = Chain-drop q.heap pre ((s, d) ∷ []) rep.chain

      last_at : Points q q.used_last_element d null
      last_at =
          subst (λ p. Points q p d null) (sym last_is) (record { ne_null = at_s.0; at = at_s.1 })

      same_heap :
          splice q.heap s d new ele null ≡ write q.heap q.used_last_element (some (element d new))
      same_heap =
          write_self (write q.heap s (some (element d new))) new (some (element ele null)) (
            write-other q.heap s (some (element d new)) new
              (ground (arith, has-append new pre ((s, d) ∷ [])))
            ∙ fresh.at)
          ∙ ap (λ p. write q.heap p (some (element d new))) (sym last_is)

  pub link_last-Links :
      (cs : Cells)
      → Represents q cs
      → has new cs ≡ false
      → Links q cs new (link_last new) (contents cs ++ ele ∷ [])
  unfolding link_last
  link_last-Links [] rep out = record {
    cells = (new, ele) ∷ [];
    heap = q.heap;
    runs = rw rep.last;
    chain = (fresh.ne_null, fresh.at, refl, tt);
    is_spec = refl;
    frame = λ a beside. refl;
    grows = λ a. refl;
  }
  link_last-Links ((p, c) ∷ cs) rep out =
      let (pre, s, d, e) = split_last p c cs in
      subst (λ cs. Links q cs new (link_last new) (contents cs ++ ele ∷ [])) (sym e)
        (end-Links pre s d (subst (Represents q) e rep) (subst (λ cs. has new cs ≡ false) e out))
