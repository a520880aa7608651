-- ===== src/Graph/Sort/Invariant.antt =====
-- What holds before each round of the main loop of `SortBasic`.
use mathlib.Core.Bool.{false≢true}
use transiter.Base.{
  Bool-cases, List, Memᴰ, [], ap, arith, contains, contains-append, false, inl, inr, length,
  nat_keys, nat_same_iff, nodup, nodup-snoc, occ, occ_pos, refl, string_keys, sym, true, ℕ, ◌&&◌,
  ◌++◌, ◌+◌, ◌==◌, ◌||◌, ◌∙◌, ◌∷◌, ◌≡◌,
}
use transiter.Base.Int.{pos}
use transiter.Graph.Sort.{Sorting, relax, start, visit}
use transiter.Graph.Sort.Relax.{
  contains-stack-relax, nodup-stack-relax, num_in_nodes-relax, result-relax,
}
use transiter.Graph.Sort.Start.{contains-stack-start, nodup-stack-start, num_in_nodes-start}
use transiter.Graph.Sort.Topological.{
  is_end-target, pending, pending-none, pending-snoc, pending_zero, precedes, precedes-append,
  precedes-snoc,
}
use transiter.Graph.Types.{Edge, Graph, edge_keys}
use transiter.Graph.Types.Adjacency.{Represents, is_end, targets}

module _ (es : List Edge) (g : Graph) (r : Represents es g) where
  pub record Inv (s : Sorting) : Type 0 where
    pub distinct : nodup s.result ≡ true
    pub distinct_stack : nodup s.stack ≡ true
    pub apart : (v : ℕ) → contains s.stack v ≡ true → contains s.result v ≡ false
    pub counts : (v : ℕ) → s.num_in_nodes v ≡ pos (pending es s.result v)
    pub ready :
        (v : ℕ)
        → (contains s.result v || contains s.stack v) ≡ (is_end es v && pending es s.result v == 0)
    pub ordered :
        (e : Edge)
        → Memᴰ e es
        → contains s.result e.to_label ≡ true
        → precedes e.from_label e.to_label s.result ≡ true

  pub start-Inv : Inv (start g)
  unfolding start
  start-Inv = record {
    distinct = refl;
    distinct_stack = nodup-stack-start g r.indexed;
    apart = λ v m. refl;
    counts = λ v.
        num_in_nodes-start g r.indexed v
        ∙ ap (λ xs. pos (length xs)) (r.ins v)
        ∙ sym (ap pos (pending-none es v));
    ready = λ v.
        ground (arith, contains-stack-start g r.indexed v, r.nodes v, r.ins v, pending-none es v);
    ordered = λ e m q. absurd (false≢true q);
  }

  -- The state after `next` left the stack, before its out-nodes are relaxed.
  abbrev popped : Sorting → ℕ → List ℕ → Sorting
  popped s next rest = record s { result = s.result ++ next ∷ []; stack = rest }

  module _ (s : Sorting) (next : ℕ) (rest : List ℕ) (top : s.stack ≡ next ∷ rest) (h : Inv s) where
    fresh : contains s.result next ≡ false
    fresh = h.apart next (rw top (ground arith))

    counts-split :
        (v : ℕ)
        → s.num_in_nodes v ≡ pos (pending es (s.result ++ next ∷ []) v + occ v (targets next es))
    counts-split v = h.counts v ∙ sym (ap pos (pending-snoc es s.result next v fresh))

    -- A node on the stack has no pending edge, so the edges out of `next` do not lead to it.
    rest_done : (v : ℕ) → contains rest v ≡ true → contains (targets next es) v ≡ false
    rest_done v m = ground (
      arith,
      h.ready v,
      ap (λ xs. contains xs v) top,
      pending-snoc es s.result next v fresh,
      occ_pos v (targets next es),
    )

    visit-eq : visit g s next rest ≡ relax (popped s next rest) (targets next es)
    unfolding visit
    visit-eq = rw (r.outs next)

    pub result-visit : (visit g s next rest).result ≡ s.result ++ next ∷ []
    result-visit = rw visit-eq (result-relax (popped s next rest) (targets next es))

    next_done : (is_end es next ≡ true) × (pending es s.result next ≡ 0)
    next_done = ground (arith, h.ready next, ap (λ xs. contains xs next) top)

    ready_after :
        (v : ℕ)
        → (contains (s.result ++ next ∷ []) v
            || (contains rest v
                || contains (targets next es) v && pending es (s.result ++ next ∷ []) v == 0))
          ≡ (is_end es v && pending es (s.result ++ next ∷ []) v == 0)
    ready_after v = ground (
      arith,
      h.ready v,
      next_done,
      ap (λ xs. contains xs v) top,
      contains-append s.result (next ∷ []) v,
      pending-snoc es s.result next v fresh,
      occ_pos v (targets next es),
      is_end-target es next v,
    )

    ordered_after :
        (e : Edge)
        → Memᴰ e es
        → contains (s.result ++ next ∷ []) e.to_label ≡ true
        → precedes e.from_label e.to_label (s.result ++ next ∷ []) ≡ true
    ordered_after e m q = elim (Bool-cases (contains s.result e.to_label)) [
      | inl old ↦ precedes-append e.from_label e.to_label s.result (next ∷ []) (h.ordered e m old)
      | inr new ↦
          let same : next ≡ e.to_label =
            ground (arith, contains-append s.result (next ∷ []) e.to_label) in
          let done : pending es s.result e.to_label ≡ 0 = rw (← same) next_done.1 in
          rw same
            (precedes-snoc e.from_label e.to_label s.result (pending_zero es s.result e m done))
    ]

    contains-stack-visit :
        (v : ℕ)
        → contains (relax (popped s next rest) (targets next es)).stack v ≡ (
            contains rest v
            || contains (targets next es) v && pending es (s.result ++ next ∷ []) v == 0)
    contains-stack-visit v =
        contains-stack-relax v (pending es (s.result ++ next ∷ []) v) (popped s next rest)
          (targets next es) (counts-split v)

    apart_after :
        (v : ℕ)
        → (contains rest v
            || contains (targets next es) v && pending es (s.result ++ next ∷ []) v == 0)
          ≡ true
        → contains (s.result ++ next ∷ []) v ≡ false
    apart_after v m = ground (
      arith,
      h.apart v,
      h.ready v,
      next_done,
      fresh,
      ap (λ xs. contains xs v) top,
      ap nodup top,
      h.distinct_stack,
      contains-append s.result (next ∷ []) v,
      pending-snoc es s.result next v fresh,
      occ_pos v (targets next es),
      nat_same_iff next v,
    )

    pub visit-Inv : Inv (visit g s next rest)
    visit-Inv =
        let t = popped s next rest in
        let outs = targets next es in
        let same = result-relax t outs in
        rw visit-eq (record {
          distinct = rw (same, nodup-snoc s.result next) (ground (arith, fresh, h.distinct));
          distinct_stack =
              nodup-stack-relax (λ v. pending es (s.result ++ next ∷ []) v) t outs counts-split
                rest_done (ground (arith, h.distinct_stack, ap nodup top));
          apart = λ v m. rw same (apart_after v (sym (contains-stack-visit v) ∙ m));
          counts = λ v.
              rw same (
                num_in_nodes-relax v (pending es (s.result ++ next ∷ []) v) t outs
                  (counts-split v));
          ready = λ v. rw (same, contains-stack-visit v) (ready_after v);
          ordered = λ e m q. rw same (ordered_after e m (rw same at q));
        })
