-- ===== src/Graph/Sort/Relax.antt =====
-- The inner loop of `SortBasic`: what it does to the in-degrees and to the stack.
use transiter.Base.{
  List, [], arith, contains, false, nat_keys, nodup, occ, occ_pos, refl, string_keys, true, ℕ, ◌&&◌,
  ◌+◌, ◌==◌, ◌||◌, ◌∙◌, ◌∷◌, ◌≡◌,
}
use transiter.Base.Int.{pos}
use transiter.Graph.Sort.{Sorting, relax, relax_one}
use transiter.Graph.Types.{edge_keys}

pub result-relax : (s : Sorting) (outs : List ℕ) → (relax s outs).result ≡ s.result
unfolding relax
result-relax s [] = refl
result-relax s (out ∷ outs) = result-relax (relax_one s out) outs

module _ (v k : ℕ) where
  pub num_in_nodes-relax :
      (s : Sorting) (outs : List ℕ)
      → s.num_in_nodes v ≡ pos (k + occ v outs)
      → (relax s outs).num_in_nodes v ≡ pos k
  unfolding relax
  num_in_nodes-relax s [] h = ground arith
  num_in_nodes-relax s (out ∷ outs) h = num_in_nodes-relax (relax_one s out) outs (ground arith)

-- The loop pushes a node exactly if it takes the node's in-degree to zero.
pub contains-stack-relax :
    (v k : ℕ) (s : Sorting) (outs : List ℕ)
    → s.num_in_nodes v ≡ pos (k + occ v outs)
    → contains (relax s outs).stack v ≡ (contains s.stack v || contains outs v && k == 0)
unfolding relax
contains-stack-relax v k s [] h = ground arith
contains-stack-relax v k s (out ∷ outs) h =
    contains-stack-relax v k (relax_one s out) outs (ground arith) ∙ ground (arith, occ_pos v outs)

pub nodup-stack-relax :
    (rest : ℕ → ℕ) (s : Sorting) (outs : List ℕ)
    → ((v : ℕ) → s.num_in_nodes v ≡ pos (rest v + occ v outs))
    → ((v : ℕ) → contains s.stack v ≡ true → contains outs v ≡ false)
    → nodup s.stack ≡ true
    → nodup (relax s outs).stack ≡ true
unfolding relax
nodup-stack-relax rest s [] counts apart h = h
nodup-stack-relax rest s (out ∷ outs) counts apart h =
    nodup-stack-relax rest (relax_one s out) outs (λ v. ground (arith, counts v, counts out))
      (λ v m. ground (arith, counts out, apart v, occ_pos v outs)) (ground (arith, apart out))
