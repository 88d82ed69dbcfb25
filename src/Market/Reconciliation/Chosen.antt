-- ===== src/Market/Reconciliation/Chosen.antt =====
-- What `_select_candidate` of marketdata/reconciliation.py returns for candidates.
use mini_qmt.Common.{
  All-of, ◌≤◌, ◌≡◌, ◌⊎◌, refl, sym, ap, ◌∙◌, Bool, true, false, not, some, List, [], ◌∷◌, ltb, any,
  leb, leb→le, inl, inr, length, All, if◌then◌else◌,
}
use mini_qmt.Common.Sorting.{sort}
use mathlib.Core.Path.{subst}
use mathlib.Core.List.{Mem}
use mini_qmt.Market.{Name}
use mini_qmt.Market.Reconciliation.{
  Values, FieldRule, Candidate, Selection, Cluster, backends_of, support, winner_before,
  first_candidate, or_clusters, equivalent, add_candidates, cluster_before, eligible_of,
  is_consensus, selection_of, select_candidate,
}
use mini_qmt.Market.Reconciliation.Clusters.{
  All-first, All-sorted_set, All-Mem, Equivalent, IsCluster, add_candidates-IsCluster, two_clusters,
  add_candidates-first,
}

module _ {V F : Type 0} (values : Values V F) (rule : FieldRule F) where
  -- The candidate stands for the same value as the leader.
  abbrev pub Agrees : Candidate V → Candidate V → Type 0
  Agrees leader d = (d ≡ leader) ⊎ Equivalent values rule d.value leader.value

  -- What the selection among candidates is.
  pub record Chosen (c : Candidate V) (cs : List (Candidate V)) (s : Selection V) : Type 0 where
    pub candidate : Candidate V
    pub picked : s.chosen ≡ some candidate
    pub known : Mem candidate (c ∷ cs)
    pub leader : Candidate V
    pub led : Mem leader (c ∷ cs)
    pub agrees : Agrees leader candidate
    pub backed :
        All
          (λ (b : Name). (d : Candidate V) × Mem d (c ∷ cs) × (d.backend ≡ b) × Agrees leader d)
          s.agreeing
    pub enough : s.consensus_met ≡ true → rule.minimum_independent_backends ≤ length s.agreeing
    pub differs :
        s.had_disagreement
        ≡ any (λ (d : Candidate V). not (equivalent values rule d.value c.value)) cs

  -- A member of a cluster agrees with its first candidate.
  members-Agrees :
      (P : Candidate V → Type 0) (first : Candidate V) (others : List (Candidate V))
      → IsCluster values rule P (first, others)
      → All (λ d. P d × Agrees first d) (first ∷ others)
  members-Agrees P first others (all, same) = ((all.0, inl refl), go others all.1 same)
    where
      go :
          (ds : List (Candidate V))
          → All P ds
          → All (λ (d : Candidate V). Equivalent values rule d.value first.value) ds
          → All (λ d. P d × Agrees first d) ds
      go [] h k = tt
      go (d ∷ ds) h k = ((h.0, inr k.0), go ds h.1 k.1)

  backends-Backed :
      (P : Candidate V → Type 0) (ds : List (Candidate V))
      → All P ds
      → All (λ (b : Name). (d : Candidate V) × P d × (d.backend ≡ b)) (backends_of ds)
  backends-Backed P [] h = tt
  backends-Backed P (d ∷ ds) h = ((d, h.0, refl), backends-Backed P ds h.1)

  -- A cluster whose support is enough, if there is a consensus.
  abbrev IsWinner : (Candidate V → Type 0) → Bool → Cluster V → Type 0
  IsWinner P consensus k =
      IsCluster values rule P k × (consensus ≡ true → rule.minimum_independent_backends ≤ support k)

  -- The clusters that are ranked can win, and there are some.
  ranked-IsWinner :
      (P : Candidate V → Type 0) (eligible : List (Cluster V)) (l : Cluster V)
      (ls : List (Cluster V))
      → All
          (λ k. IsCluster values rule P k × (rule.minimum_independent_backends ≤ support k))
          eligible
      → All (IsCluster values rule P) (l ∷ ls)
      → (k : Cluster V) × (ks : List (Cluster V)) × (or_clusters eligible (l ∷ ls) ≡ k ∷ ks)
        × All (IsWinner P (is_consensus values rule eligible)) (k ∷ ks)
  ranked-IsWinner P [] l ls h k = (
    l,
    ls,
    refl,
    All-of (IsCluster values rule P) (IsWinner P false) (λ c m. (m, λ e. absurd (cc e))) (l ∷ ls) k,
  )
  ranked-IsWinner P (e ∷ es) l ls h k = (
    e,
    es,
    refl,
    All-of (λ c. IsCluster values rule P c × (rule.minimum_independent_backends ≤ support c))
        (IsWinner P (is_consensus values rule (e ∷ es))) (λ c (m, n). (m, λ _. n)) (e ∷ es) h,
  )

  eligible-enough :
      (P : Candidate V → Type 0) (ks : List (Cluster V))
      → All (IsCluster values rule P) ks
      → All
          (λ k. IsCluster values rule P k × (rule.minimum_independent_backends ≤ support k))
          (eligible_of values rule ks)
  eligible-enough P [] h = tt
  eligible-enough P (k ∷ ks) h =
      go (leb rule.minimum_independent_backends (support k)) refl (eligible-enough P ks h.1)
    where
      go :
          (b : Bool)
          → leb rule.minimum_independent_backends (support k) ≡ b
          → All
              (λ k. IsCluster values rule P k × (rule.minimum_independent_backends ≤ support k))
              (eligible_of values rule ks)
          → All
              (λ k. IsCluster values rule P k × (rule.minimum_independent_backends ≤ support k))
              (if b then k ∷ eligible_of values rule ks else eligible_of values rule ks)
      go true e r = ((h.0, leb→le rule.minimum_independent_backends (support k) e), r)
      go false e r = r

  -- The selection from the ranked clusters.
  winner-Chosen :
      (c : Candidate V) (cs : List (Candidate V)) (disagreement consensus : Bool) (w : Cluster V)
      (ws : List (Cluster V))
      → IsWinner (λ d. Mem d (c ∷ cs)) consensus w
      → disagreement ≡ any (λ (d : Candidate V). not (equivalent values rule d.value c.value)) cs
      → Chosen c cs (selection_of values rule disagreement consensus (w ∷ ws))
  winner-Chosen c cs disagreement consensus (first, others) ws (cluster, enough) differs =
      let P = λ (d : Candidate V). Mem d (c ∷ cs) in
      let all = members-Agrees P first others cluster in
      let (chosen, rest, sorted, (known, agrees)) =
        All-first (λ d. P d × Agrees first d) (winner_before rule.priorities) first others all in
      let named = backends-Backed (λ d. P d × Agrees first d) (first ∷ others) all in
      record {
        candidate = chosen;
        picked = ap first_candidate sorted;
        known = known;
        leader = first;
        led = cluster.0.0;
        agrees = agrees;
        backed =
            All-sorted_set
              (λ (b : Name). (d : Candidate V) × Mem d (c ∷ cs) × (d.backend ≡ b) × Agrees first d)
              (backends_of (first ∷ others))
              (All-of (λ (b : Name). (d : Candidate V) × (P d × Agrees first d) × (d.backend ≡ b))
                (λ (b : Name).
                  (d : Candidate V) × Mem d (c ∷ cs) × (d.backend ≡ b) × Agrees first d)
                (λ b (d, (m, a), e). (d, m, e, a)) (backends_of (first ∷ others)) named);
        enough = enough;
        differs = differs;
      }

  -- From one candidate on, a candidate is chosen. It is one of the candidates, and stands with every
  -- agreeing backend for the value of one leader: each has a candidate that is the leader or equivalent
  -- to it. A consensus has at least the minimum of distinct backends, and a disagreement is reported
  -- exactly if a value is not equivalent to the first one.
  pub select_candidate-Chosen :
      (c : Candidate V) (cs : List (Candidate V))
      → Chosen c cs (select_candidate values (c ∷ cs) rule)
  unfolding select_candidate
  select_candidate-Chosen c cs =
      let P = λ (d : Candidate V). Mem d (c ∷ cs) in
      let clusters = add_candidates values rule ((c, []) ∷ []) cs in
      let eligible = eligible_of values rule clusters in
      let consensus = is_consensus values rule eligible in
      let before = cluster_before values rule in
      let grouped = add_candidates-IsCluster values rule P [] (c ∷ cs) (All-Mem (c ∷ cs)) tt in
      let (l, ls, opened) = add_candidates-first values rule (c, []) [] cs in
      let (k, ks, ranked, winners) =
        ranked-IsWinner P eligible l ls (eligible-enough P clusters grouped)
          (subst (All (IsCluster values rule P)) opened grouped) in
      let (w, ws, sorted, wins) = All-first (IsWinner P consensus) before k ks winners in
      let order : sort before (or_clusters eligible clusters) ≡ w ∷ ws =
        ap (λ x. sort before (or_clusters eligible x)) opened ∙ ap (sort before) ranked ∙ sorted in
      subst (λ x. Chosen c cs (selection_of values rule (ltb 1 (length clusters)) consensus x))
        (sym order)
        (winner-Chosen c cs (ltb 1 (length clusters)) consensus w ws wins
          (two_clusters values rule c [] cs))
