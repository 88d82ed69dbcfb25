-- ===== src/Market/Reconciliation/Clusters.antt =====
-- The clusters that `_select_candidate` of marketdata/reconciliation.py groups the candidates into.
use mini_qmt.Common.{
  All-of, ◌≤◌, ◌≡◌, refl, arith, Bool, true, false, not, List, [], ◌∷◌, ◌++◌, ltb, lt→ltb, any,
  Bool-cases, inl, inr, length, All, All-append, if◌then◌else◌,
}
use mini_qmt.Common.Sorting.{sort, insert, All-sort, sorted_set, insert_new}
use mathlib.Core.Path.{subst}
use mathlib.Core.List.{Mem, mem-cons_self, mem-cons_of_mem}
use mini_qmt.Market.{Name}
use mini_qmt.Market.Reconciliation.{
  Values, FieldRule, Candidate, Cluster, equivalent, add_candidate, add_candidates,
}

-- An insertion leaves a first element.
pub first_of_insert {ℓ} :
    {A : Type ℓ} (before : A → A → Bool) (x : A) (xs : List A)
    → (y : A) × (ys : List A) × (insert before x xs ≡ y ∷ ys)
unfolding insert
first_of_insert before x [] = (x, [], refl)
first_of_insert before x (z ∷ zs) = go (before z x)
  where
    go :
        (b : Bool)
        → (y : _) × (ys : _) × ((if b then z ∷ insert before x zs else x ∷ z ∷ zs) ≡ y ∷ ys)
    go true = (z, insert before x zs, refl)
    go false = (x, z ∷ zs, refl)

-- What holds of every element holds of the first of the sorted list.
pub All-first {ℓ} :
    {A : Type ℓ} (P : A → Type 0) (before : A → A → Bool) (x : A) (xs : List A)
    → All P (x ∷ xs)
    → (y : A) × (ys : List A) × (sort before (x ∷ xs) ≡ y ∷ ys) × P y
unfolding sort
All-first P before x xs h =
    let (y, ys, e) = first_of_insert before x (sort before xs) in
    (y, ys, e, (subst (All P) e (All-sort before P (x ∷ xs) h)).0)

pub All-insert_new :
    (P : Name → Type 0) (x : Name) (ys : List Name) → P x → All P ys → All P (insert_new ltb x ys)
unfolding insert_new
All-insert_new P x [] h k = (h, tt)
All-insert_new P x (y ∷ ys) h k = go (ltb x y) (ltb y x) (All-insert_new P x ys h k.1)
  where
    go :
        (b d : Bool)
        → All P (insert_new ltb x ys)
        → All P (if b then x ∷ y ∷ ys else if d then y ∷ insert_new ltb x ys else y ∷ ys)
    go true d r = (h, k)
    go false true r = (k.0, r)
    go false false r = k

-- A set has what the list had.
pub All-sorted_set : (P : Name → Type 0) (ns : List Name) → All P ns → All P (sorted_set ltb ns)
unfolding sorted_set
All-sorted_set P [] h = tt
All-sorted_set P (n ∷ ns) h = All-insert_new P n (sorted_set ltb ns) h.0 (All-sorted_set P ns h.1)

pub All-Mem {ℓ} : {A : Type ℓ} (xs : List A) → All (λ x. Mem x xs) xs
All-Mem [] = tt
All-Mem (x ∷ xs) = (
  mem-cons_self,
  All-of (λ y. Mem y xs) (λ y. Mem y (x ∷ xs)) (λ y h. mem-cons_of_mem x h) xs (All-Mem xs),
)

module _ {V F : Type 0} (values : Values V F) (rule : FieldRule F) where
  abbrev pub Equivalent : V → V → Type 0
  Equivalent left right = equivalent values rule left right ≡ true

  -- The members of a cluster have the property, and values equivalent to the first's.
  abbrev pub IsCluster : (Candidate V → Type 0) → Cluster V → Type 0
  IsCluster P (first, others) =
      All P (first ∷ others) × All (λ (d : Candidate V). Equivalent d.value first.value) others

  pub add_candidate-IsCluster :
      (P : Candidate V → Type 0) (c : Candidate V) (clusters : List (Cluster V))
      → P c
      → All (IsCluster P) clusters
      → All (IsCluster P) (add_candidate values rule c clusters)
  add_candidate-IsCluster P c [] h k = (((h, tt), tt), tt)
  add_candidate-IsCluster P c ((first, others) ∷ clusters) h k =
      go (equivalent values rule c.value first.value) refl
        (add_candidate-IsCluster P c clusters h k.1)
    where
      go :
          (b : Bool)
          → equivalent values rule c.value first.value ≡ b
          → All (IsCluster P) (add_candidate values rule c clusters)
          → All (IsCluster P) (
              if b
              then (first, others ++ c ∷ []) ∷ clusters
              else (first, others) ∷ add_candidate values rule c clusters)
      go true e r = (
        (
          (k.0.0.0, All-append P others (c ∷ []) k.0.0.1 (h, tt)),
          All-append (λ (d : Candidate V). Equivalent d.value first.value) others (c ∷ []) k.0.1
              (e, tt),
        ),
        k.1,
      )
      go false e r = (k.0, r)

  pub add_candidates-IsCluster :
      (P : Candidate V → Type 0) (clusters : List (Cluster V)) (cs : List (Candidate V))
      → All P cs
      → All (IsCluster P) clusters
      → All (IsCluster P) (add_candidates values rule clusters cs)
  add_candidates-IsCluster P clusters [] h k = k
  add_candidates-IsCluster P clusters (c ∷ cs) h k =
      add_candidates-IsCluster P (add_candidate values rule c clusters) cs h.1
        (add_candidate-IsCluster P c clusters h.0 k)

  pub length-add_candidate :
      (c : Candidate V) (clusters : List (Cluster V))
      → length clusters ≤ length (add_candidate values rule c clusters)
  length-add_candidate c [] = omega arith
  length-add_candidate c ((first, others) ∷ clusters) =
      ground (arith, length-add_candidate c clusters)

  pub length-add_candidates :
      (clusters : List (Cluster V)) (cs : List (Candidate V))
      → length clusters ≤ length (add_candidates values rule clusters cs)
  length-add_candidates clusters [] = omega arith
  length-add_candidates clusters (c ∷ cs) = omega (
    arith,
    length-add_candidate c clusters,
    length-add_candidates (add_candidate values rule c clusters) cs,
  )

  -- There is a second cluster as soon as a value differs from the first one.
  pub two_clusters :
      (first : Candidate V) (others cs : List (Candidate V))
      → ltb 1 (length (add_candidates values rule ((first, others) ∷ []) cs))
        ≡ any (λ (d : Candidate V). not (equivalent values rule d.value first.value)) cs
  two_clusters first others [] = refl
  two_clusters first others (c ∷ cs) =
      elim (Bool-cases (equivalent values rule c.value first.value)) [
        | inl e ↦ rw e (two_clusters first (others ++ c ∷ []) cs)
        | inr e ↦ rw e (lt→ltb 1 _ (length-add_candidates ((first, others) ∷ (c, []) ∷ []) cs))
      ]

  -- The first candidate opens the first cluster.
  pub add_candidates-first :
      (k : Cluster V) (ks : List (Cluster V)) (cs : List (Candidate V))
      → (l : Cluster V) × (ls : List (Cluster V)) × (add_candidates values rule (k ∷ ks) cs
          ≡ l ∷ ls)
  add_candidates-first k ks [] = (k, ks, refl)
  add_candidates-first (first, others) ks (c ∷ cs) =
      elim (Bool-cases (equivalent values rule c.value first.value)) [
        | inl e ↦ rw e (add_candidates-first (first, others ++ c ∷ []) ks cs)
        | inr e ↦ rw e (add_candidates-first (first, others) (add_candidate values rule c ks) cs)
      ]
