-- ===== src/Trading/Repository/Begun.antt =====
-- What `begin_run` does: it finds the completed run of a binding, or starts a new one.
use mini_qmt.Common.{
  ℕ, ◌≡◌, refl, sym, ◌⊎◌, inl, inr, arith, Bool, true, false, not, ◌&&◌, Option, none, some, [],
  ◌∷◌, ◌==◌, ok, >>=-eq-ok, raise_if-eq-ok, ok-injective, any, find, ap, Bool-cases,
}
use mini_qmt.Common.Dict.{Dict, get, put}
use mini_qmt.Market.{Name}
use mini_qmt.Trading.State.{PortfolioState}
use mini_qmt.Trading.Repository.{
  TradingRepository, Run, RunBinding, HashBody, account, is_active, is_complete, begin_run,
  begin_by, is_reusable, new_run, next_attempt, binding_body, state_body, run_body, verify_run,
  verify_rows,
}
use mini_qmt.Trading.Repository.Chain.{found, equal_of, verify_known}

module _ (digest : HashBody → Name) (short : Name → Name) (r : TradingRepository)
    (binding : RunBinding) where
  -- A run that is found again: the repository does not change, and the run is completed and of the
  -- binding's hash.
  pub record Reused (r' : TradingRepository) (id : Name) : Type 0 where
    pub unchanged : r' ≡ r
    pub reused : Run
    pub of_binding : reused.binding_hash ≡ digest (binding_body binding)
    pub complete : is_complete reused.status ≡ true
    pub first : find (is_reusable digest short binding) r.runs ≡ some (id, reused)

  -- A run that is new: it is running, without events, and verifies with the hash of its start.
  pub record Started (initial_state : PortfolioState) (r' : TradingRepository) (id : Name)
      : Type 0 where
    pub none_complete : find (is_reusable digest short binding) r.runs ≡ none
    pub created :
        get r'.runs id
        ≡ some (
            new_run digest short binding initial_state
              (next_attempt (digest (binding_body binding)) r.runs))
    pub accounts : r'.accounts ≡ r.accounts
    pub start : digest (state_body initial_state) ≡ binding.initial_state_hash
    pub verifies : verify_run digest short r' id ≡ ok binding.initial_state_hash

  find-passes :
      (runs : Dict Run) {e : ℕ × Run}
      → find (is_reusable digest short binding) runs ≡ some e
      → is_reusable digest short binding e ≡ true
  find-passes [] h = absurd (cc h)
  find-passes (x ∷ xs) {e} h = elim (Bool-cases (is_reusable digest short binding x)) [
    | inl yes_ ↦ let same : x ≡ e = some_of (rw yes_ at h) in rw (← same) yes_
    | inr no_ ↦ find-passes xs (rw no_ at h)
  ]
    where
      some_of : ◌≡◌ {A = Option (ℕ × Run)} (some x) (some e) → x ≡ e
      some_of k = cc

  split_test : (b c : Bool) → (b && c) ≡ true → (b ≡ true) × (c ≡ true)
  split_test b c h = ground arith

  number_of : (a b : ℕ) → (a == b) ≡ true → a ≡ b
  number_of a b h = ground arith

  begin_by-Begun :
      (initial_state : PortfolioState) (o : Option (ℕ × Run)) (r' : TradingRepository) (id : Name)
      (new : Bool)
      → find (is_reusable digest short binding) r.runs ≡ o
      → digest (state_body initial_state) ≡ binding.initial_state_hash
      → begin_by digest short r binding initial_state o ≡ ok (r', id, new)
      → ((new ≡ false) × Reused r' id) ⊎ ((new ≡ true) × Started initial_state r' id)
  begin_by-Begun initial_state (some (run_id, x)) r' id new e start h =
      let same : (r, run_id, Bool.false) ≡ (r', id, new) = ok-injective h in
      let repository : r ≡ r' = ap (λ (t : TradingRepository × Name × Bool). t.0) same in
      let key : run_id ≡ id = ap (λ (t : TradingRepository × Name × Bool). t.1) same in
      let flag : Bool.false ≡ new = ap (λ (t : TradingRepository × Name × Bool). t.2) same in
      let (hashed, complete) =
        split_test (x.binding_hash == digest (binding_body binding)) (is_complete x.status)
          (find-passes r.runs e) in
      inl (
        sym flag,
        record {
          unchanged = sym repository;
          reused = x;
          of_binding = number_of x.binding_hash (digest (binding_body binding)) hashed;
          complete = complete;
          first = rw (← key) e;
        },
      )
  begin_by-Begun initial_state none r' id new e start h =
      let attempt = next_attempt (digest (binding_body binding)) r.runs in
      let run_id = short (digest (run_body (digest (binding_body binding)) attempt)) in
      let x : Run = new_run digest short binding initial_state attempt in
      let written : TradingRepository = record r { runs = put r.runs run_id x } in
      let (_, done) = raise_if-eq-ok (any (λ (k : ℕ × Run). k.0 == run_id) r.runs) _ _ h in
      let same : (written, run_id, true) ≡ (r', id, new) = ok-injective done in
      let repository : written ≡ r' = ap (λ (t : TradingRepository × Name × Bool). t.0) same in
      let key : run_id ≡ id = ap (λ (t : TradingRepository × Name × Bool). t.1) same in
      let flag : true ≡ new = ap (λ (t : TradingRepository × Name × Bool). t.2) same in
      let stored : get written.runs run_id ≡ some x = found r.runs run_id x in
      let here : get r'.runs id ≡ some x = rw (← repository, ← key) stored in
      inr (
        sym flag,
        record {
          none_complete = e;
          created = here;
          accounts = rw (← repository) refl;
          start = start;
          verifies = rw (verify_known digest short id r' x here) (unfold verify_rows in refl);
        },
      )

  -- If a run of the binding is complete, `begin_run` returns the first such run and stores nothing.
  -- If not, it stores a new running run without events, which starts from the state of the binding
  -- and verifies with the hash of that state.
  pub begin_run-Begun :
      (initial_state : PortfolioState) (r' : TradingRepository) (id : Name) (new : Bool)
      → begin_run digest short r binding initial_state ≡ ok (r', id, new)
      → ((new ≡ false) × Reused r' id) ⊎ ((new ≡ true) × Started initial_state r' id)
  unfolding begin_run
  begin_run-Begun initial_state r' id new h =
      let (a, _, h1) = >>=-eq-ok (account r binding.account_id) _ h in
      let (_, h2) = raise_if-eq-ok (not (is_active a.status)) _ _ h1 in
      let (hashed, h3) =
        raise_if-eq-ok (not (digest (state_body initial_state) == binding.initial_state_hash)) _ _
          h2 in
      begin_by-Begun initial_state (find (is_reusable digest short binding) r.runs) r' id new refl
        (equal_of (digest (state_body initial_state)) binding.initial_state_hash hashed) h3
