-- ===== src/Kernel/Setup/Calendar.antt =====
-- The kernel's sessions and the settlement dates counted on them.
use mini_qmt.Common.{
  ℕ, zero, suc, ◌+◌, ◌≡◌, ◌<◌, refl, ◌⊎◌, inl, inr, arith, Bool, true, false, ◌||◌, Option, none,
  some, List, [], ◌∷◌, ok, or_raise, key_error, >>=-eq-ok, ok-injective, Bool-cases, if◌then◌else◌,
  ltb, ltb→lt, ◌==◌, ==_iff, All, get_elem?,
}
use mini_qmt.Common.Sorting.{insert_new, sorted_set}
use mini_qmt.Market.{Day}
use mini_qmt.Kernel.Setup.{session_index, is_session, date_max, or_max, advance_session}

-- Every session lies after the ones before it.
abbrev pub Ascending : List Day → Type 0
Ascending [] = Unit
Ascending (d ∷ ds) = All (λ e. d < e) ds × Ascending ds

All_after : (d e : Day) (ds : List Day) → d < e → All (λ x. e < x) ds → All (λ x. d < x) ds
All_after d e [] h k = tt
All_after d e (x ∷ xs) h k = (omega (arith, k.0), All_after d e xs h k.1)

insert_new-after :
    (d x : Day) (ds : List Day)
    → d < x
    → All (λ e. d < e) ds
    → All (λ e. d < e) (insert_new ltb x ds)
unfolding insert_new
insert_new-after d x [] h k = (h, tt)
insert_new-after d x (y ∷ ys) h k = go (ltb x y) (ltb y x) (insert_new-after d x ys h k.1)
  where
    go :
        (b c : Bool)
        → All (λ e. d < e) (insert_new ltb x ys)
        → All (λ e. d < e) (if b then x ∷ y ∷ ys else if c then y ∷ insert_new ltb x ys else y ∷ ys)
    go true c r = (h, k)
    go false true r = (k.0, r)
    go false false r = k

insert_new-Ascending : (x : Day) (ds : List Day) → Ascending ds → Ascending (insert_new ltb x ds)
unfolding insert_new
insert_new-Ascending x [] h = (tt, tt)
insert_new-Ascending x (y ∷ ys) h = elim (Bool-cases (ltb x y)) [
  | inl before ↦ let less = ltb→lt x y before in rw before ((less, All_after x y ys less h.0), h)
  | inr not_before ↦ elim (Bool-cases (ltb y x)) [
    | inl after ↦
        rw (not_before, after)
          (insert_new-after y x ys (ltb→lt y x after) h.0, insert_new-Ascending x ys h.1)
    | inr same ↦ rw (not_before, same) h
  ]
]

pub sorted_set-Ascending : (ds : List Day) → Ascending (sorted_set ltb ds)
unfolding sorted_set
sorted_set-Ascending [] = tt
sorted_set-Ascending (d ∷ ds) = insert_new-Ascending d (sorted_set ltb ds) (sorted_set-Ascending ds)

insert_new-is_session :
    (d x : Day) (ds : List Day) → is_session (insert_new ltb x ds) d ≡ (x == d || is_session ds d)
unfolding insert_new
insert_new-is_session d x [] = refl
insert_new-is_session d x (y ∷ ys) = ground (arith, insert_new-is_session d x ys)

pub sorted_set-is_session :
    (d : Day) (ds : List Day) → is_session (sorted_set ltb ds) d ≡ is_session ds d
unfolding sorted_set
sorted_set-is_session d [] = refl
sorted_set-is_session d (x ∷ xs) =
    rw (insert_new-is_session d x (sorted_set ltb xs), sorted_set-is_session d xs) refl

-- What an index found is the index of.
session_index_lem :
    (ds : List Day) (d : Day) (i : ℕ) → session_index ds d ≡ some i → get_elem? ds i ≡ some d
unfolding session_index
session_index_lem [] d i h = absurd (cc h)
session_index_lem (x ∷ xs) d i h = elim (Bool-cases (x == d)) [
  | inl same ↦ let e : x ≡ d = (==_iff x d).0 same in first e (rw same at h)
  | inr other ↦ later (session_index xs d) refl (session_index_lem xs d) (rw other at h)
]
  where
    first : x ≡ d → ◌≡◌ {A = Option ℕ} (some 0) (some i) → get_elem? (x ∷ xs) i ≡ some d
    first e k = let z : 0 ≡ i = cc in rw (← z, e) refl

    later :
        (found : Option ℕ)
        → session_index xs d ≡ found
        → ((j : ℕ) → session_index xs d ≡ some j → get_elem? xs j ≡ some d)
        → (elim found as (λ _. Option ℕ) [ none ↦ none | some j ↦ some (suc j) ]) ≡ some i
        → get_elem? (x ∷ xs) i ≡ some d
    later none e rest k = absurd (cc k)
    later (some j) e rest k = let s : suc j ≡ i = cc in rw (← s) (rest j e)

in_order :
    (ds : List Day) (i n : ℕ) (a b : Day)
    → Ascending ds
    → get_elem? ds i ≡ some a
    → get_elem? ds (i + suc n) ≡ some b
    → a < b
in_order [] i n a b h k l = absurd (cc k)
in_order (d ∷ ds) zero n a b h k l =
    let e : d ≡ a = cc in
    let next : 0 + suc n ≡ suc n = omega arith in rw (← e) (member ds n h.0 (rw next at l))
  where
    member : (xs : List Day) (j : ℕ) → All (λ x. d < x) xs → get_elem? xs j ≡ some b → d < b
    member [] j p q = absurd (cc q)
    member (x ∷ xs) zero p q = let e : x ≡ b = cc in rw (← e) p.0
    member (x ∷ xs) (suc j) p q = member xs j p.1 q
in_order (d ∷ ds) (suc i) n a b h k l =
    let next : suc i + suc n ≡ suc (i + suc n) = omega arith in
    in_order ds i n a b h.1 k (rw next at l)

below_max :
    (ds : List Day) (i : ℕ) (a : Day)
    → All (λ e. e < date_max) ds
    → get_elem? ds i ≡ some a
    → a < date_max
below_max [] i a h k = absurd (cc k)
below_max (d ∷ ds) zero a h k = let e : d ≡ a = cc in rw (← e) h.0
below_max (d ∷ ds) (suc i) a h k = below_max ds i a h.1 k

-- A settlement without delay is on the day itself, and one with a delay after the day: on a later
-- session, or never, which `date.max` stands for. The sessions ascend and lie before `date.max`.
pub advance_session_lem :
    (ds : List Day) (d : Day) (delay : ℕ) {r : Day}
    → Ascending ds
    → All (λ e. e < date_max) ds
    → advance_session ds d delay ≡ ok r
    → ((delay ≡ 0) × (r ≡ d)) ⊎ ((0 < delay) × (d < r))
unfolding advance_session
advance_session_lem ds d delay {r} order bounded h =
    let (i, found, done) = >>=-eq-ok (or_raise (session_index ds d) key_error) _ h in
    rw (← ok-injective {a = or_max (get_elem? ds (i + delay))} done)
      (go delay i (session_index_lem ds d i (indexed (session_index ds d) i found)))
  where
    indexed : (o : Option ℕ) (i : ℕ) → or_raise o key_error ≡ ok i → o ≡ some i
    indexed none i e = absurd (cc e)
    indexed (some j) i e = let s : j ≡ i = ok-injective e in rw s refl

    settle :
        (n i : ℕ) (o : Option Day)
        → get_elem? ds i ≡ some d
        → get_elem? ds (i + suc n) ≡ o
        → d < or_max o
    settle n i none at_i e = below_max ds i d bounded at_i
    settle n i (some b) at_i e = in_order ds i n d b order at_i e

    go :
        (n i : ℕ)
        → get_elem? ds i ≡ some d
        → ((n ≡ 0) × (or_max (get_elem? ds (i + n)) ≡ d))
          ⊎ ((0 < n) × (d < or_max (get_elem? ds (i + n))))
    go zero i at_i = let same : i + 0 ≡ i = omega arith in inl (refl, rw (same, at_i) refl)
    go (suc n) i at_i = inr (omega arith, settle n i (get_elem? ds (i + suc n)) at_i refl)
