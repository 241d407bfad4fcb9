-- ===== src/Envelopes/Plans.antt =====
-- What `plan_dispatch` plans.
use job_hound.Base.{
  ℕ, zero, suc, ◌-◌, ◌≤◌, ◌≡◌, refl, String, true, false, some, List, [], ◌∷◌, ◌++◌, take, contains,
  filter, length, length-append, All, All-filter_test, max, arith,
}
use job_hound.Envelopes.Runs.{is_other, plan_dispatch}

length-take : {A : Type 0} (n : ℕ) (xs : List A) → length (take n xs) ≤ n
length-take zero [] = omega arith
length-take zero (x ∷ xs) = omega arith
length-take (suc n) [] = omega arith
length-take (suc n) (x ∷ xs) = let h = length-take n xs in omega (arith, h)

take_others :
    (n : ℕ) (c : String) (ready : List String)
    → contains c (take n (filter (is_other (some c)) ready)) ≡ false
take_others n c ready =
    elsewhere n (filter (is_other (some c)) ready) (All-filter_test _ ready (λ e h. h))
  where
    elsewhere :
        (n : ℕ) (xs : List String)
        → All (λ e. is_other (some c) e ≡ true) xs
        → contains c (take n xs) ≡ false
    elsewhere zero [] h = refl
    elsewhere zero (x ∷ xs) h = refl
    elsewhere (suc n) [] h = refl
    elsewhere (suc n) (x ∷ xs) h =
        (let k = elsewhere n xs h.1 in let a = h.0 in ground (arith, a, k))

-- A plan has at most as many envelopes as its limit, or one where the limit is none, and the envelope
-- of today is its last.
pub plan_dispatch-slot :
    (ready : List String) (current : String) (limit : ℕ)
    → (length (plan_dispatch ready (some current) limit) ≤ max 1 limit)
      × ((older : List String) × (plan_dispatch ready (some current) limit ≡ older ++ current ∷ [])
          × (contains current older ≡ false))
unfolding plan_dispatch
plan_dispatch-slot ready current limit =
    let older = take (limit - 1) (filter (is_other (some current)) ready) in
    let a = length-take (limit - 1) (filter (is_other (some current)) ready) in
    let b = length-append older (current ∷ []) in
    (omega (arith, a, b), (older, refl, take_others (limit - 1) current ready))
