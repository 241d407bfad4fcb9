-- ===== src/Outcomes/Agreement.antt =====
-- When the facts of a key are in conflict.
use job_hound.Base.{
  ◌≤◌, ◌≡◌, refl, sym, subst, ◌∙◌, ◌↔◌, inl, inr, String, Bool, ◌||◌, true, false, List, [], ◌∷◌,
  str_eq, str_eq_iff, map, length, contains, filter, any, not, ◌&&◌, ap, distinct, All, All-map,
  arith, Bool-cases,
}
use job_hound.Outcomes.Events.{OutcomeEvent}
use job_hound.Outcomes.Projections.{
  value_json, overtakes, superseded_by_name, removed, active, is_conflict,
}
use job_hound.Outcomes.Standing.{contains-append}

abbrev AllSame : String → List String → Type 0
AllSame x = All (λ y. y ≡ x)

contains-same : (x y : String) (ys : List String) → AllSame y ys → contains x ys ≡ true → x ≡ y
contains-same x y [] h c = cc
contains-same x y (z ∷ zs) h c = elim (Bool-cases (str_eq z x)) [
  | inl e ↦ sym ((str_eq_iff z x).0 e) ∙ h.0
  | inr e ↦ (let r : contains x zs ≡ true = rw e at c in contains-same x y zs h.1 r)
]

distinct-nonempty : (x : String) (xs : List String) → 1 ≤ length (distinct (x ∷ xs))
distinct-nonempty x [] = omega arith
distinct-nonempty x (y ∷ ys) =
    let h = distinct-nonempty y ys in
    elim (Bool-cases (contains x (y ∷ ys))) [ inl e ↦ rw e h | inr e ↦ rw e (omega (arith, h)) ]

same_if_few : (x : String) (xs : List String) → length (distinct (x ∷ xs)) ≤ 1 → AllSame x xs
same_if_few x [] h = tt
same_if_few x (y ∷ ys) h = elim (Bool-cases (contains x (y ∷ ys))) [
  | inl e ↦
      let few : length (distinct (y ∷ ys)) ≤ 1 = rw e at h in
      let k = same_if_few y ys few in
      let q : x ≡ y = contains-same x y (y ∷ ys) (refl, k) e in
      (sym q, All-map _ _ ys (λ z r. r ∙ sym q) k)
  | inr e ↦
      let few : length (x ∷ distinct (y ∷ ys)) ≤ 1 = rw e at h in
      let n = distinct-nonempty y ys in absurd (omega (arith, few, n))
]

few_if_same : (x : String) (xs : List String) → AllSame x xs → length (distinct (x ∷ xs)) ≤ 1
few_if_same x [] h = omega arith
few_if_same x (y ∷ ys) h =
    let k = few_if_same y ys (All-map _ _ ys (λ z r. r ∙ sym h.0) h.1) in
    let found : contains x (y ∷ ys) ≡ true = rw ((str_eq_iff y x).1 h.0) refl in rw found k

module _ (quote : String → String) where
  abbrev json : OutcomeEvent → String
  json e = value_json quote e.value

  all-Same :
      (x : String) (es : List OutcomeEvent) → AllSame x (map json es) → All (λ e. json e ≡ x) es
  all-Same x [] h = tt
  all-Same x (e ∷ es) h = (h.0, all-Same x es h.1)

  same-All :
      (x : String) (es : List OutcomeEvent) → All (λ e. json e ≡ x) es → AllSame x (map json es)
  same-All x [] h = tt
  same-All x (e ∷ es) h = (h.0, same-All x es h.1)

  -- Any two of the facts that pass a test have the same value.
  abbrev pub IsUnanimous : (OutcomeEvent → Bool) → List OutcomeEvent → Type 0
  IsUnanimous p es =
      All
        (λ e.
          p e ≡ true
          → All (λ f. p f ≡ true → value_json quote f.value ≡ value_json quote e.value) es)
        es

  AgreeAll : List OutcomeEvent → Type 0
  AgreeAll es = All (λ e. All (λ f. json f ≡ json e) es) es

  few_when_same : (es : List OutcomeEvent) → AgreeAll es → length (distinct (map json es)) ≤ 1
  unfolding AgreeAll
  few_when_same [] h = omega arith
  few_when_same (e ∷ es) h = few_if_same (json e) (map json es) (same-All (json e) es h.0.1)

  same_when_few : (es : List OutcomeEvent) → length (distinct (map json es)) ≤ 1 → AgreeAll es
  unfolding AgreeAll
  same_when_few [] h = tt
  same_when_few (e ∷ es) h =
      let k = all-Same (json e) es (same_if_few (json e) (map json es) h) in
      let agree : All (λ f. json f ≡ json e) (e ∷ es) = (refl, k) in
      All-map _ _ (e ∷ es) (λ g q. All-map _ _ (e ∷ es) (λ f r. r ∙ sym q) agree) agree

module _ (P : OutcomeEvent → Type 0) (p : OutcomeEvent → Bool) where
  passed-All : (es : List OutcomeEvent) → All P (filter p es) → All (λ e. p e ≡ true → P e) es
  passed-All [] h = tt
  passed-All (e ∷ es) h = elim (Bool-cases (p e)) [
    | inl b ↦ (let k : All P (e ∷ filter p es) = rw b at h in (λ _. k.0, passed-All es k.1))
    | inr b ↦ (let k : All P (filter p es) = rw b at h in (λ a. cc, passed-All es k))
  ]

  All-passed : (es : List OutcomeEvent) → All (λ e. p e ≡ true → P e) es → All P (filter p es)
  All-passed [] h = tt
  All-passed (e ∷ es) h = elim (Bool-cases (p e)) [
    | inl b ↦ rw b (h.0 b, All-passed es h.1)
    | inr b ↦ rw b (All-passed es h.1)
  ]

-- No fact names it as superseded, and no fact under its id is overtaken by another.
unfoldable pub stands : List OutcomeEvent → OutcomeEvent → Bool
unfolding overtakes
stands facts e =
    not (any (λ f. contains e.event_id f.supersedes) facts)
    && not (any (λ f. str_eq f.event_id e.event_id && any (overtakes f) facts) facts)

named_any :
    (id : String) (es : List OutcomeEvent)
    → contains id (superseded_by_name es) ≡ any (λ f. contains id f.supersedes) es
unfolding superseded_by_name
named_any id [] = refl
named_any id (e ∷ es) =
    contains-append id e.supersedes (superseded_by_name es)
    ∙ ap (λ b. contains id e.supersedes || b) (named_any id es)

overtaken_any :
    (id : String) (p : OutcomeEvent → Bool) (es : List OutcomeEvent)
    → contains id (map (λ f. f.event_id) (filter p es)) ≡ any (λ f. str_eq f.event_id id && p f) es
overtaken_any id p [] = refl
overtaken_any id p (e ∷ es) =
    let h = overtaken_any id p es in
    elim (Bool-cases (p e)) [ inl b ↦ rw b (ground (arith, h)) | inr b ↦ rw b (ground (arith, h)) ]

not_or : (a b : Bool) → not (a || b) ≡ (not a && not b)
not_or true b = refl
not_or false b = refl

pub removed-stands :
    (facts : List OutcomeEvent) (e : OutcomeEvent)
    → not (contains e.event_id (removed facts)) ≡ stands facts e
unfolding removed stands
removed-stands facts e =
    let a =
      contains-append e.event_id (superseded_by_name facts)
        (map (λ f. f.event_id) (filter (λ f. any (overtakes f) facts) facts)) in
    let b = named_any e.event_id facts in
    let c = overtaken_any e.event_id (λ f. any (overtakes f) facts) facts in
    rw (a, b, c) (not_or (any (λ f. contains e.event_id f.supersedes) facts) _)

filter-same :
    (p q : OutcomeEvent → Bool) (es : List OutcomeEvent)
    → ((e : OutcomeEvent) → p e ≡ q e)
    → filter p es ≡ filter q es
filter-same p q [] h = refl
filter-same p q (e ∷ es) h = rw (h e, filter-same p q es h) refl

active-stands : (facts : List OutcomeEvent) → active facts ≡ filter (stands facts) facts
unfolding active
active-stands facts = filter-same _ _ facts (removed-stands facts)

-- The facts of a key are without conflict exactly where any two of those that stand have the same value:
-- a fact stands that no fact names as superseded and that no later one of the same authority overtakes.
pub is_conflict-IsUnanimous :
    (quote : String → String) (facts : List OutcomeEvent)
    → (is_conflict quote facts ≡ false) ↔ IsUnanimous quote (stands facts) facts
unfolding is_conflict AgreeAll
is_conflict-IsUnanimous quote facts = (
  λ calm.
      (let few : AgreeAll quote (filter (stands facts) facts) =
          subst (AgreeAll quote) (active-stands facts)
            (same_when_few quote (active facts) (ground (arith, calm))) in
        All-map _ _ facts (λ e h b. passed-All _ (stands facts) facts (h b))
          (passed-All _ (stands facts) facts few)),
  λ same.
      (let agree : AgreeAll quote (filter (stands facts) facts) =
          All-passed _ (stands facts) facts
            (All-map _ _ facts (λ e h b. All-passed _ (stands facts) facts (h b)) same) in
        let h =
          few_when_same quote (active facts)
            (subst (AgreeAll quote) (sym (active-stands facts)) agree) in
        ground (arith, h)),
)
