-- ===== src/Outcomes/Gathered.antt =====
-- What grouping by a key puts under each key: everything that has the key, in order, and nothing else.
use job_hound.Base.{
  append-nil, append_assoc, ◌≡◌, refl, sym, ap, ◌∙◌, inl, inr, String, Bool, true, false, List, [],
  ◌∷◌, ◌++◌, str_eq, str_eq_iff, str_eq_refl, filter, text_before, All, All-map, if◌then◌else◌,
  Bool-cases,
}
use job_hound.Outcomes.Events.{OutcomeEvent}
use job_hound.Outcomes.Grouped.{Group, members_of, append_to, insert_by, sort_by}
use job_hound.Outcomes.Projections.{event_key, group_each}

-- Two texts that are the same as a third, and two of which one is.
str_eq-same : (a b c : String) → str_eq a b ≡ true → str_eq a c ≡ str_eq b c
str_eq-same a b c h = ap (λ x. str_eq x c) ((str_eq_iff a b).0 h)

module _ {A : Type 0} where
  -- What the first group of a key holds.
  unfoldable members_under : String → List (Group A) → List A
  members_under k [] = []
  members_under k (g ∷ gs) =
      let rest = members_under k gs in if str_eq g.key k then members_of g else rest

  unfoldable only_if : Bool → A → List A
  only_if true x = x ∷ []
  only_if false x = []

  members_under-append_to :
      (k j : String) (x : A) (gs : List (Group A))
      → members_under k (append_to j x gs) ≡ members_under k gs ++ only_if (str_eq j k) x
  unfolding members_under append_to only_if
  members_under-append_to k j x [] = elim (Bool-cases (str_eq j k)) [
    | inl e ↦ rw e refl
    | inr e ↦ rw e refl
  ]
  members_under-append_to k j x (g ∷ gs) = elim (Bool-cases (str_eq g.key j)) [
    | inl e ↦
        let s = str_eq-same g.key j k e in
        elim (Bool-cases (str_eq j k)) [
          | inl f ↦ (let q : str_eq g.key k ≡ true = s ∙ f in rw (e, q, f) refl)
          | inr f ↦
              let q : str_eq g.key k ≡ false = s ∙ f in
              rw (e, q, f) (sym (append-nil (members_under k gs)))
        ]
    | inr e ↦ elim (Bool-cases (str_eq g.key k)) [
      | inr f ↦ rw (e, f) (members_under-append_to k j x gs)
      | inl f ↦ elim (Bool-cases (str_eq j k)) [
        | inr i ↦ rw (e, f, i) (sym (append-nil (members_of g)))
        | inl i ↦
            let same : g.key ≡ j = (str_eq_iff g.key k).0 f ∙ sym ((str_eq_iff j k).0 i) in
            let r = (str_eq_iff g.key j).1 same in cc
      ]
    ]
  ]

  -- No key comes twice.
  Apart : String → List (Group A) → Type 0
  Apart k gs = All (λ h. str_eq k h.key ≡ false) gs

  Once : List (Group A) → Type 0
  Once [] = Unit {0}
  Once (g ∷ gs) = Apart g.key gs × Once gs

  Apart-append_to :
      (k j : String) (x : A) (gs : List (Group A))
      → str_eq k j ≡ false
      → Apart k gs
      → Apart k (append_to j x gs)
  unfolding append_to Apart
  Apart-append_to k j x [] n h = (n, tt)
  Apart-append_to k j x (g ∷ gs) n h = elim (Bool-cases (str_eq g.key j)) [
    | inl e ↦ rw e (h.0, h.1)
    | inr e ↦ rw e (h.0, Apart-append_to k j x gs n h.1)
  ]

  Once-append_to : (j : String) (x : A) (gs : List (Group A)) → Once gs → Once (append_to j x gs)
  unfolding append_to Once Apart
  Once-append_to j x [] h = (tt, tt)
  Once-append_to j x (g ∷ gs) h = elim (Bool-cases (str_eq g.key j)) [
    | inl e ↦ rw e (h.0, h.1)
    | inr e ↦ rw e (Apart-append_to g.key j x gs e h.0, Once-append_to j x gs h.1)
  ]

  All-both :
      (P Q : Group A → Type 0) (gs : List (Group A)) → All P gs → All Q gs → All (λ g. P g × Q g) gs
  All-both P Q [] p q = tt
  All-both P Q (g ∷ gs) p q = ((p.0, q.0), All-both P Q gs p.1 q.1)

  -- Where no key comes twice, a group holds what its key stands for.
  Once-members :
      (gs : List (Group A)) → Once gs → All (λ g. members_of g ≡ members_under g.key gs) gs
  unfolding Once Apart members_under
  Once-members [] h = tt
  Once-members (g ∷ gs) h = (
    rw (str_eq_refl g.key) refl,
    All-map _ _ gs (λ f q. rw q.0 q.1) (All-both _ _ gs h.0 (Once-members gs h.1)),
  )

  -- What holds of all still holds of the sorted.
  All-inserted :
      (P : A → Type 0) (f : A → String) (x : A) (xs : List A)
      → P x
      → All P xs
      → All P (insert_by f x xs)
  unfolding insert_by
  All-inserted P f x [] p ps = (p, tt)
  All-inserted P f x (y ∷ ys) p ps = elim (Bool-cases (text_before (f y) (f x))) [
    | inl e ↦ rw e (ps.0, All-inserted P f x ys p ps.1)
    | inr e ↦ rw e (p, ps)
  ]

  pub All-sorted : (P : A → Type 0) (f : A → String) (xs : List A) → All P xs → All P (sort_by f xs)
  unfolding sort_by
  All-sorted P f [] ps = tt
  All-sorted P f (x ∷ xs) ps = All-inserted P f x (sort_by f xs) ps.0 (All-sorted P f xs ps.1)

-- The facts of a key.
abbrev pub facts_of : (String → String) → String → List OutcomeEvent → List OutcomeEvent
facts_of quote k = filter (λ e. str_eq (event_key quote e) k)

Once-group_each :
    (quote : String → String) (es : List OutcomeEvent) (gs : List (Group OutcomeEvent))
    → Once gs
    → Once (group_each quote es gs)
unfolding group_each
Once-group_each quote [] gs h = h
Once-group_each quote (e ∷ es) gs h =
    Once-group_each quote es _ (Once-append_to (event_key quote e) e gs h)

members_under-group_each :
    (quote : String → String) (k : String) (es : List OutcomeEvent) (gs : List (Group OutcomeEvent))
    → members_under k (group_each quote es gs) ≡ members_under k gs ++ facts_of quote k es
unfolding group_each only_if
members_under-group_each quote k [] gs = sym (append-nil (members_under k gs))
members_under-group_each quote k (e ∷ es) gs =
    let rest = members_under-group_each quote k es (append_to (event_key quote e) e gs) in
    let one = members_under-append_to k (event_key quote e) e gs in
    elim (Bool-cases (str_eq (event_key quote e) k)) [
      | inl h ↦
          let one' : members_under k (append_to (event_key quote e) e gs)
              ≡ members_under k gs ++ e ∷ [] =
            rw h at one in
          rw h (
            rest
            ∙ ap (λ xs. xs ++ facts_of quote k es) one'
            ∙ append_assoc (members_under k gs) (e ∷ []) (facts_of quote k es))
      | inr h ↦
          let one' : members_under k (append_to (event_key quote e) e gs)
              ≡ members_under k gs ++ [] =
            rw h at one in
          rw h
            (rest ∙ ap (λ xs. xs ++ facts_of quote k es) (one' ∙ append-nil (members_under k gs)))
    ]

-- The groups of some events hold the facts of their keys.
pub group_each-facts_of :
    (quote : String → String) (es : List OutcomeEvent)
    → All (λ g. members_of g ≡ facts_of quote g.key es) (group_each quote es [])
unfolding members_under Once
group_each-facts_of quote es =
    All-map _ _ (group_each quote es []) (λ g h. h ∙ members_under-group_each quote g.key es [])
      (Once-members (group_each quote es []) (Once-group_each quote es [] tt))
