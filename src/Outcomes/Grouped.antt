-- ===== src/Outcomes/Grouped.antt =====
-- Dictionaries of non-empty lists, as `defaultdict(list)` makes them, and the sorting by a text.
use job_hound.Base.{
  ℕ, ◌+◌, ◌≡◌, refl, String, List, [], ◌∷◌, ◌++◌, str_eq, text_before, length, length-append,
  if◌then◌else◌, arith, Bool-cases, inl, inr, All,
}

-- The entry of a key: what was appended to it, in order.
pub record Group (A : Type 0) : Type 0 where
  pub key : String
  pub first : A
  pub rest : List A

module _ {A : Type 0} where
  abbrev pub members_of : Group A → List A
  members_of g = g.first ∷ g.rest

  -- `groups[key].append(x)`
  unfoldable pub append_to : String → A → List (Group A) → List (Group A)
  append_to k x [] = record { key = k; first = x; rest = [] } ∷ []
  append_to k x (g ∷ gs) =
      let others = append_to k x gs in
      if str_eq g.key k then record g { rest = g.rest ++ x ∷ [] } ∷ gs else g ∷ others

  -- A stable insertion by a text.
  unfoldable pub insert_by : (A → String) → A → List A → List A
  insert_by f x [] = x ∷ []
  insert_by f x (y ∷ ys) =
      let rest = insert_by f x ys in if text_before (f y) (f x) then y ∷ rest else x ∷ y ∷ ys

  -- `sorted(xs, key=f)`
  unfoldable pub sort_by : (A → String) → List A → List A
  unfolding insert_by
  sort_by f [] = []
  sort_by f (x ∷ xs) = insert_by f x (sort_by f xs)

-- How many values a dictionary holds.
unfoldable pub held : {A : Type 0} → List (Group A) → ℕ
held [] = 0
held (g ∷ gs) = length g.rest + 1 + held gs

module _ {A : Type 0} where
  pub held-append_to :
      (k : String) (x : A) (gs : List (Group A)) → held (append_to k x gs) ≡ held gs + 1
  unfolding held append_to
  held-append_to k x [] = omega arith
  held-append_to k x (g ∷ gs) = elim (Bool-cases (str_eq g.key k)) [
    | inl e ↦ (let h = length-append g.rest (x ∷ []) in rw e (omega (arith, h)))
    | inr e ↦ (let h = held-append_to k x gs in rw e (omega (arith, h)))
  ]

  held-insert_by :
      (f : Group A → String) (g : Group A) (gs : List (Group A))
      → held (insert_by f g gs) ≡ length g.rest + 1 + held gs
  unfolding held insert_by
  held-insert_by f g [] = refl
  held-insert_by f g (h ∷ hs) = elim (Bool-cases (text_before (f h) (f g))) [
    | inl e ↦ (let k = held-insert_by f g hs in rw e (omega (arith, k)))
    | inr e ↦ rw e refl
  ]

  pub held-sort_by : (f : Group A → String) (gs : List (Group A)) → held (sort_by f gs) ≡ held gs
  unfolding held sort_by
  held-sort_by f [] = refl
  held-sort_by f (g ∷ gs) =
      let a = held-insert_by f g (sort_by f gs) in let b = held-sort_by f gs in omega (arith, a, b)

  -- What holds of all keeps holding when they are sorted, and the other way round.
  All-insert_by :
      (P : A → Type 0) (f : A → String) (x : A) (xs : List A)
      → All P (insert_by f x xs)
      → P x × All P xs
  unfolding insert_by
  All-insert_by P f x [] h = h
  All-insert_by P f x (y ∷ ys) h = elim (Bool-cases (text_before (f y) (f x))) [
    | inl e ↦
        let k : All P (y ∷ insert_by f x ys) = rw e at h in
        let r = All-insert_by P f x ys k.1 in (r.0, (k.0, r.1))
    | inr e ↦ rw e at h
  ]

  pub All-sort_by :
      (P : A → Type 0) (f : A → String) (xs : List A) → All P (sort_by f xs) → All P xs
  unfolding sort_by
  All-sort_by P f [] h = tt
  All-sort_by P f (x ∷ xs) h =
      let r = All-insert_by P f x (sort_by f xs) h in (r.0, All-sort_by P f xs r.1)
