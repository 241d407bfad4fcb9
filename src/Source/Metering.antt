-- ===== src/Source/Metering.antt =====
-- The request budget of a run.
use job_hound.Base.{
  ℕ, ◌+◌, ◌<◌, ◌≤◌, ◌≡◌, refl, sym, ap, ◌∙◌, subst, inl, inr, String, Option, some, none, Bool,
  true, false, List, [], ◌∷◌, ◌++◌, arith, str_eq, str_eq_iff, str_eq_refl, any, find?, count,
  update_where, Bool-cases, or-false, if◌then◌else◌,
}
use job_hound.Source.Rows.{Run, HttpAttempt}
use job_hound.Source.Requests.{is_run, use_one, insert_run}

abbrev pub attempts_of : String → List HttpAttempt → ℕ
attempts_of id rows = count (λ a. str_eq a.run_id id) rows

-- A run without a row has sent nothing; one with a row has sent what it says, within its cap.
unfoldable pub Agree : ℕ → Option Run → Type 0
Agree n none = n ≡ 0
Agree n (some r) = (n ≡ r.used) × (r.used ≤ r.cap)

pub record IsMetered (runs : List Run) (rows : List HttpAttempt) : Type 0 where
  pub agree : (id : String) → Agree (attempts_of id rows) (find? (is_run id) runs)

find?-other :
    (id id' : String) (rs : List Run)
    → str_eq id' id ≡ false
    → find? (is_run id) (update_where (is_run id') use_one rs) ≡ find? (is_run id) rs
find?-other id id' [] h = refl
find?-other id id' (r ∷ rs) h = elim (Bool-cases (is_run id' r)) [
  | inl e ↦
      let same = (str_eq_iff r.id id').0 e in
      let f : str_eq r.id id ≡ false = ap (λ x. str_eq x id) same ∙ h in
      rw (e, f) (find?-other id id' rs h)
  | inr e ↦ rw (e, find?-other id id' rs h) refl
]

find?-own :
    (id : String) (rs : List Run) (r : Run)
    → find? (is_run id) rs ≡ some r
    → find? (is_run id) (update_where (is_run id) use_one rs) ≡ some (use_one r)
find?-own id [] r h = cc
find?-own id (q ∷ rs) r h = elim (Bool-cases (str_eq q.id id)) [
  | inl e ↦
      (let f : some q ≡ some r = rw e at h in
        rw (e, e) (ap (λ o. elim o [ none ↦ none | some x ↦ some (use_one x) ]) f))
  | inr e ↦ rw (e, e) (find?-own id rs r (rw e at h))
]

add_zero : (n : ℕ) → n + 0 ≡ n
add_zero n = omega arith

count-snoc :
    (id : String) (rows : List HttpAttempt) (a : HttpAttempt)
    → attempts_of id (rows ++ a ∷ []) ≡ attempts_of id rows + (if str_eq a.run_id id then 1 else 0)
count-snoc id [] a = ground arith
count-snoc id (b ∷ rows) a = let h = count-snoc id rows a in ground arith

find?-snoc :
    (q : Run → Bool) (rs : List Run) (r : Run)
    → any q rs ≡ false
    → (find? q (rs ++ r ∷ []) ≡ (if q r then some r else none)) × (find? q rs ≡ none)
find?-snoc q [] r h = (refl, refl)
find?-snoc q (x ∷ rs) r h =
    let (here, there) = or-false (q x) (any q rs) h in rw here (find?-snoc q rs r there)

find?-skip :
    (q : Run → Bool) (rs : List Run) (r : Run) → q r ≡ false → find? q (rs ++ r ∷ []) ≡ find? q rs
find?-skip q [] r h = rw h refl
find?-skip q (x ∷ rs) r h = rw (find?-skip q rs r h) refl

-- The row of a run that had none.
first-Agree :
    (r : Run) (rs : List Run) (rows : List HttpAttempt)
    → r.used ≡ 0
    → any (is_run r.id) rs ≡ false
    → IsMetered rs rows
    → Agree (attempts_of r.id rows) (find? (is_run r.id) (rs ++ r ∷ []))
unfolding Agree
first-Agree r rs rows unspent e h =
    let (found, missing) = find?-snoc (is_run r.id) rs r e in
    let hit : find? (is_run r.id) (rs ++ r ∷ []) ≡ some r =
      found ∙ ap (λ (b : Bool). if b then some r else none) (str_eq_refl r.id) in
    let sent : attempts_of r.id rows ≡ 0 =
      subst (Agree (attempts_of r.id rows)) missing (h.agree r.id) in
    subst (Agree (attempts_of r.id rows)) (sym hit) (sent ∙ sym unspent, omega (arith, unspent))

pub insert_run-IsMetered :
    (r : Run) (rs : List Run) (rows : List HttpAttempt)
    → r.used ≡ 0
    → IsMetered rs rows
    → IsMetered (insert_run r rs) rows
unfolding insert_run Agree
insert_run-IsMetered r rs rows unspent h = elim (Bool-cases (any (is_run r.id) rs)) [
  | inl e ↦ rw e h
  | inr e ↦ rw e (record {
    agree = λ id. elim (Bool-cases (str_eq r.id id)) [
      | inl t ↦
          subst (λ x. Agree (attempts_of x rows) (find? (is_run x) (rs ++ r ∷ [])))
            ((str_eq_iff r.id id).0 t) (first-Agree r rs rows unspent e h)
      | inr t ↦
          subst (Agree (attempts_of id rows)) (sym (find?-skip (is_run id) rs r t)) (h.agree id)
    ];
  })
]

booked-Agree :
    (id : String) (r : Run) (a : HttpAttempt) (rs : List Run) (rows : List HttpAttempt)
    → a.run_id ≡ id
    → find? (is_run id) rs ≡ some r
    → r.used < r.cap
    → IsMetered rs rows
    → Agree
        (attempts_of id (rows ++ a ∷ []))
        (find? (is_run id) (update_where (is_run id) use_one rs))
unfolding Agree
booked-Agree id r a rs rows own found room h =
    let old : (attempts_of id rows ≡ r.used) × (r.used ≤ r.cap) =
      subst (Agree (attempts_of id rows)) found (h.agree id) in
    let hit : str_eq a.run_id id ≡ true = (str_eq_iff a.run_id id).1 own in
    let n : attempts_of id (rows ++ a ∷ []) ≡ attempts_of id rows + 1 =
      count-snoc id rows a ∙ ap (λ (b : Bool). attempts_of id rows + (if b then 1 else 0)) hit in
    subst (Agree (attempts_of id (rows ++ a ∷ []))) (sym (find?-own id rs r found))
      (n ∙ ap (λ k. k + 1) old.0, omega (arith, room))

-- One more request of a run that had one left.
pub book-IsMetered :
    (id : String) (r : Run) (a : HttpAttempt) (rs : List Run) (rows : List HttpAttempt)
    → a.run_id ≡ id
    → find? (is_run id) rs ≡ some r
    → r.used < r.cap
    → IsMetered rs rows
    → IsMetered (update_where (is_run id) use_one rs) (rows ++ a ∷ [])
unfolding Agree
book-IsMetered id r a rs rows own found room h = record {
  agree = λ id'. elim (Bool-cases (str_eq id id')) [
    | inl t ↦
        subst
          (λ x.
            Agree (attempts_of x (rows ++ a ∷ []))
              (find? (is_run x) (update_where (is_run id) use_one rs)))
          ((str_eq_iff id id').0 t) (booked-Agree id r a rs rows own found room h)
    | inr t ↦
        let miss : str_eq a.run_id id' ≡ false = ap (λ x. str_eq x id') own ∙ t in
        let n : attempts_of id' (rows ++ a ∷ []) ≡ attempts_of id' rows =
          count-snoc id' rows a
          ∙ ap (λ (b : Bool). attempts_of id' rows + (if b then 1 else 0)) miss
          ∙ add_zero _ in
        rw (n, find?-other id' id rs t) (h.agree id')
  ];
}
