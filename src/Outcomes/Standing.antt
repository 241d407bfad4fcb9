-- ===== src/Outcomes/Standing.antt =====
-- What becomes of a fact in a projection.
use job_hound.Base.{
  ◌≡◌, refl, inl, inr, String, Bool, true, false, ◌||◌, List, [], ◌∷◌, ◌++◌, str_eq, str_eq_iff,
  str_eq_refl, any, filter, map, contains, is_some, All, All-map, arith, Bool-cases,
}
use job_hound.Outcomes.Events.{OutcomeEvent}
use job_hound.Outcomes.Grouped.{Group, members_of, append_to}
use job_hound.Outcomes.Projections.{
  event_key, is_terminal, overtakes, superseded_by_name, removed, Disposition, set_entry, entry,
  OutcomeProjection, dispose_each, project_group, project_groups, group_each,
}

pub contains-append :
    (a : String) (xs ys : List String) → contains a (xs ++ ys) ≡ (contains a xs || contains a ys)
contains-append a [] ys = refl
contains-append a (x ∷ xs) ys = let h = contains-append a xs ys in ground (arith, h)

-- An id that events supersede is named by one of them.
named_lem :
    (id : String) (es : List OutcomeEvent)
    → contains id (superseded_by_name es) ≡ true
    → any (λ e. contains id e.supersedes) es ≡ true
unfolding superseded_by_name
named_lem id [] h = h
named_lem id (e ∷ es) h =
    let k = contains-append id e.supersedes (superseded_by_name es) in
    elim (Bool-cases (contains id e.supersedes)) [
      | inl a ↦ rw a refl
      | inr a ↦
          (let r : contains id (superseded_by_name es) ≡ true = rw (k, a) at h in
            rw a (named_lem id es r))
    ]

terminal_not_overtaken :
    (e : OutcomeEvent) (es : List OutcomeEvent)
    → is_terminal e ≡ true
    → any (overtakes e) es ≡ false
unfolding overtakes
terminal_not_overtaken e [] h = refl
terminal_not_overtaken e (f ∷ es) h = let k = terminal_not_overtaken e es h in ground (arith, h, k)

-- No fact but itself goes under the id of a terminal fact, which is not overtaken.
terminal_lem :
    (e : OutcomeEvent) (all_facts es : List OutcomeEvent)
    → is_terminal e ≡ true
    → All (λ f. f.event_id ≡ e.event_id → f ≡ e) es
    → contains e.event_id (map (λ f. f.event_id) (filter (λ f. any (overtakes f) all_facts) es))
      ≡ false
terminal_lem e all_facts [] h u = refl
terminal_lem e all_facts (f ∷ es) h u =
    let k = terminal_lem e all_facts es h u.1 in
    elim (Bool-cases (any (overtakes f) all_facts)) [
      | inr b ↦ rw b k
      | inl b ↦ elim (Bool-cases (str_eq f.event_id e.event_id)) [
        | inr c ↦ rw (b, c) k
        | inl c ↦
            let q : f ≡ e = u.0 ((str_eq_iff f.event_id e.event_id).0 c) in
            let n = terminal_not_overtaken e all_facts h in
            let m : any (overtakes f) all_facts ≡ false = rw q n in cc
      ]
    ]

-- Among facts whose ids tell them apart, a terminal fact (an ended application, a bounced message, a
-- passed assessment, a payment, a deadline and the like) is removed only where one of the facts names it
-- as superseded, whatever happened later.
pub terminal_stands :
    (e : OutcomeEvent) (es : List OutcomeEvent)
    → is_terminal e ≡ true
    → All (λ f. f.event_id ≡ e.event_id → f ≡ e) es
    → contains e.event_id (removed es) ≡ true
    → any (λ f. contains e.event_id f.supersedes) es ≡ true
unfolding removed
terminal_stands e es h u r =
    let k =
      contains-append e.event_id (superseded_by_name es)
        (map (λ f. f.event_id) (filter (λ f. any (overtakes f) es) es)) in
    let n = terminal_lem e es es h u in named_lem e.event_id es (ground (arith, r, k, n))

-- The ids that have a disposition.
abbrev pub IsDisposed : List (String × Disposition) → String → Type 0
IsDisposed ds id = is_some (entry id ds) ≡ true

set_entry-has :
    (k : String) (x : Disposition) (ds : List (String × Disposition))
    → IsDisposed (set_entry k x ds) k
unfolding set_entry entry
set_entry-has k x [] = rw (str_eq_refl k) refl
set_entry-has k x ((j, y) ∷ ds) = elim (Bool-cases (str_eq j k)) [
  | inl e ↦ rw (e, e) refl
  | inr e ↦ rw (e, e) (set_entry-has k x ds)
]

set_entry-keeps :
    (k : String) (x : Disposition) (ds : List (String × Disposition)) (id : String)
    → IsDisposed ds id
    → IsDisposed (set_entry k x ds) id
unfolding set_entry entry
set_entry-keeps k x [] id h = cc
set_entry-keeps k x ((j, y) ∷ ds) id h = elim (Bool-cases (str_eq j k)) [
  | inl e ↦ elim (Bool-cases (str_eq j id)) [
    | inl f ↦ rw (e, f) refl
    | inr f ↦ (let r : IsDisposed ds id = rw f at h in rw (e, f) r)
  ]
  | inr e ↦ elim (Bool-cases (str_eq j id)) [
    | inl f ↦ rw (e, f) refl
    | inr f ↦ (let r : IsDisposed ds id = rw f at h in rw (e, f) (set_entry-keeps k x ds id r))
  ]
]

dispose_each-keeps :
    (gone : List String) (clash : Bool) (es : List OutcomeEvent) (ds : List (String × Disposition))
    (id : String)
    → IsDisposed ds id
    → IsDisposed (dispose_each gone clash es ds) id
unfolding dispose_each
dispose_each-keeps gone clash [] ds id h = h
dispose_each-keeps gone clash (e ∷ es) ds id h =
    dispose_each-keeps gone clash es _ id (set_entry-keeps e.event_id _ ds id h)

dispose_each-has :
    (gone : List String) (clash : Bool) (es : List OutcomeEvent) (ds : List (String × Disposition))
    → All (λ e. IsDisposed (dispose_each gone clash es ds) e.event_id) es
unfolding dispose_each
dispose_each-has gone clash [] ds = tt
dispose_each-has gone clash (e ∷ es) ds = (
  dispose_each-keeps gone clash es _ e.event_id (set_entry-has e.event_id _ ds),
  dispose_each-has gone clash es _,
)

project_groups-keeps :
    (quote : String → String) (gs : List (Group OutcomeEvent)) (p : OutcomeProjection) (id : String)
    → IsDisposed p.dispositions id
    → IsDisposed (project_groups quote gs p).dispositions id
unfolding project_groups project_group
project_groups-keeps quote [] p id h = h
project_groups-keeps quote (g ∷ gs) p id h =
    project_groups-keeps quote gs (project_group quote g p) id
      (dispose_each-keeps _ _ (members_of g) p.dispositions id h)

pub project_groups-has :
    (quote : String → String) (gs : List (Group OutcomeEvent)) (p : OutcomeProjection)
    → All
        (λ g.
          All (λ e. IsDisposed (project_groups quote gs p).dispositions e.event_id) (members_of g))
        gs
unfolding project_groups project_group
project_groups-has quote [] p = tt
project_groups-has quote (g ∷ gs) p = (
  All-map _ _ (members_of g)
      (λ e h. project_groups-keeps quote gs (project_group quote g p) e.event_id h)
      (dispose_each-has _ _ (members_of g) p.dispositions),
  project_groups-has quote gs (project_group quote g p),
)

pub events-project_groups :
    (quote : String → String) (gs : List (Group OutcomeEvent)) (p : OutcomeProjection)
    → (project_groups quote gs p).events ≡ p.events
unfolding project_groups project_group
events-project_groups quote [] p = refl
events-project_groups quote (g ∷ gs) p = events-project_groups quote gs (project_group quote g p)

module _ (P : OutcomeEvent → Type 0) where
  abbrev pub OfMembers : Group OutcomeEvent → Type 0
  OfMembers g = All P (members_of g)

  All-last : (xs : List OutcomeEvent) (x : OutcomeEvent) → All P (xs ++ x ∷ []) → All P xs × P x
  All-last [] x h = (tt, h.0)
  All-last (y ∷ ys) x h = (let k = All-last ys x h.1 in ((h.0, k.0), k.1))

  All-append_to :
      (k : String) (x : OutcomeEvent) (gs : List (Group OutcomeEvent))
      → All OfMembers (append_to k x gs)
      → P x × All OfMembers gs
  unfolding append_to
  All-append_to k x [] h = (h.0.0, tt)
  All-append_to k x (g ∷ gs) h = elim (Bool-cases (str_eq g.key k)) [
    | inl e ↦
        let r : All OfMembers (record g { rest = g.rest ++ x ∷ [] } ∷ gs) = rw e at h in
        let l = All-last g.rest x r.0.1 in (l.1, ((r.0.0, l.0), r.1))
    | inr e ↦
        let r : All OfMembers (g ∷ append_to k x gs) = rw e at h in
        let l = All-append_to k x gs r.1 in (l.0, (r.0, l.1))
  ]

  pub All-group_each :
      (quote : String → String) (es : List OutcomeEvent) (gs : List (Group OutcomeEvent))
      → All OfMembers (group_each quote es gs)
      → All P es × All OfMembers gs
  unfolding group_each
  All-group_each quote [] gs h = (tt, h)
  All-group_each quote (e ∷ es) gs h =
      let k = All-group_each quote es (append_to (event_key quote e) e gs) h in
      let l = All-append_to (event_key quote e) e gs k.1 in ((l.0, k.0), l.1)
