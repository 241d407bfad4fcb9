-- ===== src/Envelopes/Listed.antt =====
-- The bounds on the jobs without a card that have a line of their own.
use job_hound.Base.{
  count-append, count-snoc, ℕ, ◌+◌, ◌≤◌, ◌≡◌, refl, sym, subst, String, Bool, true, false, List, [],
  ◌∷◌, ◌++◌, leb, str_eq, str_eq_iff, count, if◌then◌else◌, arith, Bool-cases, inl, inr, or-false,
}
use job_hound.Envelopes.Overflow.{
  Entry, employer_of, Counts, count_of, bump, has_key, Line, Listing, is_full, list_entry,
  list_each, named_lines, others, no_listing, unlisted, audit_line, overflow_lines,
  overflow_per_employer, overflow_email_lines,
}

abbrev pub is_job : Line → Bool
is_job (Line.job e) = true
is_job _ = false

abbrev pub is_job_of : String → Line → Bool
is_job_of k (Line.job e) = str_eq (employer_of e) k
is_job_of k _ = false

count_of-bump :
    (j k : String) (cs : Counts)
    → count_of k (bump j cs) ≡ count_of k cs + (if str_eq j k then 1 else 0)
unfolding count_of bump
count_of-bump j k [] = ground arith
count_of-bump j k ((i, n) ∷ cs) =
    let h = count_of-bump j k cs in
    elim (Bool-cases (str_eq i j)) [
      | inl same ↦ (let e = (str_eq_iff i j).0 same in rw (same, e) (ground arith))
      | inr apart ↦ elim (Bool-cases (str_eq i k)) [
        | inl here ↦
            let e = (str_eq_iff i k).0 here in
            let other : str_eq j k ≡ false =
              subst (λ x. str_eq j x ≡ false) e (str_eq-false_sym i j apart) in
            rw (apart, here, other) (omega arith)
        | inr there ↦ rw (apart, there) h
      ]
    ]
  where
    str_eq-false_sym : (a b : String) → str_eq a b ≡ false → str_eq b a ≡ false
    str_eq-false_sym a b h = elim (Bool-cases (str_eq b a)) [
      | inr e ↦ e
      | inl e ↦ (let q = (str_eq_iff a b).1 (sym ((str_eq_iff b a).0 e)) in cc)
    ]

-- The tallies count the lines, within their bounds.
record IsTallied (l : Listing) : Type 0 where
  shown_lines : count is_job l.lines ≡ l.shown
  shown_bound : l.shown ≤ overflow_email_lines
  employer_lines : (k : String) → count (is_job_of k) l.lines ≡ count_of k l.per_employer
  employer_bound : (k : String) → count_of k l.per_employer ≤ overflow_per_employer

bump_bound :
    (j k : String) (cs : Counts)
    → leb overflow_per_employer (count_of j cs) ≡ false
    → count_of k cs ≤ overflow_per_employer
    → count_of k (bump j cs) ≤ overflow_per_employer
bump_bound j k cs room h = elim (Bool-cases (str_eq j k)) [
  | inl e ↦
      let g = count_of-bump j k cs in
      let r =
        subst (λ x. leb overflow_per_employer (count_of x cs) ≡ false) ((str_eq_iff j k).0 e)
          room in
      rw (g, e) (ground arith)
  | inr e ↦ (let g = count_of-bump j k cs in rw (g, e) (omega (arith, h)))
]

list_entry-IsTallied : (l : Listing) (e : Entry) → IsTallied l → IsTallied (list_entry l e)
unfolding list_entry
list_entry-IsTallied l e h = elim (Bool-cases (is_full e l)) [
  | inl f ↦ rw f (record {
    shown_lines = h.shown_lines;
    shown_bound = h.shown_bound;
    employer_lines = h.employer_lines;
    employer_bound = h.employer_bound;
  })
  | inr f ↦
      let (a, b) =
        or-false (leb overflow_per_employer (count_of (employer_of e) l.per_employer)) _ f in
      rw f (record {
        shown_lines =
            (let c = count-snoc is_job l.lines (Line.job e) in
              let d = h.shown_lines in omega (arith, c, d));
        shown_bound = ground arith;
        employer_lines = λ k.
            (let c = count-snoc (is_job_of k) l.lines (Line.job e) in
              let d = h.employer_lines k in
              let g = count_of-bump (employer_of e) k l.per_employer in omega (arith, c, d, g));
        employer_bound = λ k. bump_bound (employer_of e) k l.per_employer a (h.employer_bound k);
      })
]

list_each-IsTallied : (l : Listing) (es : List Entry) → IsTallied l → IsTallied (list_each l es)
unfolding list_each
list_each-IsTallied l [] h = h
list_each-IsTallied l (e ∷ es) h =
    list_each-IsTallied (list_entry l e) es (list_entry-IsTallied l e h)

listing-IsTallied : (overflow : List Entry) → IsTallied (list_each no_listing overflow)
unfolding count_of
listing-IsTallied overflow = list_each-IsTallied no_listing overflow (record {
  shown_lines = refl;
  shown_bound = omega arith;
  employer_lines = λ k. refl;
  employer_bound = λ k. omega arith;
})

-- The lines that count jobs list none.
named-no_job :
    (p : Line → Bool)
    → ((n : ℕ) (k : String) → p (Line.more_from n k) ≡ false)
    → (per cs : Counts) → count p (named_lines per cs) ≡ 0
unfolding named_lines
named-no_job p silent per [] = refl
named-no_job p silent per ((k, n) ∷ cs) =
    let h = named-no_job p silent per cs in
    elim (Bool-cases (has_key k per)) [ inl e ↦ rw (e, silent n k) h | inr e ↦ rw e h ]

listed_jobs :
    (p : Line → Bool) (listed : ℕ) (overflow : List Entry)
    → ((n : ℕ) (k : String) → p (Line.more_from n k) ≡ false)
    → ((n : ℕ) → p (Line.in_audit n) ≡ false)
    → count p (overflow_lines listed overflow) ≡ count p (list_each no_listing overflow).lines
unfolding overflow_lines list_each
listed_jobs p listed [] more audit = refl
listed_jobs p listed (entry ∷ entries) more audit =
    let overflow = entry ∷ entries in
    let l = list_each no_listing overflow in
    let n = others l.per_employer l.hidden + unlisted listed overflow in
    let named = named_lines l.per_employer l.hidden in
    let a = count-append p (l.lines ++ named) (audit_line n) in
    let b = count-append p l.lines named in
    let c = named-no_job p more l.per_employer l.hidden in
    let d = no_audit n in omega (arith, a, b, c, d)
  where
    no_audit : (n : ℕ) → count p (audit_line n) ≡ 0
    no_audit n = elim (Bool-cases (leb 1 n)) [ inl e ↦ rw (e, audit n) refl | inr e ↦ rw e refl ]

-- The email gives a line of its own to at most forty jobs without a card, and to at most five of any
-- one employer.
pub overflow_lines_bounds :
    (listed : ℕ) (overflow : List Entry) (employer : String)
    → (count is_job (overflow_lines listed overflow) ≤ 40)
      × (count (is_job_of employer) (overflow_lines listed overflow) ≤ 5)
overflow_lines_bounds listed overflow employer =
    let t = listing-IsTallied overflow in
    let a = listed_jobs is_job listed overflow (λ n k. refl) (λ n. refl) in
    let b = listed_jobs (is_job_of employer) listed overflow (λ n k. refl) (λ n. refl) in
    let c = t.shown_lines in
    let d = t.shown_bound in
    let e = t.employer_lines employer in
    let f = t.employer_bound employer in (omega (arith, a, c, d), omega (arith, b, e, f))
