-- ===== src/Envelopes/Counted.antt =====
-- The email accounts for every eligible job without a card.
use job_hound.Base.{
  ℕ, ◌+◌, ◌≤◌, ◌≡◌, refl, String, List, [], ◌∷◌, ◌++◌, length, arith, Bool-cases, inl, inr,
}
use job_hound.Envelopes.Overflow.{
  Entry, employer_of, Counts, bump, has_key, Line, Listing, is_full, list_entry, list_each,
  named_lines, others, no_listing, unlisted, audit_line, overflow_lines,
}

-- The jobs that a line stands for.
abbrev pub jobs_of : Line → ℕ
jobs_of (Line.job e) = 1
jobs_of (Line.more_from n k) = n
jobs_of (Line.in_audit n) = n

unfoldable pub jobs : List Line → ℕ
jobs [] = 0
jobs (l ∷ ls) = jobs_of l + jobs ls

unfoldable sum_counts : Counts → ℕ
sum_counts [] = 0
sum_counts ((k, n) ∷ cs) = n + sum_counts cs

jobs-append : (ks ls : List Line) → jobs (ks ++ ls) ≡ jobs ks + jobs ls
unfolding jobs
jobs-append [] ls = omega arith
jobs-append (k ∷ ks) ls = let h = jobs-append ks ls in omega (arith, h)

sum-bump : (k : String) (cs : Counts) → sum_counts (bump k cs) ≡ sum_counts cs + 1
unfolding sum_counts bump
sum-bump k [] = refl
sum-bump k ((j, n) ∷ cs) = let h = sum-bump k cs in ground arith

-- Each job that was met is listed or hidden.
list_entry-jobs :
    (l : Listing) (e : Entry)
    → jobs (list_entry l e).lines + sum_counts (list_entry l e).hidden
      ≡ jobs l.lines + sum_counts l.hidden + 1
unfolding list_entry jobs
list_entry-jobs l e = elim (Bool-cases (is_full e l)) [
  | inl f ↦ (let h = sum-bump (employer_of e) l.hidden in rw (f, h) (omega arith))
  | inr f ↦ rw (f, jobs-append l.lines (Line.job e ∷ [])) (omega arith)
]

list_each-jobs :
    (l : Listing) (es : List Entry)
    → jobs (list_each l es).lines + sum_counts (list_each l es).hidden
      ≡ jobs l.lines + sum_counts l.hidden + length es
unfolding list_each
list_each-jobs l [] = omega arith
list_each-jobs l (e ∷ es) =
    let h = list_each-jobs (list_entry l e) es in let k = list_entry-jobs l e in omega (arith, h, k)

named-others : (per cs : Counts) → jobs (named_lines per cs) + others per cs ≡ sum_counts cs
unfolding jobs named_lines others sum_counts
named-others per [] = refl
named-others per ((k, n) ∷ cs) =
    let h = named-others per cs in
    elim (Bool-cases (has_key k per)) [
      | inl e ↦ rw e (omega (arith, h))
      | inr e ↦ rw e (omega (arith, h))
    ]

audit-jobs : (n : ℕ) → jobs (audit_line n) ≡ n
unfolding jobs
audit-jobs n = ground arith

-- For an overflow that is not empty and an audit that lists at least its jobs, the lines of the email
-- below "Also eligible" stand for exactly the jobs that the audit lists: each is on a line of its own, in
-- the rest of its employer, or in the count that points to the audit.
pub overflow_lines-jobs :
    (listed : ℕ) (overflow : List Entry)
    → 1 ≤ length overflow
    → length overflow ≤ listed
    → jobs (overflow_lines listed overflow) ≡ listed
unfolding overflow_lines jobs sum_counts
overflow_lines-jobs listed [] some_job within = absurd (omega (arith, some_job))
overflow_lines-jobs listed (entry ∷ entries) some_job within =
    let overflow = entry ∷ entries in
    let l = list_each no_listing overflow in
    let n = others l.per_employer l.hidden + unlisted listed overflow in
    let a = list_each-jobs no_listing overflow in
    let b = named-others l.per_employer l.hidden in
    let c = audit-jobs n in
    let named = named_lines l.per_employer l.hidden in
    let d = jobs-append (l.lines ++ named) (audit_line n) in
    let e = jobs-append l.lines named in omega (arith, a, b, c, d, e, within)
