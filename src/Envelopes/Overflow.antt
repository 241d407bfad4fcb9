-- ===== src/Envelopes/Overflow.antt =====
-- The eligible jobs without a card in `render_job_summary` of jobhound/delivery_transport.py. A line
-- is kept as what it says, without its wording.
use job_hound.Base.{
  ℕ, ◌+◌, ◌-◌, String, Bool, ◌||◌, Option, none, some, List, [], ◌∷◌, ◌++◌, leb, str_eq, any,
  length, if◌then◌else◌,
}

abbrev pub overflow_per_employer : ℕ
overflow_per_employer = 5

abbrev pub overflow_email_lines : ℕ
overflow_email_lines = 40

-- An entry of the ledger's `overflow`
pub record Entry : Type 0 where
  pub title : String
  pub company : Option String
  pub host : Option String
  pub source : Option String
  pub url : Option String
  pub band : Option String

-- `a or b` on texts that may be missing
abbrev pub or_text : Option String → String → String
or_text none b = b
or_text (some a) b = if str_eq a "" then b else a

abbrev pub employer_of : Entry → String
employer_of e = or_text e.company (or_text e.host "unknown employer")

-- A dictionary of counts, in the order in which its keys came.
abbrev pub Counts : Type 0
Counts = List (String × ℕ)

unfoldable pub count_of : String → Counts → ℕ
count_of k [] = 0
count_of k ((j, n) ∷ cs) = if str_eq j k then n else count_of k cs

-- `counts[k] = counts.get(k, 0) + 1`
unfoldable pub bump : String → Counts → Counts
bump k [] = (k, 1) ∷ []
bump k ((j, n) ∷ cs) = if str_eq j k then (j, n + 1) ∷ cs else (j, n) ∷ bump k cs

unfoldable pub has_key : String → Counts → Bool
has_key k cs = any (λ c. str_eq c.0 k) cs

-- What a line of the email says.
pub data Line : Type 0 where
  job : Entry → Line
  more_from : ℕ → String → Line
  in_audit : ℕ → Line

pub record Listing : Type 0 where
  pub per_employer : Counts
  pub hidden : Counts
  pub shown : ℕ
  pub lines : List Line

abbrev pub is_full : Entry → Listing → Bool
is_full e l =
    leb overflow_per_employer (count_of (employer_of e) l.per_employer)
    || leb overflow_email_lines l.shown

unfoldable pub list_entry : Listing → Entry → Listing
unfolding bump count_of
list_entry l e =
    if is_full e l then record l { hidden = bump (employer_of e) l.hidden } else record {
      per_employer = bump (employer_of e) l.per_employer;
      hidden = l.hidden;
      shown = l.shown + 1;
      lines = l.lines ++ Line.job e ∷ [];
    }

unfoldable pub list_each : Listing → List Entry → Listing
unfolding list_entry
list_each l [] = l
list_each l (e ∷ es) = list_each (list_entry l e) es

-- A line for each employer that has a job listed and others hidden.
unfoldable pub named_lines : Counts → Counts → List Line
unfolding has_key
named_lines per [] = []
named_lines per ((k, n) ∷ cs) =
    let rest = named_lines per cs in if has_key k per then Line.more_from n k ∷ rest else rest

-- `sum(n for e, n in hidden.items() if e not in per_employer)`
unfoldable pub others : Counts → Counts → ℕ
unfolding has_key
others per [] = 0
others per ((k, n) ∷ cs) = let rest = others per cs in if has_key k per then rest else n + rest

abbrev pub no_listing : Listing
no_listing = record { per_employer = []; hidden = []; shown = 0; lines = [] }

-- `listed - len(overflow)`, of an audit that lists each job of the overflow
abbrev pub unlisted : ℕ → List Entry → ℕ
unlisted listed overflow = listed - length overflow

abbrev pub audit_line : ℕ → List Line
audit_line n = if leb 1 n then Line.in_audit n ∷ [] else []

-- The lines below "Also eligible (not carded)", of which there are none without an overflow.
unfoldable pub overflow_lines : ℕ → List Entry → List Line
unfolding list_each named_lines others
overflow_lines listed [] = []
overflow_lines listed (entry ∷ entries) =
    let overflow = entry ∷ entries in
    let l = list_each no_listing overflow in
    l.lines
    ++ named_lines l.per_employer l.hidden
    ++ audit_line (others l.per_employer l.hidden + unlisted listed overflow)
