-- ===== src/Outbox/Identity.antt =====
-- `identifier`, `subject`, `register_alias` and `register_legacy_crosswalk` of
-- jobhound/delivery_outbox.py.
use job_hound.Base.{
  ℕ, String, Bool, true, false, not, ◌&&◌, ◌||◌, Option, none, some, List, [], ◌∷◌, ◌++◌, ◌==◌, ltb,
  leb, str_eq, codes, length, find?, any, all, filter, if◌then◌else◌,
}
use job_hound.Outbox.Rows.{Owner, same_owner, Alias, Legacy, Db}
use job_hound.Outbox.Monad.{
  Action, ⊤, pure, gets, ◌>>=◌, ◌>>◌, raise_if, modify, transaction, Error,
}
use job_hound.Outbox.Queries.{is_alias, is_subject}

-- The characters that `str.strip` removes.
unfoldable pub is_space : ℕ → Bool
is_space c =
    (leb 9 c && leb c 13)
    || (leb 28 c && leb c 32)
    || c == 133
    || c == 160
    || c == 5760
    || (leb 8192 c && leb c 8202)
    || c == 8232
    || c == 8233
    || c == 8239
    || c == 8287
    || c == 12288

unfoldable pub is_identifier : String → Bool
unfolding is_space
is_identifier value =
    let cs = codes value in
    not (all is_space cs) && leb (length cs) 512 && not (any (λ c. ltb c 32) cs)

-- `identifier`
abbrev pub identifier : String → Action ⊤
identifier value = raise_if (not (is_identifier value)) Error.invalid_identifier

abbrev pub alias_target : String → Option Alias → String
alias_target identity none = identity
alias_target identity (some a) = a.subject

-- The stream that an identity stands for.
abbrev pub subject_of : Owner → String → Db → String
subject_of o identity db = alias_target identity (find? (is_alias o identity) db.aliases)

-- `subject`
unfoldable pub subject : Owner → String → Action String
subject o canonical_id = do identifier canonical_id; gets (subject_of o canonical_id)

abbrev pub is_tracked : Owner → String → Db → Bool
is_tracked o name db = any (is_subject o name) db.subjects

-- INSERT INTO delivery_aliases, whose primary key is the owner and the alias.
abbrev pub insert_alias : Owner → String → String → String → Action ⊤
insert_alias o alias target evidence = do
  raise_if (← gets (λ db. any (is_alias o alias) db.aliases)) Error.integrity_error
  modify λ db. record db {
    aliases =
        db.aliases
        ++ record { owner = o; alias = alias; subject = target; evidence = evidence } ∷ [];
  }

unfoldable pub register_alias_body : Owner → String → String → String → Action ⊤
unfolding subject
register_alias_body o old_id new_id evidence = do
  target ← subject o old_id
  identifier new_id
  raise_if (str_eq target new_id) Error.self_or_cyclic_alias
  current ← gets (is_tracked o target)
  occupied ← gets (is_tracked o new_id)
  new_target ← subject o new_id
  raise_if (not current || occupied || not (str_eq new_target new_id)) Error.ambiguous_identity
  insert_alias o new_id target evidence

-- `register_alias`
unfoldable pub register_alias : Owner → String → String → String → Action ⊤
unfolding register_alias_body transaction
register_alias o old_id new_id evidence = do
  identifier evidence
  transaction (register_alias_body o old_id new_id evidence)

abbrev pub is_legacy_of : Owner → String → Legacy → Bool
is_legacy_of o name l = same_owner l.owner o && str_eq l.subject name

-- INSERT OR IGNORE INTO delivery_legacy, whose primary key is the owner, subject and channel.
unfoldable pub insert_legacy : Owner → String → String → String → List Legacy → List Legacy
insert_legacy o name channel evidence ls =
    if any (λ l. is_legacy_of o name l && str_eq l.channel channel) ls
    then ls
    else ls ++ record { owner = o; subject = name; channel = channel; evidence = evidence } ∷ []

unfoldable pub copy_legacy : Owner → String → List Legacy → List Legacy → List Legacy
unfolding insert_legacy
copy_legacy o new_id [] ls = ls
copy_legacy o new_id (row ∷ rows) ls =
    copy_legacy o new_id rows (insert_legacy o new_id row.channel row.evidence ls)

-- What makes `register_legacy_crosswalk` return False after its checks of the texts.
unfoldable pub crosswalk_skipped : Owner → String → String → Db → Bool
crosswalk_skipped o old_id new_id db =
    str_eq old_id new_id
    || any (is_alias o old_id) db.aliases
    || not (str_eq (subject_of o old_id db) old_id)
    || not (str_eq (subject_of o new_id db) new_id)
    || is_tracked o old_id db
    || is_tracked o new_id db
    || not (any (is_legacy_of o old_id) db.legacy)

unfoldable pub move_holds : Owner → String → String → Db → Db
unfolding copy_legacy
move_holds o old_id new_id db = record db {
  legacy =
      filter (λ l. not (is_legacy_of o old_id l))
        (copy_legacy o new_id (filter (is_legacy_of o old_id) db.legacy) db.legacy);
}

-- `register_legacy_crosswalk`
unfoldable pub register_legacy_crosswalk : Owner → String → String → String → Action Bool
unfolding crosswalk_skipped move_holds
register_legacy_crosswalk o old_id new_id evidence = do
  identifier old_id
  identifier new_id
  identifier evidence
  skipped ← gets (crosswalk_skipped o old_id new_id)
  if skipped then pure false else (do
    insert_alias o old_id new_id evidence
    modify (move_holds o old_id new_id)
    pure true)
