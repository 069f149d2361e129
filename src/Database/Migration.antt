-- ===== src/Database/Migration.antt =====
-- Migrate of internal/storage/db.go: the files are applied in order up to the first fault, and only
-- those before it.
use optionx_assignment.Common.{
  String, List, [], ◌∷◌, ◌++◌, subst, Option, none, some, ◌≡◌, refl, sym, ◌∙◌, ap, inl, inr,
  Option-cases,
}
use optionx_assignment.Database.{
  TxFault, DirEntry, Host, MigrationError, no_dir, no_file, in_transaction, after_transaction,
  migrate_files, migrate, sql_names,
}

module _ {ℓ} {D : Type ℓ} (h : Host D) where
  -- These files were applied to the first database, in order and with no fault, and gave the second.
  pub data Applied : D → List String → D → Type ℓ where
    nothing : {d : D} → Applied d [] d
    next :
        {d d' : D} {name contents : String} {names : List String}
        → h.read_file name ≡ some contents
        → (h.transact contents d).0 ≡ none
        → Applied (h.transact contents d).1 names d'
        → Applied d (name ∷ names) d'

  -- The error that stops at a file: it cannot be read, or its transaction fails on this database.
  pub data StopsAt (d : D) (name : String) : MigrationError → Type 0 where
    unread : h.read_file name ≡ none → StopsAt d name (no_file name)
    failed :
        {contents : String} {f : TxFault}
        → h.read_file name ≡ some contents
        → (h.transact contents d).0 ≡ some f
        → StopsAt d name (in_transaction f name)

  -- A run of Migrate that stopped: the files before one are applied, and that one and the later are not.
  pub record Stopped (d : D) (names : List String) (d' : D) (e : MigrationError) : Type ℓ where
    pub before : List String
    pub name : String
    pub after : List String
    pub split : names ≡ before ++ (name ∷ after)
    pub applied : Applied d before d'
    pub stops : StopsAt d' name e

  -- What a run of Migrate over these files ends in.
  abbrev pub Outcome : D → List String → D × Option MigrationError → Type ℓ
  Outcome d names (d', none) = Applied d names d'
  Outcome d names (d', some e) = Stopped d names d' e

  -- A transaction that fails leaves the database as it was.
  abbrev pub AllOrNothing : Type ℓ
  AllOrNothing =
      (contents : String) (d : D) (f : TxFault)
      → (h.transact contents d).0 ≡ some f
      → (h.transact contents d).1 ≡ d

  Outcome-next :
      (d : D) (name contents : String) (names : List String) (o : D × Option MigrationError)
      → h.read_file name ≡ some contents
      → (h.transact contents d).0 ≡ none
      → Outcome (h.transact contents d).1 names o
      → Outcome d (name ∷ names) o
  Outcome-next d name contents names (d', none) r t a = next r t a
  Outcome-next d name contents names (d', some e) r t s = record {
    before = name ∷ s.before;
    name = s.name;
    after = s.after;
    split = ap (λ xs. name ∷ xs) s.split;
    applied = next r t s.applied;
    stops = s.stops;
  }

  Stopped-first :
      (d : D) (name : String) (names : List String) (e : MigrationError)
      → StopsAt d name e
      → Stopped d (name ∷ names) d e
  Stopped-first d name names e s = record {
    before = [];
    name = name;
    after = names;
    split = refl;
    applied = nothing;
    stops = s;
  }

  migrate_files-read :
      (d : D) (name contents : String) (names : List String)
      → h.read_file name ≡ some contents
      → migrate_files h (name ∷ names) d
        ≡ after_transaction h name (h.transact contents d) (λ d'. migrate_files h names d')
  unfolding migrate_files
  migrate_files-read d name contents names r = rw (migrate_files, r) refl

  after_transaction-none :
      (name : String) (t : Option TxFault × D) (k : D → D × Option MigrationError)
      → t.0 ≡ none
      → after_transaction h name t k ≡ k t.1
  after_transaction-none name (o, d) k e = rw e refl

  after_transaction-some :
      (name : String) (f : TxFault) (t : Option TxFault × D) (k : D → D × Option MigrationError)
      → t.0 ≡ some f
      → after_transaction h name t k ≡ (t.1, some (in_transaction f name))
  after_transaction-some name f (o, d) k e = rw e refl

  migrate_files-Outcome :
      AllOrNothing → (names : List String) (d : D) → Outcome d names (migrate_files h names d)
  unfolding migrate_files
  migrate_files-Outcome law [] d = nothing
  migrate_files-Outcome law (name ∷ names) d = elim (Option-cases (h.read_file name)) [
    | inl r ↦
        let e : migrate_files h (name ∷ names) d ≡ (d, some (no_file name)) =
          rw (migrate_files, r) refl in
        subst (λ o. Outcome d (name ∷ names) o) (sym e)
          (Stopped-first d name names (no_file name) (unread r))
    | inr (contents, r) ↦
        let t = h.transact contents d in
        let k : D → D × Option MigrationError = λ d'. migrate_files h names d' in
        elim (Option-cases t.0) [
          | inl ok ↦
              subst (λ o. Outcome d (name ∷ names) o)
                (sym
                  (migrate_files-read d name contents names r ∙ after_transaction-none name t k ok))
                (Outcome-next d name contents names (k t.1) r ok
                  (migrate_files-Outcome law names t.1))
          | inr (f, bad) ↦
              subst (λ o. Outcome d (name ∷ names) o)
                (sym (
                  migrate_files-read d name contents names r
                  ∙ after_transaction-some name f t k bad
                  ∙ ap (λ d'. (d', some (in_transaction f name))) (law contents d f bad)))
                (Stopped-first d name names (in_transaction f name) (failed r bad))
        ]
  ]

  -- What Migrate promises: with no directory it changes nothing and says so, and else the files that it
  -- has to apply have such an outcome.
  abbrev pub Promise : D → Option (List DirEntry) → D × Option MigrationError → Type ℓ
  Promise d none o = o ≡ (d, some no_dir)
  Promise d (some entries) o = Outcome d (h.sort (sql_names entries)) o

  -- If a failing transaction leaves the database as it was, then Migrate applies each .sql file of the
  -- directory in sorted order and reports no error; or it reports an error that names a file, which
  -- cannot be read or whose transaction fails, with every file before it applied and no other; or
  -- there is no directory and nothing changes.
  pub migrate-Promise : AllOrNothing → (d : D) → Promise d h.read_dir (migrate h d)
  unfolding migrate
  migrate-Promise law d = elim (Option-cases h.read_dir) [
    | inl r ↦
        let e : migrate h d ≡ (d, some no_dir) = rw r refl in
        subst (λ o. Promise d o (migrate h d)) (sym r) e
    | inr (entries, r) ↦
        let names = h.sort (sql_names entries) in
        let e : migrate h d ≡ migrate_files h names d = rw r refl in
        subst (λ o. Promise d o (migrate h d)) (sym r)
          (subst (λ o. Outcome d names o) (sym e) (migrate_files-Outcome law names d))
  ]
