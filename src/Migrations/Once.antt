-- ===== src/Migrations/Once.antt =====
-- Every migration runs once: what a run has applied is remembered, and a second run does nothing.
use sealvault.Prelude.{
  ◌≡◌, refl, arith, Text, true, List, [], ◌∷◌, ◌++◌, Option, All, inl, inr, ap, sym, ◌∙◌, subst,
  text_eq_refl, Bool-cases, if◌then◌else◌,
}
use sealvault.Prelude.Result.{ok, Result-cases}
use sealvault.Prelude.Exec.{pure}
use sealvault.Ethereum.{EthImpl}
use sealvault.System.{System, World, App, write}
use sealvault.Wallet.{DataMigration}
use sealvault.Migrations.{
  Migration, versions_of, contains_version, insert_migration, insert_new_migration,
  record_or_roll_back, apply_migration, run_migrations, run_all, list_versions,
}

versions_of-append :
    (ms : List DataMigration) (m : DataMigration)
    → versions_of (ms ++ (m ∷ [])) ≡ versions_of ms ++ (m.version ∷ [])
unfolding versions_of
versions_of-append [] m = refl
versions_of-append (x ∷ ms) m = ap (λ (vs : List Text). x.version ∷ vs) (versions_of-append ms m)

contains_version-append :
    (v : Text) (us vs : List Text)
    → contains_version v us ≡ true
    → contains_version v (us ++ vs) ≡ true
unfolding contains_version
contains_version-append v [] vs h = cc
contains_version-append v (u ∷ us) vs h = ground (arith, contains_version-append v us vs)

contains_version-last : (v : Text) (us : List Text) → contains_version v (us ++ (v ∷ [])) ≡ true
unfolding contains_version
contains_version-last v [] = ground (arith, text_eq_refl v)
contains_version-last v (u ∷ us) = ground (arith, contains_version-last v us)

module _ ⦃sys : System⦄ where
  abbrev pub versions : World → List Text
  versions w = versions_of w.db.wallet.data_migrations

  -- What a migration does not touch: the table that remembers the migrations
  abbrev pub Keeps : Migration → Type 0
  Keeps m = (w : World) → (m.run w).1.db.wallet.data_migrations ≡ w.db.wallet.data_migrations

  abbrev pub Recorded : World → Migration → Type 0
  Recorded w m = contains_version m.version (versions w) ≡ true

module _ ⦃sys : System⦄ ⦃eth : EthImpl⦄ where
  insert_new_migration-versions :
      (version description : Text) (w v : World) (id : Text)
      → insert_new_migration version description w ≡ (ok id, v)
      → versions v ≡ versions w ++ (version ∷ [])
  unfolding insert_new_migration insert_migration write
  insert_new_migration-versions version description w v id h =
      let row : DataMigration = record {
        deterministic_id = id;
        version = version;
        description = description;
        created_at = (sys.os.rfc3339_timestamp w.os).0;
        updated_at = Option.none;
      } in
      let rows : v.db.wallet.data_migrations ≡ w.db.wallet.data_migrations ++ (row ∷ []) =
        ground arith in
      ap versions_of rows ∙ versions_of-append w.db.wallet.data_migrations row

  apply_migration-versions :
      (m : Migration) (w v : World)
      → Keeps m
      → apply_migration m w ≡ (ok tt, v)
      → versions v ≡ versions w ++ (m.version ∷ [])
  unfolding apply_migration record_or_roll_back
  apply_migration-versions m w v keeps h =
      let u : World = (m.run w).1 in
      elim (Result-cases (m.run w).0) [
        | inl (e, x) ↦ absurd (ground arith)
        | inr (a, x) ↦ elim (Result-cases (insert_new_migration m.version m.description u).0) [
          | inl (e, y) ↦ absurd (ground arith)
          | inr (id, y) ↦
              let z : World = (insert_new_migration m.version m.description u).1 in
              let last =
                insert_new_migration-versions m.version m.description u z id (λ i. (y i, z)) in
              let same : versions u ≡ versions w = ap versions_of (keeps w) in
              let end : z ≡ v = ground arith in
              subst (λ (t : World). versions t ≡ versions w ++ (m.version ∷ [])) end
                (last ∙ ap (λ (vs : List Text). vs ++ (m.version ∷ [])) same)
        ]
      ]

  -- One round of the loop: what was recorded stays recorded, and this migration is.
  step-Recorded :
      (applied : List Text) (m : Migration) (w v : World) (x : Text)
      → Keeps m
      → (if contains_version m.version applied then pure tt else apply_migration m) w ≡ (ok tt, v)
      → contains_version x (versions w) ≡ true
      → contains_version x (versions v) ≡ true
  step-Recorded applied m w v x keeps h old =
      elim (Bool-cases (contains_version m.version applied)) [
        | inr absent ↦
            let a : apply_migration m w ≡ (ok tt, v) = ground arith in
            subst (λ (vs : List Text). contains_version x vs ≡ true)
              (sym (apply_migration-versions m w v keeps a))
              (contains_version-append x (versions w) (m.version ∷ []) old)
        | inl present ↦ ground arith
      ]

  step-new :
      (applied : List Text) (m : Migration) (w v : World)
      → Keeps m
      → ((x : Text) → contains_version x applied ≡ true → contains_version x (versions w) ≡ true)
      → (if contains_version m.version applied then pure tt else apply_migration m) w ≡ (ok tt, v)
      → Recorded v m
  step-new applied m w v keeps sub h = elim (Bool-cases (contains_version m.version applied)) [
    | inr absent ↦
        let a : apply_migration m w ≡ (ok tt, v) = ground arith in
        subst (λ (vs : List Text). contains_version m.version vs ≡ true)
          (sym (apply_migration-versions m w v keeps a))
          (contains_version-last m.version (versions w))
    | inl present ↦ step-Recorded applied m w v m.version keeps h (sub m.version present)
  ]

  run_migrations-Recorded :
      (applied : List Text) (ms : List Migration) (w v : World)
      → All Keeps ms
      → ((x : Text) → contains_version x applied ≡ true → contains_version x (versions w) ≡ true)
      → run_migrations applied ms w ≡ (ok tt, v)
      → All (Recorded v) ms
        × ((x : Text)
            → contains_version x (versions w) ≡ true
            → contains_version x (versions v) ≡ true)
  unfolding run_migrations
  run_migrations-Recorded applied [] w v keeps sub h =
      (tt, λ x k. subst (λ (t : World). contains_version x (versions t) ≡ true) (ap (λ p. p.1) h) k)
  run_migrations-Recorded applied (m ∷ ms) w v keeps sub h =
      let one : App (Unit {0}) =
        if contains_version m.version applied then pure tt else apply_migration m in
      let u : World = (one w).1 in
      elim (Result-cases (one w).0) [
        | inl (e, y) ↦ absurd (ground arith)
        | inr (a, y) ↦
            let done : one w ≡ (ok tt, u) = λ i. (y i, u) in
            let grown = λ (x : Text). step-Recorded applied m w u x keeps.0 done in
            let (rest, more) =
              run_migrations-Recorded applied ms u v keeps.1 (λ x k. grown x (sub x k))
                (ground arith) in
            (
              (more m.version (step-new applied m w u keeps.0 sub done), rest),
              λ x k. more x (grown x k),
            )
      ]

  run_migrations-done :
      (ms : List Migration) (w : World)
      → All (Recorded w) ms
      → run_migrations (versions w) ms w ≡ (ok tt, w)
  unfolding run_migrations
  run_migrations-done [] w h = refl
  run_migrations-done (m ∷ ms) w h =
      let rest = run_migrations-done ms w h.1 in
      let here : contains_version m.version (versions w) ≡ true = h.0 in ground arith

  -- After a run that succeeds the version of every migration is in the table, and a second run
  -- succeeds and changes nothing, if no migration writes to that table itself.
  pub run_all-run_all :
      (ms : List Migration) (w v : World)
      → All Keeps ms
      → run_all ms w ≡ (ok tt, v)
      → All (Recorded v) ms × (run_all ms v ≡ (ok tt, v))
  unfolding run_all list_versions
  run_all-run_all ms w v keeps h =
      let (all, grown) = run_migrations-Recorded (versions w) ms w v keeps (λ x k. k) h in
      (all, run_migrations-done ms v all)
