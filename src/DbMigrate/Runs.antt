-- ===== src/DbMigrate/Runs.antt =====
-- The three functions of core/internal/dbmigrate/migrate.go together: the migrators that they leave
-- open, and the gate after a run.
use id_core.Prelude.{
  ℕ, suc, Bool, Option, none, some, Option-cases, ◌≡◌, ◌≢◌, ◌⊎◌, inl, inr, refl, sym, ap, ◌∙◌,
  subst,
}
use id_core.Go.Bytes.{Bytes, bytes}
use id_core.Go.Context.{Context}
use id_core.DbMigrate.{
  Outcome, applied, no_change, failed, Version, Migrator, MigrateError, not_opened, up_failed,
  down_failed, Job, validate_args, close_migrator, with_migrator, after_run, run_up, run_down,
  assert_clean,
}
use id_core.DbMigrate.Gate.{
  IsClean, validate_args_iff, after_version-state, close_migrator-state, assert_clean_iff,
}

-- The contract of golang-migrate on the number of open migrators.
pub record CountsMigrators (m : Migrator) (migrators : m.State → ℕ) : Type 0 where
  pub opened :
      (source dsn : Bytes) (s : m.State)
      → (m.open_migrator source dsn s).0 ≡ none
      → migrators (m.open_migrator source dsn s).1 ≡ suc (migrators s)
  pub not_opened :
      (source dsn e : Bytes) (s : m.State)
      → (m.open_migrator source dsn s).0 ≡ some e
      → migrators (m.open_migrator source dsn s).1 ≡ migrators s
  pub upped : (s : m.State) → migrators (m.up s).1 ≡ migrators s
  pub stepped : (s : m.State) → migrators (m.step_down s).1 ≡ migrators s
  pub read : (s : m.State) → migrators (m.version s).1 ≡ migrators s
  pub closed : (s : m.State) (n : ℕ) → migrators s ≡ suc n → migrators (m.close s).2 ≡ n

-- The contract on the version that the database holds. A run of Up that has not failed leaves a
-- version that is not dirty.
pub record KeepsSchema (m : Migrator) (schema : m.State → Version) : Type 0 where
  pub opened :
      (source dsn : Bytes) (s : m.State) → schema (m.open_migrator source dsn s).1 ≡ schema s
  pub closed : (s : m.State) → schema (m.close s).2 ≡ schema s
  pub read : (s : m.State) → (m.version s).0 ≡ schema s
  pub upped :
      (s : m.State)
      → ((m.up s).0 ≡ applied) ⊎ ((m.up s).0 ≡ no_change)
      → IsClean (schema (m.up s).1)

differ : (e : MigrateError) → some e ≢ none
differ e h = cc

module _ (m : Migrator) (ctx : Context) where
  after_run-state :
      (message : Bytes) (wrapped : Bytes → MigrateError) (o : Outcome) (t : Job m.State)
      → (after_run m ctx message wrapped o t).1.state ≡ t.state
  after_run-state message wrapped applied t = refl
  after_run-state message wrapped no_change t = refl
  after_run-state message wrapped (failed e) t = refl

  after_run-none :
      (message : Bytes) (wrapped : Bytes → MigrateError) (o : Outcome) (t : Job m.State)
      → (after_run m ctx message wrapped o t).0 ≡ none
      → (o ≡ applied) ⊎ (o ≡ no_change)
  after_run-none message wrapped applied t h = inl refl
  after_run-none message wrapped no_change t h = inr refl
  after_run-none message wrapped (failed e) t h = cc

  module _ (work : Job m.State → Option MigrateError × Job m.State) (dsn source : Bytes)
      (nil_log : Bool) (t : Job m.State) where
    -- The job with the migrator opened.
    abbrev started : Job m.State
    started = record t { state = (m.open_migrator source dsn t.state).1 }

    refused_arguments :
        (e : MigrateError)
        → validate_args dsn source nil_log ≡ some e
        → with_migrator m ctx work dsn source nil_log t ≡ (some e, t)
    unfolding with_migrator
    refused_arguments e wrong = rw (wrong, with_migrator) refl

    pub refused_opening :
        (e : Bytes)
        → validate_args dsn source nil_log ≡ none
        → (m.open_migrator source dsn t.state).0 ≡ some e
        → with_migrator m ctx work dsn source nil_log t ≡ (some (not_opened e), started)
    unfolding with_migrator
    refused_opening e fine refused = rw (fine, refused, with_migrator) refl

    pub worked :
        validate_args dsn source nil_log ≡ none
        → (m.open_migrator source dsn t.state).0 ≡ none
        → with_migrator m ctx work dsn source nil_log t
          ≡ ((work started).0, close_migrator m ctx (work started).1)
    unfolding with_migrator
    worked fine open_now = rw (fine, open_now, with_migrator) refl

    -- A run that gives no error has gone through all of its steps.
    with_migrator-none :
        (with_migrator m ctx work dsn source nil_log t).0 ≡ none
        → (validate_args dsn source nil_log ≡ none)
          × ((work started).0 ≡ none)
          × ((with_migrator m ctx work dsn source nil_log t).1.state
              ≡ (m.close (work started).1.state).2)
    with_migrator-none h = elim (Option-cases (validate_args dsn source nil_log)) [
      | inl fine ↦ elim (Option-cases (m.open_migrator source dsn t.state).0) [
        | inl open_now ↦
            (let eq = worked fine open_now in
              (
                fine,
                sym (ap (λ r. r.0) eq) ∙ h,
                ap (λ r. r.1.state) eq ∙ close_migrator-state m ctx (work started).1,
              ))
        | inr (e, refused) ↦
            absurd
              (differ (not_opened e) (sym (ap (λ r. r.0) (refused_opening e fine refused)) ∙ h))
      ]
      | inr (e, wrong) ↦ absurd (differ e (sym (ap (λ r. r.0) (refused_arguments e wrong)) ∙ h))
    ]

  module _ (migrators : m.State → ℕ) (counts : CountsMigrators m migrators) where
    with_migrator_balanced :
        (work : Job m.State → Option MigrateError × Job m.State) (dsn source : Bytes)
        (nil_log : Bool) (t : Job m.State)
        → ((u : Job m.State) → migrators (work u).1.state ≡ migrators u.state)
        → migrators (with_migrator m ctx work dsn source nil_log t).1.state ≡ migrators t.state
    with_migrator_balanced work dsn source nil_log t keeps =
        elim (Option-cases (validate_args dsn source nil_log)) [
          | inl fine ↦ elim (Option-cases (m.open_migrator source dsn t.state).0) [
            | inl open_now ↦
                ap (λ r. migrators r.1.state) (worked work dsn source nil_log t fine open_now)
                ∙ ap migrators (close_migrator-state m ctx _)
                ∙ counts.closed _ (migrators t.state)
                    (keeps _ ∙ counts.opened source dsn t.state open_now)
            | inr (e, refused) ↦
                ap (λ r. migrators r.1.state)
                  (refused_opening work dsn source nil_log t e fine refused)
                ∙ counts.not_opened source dsn e t.state refused
          ]
          | inr (e, wrong) ↦
              ap (λ r. migrators r.1.state) (refused_arguments work dsn source nil_log t e wrong)
        ]

    -- RunUp, RunDown and AssertClean leave as many migrators open as before, on every path: with wrong
    -- arguments, when the migrator does not open, when the work fails, and when it succeeds. It
    -- supposes the contract of golang-migrate on the number of open migrators.
    pub runs_balanced :
        (dsn source : Bytes) (nil_log : Bool) (t : Job m.State)
        → (migrators (run_up m ctx dsn source nil_log t).1.state ≡ migrators t.state)
          × (migrators (run_down m ctx dsn source nil_log t).1.state ≡ migrators t.state)
          × (migrators (assert_clean m ctx dsn source nil_log t).1.state ≡ migrators t.state)
    unfolding run_up run_down assert_clean
    runs_balanced dsn source nil_log t = (
      with_migrator_balanced _ dsn source nil_log t (λ u.
          ap migrators (after_run-state (bytes "migrate up に失敗しました") up_failed (m.up u.state).0 _)
          ∙ counts.upped u.state),
      with_migrator_balanced _ dsn source nil_log t (λ u.
          ap migrators
            (after_run-state (bytes "migrate down に失敗しました") down_failed (m.step_down u.state).0 _)
          ∙ counts.stepped u.state),
      with_migrator_balanced _ dsn source nil_log t (λ u.
          ap migrators (after_version-state m ctx (m.version u.state).0 _) ∙ counts.read u.state),
    )

-- After a RunUp that gives no error, AssertClean lets the service start, if the migrator opens once
-- more. It supposes the contract of golang-migrate on the version: what Version reads is what the
-- database holds, opening and closing leave it alone, and an Up that has not failed leaves it clean.
pub run_up-assert_clean :
    (m : Migrator) (ctx : Context) (schema : m.State → Version)
    → KeepsSchema m schema
    → (dsn source : Bytes) (nil_log : Bool) (t : Job m.State)
    → (run_up m ctx dsn source nil_log t).0 ≡ none
    → (m.open_migrator source dsn (run_up m ctx dsn source nil_log t).1.state).0 ≡ none
    → (assert_clean m ctx dsn source nil_log (run_up m ctx dsn source nil_log t).1).0 ≡ none
unfolding run_up
run_up-assert_clean m ctx schema keeps dsn source nil_log t ran opens =
    let (fine, worked_out, end) = with_migrator-none m ctx _ dsn source nil_log t ran in
    let (has_log, has_dsn, has_source) = (validate_args_iff dsn source nil_log).0 fine in
    let up = m.up (m.open_migrator source dsn t.state).1 in
    let after = (run_up m ctx dsn source nil_log t).1 in
    let left : schema after.state ≡ schema up.1 =
      ap schema end ∙ keeps.closed _ ∙ ap schema (after_run-state m ctx _ up_failed up.0 _) in
    let clean =
      keeps.upped (m.open_migrator source dsn t.state).1
        (after_run-none m ctx _ up_failed up.0 _ worked_out) in
    let seen =
      keeps.read (m.open_migrator source dsn after.state).1
      ∙ keeps.opened source dsn after.state
      ∙ left in
    subst (λ b. (assert_clean m ctx dsn source b after).0 ≡ none) (sym has_log)
      ((assert_clean_iff m ctx dsn source after has_dsn has_source opens).0.1
        (subst IsClean (sym seen) clean))
