-- ===== src/DbMigrate/Gate.antt =====
-- When the start gate lets the service start.
use id_core.Prelude.{Bool, true, false, none, [], ◌∷◌, ◌≡◌, ◌≢◌, ◌↔◌, refl, ap, ◌∙◌}
use id_core.Go.Bytes.{Bytes, is_empty}
use id_core.Go.Context.{Context}
use id_core.DbMigrate.{
  Migrator, Job, close_migrator, Version, at_version, nil_version, unknown, validate_args,
  with_migrator, after_version, assert_clean,
}

-- A version that the gate accepts: clean, or none yet.
abbrev pub IsClean : Version → Type 0
IsClean (at_version n b) = b ≡ false
IsClean nil_version = Unit
IsClean (unknown e) = ⊥

pub validate_args_iff :
    (dsn source : Bytes) (nil_log : Bool)
    → (validate_args dsn source nil_log ≡ none) ↔ ((nil_log ≡ false) × (dsn ≢ []) × (source ≢ []))
unfolding validate_args is_empty
validate_args_iff dsn source true = (λ e. cc, λ h. cc (h.0))
validate_args_iff [] source false = (λ e. cc, λ h. absurd (h.1 refl))
validate_args_iff (c ∷ s) [] false = (λ e. cc, λ h. absurd (h.2 refl))
validate_args_iff (c ∷ s) (d ∷ t) false = (λ e. (refl, (λ k. cc), λ k. cc), λ h. refl)

pub after_version_iff :
    (m : Migrator) (ctx : Context) (v : Version) (t : Job m.State)
    → ((after_version m ctx v t).0 ≡ none) ↔ IsClean v
after_version_iff m ctx (at_version n true) t = (λ e. cc, λ h. cc)
after_version_iff m ctx (at_version n false) t = (λ e. refl, λ h. refl)
after_version_iff m ctx nil_version t = (λ e. tt, λ h. refl)
after_version_iff m ctx (unknown x) t = (λ e. cc, λ h. absurd h)

pub after_version-state :
    (m : Migrator) (ctx : Context) (v : Version) (t : Job m.State)
    → (after_version m ctx v t).1.state ≡ t.state
after_version-state m ctx (at_version n true) t = refl
after_version-state m ctx (at_version n false) t = refl
after_version-state m ctx nil_version t = refl
after_version-state m ctx (unknown x) t = refl

pub close_migrator-state :
    (m : Migrator) (ctx : Context) (t : Job m.State)
    → (close_migrator m ctx t).state ≡ (m.close t.state).2
unfolding close_migrator
close_migrator-state m ctx t = refl

-- With a logger, a DSN and a source, and a migrator that opens, the gate lets the service start
-- exactly when the schema is clean or has no version yet, and on every path the migrator has been
-- closed, once, after the version was read.
pub assert_clean_iff :
    (m : Migrator) (ctx : Context) (dsn source : Bytes) (t : Job m.State)
    → dsn ≢ []
    → source ≢ []
    → (m.open_migrator source dsn t.state).0 ≡ none
    → (((assert_clean m ctx dsn source false t).0 ≡ none)
        ↔ IsClean (m.version (m.open_migrator source dsn t.state).1).0)
      × ((assert_clean m ctx dsn source false t).1.state
          ≡ (m.close (m.version (m.open_migrator source dsn t.state).1).1).2)
unfolding assert_clean with_migrator
assert_clean_iff m ctx dsn source t has_dsn has_source opened =
    rw ((validate_args_iff dsn source false).1 (refl, has_dsn, has_source), opened, with_migrator)
      (
        after_version_iff m ctx (m.version (m.open_migrator source dsn t.state).1).0 _,
        close_migrator-state m ctx _
            ∙ ap (λ s. (m.close s).2)
                (after_version-state m ctx (m.version (m.open_migrator source dsn t.state).1).0 _),
      )
