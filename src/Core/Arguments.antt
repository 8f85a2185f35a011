-- ===== src/Core/Arguments.antt =====
-- What run passes to the gate is not empty.
use id_core.Prelude.{◌≢◌, [], ◌∷◌, false, Bool-cases, inl, inr, ◌≡◌}
use id_core.Go.Bytes.{Bytes, bytes, is_empty, has_prefix}
use id_core.Go.Url.{url_string}
use id_core.Config.{Environ, DatabaseConfig, or_empty}
use id_core.Db.Dsn.{build_dsn}
use id_core.Core.{resolve_migrations_source}

pub build_dsn-ne-nil : (cfg : DatabaseConfig) → build_dsn cfg ≢ []
unfolding build_dsn url_string
build_dsn-ne-nil cfg e = cc

is_empty-ne-nil : (v : Bytes) → is_empty v ≡ false → v ≢ []
unfolding is_empty
is_empty-ne-nil [] h e = cc
is_empty-ne-nil (c ∷ v) h e = cc

pub resolve_migrations_source-ne-nil : (environ : Environ) → resolve_migrations_source environ ≢ []
unfolding resolve_migrations_source is_empty
resolve_migrations_source-ne-nil environ =
    let v = or_empty (environ "CORE_MIGRATIONS_DIR") in
    elim (Bool-cases (is_empty v)) [
      | inl unset ↦ rw unset (λ e. cc)
      | inr set ↦ elim (Bool-cases (has_prefix v (bytes "file://"))) [
        | inl url ↦ rw (set, url) (is_empty-ne-nil v set)
        | inr path ↦ rw (set, path) (λ e. cc)
      ]
    ]
