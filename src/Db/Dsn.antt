-- ===== src/Db/Dsn.antt =====
-- core/internal/db/dsn.go. The context, which neither function looks at, is left out.
pub mod Read
pub mod RoundTrip
use id_core.Prelude.{List, [], ◌∷◌, ◌++◌}
use id_core.Go.Bytes.{Bytes, bytes}
use id_core.Go.Strconv.{decimal}
use id_core.Go.Url.{query_escape, UrlParts, url_string}
use id_core.Config.{DatabaseConfig}
use id_core.Go.Any.{Any, object, field, end, str, number}

-- fmt.Sprintf("%s:%d", cfg.Host, cfg.Port).
abbrev pub host_port : DatabaseConfig → Bytes
host_port cfg = cfg.host ++ b':' ∷ decimal cfg.port

unfoldable pub build_dsn : DatabaseConfig → Bytes
build_dsn cfg = url_string (record {
  scheme = bytes "postgres";
  user = cfg.user;
  password = cfg.password;
  host = host_port cfg;
  path = b'/' ∷ cfg.db_name;
  raw_query = bytes "sslmode=" ++ query_escape cfg.ssl_mode;
})

-- The map, its entries in the order of the source.
unfoldable pub safe_repr : DatabaseConfig → Any
safe_repr cfg = object (
    field (bytes "host") (str cfg.host) (
      field (bytes "port") (number (decimal cfg.port)) (
        field (bytes "user") (str cfg.user) (
          field (bytes "dbname") (str cfg.db_name)
            (field (bytes "sslmode") (str cfg.ssl_mode) end)))))
