-- ===== src/Database.antt =====
-- internal/storage/db.go: the configuration from the environment, the connection string, and the
-- migrations. The environment, the directory, the sorting of names, the printing of numbers and the
-- database are parameters.
pub mod Migration
use optionx_assignment.Common.{
  ℕ, Bool, true, false, not, ◌&&◌, String, List, [], ◌∷◌, Option, none, some, concat, ◌==◌, ◌||◌,
  if◌then◌else◌,
}

pub record Config : Type 0 where
  pub host : String
  pub port : ℕ
  pub user : String
  pub password : String
  pub db_name : String
  pub ssl_mode : String

-- `os.Getenv`: the empty text for a variable that is not set.
abbrev pub Environment : Type 0
Environment = String → String

unfoldable pub get_env : Environment → String → String → String
get_env env key fallback = if env key == "" then fallback else env key

unfoldable pub current_os_user : Environment → String
current_os_user env = if env "USER" == "" then "postgres" else env "USER"

unfoldable pub config_from_env : Environment → Config
unfolding get_env current_os_user
config_from_env env = record {
  host = get_env env "OPTIONX_DB_HOST" "localhost";
  port = 5432;
  user = get_env env "OPTIONX_DB_USER" (current_os_user env);
  password = get_env env "OPTIONX_DB_PASSWORD" "";
  db_name = get_env env "OPTIONX_DB_NAME" "optionx";
  ssl_mode = get_env env "OPTIONX_DB_SSLMODE" "disable";
}

-- The connection string as its keys and values, in order.
abbrev pub Settings : Type 0
Settings = List (String × String)

unfoldable pub dsn_settings : (ℕ → String) → Config → Settings
dsn_settings show_int c =
    let password = if c.password == "" then [] else ("password", c.password) ∷ [] in
    ("host", c.host)
    ∷ ("port", show_int c.port)
    ∷ ("user", c.user)
    ∷ ("dbname", c.db_name)
    ∷ ("sslmode", c.ssl_mode)
    ∷ password

-- One setting after another, with a space between two.
unfoldable pub print_settings : Settings → String
print_settings [] = ""
print_settings ((k, v) ∷ []) = concat k (concat "=" v)
print_settings ((k, v) ∷ (x ∷ xs)) =
    concat k (concat "=" (concat v (concat " " (print_settings (x ∷ xs)))))

unfoldable pub dsn : (ℕ → String) → Config → String
unfolding dsn_settings
dsn show_int c = print_settings (dsn_settings show_int c)

pub record DirEntry : Type 0 where
  pub name : String
  pub is_dir : Bool

-- The name ends in ".sql", with something before.
abbrev pub is_sql : String → Bool
is_sql String.[] = false
is_sql (String.◌∷◌ c s) = s == ".sql" || is_sql s

unfoldable pub sql_names : List DirEntry → List String
sql_names [] = []
sql_names (e ∷ es) =
    let rest = sql_names es in if not e.is_dir && is_sql e.name then e.name ∷ rest else rest

-- What Migrate uses: the directory, its files, sort.Strings, and a database whose transaction with a
-- file's contents begins, runs and commits, or fails at one of the three and leaves it as it was.
pub data TxFault : Type 0 where
  begin execute commit : TxFault

pub record Host {ℓ} (D : Type ℓ) : Type ℓ where
  pub read_dir : Option (List DirEntry)
  pub read_file : String → Option String
  pub sort : List String → List String
  pub transact : String → D → Option TxFault × D

pub data MigrationError : Type 0 where
  no_dir : MigrationError
  no_file : String → MigrationError
  in_transaction : TxFault → String → MigrationError

module _ {ℓ} {D : Type ℓ} (h : Host D) where
  abbrev pub after_transaction :
      String → Option TxFault × D → (D → D × Option MigrationError) → D × Option MigrationError
  after_transaction name (none, d) next = next d
  after_transaction name (some f, d) next = (d, some (in_transaction f name))

  unfoldable pub migrate_files : List String → D → D × Option MigrationError
  migrate_files [] d = (d, none)
  migrate_files (name ∷ names) d = elim (h.read_file name) [
    | none ↦ (d, some (no_file name))
    | some contents ↦ after_transaction name (h.transact contents d) (λ d'. migrate_files names d')
  ]

  unfoldable pub migrate : D → D × Option MigrationError
  migrate d = elim h.read_dir [
    | none ↦ (d, some no_dir)
    | some entries ↦ migrate_files (h.sort (sql_names entries)) d
  ]
