-- ===== src/Firewall/Settings.antt =====
-- cmd/firewall/main.go: the settings that main reads from its environment before it connects to
-- anything. A run that ends in os.Exit is an error: the message that it logs and, behind it, the
-- error or the key that it logs beside it, where that is an error of this repository or a key.
pub mod Accepted
use tx_firewall.Base.{
  ℕ, String, Option, none, some, ◌>>=◌, Result, ok, err, plain, wrap, ◌||◌, ◌==◌, str_eq,
  if◌then◌else◌,
}
use tx_firewall.Base.Int.{ℤ}
use tx_firewall.Strconv.{atoi, parse_uint}
use tx_firewall.Logging.{Logger, Slog, new_logger}

-- url.URL, as far as main looks at it.
pub record Url : Type 0 where
  pub scheme : String
  pub host : String

pub record Settings : Type 0 where
  pub logger : Logger
  pub upstream_url : String
  pub listen_addr : String
  pub sanctions_file : String
  pub upstream : Url
  pub threshold : ℤ
  pub fresh_blocks : ℕ
  pub outflow_percent : ℤ

-- The check of the parsed UPSTREAM_URL; `none` stands for the error of url.Parse.
unfoldable pub check_url : Option Url → Result Url
check_url none = err (plain "UPSTREAM_URL must be a full URL like http://host:port")
check_url (some u) =
    if str_eq u.scheme "" || str_eq u.host ""
    then err (plain "UPSTREAM_URL must be a full URL like http://host:port")
    else ok u

unfoldable pub check_int : String → Option ℤ → Result ℤ
check_int message none = err (plain message)
check_int message (some n) = ok n

unfoldable pub check_blocks : Option ℕ → Result ℕ
check_blocks none = err (plain "FRESH_CONTRACT_BLOCKS must be a positive integer")
check_blocks (some n) =
    if n == 0 then err (plain "FRESH_CONTRACT_BLOCKS must be a positive integer") else ok n

-- `env` is os.Getenv: the empty text for a variable that is not set.
module _ (env : String → String) where
  unfoldable pub get_env : String → String → String
  get_env key fallback = if str_eq (env key) "" then fallback else env key

  unfoldable pub must_get_env : String → Result String
  must_get_env key =
      if str_eq (env key) ""
      then err (wrap "missing required environment variable" (plain key))
      else ok (env key)

  module _ (l : Slog) (parse_url : String → Option Url) where
    -- main, up to the last setting.
    unfoldable pub read_settings : Result Settings
    unfolding get_env must_get_env check_url check_int check_blocks
    read_settings = do
      logger ← new_logger l (get_env "LOG_FORMAT" "pretty") (get_env "LOG_LEVEL" "info")
      upstream_url ← must_get_env "UPSTREAM_URL"
      listen_addr ← must_get_env "LISTEN_ADDR"
      sanctions_file ← must_get_env "SANCTIONS_FILE"
      upstream ← check_url (parse_url upstream_url)
      threshold ←
          check_int "RISK_THRESHOLD must be an integer" (atoi (get_env "RISK_THRESHOLD" "50"))
      fresh_blocks ← check_blocks (parse_uint (get_env "FRESH_CONTRACT_BLOCKS" "7200"))
      outflow_percent ←
          check_int "LARGE_OUTFLOW_PERCENT must be an integer"
            (atoi (get_env "LARGE_OUTFLOW_PERCENT" "50"))
      ok (record {
        logger = logger;
        upstream_url = upstream_url;
        listen_addr = listen_addr;
        sanctions_file = sanctions_file;
        upstream = upstream;
        threshold = threshold;
        fresh_blocks = fresh_blocks;
        outflow_percent = outflow_percent;
      })
