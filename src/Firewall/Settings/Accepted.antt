-- ===== src/Firewall/Settings/Accepted.antt =====
-- The settings that main accepts.
use mathlib.Core.Path.{subst}
use tx_firewall.Base.{
  ℕ, ◌<◌, String, Option, none, some, ◌≡◌, ◌≢◌, refl, ◌↔◌, ok, arith, ◌||◌, >>=-then, str_eq,
  eq_iff, if◌then◌else◌, ok-injective, Bool-cases, inl, inr, ◌^◌,
}
use tx_firewall.Base.Int.{ℤ}
use tx_firewall.Strconv.{atoi, parse_uint, within_uint, digits, codes}
use tx_firewall.Logging.{Slog, new_logger}
use tx_firewall.Logging.Formats.{IsLogger, new_logger-IsLogger, IsLogger-new_logger}
use tx_firewall.Firewall.Settings.{
  Url, Settings, check_url, check_int, check_blocks, get_env, must_get_env, read_settings,
}

within_uint-lt : (r : Option ℕ) {n : ℕ} → within_uint r ≡ some n → n < 2 ^ 64
unfolding within_uint
within_uint-lt none h = cc
within_uint-lt (some m) h = ground arith

pub parse_uint-lt : (s : String) {n : ℕ} → parse_uint s ≡ some n → n < 2 ^ 64
unfolding parse_uint
parse_uint-lt s h = within_uint-lt (digits (codes s)) h

-- A text that is not empty.
abbrev pub IsFilled : String → Type 0
IsFilled s = s ≢ ""

-- The URL was parsed and names a scheme and a host.
abbrev pub IsFull : Option Url → Url → Type 0
IsFull r u = (r ≡ some u) × IsFilled u.scheme × IsFilled u.host

check_url-inv : (r : Option Url) {u : Url} → check_url r ≡ ok u → IsFull r u
unfolding check_url
check_url-inv none h = cc
check_url-inv (some v) {u} h = elim (Bool-cases (str_eq v.scheme "" || str_eq v.host "")) [
  | inl empty ↦ cc (rw empty at h)
  | inr full ↦
      let same : v ≡ u = cc (rw full at h) in
      rw (← same)
        (refl, λ e. ground (arith, eq_iff v.scheme ""), λ e. ground (arith, eq_iff v.host ""))
]

IsFull-check_url : (r : Option Url) {u : Url} → IsFull r u → check_url r ≡ ok u
unfolding check_url
IsFull-check_url r {u} (parsed, scheme, host) =
    rw parsed (ground (arith, eq_iff u.scheme "", eq_iff u.host ""))

check_int-inv : (message : String) (r : Option ℤ) {n : ℤ} → check_int message r ≡ ok n → r ≡ some n
unfolding check_int
check_int-inv message none h = cc
check_int-inv message (some n) h = cc

check_blocks-inv : (r : Option ℕ) {n : ℕ} → check_blocks r ≡ ok n → (r ≡ some n) × (0 < n)
unfolding check_blocks
check_blocks-inv none h = cc
check_blocks-inv (some m) h = ground arith

check_blocks-pos : (n : ℕ) → 0 < n → check_blocks (some n) ≡ ok n
unfolding check_blocks
check_blocks-pos n h = ground arith

-- The text of a variable, or what stands for it where it is not set.
abbrev pub or_default : String → String → String
or_default fallback text = if str_eq text "" then fallback else text

module _ (env : String → String) where
  must_get_env-inv :
      (key : String) {v : String} → must_get_env env key ≡ ok v → (env key ≡ v) × IsFilled (env key)
  unfolding must_get_env
  must_get_env-inv key h = elim (Bool-cases (str_eq (env key) "")) [
    | inl unset ↦ cc (rw unset at h)
    | inr set_ ↦ (cc (rw set_ at h), λ e. ground (arith, eq_iff (env key) ""))
  ]

  IsFilled-must_get_env : (key : String) → IsFilled (env key) → must_get_env env key ≡ ok (env key)
  unfolding must_get_env
  IsFilled-must_get_env key h = ground (arith, eq_iff (env key) "")

  module _ (l : Slog) (parse_url : String → Option Url) where
    -- The settings that the environment spells, with the defaults of main; each is in range as far
    -- as main itself checks it.
    pub record IsSpelled (s : Settings) : Type 0 where
      pub logs :
          IsLogger l
            (or_default "pretty" (env "LOG_FORMAT"))
            (or_default "info" (env "LOG_LEVEL"))
            s.logger
      pub names_url : env "UPSTREAM_URL" ≡ s.upstream_url
      pub names_addr : env "LISTEN_ADDR" ≡ s.listen_addr
      pub names_file : env "SANCTIONS_FILE" ≡ s.sanctions_file
      pub has_url : IsFilled (env "UPSTREAM_URL")
      pub has_addr : IsFilled (env "LISTEN_ADDR")
      pub has_file : IsFilled (env "SANCTIONS_FILE")
      pub is_full : IsFull (parse_url s.upstream_url) s.upstream
      pub spells_threshold : atoi (or_default "50" (env "RISK_THRESHOLD")) ≡ some s.threshold
      pub spells_blocks :
          parse_uint (or_default "7200" (env "FRESH_CONTRACT_BLOCKS")) ≡ some s.fresh_blocks
      pub has_blocks : 0 < s.fresh_blocks
      pub spells_percent :
          atoi (or_default "50" (env "LARGE_OUTFLOW_PERCENT")) ≡ some s.outflow_percent

    read_settings-IsSpelled : (s : Settings) → read_settings env l parse_url ≡ ok s → IsSpelled s
    unfolding read_settings get_env
    read_settings-IsSpelled s h =
        >>=-then (new_logger l (get_env env "LOG_FORMAT" "pretty") (get_env env "LOG_LEVEL" "info"))
          _ h
          λ logger logs h₁. >>=-then (must_get_env env "UPSTREAM_URL") _ h₁ λ url got_url h₂.
            >>=-then (must_get_env env "LISTEN_ADDR") _ h₂ λ addr got_addr h₃.
              >>=-then (must_get_env env "SANCTIONS_FILE") _ h₃ λ file got_file h₄.
                >>=-then (check_url (parse_url url)) _ h₄ λ upstream checked h₅.
                  >>=-then
                    (check_int "RISK_THRESHOLD must be an integer"
                      (atoi (get_env env "RISK_THRESHOLD" "50")))
                    _ h₅
                    λ threshold read₁ h₆.
                      >>=-then
                        (check_blocks (parse_uint (get_env env "FRESH_CONTRACT_BLOCKS" "7200"))) _
                        h₆
                        λ blocks read₂ h₇.
                          >>=-then
                            (check_int "LARGE_OUTFLOW_PERCENT must be an integer"
                              (atoi (get_env env "LARGE_OUTFLOW_PERCENT" "50")))
                            _ h₇
                            λ percent read₃ made.
                              let (names_url, has_url) = must_get_env-inv "UPSTREAM_URL" got_url in
                              let (names_addr, has_addr) =
                                must_get_env-inv "LISTEN_ADDR" got_addr in
                              let (names_file, has_file) =
                                must_get_env-inv "SANCTIONS_FILE" got_file in
                              let (spells_blocks, has_blocks) = check_blocks-inv _ read₂ in
                              subst IsSpelled (ok-injective made) (record {
                                logs = new_logger-IsLogger l _ _ logger logs;
                                names_url = names_url;
                                names_addr = names_addr;
                                names_file = names_file;
                                has_url = has_url;
                                has_addr = has_addr;
                                has_file = has_file;
                                is_full = check_url-inv _ checked;
                                spells_threshold =
                                    check_int-inv "RISK_THRESHOLD must be an integer" _ read₁;
                                spells_blocks = spells_blocks;
                                has_blocks = has_blocks;
                                spells_percent =
                                    check_int-inv "LARGE_OUTFLOW_PERCENT must be an integer" _
                                      read₃;
                              })

    IsSpelled-read_settings : (s : Settings) → IsSpelled s → read_settings env l parse_url ≡ ok s
    unfolding read_settings check_int get_env
    IsSpelled-read_settings s h = rw (
      IsLogger-new_logger l _ _ s.logger h.logs,
      IsFilled-must_get_env "UPSTREAM_URL" h.has_url,
      IsFilled-must_get_env "LISTEN_ADDR" h.has_addr,
      IsFilled-must_get_env "SANCTIONS_FILE" h.has_file,
      h.names_url,
      h.names_addr,
      h.names_file,
      IsFull-check_url _ h.is_full,
      h.spells_threshold,
      h.spells_blocks,
      check_blocks-pos s.fresh_blocks h.has_blocks,
      h.spells_percent,
    )

    -- main gets past its settings exactly with those that the environment spells: the format and
    -- the level of the log are known (the format is pretty, text or json), UPSTREAM_URL, LISTEN_ADDR and SANCTIONS_FILE are set, the URL
    -- has a scheme and a host, RISK_THRESHOLD and LARGE_OUTFLOW_PERCENT are integers, and
    -- FRESH_CONTRACT_BLOCKS is a positive one; only the five optional ones have defaults.
    pub read_settings_iff : (s : Settings) → (read_settings env l parse_url ≡ ok s) ↔ IsSpelled s
    read_settings_iff s = (read_settings-IsSpelled s, IsSpelled-read_settings s)
