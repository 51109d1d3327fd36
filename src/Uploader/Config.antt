-- ===== src/Uploader/Config.antt =====
-- `loadUploadConfig` and `newUploader` of internal/watcher/upload.go. The environment and
-- `time.ParseDuration`, whose errors are `none`, are parameters.
pub mod Laws
use dialtone_watcher.Prelude.{
  ◌*◌, Bool, true, false, not, ◌||◌, Option, none, some, Text, codes, is_empty, ◌==◌, nat_eq,
  list_eq, if◌then◌else◌,
}
use dialtone_watcher.Prelude.Int.{ℤ, pos, ltb_ℤ}
use dialtone_watcher.Clock.{Duration, second}
use dialtone_watcher.Strings.{trim_space, to_lower}
use dialtone_watcher.Uploader.{UploadConfig, Uploader, empty_window}

pub record RunOptions : Type 0 where
  pub test_mode : Bool

-- `os.Getenv` and `time.ParseDuration`
pub record Environment : Type 0 where
  pub getenv : Text → Text
  pub parse_duration : Text → Option Duration

abbrev pub default_upload_url : Text
default_upload_url = codes "https://dialtoneapp.com/api/v1/watcher"

abbrev pub default_upload_interval : Duration
default_upload_interval = pos (15 * (60 * second))

abbrev pub default_test_upload_interval : Duration
default_test_upload_interval = pos (15 * second)

abbrev pub default_upload_timeout : Duration
default_upload_timeout = pos (10 * second)

abbrev pub positive_or : Option Duration → Duration → Duration
positive_or none default = default
positive_or (some d) default = if ltb_ℤ (pos 0) d then d else default

-- The test of one variable that holds a duration.
unfoldable pub duration_or : Environment → Text → Duration → Duration
duration_or env name default =
    let value = trim_space (env.getenv name) in
    if is_empty value then default else positive_or (env.parse_duration value) default

unfoldable pub text_or : Environment → Text → Text → Text
text_or env name default =
    let value = trim_space (env.getenv name) in if is_empty value then default else value

unfoldable pub is_disabled : Environment → Bool
is_disabled env =
    let disabled = trim_space (to_lower (env.getenv (codes "DIALTONE_WATCHER_DISABLE_UPLOAD"))) in
    disabled == codes "1" || (disabled == codes "true" || disabled == codes "yes")

unfoldable pub load_upload_config : Environment → RunOptions → UploadConfig
unfolding duration_or text_or is_disabled
load_upload_config env options =
    let interval =
      if options.test_mode then default_test_upload_interval else default_upload_interval in
    record {
      enabled = not (is_disabled env);
      endpoint = text_or env (codes "DIALTONE_WATCHER_UPLOAD_URL") default_upload_url;
      interval = duration_or env (codes "DIALTONE_WATCHER_UPLOAD_INTERVAL") interval;
      timeout = duration_or env (codes "DIALTONE_WATCHER_UPLOAD_TIMEOUT") default_upload_timeout;
    }

unfoldable pub new_uploader : {F : Type 0} → Environment → Text → RunOptions → Option (Uploader F)
unfolding load_upload_config
new_uploader env machine_id options =
    let config = load_upload_config env options in
    if not config.enabled || (is_empty config.endpoint || is_empty machine_id)
    then none
    else some (record { config = config; machine_id = machine_id; window = empty_window 0 })
