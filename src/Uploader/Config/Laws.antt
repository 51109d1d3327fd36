-- ===== src/Uploader/Config/Laws.antt =====
-- `newUploader` of internal/watcher/upload.go against the environment.
use dialtone_watcher.Prelude.{
  list_eq, nat_eq, ap, sym, eq_iff, ◌*◌, arith, if◌then◌else◌, ◌∷◌, Option, codes, ◌≢◌, ◌↔◌, [],
  ◌≡◌, refl, ◌⊎◌, inl, inr, true, false, none, some, Text, is_empty, Bool-cases,
}
use dialtone_watcher.Prelude.Int.{pos, ltb_ℤ}
use dialtone_watcher.Strings.{to_lower, trim_space}
use dialtone_watcher.Clock.{second, Duration}
use dialtone_watcher.Uploader.{empty_window, Uploader}
use dialtone_watcher.Uploader.Config.{
  positive_or, default_upload_timeout, default_upload_interval, default_test_upload_interval,
  default_upload_url, RunOptions, Environment, duration_or, text_or, is_disabled,
  load_upload_config, new_uploader,
}

abbrev pub IsPositive : Duration → Type 0
IsPositive d = ltb_ℤ (pos 0) d ≡ true

-- The value of a variable without the space around it.
abbrev pub value_of : Environment → Text → Text
value_of env name = trim_space (env.getenv name)

-- The environment switches uploads off.
abbrev pub IsSwitchedOff : Environment → Type 0
IsSwitchedOff env =
    let value = trim_space (to_lower (env.getenv (codes "DIALTONE_WATCHER_DISABLE_UPLOAD"))) in
    (value ≡ codes "1") ⊎ ((value ≡ codes "true") ⊎ (value ≡ codes "yes"))

-- The variable has a value, or the default is taken.
abbrev pub IsText : Environment → Text → Text → Text → Type 0
IsText env name default t =
    ((value_of env name ≢ []) × (t ≡ value_of env name))
    ⊎ ((value_of env name ≡ []) × (t ≡ default))

-- The variable holds a positive duration, or the default is taken.
abbrev pub IsDuration : Environment → Text → Duration → Duration → Type 0
IsDuration env name default d =
    ((value_of env name ≢ []) × (env.parse_duration (value_of env name) ≡ some d) × IsPositive d)
    ⊎ ((d ≡ default)
        × ((value_of env name ≡ [])
            ⊎ ((c : Duration) → env.parse_duration (value_of env name) ≡ some c → ¬ IsPositive c)))

empty_iff : (t : Text) → (is_empty t ≡ true) ↔ (t ≡ [])
empty_iff [] = (λ h. refl, λ h. refl)
empty_iff (c ∷ t) = ground arith

is_disabled_iff : (env : Environment) → (is_disabled env ≡ true) ↔ IsSwitchedOff env
unfolding is_disabled
is_disabled_iff env =
    let value = trim_space (to_lower (env.getenv (codes "DIALTONE_WATCHER_DISABLE_UPLOAD"))) in
    ground
      (arith, eq_iff value (codes "1"), eq_iff value (codes "true"), eq_iff value (codes "yes"))

positive_lem :
    (parsed : Option Duration) (default d : Duration)
    → positive_or parsed default ≡ d
    → ((parsed ≡ some d) × IsPositive d)
      ⊎ ((d ≡ default) × ((c : Duration) → parsed ≡ some c → ¬ IsPositive c))
positive_lem none default d e = inr (sym e, λ c h. absurd (ground arith))
positive_lem (some x) default d e = elim (Bool-cases (ltb_ℤ (pos 0) x)) [
  | inl positive ↦ let p : x ≡ d = rw (positive) at e in inl (ap some p, rw (← p) positive)
  | inr other ↦ let p : default ≡ d = rw (other) at e in inr (sym p, λ c h. ground (arith, other))
]

duration_or-IsDuration :
    (env : Environment) (name : Text) (default : Duration)
    → IsDuration env name default (duration_or env name default)
unfolding duration_or
duration_or-IsDuration env name default = elim (Bool-cases (is_empty (value_of env name))) [
  | inl unset ↦ rw unset (inr (refl, inl ((empty_iff _).0 unset)))
  | inr set ↦ elim (positive_lem (env.parse_duration (value_of env name)) default _ refl) [
    | inl (parsed, positive) ↦ rw set (inl (λ h. cc ((empty_iff _).1 h, set), parsed, positive))
    | inr (same, refuses) ↦ rw set (inr (same, inr refuses))
  ]
]

IsDuration-IsPositive :
    (env : Environment) (name : Text) (default d : Duration)
    → IsPositive default
    → IsDuration env name default d
    → IsPositive d
IsDuration-IsPositive env name default d h (inl (set, parsed, positive)) = positive
IsDuration-IsPositive env name default d h (inr (same, why)) = rw same h

text_or-IsText :
    (env : Environment) (name default : Text) → IsText env name default (text_or env name default)
unfolding text_or
text_or-IsText env name default = elim (Bool-cases (is_empty (value_of env name))) [
  | inl unset ↦ rw unset (inr ((empty_iff _).0 unset, refl))
  | inr set ↦ rw set (inl (λ h. cc ((empty_iff _).1 h, set), refl))
]

text_or-is_empty :
    (env : Environment) (name default : Text)
    → is_empty default ≡ false
    → is_empty (text_or env name default) ≡ false
unfolding text_or
text_or-is_empty env name default h = elim (Bool-cases (is_empty (trim_space (env.getenv name)))) [
  | inl unset ↦ rw unset h
  | inr set ↦ rw set set
]

-- What `newUploader` promises of an uploader.
pub record IsUsable {F : Type 0} (env : Environment) (machine_id : Text) (options : RunOptions)
    (u : Uploader F) : Type 0 where
  pub identity : u.machine_id ≡ machine_id
  pub endpoint :
      IsText env
        (codes "DIALTONE_WATCHER_UPLOAD_URL")
        (codes "https://dialtoneapp.com/api/v1/watcher")
        u.config.endpoint
  pub interval :
      IsDuration env
        (codes "DIALTONE_WATCHER_UPLOAD_INTERVAL")
        (pos (if options.test_mode then 15 * second else 900 * second))
        u.config.interval
  pub interval_positive : IsPositive u.config.interval
  pub timeout :
      IsDuration env (codes "DIALTONE_WATCHER_UPLOAD_TIMEOUT") (pos (10 * second)) u.config.timeout
  pub timeout_positive : IsPositive u.config.timeout
  pub window : u.window ≡ empty_window 0

loaded-IsUsable :
    {F : Type 0} (env : Environment) (machine_id : Text) (options : RunOptions)
    → IsUsable {F = F} env machine_id options (record {
      config = load_upload_config env options;
      machine_id = machine_id;
      window = empty_window 0;
    })
unfolding load_upload_config
loaded-IsUsable env machine_id options =
    let timeout =
      duration_or-IsDuration env (codes "DIALTONE_WATCHER_UPLOAD_TIMEOUT") default_upload_timeout in
    elim (Bool-cases options.test_mode) [
      | inl testing ↦
          let interval =
            duration_or-IsDuration env (codes "DIALTONE_WATCHER_UPLOAD_INTERVAL")
              default_test_upload_interval in
          rw testing (record {
            identity = refl;
            endpoint = text_or-IsText env _ default_upload_url;
            interval = interval;
            interval_positive = IsDuration-IsPositive env _ _ _ refl interval;
            timeout = timeout;
            timeout_positive = IsDuration-IsPositive env _ _ _ refl timeout;
            window = refl;
          })
      | inr real ↦
          let interval =
            duration_or-IsDuration env (codes "DIALTONE_WATCHER_UPLOAD_INTERVAL")
              default_upload_interval in
          rw real (record {
            identity = refl;
            endpoint = text_or-IsText env _ default_upload_url;
            interval = interval;
            interval_positive = IsDuration-IsPositive env _ _ _ refl interval;
            timeout = timeout;
            timeout_positive = IsDuration-IsPositive env _ _ _ refl timeout;
            window = refl;
          })
    ]

-- `newUploader` returns nil exactly if the variable for it switches uploads off, being "1", "true" or
-- "yes" in whatever case and space, or the machine has no identity. Otherwise it returns an uploader for
-- the identity with an empty window: its endpoint is that of the environment, or the default one if there
-- is none; its interval and its timeout are those of the environment, or the default ones if there
-- is none, if it cannot be read or if it is not positive, so that both are positive.
pub new_uploader_lem :
    {F : Type 0} (env : Environment) (machine_id : Text) (options : RunOptions)
    → ((new_uploader {F = F} env machine_id options ≡ none)
        × (IsSwitchedOff env ⊎ (machine_id ≡ [])))
      ⊎ ((u : Uploader F) × (new_uploader env machine_id options ≡ some u)
          × IsUsable env machine_id options u
          × (¬ IsSwitchedOff env)
          × (machine_id ≢ []))
unfolding new_uploader load_upload_config
new_uploader_lem {F = F} env machine_id options =
    let usable = loaded-IsUsable {F = F} env machine_id options in
    let reached =
      text_or-is_empty env (codes "DIALTONE_WATCHER_UPLOAD_URL") default_upload_url refl in
    elim (Bool-cases (is_disabled env)) [
      | inl off ↦ rw off (inl (refl, inl ((is_disabled_iff env).0 off)))
      | inr on ↦ elim (Bool-cases (is_empty machine_id)) [
        | inl nameless ↦
            rw (on, reached, nameless) (inl (refl, inr ((empty_iff machine_id).0 nameless)))
        | inr named ↦
            rw (on, reached, named)
              (inr (
                _,
                refl,
                rw (on) at usable,
                λ h. cc ((is_disabled_iff env).1 h, on),
                λ h. cc ((empty_iff machine_id).1 h, named),
              ))
      ]
    ]
