-- ===== src/Config/Checks.antt =====
-- What `validate` and `Load` promise of a configuration.
use integration_suricata_n_d.Base.{
  true, false, sym, none, List, [], ◌∷◌, ◌≡◌, ◌≢◌, ◌↔◌, refl, subst, ap, Option-cases, inl, inr,
  arith, Bytes, codes, Duration, le_zero, is_zero, bytes_eq, seconds,
}
use integration_suricata_n_d.Text.{trim_space, to_lower}
use integration_suricata_n_d.Sys.{Result, ok, err, Result-cases}
use integration_suricata_n_d.Config.{
  Config, normalized_command, is_empty, no_items, or_default, or_default_time, apply_defaults,
  is_shutdown, validate, load,
}

abbrev pub IsPositive : Duration → Type 0
IsPositive d = le_zero d ≡ false

-- What the rest of the program takes for granted of a configuration.
pub record IsValid (c : Config) : Type 0 where
  pub rules_set : c.paths.ndpi_rules_local ≢ []
  pub template_set : c.paths.suricata_template ≢ []
  pub suricatasc_set : c.paths.suricatasc ≢ []
  pub bin_set : c.paths.suricata_bin ≢ []
  pub sockets_listed : c.suricata.socket_candidates ≢ []
  pub configs_listed : c.suricata.config_candidates ≢ []
  pub reload_positive : IsPositive c.reload.timeout
  pub no_shutdown : is_shutdown c.reload.command ≡ false
  pub start_positive : IsPositive c.suricata.start_timeout

is_empty_iff : (s : Bytes) → (is_empty s ≡ false) ↔ (s ≢ [])
is_empty_iff [] = (λ h. cc, λ h. absurd (h refl))
is_empty_iff (c ∷ s) = (λ h e. cc, λ h. refl)

no_items_iff : (s : List Bytes) → (no_items s ≡ false) ↔ (s ≢ [])
no_items_iff [] = (λ h. cc, λ h. absurd (h refl))
no_items_iff (c ∷ s) = (λ h e. cc, λ h. refl)

-- `validate` finds no error exactly when the configuration is valid.
pub validate_iff : (c : Config) → (validate c ≡ none) ↔ IsValid c
unfolding validate
validate_iff c = (λ h. ground (arith), λ v. ground arith)

or_default_idem : (s d : Bytes) → or_default (or_default s d) d ≡ or_default s d
or_default_idem [] [] = refl
or_default_idem [] (c ∷ d) = refl
or_default_idem (x ∷ s) d = refl

or_default_time_idem :
    (t d : Duration) → or_default_time (or_default_time t d) d ≡ or_default_time t d
or_default_time_idem t d = ground arith

-- Filling in the defaults a second time changes nothing.
pub apply_defaults_idem : (c : Config) → apply_defaults (apply_defaults c) ≡ apply_defaults c
unfolding apply_defaults
apply_defaults_idem c = simp (or_default_idem, or_default_time_idem)

-- `d >= 0`
abbrev pub IsNonNegative : Duration → Type 0
IsNonNegative d = (is_zero d ≡ false) → IsPositive d

-- What a configuration file has to hold.
pub record IsComplete (c : Config) : Type 0 where
  pub rules_set : c.paths.ndpi_rules_local ≢ []
  pub template_set : c.paths.suricata_template ≢ []
  pub suricatasc_set : c.paths.suricatasc ≢ []
  pub sockets_listed : c.suricata.socket_candidates ≢ []
  pub configs_listed : c.suricata.config_candidates ≢ []
  pub reload_fine : IsNonNegative c.reload.timeout
  pub no_shutdown : is_shutdown c.reload.command ≡ false
  pub start_fine : IsNonNegative c.suricata.start_timeout

default-IsPositive :
    (t d : Duration) → IsPositive d → IsNonNegative t ↔ IsPositive (or_default_time t d)
default-IsPositive t d p = (λ n. ground arith, λ q n. ground arith)

or_default-ne-nil : (s d : Bytes) → d ≢ [] → or_default s d ≢ []
or_default-ne-nil [] d h = h
or_default-ne-nil (c ∷ s) d h = λ e. cc

default_no_shutdown :
    (s : Bytes)
    → (is_shutdown (or_default s (codes "reconfigure")) ≡ false) ↔ (is_shutdown s ≡ false)
unfolding normalized_command trim_space to_lower bytes_eq
default_no_shutdown [] = (λ h. refl, λ h. refl)
default_no_shutdown (c ∷ s) = (λ h. h, λ h. h)

-- The defaults make a configuration valid exactly when it names the rules, the template, suricatasc and candidates for the
-- sockets and the configurations, has no negative timeout, and does not reload by "shutdown"; it may leave out the command and
-- the time of the reload, the time for a start, and the path of Suricata.
pub apply_defaults-IsValid : (c : Config) → IsValid (apply_defaults c) ↔ IsComplete c
unfolding apply_defaults
apply_defaults-IsValid c =
    let reload = default-IsPositive c.reload.timeout (seconds 5) refl in
    let start = default-IsPositive c.suricata.start_timeout (seconds 30) refl in
    let command = default_no_shutdown c.reload.command in
    (
      λ v. record {
        rules_set = v.rules_set;
        template_set = v.template_set;
        suricatasc_set = v.suricatasc_set;
        sockets_listed = v.sockets_listed;
        configs_listed = v.configs_listed;
        reload_fine = reload.1 v.reload_positive;
        no_shutdown = command.0 v.no_shutdown;
        start_fine = start.1 v.start_positive;
      },
      λ v. record {
        rules_set = v.rules_set;
        template_set = v.template_set;
        suricatasc_set = v.suricatasc_set;
        bin_set = or_default-ne-nil c.paths.suricata_bin (codes "/usr/bin/suricata") (λ e. cc);
        sockets_listed = v.sockets_listed;
        configs_listed = v.configs_listed;
        reload_positive = reload.0 v.reload_fine;
        no_shutdown = command.1 v.no_shutdown;
        start_positive = start.0 v.start_fine;
      },
    )

-- An empty text is replaced by the default, and any other stays; the same for a time that is 0.
abbrev pub IsFilled : Bytes → Bytes → Bytes → Type 0
IsFilled s d t = (s ≡ [] → t ≡ d) × (s ≢ [] → t ≡ s)

abbrev pub IsFilledTime : Duration → Duration → Duration → Type 0
IsFilledTime s d t = (is_zero s ≡ true → t ≡ d) × (is_zero s ≡ false → t ≡ s)

pub or_default-IsFilled : (s d : Bytes) → IsFilled s d (or_default s d)
or_default-IsFilled [] d = (λ h. refl, λ h. absurd (h refl))
or_default-IsFilled (c ∷ s) d = (λ h. cc, λ h. refl)

or_default_time-IsFilledTime : (s d : Duration) → IsFilledTime s d (or_default_time s d)
or_default_time-IsFilledTime s d = ground arith

-- The second configuration is the first one with the defaults: each field, with what it is where the file leaves it out.
pub record HasDefaults (c d : Config) : Type 0 where
  pub addr : IsFilled c.http.addr (codes ":8080") d.http.addr
  pub socket :
      IsFilled c.http.host_agent_socket (codes "/run/ndpi-agent.sock") d.http.host_agent_socket
  pub agent_timeout : IsFilledTime c.http.host_agent_timeout (seconds 10) d.http.host_agent_timeout
  pub rules : d.paths.ndpi_rules_local ≡ c.paths.ndpi_rules_local
  pub plugin : d.paths.ndpi_plugin_path ≡ c.paths.ndpi_plugin_path
  pub template : d.paths.suricata_template ≡ c.paths.suricata_template
  pub suricatasc : d.paths.suricatasc ≡ c.paths.suricatasc
  pub bin : IsFilled c.paths.suricata_bin (codes "/usr/bin/suricata") d.paths.suricata_bin
  pub ndpi : d.ndpi ≡ c.ndpi
  pub sockets : d.suricata.socket_candidates ≡ c.suricata.socket_candidates
  pub configs : d.suricata.config_candidates ≡ c.suricata.config_candidates
  pub start_timeout : IsFilledTime c.suricata.start_timeout (seconds 30) d.suricata.start_timeout
  pub apply : d.apply ≡ c.apply
  pub reload_timeout : IsFilledTime c.reload.timeout (seconds 5) d.reload.timeout
  pub reload_command : IsFilled c.reload.command (codes "reconfigure") d.reload.command
  pub systemctl : IsFilled c.system.systemctl (codes "/usr/bin/systemctl") d.system.systemctl
  pub service : IsFilled c.system.suricata_service (codes "suricata") d.system.suricata_service

apply_defaults-HasDefaults : (c : Config) → HasDefaults c (apply_defaults c)
unfolding apply_defaults
apply_defaults-HasDefaults c = record {
  addr = or_default-IsFilled c.http.addr (codes ":8080");
  socket = or_default-IsFilled c.http.host_agent_socket (codes "/run/ndpi-agent.sock");
  agent_timeout = or_default_time-IsFilledTime c.http.host_agent_timeout (seconds 10);
  rules = refl;
  plugin = refl;
  template = refl;
  suricatasc = refl;
  bin = or_default-IsFilled c.paths.suricata_bin (codes "/usr/bin/suricata");
  ndpi = refl;
  sockets = refl;
  configs = refl;
  start_timeout = or_default_time-IsFilledTime c.suricata.start_timeout (seconds 30);
  apply = refl;
  reload_timeout = or_default_time-IsFilledTime c.reload.timeout (seconds 5);
  reload_command = or_default-IsFilled c.reload.command (codes "reconfigure");
  systemctl = or_default-IsFilled c.system.systemctl (codes "/usr/bin/systemctl");
  service = or_default-IsFilled c.system.suricata_service (codes "suricata");
}

IsFilled-same : (s d t : Bytes) → IsFilled s d t → or_default s d ≡ t
IsFilled-same [] d t f = sym (f.0 refl)
IsFilled-same (c ∷ s) d t f = sym (f.1 (λ e. cc))

IsFilledTime-same : (s d t : Duration) → IsFilledTime s d t → or_default_time s d ≡ t
IsFilledTime-same s d t f = ground (arith, f)

pub HasDefaults-same : (c d : Config) → HasDefaults c d → apply_defaults c ≡ d
unfolding apply_defaults
HasDefaults-same c d h =
    rw
      (
        IsFilled-same _ _ _ h.addr,
        IsFilled-same _ _ _ h.socket,
        IsFilledTime-same _ _ _ h.agent_timeout,
        ← h.rules,
        ← h.plugin,
        ← h.template,
        ← h.suricatasc,
        IsFilled-same _ _ _ h.bin,
        ← h.ndpi,
        ← h.sockets,
        ← h.configs,
        IsFilledTime-same _ _ _ h.start_timeout,
        ← h.apply,
        IsFilledTime-same _ _ _ h.reload_timeout,
        IsFilled-same _ _ _ h.reload_command,
        IsFilled-same _ _ _ h.systemctl,
        IsFilled-same _ _ _ h.service,
      )
      refl

load_parsed :
    (unmarshal : Bytes → Result Config) (path raw : Bytes) (d : Config)
    → load unmarshal path (ok raw) ≡ ok d
    → (c : Config) × (unmarshal raw ≡ ok c) × IsComplete c × HasDefaults c d
unfolding load
load_parsed unmarshal path raw d h = elim (Result-cases (unmarshal raw)) [
  | inr (e, u) ↦ absurd (ground (arith, u))
  | inl (c, u) ↦ elim (Option-cases (validate (apply_defaults c))) [
    | inr (e, bad) ↦ absurd (ground (arith, u, bad))
    | inl fine ↦
        let same : apply_defaults c ≡ d = ground (arith, u, fine) in
        let valid = (validate_iff (apply_defaults c)).0 fine in
        (
          c,
          u,
          (apply_defaults-IsValid c).0 valid,
          subst (HasDefaults c) same (apply_defaults-HasDefaults c),
        )
  ]
]

load_complete :
    (unmarshal : Bytes → Result Config) (path raw : Bytes) (c d : Config)
    → unmarshal raw ≡ ok c
    → IsComplete c
    → HasDefaults c d
    → load unmarshal path (ok raw) ≡ ok d
unfolding load
load_complete unmarshal path raw c d u complete has =
    let fine = (validate_iff (apply_defaults c)).1 ((apply_defaults-IsValid c).1 complete) in
    rw (u, load) (rw (fine, load) (ap ok (HasDefaults-same c d has)))

-- `Load` gives a configuration exactly when the file can be read and parsed into one that is complete, and what it gives is
-- that one with each text that has a default and is empty, and each timeout that is 0, replaced by its default. To be complete is
-- to name the rules, the template, suricatasc and candidates for the sockets and the configurations, to have no negative timeout
-- for a reload or a start, and not to reload by "shutdown".
pub load_iff :
    (unmarshal : Bytes → Result Config) (path : Bytes) (file : Result Bytes) (d : Config)
    → (load unmarshal path file ≡ ok d) ↔ (
        (raw : Bytes) × (c : Config) × (file ≡ ok raw)
        × (unmarshal raw ≡ ok c)
        × IsComplete c
        × HasDefaults c d)
unfolding load
load_iff unmarshal path (err e) d = (λ h. cc, λ x. cc (x.2))
load_iff unmarshal path (ok raw) d = (
  λ h.
      let (c, u, complete, has) = load_parsed unmarshal path raw d h in
      (raw, c, refl, u, complete, has),
  λ (raw', c, r, u, complete, has).
      let same : raw' ≡ raw = ground (arith, r) in
      load_complete unmarshal path raw c d (rw same at u) complete has,
)
