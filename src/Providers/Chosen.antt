-- ===== src/Providers/Chosen.antt =====
-- Which of the options and the configuration an agent is made of.
use integration_suricata_n_d.Base.{
  Bool, true, ◌≢◌, ◌⊎◌, refl, List, Bool-cases, false, none, [], ◌∷◌, ◌≡◌, sym, ap, subst, ◌∙◌,
  arith, Bytes, codes, inl, inr, if◌then◌else◌,
}
use integration_suricata_n_d.Text.{trim_space}
use integration_suricata_n_d.Config.{Config, is_empty, load}
use integration_suricata_n_d.Config.Checks.{IsFilled, or_default-IsFilled}
use integration_suricata_n_d.Service.{first_path_of}
use integration_suricata_n_d.Sys.{
  Error, Node, stat, err, Result, ok, Result-cases, World, read_file,
}
use integration_suricata_n_d.Agent.{Deps}
use integration_suricata_n_d.Serve.{Server, Outside, new_server}
use integration_suricata_n_d.Serve.Made.{IsComplete, Listens, HasTimes, new_server-Listens}
use integration_suricata_n_d.Providers.{
  HostAgentOptions, first_non_empty, agent_deps, suricata_path, agent_of_config,
  new_host_agent_service, ServeFlags, serve_options,
}

abbrev pub is_blank : Bytes → Bool
is_blank s = is_empty (trim_space s)

first_non_empty_lem :
    (s t : Bytes)
    → is_empty (first_non_empty (s ∷ t ∷ [])) ≡ false
    → first_non_empty (s ∷ t ∷ []) ≡ (if is_blank s then t else s)
unfolding first_non_empty
first_non_empty_lem s t h = ground (arith, h)

-- The first of the paths that a look finds, with the machine after it; the looks at those before it gave an error.
pub data FirstSeen : List Bytes → World → Bytes → World → Type 0 where
  seen :
      (p : Bytes) (paths : List Bytes) (w : World) (n : Node)
      → (stat p w).0 ≡ ok n
      → FirstSeen (p ∷ paths) w p (stat p w).1
  unseen :
      (p : Bytes) (paths : List Bytes) (w : World) (e : Error) (q : Bytes) (u : World)
      → (stat p w).0 ≡ err e
      → FirstSeen paths (stat p w).1 q u
      → FirstSeen (p ∷ paths) w q u

first_path_of-FirstSeen :
    (all paths : List Bytes) (w : World) (q : Bytes)
    → (first_path_of all paths w).0 ≡ ok q
    → FirstSeen paths w q (first_path_of all paths w).1
unfolding first_path_of
first_path_of-FirstSeen all [] w q h = absurd (ground (arith, h))
first_path_of-FirstSeen all (p ∷ paths) w q h = elim (Result-cases (stat p w).0) [
  | inl (n, e) ↦
      let same : p ≡ q = ground (arith, rw (e, first_path_of) at h) in
      rw (e, first_path_of)
        (subst (λ k. FirstSeen (p ∷ paths) w k (stat p w).1) same (seen p paths w n e))
  | inr (x, e) ↦
      rw (e, first_path_of)
        (unseen p paths w x q _ e
          (first_path_of-FirstSeen all paths (stat p w).1 q (rw (e, first_path_of) at h)))
]

-- The configuration of Suricata: the one that the options name, with no look at it, or the first candidate that is there.
abbrev pub PathChosen : HostAgentOptions → Config → World → Bytes → World → Type 0
PathChosen opts c w path u =
    ((opts.suricata_config ≢ []) × (path ≡ opts.suricata_config) × (u ≡ w))
    ⊎ ((opts.suricata_config ≡ []) × FirstSeen c.suricata.config_candidates w path u)

suricata_path-PathChosen :
    (opts : HostAgentOptions) (c : Config) (w : World) (path : Bytes)
    → (suricata_path opts c w).0 ≡ ok path
    → PathChosen opts c w path (suricata_path opts c w).1
unfolding suricata_path
suricata_path-PathChosen opts c w path h = elim (Bool-cases (is_empty opts.suricata_config)) [
  | inl e ↦
      rw (e, suricata_path)
        (inr (
          is_empty_nil opts.suricata_config e,
          first_path_of-FirstSeen c.suricata.config_candidates c.suricata.config_candidates w path
              (rw (e, suricata_path) at h),
        ))
  | inr e ↦
      let same : path ≡ opts.suricata_config = ground (arith, rw (e, suricata_path) at h) in
      rw (e, suricata_path) (inl ((λ z. ground (arith, e, ap is_empty z)), same, refl))
]
  where
    is_empty_nil : (s : Bytes) → is_empty s ≡ true → s ≡ []
    is_empty_nil [] h = refl
    is_empty_nil (c ∷ s) h = cc

agent_of_config_lem :
    (o : Outside) (opts : HostAgentOptions) (c : Config) (w : World) (s : Server)
    → (agent_of_config o opts c w).0 ≡ ok s
    → (path : Bytes) × ((suricata_path opts c w).0 ≡ ok path)
      × ((new_server o (agent_deps opts c path) (suricata_path opts c w).1).0 ≡ ok s)
unfolding agent_of_config
agent_of_config_lem o opts c w s h = elim (Result-cases (suricata_path opts c w).0) [
  | inl (path, e) ↦ (path, e, rw (e, agent_of_config) at h)
  | inr (x, e) ↦ absurd (ground (arith, rw (e, agent_of_config) at h))
]

new_host_agent_service_lem :
    (unmarshal : Bytes → Result Config) (o : Outside) (opts : HostAgentOptions) (w : World)
    (s : Server)
    → (new_host_agent_service unmarshal o opts w).0 ≡ ok s
    → let (raw, w') = read_file opts.config_path w in
      (c : Config) × (load unmarshal opts.config_path raw ≡ ok c)
      × ((agent_of_config o opts c w').0 ≡ ok s)
unfolding new_host_agent_service
new_host_agent_service_lem unmarshal o opts w s h =
    elim (Result-cases (load unmarshal opts.config_path (read_file opts.config_path w).0)) [
      | inl (c, e) ↦ (c, e, rw (e, new_host_agent_service) at h)
      | inr (x, e) ↦ absurd (ground (arith, rw (e, new_host_agent_service) at h))
    ]

HasTimes-IsComplete : (d e : Deps) → HasTimes d e → IsComplete d → IsComplete e
HasTimes-IsComplete d e h i = (
  subst (λ p. is_empty p ≡ false) (sym h.socket_same) i.0,
  subst (λ p. is_empty p ≡ false) (sym h.config_same) i.1,
  subst (λ p. is_empty p ≡ false) (sym h.plugin_same) i.2,
  subst (λ p. is_empty p ≡ false) (sym h.unit_same) i.3,
)

pub new_host_agent_service-Chosen :
    (unmarshal : Bytes → Result Config) (o : Outside) (opts : HostAgentOptions) (w : World)
    (s : Server)
    → (new_host_agent_service unmarshal o opts w).0 ≡ ok s
    → let (raw, w1) = read_file opts.config_path w in
      (c : Config) × (u : World) × (load unmarshal opts.config_path raw ≡ ok c)
      × (s.deps.socket_path
          ≡ (if is_blank opts.socket_path then c.http.host_agent_socket else opts.socket_path))
      × PathChosen opts c w1 s.deps.suricata_cfg_path u
      × IsFilled opts.systemd_unit c.system.suricata_service s.deps.suricata_unit
      × IsFilled opts.ndpi_plugin_path c.paths.ndpi_plugin_path s.deps.ndpi_plugin_path
      × IsFilled opts.systemctl_path c.system.systemctl s.deps.systemctl_path
      × (s.deps.suricata_socket_candidates ≡ c.suricata.socket_candidates)
      × (s.deps.suricata_sc_path ≡ c.paths.suricatasc)
      × (s.deps.reload_command ≡ c.reload.command)
      × (s.deps.reload_timeout ≡ c.reload.timeout)
      × IsComplete s.deps
      × Listens o s.deps.socket_path u s.listener
new_host_agent_service-Chosen unmarshal o opts w s h =
    let (c, loads, of_config) = new_host_agent_service_lem unmarshal o opts w s h in
    let w1 = (read_file opts.config_path w).1 in
    let (path, found, made) = agent_of_config_lem o opts c w1 s of_config in
    let d = agent_deps opts c path in
    let u = (suricata_path opts c w1).1 in
    let (complete, listens, has, _) = (new_server-Listens o d u s).0 made in
    let unit = c.system.suricata_service in
    let plugin = c.paths.ndpi_plugin_path in
    let systemctl = c.system.systemctl in
    (
      c,
      u,
      loads,
      has.socket_same ∙ first_non_empty_lem opts.socket_path c.http.host_agent_socket complete.0,
      subst (λ p. PathChosen opts c w1 p u) (sym has.config_same)
          (suricata_path-PathChosen opts c w1 path found),
      subst (IsFilled opts.systemd_unit unit) (sym has.unit_same)
          (or_default-IsFilled opts.systemd_unit unit),
      subst (IsFilled opts.ndpi_plugin_path plugin) (sym has.plugin_same)
          (or_default-IsFilled opts.ndpi_plugin_path plugin),
      subst (IsFilled opts.systemctl_path systemctl) (sym has.systemctl_same)
          (or_default-IsFilled opts.systemctl_path systemctl),
      has.candidates_same,
      has.suricatasc_same,
      has.command_same,
      has.reload_same,
      HasTimes-IsComplete d s.deps has complete,
      subst (λ p. Listens o p u s.listener) (sym has.socket_same) listens,
    )

-- An agent that is served without `--sock` listens on `/run/ndpi-agent.sock`, whatever socket the configuration names for it.
pub serve_options_sock :
    (unmarshal : Bytes → Result Config) (o : Outside) (f : ServeFlags) (w : World) (s : Server)
    → f.sock ≡ none
    → (new_host_agent_service unmarshal o (serve_options f) w).0 ≡ ok s
    → s.deps.socket_path ≡ codes "/run/ndpi-agent.sock"
unfolding serve_options trim_space
serve_options_sock unmarshal o f w s n h =
    let chosen = (new_host_agent_service-Chosen unmarshal o (serve_options f) w s h).3 in
    ground (arith, chosen, n)
