-- ===== src/Startup.antt =====
-- main.go and main_appliance.go: the first lines of `runREPL` and of `runDaemon`, which make the three
-- servers. `vars` is the environment: the value of each variable, "" where it is not set.
use ztna_lab_appliance.Common.{
  false, ◌&&◌, [], Text, text, is_empty, ◌≡◌, refl, arith, if◌then◌else◌,
}
use ztna_lab_appliance.Dns.Records as DnsRecords
use ztna_lab_appliance.Dns.Records.{World}
use ztna_lab_appliance.Dns.Records.Invariant.{IsValid}
use ztna_lab_appliance.Dns.Server.Lifecycle as Dns
use ztna_lab_appliance.Httpd.Lifecycle as Http
use ztna_lab_appliance.Sshd.Lifecycle as Ssh
use ztna_lab_appliance.Sshd.Sessions.{empty_registry}
use ztna_lab_appliance.Logger.State as LoggerState
use ztna_lab_appliance.Admin.{Plane}
use ztna_lab_appliance.Admin.Sound.{IsSound}

-- `envDefault`
unfoldable pub env_default : (Text → Text) → Text → Text → Text
env_default vars k def = let v = vars k in if is_empty v then def else v

-- The configuration of the SSH server, with a path for the RSA key where no key is configured.
unfoldable pub ssh_config : (Text → Text) → Text → Ssh.Config
ssh_config vars key_path =
    let cfg =
      Ssh.config_from_env (vars (text "ZTNA_SSH_KEY")) (vars (text "ZTNA_SSH_ED25519_KEY"))
        (vars (text "ZTNA_SSH_DEBUG")) in
    if is_empty cfg.rsa_key_path && is_empty cfg.ed25519_key_path
    then record cfg { rsa_key_path = key_path }
    else cfg

-- The defaults of the paths: `runREPL` works in the current directory and `runDaemon` in /data.
pub record Defaults : Type 0 where
  pub records_path : Text
  pub key_path : Text

abbrev pub repl_defaults : Defaults
repl_defaults = record { records_path = text "dns_records.json"; key_path = text "ssh_host_key" }

abbrev pub daemon_defaults : Defaults
daemon_defaults = record {
  records_path = text "/data/dns_records.json";
  key_path = text "/data/ssh_host_key";
}

-- The records once `dns.NewServer` has loaded them.
abbrev pub loaded : Defaults → (Text → Text) → DnsRecords.Os → World → World
loaded d vars os w =
    (Dns.new_server os (env_default vars (text "ZTNA_DNS_RECORDS") d.records_path)
      (text "1.1.1.1:53") w).2

-- The three servers.
unfoldable pub new_plane :
    Defaults → (Text → Text) → DnsRecords.Os → World → LoggerState.Logger → Plane
unfolding env_default ssh_config
new_plane d vars os w logger =
    let (_, dns, w') =
      Dns.new_server os (env_default vars (text "ZTNA_DNS_RECORDS") d.records_path)
        (text "1.1.1.1:53") w in
    record {
      dns = dns;
      http = Http.new_server (text ":80");
      ssh = Ssh.new_server (text ":2222") (ssh_config vars d.key_path);
      registry = empty_registry;
      records = w';
      logger = logger;
      lines = [];
    }

-- None of the servers runs, and their addresses and keys are as configured.
pub record IsFresh (d : Defaults) (vars : Text → Text) (p : Plane) : Type 0 where
  pub sound : IsSound p
  pub dns : Dns.is_running p.dns ≡ false
  pub http : (Http.is_running p.http ≡ false) × (p.http.addr ≡ text ":80")
  pub ssh :
      (Ssh.is_running p.ssh ≡ false)
      × (p.ssh.addr ≡ text ":2222")
      × (p.ssh.cfg ≡ ssh_config vars d.key_path)

module _ (d : Defaults) (vars : Text → Text) (os : DnsRecords.Os) (w : World)
    (logger : LoggerState.Logger) where
  pub new_plane-IsFresh :
      IsValid (loaded d vars os w).store → IsFresh d vars (new_plane d vars os w logger)
  unfolding new_plane Dns.new_server Http.new_server Ssh.new_server Dns.is_running Http.is_running
      Ssh.is_running text
  new_plane-IsFresh valid = record {
    sound = record { dns = refl; http = (refl, refl); ssh = refl; records = valid };
    dns = refl;
    http = (refl, refl);
    ssh = (refl, refl, refl);
  }

-- A key is always configured.
pub ssh_config-HasKey :
    (vars : Text → Text) (path : Text)
    → is_empty path ≡ false
    → let cfg = ssh_config vars path in
      (is_empty cfg.rsa_key_path && is_empty cfg.ed25519_key_path) ≡ false
unfolding ssh_config
ssh_config-HasKey vars path named = ground arith
