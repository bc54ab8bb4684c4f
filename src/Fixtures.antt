-- ===== src/Fixtures.antt =====
-- Data of the tests that several parts share: a state of the daemon and the answers of the outside.
use ztna_lab_appliance.Common.{
  Bool, true, false, [], none, some, Text, text, lookup, refl, inl, ltb,
}
use ztna_lab_appliance.Dns.Records as DnsRecords
use ztna_lab_appliance.Dns.Records.Invariant.{IsValid}
use ztna_lab_appliance.Logger.State as LoggerState
use ztna_lab_appliance.Latency.{Attempt}
use ztna_lab_appliance.Admin.{Plane, Outside}
use ztna_lab_appliance.Admin.Sound.{IsSound}

-- An HTTP port in use, a disk that refuses writes, everything else in order.
abbrev pub outside : Outside
outside = record {
  records_os = record { readable = true; write = DnsRecords.Write.refused; renames = true };
  logger_os = record {
    now = text "t";
    opens = λ p. true;
    accepts = λ n. n;
    removes = true;
    renames = true;
    stats = true;
    counts = true;
    env = λ name. [];
    fallback = text "/t";
  };
  dns_listen = none;
  dns_shutdown = none;
  http_listen = some (text "in use");
  http_shutdown = none;
  ssh_answers = record { rsa = none; ed25519 = none; listen = none };
  ssh_close = none;
  reads = λ p. true;
  attempts = λ i. Attempt.failed;
  allocates = λ n. ltb n 1_000_000;
  std_dev = λ samples mean. 0;
}

-- No records, on a disk with no files.
abbrev pub empty_records : DnsRecords.World
empty_records = record {
  store = record { a = []; cname = []; path = text "/r"; loaded = true };
  disk = [];
  log = [];
}

abbrev pub no_log : LoggerState.Logger
no_log = record {
  file = false;
  cur_path = [];
  written = 0;
  line_cnt = 0;
  max_lines = 5000;
  max_bytes = 65536;
  enabled = [];
  files = [];
  stdout = [];
}

-- A new daemon, with no records.
abbrev pub plane : Plane
plane = record {
  dns = record { addr = text ":53"; upstream = text "1.1.1.1:53"; srv = false; running = false };
  http = record { addr = text ":80"; srv = false; running = false; pending = 0 };
  ssh = record {
    addr = text ":2222";
    cfg = record { rsa_key_path = text "/data/k"; ed25519_key_path = []; debug = false };
    listener = false;
    running = false;
    debug_flag = false;
  };
  registry = record { sessions = []; next_id = 0 };
  records = empty_records;
  logger = no_log;
  lines = [];
}

pub empty_records-IsValid :
    (path : Text) (loaded : Bool)
    → IsValid (record { a = []; cname = []; path = path; loaded = loaded })
unfolding lookup
empty_records-IsValid path loaded = record {
  disjoint = λ k. inl refl;
  named_a = refl;
  named_cname = refl;
  addresses = λ k ip e. cc;
  no_self_alias = λ k t e. cc;
}

pub plane-IsSound : IsSound plane
plane-IsSound = record {
  dns = refl;
  http = (refl, refl);
  ssh = refl;
  records = empty_records-IsValid (text "/r") true;
}
