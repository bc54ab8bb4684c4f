-- ===== src/Cli/Local/Sound.antt =====
-- main.go: what `dispatchLocal` does to the state of the components.
use ztna_lab_appliance.Common.{
  Bool, ◌&&◌, Bool-cases, true, false, not, pos, List, [], ◌∷◌, ◌++◌, Option, none, some, Text,
  text, text_eq, LogCall, ◌≡◌, ◌⊎◌, inl, inr, refl, if◌then◌else◌,
}
use ztna_lab_appliance.Service.{Outcome, Meets, Call}
use ztna_lab_appliance.Service as Services
use ztna_lab_appliance.Dns.Records as DnsRecords
use ztna_lab_appliance.Dns.Records.{World}
use ztna_lab_appliance.Dns.Records.Invariant.{
  IsValid, add_a-IsValid, add_cname-IsValid, remove-IsValid,
}
use ztna_lab_appliance.Dns.Server.Lifecycle as Dns
use ztna_lab_appliance.Httpd.Lifecycle as Http
use ztna_lab_appliance.Sshd.Lifecycle as Ssh
use ztna_lab_appliance.Latency as Latency
use ztna_lab_appliance.Latency.Results.{run_latency-Returns, run_latency_invalid}
use ztna_lab_appliance.Admin.{Plane, Outside, put_dns, put_http, put_ssh}
use ztna_lab_appliance.Admin.Sound.{IsSound, with_dns, with_http, with_ssh}
use ztna_lab_appliance.Logger.Switches.{modules}
use ztna_lab_appliance.Logger.Tail.{tail}
use ztna_lab_appliance.Cli.{Out, Done, fields}
use ztna_lab_appliance.Cli.Local.{
  report_call, report_records, local_add, local_remove, local_cname, local_module, local_dns,
  local_http, local_ssh, local_log, local_latency, local_command, dispatch_local, latency_out,
  log_usage, tail_out, number_or,
}

-- A command that does not panic and leaves a sound state.
abbrev pub Keeps : Done → Type 0
Keeps done = (out : Out) × (q : Plane) × (done ≡ some (out, q)) × IsSound q

if-Keeps : (b : Bool) {x y : Done} → Keeps x → Keeps y → Keeps (if b then x else y)
if-Keeps true h k = h
if-Keeps false h k = k

-- The first branch may use the test.
if_true-Keeps :
    (b : Bool) {x y : Done} → (b ≡ true → Keeps x) → Keeps y → Keeps (if b then x else y)
if_true-Keeps true h k = h refl
if_true-Keeps false h k = k

-- The samples of a latency run against a valid URL can be allocated.
abbrev pub RunFits : Outside → List Text → Type 0
RunFits o (word ∷ url ∷ args) =
    if text_eq word (text "run") && Latency.valid_url url
    then o.allocates (Latency.or_default (number_or (pos 50) args) 50) ≡ true
    else Unit
RunFits o _ = Unit

-- So they can, if the fields are those of a latency run.
abbrev pub Fits : Outside → List Text → Type 0
Fits o [] = Unit
Fits o (word ∷ args) = if text_eq word (text "latency") then RunFits o args else Unit

report_call-Keeps :
    {S : Type 0} (put : S → List LogCall → Plane) (running : S → Bool) (IsConsistent : S → Type 0)
    (result : Option Services.Error × Bool) (o : Outcome S)
    → Meets running IsConsistent result o
    → ((t : S) (lines : List LogCall) → IsConsistent t → IsSound (put t lines))
    → Keeps (report_call put o)
unfolding report_call
report_call-Keeps put running IsConsistent result Outcome.panics m sound = absurd m
report_call-Keeps put running IsConsistent result (Outcome.returns none t lines) m sound =
    (_, put t lines, refl, sound t lines m.2)
report_call-Keeps put running IsConsistent result (Outcome.returns (some e) t lines) m sound =
    (_, put t lines, refl, sound t lines m.2)

latency_out-Keeps :
    (p : Plane) {outcome : Latency.Outcome}
    → IsSound p
    → (outcome ≡ Latency.Outcome.bad_url)
      ⊎ ((result : Latency.LatencyResult) × (outcome ≡ Latency.Outcome.result result))
    → Keeps (latency_out p outcome)
latency_out-Keeps p s (inl bad) = rw bad (_, p, refl, s)
latency_out-Keeps p s (inr (result, e)) = rw e (_, p, refl, s)

module _ (p : Plane) (s : IsSound p) where
  kept : (out : Out) → Keeps (some (out, p))
  kept out = (out, p, refl, s)

  report_records-Keeps :
      (r : Option DnsRecords.Error × World) → IsValid r.1.store → Keeps (report_records p r)
  unfolding report_records
  report_records-Keeps (none, w) h =
      (_, _, refl, record { dns = s.dns; http = s.http; ssh = s.ssh; records = h })
  report_records-Keeps (some e, w) h =
      (_, _, refl, record { dns = s.dns; http = s.http; ssh = s.ssh; records = h })

  pub dns-Keeps : (c : Call (Option Text)) → Keeps (report_call (put_dns p) (Dns.perform c p.dns))
  dns-Keeps c =
      report_call-Keeps (put_dns p) Dns.is_running Dns.IsConsistent _ (Dns.perform c p.dns)
        (Dns.perform-Meets c p.dns s.dns) (with_dns p s)

  pub http-Keeps :
      (c : Call (Option Text)) → Keeps (report_call (put_http p) (Http.perform c p.http))
  http-Keeps c =
      report_call-Keeps (put_http p) Http.is_running (Http.IsConsistent p.http.addr) _
        (Http.perform c p.http) (Http.perform-Meets p.http.addr c p.http (s.http, refl))
        (with_http p s)

  pub ssh-Keeps : (c : Call Ssh.Answers) → Keeps (report_call (put_ssh p) (Ssh.perform c p.ssh))
  ssh-Keeps c =
      report_call-Keeps (put_ssh p) Ssh.is_running (Ssh.IsConsistent p.ssh.addr p.ssh.cfg) _
        (Ssh.perform c p.ssh) (Ssh.perform-Meets p.ssh.addr p.ssh.cfg c p.ssh (s.ssh, refl, refl))
        (with_ssh p s)

  local_add-Keeps : (o : Outside) (args : List Text) → Keeps (local_add o args p)
  unfolding local_add
  local_add-Keeps o (name ∷ ip ∷ []) =
      report_records-Keeps _ (add_a-IsValid o.records_os name ip p.records s.records)
  local_add-Keeps o _ = kept _

  local_remove-Keeps : (o : Outside) (args : List Text) → Keeps (local_remove o args p)
  unfolding local_remove
  local_remove-Keeps o (name ∷ []) =
      report_records-Keeps _ (remove-IsValid o.records_os name p.records s.records)
  local_remove-Keeps o _ = kept _

  local_cname-Keeps : (o : Outside) (args : List Text) → Keeps (local_cname o args p)
  unfolding local_cname
  local_cname-Keeps o (word ∷ alias ∷ target ∷ []) =
      if-Keeps _
        (report_records-Keeps _ (add_cname-IsValid o.records_os alias target p.records s.records))
        (kept _)
  local_cname-Keeps o _ = kept _

  local_dns-Keeps : (o : Outside) (args : List Text) → Keeps (local_dns o args p)
  unfolding local_dns Dns.perform
  local_dns-Keeps o [] = kept _
  local_dns-Keeps o (sub ∷ args) = if-Keeps _ (dns-Keeps (Call.start_call o.dns_listen)) (
      if-Keeps _ (dns-Keeps (Call.stop_call o.dns_shutdown)) (
        if-Keeps _ (kept _) (
          if-Keeps _ (local_add-Keeps o args) (
            if-Keeps _ (local_remove-Keeps o args)
              (if-Keeps _ (local_cname-Keeps o args) (kept _))))))

  local_http-Keeps : (o : Outside) (args : List Text) → Keeps (local_http o args p)
  unfolding local_http Http.perform
  local_http-Keeps o (sub ∷ []) =
      if-Keeps _ (http-Keeps (Call.start_call o.http_listen))
        (if-Keeps _ (http-Keeps (Call.stop_call o.http_shutdown)) (kept _))
  local_http-Keeps o _ = kept _

  local_ssh-Keeps : (o : Outside) (args : List Text) → Keeps (local_ssh o args p)
  unfolding local_ssh Ssh.perform
  local_ssh-Keeps o [] = kept _
  local_ssh-Keeps o (sub ∷ args) =
      if-Keeps _ (ssh-Keeps (Call.start_call o.ssh_answers))
        (if-Keeps _ (ssh-Keeps (Call.stop_call o.ssh_close)) (if-Keeps _ (kept _) (kept _)))

  local_module-Keeps : (o : Outside) (args : List Text) → Keeps (local_module o args p)
  unfolding local_module
  local_module-Keeps o (name ∷ state ∷ []) =
      if-Keeps _ (kept _)
        (_, _, refl, record { dns = s.dns; http = s.http; ssh = s.ssh; records = s.records })
  local_module-Keeps o _ = kept _

  local_log-Keeps : (o : Outside) (args : List Text) → Keeps (local_log o args p)
  unfolding local_log
  local_log-Keeps o [] = kept _
  local_log-Keeps o (sub ∷ args) =
      if-Keeps (text_eq sub (text "modules")) (kept (Out.module_table (modules p.logger.enabled))) (
        if-Keeps (text_eq sub (text "module")) (local_module-Keeps o args) (
          if-Keeps (not (text_eq sub (text "tail"))) (kept (Out.usage log_usage)) (
            kept (
              tail_out (
                tail o.reads (number_or (pos 50) args) p.logger.cur_path p.logger.files
                  p.logger.files)))))

  local_latency-Keeps :
      (o : Outside) (args : List Text) → RunFits o args → Keeps (local_latency o args p)
  unfolding local_latency
  local_latency-Keeps o (word ∷ url ∷ args) fits = elim (Bool-cases (text_eq word (text "run"))) [
    | inr other ↦ rw other (kept _)
    | inl run ↦ elim (Bool-cases (Latency.valid_url url)) [
      | inl valid ↦ rw run (
          latency_out-Keeps p s (
            run_latency-Returns o.allocates o.std_dev url _ _ o.attempts (rw (run, valid) at fits)))
      | inr invalid ↦ rw run (
          latency_out-Keeps p s
            (inl (run_latency_invalid o.allocates o.std_dev url _ _ o.attempts invalid)))
    ]
  ]
  local_latency-Keeps o _ fits = kept _

  local_command-Keeps :
      (o : Outside) (parts : List Text) → Fits o parts → Keeps (local_command o parts p)
  unfolding local_command
  local_command-Keeps o [] fits = kept _
  local_command-Keeps o (word ∷ args) fits =
      let up = Out.up_down (Dns.is_running p.dns) (Http.is_running p.http) (Ssh.is_running p.ssh) in
      if-Keeps (text_eq word (text "status")) (kept up) (
        if-Keeps (text_eq word (text "dns")) (local_dns-Keeps o args) (
          if-Keeps (text_eq word (text "http")) (local_http-Keeps o args) (
            if-Keeps (text_eq word (text "ssh")) (local_ssh-Keeps o args) (
              if-Keeps (text_eq word (text "log")) (local_log-Keeps o args) (
                if_true-Keeps (text_eq word (text "latency"))
                  (λ run. local_latency-Keeps o args (rw run at fits))
                  (if-Keeps (text_eq word (text "clear")) (kept Out.clear_screen) (
                    if-Keeps (text_eq word (text "help")) (kept Out.help) (
                      kept (
                        Out.message
                          (text "unknown command: " ++ word ++ text " (type 'help')"))))))))))

  pub dispatch_local-Keeps :
      (o : Outside) (line : Text) → Fits o (fields line) → Keeps (dispatch_local o line p)
  unfolding dispatch_local
  dispatch_local-Keeps o line fits = local_command-Keeps o (fields line) fits
