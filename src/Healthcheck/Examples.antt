-- ===== src/Healthcheck/Examples.antt =====
-- The theorems on healthchecks, applied to the workers of two targets.
use gobetween.Healthcheck.Probe.{
  close, dial_net, Call, compare_bytes, Answers, probe, with_header, exchange, deadline, try_call,
  do_call, recv_len, complete, read_back, same_bytes, with_close,
}
use gobetween.Base.Bytes.{bytes}
use gobetween.Healthcheck.Probe.Verdicts.{exchange_calls, IsSent, IsAnswered, probe-healthy}
use gobetween.Base.{
  ◌++◌, false, true, Bool, ℕ, List, Option, String, ◌≡◌, refl, none, some, [], ◌∷◌, arith,
}
use gobetween.Base.Int.{pos}
use gobetween.Core.{Target}
use gobetween.Config.{ProbeHealthcheckConfig, HealthcheckConfig}
use gobetween.Healthcheck.Types.{Status, healthy, unhealthy, CheckResult}
use gobetween.Healthcheck.Worker.{Worker, run, Alternates, occurrences, run-Alternates, run_reaches}

abbrev target : Target
target = record { host = "a"; port = "80" }

abbrev other : Target
other = record { host = "b"; port = "80" }

abbrev result : Status → CheckResult
result s = record { target = target; status = s }

abbrev up : CheckResult
up = result healthy

abbrev down : CheckResult
down = result unhealthy

abbrev worker : Worker
worker = record {
  target = target;
  max_fails = pos 3;
  max_passes = pos 2;
  last_result = up;
  passes = 2;
  fails = 0;
}

abbrev config : HealthcheckConfig
config = record {
  kind = "ping";
  interval = "5s";
  passes = pos 2;
  fails = pos 3;
  timeout = "1s";
  proxy_protocol = none;
  initial_status = some "unhealthy";
  probe = none;
}

run-Alternates_example : Alternates healthy (run worker (down ∷ up ∷ down ∷ down ∷ [])).1
run-Alternates_example = run-Alternates worker (down ∷ up ∷ down ∷ down ∷ [])

run_reaches_example : (run worker (down ∷ up ∷ down ∷ up ∷ down ∷ [])).1 ≡ down ∷ []
unfolding occurrences
run_reaches_example =
    run_reaches worker (down ∷ up ∷ down ∷ up ∷ []) down (refl, (refl, (refl, (refl, tt)))) refl
      refl (omega arith) (omega arith)

abbrev ssh : ProbeHealthcheckConfig
ssh = record {
  probe_protocol = "tcp";
  probe_strategy = "starts_with";
  probe_send = "hi";
  probe_recv = "SSH";
  probe_recv_len = pos 0;
}

abbrev answers : Answers
answers = record {
  dialed = true;
  header_sent = false;
  prepended = none;
  write_deadline = true;
  wrote = λ send. some 2;
  read_deadline = true;
  got = λ n. some (83 ∷ 83 ∷ 72 ∷ []);
}

abbrev no_regexp : String → Option (List ℕ → Bool)
no_regexp s = none

probe-healthy_example :
    (answers.dialed ≡ true)
    × (send : List ℕ) × (header : List Call) × (n : ℕ) × IsSent none ssh answers send header
    × IsAnswered no_regexp ssh answers send n
    × ((probe no_regexp true none ssh answers).calls
        ≡ dial_net "tcp" ∷ ((header ++ exchange_calls no_regexp true send n) ++ (close ∷ [])))
unfolding probe with_header exchange deadline try_call do_call recv_len complete read_back
    compare_bytes same_bytes with_close bytes
probe-healthy_example = probe-healthy no_regexp true none ssh answers refl
