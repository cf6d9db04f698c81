-- ===== src/Compute/Examples.antt =====
-- A gateway with one worker that is connected, and the work that it has.
use archivon.Prelude.{◌*◌, ◌/◌, true, Option, none, some, List, [], ◌∷◌, pos, replicate}
use archivon.Text.Trim.{Text, codes}
use archivon.Store.{seconds}
use archivon.Access.Reconcile.{Oracle}
use archivon.Access.Examples.{busy, example_env}
use archivon.Compute.Hex.{encode_to_string}
use archivon.Compute.Coinbase.{coinbase_head, coinbase_tail}
use archivon.Compute.Share.{
  RunningJob, Work, WorkSource, Difficulty, millionths, work_for, diff1_target,
}
use archivon.Compute.Policy.{Policy}
use archivon.Compute.Gateway.{Gateway, Entry, StratumState, WorkerRow, connected}
use archivon.Compute.Stratum.{GatewayEnv, Request, Session, Method, text}
use archivon.Compute.Stratum.Exclusive.{access_reconciler}

-- Each reading of the clock is two seconds after the start; the new session is 20.
abbrev pub oracle : Oracle
oracle = record { clock = λ k. seconds 2; fresh = λ k. 20 }

abbrev pub source : WorkSource
source = record {
  uuid_text = λ n. codes "0000000a-0000-4000-8000-00000000000a";
  seed_hash = λ job start. replicate 32 7;
  unix_seconds = 1700000000;
}

abbrev pub difficulty : Difficulty
difficulty = millionths (pos 2500)

abbrev pub job : RunningJob
job = record {
  id = 10;
  tenant = 1;
  user = 5;
  required_work = 100;
  required_hashrate = 1000000;
  min_workers = 1;
  tolerance = 10000000;
  proof_window_seconds = 60;
  max_proof_attempts = 3;
  started_at = 0;
}

abbrev pub extranonce1 : Text
extranonce1 = codes "0a0b0c0d"

abbrev pub work : Work
work =
    work_for source job extranonce1 difficulty (diff1_target * 1000000 / 2500)
      (encode_to_string (coinbase_head 20), encode_to_string coinbase_tail)

abbrev pub policy : Policy
policy = record {
  enabled = true;
  bind_address = codes ":3333";
  stratum_port = pos 3333;
  share_difficulty = difficulty;
  extranonce2_size = pos 4;
  password_configured = true;
  password_hash = codes "hash";
}

-- A hash of 32 zeros, which is under every target; the password is the hash itself.
abbrev pub env : GatewayEnv
env = record {
  sha256 = λ bytes. replicate 32 0;
  source = source;
  unmarshal_policy = λ raw. some policy;
  split_host_port = λ address. none;
  listen_address = codes ":3333";
  password_matches = archivon.Text.Trim.text_eq;
  default_tenant = some 1;
  reconciler = some (access_reconciler example_env oracle (seconds 2));
  writable = λ sent. true;
  fresh = 40;
  now = seconds 2;
}

abbrev pub connection : Option Work → StratumState
connection current = record {
  id = codes "c1";
  peer = codes "10.0.0.1:5000";
  tenant = some 1;
  worker = some 3;
  worker_name = codes "rig";
  subscribed = true;
  authorized = true;
  extranonce1 = extranonce1;
  extranonce2_size = 4;
  current_work = current;
  version_rolling = true;
  version_mask = codes "00c00000";
  invalid_log_count = 0;
  dispatching = true;
}

abbrev pub worker_row : WorkerRow
worker_row = record {
  id = 3;
  tenant = 1;
  worker_name = codes "rig";
  status = connected;
  connection_count = 1;
  last_seen_at = none;
  last_connected_at = none;
  last_disconnected_at = none;
  stats_reset_at = none;
  last_ip = none;
  last_error = none;
}

abbrev pub gateway : List Entry → Gateway
gateway entries = record { db = busy; workers = worker_row ∷ []; connections = entries }

abbrev pub session : Option Work → Session
session current = record { gateway = gateway []; conn = connection current; sent = [] }

abbrev pub stratum_id : Text
stratum_id = codes "0000000a0000400080000000"

-- The time 1700000000 is 6553f100 in hexadecimal.
abbrev pub submission : Request
submission = record {
  id = codes "1";
  method = Method.submit;
  params =
      text (codes "rig")
      ∷ text stratum_id
      ∷ text (codes "00000001")
      ∷ text (codes "6553f100")
      ∷ text (codes "00000000")
      ∷ [];
}
