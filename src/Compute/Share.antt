-- ===== src/Compute/Share.antt =====
-- Shares of internal/compute: the work that a worker is given (buildWork, targetForDifficulty), the
-- block header (stratumHeaderBytes) and verifyShare. `sha256` stands for crypto/sha256.
pub mod Verdicts
pub mod Target
pub mod Proof
use archivon.Prelude.{
  ℕ, zero, suc, ◌+◌, ◌-◌, ◌*◌, ◌/◌, ◌^◌, Bool, true, false, not, ◌&&◌, ◌||◌, List, [], ◌∷◌, ◌++◌,
  Option, none, some, String, Result, ok, err, ℤ, pos, negsuc, leb, leb_ℤ, ltb, ◌==◌, if◌then◌else◌,
  length, take, filter,
}
use archivon.Text.Trim.{Text, codes, text_eq, to_lower}
use archivon.Compute.Hex.{
  decode_string, encode_to_string, hex_len, digits_after, print_digits, reverse_bytes,
  reverse_hex_bytes, reverse_hex_words,
}
use archivon.Compute.Coinbase.{build_valid_coinbase_parts}

-- The column values of the running job that the gateway works for.
pub record RunningJob : Type 0 where
  pub id : ℕ
  pub tenant : ℕ
  pub user : ℕ
  pub required_work : ℕ
  pub required_hashrate : ℕ
  pub min_workers : ℕ
  pub tolerance : ℕ
  pub proof_window_seconds : ℕ
  pub max_proof_attempts : ℕ
  pub started_at : ℕ

-- `difficulty` and `work` are in millionths.
pub record Work : Type 0 where
  pub pow_job : ℕ
  pub stratum_id : Text
  pub extranonce1 : Text
  pub coinb1 : Text
  pub coinb2 : Text
  pub prevhash : Text
  pub version : Text
  pub nbits : Text
  pub ntime : Text
  pub target_hex : Text
  pub difficulty : ℕ
  pub work : ℕ

-- diff1TargetHex and maxTargetHex as numbers
abbrev pub diff1_target : ℕ
diff1_target = 65535 * 2 ^ 208

abbrev pub max_target : ℕ
max_target = 2 ^ 256 - 1

-- A float64 difficulty: not a number, an infinity, or a number of millionths.
pub data Difficulty : Type 0 where
  nan : Difficulty
  infinity : Difficulty
  minus_infinity : Difficulty
  millionths : ℤ → Difficulty

-- `target.Sign() <= 0` and `target.Cmp(maxTarget) > 0`
abbrev pub bound_target : ℕ → Result String ℕ
bound_target zero = err "target is zero"
bound_target (suc t) = ok (if ltb max_target (suc t) then max_target else suc t)

unfoldable pub target_for_difficulty : Difficulty → Result String ℕ
target_for_difficulty nan = err "invalid difficulty"
target_for_difficulty infinity = err "invalid difficulty"
target_for_difficulty minus_infinity = err "invalid difficulty"
target_for_difficulty (millionths (negsuc n)) = err "invalid difficulty"
target_for_difficulty (millionths (pos zero)) = err "invalid difficulty"
target_for_difficulty (millionths (pos (suc d))) = bound_target (diff1_target * 1000000 / suc d)

-- The number of millionths of a difficulty that has a target.
abbrev pub magnitude : Difficulty → ℕ
magnitude (millionths (pos d)) = d
magnitude _ = 0

-- difficulty * diff1WorkTH, rounded to the six places of pow_shares.work_th
unfoldable pub work_of_difficulty : ℕ → ℕ
work_of_difficulty d = (d * 4294967296 + 500000000000) / 1000000000000

-- What buildWork takes from elsewhere: the text of the job's uuid, the hash of the seed that names the
-- job and its start, and the clock in seconds.
pub record WorkSource : Type 0 where
  pub uuid_text : ℕ → Text
  pub seed_hash : ℕ → ℕ → Text
  pub unix_seconds : ℕ

abbrev pub stratum_id_of : Text → Text
stratum_id_of uuid = take 24 (filter (λ c. not (c == b'-')) uuid)

unfoldable pub work_for :
    WorkSource → RunningJob → Text → Difficulty → (target : ℕ) (coinb : Text × Text) → Work
unfolding encode_to_string print_digits work_of_difficulty
work_for src job extranonce1 difficulty target coinb = record {
  pow_job = job.id;
  stratum_id = stratum_id_of (src.uuid_text job.id);
  extranonce1 = extranonce1;
  coinb1 = coinb.0;
  coinb2 = coinb.1;
  prevhash = encode_to_string (src.seed_hash job.id job.started_at);
  version = codes "20000000";
  nbits = codes "1d00ffff";
  ntime = print_digits 8 src.unix_seconds;
  target_hex = print_digits 64 target;
  difficulty = magnitude difficulty;
  work = work_of_difficulty (magnitude difficulty);
}

unfoldable pub build_work :
    WorkSource
    → RunningJob
    → (extranonce1 : Text) → Difficulty
    → (extranonce2_size : ℤ) → Result String Work
unfolding target_for_difficulty build_valid_coinbase_parts work_for
build_work src job extranonce1 difficulty size = elim (target_for_difficulty difficulty) [
  | err e ↦ err e
  | ok target ↦ elim (build_valid_coinbase_parts extranonce1 size) [
    | err e ↦ err e
    | ok coinb ↦ ok (work_for src job extranonce1 difficulty target coinb)
  ]
]

abbrev pub header_of :
    Option Text → Option Text → Text → Option Text → Option Text → Option Text → Option Text
header_of (some version) (some previous) merkle (some time) (some bits) (some nonce) =
    let header = version ++ (previous ++ (merkle ++ (time ++ (bits ++ nonce)))) in
    if length header == 80 then some header else none
header_of _ _ merkle _ _ _ = none

-- stratumHeaderBytes; verifyShare drops the error value
unfoldable pub stratum_header_bytes :
    (version prevhash merkle ntime nbits nonce : Text) → Option Text
unfolding reverse_hex_bytes reverse_hex_words
stratum_header_bytes version prevhash merkle ntime nbits nonce =
    header_of (reverse_hex_bytes version) (reverse_hex_words prevhash) merkle
      (reverse_hex_bytes ntime) (reverse_hex_bytes nbits) (reverse_hex_bytes nonce)

-- big.Int.SetBytes
unfoldable pub big_endian : ℕ → Text → ℕ
big_endian acc [] = acc
big_endian acc (b ∷ bs) = big_endian (acc * 256 + b) bs

abbrev pub negated : ℕ → ℤ
negated zero = pos 0
negated (suc n) = negsuc n

abbrev pub unsigned : Text → Option ℕ
unsigned [] = none
unsigned (c ∷ s) = digits_after 0 (c ∷ s)

-- big.Int.SetString(s, 16): digits with at most one sign before them
unfoldable pub set_string : Text → Option ℤ
unfolding digits_after
set_string [] = none
set_string (c ∷ s) =
    if c == b'-'
    then elim (unsigned s) [ none ↦ none | some n ↦ some (negated n) ]
    else elim (unsigned (if c == b'+' then s else c ∷ s)) [ none ↦ none | some n ↦ some (pos n) ]

-- The three results of verifyShare.
pub record Verdict : Type 0 where
  pub valid : Bool
  pub hash_hex : Text
  pub reason : String

abbrev pub refused : Text → String → Verdict
refused hash reason = record { valid = false; hash_hex = hash; reason = reason }

abbrev pub compare_target : Text → Option ℤ → Verdict
compare_target block_hash none = refused (encode_to_string block_hash) "invalid_target"
compare_target block_hash (some target) =
    if leb_ℤ (pos (big_endian 0 block_hash)) target
    then record { valid = true; hash_hex = encode_to_string block_hash; reason = "" }
    else refused (encode_to_string block_hash) "hash_above_target"

module _ (sha256 : Text → Text) where
  abbrev pub sha256d : Text → Text
  sha256d bytes = sha256 (sha256 bytes)

  abbrev pub judge_header : Work → Option Text → Verdict
  judge_header w none = refused [] "invalid_header"
  judge_header w (some header) =
      compare_target (reverse_bytes (sha256d header)) (set_string w.target_hex)

  abbrev pub judge_coinbase : Work → (ntime nonce version : Text) → Option Text → Verdict
  judge_coinbase w ntime nonce version none = refused [] "invalid_coinbase"
  judge_coinbase w ntime nonce version (some coinbase) =
      judge_header w
        (stratum_header_bytes version w.prevhash (sha256d coinbase) ntime w.nbits nonce)

  abbrev pub coinbase_of : Work → (extranonce2 : Text) → Option Text
  coinbase_of w extranonce2 =
      decode_string (w.coinb1 ++ (w.extranonce1 ++ (to_lower extranonce2 ++ w.coinb2)))

  unfoldable pub verify_share :
      Work → (stratum_job extranonce2 ntime nonce version : Text) → Verdict
  unfolding text_eq hex_len stratum_header_bytes reverse_bytes set_string big_endian
  verify_share w stratum_job extranonce2 ntime nonce version =
      if not (text_eq stratum_job w.stratum_id)
      then refused [] "job_id_mismatch"
      else if not (hex_len version 8)
      then refused [] "invalid_version"
      else if not (hex_len extranonce2 8)
      then refused [] "invalid_extranonce2"
      else if not (hex_len ntime 8) || not (text_eq (to_lower ntime) w.ntime)
      then refused [] "invalid_ntime"
      else if not (hex_len nonce 8)
      then refused [] "invalid_nonce"
      else judge_coinbase w ntime nonce version (coinbase_of w extranonce2)
