-- ===== src/Compute/Policy.antt =====
-- The gateway's policy: normalizePolicy, validatePolicy, sanitizePolicy and portFromAddress of
-- internal/compute. `split_host_port` stands for net.SplitHostPort.
use archivon.Prelude.{
  ℕ, ◌+◌, ◌-◌, ◌*◌, Bool, not, ◌&&◌, ◌||◌, Option, none, some, [], ◌∷◌, ℤ, pos, leb, leb_ℤ, ltb_ℤ,
  eqb_ℤ, ◌==◌, if◌then◌else◌,
}
use archivon.Text.Trim.{Text, trim_space, is_empty, after_prefix}
use archivon.Compute.Share.{Difficulty, nan, infinity, minus_infinity, millionths}

pub record Policy : Type 0 where
  pub enabled : Bool
  pub bind_address : Text
  pub stratum_port : ℤ
  pub share_difficulty : Difficulty
  pub extranonce2_size : ℤ
  pub password_configured : Bool
  pub password_hash : Text

abbrev pub next_decimal : ℕ → ℕ → Option ℕ
next_decimal acc c = if leb b'0' c && leb c b'9' then some (acc * 10 + (c - b'0')) else none

unfoldable pub decimal_after : ℕ → Text → Option ℕ
decimal_after acc [] = some acc
decimal_after acc (c ∷ s) = elim (next_decimal acc c) [ none ↦ none | some n ↦ decimal_after n s ]

abbrev pub unsigned : Text → Option ℕ
unsigned [] = none
unsigned (c ∷ s) = decimal_after 0 (c ∷ s)

-- `err != nil || parsed <= 0`, of a number that fits an int of 64 bits
abbrev pub port_or : ℕ → Option ℕ → ℕ
port_or fallback none = fallback
port_or fallback (some n) = if n == 0 || leb 9223372036854775808 n then fallback else n

-- strconv.Atoi with its test; a negative number takes the fallback as well
unfoldable pub port_of : ℕ → Text → ℕ
unfolding decimal_after
port_of fallback [] = fallback
port_of fallback (c ∷ s) =
    if c == b'-' then fallback else port_or fallback (unsigned (if c == b'+' then s else c ∷ s))

module _ (split_host_port : Text → Option (Text × Text)) where
  unfoldable pub port_from_address : Text → ℕ → ℕ
  unfolding port_of after_prefix
  port_from_address address fallback = elim (split_host_port address) [
    | some (host, port) ↦ port_of fallback port
    | none ↦ elim (after_prefix (b':' ∷ []) address) [
      | some port ↦ port_of fallback port
      | none ↦ fallback
    ]
  ]

  -- The first two tests: the service's address wins where there is one.
  abbrev pub bind_address_of : (configured listen : Text) → Text
  bind_address_of configured listen =
      if is_empty (trim_space configured) || not (is_empty (trim_space listen))
      then listen
      else configured

  -- `policy.ShareDifficulty <= 0` is false of a NaN
  abbrev pub difficulty_or_default : Difficulty → Difficulty
  difficulty_or_default nan = nan
  difficulty_or_default infinity = infinity
  difficulty_or_default minus_infinity = millionths (pos 2500)
  difficulty_or_default (millionths d) =
      if leb_ℤ d (pos 0) then millionths (pos 2500) else millionths d

  unfoldable pub normalize_policy : Policy → (listen_address : Text) → Policy
  unfolding port_from_address trim_space
  normalize_policy p listen =
      let address = bind_address_of p.bind_address listen in
      record p {
        bind_address = address;
        stratum_port =
            if leb_ℤ p.stratum_port (pos 0)
            then pos (port_from_address address 3333)
            else p.stratum_port;
        share_difficulty = difficulty_or_default p.share_difficulty;
        extranonce2_size = if leb_ℤ p.extranonce2_size (pos 0) then pos 4 else p.extranonce2_size;
        password_configured = p.password_configured || not (is_empty p.password_hash);
      }

abbrev pub sanitize_policy : Policy → Policy
sanitize_policy p = record p { password_hash = [] }

pub data PolicyError : Type 0 where
  share_difficulty_invalid share_difficulty_too_high extranonce2_size_unsupported : PolicyError

abbrev pub validate_size : ℤ → Option PolicyError
validate_size size = if eqb_ℤ size (pos 4) then none else some extranonce2_size_unsupported

-- `none` is the nil error.
unfoldable pub validate_policy : Difficulty → ℤ → Option PolicyError
validate_policy nan size = some share_difficulty_invalid
validate_policy infinity size = some share_difficulty_invalid
validate_policy minus_infinity size = some share_difficulty_invalid
validate_policy (millionths d) size =
    if leb_ℤ d (pos 0)
    then some share_difficulty_invalid
    else if ltb_ℤ (pos 1000000000000) d
    then some share_difficulty_too_high
    else validate_size size
