-- ===== src/Kms/Keys.antt =====
-- NewService, loadKey, normalizeMasterKey, decodeBase64 and deriveLocalKey. The result of reading the
-- key file is an argument.
pub mod Forms
use archivon.Prelude.{
  ℕ, Bool, true, false, not, ◌&&◌, Option, none, some, List, [], ◌∷◌, ◌++◌, Result, ok, err, ltb,
  leb, if◌then◌else◌, length, take, String,
}
use archivon.Text.Trim.{Text, codes, text_eq, trim_space, is_empty, after_prefix}
use archivon.Compute.Hex.{decode_string, encode_to_string}
use archivon.Kms.Env.{
  Primitives, Service, Options, Status, State, waiting_for_key, unsupported_provider,
  permission_denied, read_failed, invalid_key, ready, LoadedKey, FileRead, contents, not_exist,
  no_permission, read_error,
}

abbrev pub default_provider : Text
default_provider = codes "local-file"

abbrev pub default_key_id : Text
default_key_id = codes "local-master-v1"

abbrev pub min_key_bytes : ℕ
min_key_bytes = 32

abbrev pub text_or_default : Text → Text → Text
text_or_default value fallback = if is_empty value then fallback else value

unfoldable pub new_service : Bool → Options → Service
unfolding trim_space
new_service has_db opts = record {
  has_db = has_db;
  provider = text_or_default (trim_space opts.provider) default_provider;
  master_key_path = opts.master_key_path;
  key_id = text_or_default (trim_space opts.key_id) default_key_id;
}

-- The text of a state.
abbrev pub state_name : State → String
state_name waiting_for_key = "waiting_for_key"
state_name unsupported_provider = "unsupported_provider"
state_name permission_denied = "permission_denied"
state_name read_failed = "error"
state_name invalid_key = "invalid_key"
state_name ready = "ready"

abbrev pub key_prefix : Text
key_prefix = codes "archivon-local-master-key-v1:"

abbrev pub or_try : Option Text → Option Text → Option Text
or_try none next = next
or_try (some t) next = some t

-- What a decoder gave, where it is long enough.
abbrev pub long_enough : Option Text → Option Text
long_enough none = none
long_enough (some t) = if leb min_key_bytes (length t) then some t else none

module _ (prim : Primitives) where
  unfoldable pub decode_base64 : Text → Option Text
  decode_base64 value =
      or_try (prim.std value)
        (or_try (prim.raw_std value) (or_try (prim.url value) (prim.raw_url value)))

  -- The key after the prefix.
  unfoldable pub prefixed_key : Text → Result String (Text × String)
  unfolding decode_base64 trim_space
  prefixed_key rest = elim (decode_base64 (trim_space rest)) [
    | none ↦ err "master_key_base64_invalid"
    | some decoded ↦
        (if ltb (length decoded) min_key_bytes
          then err "master_key_too_short"
          else ok (decoded, "archivon-local-master-key-v1"))
  ]

  unfoldable pub unprefixed_key : Text → Result String (Text × String)
  unfolding decode_base64 decode_string
  unprefixed_key trimmed = elim (long_enough (decode_string trimmed)) [
    | some decoded ↦ ok (decoded, "hex")
    | none ↦ elim (long_enough (decode_base64 trimmed)) [
      | some decoded ↦ ok (decoded, "base64")
      | none ↦
          (if ltb (length trimmed) min_key_bytes
            then err "master_key_too_short"
            else ok (trimmed, "raw"))
    ]
  ]

  -- After TrimSpace.
  unfoldable pub trimmed_key : (trimmed : Text) → Result String (Text × String)
  unfolding prefixed_key unprefixed_key after_prefix
  trimmed_key trimmed =
      if is_empty trimmed then err "master_key_empty" else elim (after_prefix key_prefix trimmed) [
        | some rest ↦ prefixed_key rest
        | none ↦ unprefixed_key trimmed
      ]

  -- The key material and its format.
  unfoldable pub normalize_master_key : (raw : Text) → Result String (Text × String)
  unfolding trimmed_key trim_space
  normalize_master_key raw = trimmed_key (trim_space raw)

  unfoldable pub derive_local_key : (purpose : String) (material : Text) → Text
  derive_local_key purpose material = prim.sha256 (codes purpose ++ (b':' ∷ material))

  -- The status before anything is known.
  abbrev pub waiting : Service → Status
  waiting s = record {
    provider = s.provider;
    state = waiting_for_key;
    available = false;
    key_id = s.key_id;
    source = prim.clean s.master_key_path;
    format = "";
    fingerprint = [];
    reason = "";
  }

  abbrev pub without_key : Service → State → String → LoadedKey
  without_key s state reason = record {
    status = record (waiting s) { state = state; reason = reason };
    kek = [];
    metadata_key = [];
    seal_key = [];
  }

  unfoldable pub with_material : Service → Text → String → LoadedKey
  unfolding derive_local_key encode_to_string
  with_material s material format = record {
    status = record (waiting s) {
      state = ready;
      available = true;
      format = format;
      fingerprint = take 16 (encode_to_string (prim.sha256 material));
    };
    kek = derive_local_key "archivon-local-kms-v1" material;
    metadata_key = derive_local_key "archivon-local-metadata-v1" material;
    seal_key = derive_local_key "archivon-local-seal-v1" material;
  }

  abbrev pub read_key : Service → FileRead → LoadedKey
  read_key s not_exist = without_key s waiting_for_key "master_key_missing"
  read_key s no_permission = without_key s permission_denied "master_key_permission_denied"
  read_key s read_error = without_key s read_failed "master_key_read_failed"
  read_key s (contents raw) = elim (normalize_master_key raw) [
    | err reason ↦ without_key s invalid_key reason
    | ok (material, format) ↦ with_material s material format
  ]

  unfoldable pub load_key : Service → FileRead → LoadedKey
  unfolding normalize_master_key with_material trim_space text_eq
  load_key s file =
      if not (text_eq s.provider default_provider)
      then without_key s unsupported_provider "kms_provider_unsupported"
      else if is_empty (trim_space s.master_key_path)
      then without_key s waiting_for_key "master_key_path_empty"
      else read_key s file
