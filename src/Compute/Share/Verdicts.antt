-- ===== src/Compute/Share/Verdicts.antt =====
-- When verifyShare accepts.
use archivon.Prelude.{
  ℕ, ◌≡◌, refl, Bool, true, false, not, ◌||◌, Option, none, some, [], ◌++◌, arith, pos, ℤ, leb_ℤ,
  ◌==◌, if◌then◌else◌, length, String, inl, inr, Bool-cases, Option-cases,
}
use archivon.Text.Trim.{Text, text_eq, to_lower}
use archivon.Compute.Hex.{hex_len, reverse_bytes, reverse_hex_bytes, reverse_hex_words}
use archivon.Compute.Share.{
  Work, Verdict, refused, verify_share, coinbase_of, sha256d, stratum_header_bytes, header_of,
  big_endian, set_string, judge_coinbase,
}

-- What a verdict of `valid` shows of a test that comes before it.
guarded :
    (b : Bool) (reason : String) (r : Verdict)
    → (if not b then refused [] reason else r).valid ≡ true
    → (b ≡ true) × (r.valid ≡ true)
guarded true reason r h = (refl, h)
guarded false reason r h = cc

and_split :
    (a b : Bool) (reason : String) (r : Verdict)
    → (if not a || not b then refused [] reason else r).valid ≡ true
    → (a ≡ true) × (b ≡ true) × (r.valid ≡ true)
and_split true true reason r h = (refl, refl, h)
and_split true false reason r h = cc
and_split false b reason r h = cc

checked_length :
    (l header : Text) → (if length l == 80 then some l else none) ≡ some header → length header ≡ 80
checked_length l header h = elim (Bool-cases (length l == 80)) [
  | inl e ↦ ground (arith, h, e)
  | inr e ↦ ground (arith, h, e)
]

header_of-length :
    (v p t b n : Option Text) (merkle header : Text)
    → header_of v p merkle t b n ≡ some header
    → length header ≡ 80
header_of-length (some v) (some p) (some t) (some b) (some n) merkle header h =
    checked_length (v ++ (p ++ (merkle ++ (t ++ (b ++ n))))) header h
header_of-length none _ _ _ _ merkle header h = cc
header_of-length (some v) none _ _ _ merkle header h = cc
header_of-length (some v) (some p) none _ _ merkle header h = cc
header_of-length (some v) (some p) (some t) none _ merkle header h = cc
header_of-length (some v) (some p) (some t) (some b) none merkle header h = cc

stratum_header_bytes-length :
    (version prevhash merkle ntime nbits nonce header : Text)
    → stratum_header_bytes version prevhash merkle ntime nbits nonce ≡ some header
    → length header ≡ 80
unfolding stratum_header_bytes
stratum_header_bytes-length version prevhash merkle ntime nbits nonce header h =
    header_of-length (reverse_hex_bytes version) (reverse_hex_words prevhash)
      (reverse_hex_bytes ntime) (reverse_hex_bytes nbits) (reverse_hex_bytes nonce) merkle header h

module _ (sha256 : Text → Text) (w : Work)
    (stratum_job extranonce2 ntime nonce version : Text) where
  abbrev pub judged : Verdict
  judged = judge_coinbase sha256 w ntime nonce version (coinbase_of sha256 w extranonce2)

  -- The form of the submitted texts, and their agreement with the work.
  abbrev pub WellFormed : Type 0
  WellFormed =
      (text_eq stratum_job w.stratum_id ≡ true)
      × (hex_len version 8 ≡ true)
      × (hex_len extranonce2 8 ≡ true)
      × ((hex_len ntime 8 ≡ true) × (text_eq (to_lower ntime) w.ntime ≡ true))
      × (hex_len nonce 8 ≡ true)

  pub valid-WellFormed :
      (verify_share sha256 w stratum_job extranonce2 ntime nonce version).valid ≡ true
      → WellFormed × (judged.valid ≡ true)
  unfolding verify_share
  valid-WellFormed h =
      let a = guarded (text_eq stratum_job w.stratum_id) "job_id_mismatch" _ h in
      let b = guarded (hex_len version 8) "invalid_version" _ a.1 in
      let c = guarded (hex_len extranonce2 8) "invalid_extranonce2" _ b.1 in
      let d =
        and_split (hex_len ntime 8) (text_eq (to_lower ntime) w.ntime) "invalid_ntime" _ c.1 in
      let e = guarded (hex_len nonce 8) "invalid_nonce" judged d.2 in
      ((a.0, b.0, c.0, (d.0, d.1), e.0), e.1)

  pub verify_share-judged :
      WellFormed → verify_share sha256 w stratum_job extranonce2 ntime nonce version ≡ judged
  unfolding verify_share
  verify_share-judged (a, b, c, (d, d'), e) = rw (a, b, c, d, d', e) refl

  -- The number that is compared with the target, of a block header.
  abbrev pub hash_number : Text → ℕ
  hash_number header = big_endian 0 (reverse_bytes (sha256d sha256 header))

  -- The header of 80 bytes that the work and the submitted texts make.
  abbrev pub IsHeader : Text → Type 0
  IsHeader header =
      (coinbase : Text) × (coinbase_of sha256 w extranonce2 ≡ some coinbase)
      × (stratum_header_bytes version w.prevhash (sha256d sha256 coinbase) ntime w.nbits nonce
          ≡ some header)
      × (length header ≡ 80)

  pub judged-valid :
      judged.valid ≡ true
      → (header : Text) × (target : ℤ) × IsHeader header
        × (set_string w.target_hex ≡ some target)
        × (leb_ℤ (pos (hash_number header)) target ≡ true)
  judged-valid h = elim (Option-cases (coinbase_of sha256 w extranonce2)) [
    | inl e ↦ ground (arith, h, e)
    | inr (c, e) ↦
        elim (Option-cases
          (stratum_header_bytes version w.prevhash (sha256d sha256 c) ntime w.nbits nonce)) [
            | inl f ↦ ground (arith, h, e, f)
            | inr (header, f) ↦ elim (Option-cases (set_string w.target_hex)) [
              | inl g ↦ ground (arith, h, e, f, g)
              | inr (target, g) ↦ (
                header,
                target,
                (
                  c,
                  e,
                  f,
                  stratum_header_bytes-length version w.prevhash (sha256d sha256 c) ntime w.nbits
                      nonce header f,
                ),
                g,
                ground (arith, h, e, f, g),
              )
            ]
          ]
  ]

  pub judged-accepts :
      (header : Text) (target : ℤ)
      → IsHeader header
      → set_string w.target_hex ≡ some target
      → leb_ℤ (pos (hash_number header)) target ≡ true
      → judged.valid ≡ true
  judged-accepts header target (c, e, f, l) g h = rw (e, f, g, h) refl
