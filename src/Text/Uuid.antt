-- ===== src/Text/Uuid.antt =====
-- isUUIDLike (the same code in internal/access and internal/auth) and clientIP (internal/access).
use archivon.Prelude.{
  ℕ, suc, Bool, true, ◌&&◌, ◌||◌, none, some, [], ◌∷◌, leb, ◌==◌, if◌then◌else◌, length,
}
use archivon.Text.Trim.{Text, trim_space, before, is_empty}

unfoldable pub is_hex_digit : ℕ → Bool
is_hex_digit c =
    (leb b'0' c && leb c b'9') || ((leb b'a' c && leb c b'f') || (leb b'A' c && leb c b'F'))

-- `case 8, 13, 18, 23`
abbrev pub dash_place : ℕ → Bool
dash_place i = i == 8 || (i == 13 || (i == 18 || i == 23))

-- The loop over the text from byte `i` on; a false test returns at once.
unfoldable pub uuid_chars : ℕ → Text → Bool
unfolding is_hex_digit
uuid_chars i [] = true
uuid_chars i (c ∷ s) = (if dash_place i then c == b'-' else is_hex_digit c) && uuid_chars (suc i) s

unfoldable pub is_uuid_like : Text → Bool
unfolding uuid_chars
is_uuid_like value = length value == 36 && uuid_chars 0 value

unfoldable pub client_ip : Text → Text → Text
unfolding trim_space before
client_ip forwarded_for remote_addr =
    let forwarded = trim_space forwarded_for in
    if is_empty forwarded
    then trim_space remote_addr
    else elim (before b',' forwarded) [ some first ↦ trim_space first | none ↦ forwarded ]
