-- ===== src/Api.antt =====
-- src/privileged_api.rs: the checks that a request passes before the daemon acts on it.
--
-- Text is its UTF-8 bytes: a control character below U+0080 is one byte, and the others are the byte
-- 0xc2 with one from 0x80 to 0x9f; the white characters are written out by their bytes. Parsing a
-- connection id belongs to the crate `uuid`, and is an argument.
pub mod Bounds
use macos_wireguard_daemon.Prelude.{
  ℕ, zero, suc, ◌*◌, ◌++◌, Bool, true, false, not, ◌&&◌, ◌||◌, Option, none, some, List, [], ◌∷◌,
  Text, text, length, is_empty, any, ltb, leb, ◌==◌, ℕ_eq, List_eq, Result, ok, err, if◌then◌else◌,
  starts_with, strip_prefix, drop, is_white,
}
use macos_wireguard_daemon.Prelude.Results.{◌>>◌}
use macos_wireguard_daemon.Net.Show.{show_number}
use macos_wireguard_daemon.Daemon.Errors.{Message, plain, quoted}
use macos_wireguard_daemon.Daemon.Dispatch.Add.{AddRequest}

abbrev pub max_conf_text_bytes : ℕ
max_conf_text_bytes = 64 * 1024

abbrev pub max_source_path_bytes : ℕ
max_source_path_bytes = 4096

abbrev pub min_mtu : ℕ
min_mtu = 576

abbrev refused : Text → Result Message (Unit {0})
refused message = err (plain message ∷ [])

-- `chars().all(p)`, for a test that only ASCII characters pass
abbrev pub all_bytes : (ℕ → Bool) → Text → Bool
all_bytes p [] = true
all_bytes p (c ∷ s) = p c && all_bytes p s

-- `chars().any(char::is_control)`
unfoldable pub has_control : Text → Bool
has_control [] = false
has_control (c ∷ s) =
    ltb c 32
    || c == 127
    || (c == 0xc2 && any (λ d. leb 0x80 d && leb d 0x9f) (elim s [ [] ↦ [] | d ∷ _ ↦ d ∷ [] ]))
    || has_control s

-- The number of bytes of the white character at the start, or 0.
unfoldable pub white_bytes : Text → ℕ
white_bytes [] = 0
white_bytes (c ∷ s) =
    if is_white c
    then 1
    else if any (starts_with (c ∷ s)) ((0xc2 ∷ 0x85 ∷ []) ∷ (0xc2 ∷ 0xa0 ∷ []) ∷ [])
    then 2
    else if any (starts_with (c ∷ s)) (
        (0xe1 ∷ 0x9a ∷ 0x80 ∷ [])
        ∷ (0xe2 ∷ 0x80 ∷ 0xa8 ∷ [])
        ∷ (0xe2 ∷ 0x80 ∷ 0xa9 ∷ [])
        ∷ (0xe2 ∷ 0x80 ∷ 0xaf ∷ [])
        ∷ (0xe2 ∷ 0x81 ∷ 0x9f ∷ [])
        ∷ (0xe3 ∷ 0x80 ∷ 0x80 ∷ [])
        ∷ [])
    then 3
    else if starts_with (c ∷ s) (0xe2 ∷ 0x80 ∷ [])
        && any (λ d. leb 0x80 d && leb d 0x8a) (elim (drop 1 s) [ [] ↦ [] | d ∷ _ ↦ d ∷ [] ])
    then 3
    else 0

-- White characters only, behind that many bytes of one.
unfoldable pub is_blank_after : ℕ → Text → Bool
unfolding white_bytes
is_blank_after k [] = true
is_blank_after (suc k) (c ∷ s) = is_blank_after k s
is_blank_after zero (c ∷ s) = elim (white_bytes (c ∷ s)) [
  | zero ↦ false
  | suc k ↦ is_blank_after k s
]

-- `trim().is_empty()`
abbrev pub is_blank : Text → Bool
is_blank = is_blank_after 0

unfoldable pub validate_source_path : Text → Result Message (Unit {0})
unfolding has_control
validate_source_path path =
    if ltb max_source_path_bytes (length path)
    then refused (text "source_path exceeds the 4096-byte limit")
    else if not (starts_with path (text "/"))
    then refused (text "source_path must be an absolute path")
    else if has_control path
    then refused (text "source_path contains control characters")
    else ok tt

unfoldable pub validate_conf_text : Text → Result Message (Unit {0})
unfolding is_blank_after
validate_conf_text conf_text =
    if is_blank conf_text
    then refused (text "conf_text cannot be empty")
    else if ltb max_conf_text_bytes (length conf_text)
    then refused (text "conf_text exceeds the 65536-byte limit")
    else ok tt

abbrev pub is_ascii_lowercase : ℕ → Bool
is_ascii_lowercase c = leb b'a' c && leb c b'z'

abbrev pub is_ascii_digit : ℕ → Bool
is_ascii_digit c = leb b'0' c && leb c b'9'

abbrev pub is_ascii_uppercase : ℕ → Bool
is_ascii_uppercase c = leb b'A' c && leb c b'Z'

abbrev pub is_name_byte : ℕ → Bool
is_name_byte c = is_ascii_lowercase c || is_ascii_digit c || c == b'-' || c == b'_' || c == b'.'

abbrev pub is_interface_byte : ℕ → Bool
is_interface_byte c = is_ascii_lowercase c || is_ascii_digit c || c == b'-'

abbrev pub is_token_byte : ℕ → Bool
is_token_byte c =
    is_ascii_lowercase c
    || is_ascii_uppercase c
    || is_ascii_digit c
    || c == b':'
    || c == b'-'
    || c == b'_'

unfoldable pub check_mtu : ℕ → Result Message (Unit {0})
unfolding show_number
check_mtu mtu =
    if ltb mtu min_mtu
    then refused
        (text "WireGuard error: invalid MTU " ++ show_number 5 10 mtu ++ text " (must be >= 576)")
    else ok tt

unfoldable pub validate_interface_name : Text → Result Message (Unit {0})
validate_interface_name interface =
    let utun_number : Bool = elim (strip_prefix interface (text "utun")) [
      | none ↦ false
      | some suffix ↦
          not (is_empty suffix) && all_bytes is_ascii_digit suffix && leb (length suffix) 3
    ] in
    let suffix = drop 3 interface in
    if interface == text "wgconf0"
    then ok tt
    else if interface == text "utun"
    then ok tt
    else if utun_number
    then ok tt
    else if not (starts_with interface (text "wg-"))
    then refused (text "interface must be wgconf0, utun, utunN, or wg-*")
    else if is_empty suffix || ltb 12 (length suffix)
    then refused (text "wg-* interface suffix must be 1..=12 chars")
    else if not (all_bytes is_interface_byte suffix)
    then refused (text "wg-* interface name contains invalid characters")
    else ok tt

unfoldable pub validate_lease_token : Text → Result Message (Unit {0})
validate_lease_token token =
    if is_empty token || ltb 64 (length token)
    then refused (text "lease token must be 1..=64 chars")
    else if not (all_bytes is_token_byte token)
    then refused (text "lease token contains invalid characters")
    else ok tt

-- `map_or(Ok(()), check)` and the `if let` of the optional fields
abbrev pub checked {ℓ} :
    {A : Type ℓ} → Option A → (A → Result Message (Unit {0})) → Result Message (Unit {0})
checked none check = ok tt
checked (some a) check = check a

-- The requests whose fields are checked; all others pass.
pub data CheckedRequest : Type 0 where
  lease_acquire : Text → CheckedRequest
  lease_release : Text → CheckedRequest
  interface_active : Text → CheckedRequest
  wg_show : Text → CheckedRequest
  network_overview : Text → CheckedRequest
  add_connection : AddRequest → CheckedRequest
  refresh_connection : Text → Option Text → CheckedRequest
  unchecked : CheckedRequest

module _ (parse_id : Text → Option ℕ) where
  unfoldable pub validate_name_charset : Text → ℕ → Result Message (Unit {0})
  unfolding show_number
  validate_name_charset name max_len =
      if is_empty name
      then refused (text "name cannot be empty")
      else if ltb max_len (length name)
      then refused
          (text "name is too long (max " ++ show_number 20 10 max_len ++ text " characters)")
      else if not (all_bytes is_name_byte name)
      then err (
          plain (text "invalid name ")
          ∷ quoted name
          ∷ plain (text "; use only lowercase letters, digits, '-', '_' or '.'")
          ∷ [])
      else elim (parse_id name) [
        | some _ ↦ err (
            plain (text "name ")
            ∷ quoted name
            ∷ plain (text " looks like a connection id; choose a different name")
            ∷ [])
        | none ↦ ok tt
      ]

  unfoldable pub validate : CheckedRequest → Result Message (Unit {0})
  unfolding validate_source_path validate_conf_text validate_name_charset check_mtu
      validate_interface_name validate_lease_token
  validate (lease_acquire token) = validate_lease_token token
  validate (lease_release token) = validate_lease_token token
  validate (interface_active interface) = validate_interface_name interface
  validate (wg_show interface) = validate_interface_name interface
  validate (network_overview interface) = validate_interface_name interface
  validate (add_connection request) = do
    validate_conf_text request.conf_text
    checked request.name (λ name. validate_name_charset name 64)
    checked request.mtu_override check_mtu
    checked request.source_path validate_source_path
  validate (refresh_connection conf_text source_path) = do
    validate_conf_text conf_text
    checked source_path validate_source_path
  validate unchecked = ok tt
