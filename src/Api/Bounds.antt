-- ===== src/Api/Bounds.antt =====
-- What the checks of src/privileged_api.rs let through.
use macos_wireguard_daemon.Prelude.{
  ◌≡◌, ◌↔◌, refl, inl, inr, ℕ, ◌≤◌, ◌<◌, ◌/◌, ◌^◌, true, false, Option, none, some, List, [], ◌∷◌,
  ◌++◌, Text, text, length, drop, arith, ◌==◌, ℕ_eq, List_eq, Result, ok, err, All, starts_with,
  strip_prefix, Bool-cases, Option-cases, leb, ltb, is_empty, ==_iff,
}
use macos_wireguard_daemon.Config.{be_bytes, hex_encode}
use macos_wireguard_daemon.Prelude.Results.{◌>>◌}
use macos_wireguard_daemon.Daemon.Errors.{Message}
use macos_wireguard_daemon.Daemon.Store.{interface_name}
use macos_wireguard_daemon.Daemon.Dispatch.Add.{AddRequest}
use macos_wireguard_daemon.Api.{
  checked, all_bytes, is_interface_byte, is_ascii_digit, is_name_byte, has_control, is_blank,
  validate_interface_name, validate_source_path, validate_conf_text, validate_name_charset,
  check_mtu, validate, add_connection,
}

starts_with-split : (s p : Text) → starts_with s p ≡ true → s ≡ p ++ drop (length p) s
starts_with-split s [] h = refl
starts_with-split [] (c ∷ p) h = cc
starts_with-split (d ∷ s) (c ∷ p) h = ground (arith, starts_with-split s p)

strip_prefix-split : (s p r : Text) → strip_prefix s p ≡ some r → s ≡ p ++ r
strip_prefix-split s [] r h = ground arith
strip_prefix-split [] (c ∷ p) r h = cc
strip_prefix-split (d ∷ s) (c ∷ p) r h = ground (arith, strip_prefix-split s p r)

all_bytes-digits :
    (s : Text) → all_bytes is_ascii_digit s ≡ true → all_bytes is_interface_byte s ≡ true
all_bytes-digits [] h = refl
all_bytes-digits (c ∷ s) h = ground (arith, all_bytes-digits s)

-- A name that a network interface and a file can bear: 1 to 15 bytes, each a lowercase letter, a
-- digit or a hyphen.
abbrev pub IsInterfaceName : Text → Type 0
IsInterfaceName s = (1 ≤ length s) × (length s ≤ 15) × (all_bytes is_interface_byte s ≡ true)

numbered :
    (r : Text)
    → leb (length r) 3 ≡ true
    → all_bytes is_ascii_digit r ≡ true
    → IsInterfaceName (text "utun" ++ r)
numbered r h k = ground (arith, all_bytes-digits r)

custom :
    (r : Text)
    → ltb 12 (length r) ≡ false
    → all_bytes is_interface_byte r ≡ true
    → IsInterfaceName (text "wg-" ++ r)
custom r h k = ground arith

custom_of_name :
    (s : Text)
    → starts_with s (text "wg-") ≡ true
    → ltb 12 (length (drop 3 s)) ≡ false
    → all_bytes is_interface_byte (drop 3 s) ≡ true
    → IsInterfaceName s
custom_of_name s p h k = rw (starts_with-split s (text "wg-") p) (custom (drop 3 s) h k)

numbered_of_name :
    (s r : Text)
    → strip_prefix s (text "utun") ≡ some r
    → leb (length r) 3 ≡ true
    → all_bytes is_ascii_digit r ≡ true
    → IsInterfaceName s
numbered_of_name s r p h k = rw (strip_prefix-split s (text "utun") r p) (numbered r h k)

-- A name that the daemon lets through can name an interface and a file beside others: it has 1 to 15
-- bytes, each of them a lowercase letter, a digit or a hyphen, so no path separator and no dot. The
-- condition is that `validate_interface_name` accepts it.
pub validate_interface_name-IsInterfaceName :
    (interface : Text) → validate_interface_name interface ≡ ok tt → IsInterfaceName interface
unfolding validate_interface_name
validate_interface_name-IsInterfaceName s h = elim (Bool-cases (s == text "wgconf0")) [
  | inl q ↦ rw ((==_iff s (text "wgconf0")).0 q) (ground arith)
  | inr n ↦ elim (Bool-cases (s == text "utun")) [
    | inl q ↦ rw ((==_iff s (text "utun")).0 q) (ground arith)
    | inr m ↦ elim (Option-cases (strip_prefix s (text "utun"))) [
      | inl q ↦ ground (arith, custom_of_name s)
      | inr (r, q) ↦ ground (arith, custom_of_name s, numbered_of_name s r q)
    ]
  ]
]

hex_byte : (b : ℕ) → b < 256 → all_bytes is_interface_byte (hex_encode (b ∷ [])) ≡ true
hex_byte b h = ground arith

hex_encode-bytes :
    (bs : List ℕ) → All (λ b. b < 256) bs → all_bytes is_interface_byte (hex_encode bs) ≡ true
hex_encode-bytes [] h = refl
hex_encode-bytes (b ∷ bs) h = ground (arith, hex_encode-bytes bs h.1, h.0)

wg-validates :
    (r : Text)
    → is_empty r ≡ false
    → ltb 12 (length r) ≡ false
    → all_bytes is_interface_byte r ≡ true
    → validate_interface_name (text "wg-" ++ r) ≡ ok tt
unfolding validate_interface_name
wg-validates r n h k = ground arith

-- The name that the store gives to an id is one that the requests accept: `wg-` and eight hex digits.
pub interface_name-validates : (id : ℕ) → validate_interface_name (interface_name id) ≡ ok tt
unfolding validate_interface_name interface_name
interface_name-validates id =
    let v = id / 2 ^ 96 in
    wg-validates (hex_encode (be_bytes 4 v [])) refl refl (
      hex_encode-bytes (be_bytes 4 v [])
        (omega arith, (omega arith, (omega arith, (omega arith, tt)))))

-- A text that is not blank and has at most 64 KiB.
abbrev pub IsConfText : Text → Type 0
IsConfText s = (is_blank s ≡ false) × (length s ≤ 65536)

-- A path that starts with a slash, has at most 4096 bytes and no control character.
abbrev pub IsSourcePath : Text → Type 0
IsSourcePath s = (length s ≤ 4096) × (starts_with s (text "/") ≡ true) × (has_control s ≡ false)

-- A condition on an optional field, where it is present.
abbrev pub IsGiven {ℓ} : {A : Type ℓ} → (A → Type 0) → Option A → Type 0
IsGiven P none = Unit
IsGiven P (some a) = P a

checked_iff {ℓ} :
    {A : Type ℓ} (P : A → Type 0) (check : A → Result Message (Unit {0}))
    → ((a : A) → (check a ≡ ok tt) ↔ P a)
    → (o : Option A) → (checked o check ≡ ok tt) ↔ IsGiven P o
checked_iff P check h none = (λ _. tt, λ _. refl)
checked_iff P check h (some a) = h a

both_iff : (m k : Result Message (Unit {0})) → ((m >> k) ≡ ok tt) ↔ ((m ≡ ok tt) × (k ≡ ok tt))
both_iff (ok u) k = ground arith
both_iff (err e) k = ground arith

-- Two checks, one after the other.
then_iff :
    {P Q : Type 0} (m k : Result Message (Unit {0}))
    → (m ≡ ok tt) ↔ P
    → (k ≡ ok tt) ↔ Q
    → ((m >> k) ≡ ok tt) ↔ (P × Q)
then_iff m k p q = (
  λ h. (let r = (both_iff m k).0 h in (p.0 r.0, q.0 r.1)),
  λ h. (both_iff m k).1 (p.1 h.0, q.1 h.1),
)

IsConfText-iff : (s : Text) → (validate_conf_text s ≡ ok tt) ↔ IsConfText s
unfolding validate_conf_text
IsConfText-iff s = ground arith

IsSourcePath-iff : (s : Text) → (validate_source_path s ≡ ok tt) ↔ IsSourcePath s
unfolding validate_source_path
IsSourcePath-iff s = ground arith

module _ (parse_id : Text → Option ℕ) where
  -- A name of 1 to 64 bytes, each a lowercase letter, a digit, `-`, `_` or `.`, that is no id.
  abbrev pub IsName : Text → Type 0
  IsName s =
      (1 ≤ length s) × (length s ≤ 64) × (all_bytes is_name_byte s ≡ true) × (parse_id s ≡ none)

  IsName-iff : (s : Text) → (validate_name_charset parse_id s 64 ≡ ok tt) ↔ IsName s
  unfolding validate_name_charset
  IsName-iff s = elim (Option-cases (parse_id s)) [
    | inl n ↦ ground arith
    | inr (i, q) ↦ ground arith
  ]

  -- What an add may carry: a configuration's text, a name, an `MTU` of 576 at least, a path.
  abbrev pub IsAdd : AddRequest → Type 0
  IsAdd request =
      IsConfText request.conf_text
      × (IsGiven IsName request.name
          × (IsGiven (λ mtu. 576 ≤ mtu) request.mtu_override
              × IsGiven IsSourcePath request.source_path))

  mtu_iff : (mtu : ℕ) → (check_mtu mtu ≡ ok tt) ↔ (576 ≤ mtu)
  unfolding check_mtu
  mtu_iff mtu = ground arith

  -- A request that adds a connection passes the checks exactly when its text is not blank and has at
  -- most 64 KiB, its name, if any, has 1 to 64 bytes out of lowercase letters, digits, `-`, `_` and
  -- `.` and is no connection id, its `MTU`, if any, is at least 576, and its path, if any, is
  -- absolute, has at most 4096 bytes and holds no control character.
  pub validate-IsAdd_iff :
      (request : AddRequest) → (validate parse_id (add_connection request) ≡ ok tt) ↔ IsAdd request
  unfolding validate
  validate-IsAdd_iff request = then_iff _ _ (IsConfText-iff request.conf_text) (
      then_iff _ _ (checked_iff IsName _ IsName-iff request.name) (
        then_iff _ _ (checked_iff _ check_mtu mtu_iff request.mtu_override)
          (checked_iff IsSourcePath validate_source_path IsSourcePath-iff request.source_path)))
