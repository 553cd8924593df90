-- ===== src/Daemon/Dispatch/Mtu.antt =====
-- `apply_mtu_override_to_conf_text` of src/privileged/dispatch.rs, and the tools of the daemon's
-- requests with it.
use macos_wireguard_daemon.Prelude.{
  ℕ, Bool, true, false, none, some, List, [], ◌∷◌, ◌++◌, Text, text, ◌==◌, ℕ_eq, List_eq,
  if◌then◌else◌, lines, trim, starts_with,
}
use macos_wireguard_daemon.Net.Parse.{split_once}
use macos_wireguard_daemon.Net.Show.{show_number}
use macos_wireguard_daemon.Links.Spec.{NetText}
use macos_wireguard_daemon.Config.Parser.{ParserTools, to_ascii_lowercase}
use macos_wireguard_daemon.Config.Parser.Sections.{parse_connection_config}
use macos_wireguard_daemon.Daemon.Dispatch.Add.{ConfTools}

abbrev eq_ignore_ascii_case : Text → Text → Bool
eq_ignore_ascii_case s t = to_ascii_lowercase s == to_ascii_lowercase t

abbrev pub is_interface_header : Text → Bool
is_interface_header line = eq_ignore_ascii_case (trim line) (text "[interface]")

-- Whether a line sets the `MTU`.
unfoldable pub is_mtu_line : Text → Bool
unfolding split_once
is_mtu_line raw_line = elim (split_once b'=' (trim raw_line)) [
  | none ↦ false
  | some (key, _) ↦ eq_ignore_ascii_case (trim key) (text "mtu")
]

abbrev mtu_line : ℕ → Text
mtu_line mtu = text "MTU = " ++ show_number 5 10 mtu ++ 10 ∷ []

-- The first loop: the text it writes, and whether it replaced a line.
unfoldable pub replace_mtu : ℕ → Bool → List Text → Text × Bool
unfolding is_mtu_line show_number
replace_mtu mtu in_interface [] = ([], false)
replace_mtu mtu in_interface (raw_line ∷ rest) =
    let (entered, entered_found) = replace_mtu mtu (is_interface_header raw_line) rest in
    let (out, found) = replace_mtu mtu in_interface rest in
    if starts_with (trim raw_line) (text "[")
    then (raw_line ++ 10 ∷ entered, entered_found)
    else if if in_interface then is_mtu_line raw_line else false
    then (mtu_line mtu ++ out, true)
    else (raw_line ++ 10 ∷ out, found)

-- The second loop, which inserts a line behind the first header.
unfoldable pub insert_mtu : ℕ → Bool → List Text → Text
unfolding show_number
insert_mtu mtu inserted [] = []
insert_mtu mtu inserted (line ∷ rest) =
    let behind = insert_mtu mtu true rest in
    let further = insert_mtu mtu inserted rest in
    if if inserted then false else is_interface_header line
    then line ++ 10 ∷ mtu_line mtu ++ behind
    else line ++ 10 ∷ further

unfoldable pub apply_mtu_override_to_conf_text : Text → ℕ → Text
unfolding replace_mtu insert_mtu
apply_mtu_override_to_conf_text conf_text mtu =
    let (out, found) = replace_mtu mtu false (lines conf_text) in
    if found then out else insert_mtu mtu false (lines out)

-- The daemon's own parser and rewriting.
unfoldable pub conf_tools :
    {N : Type 0} → NetText N → ParserTools N → (List ℕ → List ℕ) → ConfTools N
unfolding parse_connection_config apply_mtu_override_to_conf_text
conf_tools texts tools sha256 = record {
  texts = texts;
  parse = parse_connection_config tools;
  with_mtu = apply_mtu_override_to_conf_text;
  sha256 = sha256;
}
