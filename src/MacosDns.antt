-- ===== src/MacosDns.antt =====
-- src/macos_dns.rs: the `networksetup` primitives.
--
-- The command itself is an argument. It is one function where its flags only read, and one that acts
-- on a world where they set; running it and lossy decoding belong to it. Error texts are the source's
-- outermost ones.
pub mod Others
use macos_wireguard_daemon.Prelude.{
  Bool, true, false, not, ◌&&◌, ◌||◌, Option, none, some, List, [], ◌∷◌, ◌++◌, map, ℕ_eq, List_eq,
  Text, text, ◌==◌, any, retain, length, is_empty, Result, ok, err, if◌then◌else◌, lines, trim,
  starts_with, strip_prefix, contains_text, join,
}
use macos_wireguard_daemon.Prelude.Results.{◌>>=◌}
use macos_wireguard_daemon.Net.Parse.{IpAddr_eq, parse_ip}

pub record Output : Type 0 where
  pub success : Bool
  pub stdout : Text
  pub stderr : Text

-- `run_networksetup_capture`
pub record NetworkSetup (W : Type 0) : Type 0 where
  pub read : List Text → W → Result Text Output
  pub write : List Text → W → Result Text Output × W

-- One line of the listing, without the marker of a disabled service.
unfoldable pub parse_service : Text → List Text
parse_service line =
    let trimmed = trim line in
    if is_empty trimmed || starts_with trimmed (text "An asterisk")
    then []
    else (let service : Text = elim (strip_prefix trimmed (text "*")) [
      | none ↦ trimmed
      | some rest ↦ trim rest
    ] in
        if is_empty service then [] else service ∷ [])

abbrev pub parse_lines : List Text → List Text
parse_lines [] = []
parse_lines (line ∷ rest) = parse_service line ++ parse_lines rest

unfoldable pub parse_network_services : Text → List Text
unfolding parse_service
parse_network_services output = parse_lines (lines output)

-- Two lists of addresses, entry by entry.
abbrev pub same_addresses : List Text → List Text → Bool
same_addresses (a ∷ live) (b ∷ expected) =
    let rest = same_addresses live expected in
    elim (parse_ip (trim a)) [
      | none ↦ false
      | some ip ↦ elim (parse_ip (trim b)) [ none ↦ false | some other ↦ ip == other && rest ]
    ]
same_addresses _ _ = true

unfoldable pub dns_lists_equal : Option (List Text) → List Text → Bool
dns_lists_equal none expected = false
dns_lists_equal (some live) expected =
    if is_empty expected || not (length live == length expected)
    then false
    else same_addresses live expected

module _ {W : Type 0} (setup : NetworkSetup W) where
  unfoldable pub list_network_services : W → Result Text (List Text)
  unfolding parse_network_services
  list_network_services w = do
    output ← setup.read (text "-listallnetworkservices" ∷ []) w
    if output.success
        then ok (parse_network_services output.stdout)
        else err (text "networksetup -listallnetworkservices failed")

  -- The values that a reading command printed.
  unfoldable pub networksetup_values : Text → Text → Option (List Text)
  networksetup_values stdout value_label =
      let marker = text "There aren't any " ++ value_label ++ text " set" in
      if any (λ line. contains_text line marker) (lines stdout)
      then none
      else (let values = retain (λ line. not (is_empty line)) (map trim (lines stdout)) in
          if is_empty values || values == text "Empty" ∷ [] then none else some values)

  unfoldable pub get_networksetup_values : Text → Text → Text → W → Result Text (Option (List Text))
  unfolding networksetup_values
  get_networksetup_values service flag value_label w = do
    output ← setup.read (flag ∷ service ∷ []) w
    if output.success
        then ok (networksetup_values output.stdout value_label)
        else err (text "networksetup " ++ flag ++ text " " ++ service ++ text " failed")

  unfoldable pub get_dns_servers : Text → W → Result Text (Option (List Text))
  get_dns_servers service =
      get_networksetup_values service (text "-getdnsservers") (text "DNS Servers")

  unfoldable pub get_search_domains : Text → W → Result Text (Option (List Text))
  get_search_domains service =
      get_networksetup_values service (text "-getsearchdomains") (text "Search Domains")

  unfoldable pub run_networksetup : List Text → W → Result Text (Unit {0}) × W
  run_networksetup args w =
      let (result, w') = setup.write args w in
      (
        do
          output ← result
          let detail : Text =
              (if not (is_empty (trim output.stderr))
                then trim output.stderr
                else trim output.stdout)
          if output.success
              then ok tt
              else err (text "networksetup " ++ join (text " ") args ++ text " failed: " ++ detail),
        w',
      )

  unfoldable pub set_dns_servers : Text → List Text → W → Result Text (Unit {0}) × W
  unfolding run_networksetup
  set_dns_servers service dns_servers =
      run_networksetup (text "-setdnsservers" ∷ service ∷ dns_servers)

  unfoldable pub set_dns_servers_empty : Text → W → Result Text (Unit {0}) × W
  unfolding run_networksetup
  set_dns_servers_empty service =
      run_networksetup (text "-setdnsservers" ∷ service ∷ text "Empty" ∷ [])

  unfoldable pub set_search_domains : Text → List Text → W → Result Text (Unit {0}) × W
  unfolding run_networksetup
  set_search_domains service domains =
      run_networksetup (text "-setsearchdomains" ∷ service ∷ domains)

  unfoldable pub set_search_domains_empty : Text → W → Result Text (Unit {0}) × W
  unfolding run_networksetup
  set_search_domains_empty service =
      run_networksetup (text "-setsearchdomains" ∷ service ∷ text "Empty" ∷ [])

  -- The two matches of `restore_service`: no recorded value means Empty.
  unfoldable pub restore_dns : Text → Option (List Text) → W → Result Text (Unit {0}) × W
  restore_dns service (some servers) = set_dns_servers service servers
  restore_dns service none = set_dns_servers_empty service

  unfoldable pub restore_search : Text → Option (List Text) → W → Result Text (Unit {0}) × W
  restore_search service (some domains) = set_search_domains service domains
  restore_search service none = set_search_domains_empty service

  -- Put a service back to a recorded original.
  unfoldable pub restore_service :
      Text → Option (List Text) → Option (List Text) → W → Result Text (Unit {0}) × W
  unfolding restore_dns restore_search
  restore_service service dns_servers search_domains w =
      let (result, w') = restore_dns service dns_servers w in
      elim result [ err error ↦ (err error, w') | ok _ ↦ restore_search service search_domains w' ]
