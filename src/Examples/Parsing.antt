-- ===== src/Examples/Parsing.antt =====
-- A configuration's text that parses, and a link's text.
use macos_wireguard_daemon.Prelude.{
  List_dec, retain, ℕ_discrete, ◌≡◌, refl, ℕ, Bool, true, false, none, some, List, [], ◌∷◌, Text,
  text, ok, err, ◌==◌, is_empty, trim, contains, Bool_eq, ℕ_eq, List_eq, if◌then◌else◌, join,
}
use macos_wireguard_daemon.Net.{Subnet, Subnet_eq, macos_subnet_contains}
use macos_wireguard_daemon.Links.Net.{IpNetOps}
use macos_wireguard_daemon.Daemon.Errors.{wireguard}
use macos_wireguard_daemon.Config.{ConnectionConfig}
use macos_wireguard_daemon.Config.Parser.{ParserTools}
use macos_wireguard_daemon.Config.Parser.Sections.{parse_connection_config}
use macos_wireguard_daemon.Config.Parser.WellFormed.{parse_connection_config-IsConfig}
use macos_wireguard_daemon.Config.Parser.Reading.{IsConfig}
use macos_wireguard_daemon.Links.{new}
use macos_wireguard_daemon.Links.Spec.{NetText, spec, parse_link_spec}
use macos_wireguard_daemon.Links.Spec.RoundTrip.{IsNetText, parse_link_spec-spec}
use macos_wireguard_daemon.Examples.Networks.{site, office}

abbrev pub key : List ℕ
key =
    1 ∷ 2 ∷ 3 ∷ 4 ∷ 5 ∷ 6 ∷ 7 ∷ 8 ∷ 9 ∷ 10 ∷ 11 ∷ 12 ∷ 13 ∷ 14 ∷ 15 ∷ 16 ∷ 17 ∷ 18 ∷ 19 ∷ 20 ∷ 21
    ∷ 22 ∷ 23 ∷ 24 ∷ 25 ∷ 26 ∷ 27 ∷ 28 ∷ 29 ∷ 30 ∷ 31 ∷ 32 ∷ []

abbrev pub tools : ParserTools Subnet
tools = record {
  decode_base64 = λ s. if s == text "key" then ok key else ok [];
  parse_net = λ s. if s == text "site" then some site else none;
  resolve = λ host port. err (wireguard []);
}

abbrev pub input : Text
input = join (10 ∷ []) (
    text "[Interface]"
    ∷ text "PrivateKey = key"
    ∷ text "Address = site"
    ∷ text "MTU = 1420"
    ∷ text "# the office"
    ∷ text "[ Peer ]"
    ∷ text "PublicKey = key"
    ∷ text "AllowedIPs = site, site"
    ∷ text "PersistentKeepalive = 25"
    ∷ [])

abbrev config : ConnectionConfig Subnet
config = record {
  private_key = key;
  addresses = site ∷ [];
  dns_servers = [];
  mtu = some 1420;
  pre_up = [];
  post_up = [];
  pre_down = [];
  post_down = [];
  peers =
      record {
        public_key = key;
        preshared_key = none;
        allowed_ips = site ∷ site ∷ [];
        endpoint = none;
        endpoint_literal = none;
        persistent_keepalive = some 25;
      }
      ∷ [];
}

input_parses : parse_connection_config tools input ≡ ok config
unfolding parse_connection_config ℕ_discrete retain List_dec contains
input_parses = refl

parse_connection_config-IsConfig_example : IsConfig config
parse_connection_config-IsConfig_example =
    parse_connection_config-IsConfig tools input config input_parses

-- Two networks, `false` the wider one: 10.0.0.0/8 and 192.168.0.0/16.
abbrev subnet_of : Bool → Subnet
subnet_of false = site
subnet_of true = office

abbrev two_networks : IpNetOps Bool
two_networks = record {
  new_net = λ ip prefix. if prefix == 8 then some false else some true;
  network = λ n. (subnet_of n).0;
  prefix_len = λ n. (subnet_of n).1;
  addr = λ n. (subnet_of n).0;
  trunc = λ n. n;
  contains = λ n m. macos_subnet_contains (subnet_of n) (subnet_of m);
}

abbrev show_two : Bool → Text
show_two false = text "10.0.0.0/8"
show_two true = text "192.168.0.0/16"

abbrev two_texts : NetText Bool
two_texts = record {
  show_net = show_two;
  parse_net = λ s.
      if s == text "10.0.0.0/8"
      then some false
      else if s == text "192.168.0.0/16"
      then some true
      else none;
}

two_texts-parses : (n : Bool) → two_texts.parse_net (show_two n) ≡ some n
unfolding List_dec ℕ_discrete
two_texts-parses false = refl
two_texts-parses true = refl

two_texts-trimmed : (n : Bool) → trim (show_two n) ≡ show_two n
unfolding ℕ_discrete
two_texts-trimmed false = refl
two_texts-trimmed true = refl

two_texts-written : (n : Bool) → is_empty (show_two n) ≡ false
two_texts-written false = refl
two_texts-written true = refl

two_texts-no_equals : (n : Bool) → contains (show_two n) b'=' ≡ false
unfolding contains ℕ_discrete
two_texts-no_equals false = refl
two_texts-no_equals true = refl

two_texts-no_comma : (n : Bool) → contains (show_two n) b',' ≡ false
unfolding contains ℕ_discrete
two_texts-no_comma false = refl
two_texts-no_comma true = refl

two_texts-IsNetText : IsNetText two_texts
two_texts-IsNetText = record {
  parses = two_texts-parses;
  trimmed = two_texts-trimmed;
  written = two_texts-written;
  no_equals = two_texts-no_equals;
  no_comma = two_texts-no_comma;
}

parse_link_spec-spec_example :
    parse_link_spec two_texts two_networks (spec two_texts (new false (true ∷ [])))
    ≡ ok (new false (true ∷ []), [])
parse_link_spec-spec_example =
    parse_link_spec-spec two_texts two_texts-IsNetText two_networks false true [] refl (refl, tt)
      (tt, tt)
