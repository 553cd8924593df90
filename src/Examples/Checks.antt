-- ===== src/Examples/Checks.antt =====
-- The theorems on the checks of requests.
use macos_wireguard_daemon.Prelude.{
  ℕ_discrete, List_dec, ◌≡◌, ◌↔◌, refl, false, none, some, text, ok,
}
use macos_wireguard_daemon.Daemon.Store.{interface_name, manual}
use macos_wireguard_daemon.Daemon.Dispatch.Add.{AddRequest}
use macos_wireguard_daemon.Api.{validate_interface_name, validate, add_connection}
use macos_wireguard_daemon.Api.Bounds.{
  IsAdd, IsInterfaceName, validate_interface_name-IsInterfaceName, interface_name-validates,
  validate-IsAdd_iff,
}

abbrev request : AddRequest
request = record {
  conf_text = text "[Interface]";
  global = false;
  start_mode = manual;
  name = some (text "home");
  mtu_override = some 1280;
  force = false;
  source_path = some (text "/etc/wg/home.conf");
  auth_external_form = none;
}

validate_interface_name-IsInterfaceName_example : IsInterfaceName (text "wg-0a1b2c3d")
unfolding validate_interface_name List_dec ℕ_discrete
validate_interface_name-IsInterfaceName_example =
    validate_interface_name-IsInterfaceName (text "wg-0a1b2c3d") refl

interface_name-validates_example : validate_interface_name (interface_name 0xabc) ≡ ok tt
interface_name-validates_example = interface_name-validates 0xabc

validate-IsAdd_iff_example :
    (validate (λ name. none) (add_connection request) ≡ ok tt) ↔ IsAdd (λ name. none) request
validate-IsAdd_iff_example = validate-IsAdd_iff (λ name. none) request
