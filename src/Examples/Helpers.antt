-- ===== src/Examples/Helpers.antt =====
-- A connect on a machine that remembers what it started helpers with.
use macos_wireguard_daemon.Prelude.{
  ◌≡◌, sym, ap, ◌∙◌, ℕ, false, true, none, some, List, [], ◌∷◌, Text, All, arith, Result, ok,
  is_empty, not,
}
use macos_wireguard_daemon.Net.{Subnet, Subnet_eq}
use macos_wireguard_daemon.Config.{ConnectionConfig, fingerprint}
use macos_wireguard_daemon.Daemon.Errors.{AppError}
use macos_wireguard_daemon.Daemon.Store.{StoredConnection}
use macos_wireguard_daemon.Daemon.Operations.{HelperStart, Machine, exited}
use macos_wireguard_daemon.Daemon.Operations.Connect.{connect}
use macos_wireguard_daemon.Daemon.Operations.Keep.{IsKeeping}
use macos_wireguard_daemon.Daemon.Operations.Start.{IsStart, connect-Kept}
use macos_wireguard_daemon.Examples.Networks.{networks, site}
use macos_wireguard_daemon.Examples.Directory.{home, config, link_eq}

abbrev peered : ConnectionConfig Subnet
peered = record config {
  peers =
      record {
        public_key = 1 ∷ 2 ∷ [];
        preshared_key = none;
        allowed_ips = site ∷ [];
        endpoint = none;
        endpoint_literal = none;
        persistent_keepalive = none;
      }
      ∷ [];
}

abbrev sha256 : List ℕ → List ℕ
sha256 bytes = bytes

abbrev office_vpn : StoredConnection Subnet
office_vpn = record home { config = peered; fingerprint = fingerprint networks sha256 peered }

abbrev Log : Type 0
Log = List (HelperStart Subnet)

abbrev machine : Machine Subnet Log
machine = record {
  load = λ id w. ok (some office_vpn);
  load_active = λ id w. ok none;
  try_exists = λ path w. ok (not (is_empty w));
  metadata =
      λ path w. ok (some (record { device = 1; inode = 2; changed_sec = 3; changed_nsec = 4 }));
  has_record = λ interface w. false;
  now_unix = λ w. 300;
  lock_network = λ w. (ok tt, w);
  ensure_dns_custody_dir = λ w. (ok tt, w);
  sweep = λ interface w. w;
  remove_if_dead = λ interface w. w;
  create_sentinel = λ w. w;
  settle = λ w. w;
  shell = λ cmd w. (exited true [], w);
  gotatun_up = λ start w. (ok tt, start ∷ w);
  gotatun_down = λ interface w. (ok tt, w);
  save_active = λ id marker w. (ok tt, w);
  clear_active = λ id w. (ok tt, w);
}

abbrev parse : Text → Result AppError (ConnectionConfig Subnet)
parse conf = ok peered

-- Every helper runs the text of the stored record.
abbrev RunsStored : Log → Type 0
RunsStored = All (λ start. start.raw_conf ≡ office_vpn.raw_conf)

machine-IsKeeping : IsKeeping machine RunsStored
machine-IsKeeping = record {
  lock_network = λ w h. h;
  ensure_dns_custody_dir = λ w h. h;
  sweep = λ interface w h. h;
  remove_if_dead = λ interface w h. h;
  create_sentinel = λ w h. h;
  settle = λ w h. h;
  shell = λ cmd w h. h;
  gotatun_down = λ interface w h. h;
  save_active = λ id marker w h. h;
  clear_active = λ id w h. h;
}

starts_stored :
    (start : HelperStart Subnet) (w : Log)
    → IsStart parse networks sha256 machine RunsStored start
    → RunsStored w
    → RunsStored (machine.gotatun_up start w).1
starts_stored start w s h =
    let same : office_vpn ≡ s.stored = ground (arith, s.found) in
    (s.raw_conf ∙ ap (λ c. c.raw_conf) (sym same), h)

connect-Kept_example : RunsStored (connect machine parse networks sha256 5 false []).1
connect-Kept_example =
    connect-Kept parse networks sha256 machine RunsStored machine-IsKeeping starts_stored 5 false []
      tt
