-- ===== src/Links/Net.antt =====
-- The part of the crate `ipnet` that the program uses.
use macos_wireguard_daemon.Prelude.{ℕ, Bool, Option}
use macos_wireguard_daemon.Net.Parse.{IpAddr}

pub record IpNetOps (N : Type 0) : Type 0 where
  pub new_net : IpAddr → ℕ → Option N
  pub network : N → IpAddr
  pub prefix_len : N → ℕ
  pub addr : N → IpAddr
  pub trunc : N → N
  pub contains : N → N → Bool
