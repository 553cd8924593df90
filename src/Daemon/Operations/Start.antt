-- ===== src/Daemon/Operations/Start.antt =====
-- What `connect` of src/privileged/connection_ops.rs starts a helper with.
use macos_wireguard_daemon.Prelude.{
  ◌≡◌, refl, sym, ap, ◌∙◌, ℕ, Bool, ◌&&◌, some, List, Text, text, arith, Eq, ◌==◌, ==_iff, ℕ_eq,
  List_eq, All, map, is_empty, length, Result, ok, Result-cases, Option-cases, Bool-cases, inl, inr,
  if◌then◌else◌,
}
use macos_wireguard_daemon.Links.Net.{IpNetOps}
use macos_wireguard_daemon.Links.Check.{IsValidLink}
use macos_wireguard_daemon.Config.{ConnectionConfig, fingerprint}
use macos_wireguard_daemon.Daemon.Errors.{AppError}
use macos_wireguard_daemon.Daemon.Store.{StoredConnection, allowed_ips}
use macos_wireguard_daemon.Daemon.Operations.{
  HelperStart, Machine, socket_path, run_hooks, take_down, clear_dead_helper_leftovers,
  reparse_and_verify,
}
use macos_wireguard_daemon.Daemon.Operations.Connect.{
  helper_start, start_helper, roll_back, mark_active, run_post_up, connect_fresh, connect_marked,
  connect_verified, connect,
}
use macos_wireguard_daemon.Daemon.Operations.Keep.{
  valid-AllValid, Kept, next-Kept, IsKeeping, run_hooks-Kept, take_down-Kept, leftovers-Kept,
}

module _ {N : Type 0} (parse : Text → Result AppError (ConnectionConfig N)) (net : IpNetOps N)
    (sha256 : List ℕ → List ℕ) where
  -- The record's text still parses to what it was stored as.
  pub record IsSound (stored : StoredConnection N) (reparsed : ConnectionConfig N) : Type 0 where
    pub parses : parse stored.raw_conf ≡ ok reparsed
    pub verified : fingerprint net sha256 reparsed ≡ stored.fingerprint

  verify-IsSound :
      (stored : StoredConnection N) (reparsed : ConnectionConfig N)
      → reparse_and_verify parse net sha256 stored ≡ ok reparsed
      → IsSound stored reparsed
  unfolding reparse_and_verify
  verify-IsSound stored reparsed h = elim (Result-cases (parse stored.raw_conf)) [
    | inr (error, q) ↦ absurd (ground (arith, h, q))
    | inl (config, q) ↦ elim (Bool-cases (fingerprint net sha256 config == stored.fingerprint)) [
      | inr f ↦ absurd (ground (arith, h, q, f))
      | inl f ↦
          let same : config ≡ reparsed = ground (arith, h, q, f) in
          record {
            parses = q ∙ ap ok same;
            verified =
                ap (fingerprint net sha256) (sym same)
                ∙ (==_iff (fingerprint net sha256 config) stored.fingerprint).0 f;
          }
    ]
  ]

module _ {N W : Type 0} ⦃e : Eq N⦄ (parse : Text → Result AppError (ConnectionConfig N))
    (net : IpNetOps N) (sha256 : List ℕ → List ℕ) where
  -- What a helper may be started with: the text of a record that was found in such a world, that
  -- parses to its fingerprint and to one peer, and links that its AllowedIPs support.
  pub record IsStart (machine : Machine N W) (I : W → Type 0) (start : HelperStart N) : Type 0 where
    pub stored : StoredConnection N
    pub reparsed : ConnectionConfig N
    pub world : W
    pub kept : I world
    pub found : machine.load start.id world ≡ ok (some stored)
    pub sound : IsSound parse net sha256 stored reparsed
    pub one_peer : length reparsed.peers ≡ 1
    pub raw_conf : start.raw_conf ≡ stored.raw_conf
    pub interface : start.interface ≡ stored.interface
    pub links : All (λ l. IsValidLink net l (map net.trunc (allowed_ips stored))) start.bypass_links

  module _ (machine : Machine N W) (I : W → Type 0) (keeps : IsKeeping machine I)
      (starts : (start : HelperStart N) (w : W)
        → IsStart machine I start
        → I w
        → I (machine.gotatun_up start w).1) where
    start_helper-Kept :
        (id : ℕ) (debug : Bool) (stored : StoredConnection N) (reparsed : ConnectionConfig N)
        (w : W)
        → IsStart machine I (helper_start machine parse net sha256 id debug stored)
        → I w
        → Kept I (start_helper machine parse net sha256 id debug stored reparsed w)
    unfolding start_helper
    start_helper-Kept id debug stored reparsed w s h =
        next-Kept I (machine.lock_network w) _ (record { value = keeps.lock_network w h })
          λ a w1 q k.
            next-Kept I (machine.ensure_dns_custody_dir w1) _
              (record { value = keeps.ensure_dns_custody_dir w1 k })
              λ b w2 r l.
                let swept = machine.sweep stored.interface w2 in
                let m = keeps.sweep stored.interface w2 l in
                elim (Bool-cases (is_empty reparsed.dns_servers)) [
                  | inl d ↦ rw d (record { value = keeps.settle _ (starts _ swept s m) })
                  | inr d ↦ rw d (record {
                    value = keeps.settle _ (
                        starts _ (machine.create_sentinel swept) s (keeps.create_sentinel swept m));
                  })
                ]

    roll_back-Kept :
        (interface : Text) (error : AppError) (w : W)
        → I w
        → Kept I (roll_back machine parse net sha256 interface error w)
    unfolding roll_back
    roll_back-Kept interface error w h =
        let down = (take_down-Kept machine I keeps interface w h).value in
        elim (Result-cases (take_down machine interface w).0) [
          | inl (a, q) ↦ rw (q, roll_back) (record { value = down })
          | inr (rollback_error, q) ↦ rw (q, roll_back) (record { value = down })
        ]

    mark_active-Kept :
        (id : ℕ) (debug : Bool) (stored : StoredConnection N) (w : W)
        → I w
        → Kept I (mark_active machine parse net sha256 id debug stored w)
    unfolding mark_active
    mark_active-Kept id debug stored w h =
        next-Kept I (machine.metadata (socket_path stored.interface) w, w) _ (record { value = h })
          λ found w' q k. elim (Option-cases found) [
            | inl n ↦ rw n (record { value = k })
            | inr (stamp, n) ↦ rw n (record { value = keeps.save_active id _ w' k })
          ]

    run_post_up-Kept :
        (id : ℕ) (debug : Bool) (stored : StoredConnection N) (reparsed : ConnectionConfig N)
        (w : W)
        → I w
        → Kept I (run_post_up machine parse net sha256 id debug stored reparsed w)
    unfolding run_post_up
    run_post_up-Kept id debug stored reparsed w h =
        let hooks =
          (run_hooks-Kept machine I keeps reparsed.post_up stored.interface (text "PostUp") w
            h).value in
        let after = run_hooks machine reparsed.post_up stored.interface (text "PostUp") w in
        elim (Result-cases after.0) [
          | inl (a, q) ↦ rw (q, run_post_up) (mark_active-Kept id debug stored after.1 hooks)
          | inr (error, q) ↦
              rw (q, run_post_up) (roll_back-Kept stored.interface error after.1 hooks)
        ]

    connect_fresh-Kept :
        (id : ℕ) (debug : Bool) (stored : StoredConnection N) (reparsed : ConnectionConfig N)
        (w : W)
        → IsStart machine I (helper_start machine parse net sha256 id debug stored)
        → I w
        → Kept I (connect_fresh machine parse net sha256 id debug stored reparsed w)
    unfolding connect_fresh
    connect_fresh-Kept id debug stored reparsed w s h =
        next-Kept I (machine.try_exists (socket_path stored.interface) w, w) _
          (record { value = h })
          λ there w1 q k. elim (Bool-cases there) [
            | inl t ↦ rw t (record { value = k })
            | inr t ↦ rw t (
                next-Kept I (run_hooks machine reparsed.pre_up stored.interface (text "PreUp") w1) _
                  (run_hooks-Kept machine I keeps reparsed.pre_up stored.interface (text "PreUp") w1
                    k)
                  λ a w2 r l.
                    next-Kept I (start_helper machine parse net sha256 id debug stored reparsed w2)
                      _ (start_helper-Kept id debug stored reparsed w2 s l)
                      λ b w3 p m. run_post_up-Kept id debug stored reparsed w3 m)
          ]

    connect_marked-Kept :
        (id : ℕ) (debug : Bool) (stored : StoredConnection N) (reparsed : ConnectionConfig N)
        (w : W)
        → IsStart machine I (helper_start machine parse net sha256 id debug stored)
        → I w
        → Kept I (connect_marked machine parse net sha256 id debug stored reparsed w)
    unfolding connect_marked
    connect_marked-Kept id debug stored reparsed w s h =
        next-Kept I (machine.load_active id w, w) _ (record { value = h })
          λ active w1 q k. elim (Option-cases active) [
            | inl n ↦ rw n (connect_fresh-Kept id debug stored reparsed w1 s k)
            | inr (marker, n) ↦ rw n (
                next-Kept I (machine.metadata marker.socket w1, w1) _ (record { value = k })
                  λ found w2 r l. elim (Option-cases found) [
                    | inl m ↦ rw m (connect_fresh-Kept id debug stored reparsed w2 s l)
                    | inr (stamp, m) ↦
                        elim (Bool-cases (
                          stamp.device == marker.stamp.device
                          && stamp.inode == marker.stamp.inode
                          && stamp.changed_sec == marker.stamp.changed_sec
                          && stamp.changed_nsec == marker.stamp.changed_nsec
                          && marker.fingerprint == stored.fingerprint)) [
                            | inl t ↦ rw (m, t) (record { value = l })
                            | inr t ↦ rw (m, t) (record { value = l })
                          ]
                  ])
          ]

    connect_verified-Kept :
        (id : ℕ) (debug : Bool) (stored : StoredConnection N) (reparsed : ConnectionConfig N)
        (w : W)
        → (length reparsed.peers ≡ 1
            → IsStart machine I (helper_start machine parse net sha256 id debug stored))
        → I w
        → Kept I (connect_verified machine parse net sha256 id debug stored reparsed w)
    unfolding connect_verified
    connect_verified-Kept id debug stored reparsed w s h =
        elim (Bool-cases (length reparsed.peers == 1)) [
          | inr n ↦ rw (n, connect_verified) (record { value = h })
          | inl n ↦
              let start = s ((==_iff (length reparsed.peers) 1).0 n) in
              rw (n, connect_verified)
                (next-Kept I (machine.try_exists (socket_path stored.interface) w, w) _
                  (record { value = h })
                  λ there w1 q k.
                    next-Kept I
                      (if there
                        then clear_dead_helper_leftovers machine stored.interface w1
                        else (ok tt, w1))
                      _
                      (elim (Bool-cases there) [
                        | inl t ↦ rw t (leftovers-Kept machine I keeps stored.interface w1 k)
                        | inr t ↦ rw t (record { value = k })
                      ])
                      λ a w2 r l. connect_marked-Kept id debug stored reparsed w2 start l)
        ]

    -- A connect starts a helper only with the text of the record that it found, which parses to the
    -- record's fingerprint and to one peer, and with links that the record's AllowedIPs support: it
    -- keeps every property of the machine that such a start keeps, on the condition that the other
    -- calls keep it too.
    pub connect-Kept :
        (id : ℕ) (debug : Bool) (w : W) → I w → I (connect machine parse net sha256 id debug w).1
    unfolding connect
    connect-Kept id debug w h =
        (next-Kept I (machine.load id w, w) _ (record { value = h })
          λ found w1 q k. elim (Option-cases found) [
            | inl n ↦ rw n (record { value = k })
            | inr (stored, n) ↦ rw n (
                next-Kept I (reparse_and_verify parse net sha256 stored, w1) _
                  (record { value = k })
                  λ reparsed w2 r l.
                    let sound = verify-IsSound parse net sha256 stored reparsed r in
                    connect_verified-Kept id debug stored reparsed w2
                      (λ one. record {
                        stored = stored;
                        reparsed = reparsed;
                        world = w;
                        kept = h;
                        found = q ∙ ap ok n;
                        sound = sound;
                        one_peer = one;
                        raw_conf = refl;
                        interface = refl;
                        links = valid-AllValid net stored.bypass_links (allowed_ips stored);
                      })
                      l)
          ]).value
