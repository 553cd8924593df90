-- ===== src/Config/Values.antt =====
-- The values that `fingerprint` of src/wireguard/connection_config.rs pushes.
use macos_wireguard_daemon.Prelude.{
  ◌≡◌, refl, sym, ap, ◌∙◌, ℕ, zero, suc, ◌/◌, ◌%◌, ◌^◌, ◌<◌, Option, none, some, List, [], ◌∷◌,
  ◌++◌, Text, map, length, arith,
}
use macos_wireguard_daemon.Net.Parse.{IpAddr, v4, v6}
use macos_wireguard_daemon.Net.Blocks.{IsAddress}
use macos_wireguard_daemon.Links.Net.{IpNetOps}
use macos_wireguard_daemon.Config.{
  le_bytes, be_bytes, push_u32, push_option_u16, push_bytes, push_ip, push_strings,
  push_option_bytes, push_net, push_ipnets,
}
use macos_wireguard_daemon.Config.Encoding.{
  IsReadable, appended-IsReadable, IsCounted, counted-IsReadable, ++_assoc, cons_lem, split_lem,
  le_bytes-reads, be_bytes-reads,
}

abbrev pub same : {A : Type 0} → A → A
same a = a

-- A value that fits in 16 bits, where there is one.
abbrev pub IsU16 : Option ℕ → Type 0
IsU16 none = Unit
IsU16 (some v) = v < 2 ^ 16

-- A byte string whose length fits in 32 bits.
abbrev pub IsShort : List ℕ → Type 0
IsShort b = length b < 2 ^ 32

abbrev pub IsShortOption : Option (List ℕ) → Type 0
IsShortOption none = Unit
IsShortOption (some b) = IsShort b

abbrev u16_code : Option ℕ → List ℕ
u16_code none = 0 ∷ []
u16_code (some v) = 1 ∷ le_bytes 2 v

u16_reads :
    (a b : Option ℕ) (s t : List ℕ)
    → IsU16 a
    → IsU16 b
    → u16_code a ++ s ≡ u16_code b ++ t
    → (a ≡ b) × (s ≡ t)
u16_reads none none s t v u e = (refl, (cons_lem 0 0 s t e).1)
u16_reads none (some b) s t v u e = absurd (omega (arith, (cons_lem 0 1 s (le_bytes 2 b ++ t) e).0))
u16_reads (some a) none s t v u e = absurd (omega (arith, (cons_lem 1 0 (le_bytes 2 a ++ s) t e).0))
u16_reads (some a) (some b) s t v u e =
    let r =
      le_bytes-reads 2 a b s t v u (cons_lem 1 1 (le_bytes 2 a ++ s) (le_bytes 2 b ++ t) e).1 in
    (ap some r.0, r.1)

pub push_option_u16-IsReadable : IsReadable push_option_u16 same IsU16
unfolding push_option_u16
push_option_u16-IsReadable =
    appended-IsReadable push_option_u16 u16_code same IsU16 puts u16_reads (λ a b e. ap u16_code e)
  where
    puts : (buf : List ℕ) (a : Option ℕ) → push_option_u16 buf a ≡ buf ++ u16_code a
    puts buf none = refl
    puts buf (some v) = ++_assoc buf (1 ∷ []) (le_bytes 2 v)

abbrev bytes_code : List ℕ → List ℕ
bytes_code b = le_bytes 4 (length b % 2 ^ 32) ++ b

bytes_reads :
    (a b s t : List ℕ)
    → IsShort a
    → IsShort b
    → bytes_code a ++ s ≡ bytes_code b ++ t
    → (a ≡ b) × (s ≡ t)
bytes_reads a b s t v u e =
    let n = length a % 2 ^ 32 in
    let m = length b % 2 ^ 32 in
    let size =
      le_bytes-reads 4 n m (a ++ s) (b ++ t) (omega arith) (omega arith)
        (sym (++_assoc (le_bytes 4 n) a s) ∙ e ∙ ++_assoc (le_bytes 4 m) b t) in
    split_lem a b s t (omega (arith, size.0, v, u)) size.1

push_bytes_lem : (buf b : List ℕ) → push_bytes buf b ≡ buf ++ bytes_code b
unfolding push_bytes push_u32
push_bytes_lem buf b = ++_assoc buf (le_bytes 4 (length b % 2 ^ 32)) b

pub push_bytes-IsReadable : IsReadable push_bytes same IsShort
push_bytes-IsReadable =
    appended-IsReadable push_bytes bytes_code same IsShort push_bytes_lem bytes_reads
      (λ a b e. ap bytes_code e)

abbrev option_code : Option (List ℕ) → List ℕ
option_code none = 0 ∷ []
option_code (some b) = 1 ∷ bytes_code b

option_reads :
    (a b : Option (List ℕ)) (s t : List ℕ)
    → IsShortOption a
    → IsShortOption b
    → option_code a ++ s ≡ option_code b ++ t
    → (a ≡ b) × (s ≡ t)
option_reads none none s t v u e = (refl, (cons_lem 0 0 s t e).1)
option_reads none (some b) s t v u e =
    absurd (omega (arith, (cons_lem 0 1 s (bytes_code b ++ t) e).0))
option_reads (some a) none s t v u e =
    absurd (omega (arith, (cons_lem 1 0 (bytes_code a ++ s) t e).0))
option_reads (some a) (some b) s t v u e =
    let r = bytes_reads a b s t v u (cons_lem 1 1 (bytes_code a ++ s) (bytes_code b ++ t) e).1 in
    (ap some r.0, r.1)

pub push_option_bytes-IsReadable : IsReadable push_option_bytes same IsShortOption
unfolding push_option_bytes
push_option_bytes-IsReadable =
    appended-IsReadable push_option_bytes option_code same IsShortOption puts option_reads
      (λ a b e. ap option_code e)
  where
    puts : (buf : List ℕ) (a : Option (List ℕ)) → push_option_bytes buf a ≡ buf ++ option_code a
    puts buf none = refl
    puts buf (some b) = push_bytes_lem (buf ++ 1 ∷ []) b ∙ ++_assoc buf (1 ∷ []) (bytes_code b)

abbrev ip_code : IpAddr → List ℕ
ip_code (v4 bits) = 4 ∷ be_bytes 4 bits []
ip_code (v6 bits) = 6 ∷ be_bytes 16 bits []

be_append : (k v : ℕ) (r s : List ℕ) → be_bytes k v r ++ s ≡ be_bytes k v (r ++ s)
be_append zero v r s = refl
be_append (suc k) v r s = be_append k (v / 256) (v % 256 ∷ r) s

pub ip_reads :
    (a b : IpAddr) (s t : List ℕ)
    → IsAddress a
    → IsAddress b
    → ip_code a ++ s ≡ ip_code b ++ t
    → (a ≡ b) × (s ≡ t)
ip_reads (v4 a) (v4 b) s t v u e =
    let r = be_bytes-reads 4 a b s t v u (
      sym (be_append 4 a [] s)
      ∙ (cons_lem 4 4 (be_bytes 4 a [] ++ s) (be_bytes 4 b [] ++ t) e).1
      ∙ be_append 4 b [] t) in
    (ap v4 r.0, r.1)
ip_reads (v4 a) (v6 b) s t v u e =
    absurd (omega (arith, (cons_lem 4 6 (be_bytes 4 a [] ++ s) (be_bytes 16 b [] ++ t) e).0))
ip_reads (v6 a) (v4 b) s t v u e =
    absurd (omega (arith, (cons_lem 6 4 (be_bytes 16 a [] ++ s) (be_bytes 4 b [] ++ t) e).0))
ip_reads (v6 a) (v6 b) s t v u e =
    let r = be_bytes-reads 16 a b s t v u (
      sym (be_append 16 a [] s)
      ∙ (cons_lem 6 6 (be_bytes 16 a [] ++ s) (be_bytes 16 b [] ++ t) e).1
      ∙ be_append 16 b [] t) in
    (ap v6 r.0, r.1)

push_ip_lem : (buf : List ℕ) (a : IpAddr) → push_ip buf a ≡ buf ++ ip_code a
unfolding push_ip
push_ip_lem buf (v4 bits) = ++_assoc buf (4 ∷ []) (be_bytes 4 bits [])
push_ip_lem buf (v6 bits) = ++_assoc buf (6 ∷ []) (be_bytes 16 bits [])

pub push_ip-IsReadable : IsReadable push_ip same IsAddress
push_ip-IsReadable =
    appended-IsReadable push_ip ip_code same IsAddress push_ip_lem ip_reads (λ a b e. ap ip_code e)

pub push_strings-IsReadable : IsReadable {A = List Text} push_strings (map same) (IsCounted IsShort)
unfolding push_strings
push_strings-IsReadable = counted-IsReadable push_bytes same IsShort push_bytes-IsReadable

module _ {N : Type 0} (net : IpNetOps N) where
  -- What a fingerprint keeps of a network: the address as written, and the prefix length.
  abbrev pub literal : N → IpAddr × ℕ
  literal n = (net.addr n, net.prefix_len n)

  abbrev pub IsNet : N → Type 0
  IsNet n = IsAddress (net.addr n)

  pub push_net-IsReadable : IsReadable (push_net net) literal IsNet
  unfolding push_net
  push_net-IsReadable =
      appended-IsReadable (push_net net) (λ n. ip_code (net.addr n) ++ net.prefix_len n ∷ [])
        literal IsNet puts back (λ a b e. ap (λ (l : IpAddr × ℕ). ip_code l.0 ++ l.1 ∷ []) e)
    where
      puts :
          (buf : List ℕ) (n : N)
          → push_net net buf n ≡ buf ++ (ip_code (net.addr n) ++ net.prefix_len n ∷ [])
      puts buf n =
          ap (λ (t : List ℕ). t ++ net.prefix_len n ∷ []) (push_ip_lem buf (net.addr n))
          ∙ ++_assoc buf (ip_code (net.addr n)) (net.prefix_len n ∷ [])

      back :
          (a b : N) (s t : List ℕ)
          → IsNet a
          → IsNet b
          → (ip_code (net.addr a) ++ net.prefix_len a ∷ []) ++ s
            ≡ (ip_code (net.addr b) ++ net.prefix_len b ∷ []) ++ t
          → (literal a ≡ literal b) × (s ≡ t)
      back a b s t v u e =
          let r =
            ip_reads (net.addr a) (net.addr b) (net.prefix_len a ∷ s) (net.prefix_len b ∷ t) v u (
              sym (++_assoc (ip_code (net.addr a)) (net.prefix_len a ∷ []) s)
              ∙ e
              ∙ ++_assoc (ip_code (net.addr b)) (net.prefix_len b ∷ []) t) in
          let c = cons_lem (net.prefix_len a) (net.prefix_len b) s t r.1 in
          (rw (r.0, c.0) refl, c.1)

  pub push_ipnets-IsReadable : IsReadable (push_ipnets net) (map literal) (IsCounted IsNet)
  unfolding push_ipnets
  push_ipnets-IsReadable = counted-IsReadable (push_net net) literal IsNet push_net-IsReadable
