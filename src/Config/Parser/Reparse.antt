-- ===== src/Config/Parser/Reparse.antt =====
-- Two runs of `parse_connection_config` of src/wireguard/connection_config.rs on one text, between which
-- the resolver's answers change.
pub mod Alike
pub mod Rerun
use macos_wireguard_daemon.Prelude.{
  ◌≡◌, refl, ℕ, Option, none, List, [], ◌∷◌, ◌++◌, map, Text, Result, ok, err, Bool, true, false,
  if◌then◌else◌,
}
use macos_wireguard_daemon.Prelude.Results.{◌>>=◌}
use macos_wireguard_daemon.Config.{SocketAddr, ConnectionPeer, ConnectionConfig}
use macos_wireguard_daemon.Daemon.Errors.{AppError}
use macos_wireguard_daemon.Config.Parser.{ParserTools}
use macos_wireguard_daemon.Config.Parser.Sections.{ParseState}

-- The values of two runs are related, where both have one.
pub record Agrees {A B : Type 0} (R : A → B → Type 0) (m : Result AppError A)
    (n : Result AppError B) : Type 0 where
  pub value : (a : A) (b : B) → m ≡ ok a → n ≡ ok b → R a b

module _ {A B : Type 0} (R : A → B → Type 0) where
  pub Agrees-ok : (a : A) (b : B) → R a b → Agrees R (ok a) (ok b)
  Agrees-ok a b h = record {
    value = λ c d e f. let x : a ≡ c = cc in let y : b ≡ d = cc in rw (x, y) at h;
  }

  pub Agrees-left : (e : AppError) (n : Result AppError B) → Agrees R (err e) n
  Agrees-left e n = record { value = λ c d p q. cc }

  pub Agrees-right : (e : AppError) (m : Result AppError A) → Agrees R m (err e)
  Agrees-right e m = record { value = λ c d p q. cc }

  pub Agrees-if :
      (b : Bool) (x y : Result AppError A) (x' y' : Result AppError B)
      → Agrees R x x'
      → Agrees R y y'
      → Agrees R (if b then x else y) (if b then x' else y')
  Agrees-if true x y x' y' h k = h
  Agrees-if false x y x' y' h k = k

module _ {A B C D : Type 0} (P : A → B → Type 0) (R : C → D → Type 0) where
  pub Agrees-bind :
      (m : Result AppError A) (n : Result AppError B) (f : A → Result AppError C)
      (g : B → Result AppError D)
      → Agrees P m n
      → ((a : A) (b : B) → P a b → Agrees R (f a) (g b))
      → Agrees R (m >>= f) (n >>= g)
  Agrees-bind (ok a) (ok b) f g h k = k a b (h.value a b refl refl)
  Agrees-bind (ok a) (err e) f g h k = Agrees-right R e (f a)
  Agrees-bind (err e) n f g h k = Agrees-left R e (n >>= g)

module _ {A C D : Type 0} (R : C → D → Type 0) where
  -- Both runs begin with the same value, or with any values.
  pub Agrees-same :
      (m n : Result AppError A) (f : A → Result AppError C) (g : A → Result AppError D)
      → n ≡ m
      → ((a : A) → Agrees R (f a) (g a))
      → Agrees R (m >>= f) (n >>= g)
  Agrees-same (ok a) n f g e k = rw e (k a)
  Agrees-same (err x) n f g e k = Agrees-left R x (n >>= g)

  pub Agrees-free :
      (m n : Result AppError A) (f : A → Result AppError C) (g : A → Result AppError D)
      → ((a b : A) → Agrees R (f a) (g b))
      → Agrees R (m >>= f) (n >>= g)
  Agrees-free (ok a) (ok b) f g k = k a b
  Agrees-free (ok a) (err e) f g k = Agrees-right R e (f a)
  Agrees-free (err e) n f g k = Agrees-left R e (n >>= g)

module _ {N : Type 0} where
  -- The same tools with other answers of the resolver.
  abbrev pub with_resolver : ParserTools N → (Text → ℕ → Result AppError SocketAddr) → ParserTools N
  with_resolver tools resolve = record tools { resolve = resolve }

  -- A peer and a configuration without the addresses that the resolver gave.
  abbrev pub unresolved_peer : ConnectionPeer N → ConnectionPeer N
  unresolved_peer p = record p { endpoint = none }

  abbrev pub unresolved : ConnectionConfig N → ConnectionConfig N
  unresolved c = record c { peers = map unresolved_peer c.peers }

  -- The two differ only in addresses that the resolver gave.
  abbrev pub IsSame : ConnectionConfig N → ConnectionConfig N → Type 0
  IsSame c d = unresolved d ≡ unresolved c

  -- The second state is the first but for addresses that the resolver gave.
  pub record IsAlike (s t : ParseState N) : Type 0 where
    pub endpoint : Option SocketAddr
    pub peers : List (ConnectionPeer N)
    pub same : t ≡ record s { peer_endpoint = endpoint; peers = peers }
    pub alike : map unresolved_peer peers ≡ map unresolved_peer s.peers

  pub append_alike :
      (xs ys : List (ConnectionPeer N)) (p q : ConnectionPeer N)
      → map unresolved_peer xs ≡ map unresolved_peer ys
      → unresolved_peer p ≡ unresolved_peer q
      → map unresolved_peer (xs ++ p ∷ []) ≡ map unresolved_peer (ys ++ q ∷ [])
  append_alike [] [] p q h e = rw e refl
  append_alike [] (y ∷ ys) p q h e = cc
  append_alike (x ∷ xs) [] p q h e = cc
  append_alike (x ∷ xs) (y ∷ ys) p q h e =
      let hd : unresolved_peer x ≡ unresolved_peer y = cc in
      let tl : map unresolved_peer xs ≡ map unresolved_peer ys = cc in
      let more = append_alike xs ys p q tl e in rw (hd, more) refl

  pub like :
      {s : ParseState N} (endpoint : Option SocketAddr) (peers : List (ConnectionPeer N))
      → map unresolved_peer peers ≡ map unresolved_peer s.peers
      → IsAlike s (record s { peer_endpoint = endpoint; peers = peers })
  like endpoint peers h = record { endpoint = endpoint; peers = peers; same = refl; alike = h }
