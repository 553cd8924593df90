-- ===== src/Daemon/Store/Allocate.antt =====
-- `allocate_unique_interface` of src/privileged/connection_store.rs.
use macos_wireguard_daemon.Prelude.{
  ◌≡◌, refl, sym, ap, ◌∙◌, ℕ, zero, suc, Bool, false, none, some, List, [], ◌∷◌, Text, arith, ◌==◌,
  ℕ_eq, Bool_eq, List_eq, Option_eq, any, find, Result, ok, Result-cases, Bool-cases, inl, inr,
}
use macos_wireguard_daemon.Daemon.Errors.{AppError}
use macos_wireguard_daemon.Daemon.Store.{
  ConnectionStartMode_eq, StoredConnection, Store, Host, load_in, load_all_strict_in, called,
  interface_name, interface_name_in_use, allocate,
}
use macos_wireguard_daemon.Daemon.Store.Records.{strict_none}

any-find {ℓ} : {A : Type ℓ} (p : A → Bool) (xs : List A) → any p xs ≡ false → find p xs ≡ none
unfolding any find
any-find p [] h = refl
any-find p (x ∷ xs) h = ground (arith, h, any-find p xs)

ok_lem :
    (a b : ℕ) (x y : Text)
    → Path (Result AppError (ℕ × Text)) (ok (a, x)) (ok (b, y))
    → (a ≡ b) × (x ≡ y)
ok_lem a b x y h = ground (arith, h)

module _ {N : Type 0} where
  -- An interface name that is not in use is no record's.
  unused_lem :
      (st : Store N) (interface : Text)
      → interface_name_in_use st interface ≡ ok false
      → (j : ℕ) (d : StoredConnection N) → load_in st.entries j ≡ ok (some d)
      → (d.interface == interface) ≡ false
  unfolding interface_name_in_use
  unused_lem st interface h j d l = elim (Result-cases (load_all_strict_in st.entries)) [
    | inr (e, q) ↦ absurd (ground (arith, q, h))
    | inl (conns, q) ↦
        let none_found =
          any-find (λ (conn : StoredConnection N). conn.interface == interface) conns
            (ground (arith, q, h)) in
        strict_none (λ (conn : StoredConnection N). conn.interface == interface) st.entries conns j
          d q none_found l
  ]

  module _ (host : Host) where
    -- An allocated interface name belongs to its id and is no record's; the records stay.
    pub allocate_lem :
        (attempts : ℕ) (st : Store N)
        → let (result, st') = allocate host attempts st in
          (st'.entries ≡ st.entries)
          × ((id : ℕ) (interface : Text)
              → result ≡ ok (id, interface)
              → (interface ≡ interface_name id)
                × ((j : ℕ) (d : StoredConnection N)
                    → load_in st.entries j ≡ ok (some d)
                    → (d.interface == interface) ≡ false))
    unfolding allocate
    allocate_lem zero st = (refl, λ id interface h. absurd (ground (arith, h)))
    allocate_lem (suc attempts) st =
        let name = interface_name (host.new_id st.calls) in
        elim (Result-cases (interface_name_in_use st name)) [
          | inr (e, q) ↦ rw (q, allocate) (refl, λ id interface h. absurd (ground (arith, h)))
          | inl (used, q) ↦ elim (Bool-cases used) [
            | inl u ↦ rw (q, u, allocate) (allocate_lem attempts (called st))
            | inr u ↦
                rw (q, u, allocate)
                  (
                    refl,
                    λ id interface h.
                        let same = ok_lem (host.new_id st.calls) id name interface h in
                        (
                          sym same.1 ∙ ap interface_name same.0,
                          λ j d l.
                              ap (λ (t : Text). d.interface == t) (sym same.1)
                              ∙ unused_lem st name (q ∙ ap ok u) j d l,
                        ),
                  )
          ]
        ]
