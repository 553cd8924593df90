-- ===== src/Daemon/Store/Records.antt =====
-- Looking records up, after writes and by searches.
use macos_wireguard_daemon.Prelude.{
  ◌≡◌, refl, sym, ap, Within, first, later, ◌∙◌, ℕ, Bool, true, false, none, some, List, [], ◌∷◌,
  arith, ◌==◌, ==_iff, ℕ_eq, List_eq, any, find, Result, ok, err, Result-cases, Bool-cases, inl,
  inr, if◌then◌else◌,
}
use macos_wireguard_daemon.Daemon.Errors.{AppError}
use macos_wireguard_daemon.Daemon.Store.{
  StoredConnection, from_disk_checked, load_in, load_all_in, load_all_strict_in, put, without,
  interface_name,
}

module _ {N : Type 0} where
  -- A directory: no two files have the same name.
  abbrev pub IsDirectory : List (ℕ × Result AppError (StoredConnection N)) → Type 0
  IsDirectory [] = Unit
  IsDirectory (entry ∷ rest) = (any (λ other. other.0 == entry.0) rest ≡ false) × IsDirectory rest

  -- A record that bears its id and the interface name of that id.
  abbrev pub IsPlaced : StoredConnection N → Type 0
  IsPlaced conn = conn.interface ≡ interface_name conn.id

  pub from_disk_checked-ok :
      (id : ℕ) (entry : Result AppError (StoredConnection N)) (conn : StoredConnection N)
      → from_disk_checked id entry ≡ ok conn
      → (entry ≡ ok conn) × (conn.id ≡ id) × IsPlaced conn
  unfolding from_disk_checked
  from_disk_checked-ok id (err e) conn h = cc
  from_disk_checked-ok id (ok disk) conn h =
      ground (arith, ==_iff disk.id id, ==_iff disk.interface (interface_name disk.id))

  pub load_in-some :
      (entries : List (ℕ × Result AppError (StoredConnection N))) (id : ℕ)
      (conn : StoredConnection N)
      → load_in entries id ≡ ok (some conn)
      → (conn.id ≡ id) × IsPlaced conn
  unfolding load_in find
  load_in-some [] id conn h = cc
  load_in-some (entry ∷ rest) id conn h = ground (
    arith,
    h,
    from_disk_checked-ok entry.0 entry.1 conn,
    from_disk_checked-ok id entry.1 conn,
    load_in-some rest id conn,
    ==_iff entry.0 id,
  )

  -- A record that loads is among those that are listed.
  pub load_in-listed :
      (entries : List (ℕ × Result AppError (StoredConnection N))) (id : ℕ)
      (conn : StoredConnection N)
      → load_in entries id ≡ ok (some conn)
      → Within conn (load_all_in entries)
  unfolding load_in load_all_in find
  load_in-listed [] id conn h = absurd (ground (arith, h))
  load_in-listed (entry ∷ rest) id conn h = elim (Bool-cases (entry.0 == id)) [
    | inl e ↦
        let n = (==_iff entry.0 id).0 e in
        let own : from_disk_checked entry.0 entry.1 ≡ ok conn = ground (arith, h, e, n) in
        rw (own, load_all_in) first
    | inr e ↦
        let more = load_in-listed rest id conn (ground (arith, h, e)) in
        elim (Result-cases (from_disk_checked entry.0 entry.1)) [
          | inl (c, q) ↦ rw (q, load_all_in) (later more)
          | inr (error, q) ↦ rw (q, load_all_in) more
        ]
  ]

  pub load_in-put :
      (id : ℕ) (conn : StoredConnection N)
      (entries : List (ℕ × Result AppError (StoredConnection N))) (j : ℕ)
      → load_in (put id conn entries) j ≡ (
          if id == j
          then (elim (from_disk_checked id (ok conn)) [ ok c ↦ ok (some c) | err e ↦ err e ])
          else load_in entries j)
  unfolding load_in find
  load_in-put id conn [] j = ground (arith, ==_iff id j)
  load_in-put id conn (entry ∷ rest) j =
      ground (arith, ==_iff id j, ==_iff entry.0 j, ==_iff entry.0 id, load_in-put id conn rest j)

  pub load_in-without :
      (id : ℕ) (entries : List (ℕ × Result AppError (StoredConnection N))) (j : ℕ)
      → load_in (without id entries) j ≡ (if id == j then ok none else load_in entries j)
  unfolding load_in find
  load_in-without id [] j = ground arith
  load_in-without id (entry ∷ rest) j =
      ground (arith, ==_iff id j, ==_iff entry.0 j, ==_iff entry.0 id, load_in-without id rest j)

  pub any-put :
      (id : ℕ) (conn : StoredConnection N)
      (entries : List (ℕ × Result AppError (StoredConnection N))) (j : ℕ)
      → (id == j) ≡ false
      → any (λ other. other.0 == j) (put id conn entries) ≡ any (λ other. other.0 == j) entries
  unfolding any
  any-put id conn [] j h = ground (arith, h)
  any-put id conn (entry ∷ rest) j h =
      ground (arith, h, ==_iff entry.0 id, any-put id conn rest j h)

  pub put-IsDirectory :
      (id : ℕ) (conn : StoredConnection N)
      (entries : List (ℕ × Result AppError (StoredConnection N)))
      → IsDirectory entries
      → IsDirectory (put id conn entries)
  unfolding any
  put-IsDirectory id conn [] h = (refl, tt)
  put-IsDirectory id conn (entry ∷ rest) h = elim (Bool-cases (entry.0 == id)) [
    | inl e ↦ rw e (rw (sym ((==_iff entry.0 id).0 e)) h)
    | inr e ↦ rw e (
      any-put id conn rest entry.0 (ground (arith, e, ==_iff entry.0 id, ==_iff id entry.0)) ∙ h.0,
      put-IsDirectory id conn rest h.1,
    )
  ]

  absent_lem :
      (entries : List (ℕ × Result AppError (StoredConnection N))) (id : ℕ)
      → any (λ other. other.0 == id) entries ≡ false
      → load_in entries id ≡ ok none
  unfolding load_in find any
  absent_lem [] id h = refl
  absent_lem (entry ∷ rest) id h = ground (arith, h, absent_lem rest id)

  strict_cons :
      (entry : ℕ × Result AppError (StoredConnection N))
      (rest : List (ℕ × Result AppError (StoredConnection N))) (conns : List (StoredConnection N))
      → load_all_strict_in (entry ∷ rest) ≡ ok conns
      → (c : StoredConnection N) × (cs : List (StoredConnection N)) × (from_disk_checked entry.0
            entry.1
          ≡ ok c)
        × (load_all_strict_in rest ≡ ok cs)
        × (conns ≡ c ∷ cs)
  unfolding load_all_strict_in
  strict_cons entry rest conns h = elim (Result-cases (from_disk_checked entry.0 entry.1)) [
    | inr (e, q) ↦ absurd (ground (arith, q, h))
    | inl (c, q) ↦ elim (Result-cases (load_all_strict_in rest)) [
      | inr (e, r) ↦ absurd (ground (arith, q, r, h))
      | inl (cs, r) ↦ (c, cs, q, r, ground (arith, q, r, h))
    ]
  ]

  -- A strict search that finds nothing has looked at every record.
  pub strict_none :
      (p : StoredConnection N → Bool) (entries : List (ℕ × Result AppError (StoredConnection N)))
      (conns : List (StoredConnection N)) (id : ℕ) (conn : StoredConnection N)
      → load_all_strict_in entries ≡ ok conns
      → find p conns ≡ none
      → load_in entries id ≡ ok (some conn)
      → p conn ≡ false
  unfolding load_all_strict_in load_in find
  strict_none p [] conns id conn h n l = cc
  strict_none p (entry ∷ rest) conns id conn h n l =
      let (c, cs, q, r, e) = strict_cons entry rest conns h in
      let n' : find p (c ∷ cs) ≡ none = ap (find p) (sym e) ∙ n in
      let key = from_disk_checked-ok entry.0 entry.1 c q in
      ground (arith, n', l, q, key, ==_iff entry.0 id, strict_none p rest cs id conn r)

  -- What a strict search finds is stored under its own id.
  pub strict_some :
      (p : StoredConnection N → Bool) (entries : List (ℕ × Result AppError (StoredConnection N)))
      (conns : List (StoredConnection N)) (conn : StoredConnection N)
      → IsDirectory entries
      → load_all_strict_in entries ≡ ok conns
      → find p conns ≡ some conn
      → (p conn ≡ true) × (load_in entries conn.id ≡ ok (some conn))
  unfolding load_all_strict_in load_in find
  strict_some p [] conns conn d h n = ground (arith, h, n)
  strict_some p (entry ∷ rest) conns conn d h n =
      let (c, cs, q, r, e) = strict_cons entry rest conns h in
      let n' : find p (c ∷ cs) ≡ some conn = ap (find p) (sym e) ∙ n in
      let key = from_disk_checked-ok entry.0 entry.1 c q in
      ground (
        arith,
        n',
        q,
        key,
        d,
        ==_iff entry.0 conn.id,
        absent_lem rest entry.0 d.0,
        strict_some p rest cs conn d.1 r,
      )

  any-without :
      (id : ℕ) (entries : List (ℕ × Result AppError (StoredConnection N))) (j : ℕ)
      → any (λ other. other.0 == j) entries ≡ false
      → any (λ other. other.0 == j) (without id entries) ≡ false
  unfolding any
  any-without id [] j h = refl
  any-without id (entry ∷ rest) j h = ground (arith, h, any-without id rest j)

  pub without-IsDirectory :
      (id : ℕ) (entries : List (ℕ × Result AppError (StoredConnection N)))
      → IsDirectory entries
      → IsDirectory (without id entries)
  unfolding any
  without-IsDirectory id [] h = tt
  without-IsDirectory id (entry ∷ rest) h = elim (Bool-cases (entry.0 == id)) [
    | inl e ↦ rw e (without-IsDirectory id rest h.1)
    | inr e ↦ rw e (any-without id rest entry.0 h.0, without-IsDirectory id rest h.1)
  ]
