-- ===== src/Daemon/Dispatch/Auth.antt =====
-- The pieces that handlers are made of, and what they may do to the records.
use macos_wireguard_daemon.Prelude.{
  ◌≡◌, ◌⊎◌, refl, sym, ap, ◌∙◌, ℕ, Bool, true, Option, none, some, List, Text, arith, ℕ_eq, Bool_eq,
  List_eq, Option_eq, ok, is_ok, Result-cases, Option-cases, Bool-cases, inl, inr,
}
use macos_wireguard_daemon.Links.{BypassLink}
use macos_wireguard_daemon.Daemon.Store.{
  ConnectionStartMode, ConnectionStartMode_eq, StoredConnection, Store, Host, load, load_in, lock,
  save, remove, without,
}
use macos_wireguard_daemon.Daemon.Store.Records.{load_in-some}
use macos_wireguard_daemon.Daemon.Responses.{PeerOrigin, PrivilegedResponse, authorize_access}
use macos_wireguard_daemon.Daemon.Dispatch.{
  require_admin_auth, locked, loaded, authorized, admitted, updated,
}
use macos_wireguard_daemon.Daemon.Dispatch.Requests.{
  Entries, IsAdmin, IsEdit, IsElevation, IsEffect, kept, edited,
}

pub admin_lem :
    (N : Type 0) (host : Host) (form : Option (List ℕ)) (cause : Text)
    → is_ok (require_admin_auth {N = N} host form cause) ≡ true
    → IsAdmin host form
unfolding require_admin_auth
admin_lem N host none cause h = cc
admin_lem N host (some bytes) cause h = (bytes, refl, ground (arith, h))

pub lock_lem : {N : Type 0} (host : Host) (st : Store N) → (lock host st).1.entries ≡ st.entries
unfolding lock
lock_lem host st = ground arith

pub remove_lem :
    {N : Type 0} (host : Host) (id : ℕ) (st : Store N)
    → ((remove host id st).1.entries ≡ st.entries)
      ⊎ ((remove host id st).1.entries ≡ without id st.entries)
unfolding remove
remove_lem host id st = ground arith

-- A change of the settings alone.
pub settings-IsEdit :
    {N : Type 0} (c : StoredConnection N) (start_mode : ConnectionStartMode) (name : Option Text)
    (user_disconnected : Bool) (updated_at : ℕ) (source_path : Option Text) (dns : Bool)
    (links : List (BypassLink N))
    → IsEdit c (record c {
      start_mode = start_mode;
      name = name;
      user_disconnected = user_disconnected;
      updated_at = updated_at;
      source_path = source_path;
      dns_dynamic_store = dns;
      bypass_links = links;
    })
settings-IsEdit c start_mode name user_disconnected updated_at source_path dns links = record {
  id = refl;
  fingerprint = refl;
  global = refl;
  owner = refl;
  config = refl;
  raw_conf = refl;
  interface = refl;
}

-- The pieces that the handlers are made of, for what they may do to the records `es`.
module _ {N : Type 0} (IsParsed : StoredConnection N → Type 0) (host : Host) (origin : PeerOrigin)
    (form : Option (List ℕ)) (es : Entries N) where
  pub record HasEffect (r : PrivilegedResponse N × Store N) : Type 0 where
    pub effect : IsEffect IsParsed host origin form es r.1.entries

  pub locked_effect :
      (st : Store N) (k : Store N → PrivilegedResponse N × Store N)
      → st.entries ≡ es
      → ((st' : Store N) → st'.entries ≡ es → HasEffect (k st'))
      → HasEffect (locked host st k)
  unfolding locked
  locked_effect st k e h = elim (Result-cases (lock host st).0) [
    | inl (_, q) ↦ rw (q, locked) (h (lock host st).1 (lock_lem host st ∙ e))
    | inr (error, q) ↦ rw (q, locked) (record { effect = kept (lock_lem host st ∙ e) })
  ]

  pub loaded_effect :
      (st : Store N) (id : ℕ) (k : StoredConnection N → PrivilegedResponse N × Store N)
      → st.entries ≡ es
      → ((c : StoredConnection N) → c.id ≡ id → load_in es c.id ≡ ok (some c) → HasEffect (k c))
      → HasEffect (loaded st id k)
  unfolding loaded
  loaded_effect st id k e h = elim (Result-cases (load st id)) [
    | inr (error, q) ↦ rw (q, loaded) (record { effect = kept e })
    | inl (found, q) ↦ elim (Option-cases found) [
      | inl n ↦ rw (q, n, loaded) (record { effect = kept e })
      | inr (c, n) ↦
          let l : load_in st.entries id ≡ ok (some c) = q ∙ ap ok n in
          let own = load_in-some st.entries id c l in
          rw (q, n, loaded)
            (h c own.0 (
              ap (λ (es' : Entries N). load_in es' c.id) (sym e)
              ∙ ap (load_in st.entries) own.0
              ∙ l))
    ]
  ]

  pub authorized_effect :
      (st : Store N) (c : StoredConnection N) (rest : PrivilegedResponse N × Store N)
      → st.entries ≡ es
      → (authorize_access c origin ≡ none → HasEffect rest)
      → HasEffect (authorized st c origin rest)
  unfolding authorized
  authorized_effect st c rest e h = elim (Option-cases (authorize_access c origin)) [
    | inl q ↦ rw (q, authorized) (h q)
    | inr (denial, q) ↦ rw (q, authorized) (record { effect = kept e })
  ]

  pub admitted_effect :
      (st : Store N) (needed : Bool) (cause : Text) (rest : PrivilegedResponse N × Store N)
      → st.entries ≡ es
      → ((needed ≡ true → IsAdmin host form) → HasEffect rest)
      → HasEffect (admitted host st needed form cause rest)
  unfolding admitted
  admitted_effect st needed cause rest e h = elim (Bool-cases needed) [
    | inr n ↦ rw n (h (λ m. absurd (ground (arith, n, m))))
    | inl n ↦ elim (Result-cases (require_admin_auth {N = N} host form cause)) [
      | inr (response, q) ↦ rw (n, q) (record { effect = kept e })
      | inl (u, q) ↦ rw (n, q) (h (λ m. admin_lem N host form cause (ap is_ok q)))
    ]
  ]

  pub updated_effect :
      (st : Store N) (c d : StoredConnection N) (response : PrivilegedResponse N)
      → st.entries ≡ es
      → load_in es c.id ≡ ok (some c)
      → authorize_access c origin ≡ none
      → IsEdit c d
      → (IsElevation c d → IsAdmin host form)
      → HasEffect (updated host d response st)
  unfolding updated save
  updated_effect st c d response e l a edit up = elim (Option-cases (host.fault st.calls)) [
    | inl q ↦
        rw (q, save, updated) (record { effect = edited c d l a edit up (rw (e, edit.id) refl) })
    | inr (error, q) ↦ rw (q, save, updated) (record { effect = kept e })
  ]
