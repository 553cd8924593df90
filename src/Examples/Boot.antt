-- ===== src/Examples/Boot.antt =====
-- A boot with a global connection that starts automatically.
use macos_wireguard_daemon.Prelude.{
  ◌≡◌, refl, find, ℕ_discrete, List_dec, arith, Within, within-All, ap, ◌∙◌, ℕ, false, true, none,
  some, List, [], ◌∷◌, text, All, ok, Result,
}
use macos_wireguard_daemon.Net.{Subnet}
use macos_wireguard_daemon.Daemon.Errors.{AppError}
use macos_wireguard_daemon.Daemon.Store.{
  StoredConnection, Store, automatic, load_in, load_all_in, interface_name, lock,
}
use macos_wireguard_daemon.Daemon.Boot.{reconcile_boot}
use macos_wireguard_daemon.Daemon.Boot.Candidates.{IsListed, IsWanted, reconcile_boot-connects}
use macos_wireguard_daemon.Examples.Directory.{home, host, tunnel}

abbrev shared : StoredConnection Subnet
shared = record home { global = true; owner_uid = none; start_mode = automatic }

-- A user's own connection, which also starts automatically.
abbrev own : StoredConnection Subnet
own = record home { id = 6; start_mode = automatic }

abbrev es : List (ℕ × Result AppError (StoredConnection Subnet))
es = (5, ok shared) ∷ (6, ok own) ∷ []

abbrev booted : Store Subnet
booted = record { entries = es; active = []; calls = 0 }

-- What is up is a global connection that was not disconnected by the user.
abbrev UpIsShared : Store Subnet → Type 0
UpIsShared st =
    (st.entries ≡ es)
    × All
        (λ entry.
          (c : StoredConnection Subnet)
          → load_in es entry.0 ≡ ok (some c)
          → (c.user_disconnected ≡ false) × (c.global ≡ true))
        st.active

locks : (st : Store Subnet) → UpIsShared st → UpIsShared (lock host st).1
unfolding lock
locks st h = h

-- A record that is listed as global is global when it loads.
abbrev LoadsGlobal : StoredConnection Subnet → Type 0
LoadsGlobal d =
    d.global ≡ true
    → (c : StoredConnection Subnet) → load_in es d.id ≡ ok (some c)
    → c.global ≡ true

globals_lem : All LoadsGlobal (load_all_in es)
unfolding load_all_in load_in find interface_name ℕ_discrete List_dec
globals_lem = (λ g c l. ground (arith, l), (λ g c l. absurd (ground (arith, g)), tt))

listed_global :
    (listing : Store Subnet) (id : ℕ) (c : StoredConnection Subnet)
    → listing.entries ≡ es
    → IsListed listing id
    → load_in es id ≡ ok (some c)
    → c.global ≡ true
listed_global listing id c e s l =
    within_All_in (ap load_all_in e) s.within s.global (ap (load_in es) s.same ∙ l)
  where
    within_All_in :
        {ds : List (StoredConnection Subnet)} {d : StoredConnection Subnet}
        → ds ≡ load_all_in es
        → Within d ds
        → d.global ≡ true
        → load_in es d.id ≡ ok (some c)
        → c.global ≡ true
    within_All_in {d = d} q m g k = within-All LoadsGlobal (rw q at m) globals_lem g c k

connects :
    (listing : Store Subnet) (id : ℕ) (st : Store Subnet)
    → UpIsShared listing
    → IsListed listing id
    → IsWanted st id
    → UpIsShared st
    → UpIsShared (tunnel.connect id false st).1
connects listing id st g s w h = (
  h.0,
  (
    (λ c l. (w c (ap (λ entries. load_in entries id) h.0 ∙ l), listed_global listing id c g.0 s l)),
    h.1,
  ),
)

reconcile_boot-connects_example :
    UpIsShared (reconcile_boot host tunnel (some (text "1700000000.5")) (none, booted)).1
reconcile_boot-connects_example =
    reconcile_boot-connects host tunnel UpIsShared locks connects (some (text "1700000000.5")) none
      booted (refl, tt)
