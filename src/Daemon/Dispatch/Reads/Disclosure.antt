-- ===== src/Daemon/Dispatch/Reads/Disclosure.antt =====
-- What the requests that show connections disclose.
use macos_wireguard_daemon.Prelude.{
  ◌≡◌, ◌⊎◌, refl, sym, ap, ◌∙◌, Within, first, later, Result, ok, ℕ, Bool, true, false, not, ◌&&◌,
  none, some, List, [], ◌∷◌, map, Text, All, arith, Eq, ◌==◌, ==_iff, ℕ_eq, Bool_eq, List_eq,
  Option_eq, retain, Result-cases, Option-cases, Bool-cases, inl, inr,
}
use macos_wireguard_daemon.Links.Net.{IpNetOps}
use macos_wireguard_daemon.Links.Spec.{NetText}
use macos_wireguard_daemon.Daemon.Errors.{AppError}
use macos_wireguard_daemon.Daemon.Store.Records.{load_in-some, load_in-listed}
use macos_wireguard_daemon.Daemon.Store.{StoredConnection, Store, load, load_all_in}
use macos_wireguard_daemon.Daemon.Responses.{PeerOrigin, uid, is_root, authorize_access}
use macos_wireguard_daemon.Daemon.Dispatch.Reads.{
  ConnectionScope, mine, global_only, all_connections, ConnectionSummary, ReadResponse, refused,
  connection, connection_list, ReadRequest, list_connections, get_connection, summarize,
  connected_now, in_scope, is_all, handle_list_connections, handle_get_connection, dispatch_read,
}

module _ {N : Type 0} where
  -- The summaries of an answer.
  abbrev pub summaries_of : ReadResponse N → List (ConnectionSummary N)
  summaries_of (refused _) = []
  summaries_of (connection summary) = summary ∷ []
  summaries_of (connection_list summaries) = summaries

  owned_lem :
      (origin : PeerOrigin) (c : StoredConnection N)
      → c.global ≡ false
      → (some (uid origin) == c.owner_uid) ≡ true
      → authorize_access c origin ≡ none
  unfolding authorize_access
  owned_lem origin c g o = ground (arith, g, o)

  visible_lem :
      (origin : PeerOrigin) (scope : ConnectionScope) (c : StoredConnection N)
      → (is_all scope && not (is_root origin)) ≡ false
      → in_scope origin scope c ≡ true
      → (authorize_access c origin ≡ none) ⊎ (c.global ≡ true)
  unfolding authorize_access
  visible_lem origin mine c r s = elim (Bool-cases c.global) [
    | inl g ↦ inr g
    | inr g ↦ inl (
        owned_lem origin c g (
          (==_iff (some (uid origin)) c.owner_uid).1
            (sym ((==_iff c.owner_uid (some (uid origin))).0 s))))
  ]
  visible_lem origin global_only c r s = inr s
  visible_lem origin all_connections c r s = inl (ground (arith, r))

  module _ ⦃e : Eq N⦄ (net : IpNetOps N) (texts : NetText N) (encode_base64 : List ℕ → Text)
      (origin : PeerOrigin) where
    -- A summary of a record of the store, and what of the record the peer sees in it: it is a global
    -- record or one that the peer may use, and of a record that it may not use the fingerprint and the
    -- path are left out.
    pub record IsDisclosed (entries : List (ℕ × Result AppError (StoredConnection N)))
        (summary : ConnectionSummary N) : Type 0 where
      pub stored : StoredConnection N
      pub listed : Within stored (load_all_in entries)
      pub connected : Bool
      pub detailed : Bool
      pub summarized : summary ≡ summarize net texts encode_base64 stored connected detailed
      pub visible : (authorize_access stored origin ≡ none) ⊎ (stored.global ≡ true)
      pub hidden :
          ((summary.fingerprint ≡ none) × (summary.source_path ≡ none))
          ⊎ ((authorize_access stored origin ≡ none)
              × (summary.fingerprint ≡ some stored.fingerprint)
              × (summary.source_path ≡ stored.source_path))

    -- A summary of a listing, which has neither a fingerprint nor a path, whoever asks.
    pub record IsListing (entries : List (ℕ × Result AppError (StoredConnection N)))
        (summary : ConnectionSummary N) : Type 0 where
      pub disclosed : IsDisclosed entries summary
      pub no_fingerprint : summary.fingerprint ≡ none
      pub no_source_path : summary.source_path ≡ none

    listing :
        (scope : ConnectionScope) (st : Store N) (c : StoredConnection N)
        → (is_all scope && not (is_root origin)) ≡ false
        → Within c (load_all_in st.entries)
        → in_scope origin scope c ≡ true
        → IsListing st.entries (summarize net texts encode_base64 c (connected_now st c.id) false)
    unfolding summarize
    listing scope st c r m s = record {
      disclosed = record {
        stored = c;
        listed = m;
        connected = connected_now st c.id;
        detailed = false;
        summarized = refl;
        visible = visible_lem origin scope c r s;
        hidden = inl (refl, refl);
      };
      no_fingerprint = refl;
      no_source_path = refl;
    }

    list_lem :
        (scope : ConnectionScope) (st : Store N) (conns : List (StoredConnection N))
        → (is_all scope && not (is_root origin)) ≡ false
        → ((c : StoredConnection N) → Within c conns → Within c (load_all_in st.entries))
        → All (IsListing st.entries) (
            map
              (λ conn. summarize net texts encode_base64 conn (connected_now st conn.id) false)
              (retain (in_scope origin scope) conns))
    unfolding retain
    list_lem scope st [] r m = tt
    list_lem scope st (c ∷ rest) r m = elim (Bool-cases (in_scope origin scope c)) [
      | inr s ↦ rw s (list_lem scope st rest r (λ d k. m d (later k)))
      | inl s ↦
          rw s (listing scope st c r (m c first) s, list_lem scope st rest r (λ d k. m d (later k)))
    ]

    -- What an answer may show: a list has listings, and an answer to a request for one connection has
    -- that one.
    abbrev pub IsAnswer : ReadRequest → Store N → Type 0
    IsAnswer (list_connections scope) st =
        All (IsListing st.entries)
          (summaries_of (dispatch_read net texts encode_base64 origin (list_connections scope) st))
    IsAnswer (get_connection id) st =
        All (λ summary. IsDisclosed st.entries summary × (summary.id ≡ id))
          (summaries_of (dispatch_read net texts encode_base64 origin (get_connection id) st))

    -- A request shows a peer only records of the store that are global or that it may use. A list has
    -- no fingerprint and no path in it, and an answer to a request for one connection is about that
    -- one, with its fingerprint and path only where the peer may use it.
    pub dispatch_read-IsDisclosed : (request : ReadRequest) (st : Store N) → IsAnswer request st
    unfolding dispatch_read handle_list_connections handle_get_connection summarize
    dispatch_read-IsDisclosed (list_connections scope) st =
        elim (Bool-cases (is_all scope && not (is_root origin))) [
          | inl r ↦ rw (r, handle_list_connections) tt
          | inr r ↦
              rw (r, handle_list_connections)
                (list_lem scope st (load_all_in st.entries) r (λ c m. m))
        ]
    dispatch_read-IsDisclosed (get_connection id) st = elim (Result-cases (load st id)) [
      | inr (error, q) ↦ rw (q, handle_get_connection) tt
      | inl (found, q) ↦ elim (Option-cases found) [
        | inl n ↦ rw (q, n, handle_get_connection) tt
        | inr (c, n) ↦ elim (Option-cases (authorize_access c origin)) [
          | inr (denial, a) ↦ rw (q, n, a, handle_get_connection) tt
          | inl a ↦
              rw (q, n, a, handle_get_connection)
                (
                  (
                    record {
                      stored = c;
                      listed = load_in-listed st.entries id c (q ∙ ap ok n);
                      connected = connected_now st id;
                      detailed = true;
                      summarized = refl;
                      visible = inl a;
                      hidden = inr (a, refl, refl);
                    },
                    (load_in-some st.entries id c (q ∙ ap ok n)).0,
                  ),
                  tt,
                )
        ]
      ]
    ]
