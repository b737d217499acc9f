-- ===== src/Creds/Admits.antt =====
-- Which service gp_creds_match_conn of src/gp_creds.c finds, against what a service's configuration
-- demands of a connection.
use Prim.Native.String.{String}
use text.Mathlib.TextEquality.{eq_iff}
use gssproxy.Prelude.{
  ◌≡◌, ◌≢◌, ◌⊎◌, inl, inr, refl, ap, List, [], ◌∷◌, ◌++◌, Option, none, some, Bool, true, false,
  not, arith, Bool-cases,
}
use gssproxy.Creds.Service.{SelinuxCtx, Service, Conn}
use gssproxy.Creds.Match.{
  same, same_range, same_parts, selinux_ctx_equal, check_selinux, wrong_program, wrong_socket,
  skips, match_conn,
}

-- Two contexts agree in user, role and type, and in the range where both have one.
pub record Agree (a b : SelinuxCtx) : Type 0 where
  pub users : a.user ≡ b.user
  pub roles : a.role ≡ b.role
  pub types : a.type ≡ b.type
  pub ranges : (a.range ≡ none) ⊎ (b.range ≡ none) ⊎ (a.range ≡ b.range)

-- What a service demands: its user unless any will do, its context if it names one, of a client that
-- has one, its program if it names one, and its socket, which is that of the configuration if it
-- names none.
pub record Admits (socket_name : Option String) (conn : Conn) (svc : Service) : Type 0 where
  pub user : (svc.any_uid ≡ true) ⊎ (svc.euid ≡ conn.uid)
  pub context :
      (svc.selinux_ctx ≡ none)
      ⊎ ((a : SelinuxCtx) × (b : SelinuxCtx) × (svc.selinux_ctx ≡ some a)
          × (conn.selinux_ctx ≡ some b)
          × (conn.cred_selinux ≡ true)
          × Agree a b)
  pub program : (svc.program ≡ none) ⊎ (svc.program ≡ conn.program)
  pub socket :
      ((svc.socket ≡ none) × (conn.socket ≡ socket_name))
      ⊎ ((svc.socket ≢ none) × (conn.socket ≡ svc.socket))

same_iff : (a b : Option String) → (same a b ≡ true → a ≡ b) × (a ≡ b → same a b ≡ true)
unfolding same
same_iff none none = ((λ h. refl), (λ h. refl))
same_iff none (some b) = ((λ h. cc), (λ h. cc))
same_iff (some a) none = ((λ h. cc), (λ h. cc))
same_iff (some a) (some b) =
    ((λ h. let e = (eq_iff a b).0 h in cc), (λ h. let e : a ≡ b = cc in (eq_iff a b).1 e))

range_iff :
    (a b : Option String)
    → (same_range a b ≡ true → (a ≡ none) ⊎ (b ≡ none) ⊎ (a ≡ b))
      × ((a ≡ none) ⊎ (b ≡ none) ⊎ (a ≡ b) → same_range a b ≡ true)
unfolding same_range
range_iff (some a) (some b) =
    ((λ h. let e = (eq_iff a b).0 h in ground arith), (λ h. ground (arith, eq_iff a b)))
range_iff none b = ((λ h. inl refl), (λ h. refl))
range_iff (some a) none = ((λ h. inr (inl refl)), (λ h. refl))

Agree-iff :
    (a b : SelinuxCtx) → (same_parts a b ≡ true → Agree a b) × (Agree a b → same_parts a b ≡ true)
unfolding same_parts
Agree-iff a b = (
  (λ h. record {
    users = ground (arith, eq_iff a.user b.user);
    roles = ground (arith, eq_iff a.role b.role);
    types = ground (arith, eq_iff a.type b.type);
    ranges = (range_iff a.range b.range).0 (ground arith);
  }),
  (λ g.
      let r = (range_iff a.range b.range).1 g.ranges in
      ground (arith, eq_iff a.user b.user, eq_iff a.role b.role, eq_iff a.type b.type)),
)

abbrev Context : Bool → Option SelinuxCtx → Option SelinuxCtx → Type 0
Context cred_selinux conn_ctx svc_ctx =
    (svc_ctx ≡ none)
    ⊎ ((a : SelinuxCtx) × (b : SelinuxCtx) × (svc_ctx ≡ some a)
        × (conn_ctx ≡ some b)
        × (cred_selinux ≡ true)
        × Agree a b)

check_selinux_iff :
    (c : Bool) (conn_ctx svc_ctx : Option SelinuxCtx)
    → (check_selinux c conn_ctx svc_ctx ≡ true → Context c conn_ctx svc_ctx)
      × (Context c conn_ctx svc_ctx → check_selinux c conn_ctx svc_ctx ≡ true)
unfolding check_selinux selinux_ctx_equal
check_selinux_iff c conn_ctx none = ((λ h. inl refl), (λ h. refl))
check_selinux_iff c none (some a) = ((λ h. cc), (λ h. ground arith))
check_selinux_iff false (some b) (some a) = ((λ h. cc), (λ h. ground arith))
check_selinux_iff true (some b) (some a) =
    ((λ h. inr (a, b, refl, refl, refl, (Agree-iff a b).0 h)), go)
  where
    go : Context true (some b) (some a) → same_parts a b ≡ true
    go (inl e) = cc
    go (inr (a', b', e, f, g, agree)) =
        let ea : a ≡ a' = cc in let eb : b ≡ b' = cc in rw (ea, eb) ((Agree-iff a' b').1 agree)

abbrev Program : Option String → Option String → Type 0
Program svc conn = (svc ≡ none) ⊎ (svc ≡ conn)

wrong_program_iff :
    (svc conn : Option String)
    → (wrong_program svc conn ≡ false → Program svc conn)
      × (Program svc conn → wrong_program svc conn ≡ false)
unfolding wrong_program
wrong_program_iff none conn = ((λ h. inl refl), (λ h. refl))
wrong_program_iff (some w) conn = (
  (λ h. let e = (same_iff conn (some w)).0 (ground arith) in inr (cc)),
  (λ h. let e = (same_iff conn (some w)).1 (ground arith) in rw e),
)

abbrev Socket : Option String → Option String → Option String → Type 0
Socket svc conn default = ((svc ≡ none) × (conn ≡ default)) ⊎ ((svc ≢ none) × (conn ≡ svc))

wrong_socket_iff :
    (svc conn default : Option String)
    → (wrong_socket svc conn default ≡ false → Socket svc conn default)
      × (Socket svc conn default → wrong_socket svc conn default ≡ false)
unfolding wrong_socket
wrong_socket_iff none conn default =
    ((λ h. let e = (same_iff conn default).0 (ground arith) in inl (refl, e)), go)
  where
    go : Socket none conn default → not (same conn default) ≡ false
    go (inl (e, f)) = rw ((same_iff conn default).1 f)
    go (inr (e, f)) = absurd (e refl)
wrong_socket_iff (some w) conn default =
    ((λ h. let e = (same_iff conn (some w)).0 (ground arith) in inr ((λ d. cc), e)), go)
  where
    go : Socket (some w) conn default → not (same conn (some w)) ≡ false
    go (inl (e, f)) = cc
    go (inr (e, f)) = rw ((same_iff conn (some w)).1 f)

module _ (socket_name : Option String) (conn : Conn) where
  -- The test of the loop is the demand of the service.
  skips_iff :
      (svc : Service)
      → (skips socket_name conn svc ≡ false → Admits socket_name conn svc)
        × (Admits socket_name conn svc → skips socket_name conn svc ≡ false)
  unfolding skips
  skips_iff svc = (
    (λ h. record {
      user = ground arith;
      context =
          (check_selinux_iff conn.cred_selinux conn.selinux_ctx svc.selinux_ctx).0 (ground arith);
      program = (wrong_program_iff svc.program conn.program).0 (ground arith);
      socket = (wrong_socket_iff svc.socket conn.socket socket_name).0 (ground arith);
    }),
    (λ a.
        let u = a.user in
        let c =
          (check_selinux_iff conn.cred_selinux conn.selinux_ctx svc.selinux_ctx).1 a.context in
        let p = (wrong_program_iff svc.program conn.program).1 a.program in
        let s = (wrong_socket_iff svc.socket conn.socket socket_name).1 a.socket in
        rw (c, p, s) (ground arith)),
  )

  abbrev pub Refuses : List Service → Type 0
  Refuses [] = Unit
  Refuses (svc ∷ svcs) = ¬ Admits socket_name conn svc × Refuses svcs

  -- The first service that admits the connection, or none if no service does.
  abbrev pub Finds : List Service → Option Service → Type 0
  Finds svcs none = Refuses svcs
  Finds svcs (some svc) =
      (before : List Service) × (after : List Service) × (svcs ≡ before ++ svc ∷ after)
      × Refuses before
      × Admits socket_name conn svc

  Finds-cons :
      (svc : Service) (svcs : List Service) (o : Option Service)
      → ¬ Admits socket_name conn svc
      → Finds svcs o
      → Finds (svc ∷ svcs) o
  Finds-cons svc svcs none no_match f = (no_match, f)
  Finds-cons svc svcs (some found) no_match (before, after, split, refuses, admits) =
      (svc ∷ before, after, ap (λ l. svc ∷ l) split, (no_match, refuses), admits)

  -- gp_creds_match_conn returns the first service, in the order of the configuration, that admits the
  -- connection by its user, SELinux context, program and socket; it returns NULL if and only if no
  -- service admits it.
  pub match_conn-Finds : (svcs : List Service) → Finds svcs (match_conn socket_name conn svcs)
  unfolding match_conn
  match_conn-Finds [] = tt
  match_conn-Finds (svc ∷ svcs) = elim (Bool-cases (skips socket_name conn svc)) [
    | inl skipped ↦
        rw skipped
          (Finds-cons svc svcs _ (λ a. let e = (skips_iff svc).1 a in cc) (match_conn-Finds svcs))
    | inr taken ↦ rw taken ([], svcs, refl, tt, (skips_iff svc).0 taken)
  ]
