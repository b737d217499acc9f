-- ===== src/Export/Kernel.antt =====
-- A context for the kernel: gp_format_linux_lucid_v1 of src/gp_export.c and its call in
-- gp_export_ctx_id_to_gssx.
use gssproxy.Prelude.{
  ℕ, ◌+◌, ◌/◌, ◌%◌, ◌^◌, ◌<◌, ◌≡◌, ◌≢◌, refl, ap, sym, ◌∙◌, subst, List, [], ◌++◌, append_assoc,
  Bool, true, false, ◌&&◌, ◌||◌, not, ◌==◌, if◌then◌else◌, Bool-cases, inl, inr, Option, some,
  ◌>>=◌, ok, length, arith,
}
use gssproxy.Export.Lucid.{
  LucidKey, Lucid, Machine, has_subkey, lucid_flags, lucid_key, format_linux_lucid_v1,
}
use gssproxy.Export.Names.{or_failure}
use gssproxy.Export.Stateless.{or_failure-eq-done}
use gssproxy.Export.Context.{
  exp_ctx_linux_lucid_v1, CtxCalls, export_as, export_ctx_id_to_gssx, after_inquire,
}
use gssproxy.Gss.Status.{done}
use gssproxy.Gss.Inversion.{>>=-eq-done, return-eq-done}
use gssproxy.Wire.Types.{GssxCtx}

-- The numbers that are read from the bytes of memory, with the bytes behind them.
pub record Reader : Type 0 where
  pub read_word : List ℕ → Option (ℕ × List ℕ)
  pub read_long : List ℕ → Option (ℕ × List ℕ)

-- The bytes of a number stand for it.
pub record IsMachine (machine : Machine) (reader : Reader) : Type 0 where
  pub read-word :
      (n : ℕ) (rest : List ℕ)
      → n < 2 ^ 32
      → reader.read_word (machine.word n ++ rest) ≡ some (n, rest)
  pub read-long :
      (n : ℕ) (rest : List ℕ)
      → n < 2 ^ 64
      → reader.read_long (machine.long n ++ rest) ≡ some (n, rest)

-- What a krb5_rfc4121_buffer says: its three flags, its numbers and the key.
pub record KernelContext : Type 0 where
  pub initiator : Bool
  pub cfx : Bool
  pub acceptor_subkey : Bool
  pub endtime : ℕ
  pub seq_send : ℕ
  pub enctype : ℕ
  pub raw_key : List ℕ

-- The bit of the place 2 ^ i, given 2 ^ i.
bit : ℕ → ℕ → Bool
bit place n = n / place % 2 == 1

-- The format that the comment above gp_format_linux_lucid_v1 gives, read from the front.
unfoldable pub read_krb5_buffer : Reader → List ℕ → Option KernelContext
unfolding bit
read_krb5_buffer reader octets = do
  (flags, octets) ← reader.read_word octets
  (endtime, octets) ← reader.read_word octets
  (seq_send, octets) ← reader.read_long octets
  (enctype, octets) ← reader.read_word octets
  some (record {
    initiator = bit 1 flags;
    cfx = bit 2 flags;
    acceptor_subkey = bit 4 flags;
    endtime = endtime;
    seq_send = seq_send;
    enctype = enctype;
    raw_key = octets;
  })

-- The key of a context, whether it is one of RFC 4121, and whether the key is the acceptor's subkey.
pub data InForce (lucid : Lucid) : LucidKey → Bool → Bool → Type 0 where
  rfc1964 : lucid.protocol ≡ 0 → InForce lucid lucid.rfc1964_key false false
  rfc4121_subkey :
      lucid.protocol ≡ 1
      → lucid.have_acceptor_subkey ≡ 1
      → InForce lucid lucid.acceptor_subkey true true
  rfc4121 :
      lucid.protocol ≡ 1 → lucid.have_acceptor_subkey ≢ 1 → InForce lucid lucid.ctx_key true false

-- The context that is read is the lucid context.
pub record IsLucid (lucid : Lucid) (context : KernelContext) : Type 0 where
  pub initiator : context.initiator ≡ lucid.initiate
  pub endtime : context.endtime ≡ lucid.endtime
  pub seq_send : context.seq_send ≡ lucid.send_seq
  pub key :
      InForce lucid
        (record { type = context.enctype; octets = context.raw_key })
        context.cfx
        context.acceptor_subkey

-- The numbers of a lucid context have the bits of their types.
pub record IsSized (lucid : Lucid) : Type 0 where
  pub endtime : lucid.endtime < 2 ^ 32
  pub send_seq : lucid.send_seq < 2 ^ 64
  pub rfc1964_type : lucid.rfc1964_key.type < 2 ^ 32
  pub ctx_type : lucid.ctx_key.type < 2 ^ 32
  pub subkey_type : lucid.acceptor_subkey.type < 2 ^ 32

flags_of : Bool → Bool → Bool → ℕ
flags_of a b c = (if a then 1 else 0) + (if b then 2 else 0) + (if c then 4 else 0)

flags_of-lt : (a b c : Bool) → flags_of a b c < 2 ^ 32
unfolding flags_of
flags_of-lt true b c = ground arith
flags_of-lt false b c = ground arith

bit-flags_of :
    (a b c : Bool)
    → (bit 1 (flags_of a b c) ≡ a) × (bit 2 (flags_of a b c) ≡ b) × (bit 4 (flags_of a b c) ≡ c)
unfolding bit flags_of
bit-flags_of true true true = (refl, refl, refl)
bit-flags_of true true false = (refl, refl, refl)
bit-flags_of true false true = (refl, refl, refl)
bit-flags_of true false false = (refl, refl, refl)
bit-flags_of false true true = (refl, refl, refl)
bit-flags_of false true false = (refl, refl, refl)
bit-flags_of false false true = (refl, refl, refl)
bit-flags_of false false false = (refl, refl, refl)

-- The flags as gp_format_linux_lucid_v1 sets them.
lucid_flags-flags_of :
    (lucid : Lucid)
    → lucid_flags lucid ≡ flags_of lucid.initiate (lucid.protocol == 1) (has_subkey lucid)
unfolding lucid_flags flags_of
lucid_flags-flags_of lucid = refl

lucid_key-InForce :
    (lucid : Lucid)
    → not (lucid.protocol == 0) && not (lucid.protocol == 1) ≡ false
    → InForce lucid (lucid_key lucid) (lucid.protocol == 1) (has_subkey lucid)
unfolding lucid_key has_subkey
lucid_key-InForce lucid known = elim (Bool-cases (lucid.protocol == 0)) [
  | inl old ↦
      let zero : lucid.protocol ≡ 0 = ground (arith, old) in
      let other : (lucid.protocol == 1) ≡ false = rw zero refl in rw (old, other) (rfc1964 zero)
  | inr new ↦ elim (Bool-cases (lucid.protocol == 1)) [
    | inl one ↦
        let same : lucid.protocol ≡ 1 = ground (arith, one) in
        elim (Bool-cases (lucid.have_acceptor_subkey == 1)) [
          | inl subkey ↦ rw (new, one, subkey) (rfc4121_subkey same (ground (arith, subkey)))
          | inr none_such ↦
              rw (new, one, none_such) (rfc4121 same λ e. ground (arith, e, none_such))
        ]
    | inr neither ↦ absurd (ground (arith, new, neither, known))
  ]
]

lucid_key-lt : (lucid : Lucid) → IsSized lucid → (lucid_key lucid).type < 2 ^ 32
unfolding lucid_key
lucid_key-lt lucid sized = elim (Bool-cases (lucid.protocol == 0)) [
  | inl old ↦ rw old sized.rfc1964_type
  | inr new ↦ elim (Bool-cases (lucid.have_acceptor_subkey == 1)) [
    | inl subkey ↦ rw (new, subkey) sized.subkey_type
    | inr none_such ↦ rw (new, none_such) sized.ctx_type
  ]
]

-- The bytes, each number in front of what follows it.
word_first :
    (flags endtime seq_send enctype key : List ℕ)
    → flags ++ endtime ++ seq_send ++ enctype ++ key
      ≡ flags ++ (endtime ++ (seq_send ++ (enctype ++ key)))
word_first flags endtime seq_send enctype key = simp append_assoc

module _ {machine : Machine} {reader : Reader} (memory : IsMachine machine reader)
    (malloc : ℕ → Bool) where
  format-ok :
      (lucid : Lucid) (token : List ℕ)
      → format_linux_lucid_v1 machine malloc lucid ≡ ok token
      → (not (lucid.protocol == 0) && not (lucid.protocol == 1) ≡ false)
        × (machine.word (lucid_flags lucid)
              ++ machine.word lucid.endtime
              ++ machine.long lucid.send_seq
              ++ machine.word (lucid_key lucid).type
              ++ (lucid_key lucid).octets
            ≡ token)
  unfolding format_linux_lucid_v1
  format-ok lucid token h =
      elim (Bool-cases
        (not (lucid.version == 1) || (not (lucid.protocol == 0) && not (lucid.protocol == 1)))) [
          | inl bad ↦ let h' = rw bad at h in cc
          | inr good ↦ elim (Bool-cases (malloc (20 + length (lucid_key lucid).octets))) [
            | inl room ↦ let h' = rw (good, room) at h in (or-right _ _ good, cc)
            | inr full ↦ let h' = rw (good, full) at h in cc
          ]
        ]
    where
      or-right : (a b : Bool) → a || b ≡ false → b ≡ false
      or-right true b e = cc
      or-right false b e = e

  read_krb5_buffer-format :
      (lucid : Lucid) (token : List ℕ)
      → format_linux_lucid_v1 machine malloc lucid ≡ ok token
      → IsSized lucid
      → (context : KernelContext) × (read_krb5_buffer reader token ≡ some context)
        × IsLucid lucid context
  unfolding read_krb5_buffer
  read_krb5_buffer-format lucid token h sized =
      let (known, made) = format-ok lucid token h in
      let small : lucid_flags lucid < 2 ^ 32 =
        subst (λ f. f < 2 ^ 32) (sym (lucid_flags-flags_of lucid)) (flags_of-lt _ _ _) in
      let (first, second, third) =
        bit-flags_of lucid.initiate (lucid.protocol == 1) (has_subkey lucid) in
      let place = lucid_flags-flags_of lucid in
      (
        record {
          initiator = lucid.initiate;
          cfx = lucid.protocol == 1;
          acceptor_subkey = has_subkey lucid;
          endtime = lucid.endtime;
          seq_send = lucid.send_seq;
          enctype = (lucid_key lucid).type;
          raw_key = (lucid_key lucid).octets;
        },
        rw
            (
              sym made,
              word_first (machine.word (lucid_flags lucid)) (machine.word lucid.endtime)
                  (machine.long lucid.send_seq) (machine.word (lucid_key lucid).type)
                  (lucid_key lucid).octets,
              memory.read-word (lucid_flags lucid)
                  (machine.word lucid.endtime
                    ++ (machine.long lucid.send_seq
                        ++ (machine.word (lucid_key lucid).type ++ (lucid_key lucid).octets)))
                  small,
              memory.read-word lucid.endtime
                  (machine.long lucid.send_seq
                    ++ (machine.word (lucid_key lucid).type ++ (lucid_key lucid).octets))
                  sized.endtime,
              memory.read-long lucid.send_seq
                  (machine.word (lucid_key lucid).type ++ (lucid_key lucid).octets) sized.send_seq,
              memory.read-word (lucid_key lucid).type (lucid_key lucid).octets
                  (lucid_key-lt lucid sized),
              place,
              first,
              second,
              third,
            )
            refl,
        record {
          initiator = refl;
          endtime = refl;
          seq_send = refl;
          key = lucid_key-InForce lucid known;
        },
      )

  export_as-lucid :
      {W Name Ctx : Type 0} (calls : CtxCalls W Name Ctx) (mech : Option (List ℕ)) (ctx : Ctx)
      (out₀ out : GssxCtx) (w w₁ : W)
      → export_as calls machine malloc exp_ctx_linux_lucid_v1 mech ctx out₀ w ≡ (w₁, done out)
      → (wa : W) × (lucid : Lucid) × (calls.export_lucid ctx w ≡ (wa, done lucid))
        × (format_linux_lucid_v1 machine malloc lucid ≡ ok out.exported_context_token)
        × (out.src_name.exported_composite_name ≡ [])
        × (out.targ_name.exported_composite_name ≡ [])
  unfolding export_as
  export_as-lucid calls mech ctx out₀ out w w₁ h =
      let (wa, lucid, a, ha) = >>=-eq-done (calls.export_lucid ctx) _ h in
      let (wb, token, b, hb) =
        >>=-eq-done (or_failure (format_linux_lucid_v1 machine malloc lucid)) _ ha in
      let formats = or_failure-eq-done (format_linux_lucid_v1 machine malloc lucid) wa wb b in
      let same = (return-eq-done _ hb).1 in
      (
        wa,
        lucid,
        a,
        formats ∙ ap (λ o. ok o.exported_context_token) same,
        ap (λ o. o.src_name.exported_composite_name) (sym same),
        ap (λ o. o.targ_name.exported_composite_name) (sym same),
      )

  -- When gp_export_ctx_id_to_gssx exports a context for the kernel, the token is a krb5_rfc4121_buffer
  -- from which the lucid context that the GSSAPI gave is read: whether it is the initiator's, the end,
  -- the sequence number, and the key in force, which is that of RFC 1964 or of RFC 4121, and there the
  -- acceptor's subkey when it has one, with the flags that say which. The names have no composite form.
  -- The numbers that the GSSAPI gives have the bits of their types, and the bytes of a number in memory
  -- stand for it.
  pub export_ctx_id_to_gssx-IsLucid :
      {W Name Ctx : Type 0} (calls : CtxCalls W Name Ctx) (mech : Option (List ℕ)) (ctx : Ctx)
      (w w₁ : W) (out : GssxCtx)
      → export_ctx_id_to_gssx calls machine malloc exp_ctx_linux_lucid_v1 mech ctx w
        ≡ (w₁, done out)
      → ((wa wb : W) (lucid : Lucid) → calls.export_lucid ctx wa ≡ (wb, done lucid) → IsSized lucid)
      → (wa : W) × (wb : W) × (lucid : Lucid) × (context : KernelContext) × (calls.export_lucid ctx
            wa
          ≡ (wb, done lucid))
        × (read_krb5_buffer reader out.exported_context_token ≡ some context)
        × IsLucid lucid context
        × (out.src_name.exported_composite_name ≡ [])
        × (out.targ_name.exported_composite_name ≡ [])
  unfolding export_ctx_id_to_gssx
  export_ctx_id_to_gssx-IsLucid calls mech ctx w w₁ out h sized =
      let (wa, out₀, a, ha) =
        >>=-eq-done
          (λ w. after_inquire calls machine malloc exp_ctx_linux_lucid_v1 (calls.inquire ctx w)) _
          h in
      let (wb, lucid, given, formats, src, targ) =
        export_as-lucid calls mech ctx out₀ out wa w₁ ha in
      let (context, reads, same) =
        read_krb5_buffer-format lucid out.exported_context_token formats
          (sized wa wb lucid given) in
      (wa, wb, lucid, context, given, reads, same, src, targ)
