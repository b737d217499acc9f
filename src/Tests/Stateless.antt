-- ===== src/Tests/Stateless.antt =====
-- A credential of two that the GSSAPI knows goes to a client and comes back: src/gp_export.c.
use gssproxy.Prelude.{
  ℕ, suc, ◌≡◌, refl, ap, List, [], ◌∷◌, ◌++◌, Bool, true, false, some, arith, replicate, length,
  ◌==◌,
}
use gssproxy.Creds.Service.{both}
use gssproxy.Export.Padding.{encrypt_buffer, choose_pad, find_pad, search, and_then, seal, sealed}
use gssproxy.Export.Names.{
  name_to_gssx, or_failure, conv_octet_string, oid_to_gssx, after_export, after_composite,
  cred_usage_to_gssx,
}
use gssproxy.Export.Handle.{
  wide, CredCalls, alloc_elements, export_elements, after_by_mech, export_element, seal_cred,
  export_gssx_cred, import_gssx_cred,
}
use gssproxy.Export.Stateless.{IsSafe, IsImport, import_gssx_cred-export_gssx_cred}
use gssproxy.Gss.Status.{Outcome, done, stop, ◌>>=◌, continue, return, name_not_mn, no_minor}
use gssproxy.Wire.Filter.{UInt}
use gssproxy.Wire.Types.{GssxCred, GssxName}
use gssproxy.Tests.Exports.{blocks, blocks-IsKrb5, fill, all_there}

abbrev pub ten_minutes : UInt 32
ten_minutes = (600, omega arith)

abbrev no_time : UInt 32
no_time = (0, omega arith)

abbrev token_of : Bool → List ℕ
token_of true = 1 ∷ 2 ∷ 3 ∷ []
token_of false = 4 ∷ 5 ∷ 6 ∷ []

abbrev first_is_one : List ℕ → Bool
first_is_one [] = false
first_is_one (n ∷ ns) = n == 1

abbrev import_token : List ℕ → ℕ → ℕ × Outcome Bool
import_token octets w = (suc w, done (first_is_one octets))

-- The world counts the calls; the second mechanism is one of which nothing is told.
abbrev pub calls : CredCalls ℕ (List ℕ) Bool
calls = record {
  names = record {
    display = λ name w. (w, done (name, some (7 ∷ [])));
    export = λ name w. (w, done (8 ∷ name));
    export_composite = λ name w. (w, stop name_not_mn no_minor);
  };
  inquire = λ cred w. (
    w,
    done (record { name = 104 ∷ []; lifetime = 600; usage = both; mechanisms = (42 ∷ []) ∷ [] }),
  );
  inquire_by_mech = λ cred mech w. (
    w,
    done (record {
      name = 104 ∷ [];
      initiator_lifetime = ten_minutes;
      acceptor_lifetime = no_time;
      cred_usage = both;
    }),
  );
  export_cred = λ cred w. (suc w, done (token_of cred));
  import_cred = import_token;
  set_allowable_enctypes = λ cred ktypes w. suc w;
  set_no_ci_flags = λ cred w. suc w;
}

pub calls-IsSafe :
    (cred : Bool) (w w₁ : ℕ) (token : List ℕ)
    → calls.export_cred cred w ≡ (w₁, done token)
    → IsSafe fill true token
calls-IsSafe cred w w₁ token h = record {
  long = omega (arith, size cred, ap length same);
  near = omega arith;
  plain = λ whole. absurd (omega (arith, size cred, ap length same, whole));
}
  where
    same : token_of cred ≡ token
    same = cc

    size : (cred : Bool) → length (token_of cred) ≡ 3
    size true = refl
    size false = refl

abbrev name : GssxName
name = record {
  display_name = 104 ∷ [];
  name_type = 7 ∷ [];
  exported_name = 8 ∷ 104 ∷ [];
  exported_composite_name = [];
  name_attributes = [];
  extensions = [];
}

abbrev pub handed : GssxCred
handed = record {
  desired_name = name;
  elements =
      record {
        mn = name;
        mech = 42 ∷ [];
        cred_usage = cred_usage_to_gssx both;
        initiator_time_rec = wide ten_minutes;
        acceptor_time_rec = wide no_time;
        options = [];
      }
      ∷ [];
  cred_handle_reference = token_of true ++ replicate 13 13;
  needs_release = false;
}

pub handed_over : export_gssx_cred calls all_there (some blocks) true 7 ≡ (8, done handed)
unfolding export_gssx_cred name_to_gssx conv_octet_string oid_to_gssx or_failure after_export
    after_composite alloc_elements export_elements after_by_mech export_element cred_usage_to_gssx
    seal_cred encrypt_buffer choose_pad find_pad search and_then seal sealed ◌>>=◌ continue return
handed_over = refl

-- The client has changed the name, and the world has gone on.
abbrev changed : GssxCred
changed = record handed { desired_name = record name { display_name = [] } }

import_gssx_cred-export_gssx_cred_example :
    (wa : ℕ) × (wb : ℕ) × (token : List ℕ) × (calls.export_cred true wa ≡ (wb, done token))
    × IsImport calls all_there token changed 20
        (import_gssx_cred calls all_there (some blocks) true changed 20)
import_gssx_cred-export_gssx_cred_example =
    import_gssx_cred-export_gssx_cred calls blocks-IsKrb5 all_there all_there true 7 8 20 handed
      changed handed_over refl (calls-IsSafe true) (λ n. refl)
