-- ===== src/Mfa/Codes.antt =====
-- Recovery codes are used once: Verify of internal/mfa/service/service.go and ConsumeRecoveryCode
-- of internal/store/authrepo/mfa.go.
use wow_dashboard_api.Prelude.{
  ℕ, ◌+◌, ◌≡◌, ◌≢◌, refl, ap, sym, ◌∙◌, String, true, false, List, [], ◌∷◌, arith, exists_where,
  update_where, Option-cases, Bool-cases, inl, inr,
}
use wow_dashboard_api.Prelude.Text.{trim_space, is_empty}
use wow_dashboard_api.Store.Schema.{RecoveryCode, MfaSecret}
use wow_dashboard_api.Store.Effect.{Env, World, Result, ok, err}
use wow_dashboard_api.Mfa.Store.{is_unused_code, use_code, get_mfa_secret, store_setup_secret}
use wow_dashboard_api.Mfa.Service.{
  MfaService, hash_recovery_code, is_valid, redeem_code, verify_with_secret, settle_secret, verify,
  setup, store_key,
}

exists_where-consumed :
    (user : ℕ) (hash : String) (at : ℕ) (cs : List RecoveryCode)
    → exists_where
        (is_unused_code user hash)
        (update_where (is_unused_code user hash) (use_code at) cs)
      ≡ false
exists_where-consumed user hash at [] = refl
exists_where-consumed user hash at (c ∷ cs) = ground (arith, exists_where-consumed user hash at cs)

-- A consumption makes no code unused.
exists_where-use_code :
    (user other : ℕ) (hash hash' : String) (at : ℕ) (cs : List RecoveryCode)
    → exists_where (is_unused_code user hash) cs ≡ false
    → exists_where
        (is_unused_code user hash)
        (update_where (is_unused_code other hash') (use_code at) cs)
      ≡ false
exists_where-use_code user other hash hash' at [] e = refl
exists_where-use_code user other hash hash' at (c ∷ cs) e =
    ground (arith, exists_where-use_code user other hash hash' at cs)

redeem_code-spends :
    (user : ℕ) (code : String) (env : Env) (w w' : World)
    → redeem_code user code env w ≡ (ok true, w')
    → exists_where (is_unused_code user (hash_recovery_code env code)) w'.db.recovery_codes ≡ false
unfolding redeem_code
redeem_code-spends user code env w w' e =
    let gone =
      exists_where-consumed user (hash_recovery_code env code) (env.clock w.calls)
        w.db.recovery_codes in
    ground arith

redeem_code-keeps :
    (user other : ℕ) (hash code : String) (env : Env) (w : World)
    → exists_where (is_unused_code user hash) w.db.recovery_codes ≡ false
    → exists_where (is_unused_code user hash) (redeem_code other code env w).1.db.recovery_codes
      ≡ false
unfolding redeem_code
redeem_code-keeps user other hash code env w e =
    let kept =
      exists_where-use_code user other hash (hash_recovery_code env code) (env.clock w.calls)
        w.db.recovery_codes e in
    ground arith

redeem_code-refuses :
    (user : ℕ) (code : String) (env : Env) (w : World)
    → exists_where (is_unused_code user (hash_recovery_code env code)) w.db.recovery_codes ≡ false
    → (redeem_code user code env w).0 ≢ ok true
unfolding redeem_code
redeem_code-refuses user code env w e h = ground arith

-- The text is no TOTP code of any secret at any time.
abbrev pub IsNoTotp : MfaService → String → Type 0
IsNoTotp s code =
    (plain : String) (at period : ℕ)
    → is_valid (s.validate_totp (trim_space code) plain at period) ≡ false

verify_with_secret-redeems :
    (s : MfaService) (user : ℕ) (code : String) (m : MfaSecret) (env : Env) (w w' : World)
    → ((plain : String) (at period : ℕ) → is_valid (s.validate_totp code plain at period) ≡ false)
    → verify_with_secret s user code m env w ≡ (ok true, w')
    → redeem_code user code env (record w { calls = w.calls + 1 }) ≡ (ok true, w')
unfolding verify_with_secret
verify_with_secret-redeems s user code m env w w' no_totp e =
    elim (Option-cases (s.decrypt m.secret_encrypted)) [
      | inl lost ↦ absurd (ground arith)
      | inr (plain, opened) ↦
          let refused = no_totp plain (env.clock w.calls) m.period in ground arith
    ]

settle_secret-redeems :
    (s : MfaService) (user : ℕ) (code : String) (found : Result MfaSecret) (env : Env)
    (w w' : World)
    → ((plain : String) (at period : ℕ) → is_valid (s.validate_totp code plain at period) ≡ false)
    → settle_secret s user code found env w ≡ (ok true, w')
    → redeem_code user code env (record w { calls = w.calls + 1 }) ≡ (ok true, w')
unfolding settle_secret
settle_secret-redeems s user code (ok m) env w w' no_totp e =
    verify_with_secret-redeems s user code m env w w' no_totp e
settle_secret-redeems s user code (err reason) env w w' no_totp e = absurd (ground arith)

pub get_mfa_secret-reads :
    (user : ℕ) (env : Env) (w : World)
    → (get_mfa_secret user env w).1 ≡ record w { calls = w.calls + 1 }
unfolding get_mfa_secret
get_mfa_secret-reads user env w = ground arith

-- How a verification ends that answers that the code is valid, where it is no TOTP code.
verify-redeems :
    (s : MfaService) (user : ℕ) (code : String) (env : Env) (w w' : World)
    → IsNoTotp s code
    → verify s user code env w ≡ (ok true, w')
    → redeem_code user (trim_space code) env (record w { calls = w.calls + 1 + 1 }) ≡ (ok true, w')
unfolding verify
verify-redeems s user code env w w' no_totp e = elim (Bool-cases (is_empty (trim_space code))) [
  | inl blank ↦ absurd (ground arith)
  | inr filled ↦
      let read = get_mfa_secret-reads user env w in
      ap (λ v. redeem_code user (trim_space code) env (record v { calls = v.calls + 1 })) (sym read)
      ∙ settle_secret-redeems s user (trim_space code) (get_mfa_secret user env w).0 env
          (get_mfa_secret user env w).1 w' no_totp (ground arith)
]

verify_with_secret-keeps :
    (s : MfaService) (user other : ℕ) (hash code : String) (m : MfaSecret) (env : Env) (w : World)
    → exists_where (is_unused_code user hash) w.db.recovery_codes ≡ false
    → exists_where
        (is_unused_code user hash)
        (verify_with_secret s other code m env w).1.db.recovery_codes
      ≡ false
unfolding verify_with_secret
verify_with_secret-keeps s user other hash code m env w e =
    elim (Option-cases (s.decrypt m.secret_encrypted)) [
      | inl lost ↦ ground arith
      | inr (plain, opened) ↦
          let kept =
            redeem_code-keeps user other hash code env (record w { calls = w.calls + 1 }) e in
          ground arith
    ]

settle_secret-keeps :
    (s : MfaService) (user other : ℕ) (hash code : String) (found : Result MfaSecret) (env : Env)
    (w : World)
    → exists_where (is_unused_code user hash) w.db.recovery_codes ≡ false
    → exists_where
        (is_unused_code user hash)
        (settle_secret s other code found env w).1.db.recovery_codes
      ≡ false
unfolding settle_secret
settle_secret-keeps s user other hash code (ok m) env w e =
    verify_with_secret-keeps s user other hash code m env w e
settle_secret-keeps s user other hash code (err reason) env w e = ground arith

-- A verification makes no code unused.
pub verify-keeps :
    (s : MfaService) (user other : ℕ) (hash code : String) (env : Env) (w : World)
    → exists_where (is_unused_code user hash) w.db.recovery_codes ≡ false
    → exists_where (is_unused_code user hash) (verify s other code env w).1.db.recovery_codes
      ≡ false
unfolding verify
verify-keeps s user other hash code env w e =
    let read = get_mfa_secret-reads other env w in
    let kept =
      settle_secret-keeps s user other hash (trim_space code) (get_mfa_secret other env w).0 env
        (record w { calls = w.calls + 1 }) e in
    ground arith

setup-keeps :
    (s : MfaService) (user : ℕ) (name : String) (env : Env) (w : World)
    → (setup s user name env w).1.db.recovery_codes ≡ w.db.recovery_codes
unfolding setup store_key store_setup_secret
setup-keeps s user name env w = ground arith

-- The requests that come after one another, each with its own environment: the second factor is
-- checked or set up again, with whatever answers.
pub data Later (s : MfaService) : World → World → Type 0 where
  same : (w : World) → Later s w w
  verified :
      (w w' : World) (user : ℕ) (code : String) (env : Env)
      → Later s w w'
      → Later s w (verify s user code env w').1
  set_up :
      (w w' : World) (user : ℕ) (name : String) (env : Env)
      → Later s w w'
      → Later s w (setup s user name env w').1

Later-spent :
    (s : MfaService) (user : ℕ) (hash : String) (w w' : World)
    → exists_where (is_unused_code user hash) w.db.recovery_codes ≡ false
    → Later s w w'
    → exists_where (is_unused_code user hash) w'.db.recovery_codes ≡ false
Later-spent s user hash w w' e (same v) = e
Later-spent s user hash w w' e (verified v v' other code env before) =
    verify-keeps s user other hash code env v' (Later-spent s user hash v v' e before)
Later-spent s user hash w w' e (set_up v v' other name env before) =
    let kept = setup-keeps s other name env v' in
    let spent = Later-spent s user hash v v' e before in ground arith

-- A recovery code that was accepted is refused from then on, however it is written and whatever
-- verifications and setups come between, where neither text is a TOTP code: it is accepted again by
-- no verification of the same user.
pub verify_recovery_once :
    (s : MfaService) (user : ℕ) (code again : String) (env env' : Env) (w w' later : World)
    → IsNoTotp s code
    → IsNoTotp s again
    → hash_recovery_code env' (trim_space again) ≡ hash_recovery_code env (trim_space code)
    → verify s user code env w ≡ (ok true, w')
    → Later s w' later
    → (verify s user again env' later).0 ≢ ok true
verify_recovery_once s user code again env env' w w' later no_totp no_totp' hashed e between e' =
    let redeemed = verify-redeems s user code env w w' no_totp e in
    let gone =
      Later-spent s user _ w' later (redeem_code-spends user _ env _ w' redeemed) between in
    let end = (verify s user again env' later).1 in
    let redeemed' = verify-redeems s user again env' later end no_totp' (ground arith) in
    redeem_code-refuses user (trim_space again) env' _
      (ap (λ h. exists_where (is_unused_code user h) later.db.recovery_codes) hashed ∙ gone)
      (ap (λ r. r.0) redeemed')
