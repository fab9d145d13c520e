-- ===== src/Accounts/Codes.antt =====
-- Which codes and tokens the second step of a login accepts (app/services/totp.py, app/core/security.py).
use mathlib.Core.List.{Memᴰ}
use python_fastapi_multiauth.Common.{
  ℕ, ◌≡◌, refl, sym, ap, ◌∙◌, ◌⊎◌, inl, inr, true, Option, none, some, List, [], ◌∷◌, if◌then◌else◌,
  Bool-cases, List-cases, Option-cases, ok, only_row, select, save, arith,
}
use python_fastapi_multiauth.Totp.Service as Totp
use python_fastapi_multiauth.Totp.Service.{Packages, TotpSecret}
use python_fastapi_multiauth.Accounts.Tokens.{
  Jwt, Payload, TokenType, access, refresh, mfa, same_type, verify_token,
}

-- The code is the secret's at that time, or it fits one of the secret's backup codes.
abbrev pub CodeFits : Packages → (now code : ℕ) → TotpSecret → Type 0
CodeFits p now code s =
    (p.totp_verify (p.decrypt s.encrypted_secret) code now ≡ true)
    ⊎ (h : ℕ) × Memᴰ h s.backup_codes × (p.verify_password code h ≡ true)

find_code-fits :
    (p : Packages) (code h : ℕ) (codes : List ℕ)
    → Totp.find_code p code codes ≡ some h
    → Memᴰ h codes × (p.verify_password code h ≡ true)
unfolding Totp.find_code
find_code-fits p code h [] e = absurd (ground arith)
find_code-fits p code h (c ∷ codes) e = elim (Bool-cases (p.verify_password code c)) [
  | inl fits ↦ let same : c ≡ h = ground arith in (Memᴰ.head (sym same), rw same at fits)
  | inr other ↦
      let (later, fits) = find_code-fits p code h codes (ground arith) in (Memᴰ.tail later, fits)
]

-- A code that is accepted is right, and the secret that it fits is stored with the time of its use.
pub right-code :
    (p : Packages) (now : ℕ) (user : Totp.User) (code : ℕ) (rows secrets : List TotpSecret)
    → Totp.verify_totp_for_user p only_row now user code rows ≡ ok (true, secrets)
    → (s used : TotpSecret) × (select (Totp.enabled_for user.id) rows ≡ s ∷ [])
      × CodeFits p now code s
      × (used.last_used_at ≡ some now)
      × (secrets ≡ save Totp.secret_key used rows)
unfolding Totp.verify_totp_for_user
right-code p now user code rows secrets e =
    elim (List-cases (select (Totp.enabled_for user.id) rows)) [
      | inl absent ↦ absurd (ground arith)
      | inr (s, rest, found) ↦ elim (List-cases rest) [
        | inr (t, more, several) ↦ absurd (ground arith)
        | inl single ↦
            let row = found ∙ ap (λ l. s ∷ l) single in
            let used = record s { last_used_at = some now } in
            elim (Bool-cases (p.totp_verify (p.decrypt s.encrypted_secret) code now)) [
              | inl right ↦ (s, used, row, inl right, refl, ground arith)
              | inr wrong ↦ elim (Option-cases (Totp.find_code p code s.backup_codes)) [
                | inl none_fits ↦ absurd (ground arith)
                | inr (h, fits) ↦ (
                  s,
                  record used { backup_codes = Totp.flushed_codes p h s.backup_codes },
                  row,
                  inr (
                    h,
                    (find_code-fits p code h s.backup_codes fits).0,
                    (find_code-fits p code h s.backup_codes fits).1,
                  ),
                  refl,
                  ground arith,
                )
              ]
            ]
      ]
    ]

module _ (jwt : Jwt) (token now id : ℕ) where
  of_type :
      (claim : Option TokenType) (sub : Option ℕ)
      → (if same_type mfa claim then sub else none) ≡ some id
      → (claim ≡ some mfa) × (sub ≡ some id)
  unfolding same_type
  of_type (some mfa) sub e = (refl, e)
  of_type (some access) sub e = absurd (ground arith)
  of_type (some refresh) sub e = absurd (ground arith)
  of_type none sub e = absurd (ground arith)

  -- What `verify_token` returns for what decoding gave.
  of_payload :
      (decoded : Option Payload)
      → elim decoded [
        | none ↦ none
        | some payload ↦ if same_type mfa payload.type_ then payload.sub else none
      ]
        ≡ some id
      → decoded ≡ some (record { sub = some id; type_ = some mfa })
  of_payload none e = absurd (ground arith)
  of_payload (some payload) e =
      let (claim, sub) = of_type payload.type_ payload.sub e in
      ap (λ c. some (record { sub = payload.sub; type_ = c })) claim
      ∙ ap (λ s. some (record { sub = s; type_ = some mfa })) sub

  -- A token that is verified decodes to claims of that type that name the subject.
  pub named-decode :
      verify_token jwt token mfa now ≡ some id
      → jwt.decode token now ≡ some (record { sub = some id; type_ = some mfa })
  unfolding verify_token
  named-decode e = of_payload (jwt.decode token now) e
