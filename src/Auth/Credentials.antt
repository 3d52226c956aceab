-- ===== src/Auth/Credentials.antt =====
-- What `credentials` accepts, and what it makes of it.
use cro_pduster.Prelude.{
  ℕ, suc, ◌≤◌, ◌≡◌, refl, ◌∙◌, true, Option, some, none, ◌∷◌, ◌++◌, Bytes, length, length-append,
  take, drop, Option-cases, inl, inr, arith,
}
use mathlib.Core.Path.{ap₂}
use cro_pduster.Platform.{Base64, IsCodec}
use cro_pduster.Outcome.{ok}
use cro_pduster.Text.{eq_ignore_ascii_case, is_utf8, find}
use cro_pduster.Text.Search.{
  NotIn, find-some, find-append, take-append, drop-append, drop-append_past,
}
use cro_pduster.Auth.{basic_prefix, credentials}

-- The last steps, once the text is decoded and its colon found.
abbrev Splits : Bytes → ℕ → Bytes → Bytes → Type 0
Splits decoded colon username password =
    (is_utf8 decoded ≡ true)
    × (take colon decoded ≡ username)
    × (drop (suc colon) decoded ≡ password)

module _ {B : Base64} (C : IsCodec B) where
  credentials_steps :
      (raw decoded : Bytes) (colon : ℕ) (username password : Bytes)
      → B.decode_slice (drop 6 raw) 128 ≡ some decoded
      → find b':' decoded ≡ some colon
      → credentials B (some raw) ≡ ok (username, password)
      → Splits decoded colon username password
  unfolding credentials
  credentials_steps raw decoded colon username password e found h = ground arith

  -- A header that is accepted decodes to the username, a colon and the password; the username holds
  -- no colon, and the whole is UTF-8 of at most 128 bytes.
  pub credentials_sound :
      (auth_header : Option Bytes) (username password : Bytes)
      → credentials B auth_header ≡ ok (username, password)
      → (raw : Bytes) × (auth_header ≡ some raw)
        × (B.decode_slice (drop 6 raw) 128 ≡ some (username ++ (b':' ∷ password)))
        × NotIn b':' username
        × (is_utf8 (username ++ (b':' ∷ password)) ≡ true)
        × (length (username ++ (b':' ∷ password)) ≤ 128)
  unfolding credentials
  credentials_sound none username password h = cc
  credentials_sound (some raw) username password h =
      elim (Option-cases (B.decode_slice (drop 6 raw) 128)) [
        | inl e ↦ ground arith
        | inr (decoded, e) ↦ elim (Option-cases (find b':' decoded)) [
          | inl none_found ↦ ground arith
          | inr (colon, found) ↦
              let (utf8, left, right) =
                credentials_steps raw decoded colon username password e found h in
              let (before, split, _) = find-some b':' decoded colon found in
              let whole : decoded ≡ username ++ (b':' ∷ password) =
                split ∙ ap₂ (λ a b. a ++ (b':' ∷ b)) left right in
              (
                raw,
                refl,
                rw (← whole) e,
                rw left at before,
                rw whole at utf8,
                rw whole at (C.decode_fits (drop 6 raw) decoded 128 e),
              )
        ]
      ]

  -- Every header made the way RFC 7617 says, in any case of `Basic`, is accepted and gives back
  -- the username and password that it was made of.
  pub credentials_header :
      (prefix username password : Bytes)
      → length prefix ≡ 6
      → eq_ignore_ascii_case prefix basic_prefix ≡ true
      → NotIn b':' username
      → is_utf8 (username ++ (b':' ∷ password)) ≡ true
      → length (username ++ (b':' ∷ password)) ≤ 128
      → credentials B (some (prefix ++ B.encode (username ++ (b':' ∷ password))))
        ≡ ok (username, password)
  unfolding credentials
  credentials_header prefix username password h6 hp hn hu hl =
      let text = username ++ (b':' ∷ password) in
      let decodes : B.decode_slice (B.encode text) 128 ≡ some text = C.decode-encode text 128 hl in
      let front : take 6 (prefix ++ B.encode text) ≡ prefix =
        rw (← h6) (take-append prefix (B.encode text)) in
      let back : drop 6 (prefix ++ B.encode text) ≡ B.encode text =
        rw (← h6) (drop-append prefix (B.encode text)) in
      ground (
        arith,
        front,
        back,
        decodes,
        find-append b':' username password hn,
        take-append username (b':' ∷ password),
        drop-append_past username b':' password,
        length-append prefix (B.encode text),
      )
