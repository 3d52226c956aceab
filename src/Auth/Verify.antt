-- ===== src/Auth/Verify.antt =====
-- When a username and password are accepted, and what the extractor does otherwise.
use cro_pduster.Prelude.{
  ℕ, ◌≤◌, ◌<◌, ◌≡◌, ◌≢◌, refl, ◌∙◌, not, Option, some, none, [], Bytes, length, drop-replicate,
  append-nil, sym, ltb→lt, get_or, ltb, ◌==◌, eq_bytes, eq_bytes→eq, Option-cases, Bool-cases, inl,
  inr, arith, if◌then◌else◌, ◌↔◌,
}
use cro_pduster.Platform.{Heapless, IsBounded, Sha2, Ekv, IsAtomic, IsReliable}
use cro_pduster.Outcome.{Result, ok, err, panic, ok_or, reject}
use cro_pduster.Outcome.Chain.{◌>>=◌, ◌>>◌}
use cro_pduster.Storage.Keys.{user_pw_key}
use cro_pduster.Storage.Keys.Laws.{
  admin_key, ports_key, pw_key, user_admin_key_lem, user_ports_key_lem, user_pw_key_lem,
  user_admin_key_panics,
}
use cro_pduster.Auth.{
  AuthUser, AuthError, invalid_encoding, invalid_credentials, storage_error, into_buffer, verify,
}

-- The user that the stored flag and ports make.
abbrev pub user_of : Bytes → Bytes → Bytes → AuthUser
user_of username flag ports = record {
  username = username;
  is_admin = get_or (into_buffer 1 flag) 0 0 == b'1';
  allowed_ports = get_or (into_buffer 1 ports) 0 0;
}

pub into_buffer_full : (v : Bytes) (n : ℕ) → length v ≡ n → into_buffer n v ≡ v
into_buffer_full v n h = rw (← h, drop-replicate {A = ℕ} (length v) 0) (append-nil v)

module _ (H : Heapless) (S : Sha2) where
  -- The three reads are all that `verify` takes from the database.
  judge : Bytes → Bytes → Option Bytes → Option Bytes → Option Bytes → Result AuthError AuthUser
  judge username password pw flag ports = do
    stored_pw ← ok_or invalid_credentials pw
    reject (not (length stored_pw == 32)) invalid_credentials
    is_admin_bytes ← ok_or storage_error flag
    ports_bytes ← ok_or storage_error ports
    reject (not (eq_bytes (into_buffer 32 stored_pw) (S.sha256 password))) invalid_credentials
    uname ← ok_or invalid_encoding (H.extend_from_slice 32 [] username)
    ok (user_of uname is_admin_bytes ports_bytes)

module _ {H : Heapless} (B : IsBounded H) (S : Sha2) where
  judge_ok :
      (username password : Bytes) (pw flag ports : Option Bytes) (user : AuthUser)
      → judge H S username password pw flag ports ≡ ok user
      → (f : Bytes) × (q : Bytes) × (pw ≡ some (S.sha256 password))
        × (flag ≡ some f)
        × (ports ≡ some q)
        × (user ≡ user_of username f q)
        × (length username ≤ 32)
  unfolding judge
  judge_ok username password none flag ports user h = cc
  judge_ok username password (some v) none ports user h = ground arith
  judge_ok username password (some v) (some f) none user h = ground arith
  judge_ok username password (some v) (some f) (some q) user h = (
    f,
    q,
    ground (arith, into_buffer_full v 32, eq_bytes→eq (into_buffer 32 v) (S.sha256 password)),
    refl,
    refl,
    ground (arith, B.extend_fits 32 [] username, B.extend_full 32 [] username),
    ground (arith, B.extend_full 32 [] username),
  )

  judge_exact :
      (username password pw flag ports : Bytes)
      → length username ≤ 32
      → length pw ≡ 32
      → judge H S username password (some pw) (some flag) (some ports) ≡ (
          if eq_bytes pw (S.sha256 password)
          then ok (user_of username flag ports)
          else err invalid_credentials)
  unfolding judge
  judge_exact username password pw flag ports hu hp =
      ground (arith, into_buffer_full pw 32 hp, B.extend_fits 32 [] username)

  judge-ne-panic :
      (username password : Bytes) (pw flag ports : Option Bytes)
      → judge H S username password pw flag ports ≢ panic
  unfolding judge
  judge-ne-panic username password pw flag ports h = ground arith

module _ {H : Heapless} (B : IsBounded H) (S : Sha2) (E : Ekv) where
  verify_judges :
      (d : E.Db) (username password : Bytes)
      → length username ≤ 56
      → verify H S E d username password
        ≡ judge H S username password
            (E.read d (pw_key username) 32)
            (E.read d (admin_key username) 1)
            (E.read d (ports_key username) 1)
  unfolding verify judge
  verify_judges d username password h = rw (
    user_pw_key_lem B username (omega arith),
    user_admin_key_lem B username h,
    user_ports_key_lem B username h,
  )

  -- A username of more than 56 bytes makes `verify` panic, whatever is stored.
  pub verify_panics :
      (d : E.Db) (username password : Bytes)
      → 56 < length username
      → verify H S E d username password ≡ panic
  unfolding verify
  verify_panics d username password h = elim (Option-cases (user_pw_key H username)) [
    | inl e ↦ rw e
    | inr (k, e) ↦ rw (e, user_admin_key_panics B username h)
  ]

  -- `verify` panics on a username of more than 56 bytes, and on no other.
  pub verify_panics_iff :
      (d : E.Db) (username password : Bytes)
      → (verify H S E d username password ≡ panic) ↔ (56 < length username)
  verify_panics_iff d username password = (
    λ e. elim (Bool-cases (ltb 56 (length username))) [
      | inl big ↦ ltb→lt _ _ big
      | inr small ↦ absurd (
          judge-ne-panic B S username password _ _ _
            (sym (verify_judges d username password (ground arith)) ∙ e))
    ],
    verify_panics d username password,
  )

  -- Whoever is accepted has the password whose hash is stored for the username, and gets the flag
  -- and the ports that are stored for that username; the username has at most 32 bytes.
  pub verify_sound :
      IsAtomic E
      → (d : E.Db) (username password : Bytes) (user : AuthUser)
      → verify H S E d username password ≡ ok user
      → (flag : Bytes) × (ports : Bytes) × (E.stored d (pw_key username) ≡ some (S.sha256 password))
        × (E.stored d (admin_key username) ≡ some flag)
        × (E.stored d (ports_key username) ≡ some ports)
        × (user ≡ user_of username flag ports)
        × (length username ≤ 32)
        × (length flag ≤ 1)
        × (length ports ≤ 1)
  verify_sound L d username password user e = elim (Bool-cases (ltb 56 (length username))) [
    | inl big ↦ cc (e, verify_panics d username password (ltb→lt _ _ big))
    | inr small ↦
        let (flag, ports, pw, fl, po, us, fits) =
          judge_ok B S username password _ _ _ user
            (sym (verify_judges d username password (ground arith)) ∙ e) in
        (
          flag,
          ports,
          (L.read-stored d (pw_key username) _ 32 pw).0,
          (L.read-stored d (admin_key username) flag 1 fl).0,
          (L.read-stored d (ports_key username) ports 1 po).0,
          us,
          fits,
          (L.read-stored d (admin_key username) flag 1 fl).1,
          (L.read-stored d (ports_key username) ports 1 po).1,
        )
  ]

  -- On a reliable flash, a user whose entries are stored is accepted exactly with a password that
  -- has the stored hash, and is otherwise refused as `InvalidCredentials`.
  pub verify_exact :
      IsReliable E
      → (d : E.Db) (username password pw flag ports : Bytes) → length username ≤ 32
      → length pw ≡ 32
      → length flag ≤ 1
      → length ports ≤ 1
      → E.stored d (pw_key username) ≡ some pw
      → E.stored d (admin_key username) ≡ some flag
      → E.stored d (ports_key username) ≡ some ports
      → verify H S E d username password ≡ (
          if eq_bytes pw (S.sha256 password)
          then ok (user_of username flag ports)
          else err invalid_credentials)
  verify_exact R d username password pw flag ports hu h32 hf hp sp sf so =
      rw
        (
          verify_judges d username password (omega arith),
          R.read_ok d (pw_key username) pw 32 sp (omega arith),
          R.read_ok d (admin_key username) flag 1 sf hf,
          R.read_ok d (ports_key username) ports 1 so hp,
        )
        (judge_exact B S username password pw flag ports hu h32)

  -- A username that has no password stored is refused as `InvalidCredentials`.
  pub verify_unknown :
      IsAtomic E
      → (d : E.Db) (username password : Bytes) → length username ≤ 56
      → E.stored d (pw_key username) ≡ none
      → verify H S E d username password ≡ err invalid_credentials
  verify_unknown L d username password h missing =
      verify_judges d username password h ∙ elim (Option-cases (E.read d (pw_key username) 32)) [
        | inl e ↦ rw e (unfold judge in refl)
        | inr (v, e) ↦ cc (missing, (L.read-stored d (pw_key username) v 32 e).0)
      ]
