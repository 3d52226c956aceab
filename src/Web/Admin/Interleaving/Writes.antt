-- ===== src/Web/Admin/Interleaving/Writes.antt =====
-- application/src/web/admin.rs: what the handlers and a change of another user write leaves a user's
-- password alone.
use cro_pduster.Prelude.{
  ℕ, ◌≤◌, ◌≡◌, ◌≢◌, refl, ap, sym, ◌∙◌, [], ◌∷◌, Bytes, codes, length, eq_bytes_ne, replicate,
  Bool-cases, inl, inr, arith, if◌then◌else◌,
}
use cro_pduster.Platform.{Heapless, IsBounded, Sha2, Ekv, IsAtomic}
use cro_pduster.Outcome.{err}
use cro_pduster.Transaction.{Entries}
use cro_pduster.Transaction.Laws.{Avoids, overlay-Avoids, transaction_untouched}
use cro_pduster.Storage.Keys.{key_admin_first_login}
use cro_pduster.Storage.Keys.Laws.{
  name_key, user_key, ports_key, pw_key, user_admin_key_lem, user_ports_key_lem, user_pw_key_lem,
  pw-ne-admin, pw-ne-ports, user_key-injective, user-ne-name, user-ne-first_login,
  port_name_key_lem,
}
use cro_pduster.Storage.UserEntries.{user_entries}
use cro_pduster.Auth.{AuthUser}
use cro_pduster.Web.Admin.{
  ApiError, ChangePasswordBody, CreateUserBody, SetPortsBody, PortNameBody, write_error,
  commit_error, write_all, write_each_ignoring, write_ignoring, handle_create_user,
  handle_set_user_ports, handle_delete_user, handle_port_name_set, store_password,
}
use cro_pduster.Web.Admin.Interleaving.{
  Call, create_user, set_user_ports, delete_user, port_name_set, factory_reset, Change, call_db,
  change_db,
}

-- The request leaves the password of `u` alone. Names have at most 32 bytes, as the bodies' types say.
abbrev pub IsApart : Bytes → Call → Type 0
IsApart u (create_user body) = (length body.username ≤ 32) × (body.username ≢ u)
IsApart u (set_user_ports name body) = length name ≤ 32
IsApart u (delete_user name) = (length name ≤ 32) × (name ≢ u)
IsApart u (port_name_set port body) = Unit
IsApart u factory_reset = ⊥

pw_key-ne : (u v : Bytes) → v ≢ u → pw_key v ≢ pw_key u
pw_key-ne u v ne e = ne (user_key-injective v u _ e)

module _ {E : Ekv} (L : IsAtomic E) (H : Heapless) (j : Bytes) where
  write_all-Avoids :
      (entries : Entries) (d : E.Db)
      → Avoids j entries
      → E.stored (write_all H E entries d).1 j ≡ E.stored d j
  write_all-Avoids entries d h = ground (
    arith,
    transaction_untouched L {X = ApiError} (err write_error) (err commit_error) entries d j refl
        refl (overlay-Avoids entries (E.stored d) j h),
  )

  staged-write_each_ignoring :
      (entries : Entries) (w : E.Wtx)
      → Avoids j entries
      → (E.staged (write_each_ignoring H E entries w) j ≡ E.staged w j)
        × (E.original (write_each_ignoring H E entries w) j ≡ E.original w j)
  unfolding write_each_ignoring
  staged-write_each_ignoring [] w h = (refl, refl)
  staged-write_each_ignoring ((k, v) ∷ entries) w h =
      let (st, orig) = staged-write_each_ignoring entries (E.write w k v).1 h.1 in
      (
        st ∙ ground (arith, L.staged-write w k v j, eq_bytes_ne k j h.0),
        orig ∙ L.original-write w k v j,
      )

  write_ignoring-Avoids :
      (entries : Entries) (d : E.Db)
      → Avoids j entries
      → E.stored (write_ignoring H E entries d).1 j ≡ E.stored d j
  unfolding write_ignoring
  write_ignoring-Avoids entries d h =
      let (st, orig) = staged-write_each_ignoring entries (E.begin d) h in
      ground (
        arith,
        L.stored-commit (write_each_ignoring H E entries (E.begin d)) j,
        st,
        orig,
        L.staged-begin d j,
        L.original-begin d j,
      )

  pub store_password-Avoids :
      (S : Sha2) (user : AuthUser) (body : ChangePasswordBody) (k : Bytes) (d : E.Db)
      → k ≢ j
      → key_admin_first_login ≢ j
      → E.stored (store_password H S E user body k d).1 j ≡ E.stored d j
  unfolding store_password
  store_password-Avoids S user body k d ne nf = elim (Bool-cases user.is_admin) [
    | inl e ↦ rw e (write_all-Avoids _ d (nf, (ne, tt)))
    | inr e ↦ rw e (write_all-Avoids _ d (ne, tt))
  ]

module _ {H : Heapless} (S : Sha2) {E : Ekv} (B : IsBounded H) (L : IsAtomic E) (u : Bytes) where
  -- The values do not matter.
  user_entries_avoid : (name : Bytes) → name ≢ u → Avoids (pw_key u) (user_entries name [] [] [])
  user_entries_avoid name ne = (
    λ e. pw-ne-admin u name (sym e),
    (λ e. pw-ne-ports u name (sym e), (pw_key-ne u name ne, tt)),
  )

  create_user_writes :
      (body : CreateUserBody) (d : E.Db)
      → length body.username ≤ 32
      → handle_create_user H S E body d
        ≡ write_all H E
            (user_entries body.username
              (if body.admin then codes "1" else codes "0")
              (body.ports ∷ [])
              (S.sha256 body.password))
            d
  unfolding handle_create_user
  create_user_writes body d h = rw (
    user_pw_key_lem B body.username (omega arith),
    user_admin_key_lem B body.username (omega arith),
    user_ports_key_lem B body.username (omega arith),
  )

  delete_user_writes :
      (name : Bytes) (d : E.Db)
      → length name ≤ 32
      → (handle_delete_user H E name d).1
        ≡ (write_ignoring H E (user_entries name (codes "0") (0 ∷ []) (replicate 32 0)) d).1
  unfolding handle_delete_user
  delete_user_writes name d h = ground (
    arith,
    user_pw_key_lem B name (omega arith),
    user_admin_key_lem B name (omega arith),
    user_ports_key_lem B name (omega arith),
  )

  pub ports_written :
      (name : Bytes) (body : SetPortsBody) (d : E.Db)
      → length name ≤ 32
      → handle_set_user_ports H E name body d
        ≡ write_all H E ((ports_key name, body.ports ∷ []) ∷ []) d
  unfolding handle_set_user_ports
  ports_written name body d h = rw (user_ports_key_lem B name (omega arith))

  pub port_name_keeps :
      (port : ℕ) (body : PortNameBody) (d : E.Db) (field : Bytes)
      → E.stored (handle_port_name_set H E port body d).1 (user_key u field)
        ≡ E.stored d (user_key u field)
  unfolding handle_port_name_set
  port_name_keeps port body d field = ground (
    arith,
    port_name_key_lem B port,
    write_all-Avoids L H (user_key u field) ((name_key port, body.name) ∷ []) d
        (λ e. user-ne-name u field port (sym e), tt),
  )

  pub call_keeps :
      (c : Call) (d : E.Db)
      → IsApart u c
      → E.stored (call_db H S E c d) (pw_key u) ≡ E.stored d (pw_key u)
  call_keeps (create_user body) d h =
      ap (λ r. E.stored r.1 (pw_key u)) (create_user_writes body d h.0)
      ∙ write_all-Avoids L H (pw_key u) _ d (user_entries_avoid body.username h.1)
  call_keeps (set_user_ports name body) d h =
      ap (λ r. E.stored r.1 (pw_key u)) (ports_written name body d h)
      ∙ write_all-Avoids L H (pw_key u) _ d (λ e. pw-ne-ports u name (sym e), tt)
  call_keeps (delete_user name) d h =
      ap (λ d'. E.stored d' (pw_key u)) (delete_user_writes name d h.0)
      ∙ write_ignoring-Avoids L H (pw_key u) _ d (user_entries_avoid name h.1)
  call_keeps (port_name_set port body) d h = port_name_keeps port body d _
  call_keeps factory_reset d h = absurd h

  pub change_keeps :
      (c : Change) (d : E.Db)
      → c.pw_key ≢ pw_key u
      → E.stored (change_db H S E c d) (pw_key u) ≡ E.stored d (pw_key u)
  change_keeps c d ne =
      store_password-Avoids L H (pw_key u) S c.user c.body c.pw_key d ne
        (λ e. user-ne-first_login u _ (sym e))
