-- ===== src/Web/Admin/Names.antt =====
-- Port names: what is set is what is read back.
use cro_pduster.Prelude.{
  ℕ, ◌≤◌, ◌<◌, ◌≡◌, refl, ◌∙◌, true, [], ◌∷◌, codes, length, ◌==◌, arith, if◌then◌else◌,
}
use cro_pduster.Platform.{Heapless, IsBounded, Ekv, IsAtomic, IsReliable}
use cro_pduster.Platform.Reads.{fitting, read_lem}
use cro_pduster.Outcome.{ok, err}
use cro_pduster.Text.{is_utf8}
use cro_pduster.Transaction.{Entries}
use cro_pduster.Transaction.Laws.{transaction_stores}
use cro_pduster.Storage.Keys.Laws.{name_key, port_name_key_lem}
use cro_pduster.Auth.{bad_request}
use cro_pduster.Web.Admin.{
  ApiError, PortNameBody, api_ok, write_error, commit_error, name_of, handle_port_name_set,
  handle_port_name_get,
}

module _ {H : Heapless} {E : Ekv} where
  module _ (B : IsBounded H) (L : IsAtomic E) (R : IsReliable E) where
    get_lem :
        {X : Type 0} (port : ℕ) (d : E.Db)
        → handle_port_name_get H E {X = X} port d
          ≡ ok (record { name = name_of H E (fitting 16 (E.stored d (name_key port))) })
    unfolding handle_port_name_get
    get_lem port d = ground (arith, port_name_key_lem B port, read_lem L R d (name_key port) 16)

    -- A name set for one of the eight ports is read back from that port, and every other port, of
    -- all that a request can ask for, reads as before. (The body of the request is a text of at
    -- most 16 bytes. The flash is reliable.)
    pub port_name_get-set :
        {X : Type 0} (port other : ℕ) (body : PortNameBody) (d : E.Db)
        → port < 8
        → other < 256
        → length body.name ≤ 16
        → is_utf8 body.name ≡ true
        → (d' : E.Db) × (handle_port_name_set H E port body d ≡ (ok api_ok, d'))
          × (handle_port_name_get H E {X = X} other d' ≡ (
              if port == other
              then ok (record { name = body.name })
              else handle_port_name_get H E other d))
    unfolding handle_port_name_set
    port_name_get-set {X} port other body d hp ho hl hu =
        let entries : Entries = (name_key port, body.name) ∷ [] in
        let (d', ran, s) =
          transaction_stores L R {X = ApiError} (err write_error) (err commit_error) entries d refl
            refl (tt, omega arith, omega arith, tt) in
        (
          d',
          ground (arith, port_name_key_lem B port, ran),
          get_lem other d'
              ∙ ground (
                arith,
                s (name_key other),
                get_lem {X = X} other d,
                B.extend_fits 16 [] body.name (omega arith),
              ),
        )

    -- A port that does not exist is refused, and nothing changes.
    pub port_name_set_invalid :
        (port : ℕ) (body : PortNameBody) (d : E.Db)
        → 8 ≤ port
        → handle_port_name_set H E port body d ≡ (err (bad_request, codes "Invalid port"), d)
    unfolding handle_port_name_set
    port_name_set_invalid port body d h = ground arith
