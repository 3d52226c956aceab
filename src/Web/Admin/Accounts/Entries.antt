-- ===== src/Web/Admin/Accounts/Entries.antt =====
-- The entries of an account under writes of other entries.
use cro_pduster.Prelude.{◌≡◌, ◌≢◌, sym, ◌∙◌, Option, Bytes}
use cro_pduster.Transaction.Laws.{overlay}
use cro_pduster.Storage.Keys.Laws.{
  admin_key, ports_key, pw_key, user_key, user_key-injective, pw-ne-admin, pw-ne-ports,
  ports-ne-admin,
}
use cro_pduster.Storage.UserEntries.{user_entries, overlay_other}
use cro_pduster.Web.Admin.Accounts.{Account, Holds, absent, deleted, present}

pub Holds-same :
    {pw flag ports pw' flag' ports' : Option Bytes} {o : Option Account}
    → pw' ≡ pw
    → flag' ≡ flag
    → ports' ≡ ports
    → Holds pw flag ports o
    → Holds pw' flag' ports' o
Holds-same ew ef ep (absent w) = absent (ew ∙ w)
Holds-same ew ef ep (deleted f p w hf lf hp lp) = deleted f p (ew ∙ w) (ef ∙ hf) lf (ep ∙ hp) lp
Holds-same ew ef ep (present a w l hf hp) = present a (ew ∙ w) l (ef ∙ hf) (ep ∙ hp)

module _ (name u : Bytes) (ne : name ≢ u) where
  differ : (field : Bytes) → user_key name field ≢ user_key u field
  differ field e = ne (user_key-injective name u field e)

  -- No key of one user is a key of another.
  pub entries_elsewhere :
      (flag ports pw : Bytes) (f : Bytes → Option Bytes)
      → (overlay (user_entries name flag ports pw) f (pw_key u) ≡ f (pw_key u))
        × (overlay (user_entries name flag ports pw) f (admin_key u) ≡ f (admin_key u))
        × (overlay (user_entries name flag ports pw) f (ports_key u) ≡ f (ports_key u))
  entries_elsewhere flag ports pw f =
      let other = overlay_other name flag ports pw f in
      (
        other (pw_key u) (λ e. pw-ne-admin u name (sym e)) (λ e. pw-ne-ports u name (sym e))
            (differ _),
        other (admin_key u) (differ _) (ports-ne-admin name u) (pw-ne-admin name u),
        other (ports_key u) (λ e. ports-ne-admin u name (sym e)) (differ _) (pw-ne-ports name u),
      )
