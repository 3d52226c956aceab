-- ===== src/Xtask/Ota/Examples.antt =====
-- An upload to a fresh device in memory.
use cro_pduster.Prelude.{false, [], ◌∷◌, ◌++◌, Bytes}
use cro_pduster.Platform.Memory.{sha2, ekv}
use cro_pduster.Platform.Partition.{updater, reader}
use cro_pduster.Platform.Updater.{Updater}
use cro_pduster.Transaction.{Entries}
use cro_pduster.Storage.Database.Defaults.{default_entries}
use cro_pduster.Web.Update.{Transfer}
use cro_pduster.Xtask.Uf2.RoundTrip.{zeros}

abbrev backwards : Entries → Entries → Entries
backwards [] done = done
backwards (e ∷ entries) done = backwards entries (e ∷ done)

-- The entry written last is found first.
abbrev fresh : ekv.Db
fresh = backwards (default_entries sha2) []

abbrev image : Bytes
image = 1 ∷ 2 ∷ 3 ∷ []

-- A flash that writes and reads single bytes.
abbrev byte_updater : Updater
byte_updater = record updater { aligned_size = 1 }

abbrev sent : Transfer byte_updater reader
sent = (image ++ zeros 3, (λ i. 0xFF, false))
