-- ===== src/Web/Update/Interleaving/Examples.antt =====
-- The theorem about interleaved uploads at a concrete run.
use cro_pduster.Prelude.{ℕ, ◌≡◌, refl, true, false, [], ◌∷◌, Bytes}
use cro_pduster.Platform.Memory.{heapless, sha2, base64, ekv}
use cro_pduster.Platform.Partition.{
  updater, updater-IsUpdater, updater-IsTestedFirst, reader, reader-IsStream,
}
use cro_pduster.Web.Update.Refusal.{post}
use cro_pduster.Web.Update.Examples.{accounts, header, authorized}
use cro_pduster.Web.Update.Interleaving.{
  Upload, Server, begin, step_task, stepped, all_waiting, accept, advance, Reach, here, next,
}
use cro_pduster.Web.Update.Interleaving.Sources.{IsCovered}
use cro_pduster.Web.Update.Interleaving.Whole.{marked_blocks_whole}

-- Every upload is of three bytes, those of upload `i` all `i`.
abbrev uploads : ℕ → Upload Bytes
uploads i = record {
  method = post;
  auth_header = header;
  content_length = 3;
  body = i ∷ i ∷ i ∷ [];
}

abbrev erased : updater.Flash
erased = (λ i. 0xFF, false)

abbrev advanced : ℕ → Server updater.Flash Bytes → Server updater.Flash Bytes
advanced i s = stepped updater reader s i (step_task updater reader (s.tasks i) s.flash)

abbrev accepted : ℕ → Server updater.Flash Bytes → Server updater.Flash Bytes
accepted i s = stepped updater reader s i (begin (uploads i), s.flash)

-- Both uploads are accepted; upload 1 writes its block, upload 2 writes over it, and upload 1 marks.
abbrev raced : Server updater.Flash Bytes
raced =
    advanced 1
      (advanced 2 (advanced 1 (accepted 2 (accepted 1 (all_waiting updater reader erased)))))

race :
    Reach updater reader heapless sha2 ekv base64 accounts uploads
      (all_waiting updater reader erased)
      raced
race =
    next
      (next
        (next (next (next here (accept 1 authorized refl)) (accept 2 authorized refl)) (advance 1))
        (advance 2))
      (advance 1)

raced_marked : raced.flash.1 ≡ true
unfolding step_task
raced_marked = refl

-- The block is of upload 2, although upload 1 is what is done.
raced_block : raced.flash.0 0 ≡ 2
unfolding step_task
raced_block = refl

marked_blocks_whole_example :
    IsCovered updater reader heapless sha2 ekv base64 accounts uploads raced.flash
marked_blocks_whole_example =
    marked_blocks_whole updater reader heapless sha2 ekv base64 accounts uploads updater-IsUpdater
      updater-IsTestedFirst reader-IsStream erased raced race refl raced_marked
